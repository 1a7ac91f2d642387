-- ===== src/Main/Progress.antt =====
-- A turn of `main`'s loop, with the wait for its children.
use simple_http.Base.{
  ◌&&◌, ◌||◌, refl, ◌≡◌, sym, ap, subst, ◌∙◌, true, false, Bool, some, List, [], ◌∷◌, ℕ, ◌+◌,
  length, All, if◌then◌else◌, arith,
}
use simple_http.Effects.{World, Run}
use simple_http.Effects.Returns.{Returns, Returns-bind, Returns-mono}
use simple_http.System.{System}
use simple_http.Plugin.{Loader}
use simple_http.Setup.{Driver}
use simple_http.VirtualPath.{Lua}
use simple_http.Job.{Revents, hung_up, readable}
use simple_http.Socket.{OpenSocket, Net, Inet}
use simple_http.Main
use simple_http.Main.{Outcome, exited, waits, goes_on, Server, Arrival, turn, take_client, watch}
use simple_http.Main.Loop.{Runs, Left, stuck, child_of, has, has_self}
use simple_http.Main.Turns.{take_client-Left}

-- The children that a poll makes: one for each socket that is readable and whose `fork` succeeds.
abbrev pub children_of : List OpenSocket → List (Revents × Arrival) → ℕ
children_of [] events = 0
children_of (e ∷ es) [] = 0
children_of (e ∷ es) ((v, a) ∷ events) =
    (if readable v then child_of a.forks else 0) + children_of es events

-- Whether one of them does not end.
abbrev pub stalls : List OpenSocket → List (Revents × Arrival) → Bool
stalls [] events = false
stalls (e ∷ es) [] = false
stalls (e ∷ es) ((v, a) ∷ events) = (readable v && stuck a) || stalls es events

module _ (sys : System) (lua : Lua) (inet : Inet) (loader : Loader) (drv : Driver) (net : Net)
    (fds : List ℕ) where
  -- The server behind a turn that made `n` children: it goes on exactly where each of them ends.
  abbrev pub Back : Server → ℕ → Bool → Outcome → World → Type 0
  Back s n b exited w = ⊥
  Back s n b (waits s') w = (b ≡ true) × Runs net fds s' w
  Back s n b (goes_on s') w =
      (b ≡ false)
      × Runs net fds s' w
      × (w.allocs ≡ [])
      × (length s'.children ≡ length s.children + n)

  taken :
      (b : Bool) (s : Server) (a : Arrival) (e : OpenSocket) (w : World)
      → has e.fd net.open_sockets ≡ true
      → Runs net fds s w
      → w.allocs ≡ []
      → Returns
          (Back s (if b then child_of a.forks else 0) (b && stuck a))
          (Main.take_if sys lua inet loader drv s a e b w)
  unfolding Main.take_if
  taken false s a e w h r m = (refl, r, m, omega arith)
  taken true s a e w h r m =
      Returns-mono (Left net fds s a w) _ _
        (take_client-Left sys lua inet loader drv net fds s a e w h r m) ended
    where
      ended :
          (o : Outcome) (w' : World)
          → Left net fds s a w o w'
          → Back s (child_of a.forks) (stuck a) o w'
      ended exited w' l = l
      ended (waits s') w' l = l
      ended (goes_on s') w' (b, f) = (b, f.runs, f.allocs ∙ m, f.counted)

  more :
      (s s' : Server) (n k : ℕ) (b c : Bool) (o : Outcome) (w : World)
      → b ≡ false
      → length s'.children ≡ length s.children + n
      → Back s' k c o w
      → Back s (n + k) (b || c) o w
  more s s' n k b c exited w f e l = l
  more s s' n k b c (waits t) w f e (l, r) = (rw (f, l), r)
  more s s' n k b c (goes_on t) w f e (l, r, m, q) = (rw (f, l), r, m, omega (arith, e, q))

  -- The next sockets, behind a turn that goes on.
  then_on-Back :
      (s : Server) (n k : ℕ) (b c : Bool) (again : Server → World → Run Outcome)
      → ((s' : Server) (u : World)
          → Runs net fds s' u
          → u.allocs ≡ []
          → Returns (Back s' k c) (again s' u))
      → (o : Outcome) (u : World) → Back s n b o u
      → Returns (Back s (n + k) (b || c)) (Main.then_on sys lua inet loader drv again o u)
  then_on-Back s n k b c again back exited u l = l
  then_on-Back s n k b c again back (waits s') u (l, r) = (rw l, r)
  then_on-Back s n k b c again back (goes_on s') u (l, r, m, q) =
      Returns-mono (Back s' k c) _ _ (back s' u r m) (λ o w' h. more s s' n k b c o w' l q h)

  watch-Back :
      (s : Server) (es : List OpenSocket) (events : List (Revents × Arrival)) (w : World)
      → All (λ e. has e.fd net.open_sockets ≡ true) es
      → All (λ v. hung_up v.0 ≡ false) events
      → Runs net fds s w
      → w.allocs ≡ []
      → Returns
          (Back s (children_of es events) (stalls es events))
          (watch sys lua inet loader drv s es events w)
  unfolding watch Main.on_event
  watch-Back s [] events w _ _ r m = (refl, r, m, omega arith)
  watch-Back s (e ∷ es) [] w _ _ r m = (refl, r, m, omega arith)
  watch-Back s (e ∷ es) ((v, a) ∷ events) w (h, hs) (alive, lives) r m = rw alive (
      Returns-bind _ _ (Main.take_if sys lua inet loader drv s a e (readable v) w) _
        (taken (readable v) s a e w h r m)
        (then_on-Back s _ (children_of es events) (readable v && stuck a) (stalls es events)
          (λ s'. watch sys lua inet loader drv s' es events)
          (λ s' u r' m'. watch-Back s' es events u hs lives r' m')))

  -- From a server that listens, with memory, a turn of the loop whose poll reports no hang-up
  -- neither aborts nor ends the process, whatever `accept`, `fork` and the children do. Where
  -- every child that it makes comes to its end, it comes back to the poll: the server still
  -- listens to the same table, and it has one child more for each socket that was readable and
  -- whose `fork` succeeded. Where one of them does not end, the parent stands in `wait` for ever,
  -- with the same table.
  pub turn-Back :
      (s : Server) (events : List (Revents × Arrival)) (w : World)
      → All (λ v. hung_up v.0 ≡ false) events
      → Runs net fds s w
      → w.allocs ≡ []
      → Returns
          (Back s (children_of net.open_sockets events) (stalls net.open_sockets events))
          (turn sys lua inet loader drv s (some events) w)
  unfolding turn
  turn-Back s events w lives r m =
      subst
        (λ es.
          Returns (Back s (children_of net.open_sockets events) (stalls net.open_sockets events))
            (watch sys lua inet loader drv s es events w))
        (ap (λ (n : Net). n.open_sockets) (sym r.kept))
        (watch-Back s net.open_sockets events w (has_self net.open_sockets) lives r m)
