-- ===== src/Main/Turns.antt =====
-- The turns of `main`'s loop: what every reachable state has.
use simple_http.Base.{
  refl, ◌∙◌, ap, ◌≡◌, sym, subst, true, false, Bool, Bool-cases, inl, inr, Option, none, some, List,
  [], ◌∷◌, ℕ, ltb, All,
}
use simple_http.Base.Int.{pos}
use simple_http.Effects.{bind, ◌>>=◌, World, Run, done, alloc, alloc_or_fatal, granted, later}
use simple_http.Effects.Returns.{Returns, Returns-bind, Returns-mono}
use simple_http.Effects.Safe.{Safe-mono, Returns-Safe, Safe, Safe-bind}
use simple_http.System.{System}
use simple_http.Plugin.{Loader}
use simple_http.Setup.{Driver}
use simple_http.VirtualPath.{Lua}
use simple_http.Job.{Revents, hung_up, readable}
use simple_http.Socket.{OpenSocket, Net, Inet, domtosize}
use simple_http.Main
use simple_http.Main.{
  Outcome, exited, waits, goes_on, Server, Arrival, Reach, Turn, turn, take_client, find_domain,
  watch,
}
use simple_http.Main.Loop.{
  Runs, has, has_self, find_domain-Known, Accepted, accept-Accepted, log_client_sized, on_fork-Left,
  Left,
}

module _ (sys : System) (lua : Lua) (inet : Inet) (loader : Loader) (drv : Driver) (net : Net)
    (fds : List ℕ) where
  abbrev pub Stays : Outcome → World → Type 0
  Stays exited w = Unit
  Stays (waits s) w = Runs net fds s w
  Stays (goes_on s) w = Runs net fds s w

  -- Behind the block for the client's address.
  accepted-Left :
      (s : Server) (a : Arrival) (e : OpenSocket) (w : World)
      → has e.fd net.open_sockets ≡ true
      → Runs net fds s w
      → Returns (Left net fds s a w) (
          bind (Main.accept a.client w) (λ c.
            Main.log_client inet (domtosize (find_domain e.fd s.net.open_sockets (pos 0))) c.1
            >>= (λ _. Main.on_fork sys lua inet loader drv s a c.0 a.forks)))
  accepted-Left s a e w h r =
      Returns-bind (Accepted w) _ (Main.accept a.client w) _ (accept-Accepted a.client w)
        (λ c u acc.
          Returns-bind _ _
            (Main.log_client inet (domtosize (find_domain e.fd s.net.open_sockets (pos 0))) c.1 u) _
            (log_client_sized inet _ c.1 u sized)
            (λ _ v same.
              subst
                (λ x.
                  Returns (Left net fds s a w)
                    (Main.on_fork sys lua inet loader drv s a c.0 a.forks x))
                (sym same)
                (on_fork-Left sys lua inet loader drv net fds s a a.forks w u c.0 c.1 refl r acc)))
    where
      sized : ltb 0 (domtosize (find_domain e.fd s.net.open_sockets (pos 0))) ≡ true
      sized = rw r.kept (find_domain-Known e.fd net.open_sockets (pos 0) h r.listens.known)

  abbrev behind : World → World
  behind w = record w { allocs = later w.allocs }

  behind_alloc : (s : Server) (w : World) → Runs net fds s w → Runs net fds s (behind w)
  behind_alloc s w r = record { kept = r.kept; listens = r.listens; held = r.held }

  Left-Stays :
      (s : Server) (a : Arrival) (w : World) (o : Outcome) (w' : World)
      → Left net fds s a w o w'
      → Stays o w'
  Left-Stays s a w exited w' l = tt
  Left-Stays s a w (waits s') w' (e, r) = r
  Left-Stays s a w (goes_on s') w' (_, f) = f.runs

  Left-behind :
      (s : Server) (a : Arrival) (w : World) (o : Outcome) (w' : World)
      → later w.allocs ≡ w.allocs
      → Left net fds s a (behind w) o w'
      → Left net fds s a w o w'
  Left-behind s a w exited w' e l = l
  Left-behind s a w (waits s') w' e l = l
  Left-behind s a w (goes_on s') w' e (b, f) =
      (b, record { runs = f.runs; allocs = f.allocs ∙ e; counted = f.counted })

  take_client-Runs :
      (s : Server) (a : Arrival) (e : OpenSocket) (w : World)
      → has e.fd net.open_sockets ≡ true
      → Runs net fds s w
      → Safe Stays (take_client sys lua inet loader drv s a e w)
  unfolding take_client alloc_or_fatal alloc
  take_client-Runs s a e w h r = elim (Bool-cases (granted w.allocs)) [
    | inr g ↦ rw g tt
    | inl g ↦ rw g (
        Safe-mono (Left net fds s a (behind w)) Stays _
          (Returns-Safe (Left net fds s a (behind w)) _
            (accepted-Left s a e (behind w) h (behind_alloc s w r)))
          (Left-Stays s a (behind w)))
  ]

  pub take_client-Left :
      (s : Server) (a : Arrival) (e : OpenSocket) (w : World)
      → has e.fd net.open_sockets ≡ true
      → Runs net fds s w
      → w.allocs ≡ []
      → Returns (Left net fds s a w) (take_client sys lua inet loader drv s a e w)
  unfolding take_client alloc_or_fatal alloc
  take_client-Left s a e w h r memory =
      let g : granted w.allocs ≡ true = ap granted memory in
      let l : later w.allocs ≡ w.allocs = ap later memory ∙ sym memory in
      rw g (
        Returns-mono (Left net fds s a (behind w)) (Left net fds s a w) _
          (accepted-Left s a e (behind w) h (behind_alloc s w r))
          (λ o w' f. Left-behind s a w o w' l f))

  take_if-Runs :
      (b : Bool) (s : Server) (a : Arrival) (e : OpenSocket) (w : World)
      → has e.fd net.open_sockets ≡ true
      → Runs net fds s w
      → Safe Stays (Main.take_if sys lua inet loader drv s a e b w)
  unfolding Main.take_if
  take_if-Runs false s a e w h r = r
  take_if-Runs true s a e w h r = take_client-Runs s a e w h r

  -- The next sockets, where the loop goes on.
  then_on-Stays :
      (again : Server → World → Run Outcome)
      → ((s : Server) (u : World) → Runs net fds s u → Safe Stays (again s u))
      → (o : Outcome) (u : World) → Stays o u
      → Safe Stays (Main.then_on sys lua inet loader drv again o u)
  then_on-Stays again stays exited u r = tt
  then_on-Stays again stays (waits s) u r = r
  then_on-Stays again stays (goes_on s) u r = stays s u r

  watch-Stays :
      (s : Server) (es : List OpenSocket) (events : List (Revents × Arrival)) (w : World)
      → All (λ e. has e.fd net.open_sockets ≡ true) es
      → Runs net fds s w
      → Safe Stays (watch sys lua inet loader drv s es events w)
  unfolding watch Main.on_event
  watch-Stays s [] events w _ r = r
  watch-Stays s (e ∷ es) [] w _ r = r
  watch-Stays s (e ∷ es) ((v, a) ∷ events) w (h, hs) r = elim (Bool-cases (hung_up v)) [
    | inl hung ↦ rw hung tt
    | inr alive ↦ rw alive (
        Safe-bind _ _ (Main.take_if sys lua inet loader drv s a e (readable v) w) _
          (take_if-Runs (readable v) s a e w h r)
          (then_on-Stays (λ s'. watch sys lua inet loader drv s' es events)
            (λ s' u r'. watch-Stays s' es events u hs r')))
  ]

  -- From a server that listens, a turn of the loop meets no undefined behaviour, whatever the poll
  -- reports: it aborts, ends the process, or leaves a server that still listens to the same table,
  -- which goes on or waits for a child. The domain that it finds for a socket always has an
  -- address, so that the block for the client's address is never empty.
  pub turn-Stays :
      (s : Server) (events : Option (List (Revents × Arrival))) (w : World)
      → Runs net fds s w
      → Safe Stays (turn sys lua inet loader drv s events w)
  unfolding turn
  turn-Stays s none w r = tt
  turn-Stays s (some events) w r =
      watch-Stays s s.net.open_sockets events w (rw r.kept (has_self net.open_sockets)) r

  abbrev pub RunsAt : Server × World → Type 0
  RunsAt x = Runs net fds x.0 x.1

  done_safe :
      (P : Outcome → World → Type 0) (r : Run Outcome) (s : Outcome) (w : World)
      → r ≡ done s w
      → Safe P r
      → P s w
  done_safe P r s w e h = subst (Safe P) e h

  Turn-Runs : {x y : Server × World} → Turn sys lua inet loader drv x y → RunsAt x → RunsAt y
  Turn-Runs (Main.polled s s' w w' events e) r =
      done_safe Stays (turn sys lua inet loader drv s (some events) w) (goes_on s') w' e
        (turn-Stays s (some events) w r)

  -- In every state that the loop of `main` reaches, whatever clients, `fork`, memory and children
  -- do: the table of listening sockets is the one of the start, its descriptors are open, and
  -- beside the descriptors of the start the parent holds only those of the clients for whom `fork`
  -- failed, which it never closes.
  pub Reach-Runs : {x y : Server × World} → RunsAt x → Reach sys lua inet loader drv x y → RunsAt y
  Reach-Runs r Main.at_start = r
  Reach-Runs r (Main.next reach t) = Turn-Runs t (Reach-Runs r reach)
