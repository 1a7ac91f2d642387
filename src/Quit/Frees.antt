-- ===== src/Quit/Frees.antt =====
-- What the quit handler gives back: every block once.
use simple_http.Base.{
  ℕ, ◌≡◌, ◌≢◌, refl, ◌∙◌, Bool, true, false, if◌then◌else◌, List, [], ◌∷◌, ◌++◌, Bytes, map, All,
  All-append, ◌==◌, ==_refl,
}
use simple_http.Base.Int.{ℤ, pos, negsuc, eq_int}
use simple_http.Effects.{World, done, close, is_open, without}
use simple_http.FreeStack.{FreeStack}
use simple_http.FreeStack.Laws.{IsStack, contents, drain-contents}
use simple_http.Parser.Closing.{is_open-without}
use simple_http.Plugin.{Loader, unload_all_plugins, PluginStatus}
use simple_http.Socket.{OpenSocket, Net}
use simple_http.Socket.Table.{Apart}
use simple_http.Setup.{Driver}
use simple_http.Quit
use simple_http.Quit.{
  Block, addr_of, conf_of, saved, socket_array, routes_root, server_root, driver, Cleanup, ctrl_c_h,
}

-- The descriptors behind a loop that closes the listening sockets.
abbrev pub all_closed : List OpenSocket → List ℕ → List ℕ
all_closed [] fds = fds
all_closed (e ∷ es) fds = all_closed es (without e.fd fds)

-- No element stands twice in a list.
abbrev pub NoDup {ℓ} : {A : Type ℓ} → List A → Type ℓ
NoDup [] = Unit
NoDup (x ∷ xs) = All (λ y. y ≢ x) xs × NoDup xs

NoDup-append {ℓ} :
    {A : Type ℓ} (xs ys : List A)
    → NoDup xs
    → NoDup ys
    → All (λ x. All (λ y. y ≢ x) ys) xs
    → NoDup (xs ++ ys)
NoDup-append [] ys _ d _ = d
NoDup-append (x ∷ xs) ys (n, d) e (a, as_) = (All-append _ xs ys n a, NoDup-append xs ys d e as_)

abbrev blocks : List OpenSocket → List Block
blocks [] = []
blocks (e ∷ es) = addr_of e.fd ∷ conf_of e.fd ∷ blocks es

free_sockets_lem :
    (es : List OpenSocket) (w : World)
    → Quit.free_sockets es w ≡ done (blocks es) (record w { fds = all_closed es w.fds })
unfolding Quit.free_sockets close
free_sockets_lem [] w = refl
free_sockets_lem (e ∷ es) w = rw (free_sockets_lem es (record w { fds = without e.fd w.fds }))

-- Closing does not open.
stays_closed :
    (n : ℕ) (es : List OpenSocket) (fds : List ℕ)
    → is_open (pos n) fds ≡ false
    → is_open (pos n) (all_closed es fds) ≡ false
stays_closed n [] fds h = h
stays_closed n (e ∷ es) fds h =
    stays_closed n es (without e.fd fds) (is_open-without n e.fd fds ∙ either (e.fd == n))
  where
    either : (b : Bool) → (if b then false else is_open (pos n) fds) ≡ false
    either true = refl
    either false = h

all_closed-IsClosed :
    (es : List OpenSocket) (fds : List ℕ)
    → All (λ e. is_open (pos e.fd) (all_closed es fds) ≡ false) es
all_closed-IsClosed [] fds = tt
all_closed-IsClosed (e ∷ es) fds = (
  stays_closed e.fd es (without e.fd fds) (is_open-without e.fd e.fd fds ∙ rw (==_refl e.fd)),
  all_closed-IsClosed es (without e.fd fds),
)

others_differ :
    (n : ℕ) (es : List OpenSocket)
    → All (λ other. other.fd ≢ n) es
    → All (λ b. b ≢ addr_of n) (blocks es) × All (λ b. b ≢ conf_of n) (blocks es)
others_differ n [] _ = (tt, tt)
others_differ n (e ∷ es) (ne, h) =
    let (a, c) = others_differ n es h in
    (((λ q. ne cc), ((λ q. cc), a)), ((λ q. cc), ((λ q. ne cc), c)))

blocks-NoDup : (es : List OpenSocket) → Apart es → NoDup (blocks es)
blocks-NoDup [] _ = tt
blocks-NoDup (e ∷ es) (h, a) =
    let (x, y) = others_differ e.fd es h in (((λ q. cc), x), (y, blocks-NoDup es a))

saved_differ : (n : ℕ) (ps : List ℕ) → All (λ p. p ≢ n) ps → All (λ b. b ≢ saved n) (map saved ps)
saved_differ n [] _ = tt
saved_differ n (p ∷ ps) (ne, h) = ((λ q. ne cc), saved_differ n ps h)

saved-NoDup : (ps : List ℕ) → NoDup ps → NoDup (map saved ps)
saved-NoDup [] _ = tt
saved-NoDup (p ∷ ps) (n, d) = (saved_differ p ps n, saved-NoDup ps d)

saved_other : (b : Block) (ps : List ℕ) → ((n : ℕ) → saved n ≢ b) → All (λ y. y ≢ b) (map saved ps)
saved_other b [] h = tt
saved_other b (p ∷ ps) h = (h p, saved_other b ps h)

abbrev others : List ℕ → List Block
others ps = socket_array ∷ routes_root ∷ server_root ∷ driver ∷ map saved ps

others-NoDup : (ps : List ℕ) → NoDup ps → NoDup (others ps)
others-NoDup ps d = (
  ((λ q. cc), ((λ q. cc), ((λ q. cc), saved_other socket_array ps (λ n q. cc)))),
  (
    ((λ q. cc), ((λ q. cc), saved_other routes_root ps (λ n q. cc))),
    (
      ((λ q. cc), saved_other server_root ps (λ n q. cc)),
      (saved_other driver ps (λ n q. cc), saved-NoDup ps d),
    ),
  ),
)

blocks_apart :
    (es : List OpenSocket) (ps : List ℕ) → All (λ x. All (λ y. y ≢ x) (others ps)) (blocks es)
blocks_apart [] ps = tt
blocks_apart (e ∷ es) ps = (
  ((λ q. cc), ((λ q. cc), ((λ q. cc), ((λ q. cc), saved_other (addr_of e.fd) ps (λ n q. cc))))),
  (
    ((λ q. cc), ((λ q. cc), ((λ q. cc), ((λ q. cc), saved_other (conf_of e.fd) ps (λ n q. cc))))),
    blocks_apart es ps,
  ),
)

free_stack_lem :
    (stack : FreeStack) (w : World)
    → IsStack stack
    → All (λ p. p ≢ 0) (contents stack)
    → Quit.free_stack stack w ≡ done (map saved (contents stack)) w
unfolding Quit.free_stack
free_stack_lem stack w i live = rw (drain-contents stack i live, Quit.free_stack)

-- Where the table's descriptors differ, the stack of pointers is within its array and holds no
-- NULL and no pointer twice, and unloading the plugins succeeds, the quit handler returns: it
-- gives no block back twice, closes every listening socket, and runs the shutdown of the plugins
-- that unloading gives; it sends nothing.
pub ctrl_c_h-NoDup :
    (loader : Loader) (drv : Driver) (net : Net) (stack : FreeStack) (sigframe : ℤ) (w : World)
    (status : PluginStatus) (files : List Bytes)
    → Apart net.open_sockets
    → IsStack stack
    → All (λ p. p ≢ 0) (contents stack)
    → NoDup (contents stack)
    → ((u : World) → unload_all_plugins loader drv.plugins.plugins u ≡ done (status, files) u)
    → (c : Cleanup) × (u : World) × (ctrl_c_h loader drv net stack sigframe w ≡ done c u)
      × NoDup c.freed
      × All (λ e. is_open (pos e.fd) u.fds ≡ false) net.open_sockets
      × (c.shut_down ≡ files)
      × (u.sent ≡ w.sent)
unfolding ctrl_c_h
ctrl_c_h-NoDup loader drv net stack sigframe w status files apart i live differ unload = (
  record {
    freed = blocks net.open_sockets ++ others (contents stack);
    shut_down = files;
    exits = if eq_int sigframe (negsuc 0) then false else true;
  },
  record w { fds = all_closed net.open_sockets w.fds },
  rw (
    free_sockets_lem net.open_sockets w,
    unload (record w { fds = all_closed net.open_sockets w.fds }),
    free_stack_lem stack (record w { fds = all_closed net.open_sockets w.fds }) i live,
  ),
  NoDup-append (blocks net.open_sockets) (others (contents stack))
      (blocks-NoDup net.open_sockets apart) (others-NoDup (contents stack) differ)
      (blocks_apart net.open_sockets (contents stack)),
  all_closed-IsClosed net.open_sockets w.fds,
  refl,
  refl,
)
