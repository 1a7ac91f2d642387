-- ===== src/Main/Loop.antt =====
-- The loop of `main`, whatever the clients, `fork` and the children do.
use simple_http.Base.{
  ◌&&◌, not, if◌then◌else◌, ◌+◌, length, length-append, length, length-append, ◌||◌, ◌⊎◌, ◌⊎◌, ℕ,
  zero, suc, ◌≡◌, refl, ap, true, false, Bool, Bool-cases, inl, inr, Option, none, some, List, [],
  ◌∷◌, ◌++◌, All, ltb, ◌==◌, ==_refl, arith,
}
use simple_http.Base.Int.{ℤ, pos, negsuc}
use simple_http.Effects.{World, close}
use simple_http.Effects.Returns.{Returns}
use simple_http.System.{System}
use simple_http.Plugin.{Loader}
use simple_http.Setup.{Driver}
use simple_http.VirtualPath.{Lua}
use simple_http.Socket.{OpenSocket, Net, Inet, domtosize, Sockaddr}
use simple_http.Socket.Made.{without_fresh}
use simple_http.Socket.Table.{Listens, IsOpen_more, Below-suc}
use simple_http.Main
use simple_http.Quit.{Cleanup}
use simple_http.Job.{QuitStatus}
use simple_http.Effects.{Run}
use simple_http.Main.{
  Outcome, exited, waits, goes_on, Server, Arrival, Client, Reach, Turn, turn, take_client,
  find_domain,
}

-- A table whose domains have addresses.
abbrev pub Known : List OpenSocket → Type 0
Known = All (λ e. ltb 0 (domtosize e.conf.domain) ≡ true)

-- The parent of a server that listens to `net`, started with the descriptors `fds`: the table is as
-- it was, its descriptors are open, and beside them and those of the start there are only those of
-- the clients for whom `fork` failed.
pub record Runs (net : Net) (fds : List ℕ) (s : Server) (w : World) : Type 0 where
  pub kept : s.net ≡ net
  pub listens : Listens net w.fds w.next_fd
  pub held : w.fds ≡ s.unserved ++ fds

-- Whether the table has an entry with this descriptor.
abbrev pub has : ℕ → List OpenSocket → Bool
has fd [] = false
has fd (e ∷ es) = e.fd == fd || has fd es

pub has_self : (es : List OpenSocket) → All (λ e. has e.fd es ≡ true) es
has_self [] = tt
has_self (x ∷ es) = (rw (==_refl x.fd), weaken es es (has_self es))
  where
    weaken :
        (all es : List OpenSocket)
        → All (λ e. has e.fd all ≡ true) es
        → All (λ e. has e.fd (x ∷ all) ≡ true) es
    weaken all [] _ = tt
    weaken all (e ∷ es) (h, hs) = (ground (arith, h), weaken all es hs)

sized_positive : (d : ℤ) → ltb 0 (domtosize d) ≡ true → Main.is_positive d ≡ true
unfolding domtosize
sized_positive (pos zero) h = ground arith
sized_positive (pos (suc n)) h = ground arith
sized_positive (negsuc n) h = ground arith

-- The domain that is found for an entry is one of the table's.
pub find_domain-Known :
    (fd : ℕ) (es : List OpenSocket) (d : ℤ)
    → has fd es ≡ true
    → Known es
    → ltb 0 (domtosize (find_domain fd es d)) ≡ true
unfolding find_domain
find_domain-Known fd [] d h _ = cc
find_domain-Known fd (e ∷ es) d h (k, ks) = elim (Bool-cases (e.fd == fd)) [
  | inl same ↦ rw (same, sized_positive e.conf.domain k) k
  | inr other ↦ rw other (find_domain-Known fd es (negsuc 0) (rw other at h) ks)
]

-- The descriptors behind `accept`.
pub record Accepted (w : World) (r : ℤ × Sockaddr) (u : World) : Type 0 where
  pub allocs : u.allocs ≡ w.allocs
  pub choice :
      ((r.0 ≡ negsuc 0) × (u.fds ≡ w.fds) × (u.next_fd ≡ w.next_fd))
      ⊎ ((r.0 ≡ pos w.next_fd) × (u.fds ≡ w.next_fd ∷ w.fds) × (u.next_fd ≡ suc w.next_fd))

pub accept-Accepted : (c : Option Client) (w : World) → Returns (Accepted w) (Main.accept c w)
unfolding Main.accept
accept-Accepted none w = record { allocs = refl; choice = inl (refl, refl, refl) }
accept-Accepted (some client) w = record { allocs = refl; choice = inr (refl, refl, refl) }

pub log_client_sized :
    (inet : Inet) (n : ℕ) (addr : Sockaddr) (w : World)
    → ltb 0 n ≡ true
    → Returns (λ _ u. u ≡ w) (Main.log_client inet n addr w)
unfolding Main.log_client
log_client_sized inet zero addr w h = absurd (ground arith)
log_client_sized inet (suc n) addr w h = refl

-- A new descriptor beside the table's, open or closed again.
new_fd :
    (net : Net) (fds : List ℕ) (next : ℕ)
    → Listens net fds next
    → Listens net (next ∷ fds) (suc next) × Listens net fds (suc next)
new_fd net fds next l = (
  record {
    few = l.few;
    fresh = (omega arith, Below-suc next fds l.fresh);
    opened = IsOpen_more next fds net.open_sockets l.opened;
    known = l.known;
    apart = l.apart;
  },
  record {
    few = l.few;
    fresh = Below-suc next fds l.fresh;
    opened = l.opened;
    known = l.known;
    apart = l.apart;
  },
)

-- What a client at a socket leaves: a child more, where `fork` makes one.
abbrev pub child_of : Bool → ℕ
child_of forks = if forks then 1 else 0

pub record Forked (net : Net) (fds : List ℕ) (s : Server) (forks : Bool) (w : World) (s' : Server)
    (w' : World) : Type 0 where
  pub runs : Runs net fds s' w'
  pub allocs : w'.allocs ≡ w.allocs
  pub counted : length s'.children ≡ length s.children + child_of forks

-- Whether a child is made that does not end.
abbrev pub stuck : Arrival → Bool
stuck a = a.forks && not a.ends

-- Behind `fork`: the server goes on, or waits for a child that does not end.
abbrev pub Left : Net → List ℕ → Server → Arrival → World → Outcome → World → Type 0
Left net fds s a w exited w' = ⊥
Left net fds s a w (waits s') w' = (stuck a ≡ true) × Runs net fds s' w'
Left net fds s a w (goes_on s') w' = (stuck a ≡ false) × Forked net fds s a.forks w s' w'

module _ (sys : System) (lua : Lua) (inet : Inet) (loader : Loader) (drv : Driver) (net : Net)
    (fds : List ℕ) where
  -- A record of what is behind `wait`, for a parent that has closed the client again.
  waited :
      (s : Server) (a : Arrival) (w v : World) (run : Run (QuitStatus × Cleanup)) (b : Bool)
      → a.forks ≡ true
      → a.ends ≡ b
      → Runs net fds s v
      → v.allocs ≡ w.allocs
      → Left net fds s a w (Main.wait sys lua inet loader drv s run b) v
  waited s a w v run false f e r m = (rw (f, e), r)
  waited s a w v run true f e r m = (
    rw (f, e),
    record {
      runs = record { kept = r.kept; listens = r.listens; held = r.held };
      allocs = m;
      counted = rw f (length-append s.children (run ∷ []));
    },
  )

  pub on_fork-Left :
      (s : Server) (a : Arrival) (forks : Bool) (w u : World) (cfd : ℤ) (addr : Sockaddr)
      → a.forks ≡ forks
      → Runs net fds s w
      → Accepted w (cfd, addr) u
      → Returns (Left net fds s a w) (Main.on_fork sys lua inet loader drv s a cfd forks u)
  unfolding Main.on_fork close
  on_fork-Left s a false w u cfd addr fk r c = elim c.choice [
    | inl (e, f, n) ↦
        rw (e, f, n)
          (
            rw fk,
            record {
              runs = record { kept = r.kept; listens = r.listens; held = r.held };
              allocs = c.allocs;
              counted = rw fk (omega arith);
            },
          )
    | inr (e, f, n) ↦
        rw (e, f, n)
          (
            rw fk,
            record {
              runs = record {
                kept = r.kept;
                listens = (new_fd net w.fds w.next_fd r.listens).0;
                held = ap (λ l. w.next_fd ∷ l) r.held;
              };
              allocs = c.allocs;
              counted = rw fk (omega arith);
            },
          )
  ]
  on_fork-Left s a true w u cfd addr fk r c = elim c.choice [
    | inl (e, f, n) ↦
        rw (e, f, n)
          (waited s a w _ _ a.ends fk refl
            (record { kept = r.kept; listens = r.listens; held = r.held }) c.allocs)
    | inr (e, f, n) ↦
        rw (e, f, n, ==_refl w.next_fd, without_fresh w.next_fd w.fds r.listens.fresh)
          (waited s a w _ _ a.ends fk refl
            (record {
              kept = r.kept;
              listens = (new_fd net w.fds w.next_fd r.listens).1;
              held = r.held;
            })
            c.allocs)
  ]
