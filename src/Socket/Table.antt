-- ===== src/Socket/Table.antt =====
-- The invariant of the table of open sockets.
use simple_http.Base.{
  ap, ℕ, suc, ◌≤◌, ◌≡◌, ◌≢◌, true, List, [], ◌∷◌, ◌++◌, All, All-append, ltb, length, arith,
}
use simple_http.Base.Int.{pos}
use simple_http.Effects.{is_open}
use simple_http.Parser.Closing.{Below, not_open}
use simple_http.Socket.{OpenSocket, Net, domtosize, max_open_sockets}

-- Every entry has a descriptor of its own.
abbrev pub Apart : List OpenSocket → Type 0
Apart [] = Unit
Apart (e ∷ es) = All (λ other. other.fd ≢ e.fd) es × Apart es

abbrev pub IsOpen : List ℕ → OpenSocket → Type 0
IsOpen fds e = is_open (pos e.fd) fds ≡ true

-- The table is within its array, its descriptors are open and differ, its
-- domains have addresses, and the kernel hands out new
-- ones.
pub record Listens (net : Net) (fds : List ℕ) (next : ℕ) : Type 0 where
  pub few : length net.open_sockets ≤ max_open_sockets
  pub fresh : Below next fds
  pub opened : All (IsOpen fds) net.open_sockets
  pub known : All (λ e. ltb 0 (domtosize e.conf.domain) ≡ true) net.open_sockets
  pub apart : Apart net.open_sockets

pub Apart-append :
    (es : List OpenSocket) (e : OpenSocket)
    → Apart es
    → All (λ other. e.fd ≢ other.fd) es
    → Apart (es ++ e ∷ [])
Apart-append [] e _ _ = (tt, tt)
Apart-append (x ∷ es) e (h, a) (ne, n) =
    (All-append _ es (e ∷ []) h (ne, tt), Apart-append es e a n)

pub IsOpen_more :
    (fd : ℕ) (fds : List ℕ) (es : List OpenSocket)
    → All (IsOpen fds) es
    → All (IsOpen (fd ∷ fds)) es
IsOpen_more fd fds [] _ = tt
IsOpen_more fd fds (e ∷ es) (o, h) = (ground arith, IsOpen_more fd fds es h)

pub IsOpen_new :
    (next : ℕ) (fds : List ℕ) (es : List OpenSocket)
    → Below next fds
    → All (IsOpen fds) es
    → All (λ other. next ≢ other.fd) es
IsOpen_new next fds [] below _ = tt
IsOpen_new next fds (e ∷ es) below (o, h) = (
  λ e'. cc (o, not_open next fds below, ap (λ k. is_open (pos k) fds) e'),
  IsOpen_new next fds es below h,
)

pub Below-suc : (n : ℕ) (fds : List ℕ) → Below n fds → Below (suc n) fds
Below-suc n [] _ = tt
Below-suc n (fd ∷ fds) (h, b) = (omega arith, Below-suc n fds b)
