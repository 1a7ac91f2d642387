-- ===== src/Socket/Made.antt =====
-- The address that `createSocket` binds: it is read, converted and laid into a block.
use simple_http.Base.{
  ℕ, ◌-◌, ◌≡◌, refl, true, false, Bool-cases, inl, inr, Option, none, some, List, [], ◌∷◌, Bytes,
  ltb, arith,
}
use simple_http.Base.Int.{eq_int}
use simple_http.Effects.{World, done, alloc, alloc_or_crash, without}
use simple_http.Effects.Safe.{Safe}
use simple_http.Parser.Closing.{Below}
use simple_http.Socket
use simple_http.Socket.{
  NewSock, OpenSocket, Net, Inet, Attempt, Sockaddr, Pton, domtosize, text_of, max_open_sockets,
  af_inet, af_inet6, create_socket,
}

abbrev pub Fits : NewSock → Option Sockaddr → Type 0
Fits sock none = domtosize sock.domain ≡ 0
Fits sock (some addr) =
    (Socket.size_of addr ≡ domtosize sock.domain) × (ltb 0 (domtosize sock.domain) ≡ true)

pub ltb_irrefl : (n : ℕ) → ltb n n ≡ false
ltb_irrefl n = ground arith

pub without_fresh : (n : ℕ) (fds : List ℕ) → Below n fds → without n fds ≡ fds
without_fresh n [] _ = refl
without_fresh n (fd ∷ fds) (h, b) = ground (arith, without_fresh n fds b)

pub below_limit : (n : ℕ) → ltb (max_open_sockets - 1) n ≡ false → ltb n max_open_sockets ≡ true
below_limit n h = ground arith

-- A text with a terminator is read.
pub read_text_lem :
    (addr : Option Bytes) (cells text : Bytes) (w : World)
    → addr ≡ some cells
    → text_of cells ≡ some text
    → Socket.read_text addr w ≡ done text w
unfolding Socket.read_text
read_text_lem none cells text w e reads = cc
read_text_lem (some block) cells text w e reads =
    let same : text_of block ≡ some text = cc in rw (same, Socket.read_text)

-- A block of the domain's size, or none for an unknown domain, and descriptors as before.
pub record Made (sock : NewSock) (w : World) (addr : Option Sockaddr) (w' : World) : Type 0 where
  pub fds : w'.fds ≡ w.fds
  pub next_fd : w'.next_fd ≡ w.next_fd
  pub allocs : w'.allocs ≡ []
  pub fits : Fits sock addr

module _ (inet : Inet) (sock : NewSock) (text : Bytes) (w : World) where
  v4_block :
      (p : Pton)
      → eq_int sock.domain af_inet ≡ true
      → w.allocs ≡ []
      → inet.inet_pton sock.domain text ≡ p
      → Safe (Made sock w) (Socket.make_in inet sock text w)
  unfolding Socket.make_in Socket.in_addr alloc_or_crash alloc domtosize
  v4_block Socket.not_supported v m e = rw e tt
  v4_block Socket.not_an_address v m e =
      rw (e, m) (record { fds = refl; next_fd = refl; allocs = refl; fits = (rw v, rw v) })
  v4_block (Socket.converted a) v m e =
      rw (e, m) (record { fds = refl; next_fd = refl; allocs = refl; fits = (rw v, rw v) })

  v6_block :
      (p : Pton)
      → eq_int sock.domain af_inet ≡ false
      → eq_int sock.domain af_inet6 ≡ true
      → w.allocs ≡ []
      → inet.inet_pton sock.domain text ≡ p
      → Safe (Made sock w) (Socket.make_in6 inet sock text w)
  unfolding Socket.make_in6 Socket.in_addr alloc_or_crash alloc domtosize
  v6_block Socket.not_supported v v6 m e = rw e tt
  v6_block Socket.not_an_address v v6 m e =
      rw (e, m)
        (record { fds = refl; next_fd = refl; allocs = refl; fits = (rw (v, v6), rw (v, v6)) })
  v6_block (Socket.converted a) v v6 m e =
      rw (e, m)
        (record { fds = refl; next_fd = refl; allocs = refl; fits = (rw (v, v6), rw (v, v6)) })

  pub make_address-Made : w.allocs ≡ [] → Safe (Made sock w) (Socket.make_address inet sock text w)
  unfolding Socket.make_address domtosize
  make_address-Made m = elim (Bool-cases (eq_int sock.domain af_inet)) [
    | inl v ↦ rw v (v4_block _ v m refl)
    | inr v ↦ elim (Bool-cases (eq_int sock.domain af_inet6)) [
      | inl v6 ↦ rw (v, v6) (v6_block _ v v6 m refl)
      | inr v6 ↦ rw (v, v6) (record { fds = refl; next_fd = refl; allocs = m; fits = rw (v, v6) })
    ]
  ]
