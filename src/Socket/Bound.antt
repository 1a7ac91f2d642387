-- ===== src/Socket/Bound.antt =====
-- What `createSocket` does where the kernel grants every call: the address that is bound, and the
-- domains that have none.
use simple_http.Base.{
  none, Option, ℕ, suc, ◌-◌, ◌≡◌, ◌≢◌, refl, true, false, Bool-cases, inl, inr, some, [], ◌∷◌, ◌++◌,
  Bytes, length, ltb, arith, ==_refl, replicate,
}
use simple_http.Base.Int.{eq_int_sound, ℤ, pos, negsuc, eq_int}
use simple_http.Effects.{World, done, fault, granted, later, alloc, alloc_or_crash, close}
use simple_http.Parser.Closing.{Below}
use simple_http.Socket
use simple_http.Socket.{
  NewSock, OpenSocket, Net, Inet, Attempt, Sockaddr, Pton, domtosize, text_of, max_open_sockets,
  af_inet, af_inet6, create_socket, get_address_and_port, uint16,
}
use simple_http.Socket.Address.{ntohs-htons}
use simple_http.Socket.Made.{read_text_lem, without_fresh}

abbrev pub all_granted : Attempt
all_granted = record { socket = true; setsockopt = true; bind = true; listen = true }

-- The two families that have an address, independently of the code.
pub data Family : Type 0 where
  v4 v6 : Family

abbrev pub domain_of : Family → ℤ
domain_of v4 = af_inet
domain_of v6 = af_inet6

abbrev pub size_in : Family → ℕ
size_in v4 = 4
size_in v6 = 16

-- The bytes that `inet_pton` leaves in a block of zeros.
abbrev pub address_bytes : ℕ → Pton → Bytes
address_bytes size (Socket.converted addr) = addr
address_bytes size _ = replicate size 0

abbrev pub sockaddr_of : Family → ℤ → Bytes → Sockaddr
sockaddr_of v4 port addr = Socket.sockaddr_in (Socket.htons port) addr
sockaddr_of v6 port addr = Socket.sockaddr_in6 (Socket.htons port) addr

get_address-sockaddr_of :
    (inet : Inet) (f : Family) (port : ℤ) (addr : Bytes) (old : Bytes × ℤ)
    → get_address_and_port inet (sockaddr_of f port addr) old
      ≡ (inet.inet_ntop (domain_of f) addr, pos (uint16 port))
unfolding get_address_and_port
get_address-sockaddr_of inet v4 port addr old = rw (ntohs-htons port)
get_address-sockaddr_of inet v6 port addr old = rw (ntohs-htons port)

made :
    (inet : Inet) (f : Family) (sock : NewSock) (text : Bytes) (p : Pton) (w : World)
    → sock.domain ≡ domain_of f
    → inet.inet_pton (domain_of f) text ≡ p
    → p ≢ Socket.not_supported
    → granted w.allocs ≡ true
    → Socket.make_address inet sock text w
      ≡ done
          (some (sockaddr_of f sock.port (address_bytes (size_in f) p)))
          (record w { allocs = later w.allocs })
unfolding Socket.make_address Socket.make_in Socket.make_in6 Socket.in_addr alloc_or_crash alloc
made inet f sock text Socket.not_supported w d e ok m = absurd (ok refl)
made inet v4 sock text Socket.not_an_address w d e ok m = rw (d, e, m)
made inet v4 sock text (Socket.converted a) w d e ok m = rw (d, e, m)
made inet v6 sock text Socket.not_an_address w d e ok m = rw (d, e, m)
made inet v6 sock text (Socket.converted a) w d e ok m = rw (d, e, m)

eq_int_ne : (a b : ℤ) → a ≢ b → eq_int a b ≡ false
eq_int_ne a b ne = elim (Bool-cases (eq_int a b)) [
  | inl e ↦ absurd (ne (eq_int_sound a b e))
  | inr e ↦ e
]

-- The table is not full.
not_full : (n : ℕ) → ltb n max_open_sockets ≡ true → ltb (max_open_sockets - 1) n ≡ false
not_full n h = ground arith

size_of-domtosize :
    (f : Family) (port : ℤ) (addr : Bytes) (domain : ℤ)
    → domain ≡ domain_of f
    → ltb (Socket.size_of (sockaddr_of f port addr)) (domtosize domain) ≡ false
unfolding domtosize
size_of-domtosize v4 port addr domain d = rw d
size_of-domtosize v6 port addr domain d = rw d

-- A block without a terminator is read beyond its end.
read_text_fault :
    (addr : Option Bytes) (cells : Bytes) (w : World)
    → addr ≡ some cells
    → text_of cells ≡ none
    → Socket.read_text addr w ≡ fault
unfolding Socket.read_text
read_text_fault none cells w e reads = cc
read_text_fault (some block) cells w e reads =
    let same : text_of block ≡ none = cc in rw (same, Socket.read_text)

module _ (inet : Inet) (sock : NewSock) (net : Net) (w : World) (cells : Bytes) where
  pub create_socket_unterminated :
      (at : Attempt)
      → ltb (length net.open_sockets) max_open_sockets ≡ true
      → sock.addr ≡ some cells
      → text_of cells ≡ none
      → create_socket inet at sock net w ≡ fault
  unfolding create_socket Socket.create
  create_socket_unterminated at room addr reads =
      rw (not_full (length net.open_sockets) room, read_text_fault sock.addr cells w addr reads)

module _ (inet : Inet) (sock : NewSock) (net : Net) (w : World) (cells text : Bytes) where
  -- The table with one more socket, as its kernel knows it.
  abbrev pub listening : Sockaddr → Net
  listening addr = record {
    open_sockets = net.open_sockets ++ record { fd = w.next_fd; conf = sock } ∷ [];
    bound = net.bound ++ (w.next_fd, addr) ∷ [];
    listening = net.listening ++ (w.next_fd, sock.listen) ∷ [];
  }

  -- Where the table has room and the kernel grants every call, `createSocket` of a socket of
  -- AF_INET or AF_INET6 registers the new descriptor, bound and listening with the configured
  -- backlog, and `getAddressAndPort` reads back from the bound address the low 16 bits of the port
  -- and the bytes that `inet_pton` gave; for a text that is no address these are zeros, so that
  -- the socket listens at every interface.
  pub create_socket-get_address_and_port :
      (f : Family) (p : Pton) (old : Bytes × ℤ)
      → ltb (length net.open_sockets) max_open_sockets ≡ true
      → granted w.allocs ≡ true
      → sock.addr ≡ some cells
      → text_of cells ≡ some text
      → sock.domain ≡ domain_of f
      → inet.inet_pton (domain_of f) text ≡ p
      → p ≢ Socket.not_supported
      → (addr : Sockaddr) × (create_socket inet all_granted sock net w
          ≡ done
              (pos w.next_fd, listening addr)
              (record w {
                allocs = later w.allocs;
                fds = w.next_fd ∷ w.fds;
                next_fd = suc w.next_fd;
              }))
        × (get_address_and_port inet addr old
            ≡ (inet.inet_ntop (domain_of f) (address_bytes (size_in f) p), pos (uint16 sock.port)))
  unfolding create_socket Socket.create Socket.open_socket Socket.opened Socket.configure
      Socket.addressed Socket.bind_to Socket.listen_on Socket.register
  create_socket-get_address_and_port f p old room memory addr reads d e ok = (
    sockaddr_of f sock.port (address_bytes (size_in f) p),
    rw (
      not_full (length net.open_sockets) room,
      read_text_lem sock.addr cells text w addr reads,
      made inet f sock text p (record w { fds = w.next_fd ∷ w.fds; next_fd = suc w.next_fd }) d e ok
          memory,
      size_of-domtosize f sock.port (address_bytes (size_in f) p) sock.domain d,
      room,
    ),
    get_address-sockaddr_of inet f sock.port (address_bytes (size_in f) p) old,
  )

  -- A socket of another domain than AF_INET and AF_INET6, with an address that can be read, a
  -- table with room and a kernel that grants the descriptor and its option, is refused without an
  -- abort: `createSocket` returns -1, closes the descriptor that it opened, and changes nothing
  -- else.
  pub create_socket_unknown :
      (at : Attempt)
      → ltb (length net.open_sockets) max_open_sockets ≡ true
      → Below w.next_fd w.fds
      → at.socket ≡ true
      → at.setsockopt ≡ true
      → sock.addr ≡ some cells
      → text_of cells ≡ some text
      → ((f : Family) → sock.domain ≢ domain_of f)
      → create_socket inet at sock net w
        ≡ done (negsuc 0, net) (record w { next_fd = suc w.next_fd })
  unfolding create_socket Socket.create Socket.open_socket Socket.opened Socket.configure
      Socket.addressed Socket.make_address close
  create_socket_unknown at room below s o addr reads other = rw (
    not_full (length net.open_sockets) room,
    read_text_lem sock.addr cells text w addr reads,
    s,
    o,
    eq_int_ne sock.domain af_inet (other v4),
    eq_int_ne sock.domain af_inet6 (other v6),
    ==_refl w.next_fd,
    without_fresh w.next_fd w.fds below,
  )
