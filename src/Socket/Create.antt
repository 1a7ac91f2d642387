-- ===== src/Socket/Create.antt =====
-- What `createSocket` does to the table and to the descriptors, whatever the kernel answers.
use simple_http.Base.{
  suc, ◌-◌, ◌≡◌, refl, true, Bool-cases, inl, inr, ◌⊎◌, Option, none, some, [], ◌∷◌, ◌++◌, Bytes,
  All-append, length, length-append, ltb, arith, ==_refl, ltb→lt,
}
use simple_http.Base.Int.{ℤ, pos, negsuc}
use simple_http.Effects.{bind, World, close}
use simple_http.Effects.Safe.{Safe, Safe-bind}
use simple_http.Socket
use simple_http.Socket.{
  NewSock, OpenSocket, Net, Inet, Attempt, Sockaddr, Pton, domtosize, text_of, max_open_sockets,
  af_inet, af_inet6, create_socket,
}
use simple_http.Socket.Made.{
  Fits, make_address-Made, read_text_lem, ltb_irrefl, below_limit, without_fresh,
}
use simple_http.Socket.Table.{Listens, Apart-append, IsOpen_more, IsOpen_new, Below-suc}

-- The result of `createSocket`: the table is well formed behind it; where it returns -1, the table
-- and the descriptors are as before, and otherwise both have the new descriptor.
pub record Created (sock : NewSock) (net : Net) (w : World) (r : ℤ × Net) (w' : World)
    : Type 0 where
  pub allocs : w'.allocs ≡ []
  pub listens : Listens r.1 w'.fds w'.next_fd
  pub result :
      ((r.0 ≡ negsuc 0) × (r.1 ≡ net) × (w'.fds ≡ w.fds) × (domtosize sock.domain ≡ 0))
      ⊎ ((r.0 ≡ pos w.next_fd)
          × (r.1.open_sockets ≡ net.open_sockets ++ record { fd = w.next_fd; conf = sock } ∷ [])
          × (w'.fds ≡ w.next_fd ∷ w.fds)
          × (ltb 0 (domtosize sock.domain) ≡ true))

module _ (sock : NewSock) (net : Net) (w : World) where
  -- The new descriptor is registered.
  registered :
      Listens net w.fds w.next_fd
      → ltb (length net.open_sockets) max_open_sockets ≡ true
      → ltb 0 (domtosize sock.domain) ≡ true
      → (net' : Net) (u : World) → net'.open_sockets ≡ net.open_sockets
      → u.fds ≡ w.next_fd ∷ w.fds
      → u.next_fd ≡ suc w.next_fd
      → u.allocs ≡ []
      → Created sock net w
          (
            pos w.next_fd,
            record net' {
              open_sockets = net'.open_sockets ++ record { fd = w.next_fd; conf = sock } ∷ [];
            },
          )
          u
  registered l room sized net' u same fds next memory = record {
    allocs = memory;
    listens =
        rw (same, fds, next)
          (record {
            few =
                rw (length-append net.open_sockets (record { fd = w.next_fd; conf = sock } ∷ []))
                  (omega (arith, ltb→lt (length net.open_sockets) max_open_sockets room));
            fresh = (omega arith, Below-suc w.next_fd w.fds l.fresh);
            opened =
                All-append _ net.open_sockets _ (IsOpen_more w.next_fd w.fds _ l.opened)
                  (ground (arith, ==_refl w.next_fd), tt);
            known = All-append _ net.open_sockets _ l.known (sized, tt);
            apart =
                Apart-append net.open_sockets _ l.apart
                  (IsOpen_new w.next_fd w.fds _ l.fresh l.opened);
          });
    result = inr (refl, rw same, fds, sized);
  }

  addressed-Created :
      (at : Attempt) (addr : Option Sockaddr) (u : World)
      → Listens net w.fds w.next_fd
      → ltb (length net.open_sockets) max_open_sockets ≡ true
      → u.fds ≡ w.next_fd ∷ w.fds
      → u.next_fd ≡ suc w.next_fd
      → u.allocs ≡ []
      → Fits sock addr
      → Safe (Created sock net w) (Socket.addressed at w.next_fd sock net addr u)
  unfolding Socket.addressed Socket.bind_to Socket.listen_on Socket.register close
  addressed-Created at none u l room fds next memory fits =
      rw (fds, next, ==_refl w.next_fd, without_fresh w.next_fd w.fds l.fresh)
        (record {
          allocs = memory;
          listens = record {
            few = l.few;
            fresh = Below-suc w.next_fd w.fds l.fresh;
            opened = l.opened;
            known = l.known;
            apart = l.apart;
          };
          result = inl (refl, refl, refl, fits);
        })
  addressed-Created at (some addr) u l room fds next memory fits =
      rw (fits.0, ltb_irrefl (domtosize sock.domain))
        (elim (Bool-cases at.bind) [
          | inr b ↦ rw b tt
          | inl b ↦ elim (Bool-cases at.listen) [
            | inr c ↦ rw (b, c) tt
            | inl c ↦ rw (b, c, room) (registered l room fits.1 _ u refl fds next memory)
          ]
        ])

  created :
      (inet : Inet) (at : Attempt) (text : Bytes)
      → Listens net w.fds w.next_fd
      → ltb (length net.open_sockets) max_open_sockets ≡ true
      → w.allocs ≡ []
      → Safe
          (Created sock net w)
          (bind (Socket.open_socket at.socket w) (Socket.opened inet at sock net text))
  unfolding Socket.open_socket Socket.opened Socket.configure Socket.addressed Socket.bind_to
  created inet at text l room memory = elim (Bool-cases at.socket) [
    | inr s ↦ rw s tt
    | inl s ↦ elim (Bool-cases at.setsockopt) [
      | inr o ↦ rw (s, o) tt
      | inl o ↦
          rw (s, o)
            (Safe-bind _ _ (Socket.make_address inet sock text _) _
              (make_address-Made inet sock text _ memory)
              (λ addr u m. addressed-Created at addr u l room m.fds m.next_fd m.allocs m.fits))
    ]
  ]

  -- From a well-formed table, with memory and an address that can be read, `createSocket` aborts
  -- or returns, whatever the kernel refuses, and the table is well formed behind it: at most 128
  -- entries, whose descriptors are open and differ and whose domains have addresses. Where it
  -- returns -1, the domain has no address, and the table and the descriptors are as before;
  -- otherwise both have the new descriptor.
  pub create_socket-Created :
      (inet : Inet) (at : Attempt) (cells text : Bytes)
      → Listens net w.fds w.next_fd
      → w.allocs ≡ []
      → sock.addr ≡ some cells
      → text_of cells ≡ some text
      → Safe (Created sock net w) (create_socket inet at sock net w)
  unfolding create_socket Socket.create
  create_socket-Created inet at cells text l memory addr reads =
      elim (Bool-cases (ltb (max_open_sockets - 1) (length net.open_sockets))) [
        | inl full ↦ rw full tt
        | inr room ↦
            rw (room, read_text_lem sock.addr cells text w addr reads)
              (created inet at text l (below_limit (length net.open_sockets) room) memory)
      ]
