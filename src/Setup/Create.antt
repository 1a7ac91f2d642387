-- ===== src/Setup/Create.antt =====
-- The address of a configured socket: a block of MAX_ADDR_LEN bytes, copied without its length.
use simple_http.Base.{
  ◌⊎◌, ℕ, zero, suc, ◌-◌, ◌<◌, ◌≤◌, ◌≡◌, refl, ap, ◌∙◌, true, false, Bool-cases, inl, inr, none,
  some, List, [], ◌∷◌, ◌++◌, Bytes, length, replicate, leb, ltb, lt→ltb, ltb→lt, suc-==-zero, arith,
  append-nil, le→leb,
}
use simple_http.Base.Int.{ℤ}
use simple_http.Effects.{World, done, fault, alloc, alloc_or_fatal}
use simple_http.Effects.Outcomes.{calm}
use simple_http.Parser.Lines.{c_string}
use simple_http.Socket.{NewSock, Net, Inet, Attempt, text_of, max_open_sockets}
use simple_http.Socket.Bound.{create_socket_unterminated}
use simple_http.Socket
use simple_http.Setup
use simple_http.Setup.{
  Driver, SocketArgs, returned, fits_int, wrap_int, max_addr_len, lua_create_socket,
}

le_antisym : (m n : ℕ) → ltb n m ≡ false → n ≤ m → m ≡ n
le_antisym m n h k = ground arith

text_of-c_string :
    (k : ℕ) (ip : Bytes) → text_of (c_string ip ++ replicate (suc k) 0) ≡ some (c_string ip)
unfolding text_of c_string
text_of-c_string k [] = refl
text_of-c_string k (zero ∷ ip) = refl
text_of-c_string k (suc c ∷ ip) = rw (suc-==-zero c, text_of, text_of-c_string k ip)

-- A text that leaves room for its terminator can be read from its block.
pub text_of-padded :
    (ip : Bytes)
    → length (c_string ip) < max_addr_len
    → text_of (c_string ip ++ replicate (max_addr_len - length (c_string ip)) 0)
      ≡ some (c_string ip)
text_of-padded ip short =
    let k : max_addr_len - length (c_string ip) ≡ suc (max_addr_len - 1 - length (c_string ip)) =
      omega arith in
    ap (λ k. text_of (c_string ip ++ replicate k 0)) k
    ∙ text_of-c_string (max_addr_len - 1 - length (c_string ip)) ip

text_of_full : (ip : Bytes) → text_of (c_string ip) ≡ none
unfolding text_of c_string
text_of_full [] = refl
text_of_full (zero ∷ ip) = refl
text_of_full (suc c ∷ ip) = rw (suc-==-zero c, text_of, text_of_full ip)

-- The table is not full.
pub not_full : (n : ℕ) → n < max_open_sockets → leb max_open_sockets n ≡ false
not_full n h = ground arith

pub copy_ip_fits :
    (s : Bytes) (w : World)
    → length s ≤ max_addr_len
    → Setup.copy_ip s true w ≡ done (some (s ++ replicate (max_addr_len - length s) 0)) w
unfolding Setup.copy_ip
copy_ip_fits [] w h = refl
copy_ip_fits (c ∷ s) w h = rw (le→leb (suc (length s)) max_addr_len h)

copy_ip_long : (s : Bytes) (w : World) → max_addr_len < length s → Setup.copy_ip s true w ≡ fault
unfolding Setup.copy_ip
copy_ip_long [] w h = absurd (omega arith)
copy_ip_long (c ∷ s) w h = rw (too_long (suc (length s)) h)
  where
    too_long : (n : ℕ) → max_addr_len < n → leb n max_addr_len ≡ false
    too_long n h = ground arith

-- The arguments pass the tests.
pub record Passes (args : SocketArgs) (ip : Bytes) (port domain listen proto : ℤ) : Type 0 where
  pub ip_text : args.ip.string ≡ some ip
  pub port_integer : args.port.integer ≡ some port
  pub domain_integer : args.domain.integer ≡ some domain
  pub domain_number : args.domain.number ≡ some domain
  pub domain_int : fits_int domain ≡ true
  pub listen_integer : args.listen.integer ≡ some listen
  pub listen_number : args.listen.number ≡ some listen
  pub listen_int : fits_int listen ≡ true
  pub proto_integer : args.proto.integer ≡ some proto
  pub proto_number : args.proto.number ≡ some proto
  pub proto_int : fits_int proto ≡ true

module _ (args : SocketArgs) (ip : Bytes) (port domain listen proto : ℤ) (drv : Driver)
    (fds : List ℕ) (next : ℕ) (input sent : Bytes) where
  -- The socket of the arguments, with its block.
  abbrev pub configured : Bytes → NewSock
  configured cells = record {
    addr = some cells;
    port = wrap_int port;
    domain = domain;
    listen = listen;
    proto = proto;
  }

  abbrev pub with_socket : Bytes → Driver
  with_socket cells = record drv { socket = drv.socket ++ configured cells ∷ [] }

  checked :
      Passes args ip port domain listen proto
      → length drv.socket < max_open_sockets
      → lua_create_socket args drv (calm fds next input sent)
        ≡ Setup.new_socket drv args ip port (calm fds next input sent)
  unfolding lua_create_socket Setup.check_args Setup.check_numbers Setup.new_socket Setup.number_of
      Setup.number_in
  checked p few = rw (
    p.ip_text,
    p.port_integer,
    p.domain_integer,
    p.listen_integer,
    p.proto_integer,
    not_full (length drv.socket) few,
  )

  new_socket_fits :
      Passes args ip port domain listen proto
      → length (c_string ip) ≤ max_addr_len
      → length drv.socket < drv.cells
      → Setup.new_socket drv args ip port (calm fds next input sent)
        ≡ done
            (returned
              (with_socket (c_string ip ++ replicate (max_addr_len - length (c_string ip)) 0)))
            (calm fds next input sent)
  unfolding Setup.new_socket Setup.number_of Setup.number_in Setup.to_c_int Setup.add_socket
      alloc_or_fatal alloc
  new_socket_fits p short room = rw (
    p.domain_number,
    p.domain_int,
    p.listen_number,
    p.listen_int,
    p.proto_number,
    p.proto_int,
    copy_ip_fits (c_string ip) (calm fds next input sent) short,
    lt→ltb (length drv.socket) drv.cells room,
  )

  new_socket_long :
      Passes args ip port domain listen proto
      → max_addr_len < length (c_string ip)
      → Setup.new_socket drv args ip port (calm fds next input sent) ≡ fault
  unfolding Setup.new_socket Setup.number_of Setup.number_in Setup.to_c_int alloc_or_fatal alloc
  new_socket_long p long = rw (
    p.domain_number,
    p.domain_int,
    p.listen_number,
    p.listen_int,
    p.proto_number,
    p.proto_int,
    copy_ip_long (c_string ip) (calm fds next input sent) long,
  )

  -- Where memory suffices and the arguments pass the tests, with numbers that are `int`s and room
  -- for the socket, `lua_create_socket` of an address of less than 12 bytes appends one socket
  -- with these numbers, the port cut to an `int`, and leaves the rest of the driver; the address
  -- that is read from its block is the text, up to its first zero byte.
  pub lua_create_socket-text_of :
      Passes args ip port domain listen proto
      → length drv.socket < max_open_sockets
      → length drv.socket < drv.cells
      → length (c_string ip) < max_addr_len
      → (cells : Bytes) × (lua_create_socket args drv (calm fds next input sent)
          ≡ done (returned (with_socket cells)) (calm fds next input sent))
        × (text_of cells ≡ some (c_string ip))
  lua_create_socket-text_of p few room short = (
    c_string ip ++ replicate (max_addr_len - length (c_string ip)) 0,
    checked p few ∙ new_socket_fits p (omega arith) room,
    text_of-padded ip short,
  )

  -- Where memory suffices and the arguments pass the tests, with numbers that are `int`s, room for
  -- the socket and an address of 12 bytes or more, such as `192.168.1.10`, `lua_create_socket`
  -- stores behind its block, or it leaves a socket whose address has no terminator, on which every
  -- `createSocket` with room in its table reads behind the block.
  pub lua_create_socket_long :
      Passes args ip port domain listen proto
      → length drv.socket < max_open_sockets
      → length drv.socket < drv.cells
      → max_addr_len ≤ length (c_string ip)
      → (lua_create_socket args drv (calm fds next input sent) ≡ fault)
        ⊎ ((lua_create_socket args drv (calm fds next input sent)
              ≡ done (returned (with_socket (c_string ip))) (calm fds next input sent))
            × ((inet : Inet) (at : Attempt) (net : Net) (w : World)
                → length net.open_sockets < max_open_sockets
                → Socket.create_socket inet at (configured (c_string ip)) net w ≡ fault))
  lua_create_socket_long p few room long =
      elim (Bool-cases (ltb max_addr_len (length (c_string ip)))) [
        | inl more ↦
            inl
              (checked p few ∙ new_socket_long p (ltb→lt max_addr_len (length (c_string ip)) more))
        | inr full ↦
            let exact : length (c_string ip) ≡ max_addr_len =
              le_antisym (length (c_string ip)) max_addr_len full long in
            inr (
              checked p few
                  ∙ new_socket_fits p (omega arith) room
                  ∙ ap (λ cells. done (returned (with_socket cells)) (calm fds next input sent))
                      (filled exact),
              λ inet at net w free.
                  create_socket_unterminated inet (configured (c_string ip)) net w (c_string ip) at
                    (lt→ltb (length net.open_sockets) max_open_sockets free) refl (text_of_full ip),
            )
      ]
    where
      filled :
          length (c_string ip) ≡ max_addr_len
          → c_string ip ++ replicate (max_addr_len - length (c_string ip)) 0 ≡ c_string ip
      filled e =
          let none_left : max_addr_len - length (c_string ip) ≡ 0 = omega arith in
          ap (λ k. c_string ip ++ replicate k 0) none_left ∙ append-nil (c_string ip)
