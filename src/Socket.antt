-- ===== src/Socket.antt =====
-- src/socket.c and src/socket.h: the table of listening sockets, the addresses that they are bound
-- to. What the kernel answers to the calls for one socket is the record `Attempt`; `inet_pton` and `inet_ntop` are the record `Inet`. A descriptor of the table is
-- one that `socket` returned, so that it is not negative.
pub mod Protocol
pub mod Address
pub mod Table
pub mod Made
pub mod Create
pub mod Bound
use simple_http.Base.{
  ℕ, zero, suc, ◌+◌, ◌-◌, ◌*◌, ◌/◌, ◌%◌, ◌^◌, Bool, true, false, Option, none, some, List, [], ◌∷◌,
  ◌++◌, Bytes, codes, ◌==◌, ltb, if◌then◌else◌, length, replicate, str_eq, take,
}
use simple_http.Base.Int.{ℤ, pos, negsuc, eq_int}
use simple_http.Effects.{
  World, M, Run, done, pure, ◌>>=◌, ◌>>◌, log_fatal, undefined, alloc, alloc_or_crash, close,
}

abbrev pub max_open_sockets : ℕ
max_open_sockets = 128

-- AF_INET and AF_INET6
abbrev pub af_inet : ℤ
af_inet = pos 2

abbrev pub af_inet6 : ℤ
af_inet6 = pos 10

-- `protocol`: any `int` may be stored in it.
abbrev pub http : ℤ
http = pos 0

abbrev pub https : ℤ
https = pos 1

-- `new_sock_t`, without the configuration of TLS that nothing reads. `addr` is NULL or a block.
pub record NewSock : Type 0 where
  pub addr : Option Bytes
  pub port : ℤ
  pub domain : ℤ
  pub listen : ℤ
  pub proto : ℤ

pub record OpenSocket : Type 0 where
  pub fd : ℕ
  pub conf : NewSock

-- The address of a socket: the port is two bytes in the network's order. `unspecified` is a block of
-- zeros, or of another family.
pub data Sockaddr : Type 0 where
  sockaddr_in : ℕ × ℕ → Bytes → Sockaddr
  sockaddr_in6 : ℕ × ℕ → Bytes → Sockaddr
  unspecified : Sockaddr

-- The outcome of `inet_pton`: -1, 0 for a text that is no address, or the bytes of the address.
pub data Pton : Type 0 where
  not_supported not_an_address : Pton
  converted : Bytes → Pton

pub record Inet : Type 0 where
  pub inet_pton : ℤ → Bytes → Pton
  pub inet_ntop : ℤ → Bytes → Bytes

-- Whether the kernel grants the calls for one socket.
pub record Attempt : Type 0 where
  pub socket : Bool
  pub setsockopt : Bool
  pub bind : Bool
  pub listen : Bool

-- `open_sockets` with `open_sockets_len`, and what the kernel knows of the descriptors: the address
-- and the backlog.
pub record Net : Type 0 where
  pub open_sockets : List OpenSocket
  pub bound : List (ℕ × Sockaddr)
  pub listening : List (ℕ × ℤ)

-- `sizeof(struct sockaddr_in)` and `sizeof(struct sockaddr_in6)`
unfoldable pub domtosize : ℤ → ℕ
domtosize flag = if eq_int flag af_inet then 16 else if eq_int flag af_inet6 then 28 else 0

-- The text in a block, or none where the block has no terminator.
unfoldable pub text_of : Bytes → Option Bytes
text_of [] = none
text_of (zero ∷ cells) = some []
text_of (suc c ∷ cells) = elim (text_of cells) [ none ↦ none | some s ↦ some (suc c ∷ s) ]

-- Reading a text up to its terminator.
unfoldable pub read_text : Option Bytes → M Bytes
read_text none = undefined
read_text (some cells) = elim (text_of cells) [ none ↦ undefined | some s ↦ pure s ]

-- The low 16 bits of an `int`.
abbrev pub uint16 : ℤ → ℕ
uint16 (pos n) = n % 2 ^ 16
uint16 (negsuc n) = 2 ^ 16 - 1 - n % 2 ^ 16

-- `htons` and `ntohs`, the number in the network's order being its two bytes.
unfoldable pub htons : ℤ → ℕ × ℕ
htons port = (uint16 port / 256, uint16 port % 256)

unfoldable pub ntohs : ℕ × ℕ → ℕ
ntohs (high, low) = high * 256 + low

-- `getAddressAndPort(addr, ipBuffer, …, &port)`, with what the buffer and the port hold before.
pub get_address_and_port : Inet → Sockaddr → Bytes × ℤ → Bytes × ℤ
get_address_and_port inet (sockaddr_in port addr) old =
    (inet.inet_ntop af_inet addr, pos (ntohs port))
get_address_and_port inet (sockaddr_in6 port addr) old =
    (inet.inet_ntop af_inet6 addr, pos (ntohs port))
get_address_and_port inet unspecified old = old

-- `socket(2)`: the descriptor, or none for -1.
unfoldable pub open_socket : Bool → M (Option ℕ)
open_socket false w = done none w
open_socket true w =
    done (some w.next_fd) (record w { fds = w.next_fd ∷ w.fds; next_fd = suc w.next_fd })

-- The address is zeros of its size where the text is none.
unfoldable pub in_addr : ℕ → Pton → M Bytes
in_addr size not_supported = log_fatal
in_addr size not_an_address = pure (replicate size 0)
in_addr size (converted addr) = pure addr

unfoldable pub make_in : Inet → NewSock → Bytes → M (Option Sockaddr)
make_in inet sock text = do
  addr ← in_addr 4 (inet.inet_pton sock.domain text)
  alloc_or_crash
  pure (some (sockaddr_in (htons sock.port) addr))

pub make_in6 : Inet → NewSock → Bytes → M (Option Sockaddr)
make_in6 inet sock text = do
  addr ← in_addr 16 (inet.inet_pton sock.domain text)
  alloc_or_crash
  pure (some (sockaddr_in6 (htons sock.port) addr))

-- The `switch` on the domain.
unfoldable pub make_address : Inet → NewSock → Bytes → M (Option Sockaddr)
make_address inet sock text =
    if eq_int sock.domain af_inet
    then make_in inet sock text
    else if eq_int sock.domain af_inet6
    then make_in6 inet sock text
    else pure none

-- `sizeof` of the block behind a `sockaddr *`
abbrev pub size_of : Sockaddr → ℕ
size_of (sockaddr_in port addr) = 16
size_of (sockaddr_in6 port addr) = 28
size_of unspecified = 0

-- `open_sockets[open_sockets_len++] = …`, with whether the index is within the array.
unfoldable pub register : Net → OpenSocket → Bool → M Net
register net entry true = pure (record net { open_sockets = net.open_sockets ++ entry ∷ [] })
register net entry false = undefined

unfoldable pub listen_on : ℕ → NewSock → Net → Bool → M (ℤ × Net)
listen_on sfd sock net false = log_fatal
listen_on sfd sock net true = do
  net' ←
      register (record net { listening = net.listening ++ (sfd, sock.listen) ∷ [] })
        (record { fd = sfd; conf = sock }) (ltb (length net.open_sockets) max_open_sockets)
  pure (pos sfd, net')

unfoldable pub bind_to : Attempt → ℕ → NewSock → Net → Sockaddr → Bool → M (ℤ × Net)
bind_to at sfd sock net addr false = log_fatal
bind_to at sfd sock net addr true =
    listen_on sfd sock (record net { bound = net.bound ++ (sfd, addr) ∷ [] }) at.listen

-- `bind` reads `domtosize(sock->domain)` bytes of the block.
unfoldable pub addressed : Attempt → ℕ → NewSock → Net → Option Sockaddr → M (ℤ × Net)
addressed at sfd sock net none = do _ ← close (pos sfd); pure (negsuc 0, net)
addressed at sfd sock net (some addr) =
    if ltb (size_of addr) (domtosize sock.domain)
    then undefined
    else bind_to at sfd sock net addr at.bind

unfoldable pub configure : Inet → Attempt → ℕ → NewSock → Net → Bytes → Bool → M (ℤ × Net)
configure inet at sfd sock net text false = log_fatal
configure inet at sfd sock net text true = make_address inet sock text >>= addressed at sfd sock net

unfoldable pub opened : Inet → Attempt → NewSock → Net → Bytes → Option ℕ → M (ℤ × Net)
opened inet at sock net text none = log_fatal
opened inet at sock net text (some sfd) = configure inet at sfd sock net text at.setsockopt

unfoldable pub create : Inet → Attempt → NewSock → Net → Bool → M (ℤ × Net)
create inet at sock net true = log_fatal
create inet at sock net false = do
  text ← read_text sock.addr
  fd ← open_socket at.socket
  opened inet at sock net text fd

-- `createSocket(sock)`: the descriptor, or -1. The address is read by the log before `inet_pton`
-- reads it.
unfoldable pub create_socket : Inet → Attempt → NewSock → Net → M (ℤ × Net)
create_socket inet at sock net =
    create inet at sock net (ltb (max_open_sockets - 1) (length net.open_sockets))
