-- ===== src/Socket/Address.antt =====
-- `htons` and `ntohs`: a port in the network's order and back.
use simple_http.Base.{ℕ, ◌+◌, ◌*◌, ◌/◌, ◌%◌, ◌≡◌, arith}
use simple_http.Base.Int.{ℤ}
use simple_http.Socket.{htons, ntohs, uint16}

split_byte : (n : ℕ) → n / 256 * 256 + n % 256 ≡ n
split_byte n = omega arith

pub ntohs-htons : (port : ℤ) → ntohs (htons port) ≡ uint16 port
unfolding htons ntohs
ntohs-htons port = split_byte (uint16 port)
