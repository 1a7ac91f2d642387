-- ===== src/Examples/Listening.antt =====
-- Runs of src/socket.c.
use simple_http.Base.{arith, [], false, ◌∷◌, ◌++◌, true, some, ◌≡◌, refl, Bytes, codes}
use simple_http.Base.Int.{pos}
use simple_http.Effects.{done}
use simple_http.Effects.Outcomes.{calm}
use simple_http.Effects.Safe.{Safe}
use simple_http.Socket
use simple_http.Socket.{
  http, https, NewSock, Net, Inet, Attempt, create_socket, get_address_and_port, text_of, uint16,
}
use simple_http.Socket.Create.{Created, create_socket-Created}
use simple_http.Socket.Bound.{v4, all_granted, listening, create_socket-get_address_and_port}
use simple_http.Main.Start

abbrev pub loopback : Inet
loopback = record {
  inet_pton = λ family text. Socket.converted (127 ∷ 0 ∷ 0 ∷ 1 ∷ []);
  inet_ntop = λ family addr. codes "127.0.0.1";
}

-- The block of an address, with its terminator.
abbrev block : Bytes
block = codes "127.0.0.1" ++ 0 ∷ 0 ∷ 0 ∷ []

abbrev pub web : NewSock
web = record { addr = some block; port = pos 8080; domain = pos 2; listen = pos 5; proto = pos 0 }

pub block_text : text_of block ≡ some (codes "127.0.0.1")
unfolding text_of
block_text = refl

abbrev refusing : Attempt
refusing = record { socket = true; setsockopt = true; bind = false; listen = true }

create_socket-Created_example :
    Safe
      (Created web Start.no_sockets (calm (2 ∷ []) 3 [] []))
      (create_socket loopback refusing web Start.no_sockets (calm (2 ∷ []) 3 [] []))
create_socket-Created_example =
    create_socket-Created web Start.no_sockets (calm (2 ∷ []) 3 [] []) loopback refusing block
      (codes "127.0.0.1")
      (record { few = omega arith; fresh = (omega arith, tt); opened = tt; known = tt; apart = tt })
      refl refl block_text

create_socket-get_address_and_port_example :
    (addr : Socket.Sockaddr) × (create_socket loopback all_granted web Start.no_sockets
        (calm (2 ∷ []) 3 [] [])
      ≡ done
          (
            pos 3,
            listening loopback web Start.no_sockets
                (calm (2 ∷ []) 3 [] [])
                block
                (codes "127.0.0.1")
                addr,
          )
          (calm (3 ∷ 2 ∷ []) 4 [] []))
    × (get_address_and_port loopback addr ([], pos 0)
        ≡ (codes "127.0.0.1", pos (uint16 (pos 8080))))
create_socket-get_address_and_port_example =
    create_socket-get_address_and_port loopback web Start.no_sockets (calm (2 ∷ []) 3 [] []) block
      (codes "127.0.0.1") v4 (Socket.converted (127 ∷ 0 ∷ 0 ∷ 1 ∷ [])) ([], pos 0) refl refl refl
      block_text refl refl (λ e. cc)
