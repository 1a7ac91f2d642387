-- ===== src/Examples/Configuring.antt =====
-- Runs of src/lua/setup.c and src/lua/lua_.c.
use simple_http.Base.{
  ◌++◌, ◌∷◌, List, All, arith, [], true, some, none, ◌≡◌, ◌⊎◌, refl, Bytes, codes, length, ◌<◌,
}
use simple_http.Base.Int.{ℤ, pos}
use simple_http.Effects.{done, World, fault}
use simple_http.Effects.Outcomes.{calm}
use simple_http.Parser.Lines.{c_string}
use simple_http.Socket
use simple_http.Socket.{Net, Inet, Attempt, create_socket, text_of}
use simple_http.Setup.{Call, Driver, SocketArgs, LuaValue, returned, lua_create_socket}
use simple_http.Setup.Create.{
  Passes, with_socket, configured, lua_create_socket-text_of, lua_create_socket_long,
}
use simple_http.Effects.Safe.{Safe}
use simple_http.Setup
use simple_http.Setup.{Call}
use simple_http.Setup.Plugins.{lua_plugin_init-found, outcome}
use simple_http.Setup.Script.{init-Configured}
use simple_http.Setup.Invariant.{Configured, Fits}
use simple_http.Plugin.Load.{found}
use simple_http.Base.{All}
use simple_http.Main.Start
use simple_http.Bindings.{lua_write_}
use simple_http.Bindings.Sends.{sends, lua_write_-sends}
use simple_http.Examples.Plugins.{loader, visits}

abbrev pub number : ℤ → LuaValue
number z = record { string = none; integer = some z; number = some z; boolean = true }

abbrev pub text : Bytes → LuaValue
text s = record { string = some s; integer = none; number = none; boolean = true }

abbrev pub at_address : Bytes → SocketArgs
at_address ip = record {
  ip = text ip;
  port = number (pos 8080);
  domain = number (pos 2);
  listen = number (pos 5);
  proto = number (pos 0);
}

at_address-Passes : (ip : Bytes) → Passes (at_address ip) ip (pos 8080) (pos 2) (pos 5) (pos 0)
at_address-Passes ip = record {
  ip_text = refl;
  port_integer = refl;
  domain_integer = refl;
  domain_number = refl;
  domain_int = refl;
  listen_integer = refl;
  listen_number = refl;
  listen_int = refl;
  proto_integer = refl;
  proto_number = refl;
  proto_int = refl;
}

abbrev pub driver : Driver
driver = Start.fresh_driver true

lua_create_socket-text_of_example :
    (cells : Bytes) × (lua_create_socket (at_address (codes "127.0.0.1")) driver (calm [] 3 [] [])
      ≡ done
          (returned (
            with_socket
              (at_address (codes "127.0.0.1"))
              (codes "127.0.0.1")
              (pos 8080)
              (pos 2)
              (pos 5)
              (pos 0)
              driver
              []
              3
              []
              []
              cells))
          (calm [] 3 [] []))
    × (text_of cells ≡ some (c_string (codes "127.0.0.1")))
unfolding c_string
lua_create_socket-text_of_example =
    lua_create_socket-text_of (at_address (codes "127.0.0.1")) (codes "127.0.0.1") (pos 8080)
      (pos 2) (pos 5) (pos 0) driver [] 3 [] [] (at_address-Passes (codes "127.0.0.1"))
      (omega arith) (omega arith) (omega arith)

abbrev twelve : Bytes
twelve = codes "192.168.1.10"

lua_create_socket_long_example :
    (lua_create_socket (at_address twelve) driver (calm [] 3 [] []) ≡ fault)
    ⊎ ((lua_create_socket (at_address twelve) driver (calm [] 3 [] [])
          ≡ done
              (returned (
                with_socket
                  (at_address twelve)
                  twelve
                  (pos 8080)
                  (pos 2)
                  (pos 5)
                  (pos 0)
                  driver
                  []
                  3
                  []
                  []
                  (c_string twelve)))
              (calm [] 3 [] []))
        × ((inet : Inet) (at : Attempt) (net : Net) (w : World)
            → length net.open_sockets < Socket.max_open_sockets
            → create_socket inet at
                (configured
                  (at_address twelve)
                  twelve
                  (pos 8080)
                  (pos 2)
                  (pos 5)
                  (pos 0)
                  driver
                  []
                  3
                  []
                  []
                  (c_string twelve))
                net
                w
              ≡ fault))
unfolding c_string
lua_create_socket_long_example =
    lua_create_socket_long (at_address twelve) twelve (pos 8080) (pos 2) (pos 5) (pos 0) driver [] 3
      [] [] (at_address-Passes twelve) (omega arith) (omega arith) (omega arith)

-- The directory's library fails to start.
lua_plugin_init-found_example :
    Setup.lua_plugin_init loader (some (codes "p")) driver (calm [] 3 [] [])
    ≡ outcome [] 3 [] [] loader driver (found none visits)
unfolding c_string
lua_plugin_init-found_example =
    lua_plugin_init-found [] 3 [] [] loader (codes "p") driver b'p' [] visits refl refl refl

-- A configuration with a socket, both roots, and settings.
abbrev pub script : List Call
script =
    Setup.set_server_root (text (codes "r"))
    ∷ Setup.set_routes_root (text (codes "q"))
    ∷ Setup.create_socket (at_address (codes "127.0.0.1"))
    ∷ Setup.set_keep_alive (some (λ name. number (pos 5)))
    ∷ Setup.set_thread_limit (number (pos 8))
    ∷ Setup.set_log_level (number (pos 2))
    ∷ []

pub script-Fits : All Fits script
unfolding c_string
script-Fits = (tt, (tt, ((omega arith, refl, refl, refl), ((refl, refl), (refl, (refl, tt))))))

pub driver-Configured : Configured driver
driver-Configured = record {
  cells = refl;
  few = omega arith;
  sound = tt;
  timeout = omega arith;
  max = omega arith;
  limit = omega arith;
}

init-Configured_example :
    Safe
      (λ drv' w'. Configured drv' × (w' ≡ calm [] 3 [] []))
      (Setup.init loader script driver (calm [] 3 [] []))
init-Configured_example =
    init-Configured [] 3 [] [] loader script driver script-Fits driver-Configured

lua_write_-sends_example :
    lua_write_ (number (pos 4)) (text (codes "hi")) (number (pos 3)) (calm (4 ∷ []) 5 [] [])
    ≡ sends (pos 4) (codes "hi" ++ 0 ∷ []) 3 (4 ∷ []) 5 [] []
lua_write_-sends_example =
    lua_write_-sends (pos 4) (codes "hi") 3 (4 ∷ []) 5 [] [] (number (pos 4)) (text (codes "hi"))
      (number (pos 3)) refl refl refl refl (omega arith)
