-- ===== src/Examples/Starting.antt =====
-- Runs of src/main.c from its configuration to its loop.
use simple_http.Base.{arith, [], ◌∷◌, some, ◌≡◌, refl, codes, List, All}
use simple_http.Base.Int.{pos}
use simple_http.Effects.{done}
use simple_http.Effects.Outcomes.{calm}
use simple_http.Socket
use simple_http.Socket.{Net}
use simple_http.Socket.{domtosize, unspecified}
use simple_http.Effects.{alloc, alloc_or_fatal}
use simple_http.Setup
use simple_http.Setup.{Driver}
use simple_http.Setup.Invariant.{Fits}
use simple_http.Parser.Lines.{c_string}
use simple_http.Socket.{text_of}
use simple_http.Effects.{alloc_or_crash}
use simple_http.Main
use simple_http.Plugin.Events.{trigger_event}
use simple_http.Main.Start.{listening, create_sockets, open_all, with_roots, configured, start}
use simple_http.Main.{watch, Server, Client, Arrival, take_client, turn, Reach}
use simple_http.Main.Start.Table.{confs, with_domain}
use simple_http.Main.Start.Reached.{fresh, start-Reach}
use simple_http.Main.Loop.{Runs}
use simple_http.Examples.Routing.{plain_machine}
use simple_http.Examples.Files.{static_routes}
use simple_http.Examples.Listening.{loopback, web}
use simple_http.Examples.Configuring.{driver, text, at_address}
use simple_http.Examples.Serving.{calls, good_loader}

-- A configuration with one socket and both roots.
abbrev brief_script : List Setup.Call
brief_script =
    Setup.set_server_root (text (codes "r"))
    ∷ Setup.set_routes_root (text (codes "q"))
    ∷ Setup.create_socket (at_address (codes "127.0.0.1"))
    ∷ []

brief_script-Fits : All Fits brief_script
unfolding c_string
brief_script-Fits = (tt, (tt, ((omega arith, refl, refl, refl), tt)))

abbrev started_net : Net
started_net = record {
  open_sockets = record { fd = 3; conf = web } ∷ [];
  bound = (3, Socket.sockaddr_in (31, 144) (127 ∷ 0 ∷ 0 ∷ 1 ∷ [])) ∷ [];
  listening = (3, pos 5) ∷ [];
}

abbrev started_driver : Driver
started_driver = record driver {
  socket = web ∷ [];
  server_root = some (codes "r");
  routes_root = some (codes "q");
}

started :
    start loopback [] good_loader brief_script (calm (2 ∷ []) 3 [] [])
    ≡ done (listening started_driver started_net) (calm (3 ∷ 2 ∷ []) 4 [] [])
unfolding start configured with_roots open_all create_sockets trigger_event Setup.init
    Setup.run_script Setup.go_on Setup.run_call Setup.lua_set_server_root Setup.lua_set_routes_root
    Setup.copy_root Setup.lua_create_socket Setup.check_args Setup.check_numbers Setup.new_socket
    Setup.add_socket Setup.copy_ip Setup.number_of Setup.number_in Setup.wrap_int Setup.to_c_int
    c_string Socket.create_socket Socket.create Socket.opened Socket.configure Socket.addressed
    Socket.bind_to Socket.listen_on Socket.register Socket.make_address Socket.make_in
    Socket.in_addr Socket.open_socket Socket.read_text Socket.htons domtosize text_of alloc
    alloc_or_fatal alloc_or_crash
started = refl

abbrev full : Server
full = record (fresh started_net) { unserved = 4 ∷ [] }

first_turn :
    Reach plain_machine static_routes loopback good_loader started_driver
      (fresh started_net, calm (3 ∷ 2 ∷ []) 4 [] [])
      (full, calm (4 ∷ 3 ∷ 2 ∷ []) 5 [] [])
unfolding turn watch Main.on_event Main.take_if take_client Main.accept Main.log_client Main.on_fork
    Main.find_domain domtosize alloc alloc_or_fatal
first_turn = Main.next Main.at_start (Main.polled (fresh started_net) full _ _ calls refl)

start-Reach_example :
    Runs started_net (3 ∷ 2 ∷ []) full (calm (4 ∷ 3 ∷ 2 ∷ []) 5 [] [])
    × (confs started_net.open_sockets ≡ with_domain started_driver.socket)
start-Reach_example =
    start-Reach plain_machine static_routes loopback [] good_loader brief_script (2 ∷ []) 3
      started_driver started_net (calm (3 ∷ 2 ∷ []) 4 [] []) full (calm (4 ∷ 3 ∷ 2 ∷ []) 5 [] [])
      (omega arith, tt) brief_script-Fits (λ file w. refl) started first_turn
