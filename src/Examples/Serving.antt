-- ===== src/Examples/Serving.antt =====
-- Runs of src/main.c and src/quit_handler.c.
use simple_http.Base.{ℕ, arith, [], false, true, ◌∷◌, some, ◌≡◌, refl, codes, List, All}
use simple_http.Base.Int.{pos}
use simple_http.Effects.{done, World, is_open}
use simple_http.Effects.Outcomes.{calm}
use simple_http.Effects.Safe.{Safe}
use simple_http.FreeStack.{empty}
use simple_http.FreeStack.Laws.{empty-IsStack}
use simple_http.Plugin.{Plugin, ok, Loader, load_all, fresh_plugin, unload_all_plugins}
use simple_http.Plugin.Unload.{keeps, unload_all_plugins-load_all}
use simple_http.Job.{thread_ok, Revents}
use simple_http.Job.Serve.{answer}
use simple_http.Socket.{Net}
use simple_http.Socket.{domtosize, unspecified}
use simple_http.Effects.{alloc, alloc_or_fatal}
use simple_http.Setup.{Driver}
use simple_http.Base.{◌≢◌}
use simple_http.Job.Serve.{answer}
use simple_http.Main
use simple_http.Plugin.Events.{Quiet}
use simple_http.Main.{goes_on, watch, Server, Client, Arrival, take_client, turn, Reach}
use simple_http.Main.Loop.{Runs}
use simple_http.Main.Turns.{RunsAt, Stays, Reach-Runs, turn-Stays}
use simple_http.Effects.Returns.{Returns}
use simple_http.Main.Progress.{Back, children_of, stalls, turn-Back}
use simple_http.Main.Answer.{arrival, take_client-answer}
use simple_http.Quit.{Cleanup, ctrl_c_h}
use simple_http.Quit.Frees.{NoDup, ctrl_c_h-NoDup}
use simple_http.Examples.Routing.{plain_machine}
use simple_http.Examples.Files.{static_routes}
use simple_http.Examples.Plugins.{loader, a_so}
use simple_http.Examples.Listening.{loopback, web}
use simple_http.Examples.Configuring.{driver}
use simple_http.Examples.Jobs.{asked, brief, brief-Serves}

-- A server that listens at one socket.
abbrev one_socket : Net
one_socket = record {
  open_sockets = record { fd = 3; conf = web } ∷ [];
  bound = [];
  listening = [];
}

abbrev idle : Server
idle = record { net = one_socket; children = []; unserved = [] }

idle-Runs : Runs one_socket (3 ∷ []) idle (calm (3 ∷ []) 4 [] [])
unfolding domtosize
idle-Runs = record {
  kept = refl;
  listens = record {
    few = omega arith;
    fresh = (omega arith, tt);
    opened = (refl, tt);
    known = (refl, tt);
    apart = (tt, tt);
  };
  held = refl;
}

abbrev visitor : Client
visitor = record { addr = unspecified; input = asked }

-- A library that starts and has its shutdown.
abbrev pub good_loader : Loader
good_loader = record loader {
  plugin_init = λ file. some (λ info. (
    ok,
    record info {
      enabled = true;
      events = record { pre_on = true; post_on = true; test_on = false };
    },
  ));
}

quiet : Quiet good_loader
quiet file event arg w = (ok, refl)

abbrev good : List Plugin
good = (load_all good_loader (fresh_plugin a_so ∷ [])).1

good_unload : (u : World) → unload_all_plugins good_loader good u ≡ done (ok, a_so ∷ []) u
unfolding keeps
good_unload u = unload_all_plugins-load_all good_loader (fresh_plugin a_so) [] u

abbrev served : Driver
served = record driver {
  server_root = some (codes "r");
  keep_alive = brief;
  plugins = record { plugins = good; count = 1 };
}

abbrev buffer : ℕ
buffer = 4096

buffer_live : buffer ≢ 0
buffer_live e = absurd (omega (arith, e))

take_client-answer_example :
    (c : Cleanup) × (u : World) × (take_client plain_machine static_routes loopback good_loader
        served idle
        (arrival visitor [] buffer)
        (record { fd = 3; conf = web })
        (calm (3 ∷ []) 4 [] [])
      ≡ done
          (goes_on (record idle { children = done (thread_ok, c) u ∷ [] }))
          (calm (3 ∷ []) 5 [] []))
    × (u.sent
        ≡ answer plain_machine static_routes
            (codes "r")
            (pos 4)
            brief
            (4 ∷ [])
            5
            asked
            []
            (codes "GET")
            (codes "/a.css")
            (codes "p{}")
            (codes "text/css"))
    × NoDup c.freed
    × (c.shut_down ≡ a_so ∷ [])
take_client-answer_example =
    take_client-answer plain_machine static_routes loopback good_loader served (codes "r") idle
      one_socket (record { fd = 3; conf = web }) (3 ∷ []) (3 ∷ []) 4 [] [] visitor [] buffer
      (codes "GET") (codes "/a.css") (codes "p{}") (codes "text/css") ok (a_so ∷ []) refl idle-Runs
      refl refl quiet buffer_live good_unload brief-Serves

-- A client that comes while `fork` fails.
abbrev pub calls : List (Revents × Arrival)
calls =
    (
      record {
        pollin = true;
        pollpri = false;
        pollout = false;
        pollhup = false;
        pollrdband = false;
        pollnval = false;
      },
      record (arrival visitor [] buffer) { forks = false },
    )
    ∷ []

turn-Stays_example :
    Safe (Stays plain_machine static_routes loopback good_loader served one_socket (3 ∷ [])) (
      turn plain_machine static_routes loopback good_loader served idle
        (some calls)
        (calm (3 ∷ []) 4 [] []))
turn-Stays_example =
    turn-Stays plain_machine static_routes loopback good_loader served one_socket (3 ∷ []) idle
      (some calls) (calm (3 ∷ []) 4 [] []) idle-Runs

turn-Back_example :
    Returns
      (Back plain_machine static_routes loopback good_loader served one_socket
        (3 ∷ [])
        idle
        (children_of one_socket.open_sockets calls)
        (stalls one_socket.open_sockets calls))
      (turn plain_machine static_routes loopback good_loader served idle
        (some calls)
        (calm (3 ∷ []) 4 [] []))
turn-Back_example =
    turn-Back plain_machine static_routes loopback good_loader served one_socket (3 ∷ []) idle calls
      (calm (3 ∷ []) 4 [] []) (refl, tt) idle-Runs refl

abbrev waiting : Server
waiting = record idle { unserved = 4 ∷ [] }

one_turn :
    Reach plain_machine static_routes loopback good_loader served
      (idle, calm (3 ∷ []) 4 [] [])
      (waiting, calm (4 ∷ 3 ∷ []) 5 [] [])
unfolding turn watch Main.on_event Main.take_if take_client Main.accept Main.log_client Main.on_fork
    Main.find_domain domtosize alloc alloc_or_fatal
one_turn = Main.next Main.at_start (Main.polled idle waiting _ _ calls refl)

Reach-Runs_example :
    RunsAt plain_machine static_routes loopback good_loader served one_socket
      (3 ∷ [])
      (waiting, calm (4 ∷ 3 ∷ []) 5 [] [])
Reach-Runs_example =
    Reach-Runs plain_machine static_routes loopback good_loader served one_socket (3 ∷ []) idle-Runs
      one_turn

ctrl_c_h-NoDup_example :
    (c : Cleanup) × (u : World) × (ctrl_c_h good_loader
        (record driver { plugins = record { plugins = good; count = 1 } })
        one_socket
        empty
        (pos 2)
        (calm (3 ∷ []) 4 [] [])
      ≡ done c u)
    × NoDup c.freed
    × All (λ e. is_open (pos e.fd) u.fds ≡ false) one_socket.open_sockets
    × (c.shut_down ≡ a_so ∷ [])
    × (u.sent ≡ [])
ctrl_c_h-NoDup_example =
    ctrl_c_h-NoDup good_loader (record driver { plugins = record { plugins = good; count = 1 } })
      one_socket empty (pos 2) (calm (3 ∷ []) 4 [] []) ok (a_so ∷ []) (tt, tt) empty-IsStack tt tt
      good_unload
