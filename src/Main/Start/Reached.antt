-- ===== src/Main/Start/Reached.antt =====
-- From the configuration to every state of the loop.
use simple_http.Base.{◌≡◌, refl, List, [], ℕ, All, subst}
use simple_http.Effects.{World, Run, done}
use simple_http.Effects.Outcomes.{calm}
use simple_http.Effects.Safe.{Safe}
use simple_http.Parser.Closing.{Below}
use simple_http.Plugin.{Loader, test_types}
use simple_http.Base.Int.{pos}
use simple_http.Plugin.Events.{Harmless}
use simple_http.System.{System}
use simple_http.VirtualPath.{Lua}
use simple_http.Socket.{Net, Inet, Attempt}
use simple_http.Setup.{Driver, Call}
use simple_http.Setup.Invariant.{Fits}
use simple_http.Main.{Server, Reach}
use simple_http.Main.Start.{listening, start}
use simple_http.Main.Start.Table.{Started, start-Started, confs, with_domain}
use simple_http.Main.Loop.{Runs}
use simple_http.Main.Turns.{Reach-Runs}

-- The server before its first poll.
abbrev pub fresh : Net → Server
fresh net = record { net = net; children = []; unserved = [] }

Safe-done :
    {A : Type 0} (P : A → World → Type 0) (r : Run A) (a : A) (w : World)
    → r ≡ done a w
    → Safe P r
    → P a w
Safe-done P r a w e h = subst (Safe P) e h

-- Where memory suffices and `main` comes to its loop from a configuration whose arguments fit, a
-- process whose descriptors are below the next one and plugins whose handlers of the test event
-- meet no undefined behaviour and touch nothing, every state that the loop reaches has the table
-- of sockets unchanged, with distinct, open descriptors below the next one and at most as many as
-- the array has room for, and every open descriptor is one that the process held when the loop
-- began or is a connection that no child serves; the table lists the configured sockets whose
-- domain has addresses, in order.
pub start-Reach :
    (sys : System) (lua : Lua) (inet : Inet) (ats : List Attempt) (loader : Loader)
    (script : List Call) (fds : List ℕ) (next : ℕ) (drv : Driver) (net : Net) (w : World)
    (s : Server) (w' : World)
    → Below next fds
    → All Fits script
    → Harmless loader test_types (pos 42)
    → start inet ats loader script (calm fds next [] []) ≡ done (listening drv net) w
    → Reach sys lua inet loader drv (fresh net, w) (s, w')
    → Runs net w.fds s w' × (confs net.open_sockets ≡ with_domain drv.socket)
start-Reach sys lua inet ats loader script fds next drv net w s w' below fits harmless started
      reach =
    let (c, o, root) =
      Safe-done Started _ (listening drv net) w started
        (start-Started inet ats loader script fds next below fits harmless) in
    (
      Reach-Runs sys lua inet loader drv net w.fds
          (record { kept = refl; listens = o.listens; held = refl }) reach,
      o.all,
    )
