-- ===== src/Main/Start.antt =====
-- `main` of src/main.c up to its loop.
pub mod Table
pub mod Reached
use simple_http.Base.{
  ℕ, Bool, true, false, Option, none, some, List, [], ◌∷◌, Bytes, ◌==◌, if◌then◌else◌, length,
}
use simple_http.Base.Int.{pos}
use simple_http.Effects.{M, pure, ◌>>=◌, ◌>>◌, alloc, alloc_or_crash}
use simple_http.Plugin.{Loader, test_types}
use simple_http.Plugin.Events.{trigger_event}
use simple_http.Socket.{NewSock, Net, Inet, Attempt, create_socket}
use simple_http.Setup.{Driver, Call, init}

-- The driver that `calloc` makes; `sizeof(new_sock_t)` is 32 bytes, of which each of the
-- MAX_OPEN_SOCKETS blocks has four pointers.
abbrev pub fresh_driver : Bool → Driver
fresh_driver array = record {
  cells = if array then 512 else 0;
  socket = [];
  server_root = none;
  routes_root = none;
  keep_alive = record { keep_alive = false; timeout = pos 0; max = pos 0 };
  plugins = record { plugins = []; count = 0 };
  thread_limit = pos 0;
}

-- Where `main` stands behind its set-up: it returned, or it listens.
pub data Stage : Type 0 where
  exited : ℕ → Stage
  listening : Driver → Net → Stage

abbrev pub no_sockets : Net
no_sockets = record { open_sockets = []; bound = []; listening = [] }

-- What the kernel grants the next socket; from the end of the list on it grants everything.
abbrev pub next_attempt : List Attempt → Attempt
next_attempt [] = record { socket = true; setsockopt = true; bind = true; listen = true }
next_attempt (at ∷ ats) = at

abbrev pub later_attempts : List Attempt → List Attempt
later_attempts [] = []
later_attempts (at ∷ ats) = ats

-- `fds[i] = createSocket(drv->socket[i])`; nothing reads `fds`.
unfoldable pub create_sockets : Inet → List Attempt → List NewSock → Net → M Net
create_sockets inet ats [] net = pure net
create_sockets inet ats (sock ∷ socks) net = do
  (_, net') ← create_socket inet (next_attempt ats) sock net
  create_sockets inet (later_attempts ats) socks net'

-- The plugins get the event `test_types`.
unfoldable pub open_all : Inet → List Attempt → Loader → Driver → M Stage
open_all inet ats loader drv = do
  _ ← trigger_event loader drv.plugins.plugins test_types (pos 42)
  net ← create_sockets inet ats drv.socket no_sockets
  pure (listening drv net)

-- `drv->routes_root == NULL || drv->server_root == NULL`
unfoldable pub with_roots :
    Inet → List Attempt → Loader → Driver → Option Bytes → Option Bytes → M Stage
with_roots inet ats loader drv (some routes) (some server) = open_all inet ats loader drv
with_roots inet ats loader drv _ _ = pure (exited 1)

unfoldable pub configured : Inet → List Attempt → Loader → Driver → M Stage
configured inet ats loader drv =
    if length drv.socket == 0
    then pure (exited 1)
    else with_roots inet ats loader drv drv.routes_root drv.server_root

-- `main` up to its loop.
unfoldable pub start : Inet → List Attempt → Loader → List Call → M Stage
start inet ats loader script = do
  alloc_or_crash
  array ← alloc
  drv ← init loader script (fresh_driver array)
  configured inet ats loader drv
