-- ===== src/Quit.antt =====
-- `ctrl_c_h` of src/quit_handler.c: what the process gives back when it quits.
pub mod Frees
use simple_http.Base.{ℕ, suc, Bool, true, false, if◌then◌else◌, List, [], ◌∷◌, ◌++◌, Bytes, map}
use simple_http.Base.Int.{ℤ, pos, negsuc, eq_int}
use simple_http.Effects.{M, pure, ◌>>=◌, log_fatal, undefined, close}
use simple_http.FreeStack
use simple_http.FreeStack.{FreeStack, stack_count}
use simple_http.Plugin.{Loader, unload_all_plugins}
use simple_http.Socket.{OpenSocket, Net}
use simple_http.Setup.{Driver}

-- What the quit handler frees: the configuration of an open socket, named by its descriptor, with its
-- address, the driver with its parts, and the saved pointers.
pub data Block : Type 0 where
  addr_of conf_of saved : ℕ → Block
  socket_array routes_root server_root driver : Block

pub record Cleanup : Type 0 where
  pub freed : List Block
  -- the libraries whose shutdown ran
  pub shut_down : List Bytes
  pub exits : Bool

pub free_sockets : List OpenSocket → M (List Block)
free_sockets [] = pure []
free_sockets (e ∷ es) = do
  _ ← close (pos e.fd)
  rest ← free_sockets es
  pure (addr_of e.fd ∷ conf_of e.fd ∷ rest)

-- The loop that empties the stack of pointers; a fuel above its cells is enough. `pop_ptr` never quits.
pub free_stack : FreeStack → M (List Block)
free_stack stack = elim (FreeStack.drain (suc stack_count) stack) [
  | FreeStack.quit ↦ log_fatal
  | FreeStack.out_of_bounds ↦ undefined
  | FreeStack.ok (ptrs, _) ↦ pure (map saved ptrs)
]

-- `ctrl_c_h(sigframe)`
pub ctrl_c_h : Loader → Driver → Net → FreeStack → ℤ → M Cleanup
ctrl_c_h loader drv net stack sigframe = do
  blocks ← free_sockets net.open_sockets
  (_, files) ← unload_all_plugins loader drv.plugins.plugins
  ptrs ← free_stack stack
  pure (record {
    freed = blocks ++ socket_array ∷ routes_root ∷ server_root ∷ driver ∷ ptrs;
    shut_down = files;
    exits = if eq_int sigframe (negsuc 0) then false else true;
  })
