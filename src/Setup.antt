-- ===== src/Setup.antt =====
-- src/lua/setup.c and src/lua/setup.h: the functions that a configuration calls, over the driver's
-- state. What the Lua API says of an argument is the record `LuaValue`; a script is the sequence of
-- the calls that it makes. The global `__DRV` is as `init` left it. The level
-- that `lua_set_log_level` sets belongs to the log and is left out.
pub mod Create
pub mod Invariant
pub mod Script
pub mod Plugins
use simple_http.Base.{
  ℕ, zero, suc, ◌+◌, ◌-◌, ◌*◌, ◌/◌, ◌%◌, ◌^◌, Bool, true, false, Option, none, some, List, [], ◌∷◌,
  ◌++◌, Bytes, codes, ◌==◌, ltb, leb, if◌then◌else◌, length, replicate, take,
}
use simple_http.Base.Int.{ℤ, pos, negsuc, int_of_word}
use simple_http.Effects.{
  World, M, Run, done, pure, ◌>>=◌, ◌>>◌, log_fatal, undefined, alloc, alloc_or_crash,
  alloc_or_fatal,
}
use simple_http.Response.{KeepAlive}
use simple_http.Parser.Lines.{c_string}
use simple_http.Socket.{NewSock, max_open_sockets}
use simple_http.Plugin.{Loader, Plugin, PluginStatus, ok, Registry, plugin_system_init}

-- MAX_ADDR_LEN
abbrev pub max_addr_len : ℕ
max_addr_len = 12

-- An argument: its text, where `luaL_checkstring` accepts it, its integer, where `luaL_checkinteger`
-- does, and its number without the fraction, where it has one.
pub record LuaValue : Type 0 where
  pub string : Option Bytes
  pub integer : Option ℤ
  pub number : Option ℤ
  pub boolean : Bool

-- What a function gives Lua: it returns, or it raises an error.
pub data LuaResult (A : Type 0) : Type 0 where
  returned : A → LuaResult A
  raised : LuaResult A

-- `driver_t`; `cells` is the number of pointers that its block of sockets has room for, 0 for NULL.
pub record Driver : Type 0 where
  pub cells : ℕ
  pub socket : List NewSock
  pub server_root : Option Bytes
  pub routes_root : Option Bytes
  pub keep_alive : KeepAlive
  pub plugins : Registry
  pub thread_limit : ℤ

-- The arguments of `create_socket`.
pub record SocketArgs : Type 0 where
  pub ip : LuaValue
  pub port : LuaValue
  pub domain : LuaValue
  pub listen : LuaValue
  pub proto : LuaValue

-- A call of a function of LUA_FUNCS_INIT. The table of `set_keep_alive` is given by its fields, and
-- is none where the argument is no table.
pub data Call : Type 0 where
  create_socket : SocketArgs → Call
  set_server_root set_routes_root set_thread_limit set_log_level : LuaValue → Call
  set_keep_alive : Option (Bytes → LuaValue) → Call
  plugin_init : Option Bytes → Call

-- `int port = lua_tointeger(…)`: the low 32 bits.
unfoldable pub wrap_int : ℤ → ℤ
wrap_int (pos n) = int_of_word (n % 2 ^ 32)
wrap_int (negsuc n) = int_of_word (2 ^ 32 - 1 - n % 2 ^ 32)

abbrev pub fits_int : ℤ → Bool
fits_int (pos n) = ltb n (2 ^ 31)
fits_int (negsuc n) = ltb n (2 ^ 31)

-- A number is cast to `int`, which is undefined outside of its range.
unfoldable pub to_c_int : ℤ → M ℤ
to_c_int z = if fits_int z then pure z else undefined

-- `int x = lua_tonumber(…)`, 0 for what is no number.
unfoldable pub number_in : Option ℤ → M ℤ
number_in none = to_c_int (pos 0)
number_in (some z) = to_c_int z

unfoldable pub number_of : LuaValue → M ℤ
number_of v = number_in v.number

-- `strncpy(addr, ip, strlen(ip))` into the block of MAX_ADDR_LEN zeros, or through NULL.
unfoldable pub copy_ip : Bytes → Bool → M (Option Bytes)
copy_ip [] false = pure none
copy_ip (c ∷ ip) false = undefined
copy_ip ip true =
    if leb (length ip) max_addr_len
    then pure (some (ip ++ replicate (max_addr_len - length ip) 0))
    else undefined

-- `drv->socket[drv->socket_count++] = ns`
unfoldable pub add_socket : Driver → NewSock → M (LuaResult Driver)
add_socket drv ns =
    if ltb (length drv.socket) drv.cells
    then pure (returned (record drv { socket = drv.socket ++ ns ∷ [] }))
    else undefined

-- The arguments that passed the tests: the text, and the integer for the port.
unfoldable pub new_socket : Driver → SocketArgs → Bytes → ℤ → M (LuaResult Driver)
new_socket drv args ip port = do
  domain ← number_of args.domain
  listen ← number_of args.listen
  proto ← number_of args.proto
  alloc_or_fatal
  block ← alloc
  addr ← copy_ip (c_string ip) block
  add_socket drv (record {
    addr = addr;
    port = wrap_int port;
    domain = domain;
    listen = listen;
    proto = proto;
  })

-- The tests of the arguments, in the order of the code.
unfoldable pub check_numbers : Driver → SocketArgs → Bytes → ℤ → M (LuaResult Driver)
check_numbers drv args ip port = elim args.domain.integer [
  | none ↦ pure raised
  | some _ ↦ elim args.listen.integer [
    | none ↦ pure raised
    | some _ ↦ elim args.proto.integer [ none ↦ pure raised | some _ ↦ new_socket drv args ip port ]
  ]
]

unfoldable pub check_args : Driver → SocketArgs → M (LuaResult Driver)
check_args drv args = elim args.ip.string [
  | none ↦ pure raised
  | some ip ↦ elim args.port.integer [
    | none ↦ pure raised
    | some port ↦ check_numbers drv args ip port
  ]
]

unfoldable pub lua_create_socket : SocketArgs → Driver → M (LuaResult Driver)
lua_create_socket args drv =
    if leb max_open_sockets (length drv.socket) then log_fatal else check_args drv args

-- `calloc` and `snprintf`, through NULL where there is no memory.
unfoldable pub copy_root : Bytes → M Bytes
copy_root tmp = do alloc_or_crash; pure (c_string tmp)

unfoldable pub lua_set_server_root : LuaValue → Driver → M (LuaResult Driver)
lua_set_server_root v drv = elim v.string [
  | none ↦ pure raised
  | some tmp ↦ copy_root tmp >>= (λ root. pure (returned (record drv { server_root = some root })))
]

unfoldable pub lua_set_routes_root : LuaValue → Driver → M (LuaResult Driver)
lua_set_routes_root v drv = elim v.string [
  | none ↦ pure raised
  | some tmp ↦ copy_root tmp >>= (λ root. pure (returned (record drv { routes_root = some root })))
]

pub lua_set_keep_alive : Option (Bytes → LuaValue) → Driver → M (LuaResult Driver)
lua_set_keep_alive none drv = pure raised
lua_set_keep_alive (some table) drv = do
  timeout ← number_of (table (codes "timeout"))
  max ← number_of (table (codes "max"))
  pure (
      returned (record drv {
        keep_alive = record {
          keep_alive = (table (codes "keep_alive")).boolean;
          timeout = timeout;
          max = max;
        };
      }))

pub lua_set_thread_limit : LuaValue → Driver → M (LuaResult Driver)
lua_set_thread_limit v drv = elim v.integer [
  | none ↦ pure raised
  | some _ ↦ number_of v >>= (λ limit. pure (returned (record drv { thread_limit = limit })))
]

pub lua_set_log_level : LuaValue → Driver → M (LuaResult Driver)
lua_set_log_level v drv = elim v.integer [
  | none ↦ pure raised
  | some _ ↦ number_of v >>= (λ level. pure (returned drv))
]

pub initialised : Driver → PluginStatus × Registry → M (LuaResult Driver)
initialised drv (ok, registry) = pure (returned (record drv { plugins = registry }))
initialised drv (_, registry) = log_fatal

-- Whether the driver has plugins: the list is not NULL.
pub init_plugins : Loader → Bytes → Driver → List Plugin → M (LuaResult Driver)
init_plugins loader directory drv [] =
    plugin_system_init loader (c_string directory) drv.plugins >>= initialised drv
init_plugins loader directory drv (p ∷ ps) = log_fatal

pub lua_plugin_init : Loader → Option Bytes → Driver → M (LuaResult Driver)
lua_plugin_init loader none drv = pure raised
lua_plugin_init loader (some directory) drv = init_plugins loader directory drv drv.plugins.plugins

unfoldable pub run_call : Loader → Call → Driver → M (LuaResult Driver)
run_call loader (create_socket args) drv = lua_create_socket args drv
run_call loader (set_server_root v) drv = lua_set_server_root v drv
run_call loader (set_routes_root v) drv = lua_set_routes_root v drv
run_call loader (set_thread_limit v) drv = lua_set_thread_limit v drv
run_call loader (set_log_level v) drv = lua_set_log_level v drv
run_call loader (set_keep_alive t) drv = lua_set_keep_alive t drv
run_call loader (plugin_init d) drv = lua_plugin_init loader d drv

-- A call that raises an error changes nothing. An error that the script lets through ends in
-- `luaL_error` outside of every protected call, which aborts.
unfoldable pub go_on : (Driver → M Driver) → LuaResult Driver → M Driver
go_on again (returned drv) = again drv
go_on again raised = log_fatal

unfoldable pub run_script : Loader → List Call → Driver → M Driver
run_script loader [] drv = pure drv
run_script loader (c ∷ cs) drv = run_call loader c drv >>= go_on (run_script loader cs)

-- `init(conf_file, drv)`; the text of the script is a parameter.
unfoldable pub init : Loader → List Call → Driver → M Driver
init loader script drv = do alloc_or_fatal; run_script loader script drv
