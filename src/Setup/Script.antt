-- ===== src/Setup/Script.antt =====
-- A whole configuration, from `init` to the driver that it leaves.
use simple_http.Base.{
  ℕ, ◌<◌, ◌≡◌, refl, false, Bool-cases, inl, inr, Option, none, some, Option-cases, List, [], ◌∷◌,
  Bytes, codes, All, length, leb, arith,
}
use simple_http.Base.Int.{ℤ, IsInt}
use simple_http.Effects.{World, Run, alloc, alloc_or_fatal, alloc_or_crash}
use simple_http.Effects.Outcomes.{calm}
use simple_http.Effects.Safe.{Safe}
use simple_http.Parser.Lines.{c_string}
use simple_http.Socket.{max_open_sockets}
use simple_http.Response.{KeepAlive}
use simple_http.Plugin
use simple_http.Plugin.{Loader, PluginStatus, Registry, Plugin}
use simple_http.Plugin.Calm.{plugin_system_init-calm}
use simple_http.Setup
use simple_http.Setup.{
  Driver, SocketArgs, LuaValue, LuaResult, returned, raised, Call, max_addr_len, init, run_script,
  run_call,
}
use simple_http.Setup.Invariant.{
  Configured, Fits, IsSetup, Keeps, Keeps-bind, number_of-IsInt, new_socket-IsSetup, FitsTable,
  InRange, IsShort,
}

not_full : (n : ℕ) → leb max_open_sockets n ≡ false → n < max_open_sockets
not_full n h = ground arith

module _ (fds : List ℕ) (next : ℕ) (input sent : Bytes) (drv : Driver) (c : Configured drv) where
  -- The sockets stay, and the new settings are `int`s.
  settings_kept :
      (root routes : Option Bytes) (ka : KeepAlive) (r : Registry) (limit : ℤ)
      → IsInt ka.timeout
      → IsInt ka.max
      → IsInt limit
      → Configured (record drv {
        server_root = root;
        routes_root = routes;
        keep_alive = ka;
        plugins = r;
        thread_limit = limit;
      })
  settings_kept root routes ka r limit t m l = record {
    cells = c.cells;
    few = c.few;
    sound = c.sound;
    timeout = t;
    max = m;
    limit = l;
  }

  check_numbers-IsSetup :
      (args : SocketArgs) (ip : Bytes) (port : ℤ)
      → length drv.socket < max_open_sockets
      → length (c_string ip) < max_addr_len
      → InRange args.domain.number
      → InRange args.listen.number
      → InRange args.proto.number
      → Keeps fds next input sent IsSetup
          (Setup.check_numbers drv args ip port (calm fds next input sent))
  unfolding Setup.check_numbers Setup.new_socket Setup.number_of
  check_numbers-IsSetup args ip port room short d l p = elim (Option-cases args.domain.integer) [
    | inl e ↦ rw e (tt, refl)
    | inr (x, e) ↦ elim (Option-cases args.listen.integer) [
      | inl e2 ↦ rw (e, e2) (tt, refl)
      | inr (y, e2) ↦ elim (Option-cases args.proto.integer) [
        | inl e3 ↦ rw (e, e2, e3) (tt, refl)
        | inr (z, e3) ↦
            rw (e, e2, e3)
              (new_socket-IsSetup fds next input sent drv args ip port c room short d l p)
      ]
    ]
  ]

  check_args-IsSetup :
      (args : SocketArgs) (ip : Option Bytes)
      → args.ip.string ≡ ip
      → IsShort ip
      → length drv.socket < max_open_sockets
      → InRange args.domain.number
      → InRange args.listen.number
      → InRange args.proto.number
      → Keeps fds next input sent IsSetup (Setup.check_args drv args (calm fds next input sent))
  unfolding Setup.check_args Setup.check_numbers Setup.new_socket
  check_args-IsSetup args none e short room d l p = rw e (tt, refl)
  check_args-IsSetup args (some ip) e short room d l p = elim (Option-cases args.port.integer) [
    | inl n ↦ rw (e, n) (tt, refl)
    | inr (port, n) ↦ rw (e, n) (check_numbers-IsSetup args ip port room short d l p)
  ]

  keep_alive-IsSetup :
      (table : Option (Bytes → LuaValue))
      → FitsTable table
      → Keeps fds next input sent IsSetup
          (Setup.lua_set_keep_alive table drv (calm fds next input sent))
  unfolding Setup.lua_set_keep_alive
  keep_alive-IsSetup none h = (tt, refl)
  keep_alive-IsSetup (some table) (t, m) =
      Keeps-bind fds next input sent IsInt IsSetup _ _
        (number_of-IsInt fds next input sent (table (codes "timeout")) t)
        (λ timeout ti.
          Keeps-bind fds next input sent IsInt IsSetup _ _
            (number_of-IsInt fds next input sent (table (codes "max")) m)
            (λ max mi. (settings_kept _ _ _ _ _ ti mi c.limit, refl)))

  thread_limit-IsSetup :
      (v : LuaValue)
      → InRange v.number
      → Keeps fds next input sent IsSetup
          (Setup.lua_set_thread_limit v drv (calm fds next input sent))
  unfolding Setup.lua_set_thread_limit Setup.number_of
  thread_limit-IsSetup v h = elim (Option-cases v.integer) [
    | inl e ↦ rw e (tt, refl)
    | inr (x, e) ↦ rw e (
        Keeps-bind fds next input sent IsInt IsSetup _ _ (number_of-IsInt fds next input sent v h)
          (λ limit li. (settings_kept _ _ _ _ _ c.timeout c.max li, refl)))
  ]

  log_level-IsSetup :
      (v : LuaValue)
      → InRange v.number
      → Keeps fds next input sent IsSetup (Setup.lua_set_log_level v drv (calm fds next input sent))
  unfolding Setup.lua_set_log_level Setup.number_of
  log_level-IsSetup v h = elim (Option-cases v.integer) [
    | inl e ↦ rw e (tt, refl)
    | inr (x, e) ↦ rw e (
        Keeps-bind fds next input sent IsInt IsSetup _ _ (number_of-IsInt fds next input sent v h)
          (λ level li. (c, refl)))
  ]

  initialised-IsSetup :
      (s : PluginStatus) (r : Registry)
      → Keeps fds next input sent IsSetup (Setup.initialised drv (s, r) (calm fds next input sent))
  unfolding Setup.initialised
  initialised-IsSetup Plugin.invalid r = tt
  initialised-IsSetup Plugin.not_found r = tt
  initialised-IsSetup Plugin.error r = tt
  initialised-IsSetup Plugin.ok r = (settings_kept _ _ _ _ _ c.timeout c.max c.limit, refl)

  init_plugins-IsSetup :
      (loader : Loader) (directory : Bytes) (ps : List Plugin)
      → Keeps fds next input sent IsSetup
          (Setup.init_plugins loader directory drv ps (calm fds next input sent))
  unfolding Setup.init_plugins
  init_plugins-IsSetup loader directory [] =
      let ((s, r), e) =
        plugin_system_init-calm fds next input sent loader (c_string directory) drv.plugins in
      rw e (initialised-IsSetup s r)
  init_plugins-IsSetup loader directory (p ∷ ps) = tt

  root-IsSetup :
      (v : LuaValue)
      → Keeps fds next input sent IsSetup
          (Setup.lua_set_server_root v drv (calm fds next input sent))
        × Keeps fds next input sent IsSetup
            (Setup.lua_set_routes_root v drv (calm fds next input sent))
  unfolding Setup.lua_set_server_root Setup.lua_set_routes_root Setup.copy_root alloc_or_crash alloc
  root-IsSetup v = elim (Option-cases v.string) [
    | inl e ↦ rw e ((tt, refl), (tt, refl))
    | inr (x, e) ↦ rw e (
      (settings_kept _ _ _ _ _ c.timeout c.max c.limit, refl),
      (settings_kept _ _ _ _ _ c.timeout c.max c.limit, refl),
    )
  ]

  run_call-IsSetup :
      (loader : Loader) (call : Call)
      → Fits call
      → Keeps fds next input sent IsSetup (run_call loader call drv (calm fds next input sent))
  unfolding run_call Setup.lua_create_socket Setup.lua_plugin_init
  run_call-IsSetup loader (Setup.create_socket args) (ip, d, l, p) =
      elim (Bool-cases (leb max_open_sockets (length drv.socket))) [
        | inl full ↦ rw full tt
        | inr room ↦ rw room (
            check_args-IsSetup args args.ip.string refl ip (not_full (length drv.socket) room) d l
              p)
      ]
  run_call-IsSetup loader (Setup.set_server_root v) h = (root-IsSetup v).0
  run_call-IsSetup loader (Setup.set_routes_root v) h = (root-IsSetup v).1
  run_call-IsSetup loader (Setup.set_thread_limit v) h = thread_limit-IsSetup v h
  run_call-IsSetup loader (Setup.set_log_level v) h = log_level-IsSetup v h
  run_call-IsSetup loader (Setup.set_keep_alive t) h = keep_alive-IsSetup t h
  run_call-IsSetup loader (Setup.plugin_init none) h = (tt, refl)
  run_call-IsSetup loader (Setup.plugin_init (some d)) h =
      init_plugins-IsSetup loader d drv.plugins.plugins

module _ (fds : List ℕ) (next : ℕ) (input sent : Bytes) where
  go_on-Configured :
      (again : Driver → World → Run Driver)
      → ((drv : Driver)
          → Configured drv
          → Keeps fds next input sent Configured (again drv (calm fds next input sent)))
      → (r : LuaResult Driver) → IsSetup r
      → Keeps fds next input sent Configured (Setup.go_on again r (calm fds next input sent))
  unfolding Setup.go_on
  go_on-Configured again ih (returned drv) s = ih drv s
  go_on-Configured again ih raised s = tt

  run_script-Configured :
      (loader : Loader) (script : List Call) (drv : Driver)
      → All Fits script
      → Configured drv
      → Keeps fds next input sent Configured
          (run_script loader script drv (calm fds next input sent))
  unfolding run_script
  run_script-Configured loader [] drv fits c = (c, refl)
  run_script-Configured loader (call ∷ script) drv (h, fits) c =
      Keeps-bind fds next input sent IsSetup Configured _ _
        (run_call-IsSetup fds next input sent drv c loader call h)
        (go_on-Configured (run_script loader script)
          (λ d k. run_script-Configured loader script d fits k))

  -- Where memory suffices, a script of any calls whose numbers are `int`s and whose addresses have
  -- less than 12 bytes keeps the driver well formed, or aborts: at most 128 sockets, each with an
  -- address that can be read and numbers that are `int`s, and settings that are `int`s. Nothing
  -- undefined happens, and the surroundings stay.
  pub init-Configured :
      (loader : Loader) (script : List Call) (drv : Driver)
      → All Fits script
      → Configured drv
      → Safe
          (λ drv' w'. Configured drv' × (w' ≡ calm fds next input sent))
          (init loader script drv (calm fds next input sent))
  unfolding init alloc_or_fatal alloc
  init-Configured loader script drv fits c = run_script-Configured loader script drv fits c
