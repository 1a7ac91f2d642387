-- ===== src/Setup/Plugins.antt =====
-- `lua_plugin_init`: which plugins a configuration starts with.
use simple_http.Base.{
  ℕ, ◌≡◌, refl, Bool-cases, inl, inr, none, some, List, [], ◌∷◌, Bytes, if◌then◌else◌, map, length,
}
use simple_http.Effects.{Run, done, aborted}
use simple_http.Effects.Outcomes.{calm}
use simple_http.Parser.Lines.{c_string}
use simple_http.Plugin.{Loader, Visit, load_all, fresh_plugin}
use simple_http.Plugin.Load.{found, plugin_system_init-found, report}
use simple_http.Setup
use simple_http.Setup.{Driver, returned, LuaResult, lua_plugin_init}

module _ (fds : List ℕ) (next : ℕ) (input sent : Bytes) where
  abbrev pub outcome : Loader → Driver → List Bytes → Run (LuaResult Driver)
  outcome loader drv [] = aborted
  outcome loader drv (f ∷ fs) =
      let (failed, ps) = load_all loader (map fresh_plugin (f ∷ fs)) in
      if failed
      then aborted
      else done
          (returned (record drv { plugins = record { plugins = ps; count = length (f ∷ fs) } }))
          (calm fds next input sent)

  -- Where memory suffices, `lua_plugin_init` of a directory that can be walked, with a name that
  -- is not empty, on a driver without plugins returns exactly where the walk finds a library and
  -- every library that it finds starts: the driver then has these plugins, in the order of the
  -- walk, with their number. Otherwise the process aborts, also where there is no library.
  pub lua_plugin_init-found :
      (loader : Loader) (directory : Bytes) (drv : Driver) (c : ℕ) (cs : Bytes) (vs : List Visit)
      → drv.plugins ≡ record { plugins = []; count = 0 }
      → c_string directory ≡ c ∷ cs
      → loader.visits (c ∷ cs) ≡ some vs
      → lua_plugin_init loader (some directory) drv (calm fds next input sent)
        ≡ outcome loader drv (found none vs)
  unfolding lua_plugin_init Setup.init_plugins Setup.initialised
  lua_plugin_init-found loader directory drv c cs vs none_yet named walks =
      rw
        (
          none_yet,
          named,
          Setup.init_plugins,
          none_yet,
          plugin_system_init-found loader c cs vs fds next input sent walks,
        )
        (reported drv (found none vs))
    where
      reported :
          (d : Driver) (files : List Bytes)
          → Setup.initialised d (report loader files) (calm fds next input sent)
            ≡ outcome loader d files
      reported d [] = refl
      reported d (f ∷ fs) = elim (Bool-cases (load_all loader (map fresh_plugin (f ∷ fs))).0) [
        | inl failed ↦ rw failed
        | inr went ↦ rw went
      ]
