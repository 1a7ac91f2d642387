-- ===== src/Examples/Plugins.antt =====
-- Runs of src/plugin/plugin.c.
use simple_http.Base.{
  str_eq, if◌then◌else◌, ap, arith, true, [], ◌∷◌, List, ◌≢◌, some, ◌≡◌, refl, Bytes, codes,
}
use simple_http.Effects.{done, fault}
use simple_http.Effects.Outcomes.{calm}
use simple_http.Plugin.{
  Plugin, ok, error, Loader, Visit, ftw_f, ftw_d, plugin_system_init, unload_all_plugins, load_all,
  fresh_plugin, is_so,
}
use simple_http.Plugin.Load.{found, report, plugin_system_init-found}
use simple_http.Plugin.Unload.{libraries, keep_all, unload_all_plugins-load_all}
use simple_http.Plugin.Search.{by_path, get_plugin_info}
use simple_http.Plugin.Search.Agree.{get_plugin_info_missing}

abbrev pub a_so : Bytes
a_so = codes "p/a.so"

-- A directory with a library, a text and a directory that holds another library; the library's
-- `plugin_init` fails.
abbrev pub visits : List Visit
visits =
    record { path = codes "p"; tflag = ftw_d; level = 0 }
    ∷ record { path = codes "p/d"; tflag = ftw_d; level = 1 }
    ∷ record { path = codes "p/d/b.so"; tflag = ftw_f; level = 2 }
    ∷ record { path = a_so; tflag = ftw_f; level = 1 }
    ∷ record { path = codes "p/readme"; tflag = ftw_f; level = 1 }
    ∷ []

abbrev pub loader : Loader
loader = record {
  visits = λ dir. some visits;
  dlopen = λ file. true;
  plugin_init = λ file. some (λ info. (error, info));
  plugin_shutdown = λ file. some (λ info. ok);
  handle_event = λ file event arg w. done ok w;
}

plugin_system_init-found_example :
    plugin_system_init loader (codes "p") (record { plugins = []; count = 0 }) (calm [] 5 [] [])
    ≡ done (report loader (a_so ∷ [])) (calm [] 5 [] [])
unfolding found is_so
plugin_system_init-found_example = plugin_system_init-found loader b'p' [] visits [] 5 [] [] refl

unload_all_plugins-load_all_example :
    unload_all_plugins loader (load_all loader (fresh_plugin a_so ∷ [])).1 (calm [] 5 [] []) ≡ (
      if keep_all loader (fresh_plugin a_so ∷ [])
      then done (ok, libraries loader (fresh_plugin a_so ∷ [])) (calm [] 5 [] [])
      else fault)
unload_all_plugins-load_all_example =
    unload_all_plugins-load_all loader (fresh_plugin a_so) [] (calm [] 5 [] [])

abbrev loaded : List Plugin
loaded = fresh_plugin a_so ∷ fresh_plugin (codes "p/c.so") ∷ []

other_file : a_so ≢ codes "p/c.so"
other_file e = absurd (differ e)
  where
    differ : a_so ≡ codes "p/c.so" → ⊥
    differ e = ground (arith, ap (λ s. str_eq s (codes "p/c.so")) e)

get_plugin_info_missing_example :
    get_plugin_info (fresh_plugin a_so ∷ []) (by_path (some (codes "p/c.so"))) (calm [] 5 [] [])
    ≡ fault
get_plugin_info_missing_example =
    get_plugin_info_missing (fresh_plugin a_so) [] b'p' (codes "/c.so") (calm [] 5 [] [])
      (other_file, tt) (omega arith)
