-- ===== src/Plugin/Unload.antt =====
-- What `unload_all_plugins` may do with the plugins that were loaded.
use simple_http.Base.{
  ◌≡◌, refl, Bool, true, false, not, ◌&&◌, ◌||◌, Option, none, some, List, [], ◌∷◌, ◌++◌, Bytes,
  if◌then◌else◌, Bool-cases, inl, inr,
}
use simple_http.Effects.{pure, ◌>>=◌, World, Run, done, fault, M, bind}
use simple_http.Plugin
use simple_http.Plugin.{
  Plugin, PluginInfo, PluginStatus, ok, error, not_found, invalid, Handle, no_handle, opened,
  closed, Loader, Visit, TFlag, ftw_f, ftw_d, ftw_other, Registry, fresh_plugin, is_so, skips,
  plugin_system_init, unload_all_plugins, load_all, load_one, nftw,
}
use simple_http.Plugin.Load.{found_file}

-- Whether a plugin that was loaded can be unloaded: its library did not open, or its `plugin_init`
-- succeeded and it has a `plugin_shutdown`.
abbrev is_ok : PluginStatus → Bool
is_ok ok = true
is_ok _ = false

abbrev has : {A : Type 0} → Option A → Bool
has none = false
has (some a) = true

abbrev inits : PluginInfo → Option (PluginInfo → PluginStatus × PluginInfo) → Bool
inits info none = false
inits info (some init_fn) = is_ok (init_fn info).0

unfoldable pub keeps : Loader → Plugin → Bool
keeps loader p =
    not (loader.dlopen p.info.file)
    || (inits p.info (loader.plugin_init p.info.file) && has (loader.plugin_shutdown p.info.file))

abbrev pub keep_all : Loader → List Plugin → Bool
keep_all loader [] = true
keep_all loader (p ∷ ps) = keeps loader p && keep_all loader ps

-- The libraries that opened.
abbrev pub libraries : Loader → List Plugin → List Bytes
libraries loader [] = []
libraries loader (p ∷ ps) =
    found_file (loader.dlopen p.info.file) p.info.file ++ libraries loader ps

abbrev outcome : {A : Type 0} → Bool → A → World → Run A
outcome b a w = if b then done a w else fault

module _ (loader : Loader) (w : World) where
  shut_down_lem :
      (file : Bytes) (f : Option (PluginInfo → PluginStatus))
      → Plugin.shut_down file f w ≡ outcome (has f) (file ∷ []) w
  unfolding Plugin.shut_down
  shut_down_lem file none = refl
  shut_down_lem file (some f) = refl

  started_lem :
      (p : Plugin) (s : PluginStatus) (info : PluginInfo)
      → Plugin.free_plugin loader (Plugin.started p (s, info)).1 w
        ≡ outcome (is_ok s && has (loader.plugin_shutdown p.info.file)) (p.info.file ∷ []) w
  unfolding Plugin.started Plugin.free_plugin Plugin.free_handle
  started_lem p ok info = shut_down_lem p.info.file (loader.plugin_shutdown p.info.file)
  started_lem p error info = refl
  started_lem p not_found info = refl
  started_lem p invalid info = refl

  initialise_lem :
      (p : Plugin) (f : Option (PluginInfo → PluginStatus × PluginInfo))
      → Plugin.free_plugin loader (Plugin.initialise p f).1 w
        ≡ outcome (inits p.info f && has (loader.plugin_shutdown p.info.file)) (p.info.file ∷ []) w
  unfolding Plugin.initialise
  initialise_lem p none = unfold Plugin.free_plugin Plugin.free_handle in refl
  initialise_lem p (some f) = started_lem p (f p.info).0 (f p.info).1

  free_one_lem :
      (p : Plugin)
      → Plugin.free_plugin loader (load_one loader p).1 w
        ≡ outcome (keeps loader p) (found_file (loader.dlopen p.info.file) p.info.file) w
  unfolding load_one keeps
  free_one_lem p = elim (Bool-cases (loader.dlopen p.info.file)) [
    | inl o ↦ rw o (initialise_lem p (loader.plugin_init p.info.file))
    | inr o ↦ rw o (unfold Plugin.free_plugin Plugin.free_handle in refl)
  ]

  -- One plugin in front of the others.
  then_others :
      (b c : Bool) (first others : List Bytes) (rest : M (List Bytes))
      → rest w ≡ outcome c others w
      → bind (outcome b first w) (λ fs. rest >>= (λ os. Plugin.pure (fs ++ os)))
        ≡ outcome (b && c) (first ++ others) w
  then_others false c first others rest e = refl
  then_others true false first others rest e = rw e
  then_others true true first others rest e = rw e

  free_all_lem :
      (ps : List Plugin)
      → Plugin.free_plugins loader (load_all loader ps).1 w
        ≡ outcome (keep_all loader ps) (libraries loader ps) w
  unfolding Plugin.free_plugins load_all
  free_all_lem [] = refl
  free_all_lem (p ∷ ps) = rw (free_one_lem p) (
      then_others (keeps loader p) (keep_all loader ps) _ (libraries loader ps)
        (Plugin.free_plugins loader (load_all loader ps).1) (free_all_lem ps))

-- `unload_all_plugins` on what the loading loop made of a list that is not empty runs the shutdown
-- of every library that opened, in order, where each of them has one and its `plugin_init`
-- succeeded; otherwise it uses a handle that is closed, or calls NULL.
pub unload_all_plugins-load_all :
    (loader : Loader) (p : Plugin) (ps : List Plugin) (w : World)
    → unload_all_plugins loader (load_all loader (p ∷ ps)).1 w
      ≡ (if keep_all loader (p ∷ ps) then done (ok, libraries loader (p ∷ ps)) w else fault)
unfolding unload_all_plugins load_all
unload_all_plugins-load_all loader p ps w =
    rw (free_all_lem loader w (p ∷ ps)) (last (keep_all loader (p ∷ ps)))
  where
    unloaded : List Bytes → PluginStatus × List Bytes
    unloaded files = (ok, files)

    last :
        (c : Bool)
        → bind (outcome c (libraries loader (p ∷ ps)) w) (λ files. pure (unloaded files))
          ≡ (if c then done (ok, libraries loader (p ∷ ps)) w else fault)
    last true = refl
    last false = refl
