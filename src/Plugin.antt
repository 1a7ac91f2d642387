-- ===== src/Plugin.antt =====
-- src/plugin/plugin.c, src/plugin/plugin.h and
-- src/plugin/simple_http_plugin.h: the list of plugins. The dynamic loader and the directory walk
-- are the record `Loader`. `filter` gives every plugin a file and `insert_node` stores no NULL, so
-- that the tests for such plugins never succeed and are left out.
pub mod Load
pub mod Calm
pub mod Unload
pub mod Search
pub mod Events
use simple_http.Base.{
  ℕ, zero, suc, ◌+◌, ◌*◌, Bool, true, false, not, ◌&&◌, ◌||◌, Option, none, some, List, [], ◌∷◌,
  ◌++◌, Bytes, codes, str_eq, if◌then◌else◌, length, ltb, ◌==◌,
}
use simple_http.Base.Int.{ℤ, pos, to_int}
use simple_http.Effects.{M, pure, ◌>>=◌, undefined, alloc, insert_node}

pub data PluginStatus : Type 0 where
  invalid not_found error ok : PluginStatus

-- `plugin_event_t`
pub data PluginEvent : Type 0 where
  pre_on_incoming_client post_on_incoming_client test_types : PluginEvent

-- Which handlers of `plugin_events_t` are set.
pub record PluginEvents : Type 0 where
  pub pre_on : Bool
  pub post_on : Bool
  pub test_on : Bool

-- `plugin_info_t`, without the texts that nothing reads.
pub record PluginInfo : Type 0 where
  pub name : Option Bytes
  pub file : Bytes
  pub enabled : Bool
  pub events : PluginEvents

-- The handle is NULL, or of a library, named by its file, that is open or was closed.
pub data Handle : Type 0 where
  no_handle closed : Handle
  opened : Bytes → Handle

pub record Plugin : Type 0 where
  pub info : PluginInfo
  pub handle : Handle

-- `tflag`: a file, a directory, or anything else.
pub data TFlag : Type 0 where
  ftw_f ftw_d ftw_other : TFlag

pub record Visit : Type 0 where
  pub path : Bytes
  pub tflag : TFlag
  pub level : ℕ

pub data FtwAction : Type 0 where
  ftw_continue ftw_skip_subtree ftw_stop : FtwAction

-- `nftw` reports a directory's entries in preorder, or fails; a library can be opened or not, and
-- has the two functions or not, and handlers.
pub record Loader : Type 0 where
  pub visits : Bytes → Option (List Visit)
  pub dlopen : Bytes → Bool
  pub plugin_init : Bytes → Option (PluginInfo → PluginStatus × PluginInfo)
  pub plugin_shutdown : Bytes → Option (PluginInfo → PluginStatus)
  -- the handler of an event, with the event's first argument
  pub handle_event : Bytes → PluginEvent → ℤ → M PluginStatus

-- `plugins_` and `count_`
pub record Registry : Type 0 where
  pub plugins : List Plugin
  pub count : ℕ

-- `calloc`, with the file's name.
abbrev pub fresh_plugin : Bytes → Plugin
fresh_plugin path = record {
  info = record {
    name = none;
    file = path;
    enabled = false;
    events = record { pre_on = false; post_on = false; test_on = false };
  };
  handle = no_handle;
}

-- `fnmatch("*.so", path, FNM_NOESCAPE) == 0`
unfoldable pub is_so : Bytes → Bool
is_so [] = false
is_so (c ∷ s) = str_eq (c ∷ s) (codes ".so") || is_so s

-- The count grows also where the list did not take the plugin.
pub register : Bytes → Registry → Bool → M (FtwAction × Registry)
register path r false = pure (ftw_stop, r)
register path r true = do
  plugins ← insert_node r.plugins (fresh_plugin path)
  pure (ftw_continue, record { plugins = plugins; count = suc r.count })

pub name_plugin : Bytes → Registry → Bool → M (FtwAction × Registry)
name_plugin path r false = pure (ftw_stop, r)
name_plugin path r true = do copied ← alloc; register path r copied

pub filter_file : Bytes → Registry → Bool → M (FtwAction × Registry)
filter_file path r false = pure (ftw_continue, r)
filter_file path r true = do made ← alloc; name_plugin path r made

pub filter_at : Bytes → TFlag → ℕ → Registry → M (FtwAction × Registry)
filter_at path ftw_f level r = filter_file path r (is_so path)
filter_at path ftw_d zero r = pure (ftw_continue, r)
filter_at path ftw_d (suc level) r = pure (ftw_skip_subtree, r)
filter_at path ftw_other level r = pure (ftw_continue, r)

pub filter : Visit → Registry → M (FtwAction × Registry)
filter v r = filter_at v.path v.tflag v.level r

-- Whether the visits below a directory that was skipped go on at this level.
abbrev pub skips : Option ℕ → ℕ → Bool
skips none level = false
skips (some above) level = ltb above level

-- `nftw` with `filter`: whether it went through. `skip` is the level of the skipped directory.
pub walk_on :
    (Option ℕ → Registry → M (Bool × Registry)) → ℕ → FtwAction × Registry → M (Bool × Registry)
walk_on again level (ftw_continue, r) = again none r
walk_on again level (ftw_skip_subtree, r) = again (some level) r
walk_on again level (ftw_stop, r) = pure (false, r)

pub visit :
    (Option ℕ → Registry → M (Bool × Registry))
    → Option ℕ
    → Visit
    → Registry
    → Bool
    → M (Bool × Registry)
visit again skip v r true = again skip r
visit again skip v r false = filter v r >>= walk_on again v.level

pub nftw : List Visit → Option ℕ → Registry → M (Bool × Registry)
nftw [] skip r = pure (true, r)
nftw (v ∷ vs) skip r = visit (nftw vs) skip v r (skips skip v.level)

-- One round of the loading loop: whether it failed, and the plugin. A library whose `plugin_init`
-- is missing or fails is closed, but its handle stays.
pub started : Plugin → PluginStatus × PluginInfo → Bool × Plugin
started p (ok, info) = (false, record { info = info; handle = opened p.info.file })
started p (_, info) = (true, record { info = info; handle = closed })

pub initialise : Plugin → Option (PluginInfo → PluginStatus × PluginInfo) → Bool × Plugin
initialise p none = (true, record p { handle = closed })
initialise p (some init_fn) = started p (init_fn p.info)

pub load_one : Loader → Plugin → Bool × Plugin
load_one loader p =
    if loader.dlopen p.info.file
    then initialise p (loader.plugin_init p.info.file)
    else (true, record p { handle = no_handle })

pub load_all : Loader → List Plugin → Bool × List Plugin
load_all loader [] = (false, [])
load_all loader (p ∷ ps) =
    let (failed, p') = load_one loader p in
    let (others, ps') = load_all loader ps in (failed || others, p' ∷ ps')

pub load_found : Loader → Registry → ℕ → M (PluginStatus × Registry)
load_found loader r zero = pure (not_found, r)
load_found loader r (suc n) =
    let (failed, ps) = load_all loader r.plugins in
    pure (if failed then error else ok, record r { plugins = ps })

pub scanned : Loader → Bool × Registry → M (PluginStatus × Registry)
scanned loader (false, r) = pure (error, r)
scanned loader (true, r) = load_found loader r r.count

pub scan : Loader → Registry → Option (List Visit) → M (PluginStatus × Registry)
scan loader r none = pure (error, r)
scan loader r (some vs) = nftw vs none r >>= scanned loader

-- `plugin_system_init(directory, &plugins, &count)`: the registry is what the two pointers give.
pub plugin_system_init : Loader → Bytes → Registry → M (PluginStatus × Registry)
plugin_system_init loader [] r = pure (invalid, r)
plugin_system_init loader (c ∷ cs) r = scan loader r (loader.visits (c ∷ cs))

-- `free_plugin(p)`, with the library whose shutdown ran: a closed handle and a missing function are
-- undefined behaviour.
pub shut_down : Bytes → Option (PluginInfo → PluginStatus) → M (List Bytes)
shut_down file none = undefined
shut_down file (some shutdown_fn) = pure (file ∷ [])

pub free_handle : Loader → Handle → M (List Bytes)
free_handle loader no_handle = pure []
free_handle loader closed = undefined
free_handle loader (opened file) = shut_down file (loader.plugin_shutdown file)

pub free_plugin : Loader → Plugin → M (List Bytes)
free_plugin loader p = free_handle loader p.handle

pub free_plugins : Loader → List Plugin → M (List Bytes)
free_plugins loader [] = pure []
free_plugins loader (p ∷ ps) = do
  first ← free_plugin loader p
  others ← free_plugins loader ps
  pure (first ++ others)

-- `unload_all_plugins(plugins)`, with the libraries whose shutdown ran.
pub unload_all_plugins : Loader → List Plugin → M (PluginStatus × List Bytes)
unload_all_plugins loader [] = pure (invalid, [])
unload_all_plugins loader (p ∷ ps) = do files ← free_plugins loader (p ∷ ps); pure (ok, files)
