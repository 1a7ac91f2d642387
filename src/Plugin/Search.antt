-- ===== src/Plugin/Search.antt =====
-- The searches of src/plugin/plugin.c.
pub mod Agree
use simple_http.Base.{
  ℕ, zero, suc, ◌+◌, ◌*◌, Bool, true, false, ◌&&◌, Option, none, some, List, [], ◌∷◌, ◌++◌, Bytes,
  str_eq, if◌then◌else◌, length, ltb, ◌==◌,
}
use simple_http.Base.Int.{ℤ, pos, to_int}
use simple_http.Plugin.{
  Plugin, PluginInfo, PluginStatus, invalid, not_found, error, ok, PluginEvent,
}
use simple_http.Effects.{M, pure, ◌>>=◌, undefined}

-- `plugin_search_info_t`; the data of a name or of a path may be NULL.
pub data SearchInfo : Type 0 where
  by_name : Option Bytes → SearchInfo
  by_path : Option Bytes → SearchInfo
  by_idx : ℕ → SearchInfo

abbrev pub named : Bytes → Option Bytes → Bool
named name none = false
named name (some own) = str_eq own name

-- The three loops over the list.
pub find_name : Bytes → List Plugin → Option PluginInfo
find_name name [] = none
find_name name (p ∷ ps) = if named name p.info.name then some p.info else find_name name ps

pub find_path : Bytes → List Plugin → Option PluginInfo
find_path path [] = none
find_path path (p ∷ ps) = if str_eq p.info.file path then some p.info else find_path path ps

pub find_idx : ℕ → ℕ → List Plugin → Option PluginInfo
find_idx current idx [] = none
find_idx current idx (p ∷ ps) =
    if current == idx then some p.info else find_idx (suc current) idx ps

-- A text that is no NULL and not empty.
abbrev pub given : Option Bytes → Option Bytes
given none = none
given (some []) = none
given (some (c ∷ s)) = some (c ∷ s)

-- `*(const size_t *)data` of a string: its first eight bytes, the terminator included; a shorter
-- string is read past its end.
pub read_word : ℕ → Bytes → Option ℕ
read_word zero s = some 0
read_word (suc n) [] = none
read_word (suc n) (c ∷ s) = elim (read_word n s) [ none ↦ none | some w ↦ some (c + 256 * w) ]

pub index_of : Bytes → Option ℕ
index_of path = read_word 8 (path ++ 0 ∷ [])

pub get_by_idx : List Plugin → Option ℕ → M (Option PluginInfo)
get_by_idx ps none = undefined
get_by_idx ps (some idx) = pure (find_idx 0 idx ps)

-- A path that is not found goes on, with no `break`, as an index.
pub get_by_path : List Plugin → Bytes → Option PluginInfo → M (Option PluginInfo)
get_by_path ps path (some info) = pure (some info)
get_by_path ps path none = get_by_idx ps (index_of path)

pub get_text : (Bytes → M (Option PluginInfo)) → Option Bytes → M (Option PluginInfo)
get_text search none = pure none
get_text search (some text) = search text

pub get_in : List Plugin → SearchInfo → M (Option PluginInfo)
get_in ps (by_name name) = get_text (λ n. pure (find_name n ps)) (given name)
get_in ps (by_path path) = get_text (λ p. get_by_path ps p (find_path p ps)) (given path)
get_in ps (by_idx idx) = get_by_idx ps (some idx)

-- `get_plugin_info(plugins, search)`, the list NULL where it is empty.
pub get_plugin_info : List Plugin → SearchInfo → M (Option PluginInfo)
get_plugin_info [] search = pure none
get_plugin_info (p ∷ ps) search = get_in (p ∷ ps) search

-- The index loop of `is_plugin_loaded`: past the end the result is the count, as an `int`.
pub loaded_idx : ℕ → ℕ → List Plugin → ℤ
loaded_idx current idx [] = to_int current
loaded_idx current idx (p ∷ ps) = if current == idx then pos 1 else loaded_idx (suc current) idx ps

pub loaded_by_idx : List Plugin → Option ℕ → M ℤ
loaded_by_idx ps none = undefined
loaded_by_idx ps (some idx) = pure (loaded_idx 0 idx ps)

pub loaded_by_name : Option PluginInfo → M ℤ
loaded_by_name none = pure (pos 0)
loaded_by_name (some info) = pure (pos 1)

pub loaded_by_path : List Plugin → Bytes → Option PluginInfo → M ℤ
loaded_by_path ps path (some info) = pure (pos 1)
loaded_by_path ps path none = loaded_by_idx ps (index_of path)

pub loaded_text : (Bytes → M ℤ) → Option Bytes → M ℤ
loaded_text search none = pure (pos 0)
loaded_text search (some text) = search text

pub loaded_in : List Plugin → SearchInfo → M ℤ
loaded_in ps (by_name name) = loaded_text (λ n. loaded_by_name (find_name n ps)) (given name)
loaded_in ps (by_path path) = loaded_text (λ p. loaded_by_path ps p (find_path p ps)) (given path)
loaded_in ps (by_idx idx) = loaded_by_idx ps (some idx)

pub is_plugin_loaded : List Plugin → SearchInfo → M ℤ
is_plugin_loaded [] search = pure (pos 0)
is_plugin_loaded (p ∷ ps) search = loaded_in (p ∷ ps) search

-- `unload_plugin(plugins, search)`: each case of the switch returns, found or not, so that what
-- stands behind it is never reached.
pub unload_text : Option Bytes → PluginStatus
unload_text none = invalid
unload_text (some text) = not_found

pub unload_in : SearchInfo → PluginStatus
unload_in (by_name name) = unload_text (given name)
unload_in (by_path path) = unload_text (given path)
unload_in (by_idx idx) = not_found

pub unload_plugin : List Plugin → SearchInfo → PluginStatus
unload_plugin [] search = invalid
unload_plugin (p ∷ ps) search = unload_in search
