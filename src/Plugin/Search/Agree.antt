-- ===== src/Plugin/Search/Agree.antt =====
-- The searches against each other, and against the list.
use simple_http.Base.{
  str_eq, ◌≢◌, ◌≤◌, ◌==◌, ap, length-append, str_eq_ne, ℕ, zero, suc, ◌+◌, ◌≡◌, ◌<◌, refl, true,
  false, Option, none, some, List, [], ◌∷◌, ◌++◌, Bytes, if◌then◌else◌, length, ltb, Bool-cases,
  inl, inr, arith, All, str_eq_refl,
}
use simple_http.Base.Int.{ℤ, pos, to_int}
use simple_http.Effects.{World, done, fault, bind}
use simple_http.Plugin.{Plugin, PluginInfo}
use simple_http.Plugin.Search
use simple_http.Plugin.Search.{
  by_name, by_path, by_idx, is_plugin_loaded, get_plugin_info, find_name, loaded_idx,
}

-- 1 where a plugin was found.
abbrev pub found_int : Option PluginInfo → ℤ
found_int none = pos 0
found_int (some info) = pos 1

loaded_by_name_lem :
    (r : Option PluginInfo) (w : World) → Search.loaded_by_name r w ≡ done (found_int r) w
unfolding Search.loaded_by_name
loaded_by_name_lem none w = refl
loaded_by_name_lem (some info) w = refl

by_name_lem :
    (name : Option Bytes) (ps : List Plugin) (w : World)
    → Search.loaded_text (λ n. Search.loaded_by_name (find_name n ps)) name w
      ≡ bind
          (Search.get_text (λ n. Search.pure (find_name n ps)) name w)
          (λ r. Search.pure (found_int r))
unfolding Search.loaded_text Search.get_text
by_name_lem none ps w = refl
by_name_lem (some name) ps w = loaded_by_name_lem (find_name name ps) w

-- By a name, `is_plugin_loaded` says 1 exactly where `get_plugin_info` finds the plugin, and 0
-- elsewhere, also for an empty list, an empty name and NULL.
pub is_plugin_loaded-get_plugin_info :
    (ps : List Plugin) (name : Option Bytes) (w : World)
    → is_plugin_loaded ps (by_name name) w
      ≡ bind (get_plugin_info ps (by_name name) w) (λ r. Search.pure (found_int r))
unfolding is_plugin_loaded get_plugin_info Search.loaded_in Search.get_in
is_plugin_loaded-get_plugin_info [] name w = refl
is_plugin_loaded-get_plugin_info (p ∷ ps) name w = by_name_lem (Search.given name) (p ∷ ps) w

loaded_idx_lem :
    (current idx : ℕ) (ps : List Plugin)
    → current ≤ idx
    → loaded_idx current idx ps
      ≡ (if ltb idx (current + length ps) then pos 1 else to_int (current + length ps))
unfolding loaded_idx
loaded_idx_lem current idx [] le =
    let past : ltb idx (current + 0) ≡ false = ground arith in
    let same : current + 0 ≡ current = omega arith in rw (past, same)
loaded_idx_lem current idx (p ∷ ps) le = elim (Bool-cases (current == idx)) [
  | inl here ↦
      let inside : ltb idx (current + suc (length ps)) ≡ true = ground arith in rw (here, inside)
  | inr on ↦
      let moved : suc current + length ps ≡ current + suc (length ps) = omega arith in
      rw (on, ← moved) (loaded_idx_lem (suc current) idx ps (ground arith))
]

-- By an index, `is_plugin_loaded` says 1 below the length of the list, and the length from there
-- on, as an `int`: in a list of one plugin every index counts as loaded.
pub is_plugin_loaded_idx :
    (ps : List Plugin) (idx : ℕ) (w : World)
    → is_plugin_loaded ps (by_idx idx) w
      ≡ done (if ltb idx (length ps) then pos 1 else to_int (length ps)) w
unfolding is_plugin_loaded Search.loaded_in Search.loaded_by_idx
is_plugin_loaded_idx [] idx w =
    let past : ltb idx 0 ≡ false = ground arith in
    let none_left : pos 0 ≡ to_int 0 = unfold to_int in refl in
    rw past (ap (λ (n : ℤ). done n w) none_left)
is_plugin_loaded_idx (p ∷ ps) idx w =
    ap (λ (n : ℤ). done n w) (counted (loaded_idx_lem 0 idx (p ∷ ps) (omega arith)))
  where
    counted :
        loaded_idx 0 idx (p ∷ ps)
          ≡ (if ltb idx (0 + suc (length ps)) then pos 1 else to_int (0 + suc (length ps)))
        → loaded_idx 0 idx (p ∷ ps)
          ≡ (if ltb idx (suc (length ps)) then pos 1 else to_int (suc (length ps)))
    counted e =
        let from_zero : 0 + suc (length ps) ≡ suc (length ps) = omega arith in rw from_zero at e

find_path_front :
    (path : Bytes) (front back : List Plugin) (p : Plugin)
    → p.info.file ≡ path
    → All (λ (q : Plugin). q.info.file ≢ path) front
    → Search.find_path path (front ++ p ∷ back) ≡ some p.info
unfolding Search.find_path
find_path_front path [] back p same h = rw (ap (λ s. str_eq s path) same, str_eq_refl path)
find_path_front path (q ∷ front) back p same (ne, h) =
    rw (str_eq_ne q.info.file path ne) (find_path_front path front back p same h)

find_path_missing :
    (path : Bytes) (ps : List Plugin)
    → All (λ (q : Plugin). q.info.file ≢ path) ps
    → Search.find_path path ps ≡ none
unfolding Search.find_path
find_path_missing path [] h = refl
find_path_missing path (q ∷ ps) (ne, h) =
    rw (str_eq_ne q.info.file path ne) (find_path_missing path ps h)

read_word_short : (n : ℕ) (s : Bytes) → length s < n → Search.read_word n s ≡ none
unfolding Search.read_word
read_word_short zero s h = absurd (omega arith)
read_word_short (suc n) [] h = refl
read_word_short (suc n) (c ∷ s) h = rw (read_word_short n s (omega arith))

-- A search by a path that is not empty finds the first plugin with that file.
pub get_plugin_info-find_path :
    (front back : List Plugin) (p : Plugin) (c : ℕ) (cs : Bytes) (w : World)
    → p.info.file ≡ c ∷ cs
    → All (λ (q : Plugin). q.info.file ≢ c ∷ cs) front
    → get_plugin_info (front ++ p ∷ back) (by_path (some (c ∷ cs))) w ≡ done (some p.info) w
get_plugin_info-find_path front back p c cs w same h =
    hit front (find_path_front (c ∷ cs) front back p same h)
  where
    hit :
        (front : List Plugin)
        → Search.find_path (c ∷ cs) (front ++ p ∷ back) ≡ some p.info
        → get_plugin_info (front ++ p ∷ back) (by_path (some (c ∷ cs))) w ≡ done (some p.info) w
    hit [] e =
        unfold get_plugin_info Search.get_in Search.get_text in
        rw e (unfold Search.get_by_path in refl)
    hit (q ∷ qs) e =
        unfold get_plugin_info Search.get_in Search.get_text in
        rw e (unfold Search.get_by_path in refl)

-- A search by a path of 1 to 6 bytes that no plugin of a list that is not empty has reads behind
-- the path: the case falls through to the next one, which takes the data for an index.
pub get_plugin_info_missing :
    (p : Plugin) (ps : List Plugin) (c : ℕ) (cs : Bytes) (w : World)
    → All (λ (q : Plugin). q.info.file ≢ c ∷ cs) (p ∷ ps)
    → length cs < 6
    → get_plugin_info (p ∷ ps) (by_path (some (c ∷ cs))) w ≡ fault
unfolding get_plugin_info Search.get_in Search.get_text Search.index_of Search.get_by_path
    Search.get_by_idx
get_plugin_info_missing p ps c cs w h short = rw (
  find_path_missing (c ∷ cs) (p ∷ ps) h,
  read_word_short 8 (c ∷ cs ++ 0 ∷ []) (simp length-append (omega arith)),
)
