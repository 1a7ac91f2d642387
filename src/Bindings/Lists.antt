-- ===== src/Bindings/Lists.antt =====
-- The list that `lua_scan_` returns.
use simple_http.Base.{
  ◌≡◌, refl, sym, ap, ◌∙◌, Bool, true, false, List, [], ◌∷◌, ◌++◌, map, append_assoc, append-nil,
  if◌then◌else◌,
}
use simple_http.Plugin.{TFlag, ftw_f, ftw_d, ftw_other}
use simple_http.Bindings
use simple_http.Bindings.{Found, FileInfo, info, walk}

abbrev pub is_file : TFlag → Bool
is_file ftw_f = true
is_file _ = false

-- The files among what was reported.
abbrev pub files : List Found → List Found
files [] = []
files (f ∷ fs) = if is_file f.tflag then f ∷ files fs else files fs

filter-is_file :
    (f : Found) (t : TFlag) (table : List FileInfo)
    → Bindings.filter_by f t table ≡ table ++ (if is_file t then info f ∷ [] else [])
unfolding Bindings.filter_by
filter-is_file f ftw_f table = refl
filter-is_file f ftw_d table = sym (append-nil table)
filter-is_file f ftw_other table = sym (append-nil table)

either :
    (b : Bool) (f : Found) (fs : List Found)
    → (if b then info f ∷ [] else []) ++ map info fs ≡ map info (if b then f ∷ fs else fs)
either true f fs = refl
either false f fs = refl

-- Every file that is reported is listed, in order, and nothing else.
pub walk-files :
    (fs : List Found) (table : List FileInfo) → walk fs table ≡ table ++ map info (files fs)
unfolding walk Bindings.filter
walk-files [] table = sym (append-nil table)
walk-files (f ∷ fs) table =
    walk-files fs (Bindings.filter_by f f.tflag table)
    ∙ ap (λ t. t ++ map info (files fs)) (filter-is_file f f.tflag table)
    ∙ append_assoc table (if is_file f.tflag then info f ∷ [] else []) (map info (files fs))
    ∙ ap (λ t. table ++ t) (either (is_file f.tflag) f (files fs))
