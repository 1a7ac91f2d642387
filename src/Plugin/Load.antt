-- ===== src/Plugin/Load.antt =====
-- What `plugin_system_init` finds in a directory.
use simple_http.Base.{
  ap, ℕ, zero, suc, ◌+◌, ◌≡◌, refl, ◌∙◌, Bool, true, false, Option, none, some, List, [], ◌∷◌, ◌++◌,
  Bytes, if◌then◌else◌, length, map, Bool-cases, inl, inr, append_assoc, append-nil, arith,
}
use simple_http.Effects.{done, M, bind, alloc}
use simple_http.Effects.Outcomes.{calm, insert_node-calm}
use simple_http.Plugin
use simple_http.Plugin.{
  Plugin, PluginInfo, PluginStatus, ok, error, not_found, invalid, Handle, no_handle, opened,
  closed, Loader, Visit, TFlag, ftw_f, ftw_d, ftw_other, Registry, fresh_plugin, is_so, skips,
  plugin_system_init, unload_all_plugins, load_all, load_one, nftw,
}

-- The libraries that a walk finds below the level that it skips.
abbrev pub found_file : Bool → Bytes → List Bytes
found_file so path = if so then path ∷ [] else []

abbrev pub found_at : Bytes → TFlag → ℕ → (Option ℕ → List Bytes) → List Bytes
found_at path ftw_f level files = found_file (is_so path) path ++ files none
found_at path ftw_d zero files = files none
found_at path ftw_d (suc level) files = files (some (suc level))
found_at path ftw_other level files = files none

unfoldable pub found : Option ℕ → List Visit → List Bytes
found skip [] = []
found skip (v ∷ vs) =
    if skips skip v.level then found skip vs else found_at v.path v.tflag v.level (λ s. found s vs)

-- The status of the loading loop.
abbrev pub status_of : Bool → PluginStatus
status_of failed = if failed then error else ok

-- The registry that loads a list of files, with the status.
abbrev pub report : Loader → List Bytes → PluginStatus × Registry
report loader [] = (not_found, record { plugins = []; count = 0 })
report loader (f ∷ fs) =
    let (failed, ps) = load_all loader (map fresh_plugin (f ∷ fs)) in
    (status_of failed, record { plugins = ps; count = length (f ∷ fs) })

module _ (fds : List ℕ) (next : ℕ) (input sent : Bytes) where
  abbrev pub grown : Registry → List Bytes → Registry
  grown r files = record {
    plugins = r.plugins ++ map fresh_plugin files;
    count = r.count + length files;
  }

  grown_nil : (r : Registry) → r ≡ grown r []
  grown_nil r =
      let same : r.count ≡ r.count + 0 = omega arith in
      let kept : r.plugins ≡ r.plugins ++ [] = rw append-nil in
      λ i. record { plugins = kept i; count = same i }

  grown_cons :
      (r : Registry) (path : Bytes) (files : List Bytes)
      → grown (record { plugins = r.plugins ++ fresh_plugin path ∷ []; count = suc r.count }) files
        ≡ grown r (path ∷ files)
  grown_cons r path files =
      let counted : suc r.count + length files ≡ r.count + suc (length files) = omega arith in
      λ i. record {
        plugins = append_assoc r.plugins (fresh_plugin path ∷ []) (map fresh_plugin files) i;
        count = counted i;
      }

  -- What the walk behind a visit does, from any registry.
  abbrev pub Follows :
      (Option ℕ → Registry → M (Bool × Registry)) → (Option ℕ → List Bytes) → Type 0
  Follows again files =
      (skip : Option ℕ) (r : Registry)
      → again skip r (calm fds next input sent)
        ≡ done (true, grown r (files skip)) (calm fds next input sent)

  module _ (again : Option ℕ → Registry → M (Bool × Registry)) (files : Option ℕ → List Bytes)
      (ih : Follows again files) where
    file_calm :
        (so : Bool) (path : Bytes) (level : ℕ) (r : Registry)
        → bind
            (Plugin.filter_file path r so (calm fds next input sent))
            (Plugin.walk_on again level)
          ≡ done (true, grown r (found_file so path ++ files none)) (calm fds next input sent)
    unfolding Plugin.filter_file Plugin.name_plugin Plugin.register Plugin.walk_on alloc
    file_calm false path level r = ih none r
    file_calm true path level r =
        rw (insert_node-calm r.plugins (fresh_plugin path) fds next input sent) (
          ih none (record { plugins = r.plugins ++ fresh_plugin path ∷ []; count = suc r.count })
          ∙ ap (λ (s : Registry). done (true, s) (calm fds next input sent))
              (grown_cons r path (files none)))

    filter_calm :
        (path : Bytes) (tflag : TFlag) (level : ℕ) (r : Registry)
        → bind
            (Plugin.filter_at path tflag level r (calm fds next input sent))
            (Plugin.walk_on again level)
          ≡ done (true, grown r (found_at path tflag level files)) (calm fds next input sent)
    unfolding Plugin.filter_at Plugin.walk_on
    filter_calm path ftw_f level r = file_calm (is_so path) path level r
    filter_calm path ftw_d zero r = ih none r
    filter_calm path ftw_d (suc level) r = ih (some (suc level)) r
    filter_calm path ftw_other level r = ih none r

  pub nftw_calm : (vs : List Visit) → Follows (nftw vs) (λ skip. found skip vs)
  unfolding nftw found Plugin.visit Plugin.filter
  nftw_calm [] skip r =
      ap (λ (s : Registry). done (true, s) (calm fds next input sent)) (grown_nil r)
  nftw_calm (v ∷ vs) skip r = elim (Bool-cases (skips skip v.level)) [
    | inl skipped ↦ rw skipped (nftw_calm vs skip r)
    | inr seen ↦
        rw seen (filter_calm (nftw vs) (λ s. found s vs) (nftw_calm vs) v.path v.tflag v.level r)
  ]

-- Where memory suffices, `plugin_system_init` on a directory that can be walked, from an empty
-- registry, takes the files that the walk finds with names that end in `.so`, below no directory
-- but the first, in the order of the walk; without any it reports `HTTP_PLUGIN_NOT_FOUND`, and
-- otherwise it loads each, and reports an error where one fails.
pub plugin_system_init-found :
    (loader : Loader) (c : ℕ) (cs : Bytes) (vs : List Visit) (fds : List ℕ) (next : ℕ)
    (input sent : Bytes)
    → loader.visits (c ∷ cs) ≡ some vs
    → plugin_system_init loader
        (c ∷ cs)
        (record { plugins = []; count = 0 })
        (calm fds next input sent)
      ≡ done (report loader (found none vs)) (calm fds next input sent)
unfolding plugin_system_init Plugin.scan Plugin.scanned
plugin_system_init-found loader c cs vs fds next input sent h =
    rw
      (
        h,
        Plugin.scan,
        nftw_calm fds next input sent vs none (record { plugins = []; count = 0 }),
        from_zero,
      )
      (load_report (found none vs))
  where
    from_zero : 0 + length (found none vs) ≡ length (found none vs)
    from_zero = omega arith

    load_report :
        (files : List Bytes)
        → Plugin.load_found loader
            (record { plugins = map fresh_plugin files; count = length files })
            (length files)
            (calm fds next input sent)
          ≡ done (report loader files) (calm fds next input sent)
    load_report [] = unfold Plugin.load_found in refl
    load_report (f ∷ fs) = unfold Plugin.load_found in refl
