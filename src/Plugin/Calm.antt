-- ===== src/Plugin/Calm.antt =====
-- The plugin system where memory suffices, on any registry.
use simple_http.Base.{ℕ, zero, suc, ◌≡◌, refl, none, Option-cases, inl, inr, [], ◌∷◌, Bytes, List}
use simple_http.Effects.{done}
use simple_http.Effects.Outcomes.{calm}
use simple_http.Plugin
use simple_http.Plugin.{Loader, PluginStatus, error, Registry, plugin_system_init}
use simple_http.Plugin.Load.{found, nftw_calm, grown}

module _ (fds : List ℕ) (next : ℕ) (input sent : Bytes) where
  -- Where memory suffices, the plugin system reports a status and leaves the surroundings alone.
  pub plugin_system_init-calm :
      (loader : Loader) (directory : Bytes) (r : Registry)
      → (s : PluginStatus × Registry) × (plugin_system_init loader directory r
            (calm fds next input sent)
          ≡ done s (calm fds next input sent))
  unfolding plugin_system_init Plugin.scan Plugin.scanned Plugin.load_found
  plugin_system_init-calm loader [] r = (_, refl)
  plugin_system_init-calm loader (c ∷ cs) r = elim (Option-cases (loader.visits (c ∷ cs))) [
    | inl e ↦ ((error, r), rw (e, Plugin.scan))
    | inr (vs, e) ↦
        let (s, p) =
          load_found_calm (grown fds next input sent r (found none vs))
            (grown fds next input sent r (found none vs)).count in
        (s, rw (e, Plugin.scan, nftw_calm fds next input sent vs none r) p)
  ]
    where
      load_found_calm :
          (r : Registry) (n : ℕ)
          → (s : PluginStatus × Registry) × (Plugin.load_found loader r n (calm fds next input sent)
              ≡ done s (calm fds next input sent))
      load_found_calm r zero = (_, refl)
      load_found_calm r (suc n) = (_, refl)
