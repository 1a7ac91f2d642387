-- ===== src/Plugin/Events.antt =====
-- `trigger_event` of src/plugin/plugin_event.c. The build rewrites the line `const char *args` of that
-- file (tools/pre_proc.sh) into the call of the handler with the event's arguments; the handlers are
-- code of the plugins' libraries.
use simple_http.Effects.Safe.{Safe, Safe-bind, Safe-mono}
use simple_http.Base.{◌∙◌, ◌≡◌, refl, Bool, true, false, List, [], ◌∷◌, Bytes}
use simple_http.Base.Int.{ℤ}
use simple_http.Effects.{World, M, done, pure, ◌>>=◌}
use simple_http.Plugin.{
  Plugin, PluginEvents, PluginStatus, error, ok, PluginEvent, pre_on_incoming_client,
  post_on_incoming_client, test_types, Loader,
}

-- `plugin->info.events.name != NULL`
pub handles : PluginEvents → PluginEvent → Bool
handles events pre_on_incoming_client = events.pre_on
handles events post_on_incoming_client = events.post_on
handles events test_types = events.test_on

-- What the handler returns is dropped.
pub call_handler : Loader → Plugin → PluginEvent → ℤ → Bool → M (Unit {0})
call_handler loader p event arg false = pure tt
call_handler loader p event arg true = do _ ← loader.handle_event p.info.file event arg; pure tt

-- A plugin that is not enabled is passed over.
pub notify : Loader → Plugin → PluginEvent → ℤ → Bool → M (Unit {0})
unfolding call_handler handles
notify loader p event arg false = pure tt
notify loader p event arg true = call_handler loader p event arg (handles p.info.events event)

pub trigger_all : Loader → List Plugin → PluginEvent → ℤ → M PluginStatus
unfolding notify
trigger_all loader [] event arg = pure ok
trigger_all loader (p ∷ ps) event arg = do
  _ ← notify loader p event arg p.info.enabled
  trigger_all loader ps event arg

-- `trigger_event(plugins, event, …)` with the first of the event's arguments; the others are
-- constants where the code triggers it. The list is NULL where it is empty.
unfoldable pub trigger_event : Loader → List Plugin → PluginEvent → ℤ → M PluginStatus
unfolding trigger_all
trigger_event loader [] event arg = pure error
trigger_event loader (p ∷ ps) event arg = trigger_all loader (p ∷ ps) event arg

-- The handlers of the libraries return and leave the surroundings as they were.
abbrev pub Quiet : Loader → Type 0
Quiet loader =
    (file : Bytes) (event : PluginEvent) (arg : ℤ) (w : World)
    → (status : PluginStatus) × (loader.handle_event file event arg w ≡ done status w)

notify_calm :
    (loader : Loader) (p : Plugin) (event : PluginEvent) (arg : ℤ) (w : World) (b : Bool)
    → Quiet loader
    → notify loader p event arg b w ≡ done tt w
unfolding notify
notify_calm loader p event arg w false quiet = refl
notify_calm loader p event arg w true quiet = called (handles p.info.events event)
  where
    called : (b : Bool) → call_handler loader p event arg b w ≡ done tt w
    called false = unfold call_handler in refl
    called true = let (status, e) = quiet p.info.file event arg w in unfold call_handler in rw e

trigger_all_calm :
    (loader : Loader) (ps : List Plugin) (event : PluginEvent) (arg : ℤ) (w : World)
    → Quiet loader
    → trigger_all loader ps event arg w ≡ done ok w
unfolding trigger_all
trigger_all_calm loader [] event arg w quiet = refl
trigger_all_calm loader (p ∷ ps) event arg w quiet =
    rw (notify_calm loader p event arg w p.info.enabled quiet)
      (trigger_all_calm loader ps event arg w quiet)

pub trigger_event-calm :
    (loader : Loader) (ps : List Plugin) (event : PluginEvent) (arg : ℤ) (w : World)
    → Quiet loader
    → (status : PluginStatus) × (trigger_event loader ps event arg w ≡ done status w)
unfolding trigger_event
trigger_event-calm loader [] event arg w quiet = (error, refl)
trigger_event-calm loader (p ∷ ps) event arg w quiet =
    (ok, trigger_all_calm loader (p ∷ ps) event arg w quiet)

-- The handlers of an event meet no undefined behaviour, and leave the surroundings as they were
-- where they return.
abbrev pub Harmless : Loader → PluginEvent → ℤ → Type 0
Harmless loader event arg =
    (file : Bytes) (w : World) → Safe (λ _ w'. w' ≡ w) (loader.handle_event file event arg w)

notify-Safe :
    (loader : Loader) (p : Plugin) (event : PluginEvent) (arg : ℤ) (w : World) (b : Bool)
    → Harmless loader event arg
    → Safe (λ _ w'. w' ≡ w) (notify loader p event arg b w)
unfolding notify
notify-Safe loader p event arg w false harmless = refl
notify-Safe loader p event arg w true harmless = called (handles p.info.events event)
  where
    called : (b : Bool) → Safe (λ _ w'. w' ≡ w) (call_handler loader p event arg b w)
    called false = unfold call_handler in refl
    called true =
        unfold call_handler in
        Safe-bind _ _ (loader.handle_event p.info.file event arg w) _ (harmless p.info.file w)
          (λ _ u e. e)

trigger_all-Safe :
    (loader : Loader) (ps : List Plugin) (event : PluginEvent) (arg : ℤ) (w : World)
    → Harmless loader event arg
    → Safe (λ _ w'. w' ≡ w) (trigger_all loader ps event arg w)
unfolding trigger_all
trigger_all-Safe loader [] event arg w harmless = refl
trigger_all-Safe loader (p ∷ ps) event arg w harmless =
    Safe-bind _ _ (notify loader p event arg p.info.enabled w) _
      (notify-Safe loader p event arg w p.info.enabled harmless)
      (λ _ u e.
        Safe-mono _ _ (trigger_all loader ps event arg u)
          (trigger_all-Safe loader ps event arg u harmless) (λ _ v f. f ∙ e))

pub trigger_event-Safe :
    (loader : Loader) (ps : List Plugin) (event : PluginEvent) (arg : ℤ) (w : World)
    → Harmless loader event arg
    → Safe (λ _ w'. w' ≡ w) (trigger_event loader ps event arg w)
unfolding trigger_event
trigger_event-Safe loader [] event arg w harmless = refl
trigger_event-Safe loader (p ∷ ps) event arg w harmless =
    trigger_all-Safe loader (p ∷ ps) event arg w harmless
