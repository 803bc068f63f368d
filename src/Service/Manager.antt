-- ===== src/Service/Manager.antt =====
-- `ServiceManager` of crates/maple_core/src/stdio_server/service.rs. A map is the list of its entries. The
-- messages to the sessions stand in `sent` and `delivered`, in order; whether a plugin still receives is
-- a parameter. That a provider no longer receives is only logged.
pub mod Backend
use vim_clap.Common.{
  ℕ, Bool, true, false, not, ◌&&◌, ◌==◌, List, [], ◌∷◌, ◌++◌, map, filter, any, if◌then◌else◌,
}
use vim_clap.Text.{Text, text_eq}
use vim_clap.Input.{
  ProviderEvent, PluginEvent, AutocmdEventType, initialize, terminate, cursor_moved, insert_enter,
  buf_new_file, buf_enter, buf_leave, buf_delete, buf_write_post, buf_win_enter, buf_win_leave,
  text_changed, text_changed_i,
}

abbrev pub autocmd_index : AutocmdEventType → ℕ
autocmd_index cursor_moved = 0
autocmd_index insert_enter = 1
autocmd_index buf_new_file = 2
autocmd_index buf_enter = 3
autocmd_index buf_leave = 4
autocmd_index buf_delete = 5
autocmd_index buf_write_post = 6
autocmd_index buf_win_enter = 7
autocmd_index buf_win_leave = 8
autocmd_index text_changed = 9
autocmd_index text_changed_i = 10

-- The derived `PartialEq`.
abbrev pub autocmd_eq : AutocmdEventType → AutocmdEventType → Bool
autocmd_eq a b = autocmd_index a == autocmd_index b

-- An entry of `plugins`, without its sender.
pub record Plugin : Type 0 where
  pub id : Text
  pub subscriptions : List AutocmdEventType

abbrev pub remove_plugin : Text → List Plugin → List Plugin
remove_plugin id = filter (λ p. not (text_eq p.id id))

abbrev pub is_subscribed : AutocmdEventType → Plugin → Bool
is_subscribed ty p = any (autocmd_eq ty) p.subscriptions

module _ (Params : Type 0) where
  pub record ServiceManager : Type 0 where
    pub providers : List ℕ
    pub plugins : List Plugin
    pub sent : List (ℕ × ProviderEvent Params)
    pub delivered : List (Text × PluginEvent Params)

module _ {Params : Type 0} where
  abbrev pub new_manager : ServiceManager Params
  new_manager = record { providers = []; plugins = []; sent = []; delivered = [] }

  unfoldable pub exists : ℕ → ServiceManager Params → Bool
  exists provider_session_id m = any (λ i. i == provider_session_id) m.providers

  -- The `drain` of `new_provider`.
  unfoldable pub terminate_all : ServiceManager Params → ServiceManager Params
  terminate_all m = record m {
    providers = [];
    sent = m.sent ++ map (λ i. (i, ProviderEvent.internal terminate)) m.providers;
  }

  unfoldable pub insert_provider : ℕ → ServiceManager Params → ServiceManager Params
  unfolding exists
  insert_provider provider_session_id m = if exists provider_session_id m then m else record m {
    providers = provider_session_id ∷ m.providers;
    sent = m.sent ++ (provider_session_id, ProviderEvent.internal initialize) ∷ [];
  }

  unfoldable pub new_provider : ℕ → ServiceManager Params → ServiceManager Params
  unfolding terminate_all insert_provider
  new_provider provider_session_id m = insert_provider provider_session_id (terminate_all m)

  -- `register_plugin`, without the names of the actions that it returns.
  unfoldable pub register_plugin :
      Text → List AutocmdEventType → ServiceManager Params → ServiceManager Params
  register_plugin id subscriptions m = record m {
    plugins = record { id = id; subscriptions = subscriptions } ∷ remove_plugin id m.plugins;
  }

  -- A plugin that no longer receives is dropped as soon as something is sent to it.
  unfoldable pub notify_plugins :
      (Text → Bool) → AutocmdEventType → Params → ServiceManager Params → ServiceManager Params
  notify_plugins receives ty params m = record m {
    plugins = filter (λ p. if is_subscribed ty p then receives p.id else true) m.plugins;
    delivered =
        m.delivered
        ++ map (λ p. (p.id, PluginEvent.autocmd ty params))
            (filter (λ p. is_subscribed ty p && receives p.id) m.plugins);
  }

  unfoldable pub notify_plugin_action :
      (Text → Bool) → Text → Text → Params → ServiceManager Params → ServiceManager Params
  notify_plugin_action receives plugin_id method params m =
      if any (λ p. text_eq p.id plugin_id) m.plugins
      then (if receives plugin_id
          then record m {
            delivered = m.delivered ++ (plugin_id, PluginEvent.action method params) ∷ [];
          }
          else record m { plugins = remove_plugin plugin_id m.plugins })
      else m

  unfoldable pub notify_provider :
      ℕ → ProviderEvent Params → ServiceManager Params → ServiceManager Params
  unfolding exists
  notify_provider provider_session_id event m =
      if exists provider_session_id m
      then record m { sent = m.sent ++ (provider_session_id, event) ∷ [] }
      else m

  unfoldable pub notify_provider_exit : ℕ → ServiceManager Params → ServiceManager Params
  unfolding exists
  notify_provider_exit provider_session_id m =
      if exists provider_session_id m
      then record m {
        providers = filter (λ i. not (i == provider_session_id)) m.providers;
        sent = m.sent ++ (provider_session_id, ProviderEvent.exit) ∷ [];
      }
      else m

  unfoldable pub try_exit : ℕ → ServiceManager Params → ServiceManager Params
  unfolding exists notify_provider_exit
  try_exit provider_session_id m =
      if exists provider_session_id m then notify_provider_exit provider_session_id m else m
