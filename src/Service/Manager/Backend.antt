-- ===== src/Service/Manager/Backend.antt =====
-- `Backend` of crates/maple_core/src/stdio_server/mod.rs: the notifications of the editor.
pub mod Sessions
use vim_clap.Common.{
  ℕ, Bool, true, false, not, ◌&&◌, ◌-◌, ◌+◌, leb, Option, none, some, List, [], ◌∷◌, any,
  if◌then◌else◌,
}
use vim_clap.Common.Options.{◌>>=◌}
use vim_clap.Text.{Text, text_eq, codes}
use vim_clap.Rpc.{Params, session_id}
use vim_clap.Input.{RpcNotification, Event, ProviderEvent, PluginEvent, parse_notification}
use vim_clap.Service.Session.{never}
use vim_clap.Service.Manager.{
  new_manager, Plugin, ServiceManager, exists, new_provider, notify_plugins, notify_plugin_action,
  notify_provider, notify_provider_exit, try_exit,
}

-- What the code calls elsewhere: a number of serde_json, whether the context and the provider of a new
-- session can be made, and whether a plugin still receives.
pub record Outside : Type 0 where
  pub as_u64 : Text → Option ℕ
  pub can_create : Params → Bool
  pub receives : Text → Bool

pub record ActionEvent : Type 0 where
  pub plugin_id : Text
  pub method : Text
  pub params : Params

-- The plugin whose actions include the method.
abbrev pub find_plugin : List (Text × List Text) → Text → Option Text
find_plugin [] method = none
find_plugin ((plugin_id, actions) ∷ rest) method =
    let found = find_plugin rest method in
    if any (text_eq method) actions then some plugin_id else found

abbrev pub Notification : Type 0
Notification = RpcNotification Params

-- `SystemPlugin::is_list_plugins`: the names are only shown.
abbrev pub is_list_plugins : ActionEvent → Bool
is_list_plugins a = text_eq a.plugin_id (codes "system") && text_eq a.method (codes "listPlugins")

abbrev pub kept_on_error :
    ServiceManager Params → Option (ServiceManager Params) → ServiceManager Params
kept_on_error m none = m
kept_on_error m (some m') = m'

-- The state of `run`.
pub record Backend : Type 0 where
  pub manager : ServiceManager Params
  pub pending_notification : Option Notification
  pub notification_dirty : Bool
  pub notification_timer : ℕ

pub data Message : Type 0 where
  notification : ℕ → Notification → Message
  elapsed : ℕ → Message

abbrev pub notification_delay : ℕ
notification_delay = 50

abbrev pub or_zero : Option ℕ → ℕ
or_zero none = 0
or_zero (some id) = id

-- A server that has just registered its plugins.
abbrev pub start_backend : ℕ → List Plugin → Backend
start_backend now plugins = record {
  manager = record new_manager { plugins = plugins };
  pending_notification = none;
  notification_dirty = false;
  notification_timer = now + never;
}

module _ (out : Outside) (plugin_actions : List (Text × List Text)) where
  unfoldable pub parse_action : Notification → Option ActionEvent
  parse_action n = do
    plugin_id ← find_plugin plugin_actions n.method
    some (record { plugin_id = plugin_id; method = n.method; params = n.params })

  abbrev pub session_of : Notification → Option ℕ
  session_of n = session_id out.as_u64 n.params

  -- `none` is an error, which is logged.
  unfoldable pub dispatch :
      Option ℕ → Event Params ActionEvent → ServiceManager Params → Option (ServiceManager Params)
  unfolding new_provider notify_provider notify_provider_exit notify_plugins notify_plugin_action
  dispatch session (Event.new_provider p) m = do
    id ← session
    if out.can_create p then some (new_provider id m) else none
  dispatch session (Event.provider_worker ProviderEvent.exit) m = do
    id ← session
    some (notify_provider_exit id m)
  dispatch session (Event.provider_worker to_send) m = do
    id ← session
    some (notify_provider id to_send m)
  dispatch session (Event.key ty p) m = do
    id ← session
    some (notify_provider id (ProviderEvent.key ty p) m)
  dispatch session (Event.autocmd ty p) m = some (notify_plugins out.receives ty p m)
  dispatch session (Event.action a) m =
      if is_list_plugins a
      then some m
      else some (notify_plugin_action out.receives a.plugin_id a.method a.params m)

  unfoldable pub do_process_notification :
      Notification → ServiceManager Params → Option (ServiceManager Params)
  unfolding parse_notification parse_action dispatch
  do_process_notification n m = do
    event ← parse_notification n parse_action
    dispatch (session_of n) event m

  abbrev pub process_for : Option ℕ → Notification → ServiceManager Params → ServiceManager Params
  process_for none n m = kept_on_error m (do_process_notification n m)
  process_for (some id) n m =
      if exists id m then kept_on_error m (do_process_notification n m) else m

  -- A notification of a session that does not exist is ignored.
  unfoldable pub process_notification : Notification → ServiceManager Params → ServiceManager Params
  unfolding do_process_notification exists
  process_notification n m = process_for (session_of n) n m

  -- The pending `new_provider`, when its time has come.
  abbrev pub process_pending : Option Notification → ServiceManager Params → ServiceManager Params
  process_pending none m = m
  process_pending (some n) m =
      let m' = try_exit (or_zero (session_of n) - 1) m in
      kept_on_error m' (do_process_notification n m')

  -- A message of `run`; requests change no state. A task that is spawned is done before the next message.
  unfoldable pub process_message : Message → Backend → Backend
  unfolding process_notification do_process_notification try_exit
  process_message (notification now n) b =
      if text_eq n.method (codes "new_provider")
      then record b {
        pending_notification = some n;
        notification_dirty = true;
        notification_timer = now + notification_delay;
      }
      else record b { manager = process_notification n b.manager }
  process_message (elapsed now) b =
      if b.notification_dirty && leb b.notification_timer now
      then record b {
        manager = process_pending b.pending_notification b.manager;
        pending_notification = none;
        notification_dirty = false;
        notification_timer = now + never;
      }
      else b

  unfoldable pub run : List Message → Backend → Backend
  unfolding process_message
  run [] b = b
  run (x ∷ xs) b = run xs (process_message x b)
