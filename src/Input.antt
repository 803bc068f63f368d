-- ===== src/Input.antt =====
-- crates/maple_core/src/stdio_server/input.rs: the events that arrive from the editor and the history of
-- inputs. `Params` is the JSON value of a message, `A` the type of plugin actions.
pub mod Recorder
pub mod History
use vim_clap.Common.{
  ℕ, Bool, true, false, ◌==◌, ◌≡◌, ◌≢◌, Option, none, some, List, [], ◌∷◌, ◌⊎◌, inl, inr,
  if◌then◌else◌,
}
use vim_clap.Text.{Text, codes, text_eq}

pub data AutocmdEventType : Type 0 where
  cursor_moved insert_enter buf_new_file buf_enter buf_leave buf_delete : AutocmdEventType
  buf_write_post buf_win_enter buf_win_leave text_changed text_changed_i : AutocmdEventType

pub data KeyEventType : Type 0 where
  tab backspace carriage_return shift_up shift_down : KeyEventType
  ctrl_n ctrl_p ctrl_t ctrl_x ctrl_v : KeyEventType

pub data InternalProviderEvent : Type 0 where
  initialize terminate : InternalProviderEvent
  initial_query : Text → InternalProviderEvent

module _ (Params : Type 0) where
  pub record RpcNotification : Type 0 where
    pub method : Text
    pub params : Params

  pub data PluginEvent : Type 0 where
    autocmd : AutocmdEventType → Params → PluginEvent
    action : Text → Params → PluginEvent

  pub data ProviderEvent : Type 0 where
    on_move on_typed remote_sink : Params → ProviderEvent
    exit : ProviderEvent
    key : KeyEventType → Params → ProviderEvent
    internal : InternalProviderEvent → ProviderEvent

  pub data Event (Action : Type 0) : Type 0 where
    new_provider : Params → Event Action
    provider_worker : ProviderEvent → Event Action
    autocmd : AutocmdEventType → Params → Event Action
    key : KeyEventType → Params → Event Action
    action : Action → Event Action

module _ {Params : Type 0} where
  unfoldable pub should_debounce : PluginEvent Params → Bool
  should_debounce (PluginEvent.autocmd ty p) = elim ty [
    | cursor_moved ↦ true
    | text_changed ↦ true
    | text_changed_i ↦ true
    | _ ↦ false
  ]
  should_debounce (PluginEvent.action m p) = false

  unfoldable pub is_same_type : ProviderEvent Params → ProviderEvent Params → Bool
  is_same_type (ProviderEvent.on_move p) other = elim other [
    | ProviderEvent.on_move _ ↦ true
    | _ ↦ false
  ]
  is_same_type (ProviderEvent.on_typed p) other = elim other [
    | ProviderEvent.on_typed _ ↦ true
    | _ ↦ false
  ]
  is_same_type (ProviderEvent.remote_sink p) other = elim other [
    | ProviderEvent.remote_sink _ ↦ true
    | _ ↦ false
  ]
  is_same_type ProviderEvent.exit other = elim other [ ProviderEvent.exit ↦ true | _ ↦ false ]
  is_same_type (ProviderEvent.key k p) other = elim other [
    | ProviderEvent.key _ _ ↦ true
    | _ ↦ false
  ]
  is_same_type (ProviderEvent.internal e) other = elim other [
    | ProviderEvent.internal _ ↦ true
    | _ ↦ false
  ]

-- `variants()`, beside the variants.
abbrev pub autocmd_names : List (Text × AutocmdEventType)
autocmd_names =
    (codes "CursorMoved", cursor_moved)
    ∷ (codes "InsertEnter", insert_enter)
    ∷ (codes "BufNewFile", buf_new_file)
    ∷ (codes "BufEnter", buf_enter)
    ∷ (codes "BufLeave", buf_leave)
    ∷ (codes "BufDelete", buf_delete)
    ∷ (codes "BufWritePost", buf_write_post)
    ∷ (codes "BufWinEnter", buf_win_enter)
    ∷ (codes "BufWinLeave", buf_win_leave)
    ∷ (codes "TextChanged", text_changed)
    ∷ (codes "TextChangedI", text_changed_i)
    ∷ []

-- The arms of a `match` on texts, tried in order.
abbrev pub choose {ℓ} : {A : Type ℓ} → List (Text × A) → Text → Option A
choose [] t = none
choose ((name, a) ∷ arms) t = let rest = choose arms t in if text_eq t name then some a else rest

-- `AutocmdEventType::parse`
unfoldable pub parse_autocmd : Text → Option AutocmdEventType
parse_autocmd t = choose autocmd_names t

module _ {Params Action : Type 0} where
  abbrev pub arms : Params → List (Text × Event Params Action)
  arms p =
      (codes "new_provider", Event.new_provider p)
      ∷ (codes "exit_provider", Event.provider_worker ProviderEvent.exit)
      ∷ (codes "remote_sink", Event.provider_worker (ProviderEvent.remote_sink p))
      ∷ (codes "on_move", Event.provider_worker (ProviderEvent.on_move p))
      ∷ (codes "on_typed", Event.provider_worker (ProviderEvent.on_typed p))
      ∷ (codes "cr", Event.key carriage_return p)
      ∷ (codes "tab", Event.key tab p)
      ∷ (codes "ctrl-n", Event.key ctrl_n p)
      ∷ (codes "ctrl-p", Event.key ctrl_p p)
      ∷ (codes "ctrl-t", Event.key ctrl_t p)
      ∷ (codes "ctrl-x", Event.key ctrl_x p)
      ∷ (codes "ctrl-v", Event.key ctrl_v p)
      ∷ (codes "shift-up", Event.key shift_up p)
      ∷ (codes "shift-down", Event.key shift_down p)
      ∷ (codes "backspace", Event.key backspace p)
      ∷ []

  -- `Event::parse_notification`; `none` is the error of `parse_action`.
  unfoldable pub parse_notification :
      RpcNotification Params
      → (RpcNotification Params → Option Action)
      → Option (Event Params Action)
  unfolding parse_autocmd
  parse_notification n parse_action = elim (choose (arms n.params) n.method) [
    | some event ↦ some event
    | none ↦ elim (parse_autocmd n.method) [
      | some ty ↦ some (Event.autocmd ty n.params)
      | none ↦ elim (parse_action n) [ some a ↦ some (Event.action a) | none ↦ none ]
    ]
  ]
