-- ===== src/Service/Session.antt =====
-- The event loops of `ProviderSession`. Times are in milliseconds. The provider is a parameter: what it
-- answers may depend on the calls made before. Errors of its methods are only logged.
pub mod Without
pub mod Typed
pub mod Ends
use vim_clap.Common.{
  ℕ, Bool, true, false, ◌+◌, ◌*◌, Option, none, some, List, [], ◌∷◌, ◌++◌, if◌then◌else◌, leb,
}
use vim_clap.Text.{Text}
use vim_clap.Input.{
  ProviderEvent, KeyEventType, InternalProviderEvent, initialize, terminate, initial_query,
}

module _ (Params : Type 0) where
  -- What a session calls, in order, and what it stores in `is_busy`.
  pub data Call : Type 0 where
    on_initialize on_move on_typed record_input on_terminate : Call
    on_initial_query : Text → Call
    on_key_event : KeyEventType → Params → Call
    remote_sink : List ℕ → Call
    set_busy : Bool → Call

  -- `initialized`: whether `on_initialize` succeeds. `parse_line_numbers`: the parameters of a remote sink.
  pub record Provider : Type 0 where
    pub initialized : List Call → Bool
    pub adaptive_debounce_delay : List Call → Option ℕ
    pub parse_line_numbers : Params → Option (List ℕ)

  pub record Session : Type 0 where
    pub running : Bool
    pub on_move : Option Params
    pub on_move_timer : ℕ
    pub on_typed : Option Params
    pub on_typed_timer : ℕ
    pub on_typed_delay : ℕ
    pub calls : List Call

  -- What `select!` sees: an event, the closed channel, or a timer; each with the time.
  pub data Wakeup : Type 0 where
    received : ℕ → ProviderEvent Params → Wakeup
    closed : Wakeup
    typed_elapsed moved_elapsed : ℕ → Wakeup

-- A year.
abbrev pub never : ℕ
never = 365 * 24 * 60 * 60 * 1000

abbrev pub on_move_delay : ℕ
on_move_delay = 50

module _ {Params : Type 0} where
  abbrev pub start_session : ℕ → ℕ → Session Params
  start_session now debounce_delay = record {
    running = true;
    on_move = none;
    on_move_timer = now + never;
    on_typed = none;
    on_typed_timer = now + never;
    on_typed_delay = debounce_delay;
    calls = [];
  }

  abbrev pub add_calls : List (Call Params) → Session Params → Session Params
  add_calls cs s = record s { calls = s.calls ++ cs }

  -- `handle_exit`, and each `break` or `return` after it.
  abbrev pub end_with : List (Call Params) → Session Params → Session Params
  end_with cs s = record s { running = false; calls = s.calls ++ cs }

  abbrev pub after_internal :
      List (Call Params) → Option (Option ℕ) → Session Params → Session Params
  after_internal cs none s = end_with cs s
  after_internal cs (some none) s = add_calls cs s
  after_internal cs (some (some new_delay)) s = record (add_calls cs s) {
    on_typed_delay = new_delay;
  }

  -- A timer that is not due, or for which nothing waits, does not wake the loop.
  unfoldable pub typed_due : ℕ → Option Params → Session Params → Session Params
  typed_due now none s = s
  typed_due now (some p) s =
      if leb s.on_typed_timer now
      then add_calls (record_input ∷ Call.on_typed ∷ Call.on_move ∷ [])
          (record s { on_typed = none; on_typed_timer = now + never })
      else s

  unfoldable pub moved_due : ℕ → Option Params → Session Params → Session Params
  moved_due now none s = s
  moved_due now (some p) s =
      if leb s.on_move_timer now
      then add_calls (Call.on_move ∷ []) (record s { on_move = none; on_move_timer = now + never })
      else s

  -- An event that ends the session.
  abbrev pub is_ending : ProviderEvent Params → Bool
  is_ending (ProviderEvent.internal terminate) = true
  is_ending (ProviderEvent.internal initialize) = false
  is_ending (ProviderEvent.internal (initial_query q)) = false
  is_ending (ProviderEvent.remote_sink p) = true
  is_ending ProviderEvent.exit = true
  is_ending (ProviderEvent.key ty p) = false
  is_ending (ProviderEvent.on_move p) = false
  is_ending (ProviderEvent.on_typed p) = false

  module _ (provider : Provider Params) where
    -- `handle_remote_sink`
    unfoldable pub remote_sink_calls : Params → List (Call Params)
    remote_sink_calls p = elim (provider.parse_line_numbers p) [
      | some line_numbers ↦ Call.remote_sink line_numbers ∷ on_terminate ∷ []
      | none ↦ on_terminate ∷ []
    ]

    unfoldable pub initialize_calls : List (Call Params) → List (Call Params)
    initialize_calls before =
        if provider.initialized before
        then on_initialize ∷ Call.on_move ∷ []
        else on_initialize ∷ []

    -- `handle_internal_event`: the calls, and the flow: `none` is `Break`.
    unfoldable pub handle_internal_event :
        InternalProviderEvent → List (Call Params) → List (Call Params) × Option (Option ℕ)
    unfolding initialize_calls
    handle_internal_event terminate before = (on_terminate ∷ [], none)
    handle_internal_event initialize before =
        let made = initialize_calls before in
        (made, some (provider.adaptive_debounce_delay (before ++ made)))
    handle_internal_event (initial_query q) before = (on_initial_query q ∷ [], some none)

    -- The arms of `run_event_loop_with_debounce`.
    unfoldable pub receive : ℕ → ProviderEvent Params → Session Params → Session Params
    unfolding handle_internal_event remote_sink_calls
    receive now (ProviderEvent.internal e) s =
        let (cs, flow) = handle_internal_event e s.calls in after_internal cs flow s
    receive now (ProviderEvent.on_move p) s = record s {
      on_move = some p;
      on_move_timer = now + on_move_delay;
    }
    receive now (ProviderEvent.on_typed p) s = record s {
      on_typed = some p;
      on_typed_timer = now + s.on_typed_delay;
    }
    receive now (ProviderEvent.key k p) s = add_calls (on_key_event k p ∷ []) s
    receive now ProviderEvent.exit s = end_with (on_terminate ∷ []) s
    receive now (ProviderEvent.remote_sink p) s = end_with (remote_sink_calls p) s

    unfoldable pub wake : Wakeup Params → Session Params → Session Params
    unfolding receive typed_due moved_due
    wake (received now e) s = receive now e s
    wake closed s = end_with [] s
    wake (typed_elapsed now) s = typed_due now s.on_typed s
    wake (moved_elapsed now) s = moved_due now s.on_move s

    -- `run_event_loop_with_debounce`: a loop that ended wakes no more.
    unfoldable pub run_with_debounce : List (Wakeup Params) → Session Params → Session Params
    unfolding wake
    run_with_debounce [] s = s
    run_with_debounce (w ∷ ws) s = run_with_debounce ws (if s.running then wake w s else s)
