-- ===== src/Service/Session/Without.antt =====
-- `run_event_loop_without_debounce` of crates/maple_core/src/stdio_server/service.rs.
use vim_clap.Common.{if◌then◌else◌, ℕ, Bool, true, false, Option, none, some, List, [], ◌∷◌, ◌++◌}
use vim_clap.Input.{ProviderEvent}
use vim_clap.Service.Session.{
  Call, on_typed, record_input, on_terminate, on_key_event, set_busy, Provider, remote_sink_calls,
  handle_internal_event,
}

abbrev pub goes_on : Option (Option ℕ) → Bool
goes_on none = false
goes_on (some d) = true

module _ {Params : Type 0} (provider : Provider Params) where
  -- The calls for an event, and whether the loop goes on.
  unfoldable pub handle_event :
      ProviderEvent Params → List (Call Params) → List (Call Params) × Bool
  unfolding handle_internal_event remote_sink_calls
  handle_event (ProviderEvent.internal e) before =
      let (cs, flow) = handle_internal_event provider e before in (cs, goes_on flow)
  handle_event (ProviderEvent.on_move p) before =
      (set_busy true ∷ Call.on_move ∷ set_busy false ∷ [], true)
  handle_event (ProviderEvent.on_typed p) before =
      (set_busy true ∷ record_input ∷ on_typed ∷ set_busy false ∷ [], true)
  handle_event (ProviderEvent.key k p) before = (on_key_event k p ∷ [], true)
  handle_event ProviderEvent.exit before = (on_terminate ∷ [], false)
  handle_event (ProviderEvent.remote_sink p) before = (remote_sink_calls provider p, false)

  -- The calls that were made when the loop ends or the channel is empty, and whether it still runs.
  unfoldable pub run_without_debounce :
      List (ProviderEvent Params) → List (Call Params) → List (Call Params) × Bool
  unfolding handle_event
  run_without_debounce [] before = (before, true)
  run_without_debounce (e ∷ es) before =
      let (cs, more) = handle_event e before in
      let rest = run_without_debounce es (before ++ cs) in
      if more then rest else (before ++ cs, false)
