-- ===== src/Tests/Sessions.antt =====
-- Sessions of a provider and of a plugin, and a server that is told to start two of them.
use mathlib.Core.Option
use vim_clap.Common.{
  ℕ, suc, ◌≡◌, refl, true, false, Option, none, some, List, [], ◌∷◌, ◌++◌, filter, arith,
}
use vim_clap.Text.{Text, codes}
use vim_clap.JsonPatch.{field, number, no_fields}
use vim_clap.Rpc.{session_id, Params, map_params}
use vim_clap.Input.{
  ProviderEvent, PluginEvent, tab, initialize, cursor_moved, buf_enter, RpcNotification,
}
use vim_clap.Service.Forward.{Arrival, arrived, tick, Forwarder, new_forwarder, forward_all}
use vim_clap.Service.Forward.Cached.{is_distinct, forward_all-is_distinct}
use vim_clap.Service.Forward.Moves.{NoMove, early_moves-dropped}
use vim_clap.Service.Session.{
  record_input, Call, Provider, Session, Wakeup, received, typed_elapsed, moved_elapsed,
  start_session, run_with_debounce,
}
use vim_clap.Service.Session.Typed.{typed_calls, on_typed-once}
use vim_clap.Service.Session.Without.{run_without_debounce}
use vim_clap.Service.Session.Ends.{IsOrderly, session-IsOrderly}
use vim_clap.Service.Plugins.{
  PluginWakeup, run_plugin, start_plugin, is_immediate, run_plugin_without_debounce,
  received_events, run_plugin-immediate,
}
use vim_clap.Service.Manager.Backend.{Outside, Message, notification, elapsed, start_backend, run}
use vim_clap.Service.Manager.Backend.Sessions.{IsManaged, run-IsManaged}

abbrev provider : Provider ℕ
provider = record {
  initialized = λ calls. true;
  adaptive_debounce_delay = λ calls. some 80;
  parse_line_numbers = λ p. some (p ∷ []);
}

-- A key and two moves: the second move comes 100 ms after the first.
abbrev arrivals : List (Arrival ℕ)
arrivals =
    arrived 0 true true (ProviderEvent.key tab 1)
    ∷ arrived 1 true true (ProviderEvent.key tab 2)
    ∷ arrived 10 false true (ProviderEvent.on_move 3)
    ∷ arrived 110 false true (ProviderEvent.on_move 4)
    ∷ tick true
    ∷ []

forward_all-is_distinct_example :
    (f : Forwarder ℕ) × (forward_all 200 arrivals new_forwarder ≡ some f)
    × (is_distinct f.event_cache ≡ true)
forward_all-is_distinct_example = forward_all-is_distinct 200 arrivals refl

-- The second key was dropped, and so was the second move.
sent_events :
    Option.map (λ f. f.sent) (forward_all 200 arrivals new_forwarder)
    ≡ some (ProviderEvent.on_move 3 ∷ ProviderEvent.key tab 1 ∷ [])
unfolding forward_all
sent_events = refl

abbrev moved : Forwarder ℕ
moved = record new_forwarder { on_move_timer = some 10; sent = ProviderEvent.on_move 3 ∷ [] }

-- A move, a key, a tick, and another move.
abbrev early : List (Arrival ℕ)
early =
    arrived 110 false true (ProviderEvent.on_move 4)
    ∷ arrived 120 true true (ProviderEvent.key tab 5)
    ∷ tick true
    ∷ arrived 200 true true (ProviderEvent.on_move 6)
    ∷ []

early_moves-dropped_example :
    (f : Forwarder ℕ) × (forward_all 200 early moved ≡ some f) × (NoMove 10 moved f)
early_moves-dropped_example =
    early_moves-dropped 200 10 early moved refl refl (omega arith, (tt, (tt, (omega arith, tt))))

abbrev typing : List (Wakeup ℕ)
typing = received 310 (ProviderEvent.on_move 2) ∷ moved_elapsed 360 ∷ []

abbrev typed : Session ℕ
typed =
    run_with_debounce provider
      (received 300 (ProviderEvent.on_typed 1) ∷ typing ++ typed_elapsed 500 ∷ [])
      (start_session 0 200)

on_typed-once_example :
    (typed.running ≡ true)
    × (typed.on_typed ≡ none)
    × (typed_calls typed ≡ suc (typed_calls (start_session {Params = ℕ} 0 200)))
on_typed-once_example =
    on_typed-once provider 300 500 1 typing (start_session 0 200) refl refl (omega arith)

typed_order : typed.calls ≡ Call.on_move ∷ record_input ∷ Call.on_typed ∷ Call.on_move ∷ []
unfolding run_with_debounce
typed_order = refl

abbrev leaving : List (Wakeup ℕ)
leaving = received 20 ProviderEvent.exit ∷ received 30 (ProviderEvent.key tab 1) ∷ []

session-IsOrderly_example :
    IsOrderly
      (run_with_debounce provider leaving (start_session 0 200)).running
      (run_with_debounce provider leaving (start_session 0 200)).calls
    × IsOrderly
        (run_without_debounce provider (ProviderEvent.exit ∷ []) []).1
        (run_without_debounce provider (ProviderEvent.exit ∷ []) []).0
session-IsOrderly_example = session-IsOrderly provider 0 200 leaving (ProviderEvent.exit ∷ [])

-- The move of the cursor is overtaken.
abbrev cursor_and_buffer : List (PluginWakeup ℕ)
cursor_and_buffer =
    PluginWakeup.received 0 (PluginEvent.autocmd cursor_moved 1)
    ∷ PluginWakeup.received 5 (PluginEvent.autocmd buf_enter 2)
    ∷ PluginWakeup.elapsed 50
    ∷ []

run_plugin-immediate_example :
    (filter is_immediate (run_plugin 50 cursor_and_buffer (start_plugin 0)).handled
      ≡ filter is_immediate (received_events cursor_and_buffer))
    × (run_plugin_without_debounce {Params = ℕ} [] [] ≡ [])
run_plugin-immediate_example = run_plugin-immediate 0 50 cursor_and_buffer []

handled_order :
    (run_plugin 50 cursor_and_buffer (start_plugin 0)).handled
    ≡ PluginEvent.autocmd buf_enter 2 ∷ PluginEvent.autocmd cursor_moved 1 ∷ []
unfolding run_plugin
handled_order = refl

-- One digit is enough here.
abbrev digit : Text → Option ℕ
digit [] = none
digit (c ∷ cs) = some c

abbrev outside : Outside
outside = record { as_u64 = digit; can_create = λ p. true; receives = λ p. true }

abbrev opened : ℕ → RpcNotification Params
opened id = record {
  method = codes "new_provider";
  params = map_params (field (codes "session_id") (number (id ∷ [])) no_fields);
}

abbrev messages : List Message
messages = notification 0 (opened 1) ∷ elapsed 60 ∷ notification 100 (opened 2) ∷ elapsed 160 ∷ []

run-IsManaged_example : IsManaged (run outside [] messages (start_backend 0 [])).manager
run-IsManaged_example = run-IsManaged outside [] 0 [] messages

two_sessions :
    (run outside [] messages (start_backend 0 [])).manager.sent
    ≡ (1, ProviderEvent.internal initialize)
      ∷ (1, ProviderEvent.exit)
      ∷ (2, ProviderEvent.internal initialize)
      ∷ []
unfolding run session_id
two_sessions = refl
