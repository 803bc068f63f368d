-- ===== src/Service/Forward.antt =====
-- `DebounceTimer` and the task that `ProviderSession::new` spawns: it passes the events of the editor on to
-- the session. Times are in milliseconds. What the session does in the meantime is in the inputs: whether it
-- is busy, and whether it still receives.
pub mod Cached
pub mod Moves
use vim_clap.Common.{
  ℕ, Bool, true, false, ◌-◌, Option, none, some, List, [], ◌∷◌, ◌++◌, if◌then◌else◌, ltb, any,
}
use vim_clap.Common.Options.{◌>>=◌}
use vim_clap.Input.{ProviderEvent, is_same_type}

-- `DebounceTimer::should_emit`, with the new `last_emitted`.
unfoldable pub should_emit : ℕ → ℕ → Option ℕ → Bool × Option ℕ
should_emit debounce_period now none = (true, some now)
should_emit debounce_period now (some last) =
    if ltb debounce_period (now - last) then (true, some now) else (false, some last)

abbrev pub on_move_period : ℕ
on_move_period = 200

module _ (Params : Type 0) where
  pub record Forwarder : Type 0 where
    pub on_move_timer : Option ℕ
    pub on_typed_timer : Option ℕ
    pub event_cache : List (ProviderEvent Params)
    pub sent : List (ProviderEvent Params)

  pub data Arrival : Type 0 where
    arrived : ℕ → Bool → Bool → ProviderEvent Params → Arrival
    tick : Bool → Arrival

module _ {Params : Type 0} where
  abbrev pub new_forwarder : Forwarder Params
  new_forwarder = record {
    on_move_timer = none;
    on_typed_timer = none;
    event_cache = [];
    sent = [];
  }

  unfoldable pub is_emitted :
      ℕ → ℕ → ProviderEvent Params → Forwarder Params → Bool × Forwarder Params
  unfolding should_emit
  is_emitted debounce_delay now (ProviderEvent.on_move p) f =
      let (emit, timer) = should_emit on_move_period now f.on_move_timer in
      (emit, record f { on_move_timer = timer })
  is_emitted debounce_delay now (ProviderEvent.on_typed p) f =
      let (emit, timer) = should_emit debounce_delay now f.on_typed_timer in
      (emit, record f { on_typed_timer = timer })
  is_emitted debounce_delay now (ProviderEvent.remote_sink p) f = (true, f)
  is_emitted debounce_delay now ProviderEvent.exit f = (true, f)
  is_emitted debounce_delay now (ProviderEvent.key k p) f = (true, f)
  is_emitted debounce_delay now (ProviderEvent.internal e) f = (true, f)

  -- `none` is the end of the task.
  abbrev pub send : Bool → ProviderEvent Params → Forwarder Params → Option (Forwarder Params)
  send receiving e f = if receiving then some (record f { sent = f.sent ++ e ∷ [] }) else none

  unfoldable pub emit_event :
      Bool → Bool → ProviderEvent Params → Forwarder Params → Option (Forwarder Params)
  unfolding is_same_type
  emit_event busy receiving e f =
      if busy
      then (if any (is_same_type e) f.event_cache
          then some f
          else some (record f { event_cache = f.event_cache ++ e ∷ [] }))
      else send receiving e f

  unfoldable pub pop_cached :
      List (ProviderEvent Params) → Forwarder Params → Option (Forwarder Params)
  pop_cached [] f = some f
  pop_cached (e ∷ es) f = some (record f { event_cache = es; sent = f.sent ++ e ∷ [] })

  unfoldable pub forward : ℕ → Arrival Params → Forwarder Params → Option (Forwarder Params)
  unfolding is_emitted emit_event pop_cached
  forward debounce_delay (arrived now busy receiving e) f =
      let (emit, f') = is_emitted debounce_delay now e f in
      if emit then emit_event busy receiving e f' else some f'
  forward debounce_delay (tick receiving) f = if receiving then pop_cached f.event_cache f else none

  -- The loop of the task.
  unfoldable pub forward_all :
      ℕ → List (Arrival Params) → Forwarder Params → Option (Forwarder Params)
  unfolding forward
  forward_all debounce_delay [] f = some f
  forward_all debounce_delay (a ∷ arrivals) f =
      forward debounce_delay a f >>= forward_all debounce_delay arrivals
