-- ===== src/Service/Forward/Moves.antt =====
-- The moves of the cursor that come too early for the task of `ProviderSession::new`.
use mathlib.Core.List.{append_assoc, append-nil}
use mathlib.Core.Path.{subst}
use vim_clap.Common.{
  All, ℕ, ◌+◌, ◌≤◌, ◌≡◌, refl, sym, ap, ◌∙◌, Bool, true, false, Option, none, some, List, [], ◌∷◌,
  ◌++◌, if◌then◌else◌, any, all, filter, arith, Bool-cases, inl, inr,
}
use vim_clap.Common.Options.{is_some, ◌>>=◌}
use vim_clap.Input.{ProviderEvent, is_same_type}
use vim_clap.Service.Forward.{
  on_move_period, Forwarder, Arrival, arrived, tick, should_emit, is_emitted, emit_event,
  pop_cached, forward, forward_all,
}
use vim_clap.Service.Forward.Cached.{is_received, is_some-forward}

too_early : (t now : ℕ) → now ≤ t + 200 → should_emit on_move_period now (some t) ≡ (false, some t)
unfolding should_emit
too_early t now h = ground arith

module _ {Params : Type 0} where
  abbrev pub is_move : ProviderEvent Params → Bool
  is_move (ProviderEvent.on_move p) = true
  is_move other = false

  -- The moves that the session was sent or will be, in this order.
  abbrev pub moves : Forwarder Params → List (ProviderEvent Params)
  moves f = filter is_move (f.sent ++ f.event_cache)

  -- A move comes no later than 200 ms after `t`; any other event, and a tick, comes at any time.
  abbrev pub IsEarly : ℕ → Arrival Params → Type 0
  IsEarly t (arrived now busy receiving (ProviderEvent.on_move p)) = now ≤ t + 200
  IsEarly t other = Unit

  -- The moves are those of before, and so is the time of the last one that was passed on.
  abbrev pub NoMove : ℕ → Forwarder Params → Forwarder Params → Type 0
  NoMove t f f' = (moves f' ≡ moves f) × (f'.on_move_timer ≡ some t)

  abbrev NoMoveResult : ℕ → Forwarder Params → Option (Forwarder Params) → Type 0
  NoMoveResult t f none = Unit
  NoMoveResult t f (some f') = NoMove t f f'

  filter-drop :
      (xs ys : List (ProviderEvent Params)) (e : ProviderEvent Params)
      → is_move e ≡ false
      → filter is_move (xs ++ e ∷ ys) ≡ filter is_move (xs ++ ys)
  filter-drop [] ys e h = ground arith
  filter-drop (x ∷ xs) ys e h = elim (Bool-cases (is_move x)) [
    | inl m ↦ rw m (ap (◌∷◌ x) (filter-drop xs ys e h))
    | inr m ↦ rw m (filter-drop xs ys e h)
  ]

  -- An event that is no move.
  emit-NoMove :
      (t : ℕ) (busy receiving : Bool) (e : ProviderEvent Params) (f : Forwarder Params)
      → is_move e ≡ false
      → f.on_move_timer ≡ some t
      → NoMoveResult t f (emit_event busy receiving e f)
  unfolding emit_event
  emit-NoMove t false true e f m h = (
    ap (filter is_move) (append_assoc f.sent (e ∷ []) f.event_cache)
        ∙ filter-drop f.sent f.event_cache e m,
    h,
  )
  emit-NoMove t false false e f m h = tt
  emit-NoMove t true receiving e f m h = elim (Bool-cases (any (is_same_type e) f.event_cache)) [
    | inl k ↦ rw k (refl, h)
    | inr k ↦ rw k (
      ap (filter is_move) (sym (append_assoc f.sent f.event_cache (e ∷ [])))
          ∙ filter-drop (f.sent ++ f.event_cache) [] e m
          ∙ ap (filter is_move) (append-nil (f.sent ++ f.event_cache)),
      h,
    )
  ]

  pop-NoMove :
      (t : ℕ) (cache : List (ProviderEvent Params)) (f : Forwarder Params)
      → f.event_cache ≡ cache
      → f.on_move_timer ≡ some t
      → NoMoveResult t f (pop_cached cache f)
  unfolding pop_cached
  pop-NoMove t [] f e h = (refl, h)
  pop-NoMove t (x ∷ xs) f e h =
      (ap (filter is_move) (append_assoc f.sent (x ∷ []) xs ∙ ap (λ l. f.sent ++ l) (sym e)), h)

  forward-NoMove :
      (delay t : ℕ) (a : Arrival Params) (f : Forwarder Params)
      → IsEarly t a
      → f.on_move_timer ≡ some t
      → NoMoveResult t f (forward delay a f)
  unfolding forward is_emitted
  forward-NoMove delay t (arrived now busy receiving (ProviderEvent.on_move p)) f i h =
      subst
        (λ q. NoMoveResult t f (
          if q.0
          then emit_event busy receiving (ProviderEvent.on_move p)
              (record f { on_move_timer = q.1 })
          else some (record f { on_move_timer = q.1 })))
        (sym (ap (should_emit on_move_period now) h ∙ too_early t now i)) (refl, refl)
  forward-NoMove delay t (arrived now busy receiving (ProviderEvent.on_typed p)) f i h =
      elim (Bool-cases (should_emit delay now f.on_typed_timer).0) [
        | inl k ↦ rw k (
            emit-NoMove t busy receiving (ProviderEvent.on_typed p)
              (record f { on_typed_timer = (should_emit delay now f.on_typed_timer).1 }) refl h)
        | inr k ↦ rw k (refl, h)
      ]
  forward-NoMove delay t (arrived now busy receiving (ProviderEvent.remote_sink p)) f i h =
      emit-NoMove t busy receiving (ProviderEvent.remote_sink p) f refl h
  forward-NoMove delay t (arrived now busy receiving ProviderEvent.exit) f i h =
      emit-NoMove t busy receiving ProviderEvent.exit f refl h
  forward-NoMove delay t (arrived now busy receiving (ProviderEvent.key ty p)) f i h =
      emit-NoMove t busy receiving (ProviderEvent.key ty p) f refl h
  forward-NoMove delay t (arrived now busy receiving (ProviderEvent.internal e)) f i h =
      emit-NoMove t busy receiving (ProviderEvent.internal e) f refl h
  forward-NoMove delay t (tick true) f i h = pop-NoMove t f.event_cache f refl h
  forward-NoMove delay t (tick false) f i h = tt

  some-NoMove :
      (t : ℕ) (f : Forwarder Params) (o : Option (Forwarder Params))
      → is_some o ≡ true
      → NoMoveResult t f o
      → (f' : Forwarder Params) × (o ≡ some f') × (NoMove t f f')
  some-NoMove t f none h k = ground arith
  some-NoMove t f (some f') h k = (f', refl, k)

  -- After a move of the cursor was passed on at a time, and as long as the session receives, all moves that come
  -- in the 200 ms from then are lost, whatever else arrives among them, whether the session is busy, and however
  -- often the task ticks: the moves that are sent or wait in the cache stay those of before, in their order, and
  -- the time from which moves are passed on again is not postponed.
  pub early_moves-dropped :
      (delay t : ℕ) (arrivals : List (Arrival Params)) (f : Forwarder Params)
      → f.on_move_timer ≡ some t
      → all is_received arrivals ≡ true
      → All (IsEarly t) arrivals
      → (f' : Forwarder Params) × (forward_all delay arrivals f ≡ some f') × (NoMove t f f')
  unfolding forward_all
  early_moves-dropped delay t [] f h r i = (f, refl, (refl, h))
  early_moves-dropped delay t (a ∷ arrivals) f h r i =
      let (f', e, same) =
        some-NoMove t f (forward delay a f) (is_some-forward delay a f (ground arith))
          (forward-NoMove delay t a f i.0 h) in
      let (f'', e', same') = early_moves-dropped delay t arrivals f' same.1 (ground arith) i.1 in
      (f'', ap (λ o. o >>= forward_all delay arrivals) e ∙ e', (same'.0 ∙ same.0, same'.1))
