-- ===== src/Service/Forward/Cached.antt =====
-- The events that wait in the task of `ProviderSession::new` while the session is busy.
use vim_clap.Common.{
  ℕ, ◌≡◌, refl, ap, ◌∙◌, Bool, true, false, not, ◌&&◌, Option, none, some, List, [], ◌∷◌, ◌++◌, any,
  all, arith, Bool-cases, inl, inr, any-append,
}
use vim_clap.Common.Options.{is_some, ◌>>=◌}
use vim_clap.Input.{ProviderEvent, is_same_type}
use vim_clap.Service.Forward.{
  Forwarder, Arrival, arrived, tick, new_forwarder, is_emitted, emit_event, pop_cached, forward,
  forward_all,
}

module _ {Params : Type 0} where
  same_type_comm : (x y : ProviderEvent Params) → is_same_type x y ≡ is_same_type y x
  unfolding is_same_type
  same_type_comm (ProviderEvent.on_move p) y = ground arith
  same_type_comm (ProviderEvent.on_typed p) y = ground arith
  same_type_comm (ProviderEvent.remote_sink p) y = ground arith
  same_type_comm ProviderEvent.exit y = ground arith
  same_type_comm (ProviderEvent.key ty p) y = ground arith
  same_type_comm (ProviderEvent.internal e) y = ground arith

  -- No two events of one type.
  abbrev pub is_distinct : List (ProviderEvent Params) → Bool
  is_distinct [] = true
  is_distinct (e ∷ es) = not (any (is_same_type e) es) && is_distinct es

  append-is_distinct :
      (es : List (ProviderEvent Params)) (e : ProviderEvent Params)
      → any (is_same_type e) es ≡ false
      → is_distinct es ≡ true
      → is_distinct (es ++ e ∷ []) ≡ true
  append-is_distinct [] e h k = refl
  append-is_distinct (x ∷ es) e h k =
      ground (
        arith,
        same_type_comm x e,
        append-is_distinct es e,
        any-append (is_same_type x) es (e ∷ []),
      )

  abbrev IsDistinctResult : Option (Forwarder Params) → Type 0
  IsDistinctResult none = Unit
  IsDistinctResult (some f) = is_distinct f.event_cache ≡ true

  emit-IsDistinct :
      (busy receiving : Bool) (e : ProviderEvent Params) (f : Forwarder Params)
      → is_distinct f.event_cache ≡ true
      → IsDistinctResult (emit_event busy receiving e f)
  unfolding emit_event
  emit-IsDistinct false true e f h = h
  emit-IsDistinct false false e f h = tt
  emit-IsDistinct true receiving e f h = elim (Bool-cases (any (is_same_type e) f.event_cache)) [
    | inl k ↦ rw k h
    | inr k ↦ rw k (append-is_distinct f.event_cache e k h)
  ]

  pop-IsDistinct :
      (cache : List (ProviderEvent Params)) (f : Forwarder Params)
      → is_distinct cache ≡ true
      → is_distinct f.event_cache ≡ true
      → IsDistinctResult (pop_cached cache f)
  unfolding pop_cached
  pop-IsDistinct [] f h k = k
  pop-IsDistinct (e ∷ es) f h k = ground arith

  is_emitted-same :
      (delay now : ℕ) (e : ProviderEvent Params) (f : Forwarder Params)
      → (is_emitted delay now e f).1.event_cache ≡ f.event_cache
  unfolding is_emitted
  is_emitted-same delay now (ProviderEvent.on_move p) f = refl
  is_emitted-same delay now (ProviderEvent.on_typed p) f = refl
  is_emitted-same delay now (ProviderEvent.remote_sink p) f = refl
  is_emitted-same delay now ProviderEvent.exit f = refl
  is_emitted-same delay now (ProviderEvent.key ty p) f = refl
  is_emitted-same delay now (ProviderEvent.internal e) f = refl

  forward-IsDistinct :
      (delay : ℕ) (a : Arrival Params) (f : Forwarder Params)
      → is_distinct f.event_cache ≡ true
      → IsDistinctResult (forward delay a f)
  unfolding forward
  forward-IsDistinct delay (tick true) f h = pop-IsDistinct f.event_cache f h h
  forward-IsDistinct delay (tick false) f h = tt
  forward-IsDistinct delay (arrived now busy receiving e) f h =
      let h' = ap is_distinct (is_emitted-same delay now e f) ∙ h in
      elim (Bool-cases (is_emitted delay now e f).0) [
        | inl k ↦ rw k (emit-IsDistinct busy receiving e (is_emitted delay now e f).1 h')
        | inr k ↦ rw k h'
      ]

  -- The session still receives.
  abbrev pub is_received : Arrival Params → Bool
  is_received (arrived now busy receiving e) = receiving
  is_received (tick receiving) = receiving

  is_some-pop :
      (cache : List (ProviderEvent Params)) (f : Forwarder Params)
      → is_some (pop_cached cache f) ≡ true
  unfolding pop_cached
  is_some-pop [] f = refl
  is_some-pop (e ∷ es) f = refl

  is_some-emit :
      (busy : Bool) (e : ProviderEvent Params) (f : Forwarder Params)
      → is_some (emit_event busy true e f) ≡ true
  unfolding emit_event
  is_some-emit false e f = refl
  is_some-emit true e f = ground arith

  pub is_some-forward :
      (delay : ℕ) (a : Arrival Params) (f : Forwarder Params)
      → is_received a ≡ true
      → is_some (forward delay a f) ≡ true
  unfolding forward
  is_some-forward delay (tick true) f h = is_some-pop f.event_cache f
  is_some-forward delay (tick false) f h = ground arith
  is_some-forward delay (arrived now busy true e) f h =
      elim (Bool-cases (is_emitted delay now e f).0) [
        | inl k ↦ rw k (is_some-emit busy e (is_emitted delay now e f).1)
        | inr k ↦ rw k refl
      ]
  is_some-forward delay (arrived now busy false e) f h = ground arith

  some-IsDistinct :
      (o : Option (Forwarder Params))
      → is_some o ≡ true
      → IsDistinctResult o
      → (f : Forwarder Params) × (o ≡ some f) × (is_distinct f.event_cache ≡ true)
  some-IsDistinct none h k = ground arith
  some-IsDistinct (some f) h k = (f, refl, k)

  run-IsDistinct :
      (delay : ℕ) (arrivals : List (Arrival Params)) (f : Forwarder Params)
      → all is_received arrivals ≡ true
      → is_distinct f.event_cache ≡ true
      → (f' : Forwarder Params) × (forward_all delay arrivals f ≡ some f')
        × (is_distinct f'.event_cache ≡ true)
  unfolding forward_all
  run-IsDistinct delay [] f r h = (f, refl, h)
  run-IsDistinct delay (a ∷ arrivals) f r h =
      let (f', e, h') =
        some-IsDistinct (forward delay a f) (is_some-forward delay a f (ground arith))
          (forward-IsDistinct delay a f h) in
      let (f'', e', h'') = run-IsDistinct delay arrivals f' (ground arith) h' in
      (f'', ap (λ o. o >>= forward_all delay arrivals) e ∙ e', h'')

  -- As long as the session receives, the task that passes the events on does not end, whatever events arrive,
  -- when, and whether the session is busy; and no two events of one type wait in its cache.
  pub forward_all-is_distinct :
      (delay : ℕ) (arrivals : List (Arrival Params))
      → all is_received arrivals ≡ true
      → (f : Forwarder Params) × (forward_all delay arrivals new_forwarder ≡ some f)
        × (is_distinct f.event_cache ≡ true)
  forward_all-is_distinct delay arrivals r = run-IsDistinct delay arrivals new_forwarder r refl
