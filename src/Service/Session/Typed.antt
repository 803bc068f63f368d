-- ===== src/Service/Session/Typed.antt =====
-- An `OnTyped` event of a session with debounce, from its arrival to the call of the provider.
use vim_clap.Common.{
  sym, leb→le, ℕ, suc, ◌+◌, ◌≤◌, ◌≡◌, refl, ap, ◌∙◌, Bool, true, false, Option, none, some, List,
  [], ◌∷◌, ◌++◌, ◌⊎◌, inl, inr, if◌then◌else◌, all, count, count-append, arith, leb, Bool-cases,
}
use vim_clap.Input.{ProviderEvent, initialize, terminate, initial_query}
use vim_clap.Service.Session.{
  add_calls, record_input, on_initial_query, on_key_event, after_internal, Call, Provider, Session,
  Wakeup, never, received, closed, typed_elapsed, moved_elapsed, wake, run_with_debounce, typed_due,
  moved_due, receive, initialize_calls,
}
use mathlib.Core.Path.{subst}

module _ {Params : Type 0} where
  abbrev pub is_typed : Call Params → Bool
  is_typed Call.on_typed = true
  is_typed other = false

  abbrev pub typed_calls : Session Params → ℕ
  typed_calls s = count is_typed s.calls

  -- An event that neither ends the session nor is another `OnTyped`.
  abbrev pub is_quiet_event : ProviderEvent Params → Bool
  is_quiet_event (ProviderEvent.on_move p) = true
  is_quiet_event (ProviderEvent.on_typed p) = false
  is_quiet_event (ProviderEvent.remote_sink p) = false
  is_quiet_event ProviderEvent.exit = false
  is_quiet_event (ProviderEvent.key k p) = true
  is_quiet_event (ProviderEvent.internal terminate) = false
  is_quiet_event (ProviderEvent.internal initialize) = true
  is_quiet_event (ProviderEvent.internal (initial_query q)) = true

  abbrev pub is_quiet : Wakeup Params → Bool
  is_quiet (received now e) = is_quiet_event e
  is_quiet closed = false
  is_quiet (typed_elapsed now) = true
  is_quiet (moved_elapsed now) = true

  record IsWaiting (d n : ℕ) (s : Session Params) : Type 0 where
    runs : s.running ≡ true
    waits : (p : Params) × (s.on_typed ≡ some p)
    timer : s.on_typed_timer ≡ d
    before : typed_calls s ≡ n

  record IsHandled (n : ℕ) (s : Session Params) : Type 0 where
    runs : s.running ≡ true
    free : s.on_typed ≡ none
    after : typed_calls s ≡ suc n

  -- Nothing but the calls of other methods has happened.
  record IsSame (s t : Session Params) : Type 0 where
    runs : t.running ≡ s.running
    waits : t.on_typed ≡ s.on_typed
    timer : t.on_typed_timer ≡ s.on_typed_timer
    made : typed_calls t ≡ typed_calls s

  after_initialize-IsSame :
      (cs : List (Call Params)) (flow : Option ℕ) (s : Session Params)
      → count is_typed cs ≡ 0
      → IsSame s (after_internal cs (some flow) s)
  after_initialize-IsSame cs none s h = record {
    runs = refl;
    waits = refl;
    timer = refl;
    made = omega (arith, h, count-append {0} is_typed s.calls cs);
  }
  after_initialize-IsSame cs (some d) s h = record {
    runs = refl;
    waits = refl;
    timer = refl;
    made = omega (arith, h, count-append {0} is_typed s.calls cs);
  }

  all-append :
      (xs ys : List (Wakeup Params))
      → all is_quiet xs ≡ true
      → all is_quiet ys ≡ true
      → all is_quiet (xs ++ ys) ≡ true
  all-append [] ys h k = k
  all-append (x ∷ xs) ys h k = ground (arith, all-append xs ys)

  same-IsWaiting : {d n : ℕ} {s t : Session Params} → IsSame s t → IsWaiting d n s → IsWaiting d n t
  same-IsWaiting e w = record {
    runs = e.runs ∙ w.runs;
    waits = (w.waits.0, e.waits ∙ w.waits.1);
    timer = e.timer ∙ w.timer;
    before = e.made ∙ w.before;
  }

  same-IsHandled : {n : ℕ} {s t : Session Params} → IsSame s t → IsHandled n s → IsHandled n t
  same-IsHandled e w = record {
    runs = e.runs ∙ w.runs;
    free = e.waits ∙ w.free;
    after = e.made ∙ w.after;
  }

  typed_due-IsHandled :
      (d n now : ℕ) (p : Params) (s : Session Params)
      → IsWaiting d n s
      → leb s.on_typed_timer now ≡ true
      → IsHandled n (typed_due now (some p) s)
  unfolding typed_due
  typed_due-IsHandled d n now p s w due = rw due (record {
    runs = w.runs;
    free = refl;
    after = omega (
      arith,
      w.before,
      count-append {0} is_typed s.calls (record_input ∷ Call.on_typed ∷ Call.on_move ∷ []),
    );
  })

  moved_due-IsSame :
      (now : ℕ) (o : Option Params) (s : Session Params) → IsSame s (moved_due now o s)
  unfolding moved_due
  moved_due-IsSame now none s = record { runs = refl; waits = refl; timer = refl; made = refl }
  moved_due-IsSame now (some p) s = elim (Bool-cases (leb s.on_move_timer now)) [
    | inl e ↦ rw e record {
      runs = refl;
      waits = refl;
      timer = refl;
      made = ground (arith, count-append {0} is_typed s.calls (Call.on_move ∷ []));
    }
    | inr e ↦ rw e record { runs = refl; waits = refl; timer = refl; made = refl }
  ]

  module _ (provider : Provider Params) where
    count-initialize_calls :
        (before : List (Call Params)) → count is_typed (initialize_calls provider before) ≡ 0
    unfolding initialize_calls
    count-initialize_calls before = ground arith

    receive-IsSame :
        (now : ℕ) (e : ProviderEvent Params) (s : Session Params)
        → is_quiet_event e ≡ true
        → IsSame s (receive provider now e s)
    unfolding receive
    receive-IsSame now (ProviderEvent.on_move p) s h = record {
      runs = refl;
      waits = refl;
      timer = refl;
      made = refl;
    }
    receive-IsSame now (ProviderEvent.on_typed p) s h = ground arith
    receive-IsSame now (ProviderEvent.remote_sink p) s h = ground arith
    receive-IsSame now ProviderEvent.exit s h = ground arith
    receive-IsSame now (ProviderEvent.key k p) s h = record {
      runs = refl;
      waits = refl;
      timer = refl;
      made = ground (arith, count-append {0} is_typed s.calls (on_key_event k p ∷ []));
    }
    receive-IsSame now (ProviderEvent.internal terminate) s h = ground arith
    receive-IsSame now (ProviderEvent.internal (initial_query q)) s h = record {
      runs = refl;
      waits = refl;
      timer = refl;
      made = ground (arith, count-append {0} is_typed s.calls (on_initial_query q ∷ []));
    }
    receive-IsSame now (ProviderEvent.internal initialize) s h =
        after_initialize-IsSame (initialize_calls provider s.calls)
          (provider.adaptive_debounce_delay (s.calls ++ initialize_calls provider s.calls)) s
          (count-initialize_calls s.calls)

    wake-IsHandled :
        (w : Wakeup Params) (n : ℕ) (s : Session Params)
        → is_quiet w ≡ true
        → IsHandled n s
        → IsHandled n (wake provider w s)
    unfolding wake typed_due
    wake-IsHandled (received now e) n s q h = same-IsHandled (receive-IsSame now e s q) h
    wake-IsHandled closed n s q h = ground arith
    wake-IsHandled (typed_elapsed now) n s q h =
        subst (λ o. IsHandled n (typed_due now o s)) (sym h.free) h
    wake-IsHandled (moved_elapsed now) n s q h = same-IsHandled (moved_due-IsSame now s.on_move s) h

    -- A timer that elapses in time handles the event.
    elapsed-IsHandled :
        (now d n : ℕ) (s : Session Params)
        → d ≤ now
        → IsWaiting d n s
        → IsHandled n (wake provider (typed_elapsed now) s)
    unfolding wake
    elapsed-IsHandled now d n s le w =
        subst (λ o. IsHandled n (typed_due now o s)) (sym w.waits.1)
          (typed_due-IsHandled d n now w.waits.0 s w (ground (arith, w.timer)))

    wake-IsWaiting :
        (w : Wakeup Params) (d n : ℕ) (s : Session Params)
        → is_quiet w ≡ true
        → IsWaiting d n s
        → IsWaiting d n (wake provider w s) ⊎ IsHandled n (wake provider w s)
    unfolding wake typed_due
    wake-IsWaiting (received now e) d n s q h = inl (same-IsWaiting (receive-IsSame now e s q) h)
    wake-IsWaiting closed d n s q h = ground arith
    wake-IsWaiting (moved_elapsed now) d n s q h =
        inl (same-IsWaiting (moved_due-IsSame now s.on_move s) h)
    wake-IsWaiting (typed_elapsed now) d n s q h = elim (Bool-cases (leb d now)) [
      | inl e ↦ inr (elapsed-IsHandled now d n s (leb→le d now e) h)
      | inr e ↦
          let early : leb s.on_typed_timer now ≡ false = ground (arith, h.timer) in
          inl (
            subst (λ o. IsWaiting d n (typed_due now o s)) (sym h.waits.1)
              (subst
                (λ b. IsWaiting d n (
                  if b
                  then add_calls (record_input ∷ Call.on_typed ∷ Call.on_move ∷ [])
                      (record s { on_typed = none; on_typed_timer = now + never })
                  else s))
                (sym early) h))
    ]

    pub run-step :
        (w : Wakeup Params) (ws : List (Wakeup Params)) (s : Session Params)
        → s.running ≡ true
        → run_with_debounce provider (w ∷ ws) s ≡ run_with_debounce provider ws (wake provider w s)
    unfolding run_with_debounce
    run-step w ws s h =
        ap (λ b. run_with_debounce provider ws (if b then wake provider w s else s)) h

    run-IsHandled :
        (ws : List (Wakeup Params)) (n : ℕ) (s : Session Params)
        → all is_quiet ws ≡ true
        → IsHandled n s
        → IsHandled n (run_with_debounce provider ws s)
    unfolding run_with_debounce
    run-IsHandled [] n s q h = h
    run-IsHandled (w ∷ ws) n s q h = subst (IsHandled n) (sym (run-step w ws s h.runs)) (
        run-IsHandled ws n (wake provider w s) (ground arith)
          (wake-IsHandled w n s (ground arith) h))

    run-IsWaiting :
        (ws : List (Wakeup Params)) (now d n : ℕ) (s : Session Params)
        → all is_quiet ws ≡ true
        → d ≤ now
        → IsWaiting d n s
        → IsHandled n (run_with_debounce provider (ws ++ typed_elapsed now ∷ []) s)
    unfolding run_with_debounce
    run-IsWaiting [] now d n s q le h =
        subst (IsHandled n) (sym (run-step (typed_elapsed now) [] s h.runs))
          (elapsed-IsHandled now d n s le h)
    run-IsWaiting (w ∷ ws) now d n s q le h =
        subst (IsHandled n) (sym (run-step w (ws ++ typed_elapsed now ∷ []) s h.runs))
          (elim (wake-IsWaiting w d n s (ground arith) h) [
            | inl h' ↦ run-IsWaiting ws now d n (wake provider w s) (ground arith) le h'
            | inr h' ↦
                run-IsHandled (ws ++ typed_elapsed now ∷ []) n (wake provider w s)
                  (all-append ws (typed_elapsed now ∷ []) (ground arith) refl) h'
          ])

    -- An `OnTyped` event that a running session receives is handled exactly once: if the timer elapses no
    -- earlier than the delay after the event, and what wakes the session in between neither ends it nor is
    -- another `OnTyped`, then the session still runs, has called `on_typed` once more, and waits for none.
    pub on_typed-once :
        (t now : ℕ) (p : Params) (ws : List (Wakeup Params)) (s : Session Params)
        → s.running ≡ true
        → all is_quiet ws ≡ true
        → t + s.on_typed_delay ≤ now
        → ((run_with_debounce provider
              (received t (ProviderEvent.on_typed p) ∷ ws ++ typed_elapsed now ∷ [])
              s).running
            ≡ true)
          × ((run_with_debounce provider
                (received t (ProviderEvent.on_typed p) ∷ ws ++ typed_elapsed now ∷ [])
                s).on_typed
              ≡ none)
          × (typed_calls (
                run_with_debounce provider
                  (received t (ProviderEvent.on_typed p) ∷ ws ++ typed_elapsed now ∷ [])
                  s)
              ≡ suc (typed_calls s))
    unfolding wake receive
    on_typed-once t now p ws s r q le =
        let end =
          run-IsWaiting ws now (t + s.on_typed_delay) (typed_calls s)
            (receive provider t (ProviderEvent.on_typed p) s) q le
            (record { runs = r; waits = (p, refl); timer = refl; before = refl }) in
        let h =
          subst (IsHandled (typed_calls s))
            (sym
              (run-step (received t (ProviderEvent.on_typed p)) (ws ++ typed_elapsed now ∷ []) s r))
            end in
        (h.runs, h.free, h.after)
