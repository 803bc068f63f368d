-- ===== src/Service/Session/Ends.antt =====
-- How a session of crates/maple_core/src/stdio_server/service.rs ends: `on_terminate` of its provider.
use mathlib.Core.Path.{subst}
use vim_clap.Common.{
  ℕ, ◌≡◌, refl, sym, ap, ◌∙◌, Bool, true, false, ◌&&◌, Option, none, some, List, [], ◌∷◌, ◌++◌, inl,
  inr, if◌then◌else◌, is_empty, any, any-append, arith, leb, Bool-cases,
}
use vim_clap.Input.{ProviderEvent, initialize, terminate, initial_query}
use vim_clap.Service.Session.{
  on_initial_query, on_key_event, record_input, Call, Provider, Session, Wakeup, received, closed,
  typed_elapsed, moved_elapsed, wake, run_with_debounce, typed_due, moved_due, receive,
  initialize_calls, remote_sink_calls, start_session, after_internal, on_terminate,
}
use vim_clap.Service.Session.Typed.{run-step}
use vim_clap.Service.Session.Without.{handle_event, run_without_debounce}

module _ {Params : Type 0} where
  abbrev pub is_terminate : Call Params → Bool
  is_terminate Call.on_terminate = true
  is_terminate other = false

  -- Nothing is called after `on_terminate`.
  abbrev pub terminates_last : List (Call Params) → Bool
  terminates_last [] = true
  terminates_last (c ∷ cs) = if is_terminate c then is_empty cs else terminates_last cs

  terminates_last-append :
      (before cs : List (Call Params))
      → any is_terminate before ≡ false
      → terminates_last (before ++ cs) ≡ terminates_last cs
  terminates_last-append [] cs h = refl
  terminates_last-append (c ∷ before) cs h = ground (arith, terminates_last-append before cs)

  -- While the session runs, `on_terminate` was not called.
  abbrev pub IsOrderly : Bool → List (Call Params) → Type 0
  IsOrderly running calls =
      ((running && any is_terminate calls) ≡ false) × (terminates_last calls ≡ true)

  made-IsOrderly :
      (before cs : List (Call Params)) (running : Bool)
      → any is_terminate before ≡ false
      → IsOrderly running cs
      → IsOrderly running (before ++ cs)
  made-IsOrderly before cs running h k =
      ground (arith, any-append is_terminate before cs, terminates_last-append before cs h)

  module _ (provider : Provider Params) where
    remote_sink_calls-IsOrderly : (p : Params) → IsOrderly false (remote_sink_calls provider p)
    unfolding remote_sink_calls
    remote_sink_calls-IsOrderly p = ground arith

    initialize_calls-IsOrderly :
        (before : List (Call Params)) → IsOrderly true (initialize_calls provider before)
    unfolding initialize_calls
    initialize_calls-IsOrderly before = ground arith

    after_internal-IsOrderly :
        (cs : List (Call Params)) (flow : Option ℕ) (s : Session Params)
        → s.running ≡ true
        → any is_terminate s.calls ≡ false
        → IsOrderly true cs
        → IsOrderly
            (after_internal cs (some flow) s).running
            (after_internal cs (some flow) s).calls
    after_internal-IsOrderly cs none s r h k = rw r (made-IsOrderly s.calls cs true h k)
    after_internal-IsOrderly cs (some d) s r h k = rw r (made-IsOrderly s.calls cs true h k)

    receive-IsOrderly :
        (now : ℕ) (e : ProviderEvent Params) (s : Session Params)
        → s.running ≡ true
        → any is_terminate s.calls ≡ false
        → IsOrderly s.running s.calls
        → IsOrderly (receive provider now e s).running (receive provider now e s).calls
    unfolding receive
    receive-IsOrderly now (ProviderEvent.on_move p) s r h k = k
    receive-IsOrderly now (ProviderEvent.on_typed p) s r h k = k
    receive-IsOrderly now (ProviderEvent.remote_sink p) s r h k =
        made-IsOrderly s.calls (remote_sink_calls provider p) false h
          (remote_sink_calls-IsOrderly p)
    receive-IsOrderly now ProviderEvent.exit s r h k =
        made-IsOrderly s.calls (on_terminate ∷ []) false h (refl, refl)
    receive-IsOrderly now (ProviderEvent.key ty p) s r h k =
        rw r (made-IsOrderly s.calls (on_key_event ty p ∷ []) true h (refl, refl))
    receive-IsOrderly now (ProviderEvent.internal terminate) s r h k =
        made-IsOrderly s.calls (on_terminate ∷ []) false h (refl, refl)
    receive-IsOrderly now (ProviderEvent.internal (initial_query q)) s r h k =
        rw r (made-IsOrderly s.calls (on_initial_query q ∷ []) true h (refl, refl))
    receive-IsOrderly now (ProviderEvent.internal initialize) s r h k =
        after_internal-IsOrderly (initialize_calls provider s.calls)
          (provider.adaptive_debounce_delay (s.calls ++ initialize_calls provider s.calls)) s r h
          (initialize_calls-IsOrderly s.calls)

    typed_due-IsOrderly :
        (now : ℕ) (o : Option Params) (s : Session Params)
        → s.running ≡ true
        → any is_terminate s.calls ≡ false
        → IsOrderly s.running s.calls
        → IsOrderly (typed_due now o s).running (typed_due now o s).calls
    unfolding typed_due
    typed_due-IsOrderly now none s r h k = k
    typed_due-IsOrderly now (some p) s r h k = elim (Bool-cases (leb s.on_typed_timer now)) [
      | inl e ↦
          rw (e, r)
            (made-IsOrderly s.calls (record_input ∷ Call.on_typed ∷ Call.on_move ∷ []) true h
              (refl, refl))
      | inr e ↦ rw e k
    ]

    moved_due-IsOrderly :
        (now : ℕ) (o : Option Params) (s : Session Params)
        → s.running ≡ true
        → any is_terminate s.calls ≡ false
        → IsOrderly s.running s.calls
        → IsOrderly (moved_due now o s).running (moved_due now o s).calls
    unfolding moved_due
    moved_due-IsOrderly now none s r h k = k
    moved_due-IsOrderly now (some p) s r h k = elim (Bool-cases (leb s.on_move_timer now)) [
      | inl e ↦ rw (e, r) (made-IsOrderly s.calls (Call.on_move ∷ []) true h (refl, refl))
      | inr e ↦ rw e k
    ]

    wake-IsOrderly :
        (w : Wakeup Params) (s : Session Params)
        → s.running ≡ true
        → IsOrderly s.running s.calls
        → IsOrderly (wake provider w s).running (wake provider w s).calls
    unfolding wake
    wake-IsOrderly (received now e) s r k = receive-IsOrderly now e s r (ground arith) k
    wake-IsOrderly closed s r k = made-IsOrderly s.calls [] false (ground arith) (refl, refl)
    wake-IsOrderly (typed_elapsed now) s r k =
        typed_due-IsOrderly now s.on_typed s r (ground arith) k
    wake-IsOrderly (moved_elapsed now) s r k =
        moved_due-IsOrderly now s.on_move s r (ground arith) k

    run-ended :
        (ws : List (Wakeup Params)) (s : Session Params)
        → s.running ≡ false
        → run_with_debounce provider ws s ≡ s
    unfolding run_with_debounce
    run-ended [] s h = refl
    run-ended (w ∷ ws) s h =
        ap (λ b. run_with_debounce provider ws (if b then wake provider w s else s)) h
        ∙ run-ended ws s h

    run-IsOrderly :
        (ws : List (Wakeup Params)) (s : Session Params)
        → IsOrderly s.running s.calls
        → IsOrderly
            (run_with_debounce provider ws s).running
            (run_with_debounce provider ws s).calls
    unfolding run_with_debounce
    run-IsOrderly [] s k = k
    run-IsOrderly (w ∷ ws) s k = elim (Bool-cases s.running) [
      | inl r ↦
          subst (λ t. IsOrderly t.running t.calls) (sym (run-step provider w ws s r))
            (run-IsOrderly ws (wake provider w s) (wake-IsOrderly w s r k))
      | inr r ↦ subst (λ t. IsOrderly t.running t.calls) (sym (run-ended (w ∷ ws) s r)) k
    ]

    handle_event-IsOrderly :
        (e : ProviderEvent Params) (before : List (Call Params))
        → IsOrderly (handle_event provider e before).1 (handle_event provider e before).0
    unfolding handle_event
    handle_event-IsOrderly (ProviderEvent.on_move p) before = (refl, refl)
    handle_event-IsOrderly (ProviderEvent.on_typed p) before = (refl, refl)
    handle_event-IsOrderly (ProviderEvent.remote_sink p) before = remote_sink_calls-IsOrderly p
    handle_event-IsOrderly ProviderEvent.exit before = (refl, refl)
    handle_event-IsOrderly (ProviderEvent.key ty p) before = (refl, refl)
    handle_event-IsOrderly (ProviderEvent.internal terminate) before = (refl, refl)
    handle_event-IsOrderly (ProviderEvent.internal (initial_query q)) before = (refl, refl)
    handle_event-IsOrderly (ProviderEvent.internal initialize) before =
        initialize_calls-IsOrderly before

    without-IsOrderly :
        (es : List (ProviderEvent Params)) (before : List (Call Params))
        → IsOrderly true before
        → IsOrderly
            (run_without_debounce provider es before).1
            (run_without_debounce provider es before).0
    unfolding run_without_debounce
    without-IsOrderly [] before k = k
    without-IsOrderly (e ∷ es) before k =
        let made =
          made-IsOrderly before (handle_event provider e before).0
            (handle_event provider e before).1 k.0 (handle_event-IsOrderly e before) in
        elim (Bool-cases (handle_event provider e before).1) [
          | inl m ↦
              rw m
                (without-IsOrderly es (before ++ (handle_event provider e before).0) (rw m at made))
          | inr m ↦ rw m (refl, made.1)
        ]

    -- Whatever wakes a session, with debounce or without, and whatever the provider answers: as long as the
    -- session runs, `on_terminate` was not called, and where it was called nothing is called after it, so
    -- that it is called at most once.
    pub session-IsOrderly :
        (now debounce_delay : ℕ) (ws : List (Wakeup Params)) (es : List (ProviderEvent Params))
        → IsOrderly
            (run_with_debounce provider ws (start_session now debounce_delay)).running
            (run_with_debounce provider ws (start_session now debounce_delay)).calls
          × IsOrderly
              (run_without_debounce provider es []).1
              (run_without_debounce provider es []).0
    session-IsOrderly now debounce_delay ws es = (
      run-IsOrderly ws (start_session now debounce_delay) (refl, refl),
      without-IsOrderly es [] (refl, refl),
    )
