-- ===== src/Service/Plugins.antt =====
-- `PluginSession` of crates/maple_core/src/stdio_server/service.rs: the event loops of a plugin.
use mathlib.Core.List.{append-nil, append_assoc}
use vim_clap.Common.{
  ℕ, ◌+◌, ◌≡◌, refl, ◌∙◌, sym, ap, Bool, true, false, not, Option, none, some, List, [], ◌∷◌, ◌++◌,
  if◌then◌else◌, leb, filter, arith, Bool-cases, inl, inr,
}
use vim_clap.Input.{PluginEvent, should_debounce}
use vim_clap.Service.Session.{never}

module _ (Params : Type 0) where
  -- `handled`: the events that were given to `handle_autocmd` and `handle_action`, in order. Their
  -- errors are only logged.
  pub record PluginSession : Type 0 where
    pub running : Bool
    pub pending_plugin_event : Option (PluginEvent Params)
    pub notification_timer : ℕ
    pub handled : List (PluginEvent Params)

  pub data PluginWakeup : Type 0 where
    received : ℕ → PluginEvent Params → PluginWakeup
    closed : PluginWakeup
    elapsed : ℕ → PluginWakeup

module _ {Params : Type 0} where
  abbrev pub start_plugin : ℕ → PluginSession Params
  start_plugin now = record {
    running = true;
    pending_plugin_event = none;
    notification_timer = now + never;
    handled = [];
  }

  unfoldable pub notify_elapsed :
      ℕ → Option (PluginEvent Params) → PluginSession Params → PluginSession Params
  notify_elapsed now none s = s
  notify_elapsed now (some e) s =
      if leb s.notification_timer now
      then record s {
        pending_plugin_event = none;
        notification_timer = now + never;
        handled = s.handled ++ e ∷ [];
      }
      else s

  unfoldable pub wake_plugin : ℕ → PluginWakeup Params → PluginSession Params → PluginSession Params
  unfolding should_debounce notify_elapsed
  wake_plugin event_delay (received now e) s =
      if should_debounce e
      then record s { pending_plugin_event = some e; notification_timer = now + event_delay }
      else record s { handled = s.handled ++ e ∷ [] }
  wake_plugin event_delay closed s = record s { running = false }
  wake_plugin event_delay (elapsed now) s = notify_elapsed now s.pending_plugin_event s

  -- `start_event_loop`
  unfoldable pub run_plugin :
      ℕ → List (PluginWakeup Params) → PluginSession Params → PluginSession Params
  unfolding wake_plugin
  run_plugin event_delay [] s = s
  run_plugin event_delay (w ∷ ws) s =
      run_plugin event_delay ws (if s.running then wake_plugin event_delay w s else s)

  -- `start_event_loop_without_debounce`
  unfoldable pub run_plugin_without_debounce :
      List (PluginEvent Params) → List (PluginEvent Params) → List (PluginEvent Params)
  run_plugin_without_debounce [] handled = handled
  run_plugin_without_debounce (e ∷ es) handled = run_plugin_without_debounce es (handled ++ e ∷ [])

  -- The events that are received before the channel is closed.
  abbrev pub received_events : List (PluginWakeup Params) → List (PluginEvent Params)
  received_events [] = []
  received_events (received now e ∷ ws) = e ∷ received_events ws
  received_events (closed ∷ ws) = []
  received_events (elapsed now ∷ ws) = received_events ws

  abbrev pub is_immediate : PluginEvent Params → Bool
  is_immediate e = not (should_debounce e)

  filter-append :
      (p : PluginEvent Params → Bool) (xs ys : List (PluginEvent Params))
      → filter p (xs ++ ys) ≡ filter p xs ++ filter p ys
  filter-append p [] ys = refl
  filter-append p (x ∷ xs) ys = ground (arith, filter-append p xs ys)

  filter-waiting :
      (e : PluginEvent Params) (xs : List (PluginEvent Params))
      → should_debounce e ≡ true
      → filter is_immediate (xs ++ e ∷ []) ≡ filter is_immediate xs
  filter-waiting e xs h =
      filter-append is_immediate xs (e ∷ [])
      ∙ ap (λ b. filter is_immediate xs ++ (if not b then e ∷ [] else [])) h
      ∙ append-nil (filter is_immediate xs)

  -- What waits is an event that should wait.
  abbrev IsWaiting : Option (PluginEvent Params) → Type 0
  IsWaiting none = Unit
  IsWaiting (some e) = should_debounce e ≡ true

  elapsed-immediate :
      (now : ℕ) (o : Option (PluginEvent Params)) (s : PluginSession Params)
      → IsWaiting o
      → IsWaiting s.pending_plugin_event
      → (filter is_immediate (notify_elapsed now o s).handled ≡ filter is_immediate s.handled)
        × IsWaiting (notify_elapsed now o s).pending_plugin_event
        × ((notify_elapsed now o s).running ≡ s.running)
  unfolding notify_elapsed
  elapsed-immediate now none s h k = (refl, k, refl)
  elapsed-immediate now (some e) s h k = elim (Bool-cases (leb s.notification_timer now)) [
    | inl d ↦ rw d (filter-waiting e s.handled h, tt, refl)
    | inr d ↦ rw d (refl, k, refl)
  ]

  run-ended :
      (event_delay : ℕ) (ws : List (PluginWakeup Params)) (s : PluginSession Params)
      → s.running ≡ false
      → run_plugin event_delay ws s ≡ s
  unfolding run_plugin
  run-ended event_delay [] s h = refl
  run-ended event_delay (w ∷ ws) s h =
      ap (λ b. run_plugin event_delay ws (if b then wake_plugin event_delay w s else s)) h
      ∙ run-ended event_delay ws s h

  run-first :
      (event_delay now : ℕ) (e : PluginEvent Params) (ws : List (PluginWakeup Params))
      (s : PluginSession Params)
      → s.running ≡ true
      → filter is_immediate (run_plugin event_delay (received now e ∷ ws) s).handled
        ≡ filter is_immediate
            (run_plugin event_delay ws (wake_plugin event_delay (received now e) s)).handled
  unfolding run_plugin
  run-first event_delay now e ws s r =
      ap
        (λ b.
          filter is_immediate
            (run_plugin event_delay ws
              (if b then wake_plugin event_delay (received now e) s else s)).handled)
        r

  run-immediate :
      (event_delay : ℕ) (ws : List (PluginWakeup Params)) (s : PluginSession Params)
      → s.running ≡ true
      → IsWaiting s.pending_plugin_event
      → filter is_immediate (run_plugin event_delay ws s).handled
        ≡ filter is_immediate s.handled ++ filter is_immediate (received_events ws)
  unfolding run_plugin wake_plugin
  run-immediate event_delay [] s r k = sym (append-nil (filter is_immediate s.handled))
  run-immediate event_delay (closed ∷ ws) s r k =
      ap
        (λ b.
          filter is_immediate
            (run_plugin event_delay ws (if b then record s { running = false } else s)).handled)
        r
      ∙ ap (λ t. filter is_immediate t.handled)
          (run-ended event_delay ws (record s { running = false }) refl)
      ∙ sym (append-nil (filter is_immediate s.handled))
  run-immediate event_delay (elapsed now ∷ ws) s r k =
      let (same, waits, runs) = elapsed-immediate now s.pending_plugin_event s k k in
      let t = notify_elapsed now s.pending_plugin_event s in
      ap (λ b. filter is_immediate (run_plugin event_delay ws (if b then t else s)).handled) r
      ∙ run-immediate event_delay ws t (runs ∙ r) waits
      ∙ ap (λ l. l ++ filter is_immediate (received_events ws)) same
  run-immediate event_delay (received now e ∷ ws) s r k = elim (Bool-cases (should_debounce e)) [
    | inl d ↦
        let t = record s {
          pending_plugin_event = some e;
          notification_timer = now + event_delay;
        } in
        run-first event_delay now e ws s r
        ∙ ap
            (λ b.
              filter is_immediate
                (run_plugin event_delay ws
                  (if b then t else record s { handled = s.handled ++ e ∷ [] })).handled)
            d
        ∙ run-immediate event_delay ws t r d
        ∙ ap
            (λ b.
              filter is_immediate s.handled
              ++ (if not b
                  then e ∷ filter is_immediate (received_events ws)
                  else filter is_immediate (received_events ws)))
            (sym d)
    | inr d ↦
        let t = record s { handled = s.handled ++ e ∷ [] } in
        run-first event_delay now e ws s r
        ∙ ap
            (λ b.
              filter is_immediate
                (run_plugin event_delay ws (
                  if b
                  then record s {
                    pending_plugin_event = some e;
                    notification_timer = now + event_delay;
                  }
                  else t)).handled)
            d
        ∙ run-immediate event_delay ws t r k
        ∙ ap (λ l. l ++ filter is_immediate (received_events ws))
            (filter-append is_immediate s.handled (e ∷ []))
        ∙ append_assoc (filter is_immediate s.handled) (filter is_immediate (e ∷ []))
            (filter is_immediate (received_events ws))
        ∙ ap
            (λ b.
              filter is_immediate s.handled
              ++ ((if not b then e ∷ [] else []) ++ filter is_immediate (received_events ws)))
            d
        ∙ ap
            (λ b.
              filter is_immediate s.handled
              ++ (if not b
                  then e ∷ filter is_immediate (received_events ws)
                  else filter is_immediate (received_events ws)))
            (sym d)
  ]

  run_without-append :
      (es handled : List (PluginEvent Params))
      → run_plugin_without_debounce es handled ≡ handled ++ es
  unfolding run_plugin_without_debounce
  run_without-append [] handled = sym (append-nil handled)
  run_without-append (e ∷ es) handled =
      run_without-append es (handled ++ e ∷ []) ∙ append_assoc handled (e ∷ []) es

  -- A plugin session loses and reorders no event that is not debounced: whatever the delay, the times and the
  -- debounced events among them, those that were handled are those that were received before the
  -- channel was closed, each once and in the order of their arrival; and without debounce so are all events.
  pub run_plugin-immediate :
      (now event_delay : ℕ) (ws : List (PluginWakeup Params)) (es : List (PluginEvent Params))
      → (filter is_immediate (run_plugin event_delay ws (start_plugin now)).handled
          ≡ filter is_immediate (received_events ws))
        × (run_plugin_without_debounce es [] ≡ es)
  run_plugin-immediate now event_delay ws es =
      (run-immediate event_delay ws (start_plugin now) refl tt, run_without-append es [])
