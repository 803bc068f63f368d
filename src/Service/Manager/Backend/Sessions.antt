-- ===== src/Service/Manager/Backend/Sessions.antt =====
-- The sessions of providers along the notifications of `Backend` of
-- crates/maple_core/src/stdio_server/mod.rs.
use mathlib.Core.List.{append-nil, append_assoc}
use vim_clap.Common.{
  leb, ℕ, ◌≤◌, ◌≡◌, refl, sym, ap, ◌∙◌, Bool, true, false, not, ◌&&◌, ◌==◌, Option, none, some,
  List, [], ◌∷◌, ◌++◌, map, filter, any, if◌then◌else◌, length, arith, Bool-cases, Option-cases,
  inl, inr,
}
use vim_clap.Text.{codes, text_eq, Text}
use vim_clap.Rpc.{Params}
use vim_clap.Input.{ProviderEvent, Event, initialize, terminate, parse_notification}
use vim_clap.Service.Session.{is_ending}
use vim_clap.Service.Manager.{
  Plugin, ServiceManager, exists, terminate_all, insert_provider, new_provider, notify_plugins,
  notify_plugin_action, notify_provider, notify_provider_exit, try_exit,
}
use vim_clap.Service.Manager.Backend.{
  start_backend, is_list_plugins, Outside, ActionEvent, Notification, parse_action, session_of,
  dispatch, do_process_notification, kept_on_error, process_for, process_notification,
  process_pending, Backend, Message, notification, elapsed, process_message, run,
}

abbrev Sent : Type 0
Sent = List (ℕ × ProviderEvent Params)

-- The last message to a session.
abbrev pub last_sent : ℕ → Sent → Option (ProviderEvent Params)
last_sent i [] = none
last_sent i ((j, e) ∷ sent) = elim (last_sent i sent) [
  | some e' ↦ some e'
  | none ↦ if j == i then some e else none
]

-- No message was sent, or the last one ends the session.
abbrev pub is_stopped : Option (ProviderEvent Params) → Bool
is_stopped none = true
is_stopped (some e) = is_ending e

last_sent-append :
    (i j : ℕ) (e : ProviderEvent Params) (sent : Sent)
    → last_sent i (sent ++ (j, e) ∷ []) ≡ (if j == i then some e else last_sent i sent)
last_sent-append i j e [] = refl
last_sent-append i j e ((k, e') ∷ sent) = ground (arith, last_sent-append i j e sent)

-- At most one session is known, and each other one was told to stop.
pub record IsManaged (m : ServiceManager Params) : Type 0 where
  pub one : length m.providers ≤ 1
  pub stopped : (i : ℕ) → exists i m ≡ false → is_stopped (last_sent i m.sent) ≡ true

stopped-terminated :
    (i : ℕ) (ps : List ℕ) (sent : Sent)
    → (any (λ j. j == i) ps ≡ false → is_stopped (last_sent i sent) ≡ true)
    → is_stopped (last_sent i (sent ++ map (λ j. (j, ProviderEvent.internal terminate)) ps)) ≡ true
stopped-terminated i [] sent h = ap (λ l. is_stopped (last_sent i l)) (append-nil sent) ∙ h refl
stopped-terminated i (p ∷ ps) sent h =
    ap (λ l. is_stopped (last_sent i l))
      (sym (append_assoc sent ((p, ProviderEvent.internal terminate) ∷ []) _))
    ∙ stopped-terminated i ps (sent ++ (p, ProviderEvent.internal terminate) ∷ []) (λ none_left.
      ap is_stopped (last_sent-append i p (ProviderEvent.internal terminate) sent)
      ∙ (elim (Bool-cases (p == i)) [
        | inl e ↦
            ap
              (λ b.
                is_stopped
                  (if b then some (ProviderEvent.internal terminate) else last_sent i sent))
              e
        | inr e ↦
            ap
              (λ b.
                is_stopped
                  (if b then some (ProviderEvent.internal terminate) else last_sent i sent))
              e
            ∙ h (ground arith)
      ]))

terminate_all-IsManaged : (m : ServiceManager Params) → IsManaged m → IsManaged (terminate_all m)
unfolding terminate_all exists
terminate_all-IsManaged m h = record {
  one = omega arith;
  stopped = λ i e. stopped-terminated i m.providers m.sent (h.stopped i);
}

-- Another session's messages do not count.
sent_to-stopped :
    (i j : ℕ) (e : ProviderEvent Params) (sent : Sent)
    → (j == i) ≡ false
    → is_stopped (last_sent i sent) ≡ true
    → is_stopped (last_sent i (sent ++ (j, e) ∷ [])) ≡ true
sent_to-stopped i j e sent ne h =
    ap is_stopped (last_sent-append i j e sent)
    ∙ ap (λ b. is_stopped (if b then some e else last_sent i sent)) ne
    ∙ h

new_provider-IsManaged :
    (id : ℕ) (m : ServiceManager Params) → IsManaged m → IsManaged (new_provider id m)
unfolding new_provider terminate_all insert_provider exists
new_provider-IsManaged id m h = record {
  one = omega arith;
  stopped = λ i e.
      sent_to-stopped i id (ProviderEvent.internal initialize) (terminate_all m).sent (ground arith)
        ((terminate_all-IsManaged m h).stopped i refl);
}

known_other :
    (id i : ℕ) (ps : List ℕ)
    → any (λ j. j == id) ps ≡ true
    → any (λ j. j == i) ps ≡ false
    → (id == i) ≡ false
known_other id i [] k gone = ground arith
known_other id i (p ∷ ps) k gone = ground (arith, known_other id i ps)

notify_provider-IsManaged :
    (id : ℕ) (e : ProviderEvent Params) (m : ServiceManager Params)
    → IsManaged m
    → IsManaged (notify_provider id e m)
unfolding notify_provider exists
notify_provider-IsManaged id e m h = elim (Bool-cases (any (λ j. j == id) m.providers)) [
  | inl k ↦ rw k (record {
    one = h.one;
    stopped = λ i gone.
        sent_to-stopped i id e m.sent (known_other id i m.providers k gone) (h.stopped i gone);
  })
  | inr k ↦ rw k h
]

any-remove :
    (id i : ℕ) (ps : List ℕ)
    → any (λ j. j == i) (filter (λ j. not (j == id)) ps) ≡ false
    → (id == i) ≡ false
    → any (λ j. j == i) ps ≡ false
any-remove id i [] h k = refl
any-remove id i (p ∷ ps) h k = ground (arith, any-remove id i ps)

length-filter : (p : ℕ → Bool) (xs : List ℕ) → length (filter p xs) ≤ length xs
length-filter p [] = omega arith
length-filter p (x ∷ xs) = ground (arith, length-filter p xs)

notify_provider_exit-IsManaged :
    (id : ℕ) (m : ServiceManager Params) → IsManaged m → IsManaged (notify_provider_exit id m)
unfolding notify_provider_exit exists
notify_provider_exit-IsManaged id m h = elim (Bool-cases (any (λ j. j == id) m.providers)) [
  | inr k ↦ rw k h
  | inl k ↦ rw k (record {
    one = omega (arith, h.one, length-filter (λ j. not (j == id)) m.providers);
    stopped = λ i gone. elim (Bool-cases (id == i)) [
      | inl e ↦
          ap is_stopped (last_sent-append i id ProviderEvent.exit m.sent)
          ∙ ap (λ b. is_stopped (if b then some ProviderEvent.exit else last_sent i m.sent)) e
      | inr e ↦
          sent_to-stopped i id ProviderEvent.exit m.sent e
            (h.stopped i (any-remove id i m.providers gone e))
    ];
  })
]

chosen-IsManaged :
    (b : Bool) (m m' : ServiceManager Params)
    → IsManaged m
    → IsManaged m'
    → IsManaged (if b then m else m')
chosen-IsManaged true m m' h k = h
chosen-IsManaged false m m' h k = k

try_exit-IsManaged : (id : ℕ) (m : ServiceManager Params) → IsManaged m → IsManaged (try_exit id m)
unfolding try_exit
try_exit-IsManaged id m h =
    chosen-IsManaged (exists id m) _ m (notify_provider_exit-IsManaged id m h) h

-- Nothing that concerns plugins changes the sessions.
same-IsManaged :
    (m m' : ServiceManager Params)
    → m'.providers ≡ m.providers
    → m'.sent ≡ m.sent
    → IsManaged m
    → IsManaged m'
unfolding exists
same-IsManaged m m' p q h = record {
  one = omega (arith, h.one, ap length p);
  stopped = λ i gone.
      ap (λ s. is_stopped (last_sent i s)) q ∙ h.stopped i (ap (any (λ j. j == i)) (sym p) ∙ gone);
}

notify_plugin_action-IsManaged :
    (receives : Text → Bool) (id method : Text) (p : Params) (m : ServiceManager Params)
    → IsManaged m
    → IsManaged (notify_plugin_action receives id method p m)
unfolding notify_plugin_action
notify_plugin_action-IsManaged receives id method p m h =
    same-IsManaged m (notify_plugin_action receives id method p m) (ground arith) (ground arith) h

-- A state that is kept on an error.
abbrev IsManagedResult : Option (ServiceManager Params) → Type 0
IsManagedResult none = Unit
IsManagedResult (some m) = IsManaged m

module _ (out : Outside) (plugin_actions : List (Text × List Text)) where
  dispatch-IsManaged :
      (session : Option ℕ) (event : Event Params ActionEvent) (m : ServiceManager Params)
      → IsManaged m
      → IsManagedResult (dispatch out plugin_actions session event m)
  unfolding dispatch notify_plugins
  dispatch-IsManaged none (Event.new_provider p) m h = tt
  dispatch-IsManaged (some id) (Event.new_provider p) m h = elim (Bool-cases (out.can_create p)) [
    | inl c ↦ rw c (new_provider-IsManaged id m h)
    | inr c ↦ rw c tt
  ]
  dispatch-IsManaged none (Event.provider_worker ProviderEvent.exit) m h = tt
  dispatch-IsManaged (some id) (Event.provider_worker ProviderEvent.exit) m h =
      notify_provider_exit-IsManaged id m h
  dispatch-IsManaged none (Event.provider_worker (ProviderEvent.on_move p)) m h = tt
  dispatch-IsManaged none (Event.provider_worker (ProviderEvent.on_typed p)) m h = tt
  dispatch-IsManaged none (Event.provider_worker (ProviderEvent.remote_sink p)) m h = tt
  dispatch-IsManaged none (Event.provider_worker (ProviderEvent.key ty p)) m h = tt
  dispatch-IsManaged none (Event.provider_worker (ProviderEvent.internal e)) m h = tt
  dispatch-IsManaged (some id) (Event.provider_worker (ProviderEvent.on_move p)) m h =
      notify_provider-IsManaged id _ m h
  dispatch-IsManaged (some id) (Event.provider_worker (ProviderEvent.on_typed p)) m h =
      notify_provider-IsManaged id _ m h
  dispatch-IsManaged (some id) (Event.provider_worker (ProviderEvent.remote_sink p)) m h =
      notify_provider-IsManaged id _ m h
  dispatch-IsManaged (some id) (Event.provider_worker (ProviderEvent.key ty p)) m h =
      notify_provider-IsManaged id _ m h
  dispatch-IsManaged (some id) (Event.provider_worker (ProviderEvent.internal e)) m h =
      notify_provider-IsManaged id _ m h
  dispatch-IsManaged none (Event.key ty p) m h = tt
  dispatch-IsManaged (some id) (Event.key ty p) m h = notify_provider-IsManaged id _ m h
  dispatch-IsManaged session (Event.autocmd ty p) m h =
      same-IsManaged m (notify_plugins out.receives ty p m) refl refl h
  dispatch-IsManaged session (Event.action a) m h = elim (Bool-cases (is_list_plugins a)) [
    | inl c ↦ rw c h
    | inr c ↦ rw c (notify_plugin_action-IsManaged out.receives a.plugin_id a.method a.params m h)
  ]

  kept-IsManaged :
      (m : ServiceManager Params) (o : Option (ServiceManager Params))
      → IsManaged m
      → IsManagedResult o
      → IsManaged (kept_on_error m o)
  kept-IsManaged m none h k = h
  kept-IsManaged m (some m') h k = k

  process-IsManaged :
      (n : Notification) (m : ServiceManager Params)
      → IsManaged m
      → IsManagedResult (do_process_notification out plugin_actions n m)
  unfolding do_process_notification
  process-IsManaged n m h =
      elim (Option-cases (parse_notification n (parse_action out plugin_actions))) [
        | inl e ↦ rw e tt
        | inr (event, e) ↦ rw e (dispatch-IsManaged (session_of out plugin_actions n) event m h)
      ]

  process_for-IsManaged :
      (session : Option ℕ) (n : Notification) (m : ServiceManager Params)
      → IsManaged m
      → IsManaged (process_for out plugin_actions session n m)
  process_for-IsManaged none n m h = kept-IsManaged m _ h (process-IsManaged n m h)
  process_for-IsManaged (some id) n m h =
      chosen-IsManaged (exists id m) _ m (kept-IsManaged m _ h (process-IsManaged n m h)) h

  process_pending-IsManaged :
      (pending : Option Notification) (m : ServiceManager Params)
      → IsManaged m
      → IsManaged (process_pending out plugin_actions pending m)
  process_pending-IsManaged none m h = h
  process_pending-IsManaged (some n) m h =
      let h' = try_exit-IsManaged _ m h in kept-IsManaged _ _ h' (process-IsManaged n _ h')

  chosen-IsManagedBackend :
      (c : Bool) (b b' : Backend)
      → IsManaged b.manager
      → IsManaged b'.manager
      → IsManaged (if c then b else b').manager
  chosen-IsManagedBackend true b b' h k = h
  chosen-IsManagedBackend false b b' h k = k

  message-IsManaged :
      (x : Message) (b : Backend)
      → IsManaged b.manager
      → IsManaged (process_message out plugin_actions x b).manager
  unfolding process_message process_notification
  message-IsManaged (notification now n) b h =
      chosen-IsManagedBackend (text_eq n.method (codes "new_provider")) _ _ h
        (process_for-IsManaged (session_of out plugin_actions n) n b.manager h)
  message-IsManaged (elapsed now) b h =
      chosen-IsManagedBackend (b.notification_dirty && leb b.notification_timer now) _ b
        (process_pending-IsManaged b.pending_notification b.manager h) h

  run_from-IsManaged :
      (xs : List Message) (b : Backend)
      → IsManaged b.manager
      → IsManaged (run out plugin_actions xs b).manager
  unfolding run
  run_from-IsManaged [] b h = h
  run_from-IsManaged (x ∷ xs) b h =
      run_from-IsManaged xs (process_message out plugin_actions x b) (message-IsManaged x b h)

  -- Along any notifications of the editor, with any session ids, errors included: at most one session of a
  -- provider is known at a time, and every session that is not known has got no message or, as the last one
  -- sent to it, one that ends it.
  pub run-IsManaged :
      (now : ℕ) (plugins : List Plugin) (xs : List Message)
      → IsManaged (run out plugin_actions xs (start_backend now plugins)).manager
  run-IsManaged now plugins xs =
      run_from-IsManaged xs (start_backend now plugins)
        (record { one = omega arith; stopped = λ i e. refl })
