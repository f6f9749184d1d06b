-- ===== src/Worker/Consumer/Replies.antt =====
-- What a reply to NATS says of the database.
use veyaan_core_backend.Prelude.{ℕ, String, List, [], ◌∷◌, Option, none, some, ◌≡◌, refl, arith}
use veyaan_core_backend.Python.{Dict, Error, Result, ok, err, state_transition}
use veyaan_core_backend.Database.{Database, Environment, World}
use veyaan_core_backend.Database.Session.{Tx, commit, with_session}
use veyaan_core_backend.Database.Keeps.{Keeps}
use veyaan_core_backend.Database.Atomic.{
  Committed, Atomic, Atomic-pure, Atomic-raise, atomic_rules, committed_rules, with_session-Atomic,
}
use veyaan_core_backend.Outbox.Model.{Subject}
use veyaan_core_backend.Command.Model.{CommandStateEvent}
use veyaan_core_backend.Command.StateMachine.Atomicity.{Keeps-transition}
use veyaan_core_backend.Worker.Consumer.{
  with_command_id, one_or_none, is_duplicate, update_task_state, guarded, deliver, acknowledge,
  start_running, finish, on_refusal, handle_delivered, handle_acknowledged, handle_progress,
  handle_result,
}
use veyaan_core_backend.Worker.Consumer.Routing.{
  Handler, delivered, acknowledged, progress, result, run_handler, nak, reply_of, with_handler,
  route_handler, poll_message,
}

module _ {d : Database} where
  Keeps-one_or_none : (es : List CommandStateEvent) → Keeps (Committed d) (one_or_none es)
  unfolding one_or_none
  Keeps-one_or_none [] = search committed_rules
  Keeps-one_or_none (e ∷ []) = search committed_rules
  Keeps-one_or_none (e ∷ f ∷ es) = search committed_rules

  Keeps-is_duplicate : (prefix : String) (id : ℕ) → Keeps (Committed d) (is_duplicate prefix id)
  unfolding is_duplicate
  Keeps-is_duplicate prefix id = search (committed_rules, Keeps-one_or_none)

  Atomic-on_refusal : (e : Error) → Atomic d (on_refusal e)
  Atomic-on_refusal (state_transition i) = search atomic_rules
  Atomic-on_refusal e = search atomic_rules

  Keeps-on_refusal : (e : Error) → Keeps (Committed d) (on_refusal e)
  Keeps-on_refusal (state_transition i) = search committed_rules
  Keeps-on_refusal e = search committed_rules

  Atomic-last : Atomic d commit
  Atomic-last = record { at = λ x h. tt }

  ruleset consumer_rules = (
    atomic_rules, Keeps-transition, Keeps-is_duplicate, Atomic-on_refusal, Keeps-on_refusal,
    Atomic-last,
  )

  Atomic-with_command_id :
      (o : Result (Option ℕ)) (handle : ℕ → Tx (Unit {0}))
      → ((id : ℕ) → Atomic d (handle id))
      → Atomic d (with_command_id o handle)
  unfolding with_command_id
  Atomic-with_command_id (ok (some id)) handle ah = ah id
  Atomic-with_command_id (ok none) handle ah = Atomic-pure tt
  Atomic-with_command_id (err e) handle ah = Atomic-raise e

  Atomic-guarded :
      (prefix : String) (payload : Dict) (handle : ℕ → Tx (Unit {0}))
      → ((id : ℕ) → Atomic d (handle id))
      → Atomic d (guarded prefix payload handle)
  unfolding guarded
  Atomic-guarded prefix payload handle ah =
      search (consumer_rules, Atomic-with_command_id, ah) depth 14

  module _ (env : Environment) (payload : Dict) where
    Atomic-deliver : (id : ℕ) → Atomic d (deliver env id)
    unfolding deliver update_task_state
    Atomic-deliver id = search consumer_rules depth 14

    Atomic-acknowledge : (id : ℕ) → Atomic d (acknowledge env payload id)
    unfolding acknowledge update_task_state
    Atomic-acknowledge id = search consumer_rules depth 14

    Keeps-start_running : (id : ℕ) → Keeps (Committed d) (start_running env id)
    unfolding start_running update_task_state
    Keeps-start_running id = search (committed_rules, Keeps-transition, Keeps-on_refusal) depth 14

    Atomic-finish : (id : ℕ) → Atomic d (finish env payload id)
    unfolding finish update_task_state
    Atomic-finish id = search consumer_rules depth 14

    Atomic-handler : (h : Handler) → Atomic d (run_handler env h payload)
    unfolding run_handler handle_delivered handle_acknowledged handle_progress handle_result
    Atomic-handler delivered = Atomic-guarded "delivered:" payload (deliver env) Atomic-deliver
    Atomic-handler acknowledged =
        Atomic-guarded "acknowledged:" payload (acknowledge env payload) Atomic-acknowledge
    Atomic-handler progress =
        search (consumer_rules, Atomic-with_command_id, Keeps-start_running) depth 14
    Atomic-handler result = Atomic-guarded "result:" payload (finish env payload) Atomic-finish

nak-err : (r : Result (Unit {0})) → reply_of r ≡ nak → (e : Error) × (r ≡ err e)
nak-err (ok a) h = ground arith
nak-err (err e) h = (e, refl)

handled :
    (env : Environment) (o : Option Handler) (payload : Option Dict) (w : World)
    → (with_handler env o payload w).0 ≡ nak
    → (with_handler env o payload w).1.database ≡ w.database
unfolding with_handler
handled env none payload w h = refl
handled env (some handler) none w h = refl
handled env (some handler) (some payload) w h =
    let (e, raised) = nak-err (with_session (run_handler env handler payload) w).0 h in
    with_session-Atomic (run_handler env handler payload) w e (Atomic-handler env payload handler)
      raised

-- A message that is answered with `nak`, so that NATS delivers it again, has changed no table.
pub poll_message-nak :
    (env : Environment) (subject : Subject) (payload : Option Dict) (w : World)
    → (poll_message env subject payload w).0 ≡ nak
    → (poll_message env subject payload w).1.database ≡ w.database
unfolding poll_message
poll_message-nak env subject payload w h = handled env (route_handler subject) payload w h
