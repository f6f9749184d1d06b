-- ===== src/Worker/Consumer/Redelivery.antt =====
-- A report of a delivery that NATS delivers again.
use veyaan_core_backend.Prelude.{
  ℕ, String, true, false, [], ◌∷◌, ◌++◌, ◌==◌, ==_refl, some, ◌≡◌, refl, sym, ◌∙◌, ap, find?-fits,
  select-append_kept, select, Bool, List, &&-left, append-nil, arith,
}
use veyaan_core_backend.Python.{Json, Dict, Result, ok, lookup}
use veyaan_core_backend.Database.{Database, Environment, World}
use veyaan_core_backend.Database.Session.{Session, Tx, close, with_session}
use veyaan_core_backend.Database.Keeps.{open_session}
use veyaan_core_backend.Command.Model.{Command, CommandStateEvent, delivered, TaskState}
use veyaan_core_backend.Command.StateMachine.{find_command, record_transition}
use veyaan_core_backend.Command.StateMachine.Moves.{accepts, transition_command-accepted}
use veyaan_core_backend.Command.StateMachine.Writes.{trace}
use veyaan_core_backend.Worker.Consumer.{
  with_command_id, command_id_of, device_mismatch, is_recorded_as, duplicates, is_duplicate,
  one_or_none, set_task, write_tasks, update_task_state, dedup, guarded, deliver, handle_delivered,
}

-- With its event recorded, a report does nothing.
guarded-again :
    (prefix : String) (payload : Dict) (handle : ℕ → Tx (Unit {0})) (id : ℕ) (e : CommandStateEvent)
    (x : Session)
    → command_id_of payload ≡ ok (some id)
    → duplicates prefix id x.working ≡ e ∷ []
    → guarded prefix payload handle x ≡ (ok tt, x)
unfolding guarded with_command_id is_duplicate one_or_none
guarded-again prefix payload handle id e x named once = rw (named, once) refl

delivered-again :
    (env : Environment) (payload : Dict) (id : ℕ) (e : CommandStateEvent) (x : Session)
    → command_id_of payload ≡ ok (some id)
    → duplicates "delivered:" id x.working ≡ e ∷ []
    → handle_delivered env payload x ≡ (ok tt, x)
unfolding handle_delivered
delivered-again env payload id e x named once =
    guarded-again "delivered:" payload (deliver env) id e x named once

-- The event that the first report records.
abbrev pub delivery : Command → ℕ → CommandStateEvent
delivery c id = record {
  command_id = c.id;
  previous_state = some c.state;
  new_state = delivered;
  event_source = "gateway";
  event_metadata = some (dedup "delivered:" id);
}

abbrev after_delivery : Environment → Command → ℕ → Database → Database
after_delivery env c id db =
    write_tasks id (set_task TaskState.running Json.null Json.null Json.null)
      (record_transition env.now delivered "gateway" (some (dedup "delivered:" id)) c db)

module _ (env : Environment) (payload : Dict) (id : ℕ) (c : Command) (x : Session)
    (named : command_id_of payload ≡ ok (some id)) (found : find_command id x.working ≡ some c)
    (accepted : accepts c.state delivered ≡ true) (new : duplicates "delivered:" id x.working ≡ [])
    (own : device_mismatch payload c ≡ false) where
  first_delivery : handle_delivered env payload x ≡ (
    ok tt,
    record x {
      working = after_delivery env c id x.working;
      committed = after_delivery env c id x.working;
    },
  )
  unfolding handle_delivered guarded with_command_id is_duplicate one_or_none deliver
      update_task_state
  first_delivery =
      rw
        (
          named,
          new,
          found,
          own,
          transition_command-accepted env delivered "gateway" (some (dedup "delivered:" id)) id x c
              found accepted,
        )
        refl

  recorded : is_recorded_as "delivered:" id (delivery c id) ≡ true
  unfolding is_recorded_as lookup find_command
  recorded =
      let same : (c.id == id) ≡ true = find?-fits (λ k. k.id == id) x.working.commands c found in
      rw (same, ==_refl id) refl

  once : duplicates "delivered:" id (after_delivery env c id x.working) ≡ delivery c id ∷ []
  unfolding duplicates write_tasks record_transition
  once =
      select-append_kept (is_recorded_as "delivered:" id) x.working.state_events (delivery c id)
        recorded
      ∙ ap (λ es. es ++ delivery c id ∷ []) new

select-within :
    (p q : CommandStateEvent → Bool) (es : List CommandStateEvent)
    → ((e : CommandStateEvent) → p e ≡ true → q e ≡ true)
    → select p (select q es) ≡ select p es
unfolding select
select-within p q [] within = refl
select-within p q (e ∷ es) within = ground (arith, within e, select-within p q es within)

select-both :
    (p : CommandStateEvent → Bool) (es fs : List CommandStateEvent)
    → select p (es ++ fs) ≡ select p es ++ select p fs
unfolding select
select-both p [] fs = refl
select-both p (e ∷ es) fs = ground (arith, select-both p es fs)

-- The events that record a report are among those of its command.
duplicates-trace :
    (prefix : String) (id : ℕ) (db : Database)
    → duplicates prefix id db ≡ select (is_recorded_as prefix id) (trace id db)
unfolding duplicates trace is_recorded_as
duplicates-trace prefix id db = sym (
    select-within (is_recorded_as prefix id) (λ e. e.command_id == id) db.state_events
      (λ e h. &&-left _ _ h))

-- A report of a delivery that was accepted, delivered again at any later time: with any operations
-- in between, whatever events of the command they recorded but for one with the key of this report,
-- it returns and changes nothing.
pub handle_delivered-again :
    (env later : Environment) (payload : Dict) (w v : World) (id : ℕ) (c : Command)
    (since : List CommandStateEvent)
    → command_id_of payload ≡ ok (some id)
    → find_command id w.database ≡ some c
    → accepts c.state delivered ≡ true
    → duplicates "delivered:" id w.database ≡ []
    → device_mismatch payload c ≡ false
    → trace id v.database
      ≡ trace id (with_session (handle_delivered env payload) w).1.database ++ since
    → select (is_recorded_as "delivered:" id) since ≡ []
    → with_session (handle_delivered later payload) v ≡ (ok tt, v)
handle_delivered-again env later payload w v id c since named found accepted new own grown others =
    let x = open_session w in
    let first : (with_session (handle_delivered env payload) w).1.database
        ≡ after_delivery env c id w.database =
      ap (λ (p : Result (Unit {0}) × Session). (close p.0 p.1).1.database)
        (first_delivery env payload id c x named found accepted new own) in
    let p = is_recorded_as "delivered:" id in
    let recorded_once : duplicates "delivered:" id v.database ≡ delivery c id ∷ [] =
      duplicates-trace "delivered:" id v.database
      ∙ ap (select p) grown
      ∙ select-both p _ since
      ∙ rw others (append-nil _)
      ∙ sym (duplicates-trace "delivered:" id _)
      ∙ ap (duplicates "delivered:" id) first
      ∙ once env payload id c x named found accepted new own in
    ap (λ (p : Result (Unit {0}) × Session). close p.0 p.1)
      (delivered-again later payload id (delivery c id) (open_session v) named recorded_once)
