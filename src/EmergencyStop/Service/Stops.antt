-- ===== src/EmergencyStop/Service/Stops.antt =====
-- The stop row of an owner, as each write leaves it.
use mathlib.Core.Option
use veyaan_core_backend.Prelude.{
  ℕ, String, false, ◌==◌, List, [], ◌∷◌, Option, none, some, ◌≡◌, refl, ap, ◌∙◌, inl, inr,
  Bool-cases, ==_refl, find?, find?-update_self, find?-update_other, find?-append_none,
  find?-append_miss, arith,
}
use veyaan_core_backend.Database.{Database, Environment}
use veyaan_core_backend.Command.Model.{Command, blocked_by_emergency_stop}
use veyaan_core_backend.Command.StateMachine.{find_command, record_transition}
use veyaan_core_backend.Command.StateMachine.Moves.{accepts}
use veyaan_core_backend.EmergencyStop.Model.{EmergencyStop, AuditLog}
use veyaan_core_backend.Outbox.Model.{OutboxEvent}
use veyaan_core_backend.EmergencyStop.Service.{
  find_stop, insert_stop, write_stop, set_active, new_stop, append_audit,
}
use veyaan_core_backend.EmergencyStop.Service.Blocking.{
  activation, with_stop, stop_row, block_all, block_one, block_found, halted_ids,
}
use veyaan_core_backend.Outbox.Repository.{append_event}

module _ (owner_id : ℕ) (f : EmergencyStop → EmergencyStop) (db : Database) where
  pub find_stop-write_self :
      ((e : EmergencyStop) → (f e).owner_id ≡ e.owner_id)
      → find_stop owner_id (write_stop owner_id f db) ≡ Option.map f (find_stop owner_id db)
  unfolding find_stop write_stop
  find_stop-write_self keep =
      find?-update_self (λ e. e.owner_id == owner_id) f db.emergency_stops
        (λ e. ap (λ i. i == owner_id) (keep e))

  pub find_stop-write_other :
      (k : ℕ)
      → ((e : EmergencyStop) → (f e).owner_id ≡ e.owner_id)
      → (owner_id == k) ≡ false
      → find_stop k (write_stop owner_id f db) ≡ find_stop k db
  unfolding find_stop write_stop
  find_stop-write_other k keep ne =
      find?-update_other (λ e. e.owner_id == k) (λ e. e.owner_id == owner_id) f db.emergency_stops
        (λ e. ap (λ i. i == k) (keep e)) (λ e h. ground arith)

pub find_stop-insert_self :
    (stop : EmergencyStop) (db : Database)
    → find_stop stop.owner_id db ≡ none
    → find_stop stop.owner_id (insert_stop stop db) ≡ some stop
unfolding find_stop insert_stop find?
find_stop-insert_self stop db h =
    find?-append_none (λ e. e.owner_id == stop.owner_id) db.emergency_stops (stop ∷ []) h
    ∙ rw (==_refl stop.owner_id)

pub find_stop-insert_other :
    (stop : EmergencyStop) (db : Database) (k : ℕ)
    → (stop.owner_id == k) ≡ false
    → find_stop k (insert_stop stop db) ≡ find_stop k db
unfolding find_stop insert_stop
find_stop-insert_other stop db k ne =
    find?-append_miss (λ e. e.owner_id == k) db.emergency_stops stop ne

pub find_stop-appends :
    (k : ℕ) (e : OutboxEvent) (log : AuditLog) (db : Database)
    → find_stop k (append_event e (append_audit log db)) ≡ find_stop k db
unfolding find_stop append_event append_audit
find_stop-appends k e log db = refl

-- Blocking commands writes no stop row.
emergency_stops-block_found :
    (now : ℕ) (o : Option Command) (db : Database)
    → (block_found now o db).emergency_stops ≡ db.emergency_stops
unfolding record_transition
emergency_stops-block_found now none db = refl
emergency_stops-block_found now (some c) db =
    elim (Bool-cases (accepts c.state blocked_by_emergency_stop)) [ inl h ↦ rw h | inr h ↦ rw h ]

emergency_stops-block_all :
    (now : ℕ) (ids : List ℕ) (db : Database)
    → (block_all now ids db).emergency_stops ≡ db.emergency_stops
unfolding block_all
emergency_stops-block_all now [] db = refl
emergency_stops-block_all now (i ∷ ids) db =
    emergency_stops-block_all now ids (block_one now i db)
    ∙ emergency_stops-block_found now (find_command i db) db

module _ (env : Environment) (owner_id : ℕ) (reason : Option String) (actor_id event_id : ℕ) where
  pub find_stop-activation :
      (k : ℕ) (db : Database)
      → find_stop k (activation env owner_id reason actor_id event_id db) ≡ find_stop k db
  unfolding activation find_stop
  find_stop-activation k db =
      ap (find? (λ e. e.owner_id == k))
        (emergency_stops-block_all env.now (halted_ids owner_id db) db)

  -- The row that an activation writes, and the rows of other owners.
  pub find_stop-with_stop_self :
      (o : Option EmergencyStop) (db : Database)
      → find_stop owner_id db ≡ o
      → find_stop owner_id (with_stop env owner_id reason actor_id event_id o db)
        ≡ some (stop_row env owner_id reason actor_id event_id o)
  find_stop-with_stop_self none db found =
      find_stop-insert_self (new_stop env.now owner_id reason actor_id) db found
  find_stop-with_stop_self (some stop) db found =
      find_stop-write_self owner_id (set_active env.now reason actor_id) db (λ e. refl)
      ∙ ap (Option.map (set_active env.now reason actor_id)) found

  pub find_stop-with_stop_other :
      (o : Option EmergencyStop) (db : Database) (k : ℕ)
      → (owner_id == k) ≡ false
      → find_stop k (with_stop env owner_id reason actor_id event_id o db) ≡ find_stop k db
  find_stop-with_stop_other none db k ne =
      find_stop-insert_other (new_stop env.now owner_id reason actor_id) db k ne
  find_stop-with_stop_other (some stop) db k ne =
      find_stop-write_other owner_id (set_active env.now reason actor_id) db k (λ e. refl) ne
