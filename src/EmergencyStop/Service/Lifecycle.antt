-- ===== src/EmergencyStop/Service/Lifecycle.antt =====
-- The emergency stop moves commands only along the state machine.
use veyaan_core_backend.Prelude.{ℕ, String, Option, refl}
use veyaan_core_backend.Database.{Database, Environment, World, publish}
use veyaan_core_backend.Database.Session.{modify, with_session}
use veyaan_core_backend.Database.Keeps.{
  Keeps, Within, Keeps-commit, Keeps-call, with_session-relates,
}
use veyaan_core_backend.Command.Lifecycle.{Lifecycle}
use veyaan_core_backend.Command.Lifecycle.Transition.{
  Lifecycle-refl, lifecycle_rules, Keeps-transition_command, Keeps-other_tables,
}
use veyaan_core_backend.Kept.{IsKept}
use veyaan_core_backend.EmergencyStop.Service.Kept.{Keeps-activate, Keeps-release}
use veyaan_core_backend.EmergencyStop.Model.{EmergencyStop, AuditLog}
use veyaan_core_backend.EmergencyStop.Service.{
  is_active, append_audit, create_audit_log, insert_stop, write_stop, activate, release,
}

module _ {d : Database} where
  Keeps-create_audit_log : (log : AuditLog) → Keeps (Within Lifecycle d) (create_audit_log log)
  unfolding create_audit_log append_audit
  Keeps-create_audit_log log = Keeps-other_tables (append_audit log) (λ db. refl) (λ db. refl)

  Keeps-insert_stop :
      (stop : EmergencyStop) → Keeps (Within Lifecycle d) (modify (insert_stop stop))
  unfolding insert_stop
  Keeps-insert_stop stop = Keeps-other_tables (insert_stop stop) (λ db. refl) (λ db. refl)

  Keeps-write_stop :
      (owner_id : ℕ) (f : EmergencyStop → EmergencyStop)
      → Keeps (Within Lifecycle d) (modify (write_stop owner_id f))
  unfolding write_stop
  Keeps-write_stop owner_id f = Keeps-other_tables (write_stop owner_id f) (λ db. refl) (λ db. refl)

  Keeps-is_active :
      (env : Environment) (owner_id : ℕ) → Keeps (Within Lifecycle d) (is_active env owner_id)
  unfolding is_active
  Keeps-is_active env owner_id = search lifecycle_rules depth 12

module _ {d : Database} where
  -- The shared steps keep the lifecycle of every command.
  pub Lifecycle-IsKept : IsKept (Within Lifecycle d)
  Lifecycle-IsKept = record {
    commits = Keeps-commit;
    publishes = λ subject payload i. Keeps-call (publish subject payload i);
    asks = Keeps-is_active;
    moves = Keeps-transition_command;
    logs = Keeps-create_audit_log;
    writes = λ f hc he hs ha. Keeps-other_tables f hc he;
  }

module _ (env : Environment) (owner_id : ℕ) where
  -- Activating the emergency stop keeps every command, moves it along the state machine only, and
  -- records each move.
  pub activate-Lifecycle :
      (reason : Option String) (actor_id event_id : ℕ) (w : World)
      → Lifecycle w.database
          (with_session (activate env owner_id reason actor_id event_id) w).1.database
  activate-Lifecycle reason actor_id event_id w =
      with_session-relates Lifecycle (activate env owner_id reason actor_id event_id) w
        (Lifecycle-refl w.database)
        (Keeps-activate Lifecycle-IsKept Keeps-insert_stop Keeps-write_stop Keeps-call env owner_id
          reason actor_id event_id)

  -- So does releasing it.
  pub release-Lifecycle :
      (released_by event_id : ℕ) (w : World)
      → Lifecycle w.database (with_session (release env owner_id released_by event_id) w).1.database
  release-Lifecycle released_by event_id w =
      with_session-relates Lifecycle (release env owner_id released_by event_id) w
        (Lifecycle-refl w.database)
        (Keeps-release Lifecycle-IsKept Keeps-insert_stop Keeps-write_stop Keeps-call env owner_id
          released_by event_id)
