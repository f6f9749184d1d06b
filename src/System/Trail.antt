-- ===== src/System/Trail.antt =====
-- The audit log, whatever sequence of operations the program runs.
use veyaan_core_backend.Prelude.{ℕ, refl}
use veyaan_core_backend.Database.{Environment, World}
use veyaan_core_backend.Database.Session.{Tx, with_session}
use veyaan_core_backend.Database.Keeps.{Keeps, Within, Keeps-call, with_session-relates}
use veyaan_core_backend.Command.Service.{insert_rows}
use veyaan_core_backend.Command.Service.Kept.{Keeps-create_command}
use veyaan_core_backend.EmergencyStop.Model.{EmergencyStop}
use veyaan_core_backend.EmergencyStop.Service.{insert_stop, write_stop}
use veyaan_core_backend.EmergencyStop.Service.Kept.{Keeps-activate, Keeps-release}
use veyaan_core_backend.Audit.Trail.{Trail, Trail-same, Trail-trans, Trail-writes, Trail-IsKept}
use veyaan_core_backend.System.{Operation, perform, Run, here, next}
use veyaan_core_backend.System.Kept.{perform-Kept, by_kind}

module _ (env : Environment) (w : World) where
  in_session :
      (A : Type 0) (m : Tx A)
      → Keeps (Within Trail w.database) m
      → Trail w.database (with_session m w).1.database
  in_session A m km = with_session-relates Trail m w (Trail-same refl) km

  pub perform-Trail : (operation : Operation) → Trail w.database (perform env operation w).database
  unfolding insert_rows insert_stop write_stop
  perform-Trail =
      let inserts = λ (stop : EmergencyStop). Trail-writes (insert_stop stop) (λ db. refl) in
      let changes = λ (owner_id : ℕ) (f : EmergencyStop → EmergencyStop).
        Trail-writes (write_stop owner_id f) (λ db. refl) in
      by_kind (λ operation. Trail w.database (perform env operation w).database)
        (perform-Kept Trail-IsKept env w (λ v. Trail w.database v.database) in_session)
        (λ ids request owner_id. in_session _ _ (
          Keeps-create_command Trail-IsKept env ids request
            (λ d. Trail-writes (insert_rows env ids request d) (λ db. refl)) owner_id))
        (λ o n a e.
          in_session _ _ (Keeps-activate Trail-IsKept inserts changes Keeps-call env o n a e))
        (λ o n e. in_session _ _ (Keeps-release Trail-IsKept inserts changes Keeps-call env o n e))

-- Whatever sequence of operations runs, the rows that were in the audit log are still there, in
-- their order and unchanged, before the rows that were added.
pub Run-Trail : {w v : World} → Run w v → Trail w.database v.database
Run-Trail here = Trail-same refl
Run-Trail {w} (next {v} run env operation fresh) =
    Trail-trans w.database v.database _ (Run-Trail run) (perform-Trail env v operation)
