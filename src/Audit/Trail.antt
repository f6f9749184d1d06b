-- ===== src/Audit/Trail.antt =====
-- The audit log only grows: what the steps of an operation do to it.
use veyaan_core_backend.Prelude.{
  ℕ, String, Option, none, some, List, [], ◌∷◌, ◌++◌, ◌≡◌, refl, sym, ap, ◌∙◌, inl, inr, Bool-cases,
  append-nil, append_assoc,
}
use veyaan_core_backend.Python.{Dict}
use veyaan_core_backend.Database.{Database, Environment, publish}
use veyaan_core_backend.Database.Session.{Session, modify}
use veyaan_core_backend.Database.Keeps.{
  Keeps, Within, Keeps-modify, Keeps-commit, Keeps-call, Keeps-gets_calls, keeps_rules,
}
use veyaan_core_backend.Command.Model.{CommandState, Command}
use veyaan_core_backend.Command.StateMachine.{find_command, record_transition, transition_command}
use veyaan_core_backend.Command.StateMachine.Moves.{
  accepts, outcome, transition_command-eq, committed-transition_command,
}
use veyaan_core_backend.EmergencyStop.Model.{AuditLog}
use veyaan_core_backend.EmergencyStop.Service.{is_active, append_audit, create_audit_log}
use veyaan_core_backend.Kept.{IsKept}

-- The log of `b` is the log of `a`, and then rows of its own.
pub record Trail (a b : Database) : Type 0 where
  pub rows : List AuditLog
  pub log : b.audit ≡ a.audit ++ rows

pub Trail-same : {a b : Database} → b.audit ≡ a.audit → Trail a b
Trail-same {a} h = record { rows = []; log = h ∙ sym (append-nil a.audit) }

pub Trail-trans : (a b c : Database) → Trail a b → Trail b c → Trail a c
Trail-trans a b c p q = record {
  rows = p.rows ++ q.rows;
  log = q.log ∙ ap (λ t. t ++ q.rows) p.log ∙ append_assoc a.audit p.rows q.rows;
}

module _ (env : Environment) (i : ℕ) (s : CommandState) (source : String)
    (metadata : Option Dict) where
  audit-outcome :
      (x : Session) (o : Option Command)
      → (outcome env s source metadata i x o).1.working.audit ≡ x.working.audit
  unfolding record_transition
  audit-outcome x none = refl
  audit-outcome x (some c) = elim (Bool-cases (accepts c.state s)) [
    | inl e ↦ rw e refl
    | inr e ↦ rw e refl
  ]

module _ {d : Database} where
  -- A write of the other tables.
  pub Trail-writes :
      (f : Database → Database)
      → ((db : Database) → (f db).audit ≡ db.audit)
      → Keeps (Within Trail d) (modify f)
  Trail-writes f same = Keeps-modify f Trail-trans (λ db. Trail-same (same db))

  Trail-logs : (log : AuditLog) → Keeps (Within Trail d) (create_audit_log log)
  unfolding create_audit_log append_audit
  Trail-logs log =
      Keeps-modify (append_audit log) Trail-trans (λ db. record { rows = log ∷ []; log = refl })

  module _ (env : Environment) (i : ℕ) (s : CommandState) (source : String)
      (metadata : Option Dict) where
    Trail-moves : Keeps (Within Trail d) (transition_command env i s source metadata)
    Trail-moves = record {
      at = λ x h. record {
        working = Trail-trans d x.working _ h.working (
            Trail-same (
              rw (transition_command-eq env s source metadata i x)
                (audit-outcome env i s source metadata x (find_command i x.working))));
        committed = rw (committed-transition_command env s source metadata i x) h.committed;
      };
    }

  Trail-asks : (env : Environment) (owner_id : ℕ) → Keeps (Within Trail d) (is_active env owner_id)
  unfolding is_active
  Trail-asks env owner_id = search (keeps_rules, Keeps-gets_calls, Keeps-call) depth 12

  -- The shared steps keep the trail.
  pub Trail-IsKept : IsKept (Within Trail d)
  Trail-IsKept = record {
    commits = Keeps-commit;
    publishes = λ subject payload i. Keeps-call (publish subject payload i);
    asks = Trail-asks;
    moves = Trail-moves;
    logs = Trail-logs;
    writes = λ f hc he hs ha. Trail-writes f ha;
  }
