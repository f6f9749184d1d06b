-- ===== src/EmergencyStop/Service/Unchanged.antt =====
-- The steps that the other operations are made of write no stop.
use veyaan_core_backend.Prelude.{
  ℕ, String, Option, none, some, ◌≡◌, refl, ◌∙◌, inl, inr, Bool-cases,
}
use veyaan_core_backend.Python.{Dict}
use veyaan_core_backend.Database.{Database, Environment, publish}
use veyaan_core_backend.Database.Session.{Session, modify}
use veyaan_core_backend.Database.Keeps.{
  Keeps, Within, Keeps-modify, Keeps-commit, Keeps-call, Keeps-gets_calls, keeps_rules,
}
use veyaan_core_backend.Command.Model.{CommandState, Command}
use veyaan_core_backend.Command.StateMachine.{find_command, record_transition, transition_command}
use veyaan_core_backend.Command.StateMachine.Moves.{
  accepts, outcome, transition_command-eq, committed-transition_command,
}
use veyaan_core_backend.EmergencyStop.Model.{AuditLog}
use veyaan_core_backend.EmergencyStop.Service.{is_active, append_audit, create_audit_log}
use veyaan_core_backend.Kept.{IsKept}

-- The stops are the same.
pub record SameStops (a b : Database) : Type 0 where
  pub stops : b.emergency_stops ≡ a.emergency_stops

pub SameStops-trans : (a b c : Database) → SameStops a b → SameStops b c → SameStops a c
SameStops-trans a b c p q = record { stops = q.stops ∙ p.stops }

module _ (env : Environment) (i : ℕ) (s : CommandState) (source : String)
    (metadata : Option Dict) where
  stops-outcome :
      (x : Session) (o : Option Command)
      → SameStops x.working (outcome env s source metadata i x o).1.working
  unfolding record_transition
  stops-outcome x none = record { stops = refl }
  stops-outcome x (some c) = elim (Bool-cases (accepts c.state s)) [
    | inl e ↦ rw e (record { stops = refl })
    | inr e ↦ rw e (record { stops = refl })
  ]

  module _ {d : Database} where
    SameStops-moves : Keeps (Within SameStops d) (transition_command env i s source metadata)
    SameStops-moves = record {
      at = λ x h. record {
        working = SameStops-trans d x.working _ h.working (
            rw (transition_command-eq env s source metadata i x)
              (stops-outcome x (find_command i x.working)));
        committed = rw (committed-transition_command env s source metadata i x) h.committed;
      };
    }

module _ {d : Database} where
  pub SameStops-writes :
      (f : Database → Database)
      → ((db : Database) → (f db).emergency_stops ≡ db.emergency_stops)
      → Keeps (Within SameStops d) (modify f)
  SameStops-writes f same = Keeps-modify f SameStops-trans (λ db. record { stops = same db })

  SameStops-logs : (log : AuditLog) → Keeps (Within SameStops d) (create_audit_log log)
  unfolding create_audit_log append_audit
  SameStops-logs log = SameStops-writes (append_audit log) (λ db. refl)

  SameStops-asks :
      (env : Environment) (owner_id : ℕ) → Keeps (Within SameStops d) (is_active env owner_id)
  unfolding is_active
  SameStops-asks env owner_id = search (keeps_rules, Keeps-gets_calls, Keeps-call) depth 12

  pub SameStops-IsKept : IsKept (Within SameStops d)
  SameStops-IsKept = record {
    commits = Keeps-commit;
    publishes = λ subject payload i. Keeps-call (publish subject payload i);
    asks = SameStops-asks;
    moves = λ env i s source metadata. SameStops-moves env i s source metadata;
    logs = SameStops-logs;
    writes = λ f hc he hs ha. SameStops-writes f hs;
  }
