-- ===== src/Kept.antt =====
-- The steps that the services and the workers are made of, as an interface: an invariant of the
-- session that these steps keep is kept by every operation that is built of them.
use veyaan_core_backend.Prelude.{ℕ, String, Option, ◌≡◌, refl}
use veyaan_core_backend.Python.{Dict}
use veyaan_core_backend.Database.{Database, Environment, publish}
use veyaan_core_backend.Database.Session.{Session, Tx, modify, commit, call}
use veyaan_core_backend.Database.Keeps.{Keeps, Keeps-gets_calls, keeps_rules}
use veyaan_core_backend.Command.Model.{CommandState}
use veyaan_core_backend.Command.StateMachine.{transition_command}
use veyaan_core_backend.EmergencyStop.Service.{is_active, create_audit_log}
use veyaan_core_backend.EmergencyStop.Model.{AuditLog}
use veyaan_core_backend.Outbox.Model.{Subject, OutboxEvent}
use veyaan_core_backend.Outbox.Repository.{append_event}

pub record IsKept (P : Session → Type 0) : Type 0 where
  pub commits : Keeps P commit
  pub publishes :
      (subject : Subject) (payload : Dict) (message_id : ℕ)
      → Keeps P (call (publish subject payload message_id))
  pub asks : (env : Environment) (owner_id : ℕ) → Keeps P (is_active env owner_id)
  pub moves :
      (env : Environment) (command_id : ℕ) (s : CommandState) (source : String)
      (metadata : Option Dict)
      → Keeps P (transition_command env command_id s source metadata)
  pub logs : (log : AuditLog) → Keeps P (create_audit_log log)
  -- A write to the other tables: not to the commands and their events, the stops and the audit log.
  pub writes :
      (f : Database → Database)
      → ((db : Database) → (f db).commands ≡ db.commands)
      → ((db : Database) → (f db).state_events ≡ db.state_events)
      → ((db : Database) → (f db).emergency_stops ≡ db.emergency_stops)
      → ((db : Database) → (f db).audit ≡ db.audit)
      → Keeps P (modify f)

-- The fields as rules, whose first premise is the interface.
module _ {P : Session → Type 0} (r : IsKept P) where
  pub Keeps-commits : Keeps P commit
  Keeps-commits = r.commits

  pub Keeps-publishes :
      (subject : Subject) (payload : Dict) (message_id : ℕ)
      → Keeps P (call (publish subject payload message_id))
  Keeps-publishes = r.publishes

  pub Keeps-asks : (env : Environment) (owner_id : ℕ) → Keeps P (is_active env owner_id)
  Keeps-asks = r.asks

  pub Keeps-moves :
      (env : Environment) (command_id : ℕ) (s : CommandState) (source : String)
      (metadata : Option Dict)
      → Keeps P (transition_command env command_id s source metadata)
  Keeps-moves = r.moves

  pub Keeps-append_event : (e : OutboxEvent) → Keeps P (modify (append_event e))
  unfolding append_event
  Keeps-append_event e =
      r.writes (append_event e) (λ db. refl) (λ db. refl) (λ db. refl) (λ db. refl)

  pub Keeps-create_audit_log : (log : AuditLog) → Keeps P (create_audit_log log)
  Keeps-create_audit_log log = r.logs log

pub ruleset kept_rules =
    (keeps_rules, Keeps-gets_calls, Keeps-commits, Keeps-publishes, Keeps-asks, Keeps-moves)

-- Two things that the shared steps keep are kept together.
module _ {P Q : Session → Type 0} where
  Keeps-both : {A : Type 0} {m : Tx A} → Keeps P m → Keeps Q m → Keeps (λ x. P x × Q x) m
  Keeps-both km kn = record { at = λ x h. (km.at x h.0, kn.at x h.1) }

  pub both-IsKept : IsKept P → IsKept Q → IsKept (λ x. P x × Q x)
  both-IsKept r q = record {
    commits = Keeps-both r.commits q.commits;
    publishes = λ subject payload i.
        Keeps-both (r.publishes subject payload i) (q.publishes subject payload i);
    asks = λ env owner_id. Keeps-both (r.asks env owner_id) (q.asks env owner_id);
    moves = λ env i s source metadata.
        Keeps-both (r.moves env i s source metadata) (q.moves env i s source metadata);
    logs = λ log. Keeps-both (r.logs log) (q.logs log);
    writes = λ f hc he hs ha. Keeps-both (r.writes f hc he hs ha) (q.writes f hc he hs ha);
  }
