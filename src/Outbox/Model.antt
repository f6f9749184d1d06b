-- ===== src/Outbox/Model.antt =====
-- app/events: the subjects of subjects.py and the rows of outbox_models.py.
use veyaan_core_backend.Prelude.{ℕ, String, Bool, Option}
use veyaan_core_backend.Python.{Dict}

-- A subject is a fixed prefix followed by an id.
pub record Subject : Type 0 where
  pub prefix : String
  pub id : ℕ

abbrev pub command_ready : ℕ → Subject
command_ready device_id = record { prefix = "veyaan.command.ready."; id = device_id }

abbrev pub command_delivered : ℕ → Subject
command_delivered command_id = record { prefix = "veyaan.command.delivered."; id = command_id }

abbrev pub command_acknowledged : ℕ → Subject
command_acknowledged command_id = record {
  prefix = "veyaan.command.acknowledged.";
  id = command_id;
}

abbrev pub command_progress : ℕ → Subject
command_progress command_id = record { prefix = "veyaan.command.progress."; id = command_id }

abbrev pub command_result : ℕ → Subject
command_result command_id = record { prefix = "veyaan.command.result."; id = command_id }

abbrev pub device_lifecycle : ℕ → Subject
device_lifecycle device_id = record { prefix = "veyaan.device.lifecycle."; id = device_id }

abbrev pub emergency_stop : ℕ → Subject
emergency_stop owner_id = record { prefix = "veyaan.security.emergency_stop."; id = owner_id }

abbrev pub emergency_resume : ℕ → Subject
emergency_resume owner_id = record { prefix = "veyaan.security.emergency_resume."; id = owner_id }

pub data OutboxEventStatus : Type 0 where
  pending publishing published failed : OutboxEventStatus

abbrev pub is_pending : OutboxEventStatus → Bool
is_pending pending = Bool.true
is_pending _ = Bool.false

pub record OutboxEvent : Type 0 where
  pub id : ℕ
  pub aggregate_type : String
  pub aggregate_id : ℕ
  pub event_type : String
  pub subject : Subject
  pub payload : Dict
  pub status : OutboxEventStatus
  pub available_at : ℕ
  pub attempt_count : ℕ
  pub last_error : Option String
  pub published_at : Option ℕ
