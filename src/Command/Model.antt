-- ===== src/Command/Model.antt =====
-- app/commands/models.py: the states of commands and tasks, and the rows of their three tables.
-- Times are seconds since some epoch, ids stand for the UUIDs, and a column that holds JSON or an
-- optional text holds a `Json` with `null` for NULL.
use veyaan_core_backend.Prelude.{ℕ, String, Bool, Option, ◌==◌}
use veyaan_core_backend.Python.{Json, Dict}

pub data RiskLevel : Type 0 where
  low medium high prohibited : RiskLevel

pub data CommandState : Type 0 where
  received validated awaiting_approval approved rejected queued delivered : CommandState
  acknowledged running succeeded failed timed_out cancelled expired : CommandState
  blocked_by_emergency_stop : CommandState

pub data TaskState : Type 0 where
  pending queued delivered acknowledged running succeeded failed timed_out cancelled : TaskState

-- The place of a state in the enumeration, by which states are compared.
abbrev pub index : CommandState → ℕ
index received = 0
index validated = 1
index awaiting_approval = 2
index approved = 3
index rejected = 4
index CommandState.queued = 5
index CommandState.delivered = 6
index CommandState.acknowledged = 7
index CommandState.running = 8
index CommandState.succeeded = 9
index CommandState.failed = 10
index CommandState.timed_out = 11
index CommandState.cancelled = 12
index expired = 13
index blocked_by_emergency_stop = 14

-- `a == b` on states.
abbrev pub same : CommandState → CommandState → Bool
same a b = index a == index b

-- app/commands/models.py: Command
pub record Command : Type 0 where
  pub id : ℕ
  pub device_id : ℕ
  pub command_type : String
  pub parameters : Json
  pub risk_level : RiskLevel
  pub idempotency_key : String
  pub state : CommandState
  pub requires_approval : Bool
  pub delayed_execution_allowed : Bool
  pub expires_at : Option ℕ
  pub delivered_at : Option ℕ
  pub acknowledged_at : Option ℕ
  pub started_at : Option ℕ
  pub finished_at : Option ℕ
  pub result_data : Json
  pub result_summary : Json
  pub error_code : Json
  pub error_message : Json
  pub created_at : ℕ
  pub updated_at : ℕ

pub record Task : Type 0 where
  pub id : ℕ
  pub command_id : ℕ
  pub state : TaskState
  pub attempt_count : ℕ
  pub started_at : Option ℕ
  pub finished_at : Option ℕ
  pub result_summary : Json
  pub error_code : Json
  pub error_message : Json

pub record CommandStateEvent : Type 0 where
  pub command_id : ℕ
  pub previous_state : Option CommandState
  pub new_state : CommandState
  pub event_source : String
  pub event_metadata : Option Dict
