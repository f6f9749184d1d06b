-- ===== src/EmergencyStop/Model.antt =====
-- app/emergency_stop/models.py, and the row of app/audit/models.py
use veyaan_core_backend.Prelude.{ℕ, String, Bool, false, Option, none, some}
use veyaan_core_backend.Python.{Dict}

pub record EmergencyStop : Type 0 where
  pub owner_id : ℕ
  pub active : Bool
  pub reason : Option String
  pub activated_at : Option ℕ
  pub released_at : Option ℕ
  pub activated_by : Option ℕ
  pub released_by : Option ℕ

-- Whether the row of an owner, if there is one, is an active stop.
abbrev pub was_active : Option EmergencyStop → Bool
was_active none = false
was_active (some stop) = stop.active

pub record AuditLog : Type 0 where
  pub user_id : Option ℕ
  pub device_id : Option ℕ
  pub command_id : Option ℕ
  pub approval_id : Option ℕ
  pub category : String
  pub action : String
  pub result : String
  pub event_metadata : Option Dict
  pub created_at : ℕ
