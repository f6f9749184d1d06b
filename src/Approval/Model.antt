-- ===== src/Approval/Model.antt =====
-- app/approvals/models.py
use veyaan_core_backend.Prelude.{ℕ, String, Bool, Option, ◌==◌}
use veyaan_core_backend.Command.Model.{RiskLevel}

pub data ApprovalStatus : Type 0 where
  pending approved rejected expired : ApprovalStatus

abbrev pub index : ApprovalStatus → ℕ
index pending = 0
index approved = 1
index rejected = 2
index expired = 3

abbrev pub same_status : ApprovalStatus → ApprovalStatus → Bool
same_status a b = index a == index b

pub record Approval : Type 0 where
  pub id : ℕ
  pub command_id : ℕ
  pub owner_id : ℕ
  pub risk_level : RiskLevel
  pub action_title : String
  pub action_description : String
  pub status : ApprovalStatus
  pub decision_nonce_hash : String
  pub expires_at : ℕ
  pub decided_at : Option ℕ
  pub decision_note : Option String
