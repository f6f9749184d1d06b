-- ===== src/Approval/Repository.antt =====
-- app/approvals/repository.py: ApprovalRepository
pub mod Kept
use veyaan_core_backend.Prelude.{
  ℕ, String, Bool, ◌&&◌, ◌==◌, ◌+◌, ◌*◌, ltb, List, [], ◌∷◌, ◌++◌, Option, none, some, find?,
  select, update, length,
}
use veyaan_core_backend.Database.{Database, Environment}
use veyaan_core_backend.Database.Session.{Tx, pure, gets, modify, ◌>>=◌, ◌>>◌}
use veyaan_core_backend.Command.Model.{RiskLevel}
use veyaan_core_backend.Approval.Model.{Approval, ApprovalStatus, pending, expired, same_status}

-- What the database and `secrets` generate for a new approval.
pub record Generated : Type 0 where
  pub approval_id : ℕ
  pub decision_nonce : String

abbrev pub new_approval :
    Environment → Generated → ℕ → ℕ → RiskLevel → String → String → ℕ → Approval
new_approval env ids command_id owner_id risk_level title description expires_in_minutes = record {
  id = ids.approval_id;
  command_id = command_id;
  owner_id = owner_id;
  risk_level = risk_level;
  action_title = title;
  action_description = description;
  status = pending;
  decision_nonce_hash = env.sha256 ids.decision_nonce;
  expires_at = env.now + expires_in_minutes * 60;
  decided_at = none;
  decision_note = none;
}

unfoldable pub append_approval : Approval → Database → Database
append_approval a db = record db { approvals = db.approvals ++ a ∷ [] }

unfoldable pub create_approval :
    Environment → Generated → ℕ → ℕ → RiskLevel → String → String → ℕ → Tx (Approval × String)
unfolding append_approval
create_approval env ids command_id owner_id risk_level title description expires_in_minutes = do
  let a = new_approval env ids command_id owner_id risk_level title description expires_in_minutes
  modify (append_approval a)
  pure (a, ids.decision_nonce)

unfoldable pub find_approval : ℕ → Database → Option Approval
find_approval approval_id db = find? (λ a. a.id == approval_id) db.approvals

unfoldable pub write_approval : ℕ → (Approval → Approval) → Database → Database
write_approval approval_id f db = record db {
  approvals = update (λ a. a.id == approval_id) f db.approvals;
}

abbrev pub is_stale : ℕ → Approval → Bool
is_stale now a = same_status a.status pending && ltb a.expires_at now

abbrev pub expire_stale : ℕ → Database → Database
expire_stale now db = record db {
  approvals = update (is_stale now) (λ a. record a { status = expired }) db.approvals;
}

-- The row count of the UPDATE.
unfoldable pub expire_pending_approvals : ℕ → Tx ℕ
expire_pending_approvals now = do
  count ← gets (λ db. length (select (is_stale now) db.approvals))
  modify (expire_stale now)
  pure count
