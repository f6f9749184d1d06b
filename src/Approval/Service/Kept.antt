-- ===== src/Approval/Service/Kept.antt =====
-- Requesting and deciding approvals is made of the shared steps.
use veyaan_core_backend.Prelude.{ℕ, String, Bool, Option}
use veyaan_core_backend.Python.{Error, state_transition}
use veyaan_core_backend.Database.{Environment}
use veyaan_core_backend.Database.Session.{Session}
use veyaan_core_backend.Database.Keeps.{Keeps, keeps_rules}
use veyaan_core_backend.Kept.{IsKept, kept_rules, Keeps-append_event, Keeps-create_audit_log}
use veyaan_core_backend.Command.Model.{Command}
use veyaan_core_backend.Approval.Model.{Approval}
use veyaan_core_backend.Approval.Repository.{Generated}
use veyaan_core_backend.Approval.Repository.Kept.{Keeps-append_approval, Keeps-write_approval}
use veyaan_core_backend.Outbox.Repository.{add_event}
use veyaan_core_backend.Approval.Service.{
  on_refusal, notify_queued, queue_approved, reject_awaiting, apply_decision, decide, on_approval,
  decide_approval, request_approval, create_approval_for,
}

module _ {P : Session → Type 0} (r : IsKept P) where
  Keeps-on_refusal : (e : Error) → Keeps P (on_refusal e)
  Keeps-on_refusal (state_transition i) = search keeps_rules
  Keeps-on_refusal e = search keeps_rules

ruleset approval_rules = (
  kept_rules, Keeps-append_event, Keeps-create_audit_log, Keeps-append_approval,
  Keeps-write_approval, Keeps-on_refusal,
)

module _ {P : Session → Type 0} (r : IsKept P) (env : Environment) where
  Keeps-notify_queued : (event_id command_id : ℕ) → Keeps P (notify_queued env event_id command_id)
  unfolding notify_queued add_event
  Keeps-notify_queued event_id command_id = search approval_rules depth 12

  Keeps-queue_approved :
      (owner_id event_id command_id : ℕ) → Keeps P (queue_approved env owner_id event_id command_id)
  unfolding queue_approved
  Keeps-queue_approved owner_id event_id command_id =
      search (approval_rules, Keeps-notify_queued) depth 14

  Keeps-apply_decision :
      (owner_id event_id : ℕ) (approve : Bool) (command_id : ℕ)
      → Keeps P (apply_decision env owner_id event_id approve command_id)
  unfolding apply_decision reject_awaiting
  Keeps-apply_decision owner_id event_id approve command_id =
      search (approval_rules, Keeps-queue_approved) depth 12

  Keeps-decide :
      (owner_id event_id : ℕ) (approve : Bool) (decision_note : Option String) (a : Approval)
      → Keeps P (decide env owner_id event_id approve decision_note a)
  unfolding decide
  Keeps-decide owner_id event_id approve decision_note a =
      search (approval_rules, Keeps-apply_decision) depth 12

  Keeps-on_approval :
      (owner_id event_id : ℕ) (approve : Bool) (nonce : String) (decision_note : Option String)
      (a : Approval)
      → Keeps P (on_approval env owner_id event_id approve nonce decision_note a)
  unfolding on_approval
  Keeps-on_approval owner_id event_id approve nonce decision_note a =
      search (approval_rules, Keeps-decide) depth 14

  Keeps-request_approval :
      (ids : Generated) (owner_id : ℕ) (title description : String) (minutes : ℕ) (c : Command)
      → Keeps P (request_approval env ids owner_id title description minutes c)
  unfolding request_approval
  Keeps-request_approval ids owner_id title description minutes c = search approval_rules depth 12

module _ {P : Session → Type 0} (r : IsKept P) (env : Environment) where
  pub Keeps-decide_approval :
      (approval_id owner_id event_id : ℕ) (decision nonce : String) (decision_note : Option String)
      → Keeps P (decide_approval env approval_id owner_id event_id decision nonce decision_note)
  unfolding decide_approval
  Keeps-decide_approval approval_id owner_id event_id decision nonce decision_note =
      search (keeps_rules, Keeps-on_approval) depth 8

  pub Keeps-create_approval_for :
      (ids : Generated) (command_id owner_id : ℕ) (title description : String) (minutes : ℕ)
      → Keeps P (create_approval_for env ids command_id owner_id title description minutes)
  unfolding create_approval_for
  Keeps-create_approval_for ids command_id owner_id title description minutes =
      search (keeps_rules, Keeps-request_approval) depth 14
