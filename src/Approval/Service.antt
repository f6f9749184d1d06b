-- ===== src/Approval/Service.antt =====
-- app/approvals/service.py: ApprovalService
pub mod Kept
pub mod Decisions
use veyaan_core_backend.Prelude.{
  ℕ, String, Bool, true, false, not, ◌==◌, ltb, List, [], ◌∷◌, Option, none, some, if◌then◌else◌,
  str_eq,
}
use veyaan_core_backend.Python.{
  Dict, text, Error, Result, api_error, attribute_error, state_transition, approval_expired,
  approval_already_decided, invalid_decision_nonce, invalid_state, emergency_stop_active,
}
use veyaan_core_backend.Database.{Database, Environment}
use veyaan_core_backend.Database.Session.{
  Tx, pure, raise, gets, modify, commit, ◌>>=◌, ◌>>◌, case_found, try_catch,
}
use veyaan_core_backend.Command.Model.{
  RiskLevel, medium, CommandState, awaiting_approval, same, Command,
}
use veyaan_core_backend.Command.Model
use veyaan_core_backend.Command.Registry
use veyaan_core_backend.Command.Registry.{CommandDefinition, command_registry}
use veyaan_core_backend.Command.StateMachine.{find_command, transition_command}
use veyaan_core_backend.Command.Service.{queued_payload, approval_title, approval_description}
use veyaan_core_backend.Approval.Model.{
  Approval, ApprovalStatus, pending, approved, rejected, expired, same_status,
}
use veyaan_core_backend.Approval.Repository.{
  Generated, create_approval, find_approval, write_approval,
}
use veyaan_core_backend.Device.Model.{Device}
use veyaan_core_backend.Device.Repository.{find_device}
use veyaan_core_backend.EmergencyStop.Model.{AuditLog}
use veyaan_core_backend.EmergencyStop.Service.{is_active, create_audit_log}
use veyaan_core_backend.Outbox.Model.{command_ready}
use veyaan_core_backend.Outbox.Repository.{add_event}

-- The risk level comes from the registry, never from the client.
abbrev pub registered_risk : Option CommandDefinition → RiskLevel
registered_risk none = medium
registered_risk (some d) = d.risk_level

-- `title or …`
abbrev or_default : String → String → String
or_default title default = if str_eq title "" then default else title

request_approval :
    Environment → Generated → ℕ → String → String → ℕ → Command → Tx (Option (Approval × String))
unfolding create_approval Registry.get command_registry
request_approval env ids owner_id title description minutes c = do
  made ←
      create_approval env ids c.id owner_id
        (registered_risk (Registry.get c.command_type command_registry))
        (or_default title (approval_title c)) (or_default description (approval_description env c))
        minutes
  commit
  pure (some made)

unfoldable pub create_approval_for :
    Environment → Generated → ℕ → ℕ → String → String → ℕ → Tx (Option (Approval × String))
unfolding request_approval find_device
create_approval_for env ids command_id owner_id title description minutes = do
  command ← gets (find_command command_id)
  case_found command (pure none) (λ c. do
    device ← gets (find_device c.device_id)
    case_found device (pure none) (λ d.
        if not (d.owner_id == owner_id)
        then pure none
        else if not (same c.state awaiting_approval)
        then pure none
        else request_approval env ids owner_id title description minutes c))

pub record Decision : Type 0 where
  pub approval_id : ℕ
  pub status : ApprovalStatus
  pub decided_at : Option ℕ

-- `except StateTransitionError as e: raise ApiError(INVALID_STATE)`
abbrev pub on_refusal : Error → Tx (Unit {0})
on_refusal (state_transition _) = raise (api_error invalid_state 409)
on_refusal e = raise e

-- The outbox event, if the command and its device are there.
notify_queued : Environment → ℕ → ℕ → Tx (Unit {0})
unfolding add_event find_device
notify_queued env event_id command_id = do
  command ← gets (find_command command_id)
  case_found command (pure tt) (λ c. do
    device ← gets (find_device c.device_id)
    case_found device (pure tt) (λ d.
        add_event env event_id "command.queued" "command" c.id (command_ready d.id)
          (queued_payload c)))

queue_approved : Environment → ℕ → ℕ → ℕ → Tx (Unit {0})
unfolding is_active notify_queued
queue_approved env owner_id event_id command_id = do
  stopped ← is_active env owner_id
  if stopped then raise (api_error emergency_stop_active 423) else do
    try_catch
        (do
          transition_command env command_id Model.approved "approval" none
          transition_command env command_id Model.queued "approval" none
          pure tt)
        on_refusal
    notify_queued env event_id command_id

reject_awaiting : Environment → ℕ → Tx (Unit {0})
reject_awaiting env command_id =
    try_catch (do transition_command env command_id Model.rejected "approval" none; pure tt)
      on_refusal

abbrev note_metadata : Option String → Option Dict
note_metadata none = none
note_metadata (some note) = if str_eq note "" then none else some (("note", text note) ∷ [])

abbrev decision_log : ℕ → ℕ → Approval → Bool → Option String → AuditLog
decision_log now owner_id a approve note = record {
  user_id = some owner_id;
  device_id = none;
  command_id = some a.command_id;
  approval_id = some a.id;
  category = "approval";
  action = if approve then "approval_approved" else "approval_rejected";
  result = "success";
  event_metadata = note_metadata note;
  created_at = now;
}

abbrev pub status_of : Bool → ApprovalStatus
status_of true = approved
status_of false = rejected

abbrev pub set_decided : ℕ → ApprovalStatus → Option String → Approval → Approval
set_decided now status note a = record a {
  status = status;
  decided_at = some now;
  decision_note = note;
}

apply_decision : Environment → ℕ → ℕ → Bool → ℕ → Tx (Unit {0})
unfolding queue_approved reject_awaiting
apply_decision env owner_id event_id approve command_id =
    if approve
    then queue_approved env owner_id event_id command_id
    else reject_awaiting env command_id

-- From the update of the approval to the single commit. `approve` is `decision == "approve"`.
decide : Environment → ℕ → ℕ → Bool → Option String → Approval → Tx (Option Decision)
unfolding apply_decision create_audit_log
decide env owner_id event_id approve note a = do
  modify (write_approval a.id (set_decided env.now (status_of approve) note))
  apply_decision env owner_id event_id approve a.command_id
  create_audit_log (decision_log env.now owner_id a approve note)
  commit
  pure (some (record { approval_id = a.id; status = status_of approve; decided_at = some env.now }))

expire_now : Approval → Tx (Option Decision)
expire_now a = do
  modify (write_approval a.id (λ r. record r { status = expired }))
  commit
  raise (api_error approval_expired 400)

-- A decided approval: the text of the error reads `status.value`.
already_decided : Environment → Tx (Option Decision)
already_decided env =
    if env.loads_enum then raise (api_error approval_already_decided 400) else raise attribute_error

on_approval : Environment → ℕ → ℕ → Bool → String → Option String → Approval → Tx (Option Decision)
unfolding decide expire_now already_decided
on_approval env owner_id event_id approve nonce note a =
    if not (a.owner_id == owner_id)
    then pure none
    else if not (same_status a.status pending)
    then already_decided env
    else if ltb a.expires_at env.now
    then expire_now a
    else if not (str_eq (env.sha256 nonce) a.decision_nonce_hash)
    then raise (api_error invalid_decision_nonce 400)
    else decide env owner_id event_id approve note a

unfoldable pub decide_approval :
    Environment → ℕ → ℕ → ℕ → String → String → Option String → Tx (Option Decision)
unfolding on_approval
decide_approval env approval_id owner_id event_id decision nonce note = do
  found ← gets (find_approval approval_id)
  case_found found (pure none)
      (λ a. on_approval env owner_id event_id (str_eq decision "approve") nonce note a)
