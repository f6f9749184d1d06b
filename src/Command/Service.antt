-- ===== src/Command/Service.antt =====
-- app/commands/service.py: CommandService
pub mod Replay
pub mod Stopped
pub mod Kept
pub mod Lifecycle
pub mod Atomicity
use veyaan_core_backend.Prelude.{
  ℕ, String, Bool, true, false, not, ◌&&◌, ◌||◌, ◌==◌, List, [], ◌∷◌, ◌++◌, Option, none, some,
  if◌then◌else◌, find?, select, str_eq,
}
use Prim.Native.String.{◌++◌ as str_append}
use veyaan_core_backend.Python.{
  Json, null, text, uuid, Dict, of_optional_time, Error, api_error, attribute_error,
  validation_error, idempotency_conflict, device_not_found, device_revoked, invalid_command_type,
  emergency_stop_active, state_transition,
}
use veyaan_core_backend.Database.{Database, Environment}
use veyaan_core_backend.Database.Session.{
  Tx, pure, raise, gets, modify, commit, ◌>>=◌, ◌>>◌, case_found, try_catch,
}
use veyaan_core_backend.Command.Model.{
  RiskLevel, low, medium, high, prohibited, CommandState, received, validated, awaiting_approval,
  approved, rejected, queued, cancelled, TaskState, Command, Task, CommandStateEvent,
}
use veyaan_core_backend.Command.Registry.{CommandDefinition, command_registry}
use veyaan_core_backend.Command.Registry
use veyaan_core_backend.Command.StateMachine.{find_command, transition_command}
use veyaan_core_backend.Approval.Repository.{Generated, create_approval}
use veyaan_core_backend.Device.Model.{Device, is_trusted}
use veyaan_core_backend.Device.Repository.{find_device}
use veyaan_core_backend.EmergencyStop.Service.{is_active}
use veyaan_core_backend.Outbox.Model.{command_ready}
use veyaan_core_backend.Outbox.Repository.{add_event}

-- app/commands/schemas.py: the request after its own validation, and the response.
pub record CreateCommandRequest : Type 0 where
  pub device_id : ℕ
  pub command_type : String
  pub parameters : Json
  pub idempotency_key : String
  pub expires_at : Option ℕ
  pub delayed_execution_allowed : Bool
  pub requires_approval : Bool

pub record CreateCommandResponse : Type 0 where
  pub command_id : ℕ
  pub task_id : ℕ
  pub state : CommandState
  pub requires_approval : Bool
  pub approval_id : Option ℕ
  pub decision_nonce : Option String

-- The ids and the nonce that are generated for a new command.
pub record Fresh : Type 0 where
  pub command_id : ℕ
  pub task_id : ℕ
  pub event_id : ℕ
  pub approval : Generated

unfoldable pub find_by_key : ℕ → String → Database → Option Command
find_by_key device_id key db =
    find? (λ c. (c.device_id == device_id) && str_eq c.idempotency_key key) db.commands

unfoldable pub find_task : ℕ → Database → Option Task
find_task command_id db = find? (λ t. t.command_id == command_id) db.tasks

abbrev pub risk_text : RiskLevel → String
risk_text low = "low"
risk_text medium = "medium"
risk_text high = "high"
risk_text prohibited = "prohibited"

-- A repeated key: a conflict when the type is another. Else the code asks the repository for the
-- task by `get_task`, which `CommandRepository` does not have, so the answer is never built.
replay : CreateCommandRequest → Command → Tx CreateCommandResponse
replay request e =
    if not (str_eq e.command_type request.command_type)
    then raise (api_error idempotency_conflict 409)
    else raise attribute_error

abbrev pub new_command : Environment → Fresh → CreateCommandRequest → CommandDefinition → Command
new_command env ids request d = record {
  id = ids.command_id;
  device_id = request.device_id;
  command_type = request.command_type;
  parameters = request.parameters;
  risk_level = d.risk_level;
  idempotency_key = request.idempotency_key;
  state = received;
  requires_approval = d.requires_approval || request.requires_approval;
  delayed_execution_allowed = request.delayed_execution_allowed || d.delayed_execution_allowed;
  expires_at = request.expires_at;
  delivered_at = none;
  acknowledged_at = none;
  started_at = none;
  finished_at = none;
  result_data = null;
  result_summary = null;
  error_code = null;
  error_message = null;
  created_at = env.now;
  updated_at = env.now;
}

abbrev pub new_task : Fresh → Task
new_task ids = record {
  id = ids.task_id;
  command_id = ids.command_id;
  state = TaskState.pending;
  attempt_count = 0;
  started_at = none;
  finished_at = none;
  result_summary = null;
  error_code = null;
  error_message = null;
}

abbrev pub first_event : Fresh → CommandStateEvent
first_event ids = record {
  command_id = ids.command_id;
  previous_state = none;
  new_state = received;
  event_source = "api";
  event_metadata = none;
}

-- The three rows that are flushed before the first transition.
unfoldable pub insert_rows :
    Environment → Fresh → CreateCommandRequest → CommandDefinition → Database → Database
insert_rows env ids request d db = record db {
  commands = db.commands ++ new_command env ids request d ∷ [];
  tasks = db.tasks ++ new_task ids ∷ [];
  state_events = db.state_events ++ first_event ids ∷ [];
}

-- The payload of `command.queued`, here and in the approval service.
abbrev pub queued_payload : Command → Dict
queued_payload c =
    ("command_id", uuid c.id)
    ∷ ("device_id", uuid c.device_id)
    ∷ ("command_type", text c.command_type)
    ∷ ("parameters", c.parameters)
    ∷ ("expires_at", of_optional_time c.expires_at)
    ∷ ("risk_level", text (risk_text c.risk_level))
    ∷ []

-- f"Approve {command_type}" and f"Approve command {command_type} for device {device_id}"
abbrev pub approval_title : Command → String
approval_title c = str_append "Approve " c.command_type

abbrev pub approval_description : Environment → Command → String
approval_description env c =
    str_append "Approve command "
      (str_append c.command_type (str_append " for device " (env.uuid_text c.device_id)))

abbrev pub state_or : CommandState → Option Command → CommandState
state_or s none = s
state_or s (some c) = c.state

-- `c` is the row as it was created; `device_id` and the payload's columns do not change after it.
pub await_approval : Environment → Fresh → ℕ → Command → Tx CreateCommandResponse
await_approval env ids owner_id c = do
  transition_command env c.id validated "api" none
  row ← transition_command env c.id awaiting_approval "api" none
  made ←
      create_approval env ids.approval c.id owner_id c.risk_level (approval_title c)
        (approval_description env c) 30
  commit
  pure (record {
    command_id = c.id;
    task_id = ids.task_id;
    state = state_or c.state row;
    requires_approval = true;
    approval_id = some made.0.id;
    decision_nonce = some made.1;
  })

pub enqueue : Environment → Fresh → Command → Tx CreateCommandResponse
unfolding add_event
enqueue env ids c = do
  transition_command env c.id validated "api" none
  row ← transition_command env c.id queued "api" none
  add_event env ids.event_id "command.queued" "command" c.id (command_ready c.device_id)
      (queued_payload c)
  commit
  pure (record {
    command_id = c.id;
    task_id = ids.task_id;
    state = state_or c.state row;
    requires_approval = false;
    approval_id = none;
    decision_nonce = none;
  })

create_new :
    Environment → Fresh → CreateCommandRequest → ℕ → CommandDefinition → Tx CreateCommandResponse
unfolding insert_rows await_approval enqueue
create_new env ids request owner_id d = do
  modify (insert_rows env ids request d)
  let c = new_command env ids request d
  if c.requires_approval then await_approval env ids owner_id c else enqueue env ids c

-- The registry and the parameter schema.
define : Environment → Fresh → CreateCommandRequest → ℕ → Tx CreateCommandResponse
unfolding create_new command_registry Registry.get
define env ids request owner_id =
    case_found (Registry.get request.command_type command_registry)
      (raise (api_error invalid_command_type 422))
      (λ d.
        if not (env.validates request.command_type request.parameters)
        then raise validation_error
        else create_new env ids request owner_id d)

-- The checks on the owner's device. `trust_status.value` fails on a column that is a plain text.
on_device : Environment → Fresh → CreateCommandRequest → ℕ → Device → Tx CreateCommandResponse
unfolding define replay is_active find_by_key
on_device env ids request owner_id device =
    if not (device.owner_id == owner_id)
    then raise (api_error device_not_found 404)
    else if not env.loads_enum
    then raise attribute_error
    else if not (is_trusted device.trust_status)
    then raise (api_error device_revoked 403)
    else do
      stopped ← is_active env owner_id
      if stopped then raise (api_error emergency_stop_active 423) else do
        existing ← gets (find_by_key request.device_id request.idempotency_key)
        case_found existing (define env ids request owner_id) (λ e. replay request e)

unfoldable pub create_command :
    Environment → Fresh → CreateCommandRequest → ℕ → Tx CreateCommandResponse
unfolding on_device find_device
create_command env ids request owner_id = do
  device ← gets (find_device request.device_id)
  case_found device (raise (api_error device_not_found 404))
      (λ d. on_device env ids request owner_id d)

unfoldable pub get_command : ℕ → Tx (Option Command)
get_command command_id = gets (find_command command_id)

-- `command.device.owner_id`: the device that the foreign key of the command names.
abbrev pub is_owner : ℕ → Option Device → Bool
is_owner owner_id none = false
is_owner owner_id (some d) = d.owner_id == owner_id

-- `except StateTransitionError: return False`; anything else goes on.
abbrev pub on_refusal : Error → Tx Bool
on_refusal (state_transition _) = pure false
on_refusal e = raise e

cancel_row : Environment → Command → Tx Bool
cancel_row env c =
    try_catch (do transition_command env c.id cancelled "api" none; commit; pure true) on_refusal

unfoldable pub cancel_command : Environment → ℕ → ℕ → Tx Bool
unfolding cancel_row
cancel_command env command_id owner_id = do
  found ← gets (find_command command_id)
  case_found found (pure false) (λ c. do
    device ← gets (find_device c.device_id)
    if not (is_owner owner_id device) then pure false else cancel_row env c)

unfoldable pub events_of : ℕ → Database → List CommandStateEvent
events_of command_id db = select (λ e. e.command_id == command_id) db.state_events

unfoldable pub get_state_events : ℕ → ℕ → Tx (List CommandStateEvent)
get_state_events command_id owner_id = do
  found ← gets (find_command command_id)
  case_found found (pure []) (λ c. do
    device ← gets (find_device c.device_id)
    if not (is_owner owner_id device) then pure [] else gets (events_of command_id))

unfoldable pub approve_command : Environment → ℕ → Tx Bool
approve_command env command_id =
    try_catch
      (do
        transition_command env command_id approved "approval" none
        transition_command env command_id queued "approval" none
        commit
        pure true)
      on_refusal

unfoldable pub reject_command : Environment → ℕ → Tx Bool
reject_command env command_id =
    try_catch (do transition_command env command_id rejected "approval" none; commit; pure true)
      on_refusal
