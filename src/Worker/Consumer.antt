-- ===== src/Worker/Consumer.antt =====
-- app/workers/command_consumer.py: the handlers of the command lifecycle.
pub mod Routing
pub mod Replies
pub mod Redelivery
pub mod Others
pub mod Kept
use veyaan_core_backend.Prelude.{
  ℕ, zero, suc, String, Bool, true, false, not, ◌&&◌, ◌==◌, List, [], ◌∷◌, Option, none, some,
  if◌then◌else◌, select, update, str_eq,
}
use veyaan_core_backend.Python.{
  Json, null, flag, num, text, uuid, time, tagged, items, fields, nil, cons, end, field, Dict,
  lookup, Error, attribute_error, multiple_results, state_transition, Result, ok, err,
}
use veyaan_core_backend.Database.{Database, Environment}
use veyaan_core_backend.Database.Session.{
  Tx, pure, raise, gets, modify, commit, ◌>>=◌, ◌>>◌, case_found, try_catch,
}
use veyaan_core_backend.Command.Model.{
  CommandState, delivered, acknowledged, running, succeeded, failed, same, TaskState, Task, Command,
  CommandStateEvent,
}
use veyaan_core_backend.Command.StateMachine.{find_command, transition_command}

-- Python's truth of a value.
abbrev pub truthy : Json → Bool
truthy null = false
truthy (flag b) = b
truthy (num n) = not (n == 0)
truthy (text s) = not (str_eq s "")
truthy (items nil) = false
truthy (items (cons v vs)) = true
truthy (fields end) = false
truthy (fields (field k v fs)) = true
truthy _ = true

-- `payload.get(key)`
abbrev pub get_or : Json → Option Json → Json
get_or default none = default
get_or default (some v) = v

unfoldable pub get : String → Json → Dict → Json
unfolding lookup
get key default payload = get_or default (lookup key payload)

-- `UUID(command_id_str)`: the id; `none` for a ValueError or a TypeError, which a handler catches; or
-- the AttributeError of a value that is neither `None` nor a text, which has no `replace`.
abbrev pub to_uuid : Json → Result (Option ℕ)
to_uuid (uuid n) = ok (some n)
to_uuid null = ok none
to_uuid (text s) = ok none
to_uuid (time t) = ok none
to_uuid (tagged p n) = ok none
to_uuid _ = err attribute_error

unfoldable pub command_id_of : Dict → Result (Option ℕ)
unfolding get
command_id_of payload = to_uuid (get "command_id" null payload)

-- A handler goes on with an id, and returns where there is none.
unfoldable pub with_command_id : Result (Option ℕ) → (ℕ → Tx (Unit {0})) → Tx (Unit {0})
with_command_id (ok (some id)) handle = handle id
with_command_id (ok none) handle = pure tt
with_command_id (err e) handle = raise e

-- `device_id_str and str(command.device_id) != device_id_str`
abbrev pub is_other : ℕ → Json → Bool
is_other device_id (uuid n) = not (device_id == n)
is_other device_id v = truthy v

unfoldable pub device_mismatch : Dict → Command → Bool
unfolding get
device_mismatch payload c = is_other c.device_id (get "device_id" null payload)

-- `event_metadata ->> 'dedup_key' = dedup_key`, where the key is a prefix and the command's id.
abbrev pub is_key : String → ℕ → Option Json → Bool
is_key prefix id (some (tagged p n)) = str_eq p prefix && n == id
is_key prefix id _ = false

abbrev pub has_key : String → ℕ → Option Dict → Bool
has_key prefix id none = false
has_key prefix id (some d) = is_key prefix id (lookup "dedup_key" d)

unfoldable pub is_recorded_as : String → ℕ → CommandStateEvent → Bool
unfolding lookup
is_recorded_as prefix id e = e.command_id == id && has_key prefix id e.event_metadata

-- `scalar_one_or_none() is not None`: two rows raise.
one_or_none : List CommandStateEvent → Tx Bool
one_or_none [] = pure false
one_or_none (e ∷ []) = pure true
one_or_none (e ∷ f ∷ es) = raise multiple_results

unfoldable pub duplicates : String → ℕ → Database → List CommandStateEvent
unfolding is_recorded_as
duplicates prefix id db = select (is_recorded_as prefix id) db.state_events

unfoldable pub is_duplicate : String → ℕ → Tx Bool
unfolding one_or_none duplicates
is_duplicate prefix id = do es ← gets (duplicates prefix id); one_or_none es

-- A keyword that is not `None` is written.
abbrev keep_null : Json → Json → Json
keep_null null old = old
keep_null v old = v

unfoldable pub set_task : TaskState → Json → Json → Json → Task → Task
set_task s summary code message t = record t {
  state = s;
  result_summary = keep_null summary t.result_summary;
  error_code = keep_null code t.error_code;
  error_message = keep_null message t.error_message;
}

unfoldable pub write_tasks : ℕ → (Task → Task) → Database → Database
write_tasks command_id f db = record db {
  tasks = update (λ t. t.command_id == command_id) f db.tasks;
}

unfoldable pub update_task_state : ℕ → TaskState → Json → Json → Json → Tx (Unit {0})
unfolding write_tasks set_task
update_task_state command_id s summary code message =
    modify (write_tasks command_id (set_task s summary code message))

abbrev pub dedup : String → ℕ → Dict
dedup prefix id = ("dedup_key", tagged prefix id) ∷ []

-- `except StateTransitionError: return`; anything else goes on to the caller.
abbrev on_refusal : Error → Tx (Unit {0})
on_refusal (state_transition _) = pure tt
on_refusal e = raise e

-- The checks that three handlers make: the id, the duplicate, the row and the device.
guarded : String → Dict → (ℕ → Tx (Unit {0})) → Tx (Unit {0})
unfolding with_command_id command_id_of is_duplicate device_mismatch
guarded prefix payload handle = with_command_id (command_id_of payload) (λ id. do
  duplicate ← is_duplicate prefix id
  if duplicate then pure tt else do
    found ← gets (find_command id)
    case_found found (pure tt) (λ c. if device_mismatch payload c then pure tt else handle id))

deliver : Environment → ℕ → Tx (Unit {0})
unfolding update_task_state
deliver env id =
    try_catch
      (do
        transition_command env id delivered "gateway" (some (dedup "delivered:" id))
        update_task_state id TaskState.running null null null
        commit)
      on_refusal

unfoldable pub handle_delivered : Environment → Dict → Tx (Unit {0})
unfolding guarded deliver
handle_delivered env payload = guarded "delivered:" payload (deliver env)

acknowledge : Environment → Dict → ℕ → Tx (Unit {0})
unfolding update_task_state get
acknowledge env payload id =
    try_catch
      (if truthy (get "accepted" (flag true) payload)
        then (do
          transition_command env id acknowledged "device" (some (dedup "acknowledged:" id))
          commit)
        else (do
          let reason = get "rejection_reason" null payload
          transition_command env id failed "device"
              (some (("error_message", reason) ∷ dedup "acknowledged:" id))
          update_task_state id TaskState.failed null null reason
          commit))
      on_refusal

unfoldable pub handle_acknowledged : Environment → Dict → Tx (Unit {0})
unfolding guarded acknowledge
handle_acknowledged env payload = guarded "acknowledged:" payload (acknowledge env payload)

start_running : Environment → ℕ → Tx (Unit {0})
unfolding update_task_state
start_running env id =
    try_catch
      (do
        transition_command env id running "device" (some (dedup "progress_first:" id))
        update_task_state id TaskState.running null null null)
      on_refusal

unfoldable pub handle_progress : Environment → Dict → Tx (Unit {0})
unfolding with_command_id command_id_of start_running
handle_progress env payload = with_command_id (command_id_of payload) (λ id. do
  found ← gets (find_command id)
  case_found found (pure tt)
      (λ c. do if same c.state acknowledged then start_running env id else pure tt; commit))

finish : Environment → Dict → ℕ → Tx (Unit {0})
unfolding update_task_state get
finish env payload id =
    try_catch
      (if truthy (get "success" (flag false) payload)
        then (do
          transition_command env id succeeded "device" (
              some (
                ("result_data", get "result_data" null payload)
                ∷ ("result_summary", text "success")
                ∷ dedup "result:" id))
          update_task_state id TaskState.succeeded (text "success") null null
          commit)
        else (do
          let code = get "error_code" null payload
          let message = get "error_message" null payload
          transition_command env id failed "device"
              (some (("error_code", code) ∷ ("error_message", message) ∷ dedup "result:" id))
          update_task_state id TaskState.failed null code message
          commit))
      on_refusal

unfoldable pub handle_result : Environment → Dict → Tx (Unit {0})
unfolding guarded finish
handle_result env payload = guarded "result:" payload (finish env payload)
