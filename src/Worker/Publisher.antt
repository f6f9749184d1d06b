-- ===== src/Worker/Publisher.antt =====
-- app/workers/outbox_publisher.py: OutboxPublisher.process_batch
pub mod Attempts
pub mod Drain
pub mod Kept
pub mod Stopped
use text.Mathlib.Text.{find?}
use veyaan_core_backend.Prelude.{
  ℕ, String, Bool, true, false, ◌&&◌, ◌+◌, leb, List, [], ◌∷◌, Option, none, some, if◌then◌else◌,
  str_eq,
}
use veyaan_core_backend.Python.{Error, publish_error, Result, ok, err}
use veyaan_core_backend.Database.{LogLevel, Environment, World, publish}
use veyaan_core_backend.Database.Session.{
  Tx, pure, raise, gets, gets_calls, commit, call, log, ◌>>=◌, ◌>>◌, case_found, try_catch,
  with_session,
}
use veyaan_core_backend.Command.Model.{Command, blocked_by_emergency_stop}
use veyaan_core_backend.Command.StateMachine.{find_command, transition_command}
use veyaan_core_backend.Device.Model.{Device}
use veyaan_core_backend.Device.Repository.{find_device}
use veyaan_core_backend.EmergencyStop.Service.{is_active}
use veyaan_core_backend.Outbox.Model.{OutboxEvent}
use veyaan_core_backend.Outbox.Repository.{
  get_unpublished, mark_published, mark_failed, increment_attempt,
}

abbrev pub batch_size : ℕ
batch_size = 100

abbrev pub is_found : Option ℕ → Bool
is_found none = false
is_found (some i) = true

-- `event.aggregate_type == "command" and "queued" in event.event_type`
unfoldable pub is_command_ready : OutboxEvent → Bool
is_command_ready e = str_eq e.aggregate_type "command" && is_found (find? e.event_type "queued")

-- nats_client.publish_js; a failure raises.
publish_js : Environment → OutboxEvent → Tx (Unit {0})
publish_js env e = do
  failure ← gets_calls (λ calls. env.publish_error calls e.id)
  case_found failure (call (publish e.subject e.payload e.id)) (λ t. raise (publish_error t))

send : Environment → OutboxEvent → Tx Bool
unfolding publish_js mark_published
send env e = do publish_js env e; mark_published env.now e.id; pure true

-- A command that cannot be blocked is logged: both loggers of the workers are given keywords.
block_command : Environment → OutboxEvent → Command → Tx (Unit {0})
block_command env e c =
    try_catch
      (do transition_command env c.id blocked_by_emergency_stop "outbox_enforcement" none; pure tt)
      (λ _. log env LogLevel.warning)

-- The command of an owner whose stop is active is blocked, and its event is failed.
block : Environment → OutboxEvent → Command → Tx Bool
unfolding block_command mark_failed
block env e c = do
  block_command env e c
  mark_failed e.id "Blocked by active emergency stop"
  pure false

enforce_stop : Environment → OutboxEvent → Command → Device → Tx Bool
unfolding is_active block send
enforce_stop env e c d = do
  stopped ← is_active env d.owner_id
  if stopped then block env e c else send env e

-- The body of the `try`: whether the event was published.
publish_checked : Environment → OutboxEvent → Tx Bool
unfolding send enforce_stop find_command find_device is_command_ready
publish_checked env e =
    if is_command_ready e
    then (do
      command ← gets (find_command e.aggregate_id)
      case_found command (send env e) (λ c. do
        device ← gets (find_device c.device_id)
        case_found device (send env e) (λ d. enforce_stop env e c d)))
    else send env e

-- The handler of the `try`: it logs, and the fourth failure is final.
on_failure : Environment → OutboxEvent → Error → Tx Bool
unfolding mark_failed increment_attempt
on_failure env e error = do
  log env LogLevel.warning
  if leb 3 e.attempt_count
      then (do mark_failed e.id (env.error_text error); pure false)
      else (do increment_attempt e.id (env.error_text error); pure false)

unfoldable pub publish_event : Environment → OutboxEvent → Tx Bool
unfolding publish_checked on_failure
publish_event env e = try_catch (publish_checked env e) (on_failure env e)

unfoldable pub publish_all : Environment → List OutboxEvent → ℕ → Tx ℕ
publish_all env [] published = pure published
publish_all env (e ∷ events) published = do
  sent ← publish_event env e
  publish_all env events (if sent then published + 1 else published)

unfoldable pub publish_batch : Environment → List OutboxEvent → Tx ℕ
unfolding publish_all
publish_batch env [] = pure 0
publish_batch env (e ∷ events) = do
  published ← publish_all env (e ∷ events) 0
  commit
  pure published

unfoldable pub process_batch : Environment → Tx ℕ
unfolding publish_batch get_unpublished
process_batch env = do events ← gets (get_unpublished env.now batch_size); publish_batch env events

-- Whether the loop of `start` goes on: an exception of a round is logged, and one of the logger ends
-- the loop.
abbrev pub goes_on {ℓ} : {A : Type ℓ} → Environment → Result A → Bool
goes_on env (ok a) = true
goes_on env (err e) = env.logs LogLevel.error

-- The loop of `start`, over what each of its rounds finds outside.
unfoldable pub start : List Environment → World → World
unfolding process_batch
start [] w = w
start (env ∷ rounds) w =
    let (ended, after) = with_session (process_batch env) w in
    let rest = start rounds after in if goes_on env ended then rest else after
