-- ===== src/Worker/Scheduler.antt =====
-- app/workers/scheduler.py: the maintenance tasks on the database.
pub mod Logging
pub mod Presence
pub mod Kept
pub mod Spared
pub mod Stalled
pub mod Rounds
use veyaan_core_backend.Prelude.{
  ℕ, zero, suc, String, Bool, true, false, not, ◌&&◌, ◌||◌, ◌==◌, ◌+◌, ltb, List, [], ◌∷◌, Option,
  none, some, if◌then◌else◌, select, find?, update, take, length,
}
use veyaan_core_backend.Python.{Error, text, state_transition}
use veyaan_core_backend.Database.{Database, LogLevel, Environment}
use veyaan_core_backend.Database.Session.{
  Tx, pure, gets, modify, commit, log, ◌>>=◌, ◌>>◌, case_found, try_catch,
}
use veyaan_core_backend.Command.Model.{
  CommandState, queued, awaiting_approval, approved, delivered, expired, same, TaskState, Task,
  Command,
}
use veyaan_core_backend.Command.StateMachine.{contains, transition_command}
use veyaan_core_backend.Command.Service.{find_task}
use veyaan_core_backend.Approval.Repository.{expire_pending_approvals}
use veyaan_core_backend.Device.Model
use veyaan_core_backend.Device.Model.{PairingRequest, is_pending}

abbrev pub is_stale_pairing : ℕ → PairingRequest → Bool
is_stale_pairing now p = is_pending p.status && ltb p.expires_at now

abbrev pub expire_pairings : ℕ → Database → Database
expire_pairings now db = record db {
  pairings = update (is_stale_pairing now) (λ p. record p { status = Model.expired }) db.pairings;
}

unfoldable pub expire_stale_pairings : ℕ → Tx ℕ
expire_stale_pairings now = do
  count ← gets (λ db. length (select (is_stale_pairing now) db.pairings))
  modify (expire_pairings now)
  pure count

-- The list that the code calls `non_terminal`.
abbrev pub expirable_states : List CommandState
expirable_states = queued ∷ awaiting_approval ∷ approved ∷ delivered ∷ []

abbrev pub is_past : ℕ → Option ℕ → Bool
is_past now none = false
is_past now (some t) = ltb t now

unfoldable pub is_overdue : ℕ → Command → Bool
unfolding contains
is_overdue now c = contains c.state expirable_states && is_past now c.expires_at

-- The bounded batch.
unfoldable pub overdue : ℕ → Database → List Command
unfolding is_overdue
overdue now db = take 100 (select (is_overdue now) db.commands)

abbrev pub is_finished : TaskState → Bool
is_finished TaskState.succeeded = true
is_finished TaskState.failed = true
is_finished TaskState.cancelled = true
is_finished _ = false

unfoldable pub fail_task : Task → Database → Database
fail_task t db = record db {
  tasks =
      update (λ r. r.id == t.id)
        (λ r. record r { state = TaskState.failed; result_summary = text "expired" }) db.tasks;
}

pub expire_task : ℕ → Tx (Unit {0})
unfolding find_task
expire_task command_id = do
  task ← gets (find_task command_id)
  case_found task (pure tt)
      (λ t. if not (is_finished t.state) then modify (fail_task t) else pure tt)

-- The handlers of the loop body: either logs and the loop goes on, unless the logger raises.
pub on_error : Environment → Error → Tx Bool
on_error env (state_transition _) = do log env LogLevel.warning; pure false
on_error env _ = do log env LogLevel.error; pure false

-- The loop body.
unfoldable pub expire_command : Environment → Command → Tx Bool
unfolding expire_task on_error
expire_command env c =
    try_catch (do transition_command env c.id expired "scheduler" none; expire_task c.id; pure true)
      (on_error env)

unfoldable pub expire_all : Environment → List Command → ℕ → Tx ℕ
unfolding expire_command
expire_all env [] expired_count = pure expired_count
expire_all env (c ∷ commands) expired_count = do
  done ← expire_command env c
  expire_all env commands (if done then expired_count + 1 else expired_count)

unfoldable pub expire_commands : Environment → Tx ℕ
unfolding expire_all overdue
expire_commands env = do commands ← gets (overdue env.now); expire_all env commands 0

-- `if count: logger.info(…, count=count)`.
pub log_count : Environment → ℕ → Tx (Unit {0})
log_count env zero = pure tt
log_count env (suc _) = log env LogLevel.info

-- The part of `run_tasks` in the first session.
unfoldable pub maintain : Environment → Tx (Unit {0})
unfolding expire_stale_pairings expire_commands expire_pending_approvals log_count
maintain env = do
  expired_pairings ← expire_stale_pairings env.now
  log_count env expired_pairings
  expired_approvals ← expire_pending_approvals env.now
  log_count env expired_approvals
  expired_commands ← expire_commands env
  log_count env expired_commands
  commit
