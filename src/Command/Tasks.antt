-- ===== src/Command/Tasks.antt =====
-- app/commands/service.py: TaskService.
use veyaan_core_backend.Prelude.{
  ℕ, String, ◌==◌, ◌+◌, Option, none, some, ◌≡◌, refl, find?, find?-update_self, update,
}
use mathlib.Core.Option
use veyaan_core_backend.Python.{of_optional}
use veyaan_core_backend.Database.{Database}
use veyaan_core_backend.Database.Session.{Tx, gets, modify, commit, ◌>>◌}
use veyaan_core_backend.Command.Model.{Task, TaskState}
use veyaan_core_backend.Command.Service.{find_task}

unfoldable pub task_by_id : ℕ → Database → Option Task
task_by_id task_id db = find? (λ t. t.id == task_id) db.tasks

unfoldable pub get_task : ℕ → Tx (Option Task)
unfolding task_by_id
get_task task_id = gets (task_by_id task_id)

unfoldable pub get_task_by_command : ℕ → Tx (Option Task)
unfolding find_task
get_task_by_command command_id = gets (find_task command_id)

abbrev started : ℕ → TaskState → Option ℕ
started now TaskState.running = some now
started now s = none

abbrev finished : ℕ → TaskState → Option ℕ
finished now TaskState.succeeded = some now
finished now TaskState.failed = some now
finished now TaskState.cancelled = some now
finished now s = none

-- `(current_attempt or 0) + 1`
abbrev attempts : TaskState → Task → ℕ
attempts TaskState.running t = t.attempt_count + 1
attempts s t = t.attempt_count

-- The values of the UPDATE: every column is written, with `None` where the caller gives nothing.
unfoldable pub new_values :
    ℕ → TaskState → Option String → Option String → Option String → Task → Task
new_values now s summary code message t = record t {
  state = s;
  started_at = started now s;
  finished_at = finished now s;
  result_summary = of_optional summary;
  error_code = of_optional code;
  error_message = of_optional message;
  attempt_count = attempts s t;
}

unfoldable pub write_task : ℕ → (Task → Task) → Database → Database
write_task task_id f db = record db { tasks = update (λ t. t.id == task_id) f db.tasks }

unfoldable pub update_task_state :
    ℕ → ℕ → TaskState → Option String → Option String → Option String → Tx (Unit {0})
unfolding write_task new_values
update_task_state now task_id s summary code message =
    modify (write_task task_id (new_values now s summary code message)) >> commit

-- A task that its id finds is found with the new values after the write.
pub task_by_id-write :
    (task_id : ℕ) (now : ℕ) (s : TaskState) (summary code message : Option String) (db : Database)
    → task_by_id task_id (write_task task_id (new_values now s summary code message) db)
      ≡ Option.map (new_values now s summary code message) (task_by_id task_id db)
unfolding task_by_id write_task new_values
task_by_id-write task_id now s summary code message db =
    find?-update_self (λ t. t.id == task_id) (new_values now s summary code message) db.tasks
      (λ t. refl)
