-- ===== src/Command/StateMachine.antt =====
-- app/commands/state_machine.py
pub mod Moves
pub mod Writes
pub mod Atomicity
use veyaan_core_backend.Prelude.{
  ℕ, String, Bool, true, false, not, ◌&&◌, ◌==◌, Option, none, some, List, [], ◌∷◌, ◌++◌,
  if◌then◌else◌, find?, update, any,
}
use veyaan_core_backend.Python.{Dict, Json, null, lookup, state_transition}
use veyaan_core_backend.Database.{Database, Environment}
use veyaan_core_backend.Database.Session.{Tx, pure, raise, gets, modify, case_found, ◌>>=◌, ◌>>◌}
use veyaan_core_backend.Command.Model.{
  CommandState, received, validated, awaiting_approval, approved, rejected, queued, delivered,
  acknowledged, running, succeeded, failed, timed_out, cancelled, expired,
  blocked_by_emergency_stop, same, Command, CommandStateEvent,
}

-- `ALLOWED_TRANSITIONS.get(state, set())`
unfoldable pub allowed_transitions : CommandState → List CommandState
allowed_transitions received = validated ∷ []
allowed_transitions validated =
    awaiting_approval ∷ queued ∷ rejected ∷ blocked_by_emergency_stop ∷ []
allowed_transitions awaiting_approval = approved ∷ rejected ∷ expired ∷ cancelled ∷ []
allowed_transitions approved = queued ∷ blocked_by_emergency_stop ∷ expired ∷ cancelled ∷ []
allowed_transitions queued =
    delivered ∷ blocked_by_emergency_stop ∷ expired ∷ cancelled ∷ failed ∷ []
allowed_transitions delivered = acknowledged ∷ timed_out ∷ cancelled ∷ failed ∷ []
allowed_transitions acknowledged = running ∷ failed ∷ cancelled ∷ []
allowed_transitions running = succeeded ∷ failed ∷ timed_out ∷ cancelled ∷ []
allowed_transitions _ = []

-- `TERMINAL_STATES`
unfoldable pub terminal_states : List CommandState
terminal_states =
    succeeded ∷ failed ∷ timed_out ∷ cancelled ∷ expired ∷ rejected ∷ blocked_by_emergency_stop ∷ []

-- `state in states`
unfoldable pub contains : CommandState → List CommandState → Bool
unfolding any
contains s states = any (same s) states

-- The value of a key that may be missing, as `metadata.get(key)` gives it.
abbrev or_null : Option Json → Json
or_null none = null
or_null (some v) = v

-- The fields that a SUCCEEDED transition takes from the metadata.
with_result : Option Dict → Command → Command
unfolding lookup
with_result none c = c
with_result (some d) c =
    let summed : Command = elim (lookup "result_summary" d) [
      | none ↦ c
      | some v ↦ record c { result_summary = v }
    ] in
    elim (lookup "result_data" d) [ none ↦ summed | some v ↦ record summed { result_data = v } ]

-- The fields that a FAILED transition takes from the metadata; an empty `dict` is false.
with_error : Option Dict → Command → Command
unfolding lookup
with_error none c = c
with_error (some []) c = c
with_error (some (p ∷ d)) c = record c {
  error_code = or_null (lookup "error_code" (p ∷ d));
  error_message = or_null (lookup "error_message" (p ∷ d));
}

-- The assignments to the row, after the guards.
unfoldable pub write_state : ℕ → CommandState → Option Dict → Command → Command
unfolding with_result with_error
write_state now delivered metadata c = record c {
  state = delivered;
  updated_at = now;
  delivered_at = some now;
}
write_state now acknowledged metadata c = record c {
  state = acknowledged;
  updated_at = now;
  acknowledged_at = some now;
}
write_state now running metadata c = record c {
  state = running;
  updated_at = now;
  started_at = some now;
}
write_state now succeeded metadata c =
    with_result metadata (record c { state = succeeded; updated_at = now; finished_at = some now })
write_state now failed metadata c =
    with_error metadata (record c { state = failed; updated_at = now; finished_at = some now })
write_state now timed_out metadata c = record c {
  state = timed_out;
  updated_at = now;
  finished_at = some now;
}
write_state now cancelled metadata c = record c {
  state = cancelled;
  updated_at = now;
  finished_at = some now;
}
write_state now expired metadata c = record c {
  state = expired;
  updated_at = now;
  finished_at = some now;
}
write_state now s metadata c = record c { state = s; updated_at = now }

unfoldable pub find_command : ℕ → Database → Option Command
find_command command_id db = find? (λ c. c.id == command_id) db.commands

-- The two flushes: the row, then the `CommandStateEvent`.
unfoldable pub record_transition :
    ℕ → CommandState → String → Option Dict → Command → Database → Database
record_transition now s source metadata c db = record db {
  commands = update (λ r. r.id == c.id) (write_state now s metadata) db.commands;
  state_events =
      db.state_events
      ++ record {
        command_id = c.id;
        previous_state = some c.state;
        new_state = s;
        event_source = source;
        event_metadata = metadata;
      }
        ∷ [];
}

write_transition : Environment → CommandState → String → Option Dict → Command → Tx (Option Command)
write_transition env s source metadata c = do
  modify (record_transition env.now s source metadata c)
  pure (some (write_state env.now s metadata c))

-- The guards on the row that was locked.
transition_row : Environment → CommandState → String → Option Dict → Command → Tx (Option Command)
unfolding write_transition
transition_row env s source metadata c =
    if contains c.state terminal_states && not (same c.state s)
    then raise (state_transition c.id)
    else if not (contains s (allowed_transitions c.state))
    then (if not (same c.state s)
        then raise (state_transition c.id)
        else write_transition env s source metadata c)
    else write_transition env s source metadata c

-- The trigger of migration 007 on the column `state` is not applied: Migrations compares it.
unfoldable pub transition_command :
    Environment → ℕ → CommandState → String → Option Dict → Tx (Option Command)
unfolding transition_row
transition_command env command_id s source metadata = do
  found ← gets (find_command command_id)
  case_found found (pure none) (λ c. transition_row env s source metadata c)
