-- ===== src/Command/StateMachine/Writes.antt =====
-- What one recorded transition changes: one row, in the fields of its state, and one event.
use mathlib.Core.Option
use veyaan_core_backend.Prelude.{
  ℕ, String, false, ◌==◌, Option, none, some, List, [], ◌∷◌, ◌++◌, ◌≡◌, ap, ◌∙◌, arith, select,
  ==→eq, find?-update_self, find?-update_other, find?-fits, select-append_kept,
  select-append_dropped, ==_refl,
}
use veyaan_core_backend.Python.{Dict}
use veyaan_core_backend.Database.{Database}
use veyaan_core_backend.Command.Model.{CommandState, succeeded, failed, Command, CommandStateEvent}
use veyaan_core_backend.Command.StateMachine.{write_state, find_command, record_transition}

-- The columns that are fixed when a command is created.
pub record SameRequest (a b : Command) : Type 0 where
  pub id : b.id ≡ a.id
  pub device_id : b.device_id ≡ a.device_id
  pub command_type : b.command_type ≡ a.command_type
  pub parameters : b.parameters ≡ a.parameters
  pub risk_level : b.risk_level ≡ a.risk_level
  pub idempotency_key : b.idempotency_key ≡ a.idempotency_key
  pub requires_approval : b.requires_approval ≡ a.requires_approval
  pub expires_at : b.expires_at ≡ a.expires_at
  pub created_at : b.created_at ≡ a.created_at

pub SameRequest-refl : (a : Command) → SameRequest a a
SameRequest-refl a = ground arith

pub SameRequest-trans : {a b c : Command} → SameRequest a b → SameRequest b c → SameRequest a c
SameRequest-trans p q = ground arith

pub write_state-SameRequest :
    (now : ℕ) (s : CommandState) (metadata : Option Dict) (c : Command)
    → SameRequest c (write_state now s metadata c)
unfolding write_state
write_state-SameRequest now succeeded none c = ground arith
write_state-SameRequest now succeeded (some d) c = ground arith
write_state-SameRequest now failed none c = ground arith
write_state-SameRequest now failed (some []) c = ground arith
write_state-SameRequest now failed (some (p ∷ d)) c = ground arith
write_state-SameRequest now _ metadata c = ground arith

pub state-write_state :
    (now : ℕ) (s : CommandState) (metadata : Option Dict) (c : Command)
    → (write_state now s metadata c).state ≡ s
unfolding write_state
state-write_state now succeeded none c = ground arith
state-write_state now succeeded (some d) c = ground arith
state-write_state now failed none c = ground arith
state-write_state now failed (some []) c = ground arith
state-write_state now failed (some (p ∷ d)) c = ground arith
state-write_state now _ metadata c = ground arith

pub id-write_state :
    (now : ℕ) (s : CommandState) (metadata : Option Dict) (c : Command)
    → (write_state now s metadata c).id ≡ c.id
id-write_state now s metadata c = (write_state-SameRequest now s metadata c).id

pub find_command-id : (j : ℕ) (db : Database) (c : Command) → find_command j db ≡ some c → c.id ≡ j
unfolding find_command
find_command-id j db c h = ==→eq c.id j (find?-fits (λ r. r.id == j) db.commands c h)

-- The events of one command, oldest first.
unfoldable pub trace : ℕ → Database → List CommandStateEvent
trace j db = select (λ e. e.command_id == j) db.state_events

module _ (now : ℕ) (s : CommandState) (source : String) (metadata : Option Dict) (c : Command)
    (db : Database) where
  abbrev after : Database
  after = record_transition now s source metadata c db

  pub find_command-record_transition_self :
      find_command c.id db ≡ some c → find_command c.id after ≡ some (write_state now s metadata c)
  unfolding find_command record_transition
  find_command-record_transition_self found =
      find?-update_self (λ r. r.id == c.id) (write_state now s metadata) db.commands
        (λ r. ap (λ i. i == c.id) (id-write_state now s metadata r))
      ∙ ap (Option.map (write_state now s metadata)) found

  pub find_command-record_transition_other :
      (j : ℕ) → (c.id == j) ≡ false → find_command j after ≡ find_command j db
  unfolding find_command record_transition
  find_command-record_transition_other j ne =
      find?-update_other (λ r. r.id == j) (λ r. r.id == c.id) (write_state now s metadata)
        db.commands (λ r. ap (λ i. i == j) (id-write_state now s metadata r)) (λ r h. ground arith)

  abbrev pub event : CommandStateEvent
  event = record {
    command_id = c.id;
    previous_state = some c.state;
    new_state = s;
    event_source = source;
    event_metadata = metadata;
  }

  pub trace-record_transition_self : trace c.id after ≡ trace c.id db ++ event ∷ []
  unfolding trace record_transition
  trace-record_transition_self =
      select-append_kept (λ e. e.command_id == c.id) db.state_events event (==_refl c.id)

  pub trace-record_transition_other : (j : ℕ) → (c.id == j) ≡ false → trace j after ≡ trace j db
  unfolding trace record_transition
  trace-record_transition_other j ne =
      select-append_dropped (λ e. e.command_id == j) db.state_events event ne
