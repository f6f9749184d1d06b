-- ===== src/Command/Lifecycle.antt =====
-- What every operation of the program may do to the commands: keep them, move them along the state
-- machine only, leave their request as it was, and record each move as an event.
pub mod Transition
use veyaan_core_backend.Prelude.{
  ℕ, Bool, true, not, ◌||◌, Option, none, some, List, [], ◌∷◌, ◌++◌, any, ◌≡◌, refl, subst, sym,
}
use veyaan_core_backend.Database.{Database}
use veyaan_core_backend.Database.Session.{Session, Tx}
use veyaan_core_backend.Command.Model.{
  CommandState, received, awaiting_approval, approved, rejected, cancelled, expired,
  blocked_by_emergency_stop, same, Command, CommandStateEvent,
}
use veyaan_core_backend.Command.StateMachine.{find_command, contains}
use veyaan_core_backend.Command.StateMachine.Moves.{accepts}
use veyaan_core_backend.Command.StateMachine.Writes.{SameRequest, trace}

-- A path of moves that the state machine accepts.
pub data Reaches (a : CommandState) : CommandState → Type 0 where
  here : Reaches a a
  move : {b : CommandState} → Reaches a b → (c : CommandState) → accepts b c ≡ true → Reaches a c

pub Reaches-trans : {a b c : CommandState} → Reaches a b → Reaches b c → Reaches a c
Reaches-trans p here = p
Reaches-trans p (move q d h) = move (Reaches-trans p q) d h

-- A list of events is a chain from one state to another: each starts where the one before it ended,
-- the first of all enters RECEIVED, and each other is a move that the state machine accepts.
abbrev pub Permitted : Option CommandState → CommandState → Type 0
Permitted none s = s ≡ received
Permitted (some a) s = accepts a s ≡ true

abbrev pub Chain : Option CommandState → List CommandStateEvent → Option CommandState → Type 0
Chain a [] b = a ≡ b
Chain a (e ∷ es) b =
    (e.previous_state ≡ a) × Permitted a e.new_state × Chain (some e.new_state) es b

pub Chain-append :
    (a b c : Option CommandState) (es fs : List CommandStateEvent)
    → Chain a es b
    → Chain b fs c
    → Chain a (es ++ fs) c
Chain-append a b c [] fs h g = subst (λ o. Chain o fs c) (sym h) g
Chain-append a b c (e ∷ es) fs h g = (h.0, h.1, Chain-append (some e.new_state) b c es fs h.2 g)

abbrev pub state_of : Option Command → Option CommandState
state_of none = none
state_of (some c) = some c.state

-- The events of command `j` lead from nothing to the state of its row.
abbrev pub IsRecorded : ℕ → Database → Type 0
IsRecorded j db = Chain none (trace j db) (state_of (find_command j db))

abbrev pub visits : CommandState → List CommandStateEvent → Bool
visits s es = any (λ e. same e.new_state s) es

-- The states in which a command that needs an approval may be, and has none.
abbrev pub without_approval : List CommandState
without_approval =
    awaiting_approval ∷ rejected ∷ cancelled ∷ expired ∷ blocked_by_emergency_stop ∷ []

-- A command that needs an approval is in one of these states, or was approved.
abbrev pub is_gated : Option Command → List CommandStateEvent → Bool
is_gated none es = true
is_gated (some c) es =
    not c.requires_approval || (contains c.state without_approval || visits approved es)

abbrev pub IsGated : ℕ → Database → Type 0
IsGated j db = is_gated (find_command j db) (trace j db) ≡ true

-- The events of `j` in `b` are those in `a`, and then a chain from its old state to its new one.
pub record Extends (j : ℕ) (a b : Database) : Type 0 where
  pub events : List CommandStateEvent
  pub trace_eq : trace j b ≡ trace j a ++ events
  pub chain : Chain (state_of (find_command j a)) events (state_of (find_command j b))

-- How a command stands after an operation.
pub record Continues (a b : Command) : Type 0 where
  pub same_request : SameRequest a b
  pub reaches : Reaches a.state b.state

pub record Lifecycle (a b : Database) : Type 0 where
  pub commands :
      (j : ℕ) (c : Command)
      → find_command j a ≡ some c
      → (d : Command) × (find_command j b ≡ some d) × Continues c d
  pub extends : (j : ℕ) → Extends j a b
  pub gated : (j : ℕ) → IsGated j a → IsGated j b
