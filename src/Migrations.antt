-- ===== src/Migrations.antt =====
-- migrations/versions/007_add_state_transition_constraints.py: the trigger of the database on every
-- change of the state of a command.
use veyaan_core_backend.Prelude.{
  Bool, true, not, ◌&&◌, List, [], ◌∷◌, ◌≡◌, arith, if◌then◌else◌, any, refl, ==_refl,
}
use veyaan_core_backend.Command.Model.{
  CommandState, received, validated, awaiting_approval, approved, rejected, queued, delivered,
  acknowledged, running, succeeded, failed, timed_out, cancelled, expired,
  blocked_by_emergency_stop, same, index,
}
use veyaan_core_backend.Command.StateMachine.{contains, allowed_transitions}
use veyaan_core_backend.Command.StateMachine.Moves.{accepts}

-- The states that each WHEN lets a command go to.
unfoldable trigger_targets : CommandState → List CommandState
trigger_targets received = validated ∷ awaiting_approval ∷ queued ∷ cancelled ∷ []
trigger_targets validated = awaiting_approval ∷ queued ∷ cancelled ∷ []
trigger_targets awaiting_approval = approved ∷ rejected ∷ expired ∷ cancelled ∷ []
trigger_targets approved = queued ∷ cancelled ∷ []
trigger_targets rejected = rejected ∷ []
trigger_targets queued = delivered ∷ expired ∷ cancelled ∷ blocked_by_emergency_stop ∷ []
trigger_targets delivered = acknowledged ∷ expired ∷ cancelled ∷ []
trigger_targets acknowledged = running ∷ expired ∷ cancelled ∷ []
trigger_targets running = succeeded ∷ failed ∷ cancelled ∷ timed_out ∷ []
trigger_targets succeeded = succeeded ∷ []
trigger_targets failed = failed ∷ []
trigger_targets timed_out = timed_out ∷ []
trigger_targets cancelled = cancelled ∷ []
trigger_targets expired = expired ∷ []
trigger_targets blocked_by_emergency_stop = queued ∷ cancelled ∷ []

-- Whether `validate_command_state_transition` returns the new row.
unfoldable pub trigger_accepts : CommandState → CommandState → Bool
unfolding trigger_targets contains any
trigger_accepts old new = if same old new then true else contains new (trigger_targets old)

pub trigger_stays : (a : CommandState) → trigger_accepts a a ≡ true
unfolding trigger_accepts
trigger_stays a = rw (==_refl (index a)) refl

pub trigger_blocks : trigger_accepts queued blocked_by_emergency_stop ≡ true
unfolding trigger_accepts trigger_targets contains any
trigger_blocks = refl

-- The moves on which the two tables differ: those that only the state machine lets pass, and those
-- that only the trigger does.
unfoldable pub only_machine : CommandState → List CommandState
only_machine validated = rejected ∷ blocked_by_emergency_stop ∷ []
only_machine approved = blocked_by_emergency_stop ∷ expired ∷ []
only_machine queued = failed ∷ []
only_machine delivered = timed_out ∷ failed ∷ []
only_machine acknowledged = failed ∷ []
only_machine _ = []

unfoldable pub only_trigger : CommandState → List CommandState
only_trigger received = awaiting_approval ∷ queued ∷ cancelled ∷ []
only_trigger validated = cancelled ∷ []
only_trigger delivered = expired ∷ []
only_trigger acknowledged = expired ∷ []
only_trigger blocked_by_emergency_stop = queued ∷ cancelled ∷ []
only_trigger _ = []

abbrev Compared : CommandState → CommandState → Type 0
Compared a b =
    ((accepts a b && not (trigger_accepts a b)) ≡ contains b (only_machine a))
    × ((trigger_accepts a b && not (accepts a b)) ≡ contains b (only_trigger a))

-- A move that the state machine accepts is refused by the trigger exactly if it is one of these eight:
-- VALIDATED to REJECTED or BLOCKED_BY_EMERGENCY_STOP, APPROVED to BLOCKED_BY_EMERGENCY_STOP or EXPIRED,
-- QUEUED to FAILED, DELIVERED to TIMED_OUT or FAILED, and ACKNOWLEDGED to FAILED. A move that the
-- trigger lets pass is refused by the state machine exactly if it is one of the eight of
-- `only_trigger`, among them BLOCKED_BY_EMERGENCY_STOP to QUEUED.
pub trigger-accepts : (a b : CommandState) → Compared a b
unfolding trigger_accepts trigger_targets only_machine only_trigger accepts contains any
    allowed_transitions
trigger-accepts received b = (ground arith, ground arith)
trigger-accepts validated b = (ground arith, ground arith)
trigger-accepts awaiting_approval b = (ground arith, ground arith)
trigger-accepts approved b = (ground arith, ground arith)
trigger-accepts rejected b = (ground arith, ground arith)
trigger-accepts queued b = (ground arith, ground arith)
trigger-accepts delivered b = (ground arith, ground arith)
trigger-accepts acknowledged b = (ground arith, ground arith)
trigger-accepts running b = (ground arith, ground arith)
trigger-accepts succeeded b = (ground arith, ground arith)
trigger-accepts failed b = (ground arith, ground arith)
trigger-accepts timed_out b = (ground arith, ground arith)
trigger-accepts cancelled b = (ground arith, ground arith)
trigger-accepts expired b = (ground arith, ground arith)
trigger-accepts blocked_by_emergency_stop b = (ground arith, ground arith)
