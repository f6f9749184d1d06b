-- ===== src/Command/Service/Atomicity.antt =====
-- An operation of the command service that raises leaves the database as it was.
use veyaan_core_backend.Prelude.{ℕ, ◌≡◌}
use veyaan_core_backend.Python.{Error, err}
use veyaan_core_backend.Database.{Database, Environment, World}
use veyaan_core_backend.Database.Session.{with_session}
use veyaan_core_backend.Database.Keeps.{Keeps}
use veyaan_core_backend.Database.Atomic.{
  Committed, Atomic, atomic_rules, committed_rules, with_session-Atomic,
}
use veyaan_core_backend.Command.Model.{Command}
use veyaan_core_backend.Command.Registry.{CommandDefinition}
use veyaan_core_backend.Command.StateMachine.Atomicity.{Keeps-transition}
use veyaan_core_backend.Approval.Repository.{create_approval}
use veyaan_core_backend.Device.Model.{Device}
use veyaan_core_backend.EmergencyStop.Service.{is_active}
use veyaan_core_backend.Outbox.Repository.{add_event}
use veyaan_core_backend.Command.Service.{
  CreateCommandRequest, Fresh, replay, await_approval, enqueue, create_new, define, on_device,
  create_command,
}

module _ {d : Database} where
  pub Keeps-is_active-Committed :
      (env : Environment) (owner_id : ℕ) → Keeps (Committed d) (is_active env owner_id)
  unfolding is_active
  Keeps-is_active-Committed env owner_id = search committed_rules depth 12

  Atomic-replay : (request : CreateCommandRequest) (c : Command) → Atomic d (replay request c)
  unfolding replay
  Atomic-replay request c = search atomic_rules depth 12

  module _ (env : Environment) (ids : Fresh) (owner_id : ℕ) where
    Atomic-await_approval : (c : Command) → Atomic d (await_approval env ids owner_id c)
    unfolding await_approval create_approval
    Atomic-await_approval c = search (atomic_rules, Keeps-transition) depth 14

    Atomic-enqueue : (c : Command) → Atomic d (enqueue env ids c)
    unfolding enqueue add_event
    Atomic-enqueue c = search (atomic_rules, Keeps-transition) depth 14

    Atomic-create_new :
        (request : CreateCommandRequest) (e : CommandDefinition)
        → Atomic d (create_new env ids request owner_id e)
    unfolding create_new
    Atomic-create_new request e =
        search (atomic_rules, Atomic-await_approval, Atomic-enqueue) depth 12

    Atomic-define : (request : CreateCommandRequest) → Atomic d (define env ids request owner_id)
    unfolding define
    Atomic-define request = search (atomic_rules, Atomic-create_new) depth 12

    Atomic-on_device :
        (request : CreateCommandRequest) (device : Device)
        → Atomic d (on_device env ids request owner_id device)
    unfolding on_device
    Atomic-on_device request device =
        search (atomic_rules, Atomic-define, Atomic-replay, Keeps-is_active-Committed) depth 14

    Atomic-create_command :
        (request : CreateCommandRequest) → Atomic d (create_command env ids request owner_id)
    unfolding create_command
    Atomic-create_command request = search (atomic_rules, Atomic-on_device) depth 12

-- When `create_command` raises, for whatever reason, the database is as it was: no row of the
-- command, its task, its events, its approval or the outbox stays.
pub create_command-atomic :
    (env : Environment) (ids : Fresh) (request : CreateCommandRequest) (owner_id : ℕ) (w : World)
    (e : Error)
    → (with_session (create_command env ids request owner_id) w).0 ≡ err e
    → (with_session (create_command env ids request owner_id) w).1.database ≡ w.database
create_command-atomic env ids request owner_id w e h =
    with_session-Atomic (create_command env ids request owner_id) w e
      (Atomic-create_command env ids owner_id request) h
