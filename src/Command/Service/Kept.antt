-- ===== src/Command/Service/Kept.antt =====
-- The operations of the command service are made of the shared steps; a new command takes the write
-- of its rows besides.
use veyaan_core_backend.Prelude.{ℕ}
use veyaan_core_backend.Python.{Error, state_transition}
use veyaan_core_backend.Database.{Environment}
use veyaan_core_backend.Database.Session.{Session, modify}
use veyaan_core_backend.Database.Keeps.{Keeps, keeps_rules}
use veyaan_core_backend.Command.Model.{Command}
use veyaan_core_backend.Command.Registry.{CommandDefinition}
use veyaan_core_backend.Approval.Repository.{create_approval}
use veyaan_core_backend.Approval.Repository.Kept.{Keeps-append_approval}
use veyaan_core_backend.Device.Model.{Device}
use veyaan_core_backend.Kept.{IsKept, kept_rules, Keeps-append_event}
use veyaan_core_backend.Command.Service.{
  CreateCommandRequest, Fresh, replay, insert_rows, await_approval, enqueue, create_new, define,
  on_device, create_command, on_refusal, cancel_command, approve_command, reject_command,
}

module _ {P : Session → Type 0} (r : IsKept P) where
  pub Keeps-on_refusal : (e : Error) → Keeps P (on_refusal e)
  Keeps-on_refusal (state_transition i) = search keeps_rules
  Keeps-on_refusal e = search keeps_rules

pub ruleset service_rules =
    (kept_rules, Keeps-append_event, Keeps-append_approval, Keeps-on_refusal)

module _ {P : Session → Type 0} (r : IsKept P) (env : Environment) where
  pub Keeps-cancel_command :
      (command_id owner_id : ℕ) → Keeps P (cancel_command env command_id owner_id)
  unfolding cancel_command
  Keeps-cancel_command command_id owner_id = search service_rules depth 16

  pub Keeps-approve_command : (command_id : ℕ) → Keeps P (approve_command env command_id)
  unfolding approve_command
  Keeps-approve_command command_id = search service_rules depth 12

  pub Keeps-reject_command : (command_id : ℕ) → Keeps P (reject_command env command_id)
  unfolding reject_command
  Keeps-reject_command command_id = search service_rules depth 12

  module _ (ids : Fresh) where
    pub Keeps-await_approval :
        (owner_id : ℕ) (c : Command) → Keeps P (await_approval env ids owner_id c)
    unfolding await_approval create_approval
    Keeps-await_approval owner_id c = search service_rules depth 16

    pub Keeps-enqueue : (c : Command) → Keeps P (enqueue env ids c)
    unfolding enqueue
    Keeps-enqueue c = search service_rules depth 16

    module _ (request : CreateCommandRequest)
        (inserts : (d : CommandDefinition) → Keeps P (modify (insert_rows env ids request d))) where
      Keeps-create_new :
          (owner_id : ℕ) (d : CommandDefinition) → Keeps P (create_new env ids request owner_id d)
      unfolding create_new
      Keeps-create_new owner_id d =
          search (keeps_rules, inserts, Keeps-await_approval, Keeps-enqueue) depth 10

      Keeps-define : (owner_id : ℕ) → Keeps P (define env ids request owner_id)
      unfolding define
      Keeps-define owner_id = search (keeps_rules, Keeps-create_new) depth 10

      Keeps-replay : (c : Command) → Keeps P (replay request c)
      unfolding replay
      Keeps-replay c = search keeps_rules depth 8

      Keeps-on_device : (owner_id : ℕ) (d : Device) → Keeps P (on_device env ids request owner_id d)
      unfolding on_device
      Keeps-on_device owner_id d = search (kept_rules, Keeps-define, Keeps-replay) depth 16

      pub Keeps-create_command : (owner_id : ℕ) → Keeps P (create_command env ids request owner_id)
      unfolding create_command
      Keeps-create_command owner_id = search (keeps_rules, Keeps-on_device) depth 10
