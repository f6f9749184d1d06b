-- ===== src/Command/Service/Lifecycle.antt =====
-- The command service creates commands under new ids, and moves the others only along the state
-- machine.
mod Creation
use veyaan_core_backend.Prelude.{ℕ, true, false, Option, some, ◌≡◌, refl, ap, sym, subst, if-any}
use veyaan_core_backend.Python.{Error, state_transition}
use veyaan_core_backend.Database.{Database, Environment, World, Call}
use veyaan_core_backend.Database.Session.{
  Session, Tx, pure, raise, gets, modify, commit, call, ◌>>=◌, ◌>>◌, case_found, try_catch,
  with_session,
}
use veyaan_core_backend.Database.Keeps.{
  Keeps, Within, with_session-relates, with_session-within, open_session, Keeps-gets, Keeps-if,
  keeps_rules,
}
use veyaan_core_backend.Database.Leads.{
  Leads, Leads-raise, Leads-Keeps, Leads-bind, Leads-if, Leads-case_found, Leads-then,
}
use veyaan_core_backend.Command.Lifecycle.{Lifecycle}
use veyaan_core_backend.Command.Lifecycle.Transition.{Lifecycle-refl, lifecycle_rules}
use veyaan_core_backend.Command.Model.{Command}
use veyaan_core_backend.Command.Registry.{CommandDefinition}
use veyaan_core_backend.Approval.Repository.{create_approval}
use veyaan_core_backend.Device.Model.{Device}
use veyaan_core_backend.EmergencyStop.Service.Lifecycle.{Lifecycle-IsKept}
use veyaan_core_backend.EmergencyStop.Service.{is_active}
use veyaan_core_backend.Outbox.Repository.{add_event}
use veyaan_core_backend.Command.Service.{
  CreateCommandRequest, CreateCommandResponse, Fresh, replay, new_command, approval_title,
  approval_description, state_or, insert_rows, await_approval, enqueue, create_new, define,
  on_device, create_command, on_refusal, cancel_row, cancel_command, approve_command,
  reject_command,
}
pub use Creation.{IsFresh}
use veyaan_core_backend.Command.Service.Kept.{service_rules, Keeps-enqueue}
use Creation.{insert_rows-Lifecycle, waiting, moves_to_wait, after_wait-Lifecycle}

-- Both copies of the tables are as the operation found them.
record Untouched (d : Database) (x : Session) : Type 0 where
  working : x.working ≡ d
  committed : x.committed ≡ d

Untouched-Within : {d : Database} (x : Session) → Untouched d x → Within Lifecycle d x
Untouched-Within {d} x h = record {
  working = subst (λ t. Lifecycle d t) (sym h.working) (Lifecycle-refl d);
  committed = subst (λ t. Lifecycle d t) (sym h.committed) (Lifecycle-refl d);
}

Keeps-call-Untouched : {d : Database} (c : Call) → Keeps (Untouched d) (call c)
Keeps-call-Untouched c = record {
  at = λ x h. record { working = h.working; committed = h.committed };
}

module _ {d : Database} {A : Type 0} where
  raise_rule : (e : Error) → Leads (Untouched d) (Within Lifecycle d) (raise {A = A} e)
  raise_rule e = Leads-raise Untouched-Within e

  Keeps-rule : (m : Tx A) → Keeps (Untouched d) m → Leads (Untouched d) (Within Lifecycle d) m
  Keeps-rule m km = Leads-Keeps Untouched-Within m km

  bind_rule :
      {B : Type 0} (m : Tx A) (f : A → Tx B)
      → Keeps (Untouched d) m
      → ((a : A) → Leads (Untouched d) (Within Lifecycle d) (f a))
      → Leads (Untouched d) (Within Lifecycle d) (m >>= f)
  bind_rule m f km lf = Leads-bind Untouched-Within m f km lf

ruleset leads_rules = (Leads-case_found, Leads-if, raise_rule, bind_rule, Keeps-gets)

module _ {d : Database} (env : Environment) (ids : Fresh) where
  module _ (request : CreateCommandRequest) (fresh : IsFresh ids d) where
    Leads-insert_rows :
        (v : CommandDefinition)
        → (new_command env ids request v).requires_approval ≡ false
        → Leads (Untouched d) (Within Lifecycle d) (modify (insert_rows env ids request v))
    Leads-insert_rows v plain = record {
      at = λ x h. record {
        working =
            subst (λ t. Lifecycle d (insert_rows env ids request v t)) (sym h.working)
              (insert_rows-Lifecycle env ids request v d fresh plain);
        committed = (Untouched-Within x h).committed;
      };
    }

    -- What follows the two moves of a command that waits for its approval.
    abbrev ask : ℕ → Command → Option Command → Tx CreateCommandResponse
    ask owner_id c row = do
      made ←
          create_approval env ids.approval c.id owner_id c.risk_level (approval_title c)
            (approval_description env c) 30
      commit
      pure (record {
        command_id = c.id;
        task_id = ids.task_id;
        state = state_or c.state row;
        requires_approval = true;
        approval_id = some made.0.id;
        decision_nonce = some made.1;
      })

    Keeps-ask :
        (owner_id : ℕ) (c : Command) (row : Option Command)
        → Keeps (Within Lifecycle d) (ask owner_id c row)
    unfolding create_approval
    Keeps-ask owner_id c row = search (service_rules, Lifecycle-IsKept) depth 16

    Leads-approval :
        (owner_id : ℕ) (v : CommandDefinition)
        → Leads (Untouched d) (Within Lifecycle d) (do
          modify (insert_rows env ids request v)
          await_approval env ids owner_id (new_command env ids request v))
    unfolding await_approval
    Leads-approval owner_id v = record {
      at = λ x h.
          let (y, checks, waits) =
            moves_to_wait env ids request v d fresh
              (record x { working = insert_rows env ids request v x.working })
              (ap (insert_rows env ids request v) h.working) in
          rw (checks, waits)
            ((Keeps-ask owner_id (new_command env ids request v)
                (some (waiting env ids request v d fresh))).at
              _
              (record {
                working = after_wait-Lifecycle env ids request v d fresh;
                committed = (Untouched-Within x h).committed;
              }));
    }

    Leads-create_new :
        (owner_id : ℕ) (v : CommandDefinition)
        → Leads (Untouched d) (Within Lifecycle d) (create_new env ids request owner_id v)
    unfolding create_new
    Leads-create_new owner_id v =
        let c = new_command env ids request v in
        if-any
          (λ (m : Tx CreateCommandResponse).
            Leads (Untouched d) (Within Lifecycle d) (modify (insert_rows env ids request v) >> m))
          c.requires_approval (await_approval env ids owner_id c) (enqueue env ids c)
          (λ _. Leads-approval owner_id v)
          (λ plain.
            Leads-then _ _ (Leads-insert_rows v plain)
              (λ _. Keeps-enqueue Lifecycle-IsKept env ids c))

    Keeps-replay : (c : Command) → Keeps (Untouched d) (replay request c)
    unfolding replay
    Keeps-replay c = search keeps_rules depth 8

    Leads-define :
        (owner_id : ℕ) → Leads (Untouched d) (Within Lifecycle d) (define env ids request owner_id)
    unfolding define
    Leads-define owner_id = search (leads_rules, Leads-create_new)

    Keeps-asked : (owner_id : ℕ) → Keeps (Untouched d) (is_active env owner_id)
    unfolding is_active
    Keeps-asked owner_id = search (keeps_rules, Keeps-call-Untouched) depth 12

    Leads-on_device :
        (owner_id : ℕ) (v : Device)
        → Leads (Untouched d) (Within Lifecycle d) (on_device env ids request owner_id v)
    unfolding on_device
    Leads-on_device owner_id v =
        search (leads_rules, Keeps-rule, Leads-define, Keeps-asked, Keeps-replay) depth 16

    Leads-create_command :
        (owner_id : ℕ)
        → Leads (Untouched d) (Within Lifecycle d) (create_command env ids request owner_id)
    unfolding create_command
    Leads-create_command owner_id = search (leads_rules, Leads-on_device) depth 10

module _ (env : Environment) (w : World) where
  -- Creating a command under ids that were never used keeps every other command as it was, and
  -- starts the recorded history of the new one.
  pub create_command-Lifecycle :
      (ids : Fresh) (request : CreateCommandRequest) (owner_id : ℕ)
      → IsFresh ids w.database
      → Lifecycle w.database (with_session (create_command env ids request owner_id) w).1.database
  create_command-Lifecycle ids request owner_id fresh =
      with_session-within Lifecycle (create_command env ids request owner_id) w (
        (Leads-create_command env ids request fresh owner_id).at (open_session w)
          (record { working = refl; committed = refl }))
