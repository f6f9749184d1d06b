-- ===== src/EmergencyStop/Service/Blocking.antt =====
-- `_block_commands`: which commands an activation blocks, and what becomes of the others.
mod Rows
pub use Rows.{IsKeyed, blocked, find_command-block_all, block_found, block_one}
unfoldable pub use Rows.{block_all, halted_ids, is_halted}
use veyaan_core_backend.Prelude.{
  ℕ, String, Bool, true, false, ◌&&◌, ◌||◌, ◌==◌, List, [], ◌∷◌, ◌++◌, map, Option, none, some, ◌≡◌,
  refl, ap, ◌∙◌, sym, if◌then◌else◌, select, find?, any, arith, ◌≢◌, Bool-cases, inl, inr, subst,
  &&-right,
}
use veyaan_core_backend.Python.{ok, err}
use veyaan_core_backend.Database.{Database, Environment, World, cache_set}
use veyaan_core_backend.Database.Session.{
  Session, Tx, pure, gets, modify, commit, call, continue, ◌>>=◌, ◌>>◌, case_found, for_each,
  recover, try_catch, with_session,
}
use veyaan_core_backend.Command.Model.{
  Command, CommandState, same, approved, queued, blocked_by_emergency_stop,
}
use veyaan_core_backend.Command.History.{same→eq}
use veyaan_core_backend.Device.Model.{Device}
use veyaan_core_backend.Migrations.{trigger_accepts, trigger_stays, trigger_blocks}
use veyaan_core_backend.Command.StateMachine.{
  find_command, record_transition, write_state, transition_command,
}
use veyaan_core_backend.Command.StateMachine.Moves.{
  accepts, transition_command-missing, transition_command-accepted, transition_command-refused,
}
use veyaan_core_backend.EmergencyStop.Service.{
  contains_id, block_command, block_listed, block_commands, blockable_ids, device_ids_of, activated,
  activate, create_audit_log, append_audit, insert_stop, write_stop, find_stop, new_stop,
  set_active, stop_log, activation_payload,
}
use veyaan_core_backend.Python.{uuid, of_optional}
use veyaan_core_backend.EmergencyStop.Model.{EmergencyStop, was_active}
use veyaan_core_backend.Outbox.Model.{emergency_stop}
use veyaan_core_backend.Outbox.Repository.{add_event, append_event, new_event}

select-none {ℓ} : {A : Type ℓ} (xs : List A) → select (λ _. false) xs ≡ []
unfolding select
select-none [] = refl
select-none (x ∷ xs) = select-none xs

blockable_ids-none : (db : Database) → blockable_ids [] db ≡ []
unfolding blockable_ids any
blockable_ids-none db = ap (map (λ c. c.id)) (select-none db.commands)

-- Whether a device has an id and an owner.
abbrev pub owns : ℕ → ℕ → Database → Bool
owns owner_id device_id db = any (λ d. d.id == device_id && d.owner_id == owner_id) db.devices

owned_ids :
    (owner_id i : ℕ) (ds : List Device)
    → contains_id i (map (λ d. d.id) (select (λ d. d.owner_id == owner_id) ds))
      ≡ any (λ d. d.id == i && d.owner_id == owner_id) ds
unfolding contains_id select any
owned_ids owner_id i [] = refl
owned_ids owner_id i (d ∷ ds) = elim (Bool-cases (d.owner_id == owner_id)) [
  | inl t ↦ rw t (ground (arith, owned_ids owner_id i ds))
  | inr u ↦ rw u (ground (arith, owned_ids owner_id i ds))
]

halted-owned :
    (owner_id : ℕ) (c : Command) (db : Database)
    → c.state ≢ approved
    → is_halted owner_id db c ≡ (owns owner_id c.device_id db && same c.state queued)
unfolding device_ids_of
halted-owned owner_id c db unapproved =
    let other : same c.state approved ≡ false = elim (Bool-cases (same c.state approved)) [
      | inl e ↦ absurd (unapproved (same→eq c.state approved e))
      | inr e ↦ e
    ] in
    rw (owned_ids owner_id c.device_id db.devices, other) (ground arith)

-- The trigger lets a row be blocked that was queued, and be written as it was.
lawful :
    (now : ℕ) (c : Command) (owned : Bool)
    → trigger_accepts c.state (if owned && same c.state queued then blocked now c else c).state
      ≡ true
lawful now c owned = elim (Bool-cases (owned && same c.state queued)) [
  | inl e ↦ rw e (
      subst (λ s. trigger_accepts s blocked_by_emergency_stop ≡ true)
        (sym (same→eq c.state queued (&&-right owned (same c.state queued) e))) trigger_blocks)
  | inr e ↦ rw e (trigger_stays c.state)
]

module _ (env : Environment) where
  block_command-eq :
      (i : ℕ) (x : Session)
      → block_command env i x ≡ (ok tt, record x { working = block_one env.now i x.working })
  unfolding block_command block_one
  block_command-eq i x = found_or_not (find_command i x.working) refl
    where
      result : Option Command → Type 0
      result o =
          block_command env i x ≡ (ok tt, record x { working = block_found env.now o x.working })

      decided :
          (c : Command) (b : Bool)
          → find_command i x.working ≡ some c
          → accepts c.state blocked_by_emergency_stop ≡ b
          → result (some c)
      decided c true e h = rw (
        transition_command-accepted env blocked_by_emergency_stop "emergency_stop_activation" none i
            x c e h,
        h,
      )
      decided c false e h = rw (
        transition_command-refused env blocked_by_emergency_stop "emergency_stop_activation" none i
            x c e h,
        h,
      )

      found_or_not : (o : Option Command) → find_command i x.working ≡ o → result o
      found_or_not none e = rw (
          transition_command-missing env blocked_by_emergency_stop "emergency_stop_activation" none
            i x e)
      found_or_not (some c) e = decided c (accepts c.state blocked_by_emergency_stop) e refl

  for_each-block_command :
      (ids : List ℕ) (x : Session)
      → for_each ids (block_command env) x
        ≡ (ok tt, record x { working = block_all env.now ids x.working })
  unfolding for_each block_all
  for_each-block_command [] x = refl
  for_each-block_command (i ∷ ids) x =
      rw (block_command-eq i x)
        (for_each-block_command ids (record x { working = block_one env.now i x.working }))

  block_listed-eq :
      (dev_ids : List ℕ) (x : Session)
      → block_listed env dev_ids x ≡ (
        ok tt,
        record x { working = block_all env.now (blockable_ids dev_ids x.working) x.working },
      )
  unfolding block_listed block_all
  block_listed-eq [] x = rw (blockable_ids-none x.working)
  block_listed-eq (d ∷ dev_ids) x = for_each-block_command (blockable_ids (d ∷ dev_ids) x.working) x

  -- The early return on an owner without devices is the same as an empty list of commands.
  pub block_commands-eq :
      (owner_id : ℕ) (x : Session)
      → block_commands env owner_id x ≡ (
        ok tt,
        record x { working = block_all env.now (halted_ids owner_id x.working) x.working },
      )
  unfolding block_commands
  block_commands-eq owner_id x = block_listed-eq (device_ids_of owner_id x.working) x

  module _ (owner_id : ℕ) (reason : Option String) (actor_id event_id : ℕ) where
    -- The tables that an activation commits, from those with the stop row written.
    unfoldable pub activation : Database → Database
    unfolding block_all add_event append_event append_audit
    activation db =
        append_event
          (new_event env event_id "emergency_stop.activated" "owner" owner_id
            (emergency_stop owner_id) (activation_payload env owner_id reason))
          (append_audit
            (stop_log env.now actor_id "emergency_stop_activated"
              (("reason", of_optional reason) ∷ ("owner_id", uuid owner_id) ∷ []))
            (block_all env.now (halted_ids owner_id db) db))

    activated-eq :
        (stop : EmergencyStop) (x : Session)
        → activated env owner_id reason actor_id event_id stop x ≡ (
          ok stop,
          record {
            working = activation x.working;
            committed = activation x.working;
            calls = x.calls ++ cache_set owner_id true stop.activated_at 3600 ∷ [];
          },
        )
    unfolding activated activation create_audit_log
    activated-eq stop x = rw (block_commands-eq owner_id x)

    -- The stop row that an activation leaves, where none was active.
    abbrev pub stop_row : Option EmergencyStop → EmergencyStop
    stop_row none = new_stop env.now owner_id reason actor_id
    stop_row (some stop) = set_active env.now reason actor_id stop

    abbrev pub with_stop : Option EmergencyStop → Database → Database
    with_stop none db = insert_stop (new_stop env.now owner_id reason actor_id) db
    with_stop (some stop) db = write_stop owner_id (set_active env.now reason actor_id) db

    pub activate-eq :
        (o : Option EmergencyStop) (w : World)
        → find_stop owner_id w.database ≡ o
        → was_active o ≡ false
        → with_session (activate env owner_id reason actor_id event_id) w ≡ (
          ok (stop_row o),
          record {
            database = activation (with_stop o w.database);
            calls = w.calls ++ cache_set owner_id true (stop_row o).activated_at 3600 ∷ [];
          },
        )
    unfolding activate
    activate-eq none w found h = rw (
      found,
      activated-eq (stop_row none)
          (record { working = with_stop none w.database; committed = w.database; calls = w.calls }),
    )
    activate-eq (some stop) w found h = rw (
      found,
      h,
      activated-eq (stop_row (some stop)) (record {
        working = with_stop (some stop) w.database;
        committed = w.database;
        calls = w.calls;
      }),
    )

    find_command-activation :
        (o : Option EmergencyStop) (db : Database) (j : ℕ) (c : Command)
        → IsKeyed db
        → find_command j db ≡ some c
        → find_command j (activation (with_stop o db))
          ≡ some (if is_halted owner_id db c then blocked env.now c else c)
    unfolding activation find_command insert_stop write_stop blockable_ids device_ids_of
    find_command-activation none db j c keyed found =
        find_command-block_all env.now owner_id (with_stop none db) j c keyed found
    find_command-activation (some stop) db j c keyed found =
        find_command-block_all env.now owner_id (with_stop (some stop) db) j c keyed found

    halted_row :
        (w : World) (j : ℕ) (c : Command)
        → was_active (find_stop owner_id w.database) ≡ false
        → IsKeyed w.database
        → find_command j w.database ≡ some c
        → find_command j
            (with_session (activate env owner_id reason actor_id event_id) w).1.database
          ≡ some (if is_halted owner_id w.database c then blocked env.now c else c)
    halted_row w j c h keyed found =
        rw (activate-eq (find_stop owner_id w.database) w refl h)
          (find_command-activation (find_stop owner_id w.database) w.database j c keyed found)

    -- Activating a stop that is not active, in tables where a command's id finds its row and no command
    -- is APPROVED, blocks exactly the queued commands of the owner's devices: each of them is
    -- BLOCKED_BY_EMERGENCY_STOP, the row of every other command is as it was, and the trigger of the
    -- database lets each of these rows be written.
    pub activate-find_command :
        (w : World) (j : ℕ) (c : Command)
        → was_active (find_stop owner_id w.database) ≡ false
        → IsKeyed w.database
        → ((k : ℕ) (b : Command) → find_command k w.database ≡ some b → b.state ≢ approved)
        → find_command j w.database ≡ some c
        → (d : Command) × (d ≡ (
            if owns owner_id c.device_id w.database && same c.state queued
            then record c { state = blocked_by_emergency_stop; updated_at = env.now }
            else c))
          × (find_command j
                (with_session (activate env owner_id reason actor_id event_id) w).1.database
              ≡ some d)
          × (trigger_accepts c.state d.state ≡ true)
    activate-find_command w j c h keyed unapproved found =
        let owned : is_halted owner_id w.database c
            ≡ (owns owner_id c.device_id w.database && same c.state queued) =
          halted-owned owner_id c w.database (unapproved j c found) in
        let test = owns owner_id c.device_id w.database && same c.state queued in
        (
          (if test then blocked env.now c else c),
          refl,
          halted_row w j c h keyed found
              ∙ ap (λ b. some (if b then blocked env.now c else c)) owned,
          lawful env.now c (owns owner_id c.device_id w.database),
        )
