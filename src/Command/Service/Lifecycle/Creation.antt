-- ===== src/Command/Service/Lifecycle/Creation.antt =====
-- The rows of a new command keep the lifecycle, if its id was never used.
use veyaan_core_backend.Prelude.{
  ℕ, false, ◌==◌, [], ◌∷◌, ◌++◌, none, some, ◌≡◌, refl, sym, ap, ◌∙◌, subst, inl, inr, Bool-cases,
  ==→eq, ==_refl, find?, any, arith, find?-append_none, find?-append_some, find?-append_miss,
  select-append_kept, select-append_dropped,
}
use veyaan_core_backend.Database.{Database, Environment}
use veyaan_core_backend.Python.{ok}
use veyaan_core_backend.Database.Session.{Session}
use veyaan_core_backend.Command.Model.{validated, awaiting_approval, Command}
use veyaan_core_backend.Command.Registry.{CommandDefinition}
use veyaan_core_backend.Command.StateMachine.{
  contains, write_state, find_command, record_transition, transition_command,
}
use veyaan_core_backend.Command.StateMachine.Writes.{trace, find_command-record_transition_self}
use veyaan_core_backend.Command.StateMachine.Moves.{accepts, transition_command-accepted}
use veyaan_core_backend.Command.Lifecycle.{IsGated, Extends, Continues, Lifecycle}
use veyaan_core_backend.Command.Lifecycle.Transition.{
  Continues-refl, Continues-trans, Extends-same, Extends-trans, record_transition-Lifecycle,
}
use veyaan_core_backend.Command.Service.{
  CreateCommandRequest, Fresh, new_command, first_event, insert_rows,
}

-- No command has the generated id, and no event speaks of it.
pub record IsFresh (ids : Fresh) (db : Database) : Type 0 where
  pub no_command : find_command ids.command_id db ≡ none
  pub no_events : trace ids.command_id db ≡ []

module _ (env : Environment) (ids : Fresh) (request : CreateCommandRequest) (v : CommandDefinition)
    (db : Database) (fresh : IsFresh ids db) where
  abbrev pub after : Database
  after = insert_rows env ids request v db

  pub find_command-insert_rows_self :
      find_command ids.command_id after ≡ some (new_command env ids request v)
  unfolding find_command insert_rows find?
  find_command-insert_rows_self =
      find?-append_none (λ c. c.id == ids.command_id) db.commands
        (new_command env ids request v ∷ []) fresh.no_command
      ∙ rw (==_refl ids.command_id)

  pub trace-insert_rows_self : trace ids.command_id after ≡ first_event ids ∷ []
  unfolding trace insert_rows
  trace-insert_rows_self =
      select-append_kept (λ e. e.command_id == ids.command_id) db.state_events (first_event ids)
        (==_refl ids.command_id)
      ∙ ap (λ l. l ++ first_event ids ∷ []) fresh.no_events

  pub find_command-insert_rows_old :
      (j : ℕ) (c : Command) → find_command j db ≡ some c → find_command j after ≡ some c
  unfolding find_command insert_rows
  find_command-insert_rows_old j c h =
      find?-append_some (λ c. c.id == j) db.commands (new_command env ids request v ∷ []) c h

  find_command-insert_rows_other :
      (j : ℕ) → (ids.command_id == j) ≡ false → find_command j after ≡ find_command j db
  unfolding find_command insert_rows
  find_command-insert_rows_other j ne =
      find?-append_miss (λ c. c.id == j) db.commands (new_command env ids request v) ne

  trace-insert_rows_other : (j : ℕ) → (ids.command_id == j) ≡ false → trace j after ≡ trace j db
  unfolding trace insert_rows
  trace-insert_rows_other j ne =
      select-append_dropped (λ e. e.command_id == j) db.state_events (first_event ids) ne

  -- What the new rows do to the lifecycle, where the new command itself may not be gated yet.
  pub record Pending (b : Database) : Type 0 where
    pub commands :
        (j : ℕ) (c : Command)
        → find_command j db ≡ some c
        → (d : Command) × (find_command j b ≡ some d) × Continues c d
    pub extends : (j : ℕ) → Extends j db b
    pub gated : (j : ℕ) → (ids.command_id == j) ≡ false → IsGated j db → IsGated j b

  Extends-new : Extends ids.command_id db after
  Extends-new = record {
    events = first_event ids ∷ [];
    trace_eq = trace-insert_rows_self ∙ ap (λ l. l ++ first_event ids ∷ []) (sym fresh.no_events);
    chain = rw (fresh.no_command, find_command-insert_rows_self) (refl, refl, refl);
  }

  insert_rows-Pending : Pending after
  insert_rows-Pending = record {
    commands = λ j c h. (c, find_command-insert_rows_old j c h, Continues-refl c);
    extends = λ j. elim (Bool-cases (ids.command_id == j)) [
      | inl same ↦ subst (λ k. Extends k db after) (==→eq ids.command_id j same) Extends-new
      | inr ne ↦
          Extends-same j db after (find_command-insert_rows_other j ne)
            (trace-insert_rows_other j ne)
    ];
    gated = λ j ne h. rw (find_command-insert_rows_other j ne, trace-insert_rows_other j ne) h;
  }

  Pending-trans : (b c : Database) → Pending b → Lifecycle b c → Pending c
  Pending-trans b c p q = record {
    commands = λ j x h.
        let (y, hy, py) = p.commands j x h in
        let (z, hz, pz) = q.commands j y hy in (z, hz, Continues-trans py pz);
    extends = λ j. Extends-trans j db b c (p.extends j) (q.extends j);
    gated = λ j ne h. q.gated j (p.gated j ne h);
  }

  Pending-Lifecycle : (b : Database) → Pending b → IsGated ids.command_id b → Lifecycle db b
  Pending-Lifecycle b p g = record {
    commands = p.commands;
    extends = p.extends;
    gated = λ j h. elim (Bool-cases (ids.command_id == j)) [
      | inl same ↦ subst (λ k. IsGated k b) (==→eq ids.command_id j same) g
      | inr ne ↦ p.gated j ne h
    ];
  }

  -- A command that needs no approval is gated from the start.
  pub insert_rows-Lifecycle :
      (d_requires : (new_command env ids request v).requires_approval ≡ false) → Lifecycle db after
  insert_rows-Lifecycle plain =
      Pending-Lifecycle after insert_rows-Pending (rw find_command-insert_rows_self (rw plain refl))

  -- The other commands reach AWAITING_APPROVAL by two moves, in the session that inserted them.
  abbrev pub new : Command
  new = new_command env ids request v

  abbrev pub checked : Command
  checked = write_state env.now validated none new

  abbrev pub waiting : Command
  waiting = write_state env.now awaiting_approval none checked

  abbrev pub after_check : Database
  after_check = record_transition env.now validated "api" none new after

  abbrev pub after_wait : Database
  after_wait = record_transition env.now awaiting_approval "api" none checked after_check

  found_checked : find_command ids.command_id after_check ≡ some checked
  found_checked =
      find_command-record_transition_self env.now validated "api" none new after
        find_command-insert_rows_self

  pub moves_to_wait :
      (x : Session)
      → x.working ≡ after
      → (y : Session) × (transition_command env ids.command_id validated "api" none x
          ≡ (ok (some checked), y))
        × (transition_command env ids.command_id awaiting_approval "api" none y
            ≡ (ok (some waiting), record x { working = after_wait }))
  unfolding accepts write_state
  moves_to_wait x h = (
    record x { working = after_check },
    rw
        (transition_command-accepted env validated "api" none ids.command_id x new
          (rw h find_command-insert_rows_self) refl)
        (rw h refl),
    transition_command-accepted env awaiting_approval "api" none ids.command_id
        (record x { working = after_check }) checked found_checked refl,
  )

  pub after_wait-Lifecycle : Lifecycle db after_wait
  unfolding accepts write_state contains any
  after_wait-Lifecycle =
      Pending-Lifecycle after_wait
        (Pending-trans after_check after_wait
          (Pending-trans after after_check insert_rows-Pending (
            record_transition-Lifecycle env.now validated "api" none new after
              find_command-insert_rows_self refl))
          (record_transition-Lifecycle env.now awaiting_approval "api" none checked after_check
            found_checked refl))
        (rw
          (find_command-record_transition_self env.now awaiting_approval "api" none checked
            after_check found_checked)
          (ground arith))
