-- ===== src/Worker/Scheduler/Spared.antt =====
-- Which commands a round of the scheduler does not touch.
use veyaan_core_backend.Prelude.{
  ℕ, Bool, true, false, ◌==◌, ==→eq, Bool-cases, Option, none, some, List, [], ◌∷◌, ◌+◌,
  if◌then◌else◌, ◌≡◌, refl, sym, ◌∙◌, ap, subst, find?, find?-fits, inl, inr,
}
use veyaan_core_backend.Database.{Database, Environment, World}
use veyaan_core_backend.Database.Session.{Session, modify, with_session}
use veyaan_core_backend.Database.Keeps.{
  Keeps, Within, Keeps-modify, Keeps-commit, with_session-relates, keeps_rules,
}
use veyaan_core_backend.Command.Model.{Task, Command, expired}
use veyaan_core_backend.Command.StateMachine.{find_command, record_transition, transition_command}
use veyaan_core_backend.Command.StateMachine.Moves.{
  accepts, outcome, transition_command-eq, committed-transition_command,
}
use veyaan_core_backend.Command.StateMachine.Writes.{find_command-record_transition_other}
use veyaan_core_backend.Approval.Repository.{expire_stale, expire_pending_approvals}
use veyaan_core_backend.Worker.Scheduler.{
  expire_pairings, expire_stale_pairings, fail_task, expire_command, expire_all, expire_commands,
  maintain,
}
use veyaan_core_backend.Worker.Scheduler.Logging.{logging_rules}

-- The commands that may not expire are the same rows after as before.
pub record Spared (a b : Database) : Type 0 where
  pub spared :
      (j : ℕ) (c : Command)
      → find_command j a ≡ some c
      → accepts c.state expired ≡ false
      → find_command j b ≡ some c

Spared-refl : (a : Database) → Spared a a
Spared-refl a = record { spared = λ j c h k. h }

Spared-trans : (a b c : Database) → Spared a b → Spared b c → Spared a c
Spared-trans a b c p q = record { spared = λ j x h k. q.spared j x (p.spared j x h k) k }

Spared-other_tables : (a b : Database) → b.commands ≡ a.commands → Spared a b
unfolding find_command
Spared-other_tables a b e = record { spared = λ j c h k. ap (λ t. find? (λ r. r.id == j) t) e ∙ h }

module _ (env : Environment) (i : ℕ) (x : Session) where
  Spared-written :
      (c : Command)
      → find_command i x.working ≡ some c
      → accepts c.state expired ≡ true
      → Spared x.working (record_transition env.now expired "scheduler" none c x.working)
  unfolding find_command
  Spared-written c found accepted = record {
    spared = λ j r h refused. elim (Bool-cases (c.id == j)) [
      | inl e ↦
          let i_is_j : i ≡ j =
            sym (==→eq c.id i (find?-fits (λ q. q.id == i) x.working.commands c found))
            ∙ ==→eq c.id j e in
          let row : c ≡ r = cc (subst (λ k. find_command k x.working ≡ some c) i_is_j found, h) in
          cc (ap (λ q. accepts q.state expired) row, accepted, refused)
      | inr e ↦
          find_command-record_transition_other env.now expired "scheduler" none c x.working j e ∙ h
    ];
  }

  Spared-outcome :
      (o : Option Command)
      → find_command i x.working ≡ o
      → Spared x.working (outcome env expired "scheduler" none i x o).1.working
  Spared-outcome none h = Spared-refl x.working
  Spared-outcome (some c) h = elim (Bool-cases (accepts c.state expired)) [
    | inl e ↦ rw e (Spared-written c h e)
    | inr e ↦ rw e (Spared-refl x.working)
  ]

module _ {d : Database} where
  Keeps-expire :
      (env : Environment) (i : ℕ)
      → Keeps (Within Spared d) (transition_command env i expired "scheduler" none)
  Keeps-expire env i = record {
    at = λ x h. record {
      working = rw (transition_command-eq env expired "scheduler" none i x) (
          Spared-trans d x.working _ h.working
            (Spared-outcome env i x (find_command i x.working) refl));
      committed = rw (committed-transition_command env expired "scheduler" none i x) h.committed;
    };
  }

  Keeps-write_others :
      (f : Database → Database)
      → ((db : Database) → (f db).commands ≡ db.commands)
      → Keeps (Within Spared d) (modify f)
  Keeps-write_others f h = Keeps-modify f Spared-trans (λ db. Spared-other_tables db (f db) (h db))

  Keeps-fail_task-Spared : (t : Task) → Keeps (Within Spared d) (modify (fail_task t))
  unfolding fail_task
  Keeps-fail_task-Spared t = Keeps-write_others (fail_task t) (λ db. refl)

  Keeps-pairings : (now : ℕ) → Keeps (Within Spared d) (expire_stale_pairings now)
  unfolding expire_stale_pairings
  Keeps-pairings now = search (keeps_rules, Keeps-write_others (expire_pairings now) (λ db. refl))

  Keeps-approvals : (now : ℕ) → Keeps (Within Spared d) (expire_pending_approvals now)
  unfolding expire_pending_approvals
  Keeps-approvals now = search (keeps_rules, Keeps-write_others (expire_stale now) (λ db. refl))

  Keeps-one : (env : Environment) (c : Command) → Keeps (Within Spared d) (expire_command env c)
  unfolding expire_command
  Keeps-one env c =
      search (keeps_rules, logging_rules, Keeps-expire, Keeps-fail_task-Spared) depth 16

  Keeps-all :
      (env : Environment) (commands : List Command) (n : ℕ)
      → Keeps (Within Spared d) (expire_all env commands n)
  unfolding expire_all
  Keeps-all env [] n = search keeps_rules
  Keeps-all env (c ∷ commands) n =
      search (
        keeps_rules,
        Keeps-one,
        λ (done : Bool). Keeps-all env commands (if done then n + 1 else n),
      )

  Keeps-round : (env : Environment) → Keeps (Within Spared d) (maintain env)
  unfolding maintain expire_commands
  Keeps-round env =
      search (keeps_rules, logging_rules, Keeps-commit, Keeps-pairings, Keeps-approvals, Keeps-all)
        depth 18

-- A round of the scheduler leaves the row of a command as it is when the state machine refuses
-- EXPIRED from its state.
pub find_command-maintain :
    (env : Environment) (w : World) (j : ℕ) (c : Command)
    → find_command j w.database ≡ some c
    → accepts c.state expired ≡ false
    → find_command j (with_session (maintain env) w).1.database ≡ some c
find_command-maintain env w j c h refused =
    (with_session-relates Spared (maintain env) w (Spared-refl w.database) (Keeps-round env)).spared
      j c h refused
