-- ===== src/Worker/Scheduler/Stalled.antt =====
-- A round of the scheduler whose logger is one of the standard `logging`, with INFO enabled.
mod Expiry
use veyaan_core_backend.Prelude.{
  ℕ, zero, suc, ◌+◌, ◌≤◌, Bool, true, false, List, [], ◌∷◌, Option, none, some, ◌≡◌, refl, ap, sym,
  ◌∙◌, subst, arith, inl, inr, Bool-cases, if◌then◌else◌, select, update, length, find?, ◌==◌,
}
use veyaan_core_backend.Python.{Error, Result, ok, err, state_transition}
use veyaan_core_backend.Database.{LogLevel, Database, Environment, World}
use veyaan_core_backend.Database.Session.{
  Session, Tx, pure, gets, modify, commit, continue, ◌>>=◌, ◌>>◌, recover, log, close, with_session,
}
use veyaan_core_backend.Database.Keeps.{open_session}
use veyaan_core_backend.Command.Model.{Command, Task, expired}
use veyaan_core_backend.Command.StateMachine.{find_command, transition_command, record_transition}
use veyaan_core_backend.Command.StateMachine.Moves.{accepts, outcome, transition_command-eq}
use veyaan_core_backend.Approval.Repository.{is_stale, expire_stale, expire_pending_approvals}
use veyaan_core_backend.Worker.Scheduler.{
  is_finished, is_stale_pairing, expire_pairings, expire_stale_pairings, expire_task, on_error,
  expire_command, expire_all, overdue, expire_commands, log_count, maintain,
}
use Expiry.{Grown, expire_all-Grown}

update-none {ℓ} :
    {A : Type ℓ} (p : A → Bool) (f : A → A) (xs : List A)
    → length (select p xs) ≡ 0
    → update p f xs ≡ xs
unfolding select update
update-none p f [] h = refl
update-none p f (x ∷ xs) h = elim (Bool-cases (p x)) [
  | inl hit ↦ ground arith
  | inr miss ↦ rw miss (ap (λ l. x ∷ l) (update-none p f xs (rw miss at h)))
]

-- Both copies of the tables are `d`.
record Both (d : Database) (x : Session) : Type 0 where
  working : x.working ≡ d
  committed : x.committed ≡ d

-- Nothing is written, or the operation has raised with nothing committed.
abbrev Ended {ℓ} : {A : Type ℓ} → Database → Result A → Session → Type 0
Ended d (ok a) y = Both d y
Ended d (err e) y = y.committed ≡ d

record Stalls {ℓ} {A : Type ℓ} (d : Database) (m : Tx A) : Type ℓ where
  at : (x : Session) → Both d x → Ended d (m x).0 (m x).1

-- The same, but for a count that is not zero.
abbrev CountEnded : Database → Result ℕ → Session → Type 0
CountEnded d (ok zero) y = Both d y
CountEnded d (ok (suc n)) y = y.committed ≡ d
CountEnded d (err e) y = y.committed ≡ d

record Counts (d : Database) (m : Tx ℕ) : Type 0 where
  at : (x : Session) → Both d x → CountEnded d (m x).0 (m x).1

module _ {d : Database} (env : Environment) (silent : env.logs LogLevel.info ≡ false) where
  -- A count that is not zero is logged, which raises.
  Stalls-logged :
      {A : Type 0} (m : Tx ℕ) (rest : ℕ → Tx A)
      → Counts d m
      → ((n : ℕ) → Stalls d (rest n))
      → Stalls d (m >>= λ n. (log_count env n >> rest n))
  unfolding log_count
  Stalls-logged m rest cm sr = record { at = λ x h. let (r, y) = m x in go r y (cm.at x h) }
    where
      go :
          (r : Result ℕ) (y : Session)
          → CountEnded d r y
          → Ended d
              (continue r (λ n. (log_count env n >> rest n)) y).0
              (continue r (λ n. (log_count env n >> rest n)) y).1
      go (ok zero) y h = (sr 0).at y h
      go (ok (suc n)) y h = rw silent h
      go (err e) y h = h

module _ {d : Database} where
  -- An UPDATE that finds no row changes nothing.
  Counts-update :
      (rows : Database → ℕ) (write : Database → Database)
      → (rows d ≡ 0 → write d ≡ d)
      → Counts d (do count ← gets rows; modify write; pure count)
  Counts-update rows write none_found = record { at = λ x h. go x h (rows x.working) refl }
    where
      go :
          (x : Session)
          → Both d x
          → (n : ℕ) → rows x.working ≡ n
          → CountEnded d (ok (rows x.working)) (record x { working = write x.working })
      go x h zero e = rw e (record {
        working = rw h.working (none_found (rw (← h.working) e));
        committed = h.committed;
      })
      go x h (suc n) e = rw e h.committed

  Counts-pairings : (now : ℕ) → Counts d (expire_stale_pairings now)
  unfolding expire_stale_pairings
  Counts-pairings now =
      Counts-update (λ db. length (select (is_stale_pairing now) db.pairings)) (expire_pairings now)
        (λ e. ap (λ rows. record d { pairings = rows }) (update-none _ _ d.pairings e))

  Counts-approvals : (now : ℕ) → Counts d (expire_pending_approvals now)
  unfolding expire_pending_approvals
  Counts-approvals now =
      Counts-update (λ db. length (select (is_stale now) db.approvals)) (expire_stale now)
        (λ e. ap (λ rows. record d { approvals = rows }) (update-none _ _ d.approvals e))

Counts-commands : {d : Database} (env : Environment) → Counts d (expire_commands env)
unfolding expire_commands
Counts-commands {d} env = record {
  at = λ x h.
      let (r, y) = expire_commands env x in
      go x h r y (expire_all-Grown env (overdue env.now x.working) 0 x);
}
  where
    go :
        (x : Session)
        → Both d x
        → (r : Result ℕ) (y : Session) → Grown 0 x.working x.committed r y
        → CountEnded d r y
    go x h (ok zero) y g = record { working = g.1 refl ∙ h.working; committed = g.2 ∙ h.committed }
    go x h (ok (suc n)) y g = g.2 ∙ h.committed
    go x h (err e) y g = g ∙ h.committed

Stalls-commit : {d : Database} → Stalls d commit
Stalls-commit = record { at = λ x h. record { working = h.working; committed = h.working } }

Ended-close :
    {A : Type 0} (d : Database) (r : Result A) (y : Session)
    → Ended d r y
    → (close r y).1.database ≡ d
Ended-close d (ok a) y h = h.working
Ended-close d (err e) y h = h

-- With a logger that takes no keywords at INFO, a round of the scheduler changes no table: where it
-- finds something to expire, it raises before the commit and is rolled back.
pub maintain-stalled :
    (env : Environment) (w : World)
    → env.logs LogLevel.info ≡ false
    → (with_session (maintain env) w).1.database ≡ w.database
unfolding maintain
maintain-stalled env w silent =
    let d = w.database in
    let stalls : Stalls d (maintain env) =
      Stalls-logged env silent (expire_stale_pairings env.now) _ (Counts-pairings env.now) (λ _.
        Stalls-logged env silent (expire_pending_approvals env.now) _ (Counts-approvals env.now)
          (λ _.
            Stalls-logged env silent (expire_commands env) _ (Counts-commands env)
              (λ _. Stalls-commit))) in
    let (r, y) = maintain env (open_session w) in
    Ended-close d r y (stalls.at (open_session w) (record { working = refl; committed = refl }))
