-- ===== src/Worker/Scheduler/Stalled/Expiry.antt =====
-- The count of the commands that a round expires grows with each of them.
use veyaan_core_backend.Prelude.{
  ℕ, ◌+◌, ◌≤◌, Bool, true, false, List, [], ◌∷◌, Option, none, some, ◌≡◌, refl, sym, ◌∙◌, subst,
  arith, inl, inr, Bool-cases, if◌then◌else◌, find?, ◌==◌,
}
use veyaan_core_backend.Python.{Error, Result, ok, err, state_transition}
use veyaan_core_backend.Database.{LogLevel, Database, Environment}
use veyaan_core_backend.Database.Session.{Session, pure, continue, ◌>>◌, recover, log}
use veyaan_core_backend.Command.Model.{Command, Task, expired}
use veyaan_core_backend.Command.StateMachine.{find_command, record_transition}
use veyaan_core_backend.Command.StateMachine.Moves.{accepts, outcome, transition_command-eq}
use veyaan_core_backend.Worker.Scheduler.{
  is_finished, expire_task, on_error, expire_command, expire_all,
}

-- A command that is not expired is as it was.
abbrev Idle : Database → Database → Result Bool → Session → Type 0
Idle d k (ok true) y = y.committed ≡ k
Idle d k (ok false) y = (y.working ≡ d) × (y.committed ≡ k)
Idle d k (err e) y = y.committed ≡ k

-- The task of an expired command is written in the session only.
expire_task-done :
    (i : ℕ) (y : Session)
    → ((expire_task i y).0 ≡ ok tt) × ((expire_task i y).1.committed ≡ y.committed)
unfolding expire_task
expire_task-done i y = go (find? (λ t. t.command_id == i) y.working.tasks) refl
  where
    go :
        (o : Option Task)
        → find? (λ t. t.command_id == i) y.working.tasks ≡ o
        → ((expire_task i y).0 ≡ ok tt) × ((expire_task i y).1.committed ≡ y.committed)
    go none h = rw h (refl, refl)
    go (some t) h = elim (Bool-cases (is_finished t.state)) [
      | inl over ↦ rw (h, over) (refl, refl)
      | inr open_task ↦ rw (h, open_task) (refl, refl)
    ]

-- What the loop body does after the transition.
abbrev rest_of : Environment → Command → Result (Option Command) × Session → Result Bool × Session
rest_of env c (r, y) =
    let (ended, z) = continue r (λ _. do expire_task c.id; pure true) y in
    recover ended (on_error env) z

module _ (env : Environment) (c : Command) (x : Session) where
  abbrev IdleAfter : Result Bool × Session → Type 0
  IdleAfter (r, y) = Idle x.working x.committed r y

  logged : (level : LogLevel) → IdleAfter ((do log env level; pure false) x)
  logged level = elim (Bool-cases (env.logs level)) [
    | inl takes ↦ rw takes (refl, refl)
    | inr raises ↦ rw raises refl
  ]

  handled : (e : Error) → IdleAfter (on_error env e x)
  unfolding on_error
  handled (state_transition i) = logged LogLevel.warning
  handled e = logged LogLevel.error

  by_row :
      (o : Option Command)
      → IdleAfter (rest_of env c (outcome env expired "scheduler" none c.id x o))
  by_row none = let done = expire_task-done c.id x in rw done.0 done.1
  by_row (some r) = elim (Bool-cases (accepts r.state expired)) [
    | inl moved ↦
        let y = record x {
          working = record_transition env.now expired "scheduler" none r x.working;
        } in
        let done = expire_task-done c.id y in rw (moved, done.0) done.1
    | inr refused ↦ rw refused (handled (state_transition r.id))
  ]

  expire_command-Idle : IdleAfter (expire_command env c x)
  unfolding expire_command
  expire_command-Idle =
      subst (λ m. IdleAfter (rest_of env c m))
        (sym (transition_command-eq env expired "scheduler" none c.id x))
        (by_row (find_command c.id x.working))

-- The count grows with each command that is expired.
abbrev pub Grown : ℕ → Database → Database → Result ℕ → Session → Type 0
Grown n d k (ok m) y = (n ≤ m) × (m ≡ n → y.working ≡ d) × (y.committed ≡ k)
Grown n d k (err e) y = y.committed ≡ k

abbrev pub GrownAfter : ℕ → Session → Result ℕ × Session → Type 0
GrownAfter n x (r, y) = Grown n x.working x.committed r y

-- A count that began higher, or from the same tables, is one that began here.
Grown-higher :
    (n : ℕ) (x y : Session) (r : Result ℕ) (z : Session)
    → y.committed ≡ x.committed
    → Grown (n + 1) y.working y.committed r z
    → Grown n x.working x.committed r z
Grown-higher n x y (ok m) z e h =
    let over : n + 1 ≤ m = h.0 in
    (omega (arith, over), λ same. absurd (omega (arith, over, same)), h.2 ∙ e)
Grown-higher n x y (err f) z e h = h ∙ e

Grown-same :
    (n : ℕ) (x y : Session) (r : Result ℕ) (z : Session)
    → (y.working ≡ x.working) × (y.committed ≡ x.committed)
    → Grown n y.working y.committed r z
    → Grown n x.working x.committed r z
Grown-same n x y (ok m) z e h = (h.0, λ same. h.1 same ∙ e.0, h.2 ∙ e.1)
Grown-same n x y (err f) z e h = h ∙ e.1

pub expire_all-Grown :
    (env : Environment) (commands : List Command) (n : ℕ) (x : Session)
    → GrownAfter n x (expire_all env commands n x)
unfolding expire_all
expire_all-Grown env [] n x = (omega arith, λ same. refl, refl)
expire_all-Grown env (c ∷ commands) n x =
    let (r, y) = expire_command env c x in
    go (λ m z. expire_all-Grown env commands m z) r y (expire_command-Idle env c x)
  where
    go :
        ((m : ℕ) (z : Session) → GrownAfter m z (expire_all env commands m z))
        → (r : Result Bool) (y : Session) → Idle x.working x.committed r y
        → GrownAfter n x
            (continue r (λ done. expire_all env commands (if done then n + 1 else n)) y)
    go all (ok true) y h =
        let (r, z) = expire_all env commands (n + 1) y in Grown-higher n x y r z h (all (n + 1) y)
    go all (ok false) y h =
        let (r, z) = expire_all env commands n y in Grown-same n x y r z h (all n y)
    go all (err e) y h = h
