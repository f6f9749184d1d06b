-- ===== src/Worker/Scheduler/Kept.antt =====
-- A round of the scheduler is made of the shared steps.
use veyaan_core_backend.Prelude.{ℕ, Bool, List, [], ◌∷◌, ◌+◌, if◌then◌else◌, refl, ◌≡◌}
use veyaan_core_backend.Database.{Database, Environment}
use veyaan_core_backend.Database.Session.{Session, modify}
use veyaan_core_backend.Database.Keeps.{Keeps, keeps_rules}
use veyaan_core_backend.Kept.{IsKept, kept_rules}
use veyaan_core_backend.Command.Model.{Task, Command}
use veyaan_core_backend.Approval.Repository.{expire_stale, expire_pending_approvals}
use veyaan_core_backend.Worker.Scheduler.{
  expire_pairings, expire_stale_pairings, fail_task, expire_command, expire_all, expire_commands,
  maintain,
}
use veyaan_core_backend.Device.Repository.{update_last_seen}
use veyaan_core_backend.Worker.Scheduler.Presence.{touch_all, touch}
use veyaan_core_backend.Worker.Scheduler.Logging.{logging_rules}

module _ {P : Session → Type 0} (r : IsKept P) where
  Keeps-expire_stale_pairings : (now : ℕ) → Keeps P (expire_stale_pairings now)
  unfolding expire_stale_pairings
  Keeps-expire_stale_pairings now = search (
    keeps_rules,
    r.writes (expire_pairings now) (λ db. refl) (λ db. refl) (λ db. refl) (λ db. refl),
  )

  Keeps-expire_pending_approvals : (now : ℕ) → Keeps P (expire_pending_approvals now)
  unfolding expire_pending_approvals
  Keeps-expire_pending_approvals now =
      search (
        keeps_rules,
        r.writes (expire_stale now) (λ db. refl) (λ db. refl) (λ db. refl) (λ db. refl),
      )

  Keeps-fail_task : (t : Task) → Keeps P (modify (fail_task t))
  unfolding fail_task
  Keeps-fail_task t = r.writes (fail_task t) (λ db. refl) (λ db. refl) (λ db. refl) (λ db. refl)

  Keeps-expire_command : (env : Environment) (c : Command) → Keeps P (expire_command env c)
  unfolding expire_command
  Keeps-expire_command env c = search (kept_rules, logging_rules, Keeps-fail_task) depth 16

  Keeps-expire_all :
      (env : Environment) (commands : List Command) (n : ℕ) → Keeps P (expire_all env commands n)
  unfolding expire_all
  Keeps-expire_all env [] n = search keeps_rules
  Keeps-expire_all env (c ∷ commands) n = search (
    keeps_rules,
    Keeps-expire_command,
    λ (done : Bool). Keeps-expire_all env commands (if done then n + 1 else n),
  )

  Keeps-expire_commands : (env : Environment) → Keeps P (expire_commands env)
  unfolding expire_commands
  Keeps-expire_commands env = search (keeps_rules, Keeps-expire_all)

  pub Keeps-maintain : (env : Environment) → Keeps P (maintain env)
  unfolding maintain
  Keeps-maintain env =
      search
        (
          kept_rules, logging_rules, Keeps-expire_stale_pairings, Keeps-expire_pending_approvals,
          Keeps-expire_commands,
        )
        depth 16

  module _ (now : ℕ) where
    same_commands : (ids : List ℕ) (db : Database) → (touch_all now ids db).commands ≡ db.commands
    unfolding touch_all update_last_seen
    same_commands [] db = refl
    same_commands (i ∷ ids) db = same_commands ids (update_last_seen now i db)

    same_events :
        (ids : List ℕ) (db : Database) → (touch_all now ids db).state_events ≡ db.state_events
    unfolding touch_all update_last_seen
    same_events [] db = refl
    same_events (i ∷ ids) db = same_events ids (update_last_seen now i db)

    same_stops :
        (ids : List ℕ) (db : Database) → (touch_all now ids db).emergency_stops ≡ db.emergency_stops
    unfolding touch_all update_last_seen
    same_stops [] db = refl
    same_stops (i ∷ ids) db = same_stops ids (update_last_seen now i db)

    same_log : (ids : List ℕ) (db : Database) → (touch_all now ids db).audit ≡ db.audit
    unfolding touch_all update_last_seen
    same_log [] db = refl
    same_log (i ∷ ids) db = same_log ids (update_last_seen now i db)

    pub Keeps-touch : (ids : List ℕ) → Keeps P (touch now ids)
    Keeps-touch ids =
        let written =
          r.writes (touch_all now ids) (same_commands ids) (same_events ids) (same_stops ids)
            (same_log ids) in
        search (kept_rules, written)
