-- ===== src/Worker/Scheduler/Rounds.antt =====
-- app/workers/scheduler.py: a whole round, which is a session and then the detection of stale devices.
use veyaan_core_backend.Prelude.{
  ℕ, zero, suc, false, some, List, [], ◌∷◌, ◌≡◌, refl, ◌∙◌, ap, if◌then◌else◌,
}
use veyaan_core_backend.Python.{Result, ok, err, type_error}
use veyaan_core_backend.Database.{LogLevel, Database, Environment, World}
use veyaan_core_backend.Database.Session.{with_session}
use veyaan_core_backend.Command.Model.{Command, expired}
use veyaan_core_backend.Command.StateMachine.{find_command}
use veyaan_core_backend.Command.StateMachine.Moves.{accepts}
use veyaan_core_backend.Device.Repository.{update_last_seen}
use veyaan_core_backend.Worker.Scheduler.{maintain}
use veyaan_core_backend.Worker.Scheduler.Presence.{
  Presence, touch_all, touch_listed, stale_ids, detect_stale_device_presence,
}
use veyaan_core_backend.Worker.Scheduler.Spared.{find_command-maintain}
use veyaan_core_backend.Worker.Scheduler.Stalled.{maintain-stalled}

-- `if stale_devices: logger.info(…, count=stale_devices)`
abbrev pub logged_count : Environment → ℕ → Result (Unit {0})
logged_count env zero = ok tt
logged_count env (suc n) = if env.logs LogLevel.info then ok tt else err type_error

-- What follows the session, if that did not raise.
abbrev pub after_session :
    Environment → Presence → Result (Unit {0}) × World → Result (Unit {0}) × World
after_session env p (err e, v) = (err e, v)
after_session env p (ok a, v) =
    let (count, after) = detect_stale_device_presence p env.now v in (logged_count env count, after)

unfoldable pub run_tasks : Environment → Presence → World → Result (Unit {0}) × World
unfolding maintain detect_stale_device_presence
run_tasks env p w = after_session env p (with_session (maintain env) w)

-- All tables but that of the devices are the same.
pub record OnlyDevices (a b : Database) : Type 0 where
  pub others : b ≡ record a { devices = b.devices }

OnlyDevices-touch : (now : ℕ) (ids : List ℕ) (db : Database) → OnlyDevices db (touch_all now ids db)
unfolding touch_all update_last_seen
OnlyDevices-touch now [] db = record { others = refl }
OnlyDevices-touch now (i ∷ ids) db = record {
  others = (OnlyDevices-touch now ids (update_last_seen now i db)).others;
}

OnlyDevices-listed :
    (now : ℕ) (ids : List ℕ) (w : World) → OnlyDevices w.database (touch_listed now ids w).database
unfolding touch_all
OnlyDevices-listed now [] w = record { others = refl }
OnlyDevices-listed now (i ∷ ids) w = OnlyDevices-touch now (i ∷ ids) w.database

OnlyDevices-after :
    (env : Environment) (p : Presence) (r : Result (Unit {0})) (v : World)
    → OnlyDevices v.database (after_session env p (r, v)).1.database
unfolding detect_stale_device_presence
OnlyDevices-after env p (err e) v = record { others = refl }
OnlyDevices-after env p (ok a) v = OnlyDevices-listed env.now (stale_ids p v.database) v

-- A round of the scheduler leaves the row of a command as it is when EXPIRED is refused from its
-- state.
pub find_command-run_tasks :
    (env : Environment) (p : Presence) (w : World) (j : ℕ) (c : Command)
    → find_command j w.database ≡ some c
    → accepts c.state expired ≡ false
    → find_command j (run_tasks env p w).1.database ≡ some c
unfolding run_tasks find_command
find_command-run_tasks env p w j c h refused =
    let (r, v) = with_session (maintain env) w in
    ap (find_command j) (OnlyDevices-after env p r v).others
    ∙ find_command-maintain env w j c h refused

-- With a logger that takes no keywords at INFO, as the scheduler's own is, a round changes no table but
-- that of the devices: it expires no pairing, no approval and no command, since where it finds
-- something to expire it raises before the commit.
pub run_tasks-stalled :
    (env : Environment) (p : Presence) (w : World)
    → env.logs LogLevel.info ≡ false
    → (run_tasks env p w).1.database
      ≡ record w.database { devices = (run_tasks env p w).1.database.devices }
unfolding run_tasks
run_tasks-stalled env p w silent =
    let (r, v) = with_session (maintain env) w in
    let after = (run_tasks env p w).1.database in
    (OnlyDevices-after env p r v).others
    ∙ ap (λ (db : Database). record db { devices = after.devices }) (maintain-stalled env w silent)
