-- ===== src/Worker/Scheduler/Logging.antt =====
-- The scheduler's logger writes to no table, whether it returns or raises.
use veyaan_core_backend.Prelude.{ℕ, zero, suc}
use veyaan_core_backend.Python.{Error, state_transition}
use veyaan_core_backend.Database.{Environment}
use veyaan_core_backend.Database.Session.{Session}
use veyaan_core_backend.Database.Keeps.{Keeps, keeps_rules}
use veyaan_core_backend.Worker.Scheduler.{on_error, log_count}

module _ {P : Session → Type 0} (env : Environment) where
  pub Keeps-on_error : (e : Error) → Keeps P (on_error env e)
  unfolding on_error
  Keeps-on_error (state_transition i) = search keeps_rules
  Keeps-on_error e = search keeps_rules

  pub Keeps-log_count : (n : ℕ) → Keeps P (log_count env n)
  unfolding log_count
  Keeps-log_count zero = search keeps_rules
  Keeps-log_count (suc n) = search keeps_rules

pub ruleset logging_rules = (Keeps-on_error, Keeps-log_count)
