-- ===== src/Examples/Rounds.antt =====
-- The theorems on the rounds of the workers at concrete rounds, with a logger of the standard library.
use veyaan_core_backend.Prelude.{
  false, some, List, [], ◌∷◌, ◌≡◌, refl, select, any, arith, ◌==◌, ◌⊎◌,
}
use veyaan_core_backend.Database.{Environment, World}
use veyaan_core_backend.Outbox.Model.{OutboxEvent, is_pending, device_lifecycle}
use veyaan_core_backend.Outbox.Repository.{new_event}
use veyaan_core_backend.Worker.Publisher.{start}
use veyaan_core_backend.Worker.Publisher.Drain.{Ended, start-drains}
use veyaan_core_backend.Worker.Scheduler.Presence.{Presence}
use veyaan_core_backend.Worker.Scheduler.Rounds.{run_tasks, run_tasks-stalled}
use veyaan_core_backend.Examples.{at_time, sent_ping, office}

abbrev standard_logger : Environment
standard_logger = record (at_time 5) { logs = λ _. false }

-- NATS has no stream.
abbrev refusing : Environment
refusing = record standard_logger { publish_error = λ _ _. some "no stream" }

abbrev revocation : OutboxEvent
revocation = new_event (at_time 2) 70 "device.revoked" "device" 20 (device_lifecycle 20) []

abbrev one_event : World
one_event = record { database = record office.database { outbox = revocation ∷ [] }; calls = [] }

abbrev four_rounds : List Environment
four_rounds = standard_logger ∷ standard_logger ∷ refusing ∷ refusing ∷ []

start-drains_example :
    (select (λ e. is_pending e.status) (start four_rounds one_event).database.outbox ≡ [])
    ⊎ Ended four_rounds one_event
unfolding any
start-drains_example =
    start-drains 2 four_rounds one_event (record { distinct = (refl, tt); due = (omega arith, tt) })
      ((omega arith, refl), ((omega arith, refl), ((omega arith, refl), ((omega arith, refl), tt))))
      (omega arith)

-- A queued command whose time is over.
abbrev overdue_office : World
overdue_office = record {
  database = record office.database { commands = record sent_ping { expires_at = some 3 } ∷ [] };
  calls = [];
}

-- The laptop has a connection and no heartbeat.
abbrev silent : Presence
silent = record { connected = λ i. i == 20; present = λ i. false }

run_tasks-stalled_example :
    (run_tasks standard_logger silent overdue_office).1.database ≡ record overdue_office.database {
      devices = (run_tasks standard_logger silent overdue_office).1.database.devices;
    }
run_tasks-stalled_example = run_tasks-stalled standard_logger silent overdue_office refl
