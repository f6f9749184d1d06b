-- ===== src/Examples/Workers.antt =====
-- The theorems on the workers at concrete rounds.
use mathlib.Core.List.{Memᴰ}
use veyaan_core_backend.Device.Model.{Device}
use veyaan_core_backend.Prelude.{
  true, false, some, [], ◌∷◌, ◌≡◌, ◌≢◌, refl, any, find?, select, update, ◌==◌,
}
use veyaan_core_backend.Python.{ok, uuid, Dict, lookup}
use veyaan_core_backend.Database.{Environment, World, entry}
use veyaan_core_backend.Database.Session.{Session, with_session}
use veyaan_core_backend.Database.Keeps.{open_session}
use veyaan_core_backend.Command.Model.{Command, delivered, acknowledged}
use veyaan_core_backend.Command.Service.{queued_payload}
use veyaan_core_backend.Command.StateMachine.{
  find_command, contains, allowed_transitions, transition_command, terminal_states,
  record_transition, write_state,
}
use veyaan_core_backend.Command.StateMachine.Moves.{accepts}
use veyaan_core_backend.Command.StateMachine.Writes.{trace}
use veyaan_core_backend.Device.Repository.{find_device}
use veyaan_core_backend.EmergencyStop.Service.{is_active}
use veyaan_core_backend.Outbox.Model.{OutboxEvent, command_ready, command_delivered}
use veyaan_core_backend.Outbox.Repository.{new_event}
use veyaan_core_backend.Worker.Consumer.{
  command_id_of, device_mismatch, get, duplicates, is_recorded_as, dedup, handle_delivered,
  handle_acknowledged,
}
use veyaan_core_backend.Worker.Consumer.Routing.{
  route_handler, first_of, run_handler, with_handler, poll_message,
}
use veyaan_core_backend.Worker.Consumer.Replies.{poll_message-nak}
use veyaan_core_backend.Worker.Consumer.Redelivery.{delivery, handle_delivered-again}
use veyaan_core_backend.Worker.Publisher.{is_command_ready, publish_event}
use veyaan_core_backend.Worker.Publisher.Stopped.{publish_event-stopped}
use veyaan_core_backend.Worker.Scheduler.Presence.{
  Presence, detect_stale_device_presence, find_device-detect_stale,
}
use veyaan_core_backend.Worker.Scheduler.Rounds.{run_tasks, find_command-run_tasks}
use veyaan_core_backend.System.{empty}
use veyaan_core_backend.Examples.{at_time, sent_ping, trusted_laptop, office}

-- A command that was delivered and is late.
abbrev late_ping : Command
late_ping = record sent_ping { state = delivered; expires_at = some 3; delivered_at = some 2 }

-- The laptop has a connection and no heartbeat.
abbrev silent : Presence
silent = record { connected = λ i. i == 20; present = λ i. false }

abbrev late_office : World
late_office = record {
  database = record empty { devices = trusted_laptop ∷ []; commands = late_ping ∷ [] };
  calls = [];
}

find_command-run_tasks_example :
    find_command 30 (run_tasks (at_time 9) silent late_office).1.database ≡ some late_ping
unfolding find_command find? accepts contains any allowed_transitions
find_command-run_tasks_example =
    find_command-run_tasks (at_time 9) silent late_office 30 late_ping refl refl

abbrev stop_cached : Environment
stop_cached = record (at_time 3) { cached = λ _ _. some (entry (some true)) }

abbrev ping_event : OutboxEvent
ping_event =
    new_event (at_time 2) 32 "command.queued" "command" 30 (command_ready 20)
      (queued_payload sent_ping)

abbrev publishing : Session
publishing = open_session office

publish_event-stopped_example :
    ((publish_event stop_cached ping_event publishing).0 ≢ ok true)
    × ((publish_event stop_cached ping_event publishing).1.calls
        ≡ (is_active stop_cached 1 publishing).1.calls)
unfolding find_command find? find_device is_active is_command_ready
publish_event-stopped_example =
    publish_event-stopped stop_cached ping_event sent_ping trusted_laptop publishing refl refl refl
      refl

-- A delivery that two events already record.
abbrev twice : World
twice = record {
  database = record office.database {
    state_events = delivery sent_ping 30 ∷ delivery sent_ping 30 ∷ [];
  };
  calls = [];
}

abbrev delivery_report : Dict
delivery_report = ("command_id", uuid 30) ∷ ("device_id", uuid 20) ∷ []

poll_message-nak_example :
    (poll_message (at_time 3) (command_delivered 30) (some delivery_report) twice).1.database
    ≡ twice.database
unfolding poll_message route_handler first_of with_handler run_handler handle_delivered lookup
    select
poll_message-nak_example =
    poll_message-nak (at_time 3) (command_delivered 30) (some delivery_report) twice refl

-- The same report again, after the device has acknowledged the command.
abbrev delivered_office : World
delivered_office = (with_session (handle_delivered (at_time 3) delivery_report) office).1

abbrev acknowledged_office : World
acknowledged_office =
    (with_session (handle_acknowledged (at_time 4) (("command_id", uuid 30) ∷ []))
      delivered_office).1

handle_delivered-again_example :
    with_session (handle_delivered (at_time 9) delivery_report) acknowledged_office
    ≡ (ok tt, acknowledged_office)
unfolding command_id_of device_mismatch get lookup find_command find? accepts contains any
    allowed_transitions duplicates select trace handle_delivered handle_acknowledged is_recorded_as
    transition_command terminal_states record_transition update write_state
handle_delivered-again_example =
    handle_delivered-again (at_time 3) (at_time 9) delivery_report office acknowledged_office 30
      sent_ping
      (record {
        command_id = 30;
        previous_state = some delivered;
        new_state = acknowledged;
        event_source = "device";
        event_metadata = some (dedup "acknowledged:" 30);
      }
        ∷ [])
      refl refl refl refl refl refl refl

abbrev only_laptop : (k : Device) → Memᴰ k (trusted_laptop ∷ []) → k ≡ trusted_laptop
only_laptop k (Memᴰ.head e) = e
only_laptop k (Memᴰ.tail m) = elim m [ ]

find_device-detect_stale_example :
    find_device 20 (detect_stale_device_presence silent 7 office).1.database
    ≡ some (record trusted_laptop { last_seen_at = some 7 })
unfolding find?
find_device-detect_stale_example =
    find_device-detect_stale silent 7 20 office trusted_laptop
      (record { found = refl; alone = λ k m e. only_laptop k m })
