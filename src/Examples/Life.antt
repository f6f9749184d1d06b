-- ===== src/Examples/Life.antt =====
-- Runs of the workers: the event of a queued command is published, and the command is delivered,
-- acknowledged, run and finished.
use veyaan_core_backend.Prelude.{true, [], ◌∷◌, ◌≡◌, refl, map, update, select, find?, take}
use veyaan_core_backend.Python.{Dict, uuid, flag}
use veyaan_core_backend.Database.{World}
use veyaan_core_backend.Command.Model.{succeeded}
use veyaan_core_backend.Outbox.Repository.{new_event, write_event}
use veyaan_core_backend.Worker.Publisher.{process_batch, publish_event}
use veyaan_core_backend.Device.Repository.{find_device}
use veyaan_core_backend.EmergencyStop.Service.{find_stop}
use veyaan_core_backend.Command.Service.{queued_payload}
use veyaan_core_backend.Outbox.Model.{published, command_ready}
use veyaan_core_backend.Worker.Consumer.{
  handle_result, handle_progress, handle_acknowledged, handle_delivered,
}
use veyaan_core_backend.Command.StateMachine.{
  find_command, transition_command, contains, terminal_states, allowed_transitions,
  record_transition, write_state,
}
use veyaan_core_backend.System.{
  empty, perform, publish_round, on_delivered, on_acknowledged, on_progress, on_result,
}
use veyaan_core_backend.Examples.{at_time, office, sent_ping, trusted_laptop}

abbrev message : Dict
message = ("command_id", uuid 30) ∷ ("device_id", uuid 20) ∷ ("success", flag true) ∷ []

abbrev published_world : World
published_world = perform (at_time 3) publish_round (record office {
  database = record empty {
    devices = trusted_laptop ∷ [];
    commands = sent_ping ∷ [];
    outbox =
        new_event (at_time 2) 32 "command.queued" "command" 30 (command_ready 20)
          (queued_payload sent_ping)
        ∷ [];
  };
})

abbrev finished : World
finished = perform (at_time 7) (on_result message) (
    perform (at_time 6) (on_progress message) (
      perform (at_time 5) (on_acknowledged message)
        (perform (at_time 4) (on_delivered message) office)))

publish_test : map (λ e. e.status) published_world.database.outbox ≡ published ∷ []
unfolding process_batch take select find? find_command find_device find_stop update publish_event
    write_event
publish_test = refl

life_test : map (λ c. c.state) finished.database.commands ≡ succeeded ∷ []
unfolding handle_result select handle_progress find_command find? handle_acknowledged
    handle_delivered transition_command contains terminal_states allowed_transitions
    record_transition update write_state
life_test = refl
