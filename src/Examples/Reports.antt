-- ===== src/Examples/Reports.antt =====
-- The theorem on reports at a frame of the laptop, with a command of another device in the tables.
use veyaan_core_backend.Prelude.{true, false, Option, none, some, [], ◌∷◌, ◌≡◌, refl, arith, find?}
use veyaan_core_backend.Python.{Dict, flag, null, text, uuid, fields, field, end, JsonFields}
use veyaan_core_backend.Database.{World}
use veyaan_core_backend.Command.Model.{Command}
use veyaan_core_backend.Command.StateMachine.{find_command}
use veyaan_core_backend.Outbox.Model.{command_acknowledged}
use veyaan_core_backend.Gateway.Messages.{
  ClientMessage, acknowledge, MessageType, Frame, json, parse_client_message, parse_content,
  by_type, type_to_model, last_field,
}
use veyaan_core_backend.Gateway.Connections.{Outside, Gateway}
use veyaan_core_backend.Gateway.Connections.Races.{last_connection}
use veyaan_core_backend.Gateway.Authentication.Challenge.{held_from}
use veyaan_core_backend.Gateway.Handler.{
  head, handle_device_message, on_message, report, command_belongs_to_device,
}
use veyaan_core_backend.Worker.Consumer.Routing.{poll_message}
use veyaan_core_backend.System.{here}
use veyaan_core_backend.System.Reports.{find_command-poll_frame}
use veyaan_core_backend.Examples.{at_time, sent_ping, office}

-- A command of the device 21.
abbrev foreign_ping : Command
foreign_ping = record sent_ping { id = 60; device_id = 21 }

abbrev shared_office : World
shared_office = record office {
  database = record office.database { commands = sent_ping ∷ foreign_ping ∷ [] };
}

abbrev takes_acknowledge : MessageType → JsonFields → Option ClientMessage
takes_acknowledge MessageType.acknowledge fs = some (acknowledge 30 true none)
takes_acknowledge t fs = none

abbrev outside : Outside
outside = record {
  environment = at_time 3;
  sends = λ _ _. true;
  connection_of = λ log d. last_connection d log;
  holds_challenge = λ log n. held_from n false log;
  publishes = λ _. true;
  schemas = takes_acknowledge;
  verifies = λ _ _ _ _ _ _ _ _. true;
}

abbrev idle : Gateway
idle = record { world = shared_office; active_connections = []; log = [] }

abbrev acknowledge_frame : Frame
acknowledge_frame = record {
  size = 60;
  content = json (fields (field "type" (text "acknowledge") (field "command_id" (uuid 30) end)));
}

abbrev acknowledgement : Dict
acknowledgement = head 30 20 (("accepted", flag true) ∷ ("rejection_reason", null) ∷ [])

find_command-poll_frame_example :
    find_command 60
      (poll_message
        (at_time 4)
        (command_acknowledged 30)
        (some acknowledgement)
        shared_office).1.database
    ≡ some foreign_ping
unfolding handle_device_message parse_client_message parse_content by_type type_to_model last_field
    on_message report command_belongs_to_device find_command find?
find_command-poll_frame_example =
    find_command-poll_frame 20 outside idle here (at_time 4) 60 foreign_ping refl (omega arith)
      acknowledge_frame (command_acknowledged 30) acknowledgement refl
