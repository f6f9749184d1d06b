-- ===== src/Examples/Gateway.antt =====
-- The theorems on the gateway and on the trigger at concrete connections, frames and events.
use veyaan_core_backend.Prelude.{
  true, false, not, ◌&&◌, ◌≢◌, Option, none, some, List, [], ◌∷◌, ◌++◌, ◌≡◌, ◌⊎◌, refl, arith,
  find?, select,
}
use veyaan_core_backend.Python.{text, uuid, time, fields, field, end, JsonFields, to_fields}
use veyaan_core_backend.Command.Model.{Command}
use veyaan_core_backend.Command.Service.{queued_payload}
use veyaan_core_backend.Device.Repository.{devices_by_owner, revoke_device, find_owned_device}
use veyaan_core_backend.Database.Session.{with_session}
use veyaan_core_backend.Device.Service.{revoke, revoked_payload}
use veyaan_core_backend.System.Revocation.{attempt_all, revoke-attempt_all}
use veyaan_core_backend.EmergencyStop.Service.{activation_payload}
use veyaan_core_backend.Gateway.Messages.{
  ClientMessage, heartbeat, MessageType, Frame, Loaded, json, bad_json, emergency_stop,
  parse_client_message, parse_content, by_type, type_to_model, last_field,
}
use veyaan_core_backend.Gateway.Messages.Sound.{Reads, parse_client_message-Reads}
use veyaan_core_backend.Gateway.Connections.{
  DeviceConnection, Outside, Gateway, get, register, unregister, remove, getdel_challenge,
}
use veyaan_core_backend.Gateway.Connections.Races.{last_connection, last_from, unregister-register}
use veyaan_core_backend.Gateway.Delivery.{deliver_message}
use veyaan_core_backend.Gateway.Connections.Sent.{messages}
use veyaan_core_backend.Gateway.Delivery.Expiry.{deliver_message-without_expiry}
use veyaan_core_backend.Gateway.Delivery.Ready.{Sends, Ready, deliver_message-Ready}
use veyaan_core_backend.Gateway.Handler.{
  handle_device_message, security_callback, device_lifecycle_callback,
}
use veyaan_core_backend.Gateway.Handler.Ownership.{Confined, handle_device_message-Confined}
use veyaan_core_backend.Gateway.Handler.Events.{to_all, messages-security_callback}
use veyaan_core_backend.Gateway.Authentication.{
  Attempt, frame, authenticate, consume_challenge, verify_device_challenge_response,
}
use veyaan_core_backend.Gateway.Authentication.Soundness.{
  Authenticated, challenged, authenticate-Authenticated,
}
use veyaan_core_backend.Gateway.Authentication.Challenge.{no_more, held_from, verify-consumed}
use veyaan_core_backend.Gateway.Endpoint.{ended, receive, serve, get-serve}
use veyaan_core_backend.Command.Model.{validated, blocked_by_emergency_stop}
use veyaan_core_backend.Command.StateMachine.{contains}
use veyaan_core_backend.Command.StateMachine.Moves.{accepts}
use veyaan_core_backend.Migrations.{trigger_accepts, only_machine, only_trigger, trigger-accepts}
use veyaan_core_backend.Examples.{at_time, sent_ping, office}

-- A gateway whose Valkey keeps what it was given, and whose schemas take a heartbeat only.
abbrev takes_heartbeat : MessageType → JsonFields → Option ClientMessage
takes_heartbeat MessageType.heartbeat fs = some (heartbeat "online" 0)
takes_heartbeat t fs = none

abbrev outside : Outside
outside = record {
  environment = at_time 3;
  sends = λ _ _. true;
  connection_of = λ log d. last_connection d log;
  holds_challenge = λ log n. held_from n false log;
  publishes = λ _. true;
  schemas = takes_heartbeat;
  verifies = λ key _ _ _ _ signature _ _. true;
}

abbrev laptop_connection : DeviceConnection
laptop_connection = record {
  device_id = 20;
  owner_id = 1;
  connection_id = 40;
  last_heartbeat = 1;
  protocol_version = text "v1";
  app_version = text "1.0";
  violations = 0;
}

abbrev connected : Gateway
connected = record { world = office; active_connections = laptop_connection ∷ []; log = [] }

abbrev late_ping : Command
late_ping = record sent_ping { expires_at = some 9; parameters = fields end }

abbrev ready_ping : Loaded
ready_ping = json (fields (to_fields (queued_payload late_ping)))

deliver_message-Ready_example :
    Sends 40
      (Ready outside laptop_connection ready_ping connected)
      connected.log
      (deliver_message outside laptop_connection ready_ping connected).log
deliver_message-Ready_example = deliver_message-Ready outside laptop_connection ready_ping connected

abbrev timeless_ping : Command
timeless_ping = record sent_ping { parameters = fields end }

deliver_message-without_expiry_example :
    messages
      (deliver_message outside laptop_connection
        (json (fields (to_fields (queued_payload timeless_ping))))
        connected).log
    ≡ messages connected.log
deliver_message-without_expiry_example =
    deliver_message-without_expiry outside laptop_connection timeless_ping connected refl

abbrev heartbeat_frame : Frame
heartbeat_frame = record {
  size = 40;
  content = json (fields (field "type" (text "heartbeat") end));
}

parse_client_message-Reads_example : Reads takes_heartbeat heartbeat_frame (heartbeat "online" 0)
unfolding parse_client_message parse_content by_type last_field type_to_model
parse_client_message-Reads_example =
    parse_client_message-Reads takes_heartbeat heartbeat_frame (heartbeat "online" 0) refl

handle_device_message-Confined_example :
    Confined 20 connected (handle_device_message outside 20 heartbeat_frame connected)
handle_device_message-Confined_example =
    handle_device_message-Confined outside 20 heartbeat_frame connected

abbrev no_json : Frame
no_json = record { size = 1; content = bad_json }

abbrev four : List Frame
four = no_json ∷ no_json ∷ no_json ∷ no_json ∷ []

unregister-register_example :
    unregister outside 20 39 (register laptop_connection connected)
    ≡ register laptop_connection connected
unregister-register_example =
    unregister-register outside laptop_connection 39 connected (record { last = λ log d c h. h })
      (omega arith)

abbrev replaced : DeviceConnection
replaced = record laptop_connection { connection_id = 39 }

get-serve_example : laptop_connection.connection_id ≢ 39
unfolding serve receive unregister remove select get find? last_connection last_from
get-serve_example = get-serve outside replaced laptop_connection (ended ∷ []) connected refl

messages-security_callback_example :
    messages
      (security_callback outside "emergency_stop" 1
        (json (fields (to_fields (activation_payload (at_time 3) 1 (some "drill")))))
        connected).log
    ≡ messages connected.log
      ++ to_all (emergency_stop "drill") (devices_by_owner 1 office.database) connected
messages-security_callback_example =
    messages-security_callback outside (at_time 3) 1 "drill" connected

abbrev attempt : Attempt
attempt = record {
  connection_id = 41;
  server_time = time 3;
  nonce = "n";
  protocol_version = "v1";
  app_version = "1.0";
  answer =
      frame (json (fields (field "type" (text "auth_response") (field "device_id" (uuid 20) end))));
}

authenticate-Authenticated_example :
    ((authenticate outside attempt connected).active_connections ≡ connected.active_connections)
    ⊎ Authenticated outside attempt
        (challenged attempt connected).log
        office.database
        connected.active_connections
        (authenticate outside attempt connected).active_connections
authenticate-Authenticated_example = authenticate-Authenticated outside attempt connected

abbrev consumed : Gateway
consumed = record connected { log = getdel_challenge "n" ∷ [] }

verify-consumed_example :
    (verify_device_challenge_response outside 20 41 "n"
      (time 3)
      (text "sig")
      "key"
      (text "v1")
      (text "1.0")
      consumed).0
    ≡ false
unfolding consume_challenge
verify-consumed_example =
    verify-consumed outside connected consumed "n" [] (record { was_set = λ log n h. h }) refl
      no_more 20 41 (time 3) (text "sig") "key" (text "v1") (text "1.0")

trigger-accepts_example :
    ((accepts validated blocked_by_emergency_stop
        && not (trigger_accepts validated blocked_by_emergency_stop))
      ≡ contains blocked_by_emergency_stop (only_machine validated))
    × ((trigger_accepts validated blocked_by_emergency_stop
          && not (accepts validated blocked_by_emergency_stop))
        ≡ contains blocked_by_emergency_stop (only_trigger validated))
trigger-accepts_example = trigger-accepts validated blocked_by_emergency_stop

-- The gateway after the laptop was revoked.
abbrev warned : Gateway
warned = record connected { world = (with_session (revoke (at_time 3) 50 20 1) office).1 }

revoke-attempt_all_example :
    get 20 (
      attempt_all outside (attempt ∷ attempt ∷ []) (
        device_lifecycle_callback outside
          (json (fields (to_fields (revoked_payload 20 1))))
          warned))
    ≡ none
unfolding revoke revoke_device find_owned_device find?
revoke-attempt_all_example =
    revoke-attempt_all (at_time 3) 50 20 1 office outside (attempt ∷ attempt ∷ []) warned refl refl
