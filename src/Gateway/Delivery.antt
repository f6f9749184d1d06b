-- ===== src/Gateway/Delivery.antt =====
-- app/websocket/gateway.py: what the listener of a device does with one message of the stream of
-- ready commands, and `_pre_delivery_check`.
pub mod Expiry
pub mod Ready
use veyaan_core_backend.Prelude.{
  ℕ, String, Bool, true, false, not, ◌==◌, ltb, Option, none, some, List, [], ◌∷◌, if◌then◌else◌,
}
use veyaan_core_backend.Python.{Json, text, uuid, time, fields, JsonFields, Dict}
use veyaan_core_backend.Database.{Database, Environment}
use veyaan_core_backend.Command.Model.{Command, queued, same}
use veyaan_core_backend.Command.StateMachine.{find_command}
use veyaan_core_backend.Outbox.Model.{command_delivered}
use veyaan_core_backend.Gateway.Messages.{
  ServerMessage, command, Loaded, json, bad_json, bad_utf8, last_field,
}
use veyaan_core_backend.Gateway.Connections.{
  DeviceConnection, Outside, Gateway, note, ask_stop, send_json, ack, nak, publish_js,
}

abbrev pub is_late : ℕ → Option ℕ → Bool
is_late now none = false
is_late now (some t) = ltb t now

abbrev pub row_is_ready : ℕ → ℕ → Option Command → Bool
row_is_ready now device_id none = false
row_is_ready now device_id (some c) =
    if not (c.device_id == device_id)
    then false
    else if not (same c.state queued)
    then false
    else if is_late now c.expires_at
    then false
    else true

-- On the committed tables; the stop, which its comment names too, is asked for by the caller.
unfoldable pub pre_delivery_check : ℕ → ℕ → ℕ → Database → Bool
pre_delivery_check now command_id device_id db =
    row_is_ready now device_id (find_command command_id db)

-- `CommandRequestMessage(…)` on the payloads that the outbox writes: the model wants a text, a `dict`
-- and a time, and the time is `null` for a command that does not expire. `none` is a raise.
abbrev pub message_of : ℕ → Option Json → Option Json → Option Json → Json → Option ServerMessage
message_of id (some (text t)) none (some (time e)) level =
    some (command id t (fields JsonFields.end) e level)
message_of id (some (text t)) (some (fields fs)) (some (time e)) level =
    some (command id t (fields fs) e level)
message_of id command_type parameters expires_at level = none

abbrev pub or_low : Option Json → Json
or_low none = text "low"
or_low (some v) = v

unfoldable pub request_message : ℕ → JsonFields → Option ServerMessage
unfolding last_field
request_message id fs =
    message_of id (last_field "command_type" none fs) (last_field "parameters" none fs)
      (last_field "expires_at" none fs) (or_low (last_field "risk_level" none fs))

abbrev pub delivered_payload : ℕ → ℕ → Dict
delivered_payload id device_id = ("command_id", uuid id) ∷ ("device_id", uuid device_id) ∷ []

-- A sent command is announced, and only then the message is acknowledged.
announce : Outside → ℕ → ℕ → Gateway → Gateway
announce out id device_id g =
    if out.publishes g.log
    then note ack (note (publish_js (command_delivered id) (delivered_payload id device_id)) g)
    else note (nak 0) g

send_request : Outside → DeviceConnection → ℕ → Option ServerMessage → Gateway → Gateway
unfolding announce send_json
send_request out conn id none g = note (nak 0) g
send_request out conn id (some m) g =
    let (sent, after) = send_json out conn m g in
    if sent then announce out id conn.device_id after else note (nak 2) after

check_and_send : Outside → DeviceConnection → Json → JsonFields → Gateway → Gateway
unfolding pre_delivery_check send_request request_message
check_and_send out conn (uuid id) fs g =
    if not (pre_delivery_check out.environment.now id conn.device_id g.world.database)
    then note ack g
    else send_request out conn id (request_message id fs) g
check_and_send out conn v fs g = note (nak 0) g

with_command_id : Outside → DeviceConnection → Option Json → JsonFields → Gateway → Gateway
unfolding ask_stop check_and_send
with_command_id out conn none fs g = note (nak 0) g
with_command_id out conn (some v) fs g =
    let (stopped, asked) = ask_stop out conn.owner_id g in
    if stopped then note (nak 0) asked else check_and_send out conn v fs asked

-- The body of the loop over the fetched messages; an exception ends in `nak`.
unfoldable pub deliver_message : Outside → DeviceConnection → Loaded → Gateway → Gateway
unfolding with_command_id last_field
deliver_message out conn (json (fields fs)) g =
    with_command_id out conn (last_field "command_id" none fs) fs g
deliver_message out conn content g = note (nak 0) g
