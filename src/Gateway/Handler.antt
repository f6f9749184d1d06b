-- ===== src/Gateway/Handler.antt =====
-- app/websocket/gateway.py: the messages of a connected device, and the events on security and on
-- the life of a device.
pub mod Events
pub mod Ownership
pub mod Violations
use veyaan_core_backend.Prelude.{
  ℕ, String, Bool, true, false, not, ◌==◌, ◌+◌, leb, Option, none, some, List, [], ◌∷◌,
  if◌then◌else◌, find?, update, str_eq,
}
use veyaan_core_backend.Python.{
  Json, null, flag, num, text, uuid, time, fields, JsonFields, Dict, of_optional,
}
use veyaan_core_backend.Database.{Database, Environment}
use veyaan_core_backend.Command.Model.{Command}
use veyaan_core_backend.Command.StateMachine.{find_command}
use veyaan_core_backend.Outbox.Model.{
  Subject, command_acknowledged, command_progress, command_result, device_lifecycle,
}
use veyaan_core_backend.Gateway.Messages.{
  ClientMessage, hello, heartbeat, acknowledge, progress, result, status_update, Frame, Parsed,
  message, protocol_error, exception, parse_client_message, Loaded, json, last_field, or_null,
}
use veyaan_core_backend.Gateway.Connections.{
  DeviceConnection, Outside, Gateway, note, get, close, publish, set_presence,
  broadcast_emergency_stop, close_device_connection,
}

abbrev pub row_belongs : ℕ → Option Command → Bool
row_belongs device_id none = false
row_belongs device_id (some c) = c.device_id == device_id

unfoldable pub command_belongs_to_device : ℕ → ℕ → Database → Bool
command_belongs_to_device command_id device_id db =
    row_belongs device_id (find_command command_id db)

unfoldable pub change : ℕ → (DeviceConnection → DeviceConnection) → Gateway → Gateway
change device_id f g = record g {
  active_connections = update (λ c. c.device_id == device_id) f g.active_connections;
}

unfoldable pub beat : Outside → ℕ → String → ℕ → Gateway → Gateway
unfolding change
beat out device_id state count g =
    note (set_presence device_id state count)
      (change device_id (λ c. record c { last_heartbeat = out.environment.now }) g)

-- A report on a command that is not the device's is dropped.
unfoldable pub report : ℕ → ℕ → Subject → Dict → Gateway → Gateway
unfolding command_belongs_to_device
report device_id command_id subject payload g =
    if not (command_belongs_to_device command_id device_id g.world.database)
    then g
    else note (publish subject payload) g

abbrev pub of_optional_number : Option ℕ → Json
of_optional_number none = null
of_optional_number (some n) = num n

abbrev pub head : ℕ → ℕ → Dict → Dict
head command_id device_id rest =
    ("command_id", uuid command_id) ∷ ("device_id", uuid device_id) ∷ rest

unfoldable pub on_message : Outside → ℕ → ClientMessage → Gateway → Gateway
unfolding beat report
on_message out device_id (heartbeat state count) g = beat out device_id state count g
on_message out device_id (acknowledge id accepted reason) g =
    report device_id id (command_acknowledged id)
      (head id device_id
        (("accepted", flag accepted) ∷ ("rejection_reason", of_optional reason) ∷ []))
      g
on_message out device_id (progress id percent stage) g =
    report device_id id (command_progress id)
      (head id device_id
        (("progress_percent", of_optional_number percent) ∷ ("stage", of_optional stage) ∷ []))
      g
on_message out device_id (result id success v code reason started finished) g =
    report device_id id (command_result id)
      (head id device_id (
        ("success", flag success)
        ∷ ("result_data", v)
        ∷ ("error_code", of_optional code)
        ∷ ("error_message", of_optional reason)
        ∷ ("started_at", time started)
        ∷ ("finished_at", time finished)
        ∷ []))
      g
on_message out device_id (status_update state) g =
    note
      (publish (device_lifecycle device_id)
        (("device_id", uuid device_id) ∷ ("state", Json.text state) ∷ []))
      g
on_message out device_id (hello _ _ _) g = g

abbrev pub max_violations : ℕ
max_violations = 5

abbrev pub violate_found : ℕ → Option DeviceConnection → Gateway → Gateway
violate_found device_id none g = g
violate_found device_id (some conn) g =
    if leb max_violations conn.violations then note (close conn.connection_id 4005) g else g

-- The counter is on the connection of the device, whichever it is by then.
unfoldable pub violate : ℕ → Gateway → Gateway
unfolding change get
violate device_id g =
    let counted = change device_id (λ c. record c { violations = c.violations + 1 }) g in
    violate_found device_id (get device_id counted) counted

abbrev pub on_parsed : Outside → ℕ → Parsed → Gateway → Gateway
on_parsed out device_id (message m) g = on_message out device_id m g
on_parsed out device_id (protocol_error code) g = violate device_id g
on_parsed out device_id exception g = g

unfoldable pub handle_device_message : Outside → ℕ → Frame → Gateway → Gateway
unfolding on_message violate parse_client_message
handle_device_message out device_id frame g =
    on_parsed out device_id (parse_client_message out.schemas frame) g

abbrev or_empty : Option Json → Json
or_empty none = Json.text ""
or_empty (some v) = v

-- An event of `veyaan.security.>`: the action and the owner that its subject names.
unfoldable pub security_callback : Outside → String → ℕ → Loaded → Gateway → Gateway
unfolding broadcast_emergency_stop last_field
security_callback out action owner_id (json (fields fs)) g =
    broadcast_emergency_stop out owner_id (str_eq action "emergency_stop")
      (or_empty (last_field "reason" none fs)) g
security_callback out action owner_id content g = g

abbrev on_state : Outside → Json → Json → Gateway → Gateway
on_state out (Json.text state) (uuid device_id) g =
    if str_eq state "revoked" then close_device_connection out device_id g else g
on_state out state device_id g = g

-- An event of `veyaan.device.lifecycle.>`.
unfoldable pub device_lifecycle_callback : Outside → Loaded → Gateway → Gateway
unfolding close_device_connection last_field
device_lifecycle_callback out (json (fields fs)) g =
    on_state out (or_null (last_field "state" none fs)) (or_null (last_field "device_id" none fs)) g
device_lifecycle_callback out content g = g
