-- ===== src/Gateway/Authentication.antt =====
-- app/websocket/protocol/challenge.py, and the part of `websocket_endpoint` up to the registration of
-- the connection.
pub mod Frame
pub mod Soundness
pub mod Challenge
use veyaan_core_backend.Prelude.{
  ℕ, String, Bool, true, false, not, ◌&&◌, ◌||◌, Option, none, some, List, [], ◌∷◌, if◌then◌else◌,
  str_eq,
}
use veyaan_core_backend.Python.{Json, null, text, uuid, time, fields, JsonFields}
use veyaan_core_backend.Database.{Database, Environment}
use veyaan_core_backend.Device.Model.{Device, is_trusted}
use veyaan_core_backend.Device.Repository.{find_device}
use veyaan_core_backend.Gateway.Messages.{
  ServerMessage, welcome, auth_challenge, error, Loaded, json, bad_json, bad_utf8, is_supported,
  last_field, or_null,
}
use veyaan_core_backend.Gateway.Connections.{
  DeviceConnection, Outside, Gateway, note, send, close, set_challenge, getdel_challenge, ask_stop,
  register,
}

-- The random nonce is an argument.
unfoldable pub generate_challenge : String → Gateway → Gateway
generate_challenge nonce g = note (set_challenge nonce) g

-- GETDEL: whether the nonce was there, before it is deleted.
unfoldable pub consume_challenge : Outside → String → Gateway → Bool × Gateway
consume_challenge out nonce g = (out.holds_challenge g.log nonce, note (getdel_challenge nonce) g)

-- What a device answers to the challenge, or how it fails to.
pub data Answer : Type 0 where
  frame : Loaded → Answer
  empty_frame : Answer
  timeout : Answer
  broken : Answer

-- One connection attempt: its id, the time and nonce that the server sends, and what the device
-- sends. The version and the app version of the URL are the defaults.
pub record Attempt : Type 0 where
  pub connection_id : ℕ
  pub server_time : Json
  pub nonce : String
  pub protocol_version : String
  pub app_version : String
  pub answer : Answer

-- `auth_data.get(key, default)`
abbrev pub or_default : Json → Option Json → Json
or_default default none = default
or_default default (some v) = v

unfoldable pub verify_device_challenge_response :
    Outside → ℕ → ℕ → String → Json → Json → String → Json → Json → Gateway → Bool × Gateway
unfolding consume_challenge
verify_device_challenge_response out device_id connection_id nonce server_time signature public_key
      protocol_version app_version g =
    let (held, consumed) = consume_challenge out nonce g in
    (
      held
          && out.verifies public_key device_id connection_id nonce server_time signature
              protocol_version app_version,
      consumed,
    )

-- The error message, if there is one, and the close with 4001.
abbrev pub refuse : ℕ → Gateway → Gateway
refuse connection_id g =
    note (close connection_id 4001) (note (send connection_id (error "AUTH_FAILED")) g)

abbrev pub is_revoked : Option ℕ → Bool
is_revoked none = false
is_revoked (some t) = true

-- `not device or device.trust_status != TRUSTED or device.revoked_at`
abbrev pub is_unauthorized : Option Device → Bool
is_unauthorized none = true
is_unauthorized (some d) = not (is_trusted d.trust_status) || is_revoked d.revoked_at

abbrev pub new_connection : Outside → Attempt → JsonFields → ℕ → Device → DeviceConnection
new_connection out a fs device_id d = record {
  device_id = device_id;
  owner_id = d.owner_id;
  connection_id = a.connection_id;
  last_heartbeat = out.environment.now;
  protocol_version = or_default (text a.protocol_version) (last_field "protocol_version" none fs);
  app_version = or_default (text a.app_version) (last_field "app_version" none fs);
  violations = 0;
}

-- Steps 6 and 7: the state of the stop, the welcome, and the registration.
welcome_device : Outside → DeviceConnection → Gateway → Gateway
unfolding ask_stop register
welcome_device out conn g =
    let (stopped, asked) = ask_stop out conn.owner_id g in
    register conn (note (send conn.connection_id (welcome conn.connection_id stopped)) asked)

-- Step 5, on a device that was found.
verify_device : Outside → Attempt → JsonFields → ℕ → Device → Gateway → Gateway
unfolding verify_device_challenge_response welcome_device last_field
verify_device out a fs device_id d g =
    let conn = new_connection out a fs device_id d in
    let (good, verified) =
      verify_device_challenge_response out device_id a.connection_id a.nonce
        (or_default a.server_time (last_field "server_time" none fs))
        (or_default (text "") (last_field "signature" none fs)) d.device_public_identity
        conn.protocol_version conn.app_version g in
    if not good then refuse a.connection_id verified else welcome_device out conn verified

-- Step 4.
find_and_verify : Outside → Attempt → JsonFields → ℕ → Option Device → Gateway → Gateway
unfolding verify_device
find_and_verify out a fs device_id none g = refuse a.connection_id g
find_and_verify out a fs device_id (some d) g =
    if is_unauthorized (some d)
    then refuse a.connection_id g
    else verify_device out a fs device_id d g

-- `UUID(None)` raises a `TypeError`, which nothing handles; other values are refused.
with_device_id : Outside → Attempt → JsonFields → Json → Gateway → Gateway
unfolding find_and_verify find_device
with_device_id out a fs (uuid device_id) g =
    find_and_verify out a fs device_id (find_device device_id g.world.database) g
with_device_id out a fs null g = g
with_device_id out a fs v g = refuse a.connection_id g

abbrev pub is_auth_response : Json → Bool
is_auth_response (text t) = str_eq t "auth_response"
is_auth_response v = false

-- Step 3. What is no `dict` has no `get`: the exception ends the endpoint.
on_answer : Outside → Attempt → Answer → Gateway → Gateway
unfolding with_device_id last_field
on_answer out a (frame (json (fields fs))) g =
    if not (is_auth_response (or_null (last_field "type" none fs)))
    then refuse a.connection_id g
    else with_device_id out a fs (or_default (text "") (last_field "device_id" none fs)) g
on_answer out a (frame (json v)) g = g
on_answer out a (frame bad_json) g =
    note (close a.connection_id 4001) (note (send a.connection_id (error "INVALID_JSON")) g)
on_answer out a (frame bad_utf8) g =
    note (close a.connection_id 4001) (note (send a.connection_id (error "INVALID_JSON")) g)
on_answer out a empty_frame g = note (close a.connection_id 4001) g
on_answer out a timeout g =
    note (close a.connection_id 4001) (note (send a.connection_id (error "AUTH_TIMEOUT")) g)
on_answer out a broken g = note (close a.connection_id 4001) g

unfoldable pub authenticate : Outside → Attempt → Gateway → Gateway
unfolding on_answer generate_challenge is_supported
authenticate out a g =
    if not (is_supported a.protocol_version)
    then note (close a.connection_id 4003) g
    else on_answer out a a.answer (
        note (send a.connection_id (auth_challenge a.nonce a.connection_id))
          (generate_challenge a.nonce g))
