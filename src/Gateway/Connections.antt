-- ===== src/Gateway/Connections.antt =====
-- app/websocket/gateway.py: DeviceConnection and ConnectionManager. A request to a WebSocket, to
-- Valkey or to NATS is an entry of the log; what those answer is in `Outside`, and may depend on the
-- requests before.
pub mod Sent
pub mod Laws
pub mod Races
use veyaan_core_backend.Prelude.{
  ℕ, String, Bool, true, false, not, ◌==◌, ◌+◌, Option, none, some, List, [], ◌∷◌, ◌++◌,
  if◌then◌else◌, find?, select,
}
use veyaan_core_backend.Python.{Json, text, Dict, Result, ok, err}
use veyaan_core_backend.Database.{Database, Environment, World}
use veyaan_core_backend.Database.Session.{with_session}
use veyaan_core_backend.Device.Model.{Device}
use veyaan_core_backend.Device.Repository.{devices_by_owner}
use veyaan_core_backend.EmergencyStop.Service.{is_active}
use veyaan_core_backend.Outbox.Model.{Subject}
use veyaan_core_backend.Gateway.Messages.{
  ServerMessage, command, emergency_stop, resume, Loaded, Schemas,
}

pub record DeviceConnection : Type 0 where
  pub device_id : ℕ
  pub owner_id : ℕ
  pub connection_id : ℕ
  pub last_heartbeat : ℕ
  pub protocol_version : Json
  pub app_version : Json
  pub violations : ℕ

-- `send` and `close` name the connection. The hashes `device:connection:<device>` and
-- `device:presence:<device>` and the key `ws:challenge:<nonce>` are named by the device or nonce.
pub data Request : Type 0 where
  send : ℕ → ServerMessage → Request
  close : ℕ → ℕ → Request
  set_connection : ℕ → ℕ → Request
  delete_connection : ℕ → Request
  set_presence : ℕ → String → ℕ → Request
  delete_presence : ℕ → Request
  set_challenge : String → Request
  getdel_challenge : String → Request
  publish : Subject → Dict → Request
  publish_js : Subject → Dict → Request
  ack : Request
  nak : ℕ → Request

-- What the gateway finds outside: the services' environment, whether a send on a connection
-- succeeds, the connection id in the hash of a device, whether a nonce was there to be deleted,
-- whether a publish succeeds, and the libraries' verdicts on frames and signatures. A signature is
-- checked with a key, over the device, the connection, the nonce, the time and the two versions (the
-- arguments are the key, the device, the connection, the nonce, the time, the signature and the
-- versions).
pub record Outside : Type 0 where
  pub environment : Environment
  pub sends : List Request → ℕ → Bool
  pub connection_of : List Request → ℕ → Option ℕ
  pub holds_challenge : List Request → String → Bool
  pub publishes : List Request → Bool
  pub schemas : Schemas
  pub verifies : String → ℕ → ℕ → String → Json → Json → Json → Json → Bool

pub record Gateway : Type 0 where
  pub world : World
  pub active_connections : List DeviceConnection
  pub log : List Request

abbrev pub note : Request → Gateway → Gateway
note r g = record g { log = g.log ++ r ∷ [] }

-- `self.active_connections.get(device_id)`: a `dict` keyed by the device of each connection.
unfoldable pub get : ℕ → Gateway → Option DeviceConnection
get device_id g = find? (λ c. c.device_id == device_id) g.active_connections

unfoldable pub is_connected : ℕ → Gateway → Bool
unfolding get
is_connected device_id g = elim (get device_id g) [ none ↦ false | some c ↦ true ]

-- `d[k] = v` keeps the place of a key that is there.
unfoldable pub put : DeviceConnection → List DeviceConnection → List DeviceConnection
put conn [] = conn ∷ []
put conn (c ∷ cs) =
    let rest = put conn cs in if c.device_id == conn.device_id then conn ∷ cs else c ∷ rest

-- `del d[k]`
unfoldable pub remove : ℕ → List DeviceConnection → List DeviceConnection
unfolding select
remove device_id cs = select (λ c. not (c.device_id == device_id)) cs

abbrev pub close_old : Option DeviceConnection → Gateway → Gateway
close_old none g = g
close_old (some old) g = note (close old.connection_id 4000) g

unfoldable pub register : DeviceConnection → Gateway → Gateway
unfolding put get
register conn g =
    let closed = close_old (get conn.device_id g) g in
    note (set_connection conn.device_id conn.connection_id)
      (record closed { active_connections = put conn closed.active_connections })

-- `valkey_conn.get("connection_id") == str(connection_id)`
abbrev pub is_own : ℕ → Option ℕ → Bool
is_own connection_id none = false
is_own connection_id (some c) = c == connection_id

abbrev pub is_same : ℕ → Option DeviceConnection → Bool
is_same connection_id none = false
is_same connection_id (some c) = c.connection_id == connection_id

abbrev pub forget_presence : Bool → ℕ → Gateway → Gateway
forget_presence true device_id g =
    note (delete_presence device_id) (note (delete_connection device_id) g)
forget_presence false device_id g = g

unfoldable pub unregister : Outside → ℕ → ℕ → Gateway → Gateway
unfolding remove get
unregister out device_id connection_id g =
    let own = is_own connection_id (out.connection_of g.log device_id) in
    let forgot = forget_presence own device_id g in
    if is_same connection_id (get device_id forgot)
    then record forgot { active_connections = remove device_id forgot.active_connections }
    else forgot

-- `conn.send_json`: the attempt, and whether it went through.
unfoldable pub send_json : Outside → DeviceConnection → ServerMessage → Gateway → Bool × Gateway
send_json out conn m g = (out.sends g.log conn.connection_id, note (send conn.connection_id m) g)

-- The answer of `is_active`, which raises nothing.
abbrev pub is_stopped : Result Bool → Bool
is_stopped (ok b) = b
is_stopped (err e) = true

-- `EmergencyStopService().is_active(owner_id)`, in sessions of its own.
unfoldable pub ask_stop : Outside → ℕ → Gateway → Bool × Gateway
unfolding is_active
ask_stop out owner_id g =
    let (answer, w) = with_session (is_active out.environment owner_id) g.world in
    (is_stopped answer, record g { world = w })

abbrev pub send_to : Outside → Option DeviceConnection → ServerMessage → Gateway → Bool × Gateway
send_to out none m g = (false, g)
send_to out (some conn) m g = send_json out conn m g

unfoldable pub send_command : Outside → ℕ → ℕ → ServerMessage → Gateway → Bool × Gateway
unfolding ask_stop get send_json
send_command out device_id owner_id m g =
    let (stopped, asked) = ask_stop out owner_id g in
    if stopped then (false, asked) else send_to out (get device_id asked) m asked

abbrev close_found : Outside → ℕ → Option DeviceConnection → Gateway → Gateway
close_found out device_id none g = g
close_found out device_id (some conn) g =
    unregister out device_id conn.connection_id (note (close conn.connection_id 4002) g)

-- Used when a device is revoked.
unfoldable pub close_device_connection : Outside → ℕ → Gateway → Gateway
unfolding get
close_device_connection out device_id g = close_found out device_id (get device_id g) g

-- The model wants a text as the reason; `none` is what it raises otherwise.
abbrev pub stop_message : Bool → Json → Option ServerMessage
stop_message true (text reason) = some (emergency_stop reason)
stop_message true reason = none
stop_message false reason = some resume

unfoldable pub broadcast : Outside → ServerMessage → List Device → Gateway → Gateway
unfolding get send_json
broadcast out m [] g = g
broadcast out m (d ∷ ds) g = broadcast out m ds (send_to out (get d.id g) m g).1

-- With no message, the first connected device ends the loop, before anything was sent.
abbrev broadcast_message : Outside → List Device → Option ServerMessage → Gateway → Gateway
broadcast_message out devices none g = g
broadcast_message out devices (some m) g = broadcast out m devices g

unfoldable pub broadcast_emergency_stop : Outside → ℕ → Bool → Json → Gateway → Gateway
unfolding broadcast devices_by_owner
broadcast_emergency_stop out owner_id active reason g =
    broadcast_message out (devices_by_owner owner_id g.world.database) (stop_message active reason)
      g
