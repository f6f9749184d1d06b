-- ===== src/Gateway/Endpoint.antt =====
-- app/websocket/gateway.py: `websocket_endpoint` from the registration on. The loop over the frames and
-- the listener of the commands take turns; each handles one of its inputs to the end.
use veyaan_core_backend.Prelude.{
  ℕ, true, ◌==◌, Option, none, some, List, [], ◌∷◌, ◌≡◌, ◌≢◌, arith, if◌then◌else◌, ==_refl,
}
use veyaan_core_backend.Gateway.Messages.{Frame, Loaded, is_too_large}
use veyaan_core_backend.Gateway.Connections.{
  DeviceConnection, Outside, Gateway, note, close, get, is_same, unregister,
}
use veyaan_core_backend.Gateway.Connections.Laws.{get-unregister}
use veyaan_core_backend.Gateway.Delivery.{deliver_message}
use veyaan_core_backend.Gateway.Handler.{handle_device_message}

-- What comes in: a frame of the device, a message of the stream of ready commands, and the end, by a
-- disconnection or an exception.
pub data Incoming : Type 0 where
  frame : Frame → Incoming
  ready : Loaded → Incoming
  ended : Incoming

-- A frame that is too large ends the loop before it is read.
unfoldable pub receive : Outside → DeviceConnection → List Incoming → Gateway → Gateway
unfolding handle_device_message deliver_message
receive out conn [] g = g
receive out conn (frame f ∷ rest) g =
    let handled = receive out conn rest (handle_device_message out conn.device_id f g) in
    if is_too_large f then note (close conn.connection_id 1009) g else handled
receive out conn (ready content ∷ rest) g =
    receive out conn rest (deliver_message out conn content g)
receive out conn (ended ∷ rest) g = g

-- With its `finally`, which runs on every way out.
unfoldable pub serve : Outside → DeviceConnection → List Incoming → Gateway → Gateway
unfolding receive unregister
serve out conn incoming g =
    unregister out conn.device_id conn.connection_id (receive out conn incoming g)

gone :
    (o : Option DeviceConnection) (connection_id : ℕ) (c : DeviceConnection)
    → (if is_same connection_id o then none else o) ≡ some c
    → c.connection_id ≢ connection_id
gone none connection_id c h e = ground arith
gone (some b) connection_id c h e = ground arith

-- Whatever comes in while a connection is served, once its endpoint has ended the device has no
-- connection or another one: never the one that has ended.
pub get-serve :
    (out : Outside) (conn c : DeviceConnection) (incoming : List Incoming) (g : Gateway)
    → get conn.device_id (serve out conn incoming g) ≡ some c
    → c.connection_id ≢ conn.connection_id
unfolding serve
get-serve out conn c incoming g h =
    let before = receive out conn incoming g in
    let o = get conn.device_id before in
    let law = get-unregister out conn.device_id conn.device_id conn.connection_id before in
    let same : (conn.device_id == conn.device_id) ≡ true = ==_refl conn.device_id in
    gone o conn.connection_id c (ground (arith, law, same, h))
