-- ===== src/Gateway/Handler/Events.antt =====
-- The events that the services publish, at the gateway: a stop of an owner and a revocation.
use mathlib.Core.List.{append-nil, append_assoc}
use veyaan_core_backend.Prelude.{
  ℕ, String, ◌==◌, Option, none, some, List, [], ◌∷◌, ◌++◌, ◌≡◌, refl, sym, ◌∙◌, ap, if◌then◌else◌,
  find?,
}
use veyaan_core_backend.Python.{fields, to_fields}
use veyaan_core_backend.Database.{Environment}
use veyaan_core_backend.Device.Model.{Device}
use veyaan_core_backend.Device.Repository.{devices_by_owner}
use veyaan_core_backend.Device.Service.{revoked_payload}
use veyaan_core_backend.EmergencyStop.Service.{activation_payload}
use veyaan_core_backend.Gateway.Messages.{ServerMessage, emergency_stop, json, last_field}
use veyaan_core_backend.Gateway.Connections.{
  DeviceConnection, Outside, Gateway, send, get, send_json, send_to, broadcast,
  broadcast_emergency_stop,
}
use veyaan_core_backend.Gateway.Connections.Laws.{
  get-close_device_connection, world-close_device_connection,
}
use veyaan_core_backend.Gateway.Connections.Sent.{messages, messages-append}
use veyaan_core_backend.Gateway.Handler.{security_callback, device_lifecycle_callback}

-- At the event that `revoke` publishes, the device loses its connection, whichever it is, and every
-- other device keeps the one it has.
pub get-device_lifecycle_callback :
    (out : Outside) (d e owner_id : ℕ) (g : Gateway)
    → get d
        (device_lifecycle_callback out (json (fields (to_fields (revoked_payload e owner_id)))) g)
      ≡ (if d == e then none else get d g)
unfolding device_lifecycle_callback last_field
get-device_lifecycle_callback out d e owner_id g = get-close_device_connection out d e g

pub world-device_lifecycle_callback :
    (out : Outside) (e owner_id : ℕ) (g : Gateway)
    → (device_lifecycle_callback out
        (json (fields (to_fields (revoked_payload e owner_id))))
        g).world
      ≡ g.world
unfolding device_lifecycle_callback last_field
world-device_lifecycle_callback out e owner_id g = world-close_device_connection out e g

-- A message for the connection of each device of a list that has one.
abbrev to_connected : Option DeviceConnection → ServerMessage → List (ℕ × ServerMessage)
to_connected none m = []
to_connected (some c) m = (c.connection_id, m) ∷ []

unfoldable pub to_all : ServerMessage → List Device → Gateway → List (ℕ × ServerMessage)
unfolding get
to_all m [] g = []
to_all m (d ∷ ds) g = to_connected (get d.id g) m ++ to_all m ds g

active-send_to :
    (out : Outside) (o : Option DeviceConnection) (m : ServerMessage) (g : Gateway)
    → (send_to out o m g).1.active_connections ≡ g.active_connections
unfolding send_json
active-send_to out none m g = refl
active-send_to out (some c) m g = refl

messages-send_to :
    (out : Outside) (o : Option DeviceConnection) (m : ServerMessage) (g : Gateway)
    → messages (send_to out o m g).1.log ≡ messages g.log ++ to_connected o m
unfolding send_json
messages-send_to out none m g = sym (append-nil (messages g.log))
messages-send_to out (some c) m g = messages-append g.log (send c.connection_id m)

to_all-same :
    (m : ServerMessage) (ds : List Device) (g h : Gateway)
    → g.active_connections ≡ h.active_connections
    → to_all m ds g ≡ to_all m ds h
unfolding to_all get
to_all-same m [] g h e = refl
to_all-same m (d ∷ ds) g h e =
    ap (λ cs. to_connected (find? (λ c. c.device_id == d.id) cs) m ++ to_all m ds g) e
    ∙ ap (λ t. to_connected (get d.id h) m ++ t) (to_all-same m ds g h e)

messages-broadcast :
    (out : Outside) (m : ServerMessage) (ds : List Device) (g : Gateway)
    → messages (broadcast out m ds g).log ≡ messages g.log ++ to_all m ds g
unfolding broadcast to_all
messages-broadcast out m [] g = sym (append-nil (messages g.log))
messages-broadcast out m (d ∷ ds) g =
    let o = get d.id g in
    let after = (send_to out o m g).1 in
    messages-broadcast out m ds after
    ∙ ap (λ t. messages after.log ++ t) (to_all-same m ds after g (active-send_to out o m g))
    ∙ ap (λ t. t ++ to_all m ds g) (messages-send_to out o m g)
    ∙ append_assoc (messages g.log) (to_connected o m) (to_all m ds g)

-- At the event that `activate` publishes, with a reason, the gateway sends an emergency stop with that
-- reason once on the connection of each device of the owner that has one, and nothing else.
pub messages-security_callback :
    (out : Outside) (env : Environment) (owner_id : ℕ) (reason : String) (g : Gateway)
    → messages
        (security_callback out "emergency_stop" owner_id
          (json (fields (to_fields (activation_payload env owner_id (some reason)))))
          g).log
      ≡ messages g.log
        ++ to_all (emergency_stop reason) (devices_by_owner owner_id g.world.database) g
unfolding security_callback broadcast_emergency_stop last_field
messages-security_callback out env owner_id reason g =
    messages-broadcast out (emergency_stop reason) (devices_by_owner owner_id g.world.database) g
