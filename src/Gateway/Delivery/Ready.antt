-- ===== src/Gateway/Delivery/Ready.antt =====
-- Which messages the gateway sends to a device for one message of the stream of ready commands.
use veyaan_core_backend.Prelude.{
  ℕ, Bool, true, false, not, ◌==◌, Option, none, some, List, [], ◌∷◌, ◌++◌, ◌≡◌, refl, sym, ◌∙◌, ap,
  arith, ◌⊎◌, inl, inr, if-any,
}
use veyaan_core_backend.Python.{Json, uuid, fields, JsonFields}
use veyaan_core_backend.Command.Model.{Command, queued, same}
use veyaan_core_backend.Command.StateMachine.{find_command}
use veyaan_core_backend.Gateway.Messages.{ServerMessage, Loaded, json, last_field}
use veyaan_core_backend.Gateway.Connections.{
  DeviceConnection, Request, Outside, Gateway, note, send, ask_stop, send_json, ack, nak,
}
use veyaan_core_backend.Gateway.Connections.Laws.{database-ask_stop}
use veyaan_core_backend.Gateway.Connections.Sent.{messages, messages-append, messages-other}
use veyaan_core_backend.Gateway.Delivery.{
  is_late, row_is_ready, pre_delivery_check, request_message, announce, send_request,
  check_and_send, with_command_id, deliver_message,
}

-- A ready command of the device, that the payload names and makes a request of.
pub record Ready (out : Outside) (conn : DeviceConnection) (content : Loaded) (g : Gateway)
    (m : ServerMessage) : Type 0 where
  pub fs : JsonFields
  pub id : ℕ
  pub command : Command
  pub content_is : content ≡ json (fields fs)
  pub named : last_field "command_id" none fs ≡ some (uuid id)
  pub request : request_message id fs ≡ some m
  pub found : find_command id g.world.database ≡ some command
  pub own : (command.device_id == conn.device_id) ≡ true
  pub waiting : same command.state queued ≡ true
  pub timely : is_late out.environment.now command.expires_at ≡ false
  pub running : (ask_stop out conn.owner_id g).0 ≡ false

-- Nothing is sent, or one message on the connection, of which a property holds.
abbrev pub Sends : ℕ → (ServerMessage → Type 0) → List Request → List Request → Type 0
Sends c P before after =
    (messages after ≡ messages before)
    ⊎ ((m : ServerMessage) × P m × (messages after ≡ messages before ++ (c, m) ∷ []))

not-true : (b : Bool) → not b ≡ false → b ≡ true
not-true b h = ground arith

row-inv :
    (now d : ℕ) (o : Option Command)
    → row_is_ready now d o ≡ true
    → (c : Command) × (o ≡ some c)
      × ((c.device_id == d) ≡ true)
      × (same c.state queued ≡ true)
      × (is_late now c.expires_at ≡ false)
row-inv now d none h = ground arith
row-inv now d (some c) h = (c, refl, ground arith, ground arith, ground arith)

nak_lem :
    (c n : ℕ) (P : ServerMessage → Type 0) (g : Gateway) → Sends c P g.log (note (nak n) g).log
nak_lem c n P g = inl (messages-other g.log (nak n) refl)

announce-messages :
    (out : Outside) (id d : ℕ) (g : Gateway) → messages (announce out id d g).log ≡ messages g.log
unfolding announce
announce-messages out id d g =
    if-any (λ (k : Gateway). messages k.log ≡ messages g.log) (out.publishes g.log) _ _
      (λ h. messages-other _ ack refl ∙ messages-other g.log _ refl)
      (λ h. messages-other g.log (nak 0) refl)

send_request-Sends :
    (out : Outside) (conn : DeviceConnection) (id : ℕ) (o : Option ServerMessage)
    (P : ServerMessage → Type 0) (g : Gateway)
    → ((m : ServerMessage) → o ≡ some m → P m)
    → Sends conn.connection_id P g.log (send_request out conn id o g).log
unfolding send_request send_json
send_request-Sends out conn id none P g h = nak_lem conn.connection_id 0 P g
send_request-Sends out conn id (some m) P g h =
    let sent = messages-append g.log (send conn.connection_id m) in
    inr (
      m,
      h m refl,
      if-any (λ (k : Gateway). messages k.log ≡ messages g.log ++ (conn.connection_id, m) ∷ [])
          (out.sends g.log conn.connection_id) _ _
          (λ e. announce-messages out id conn.device_id _ ∙ sent)
          (λ e. messages-other _ (nak 2) refl ∙ sent),
    )

module _ (out : Outside) (conn : DeviceConnection) (fs : JsonFields) (g : Gateway) where
  check_and_send-Sends :
      (v : Json) (asked : Gateway)
      → last_field "command_id" none fs ≡ some v
      → (ask_stop out conn.owner_id g).0 ≡ false
      → asked.world.database ≡ g.world.database
      → Sends conn.connection_id
          (Ready out conn (json (fields fs)) g)
          asked.log
          (check_and_send out conn v fs asked).log
  unfolding check_and_send pre_delivery_check
  check_and_send-Sends (uuid id) asked named running same_db =
      if-any
        (λ (k : Gateway).
          Sends conn.connection_id (Ready out conn (json (fields fs)) g) asked.log k.log)
        (not (pre_delivery_check out.environment.now id conn.device_id asked.world.database)) _ _
        (λ e. inl (messages-other asked.log ack refl))
        (λ e.
          let (c, found, own, waiting, timely) =
            row-inv out.environment.now conn.device_id (find_command id asked.world.database)
              (not-true _ e) in
          send_request-Sends out conn id (request_message id fs)
            (Ready out conn (json (fields fs)) g) asked
            (λ m h. record {
              fs = fs;
              id = id;
              command = c;
              content_is = refl;
              named = named;
              request = h;
              found = ap (find_command id) (sym same_db) ∙ found;
              own = own;
              waiting = waiting;
              timely = timely;
              running = running;
            }))
  check_and_send-Sends v asked named running same_db = nak_lem conn.connection_id 0 _ asked

  with_command_id-Sends :
      (o : Option Json)
      → last_field "command_id" none fs ≡ o
      → Sends conn.connection_id
          (Ready out conn (json (fields fs)) g)
          g.log
          (with_command_id out conn o fs g).log
  unfolding with_command_id
  with_command_id-Sends none named = nak_lem conn.connection_id 0 _ g
  with_command_id-Sends (some v) named =
      if-any
        (λ (k : Gateway).
          Sends conn.connection_id (Ready out conn (json (fields fs)) g) g.log k.log)
        (ask_stop out conn.owner_id g).0 _ _ (λ e. inl (messages-other g.log (nak 0) refl))
        (λ e.
          check_and_send-Sends v (ask_stop out conn.owner_id g).1 named e
            (database-ask_stop out conn.owner_id g))

-- For one message of the stream, the gateway sends nothing, or it sends on the connection the one
-- request that the payload makes: of a command which the payload names, which is in the database,
-- queued, of this device and not late, while `is_active` answers that the owner is not stopped.
pub deliver_message-Ready :
    (out : Outside) (conn : DeviceConnection) (content : Loaded) (g : Gateway)
    → Sends conn.connection_id
        (Ready out conn content g)
        g.log
        (deliver_message out conn content g).log
unfolding deliver_message
deliver_message-Ready out conn (json (fields fs)) g =
    with_command_id-Sends out conn fs g (last_field "command_id" none fs) refl
deliver_message-Ready out conn content g = nak_lem conn.connection_id 0 _ g
