-- ===== src/Gateway/Authentication/Soundness.antt =====
-- Who gets a connection.
use veyaan_core_backend.Prelude.{
  ℕ, true, false, not, ◌&&◌, &&-left, &&-right, Option, none, some, List, ◌≡◌, refl, arith, ◌⊎◌,
  inl, inr, if-any,
}
use veyaan_core_backend.Python.{Json, null, text, uuid, fields, JsonFields}
use veyaan_core_backend.Database.{Database}
use veyaan_core_backend.Device.Model.{Device, is_trusted}
use veyaan_core_backend.Device.Repository.{find_device}
use veyaan_core_backend.Gateway.Messages.{
  json, bad_json, bad_utf8, auth_challenge, is_supported, last_field, or_null,
}
use veyaan_core_backend.Gateway.Connections.{
  DeviceConnection, Request, Outside, Gateway, note, put, ask_stop, set_challenge, send,
}
use veyaan_core_backend.Gateway.Connections.Laws.{active-register}
use veyaan_core_backend.Gateway.Authentication.{
  generate_challenge, consume_challenge, Answer, frame, empty_frame, timeout, broken, Attempt,
  or_default, verify_device_challenge_response, is_revoked, is_unauthorized, new_connection,
  welcome_device, verify_device, find_and_verify, with_device_id, is_auth_response, on_answer,
  authenticate,
}

-- A device that is trusted and not revoked has signed, with its key, the challenge of this attempt on
-- this connection, while the challenge was held; and it alone gets a new connection.
pub record Authenticated (out : Outside) (a : Attempt) (log : List Request) (db : Database)
    (before after : List DeviceConnection) : Type 0 where
  pub device_id : ℕ
  pub device : Device
  pub fs : JsonFields
  pub server_time : Json
  pub signature : Json
  pub found : find_device device_id db ≡ some device
  pub trusted : is_trusted device.trust_status ≡ true
  pub not_revoked : is_revoked device.revoked_at ≡ false
  pub supported : is_supported a.protocol_version ≡ true
  pub answered : a.answer ≡ frame (json (fields fs))
  pub held : out.holds_challenge log a.nonce ≡ true
  pub signed :
      out.verifies device.device_public_identity device_id a.connection_id a.nonce server_time
        signature
        (new_connection out a fs device_id device).protocol_version
        (new_connection out a fs device_id device).app_version
      ≡ true
  pub registered : after ≡ put (new_connection out a fs device_id device) before

abbrev Outcome : Outside → Attempt → Gateway → Gateway → Type 0
Outcome out a g after =
    (after.active_connections ≡ g.active_connections)
    ⊎ Authenticated out a g.log g.world.database g.active_connections after.active_connections

module _ (out : Outside) (a : Attempt) (fs : JsonFields) (g : Gateway)
    (supported : is_supported a.protocol_version ≡ true)
    (answered : a.answer ≡ frame (json (fields fs))) where
  verify-Outcome :
      (device_id : ℕ) (d : Device)
      → find_device device_id g.world.database ≡ some d
      → is_unauthorized (some d) ≡ false
      → Outcome out a g (verify_device out a fs device_id d g)
  unfolding verify_device welcome_device verify_device_challenge_response consume_challenge ask_stop
  verify-Outcome device_id d found authorized =
      let conn = new_connection out a fs device_id d in
      let server_time = or_default a.server_time (last_field "server_time" none fs) in
      let signature = or_default (text "") (last_field "signature" none fs) in
      let held = out.holds_challenge g.log a.nonce in
      let signed =
        out.verifies d.device_public_identity device_id a.connection_id a.nonce server_time
          signature conn.protocol_version conn.app_version in
      if-any (λ (k : Gateway). Outcome out a g k) (not (held && signed)) _ _ (λ h. inl refl)
        (λ h. inr (record {
          device_id = device_id;
          device = d;
          fs = fs;
          server_time = server_time;
          signature = signature;
          found = found;
          trusted = ground arith;
          not_revoked = ground arith;
          supported = supported;
          answered = answered;
          held = &&-left held signed (ground arith);
          signed = &&-right held signed (ground arith);
          registered = active-register conn _;
        }))

  find-Outcome :
      (device_id : ℕ) (o : Option Device)
      → find_device device_id g.world.database ≡ o
      → Outcome out a g (find_and_verify out a fs device_id o g)
  unfolding find_and_verify
  find-Outcome device_id none found = inl refl
  find-Outcome device_id (some d) found =
      if-any (λ (k : Gateway). Outcome out a g k) (is_unauthorized (some d)) _ _ (λ h. inl refl)
        (λ h. verify-Outcome device_id d found h)

  id-Outcome : (v : Json) → Outcome out a g (with_device_id out a fs v g)
  unfolding with_device_id
  id-Outcome (uuid device_id) = find-Outcome device_id (find_device device_id g.world.database) refl
  id-Outcome null = inl refl
  id-Outcome v = inl refl

answer-Outcome :
    (out : Outside) (a : Attempt) (g : Gateway) (answer : Answer)
    → is_supported a.protocol_version ≡ true
    → a.answer ≡ answer
    → Outcome out a g (on_answer out a answer g)
unfolding on_answer
answer-Outcome out a g (frame (json (fields fs))) supported answered =
    if-any (λ (k : Gateway). Outcome out a g k)
      (not (is_auth_response (or_null (last_field "type" none fs)))) _ _ (λ h. inl refl)
      (λ h.
        id-Outcome out a fs g supported answered
          (or_default (text "") (last_field "device_id" none fs)))
answer-Outcome out a g (frame (json v)) supported answered = inl refl
answer-Outcome out a g (frame bad_json) supported answered = inl refl
answer-Outcome out a g (frame bad_utf8) supported answered = inl refl
answer-Outcome out a g empty_frame supported answered = inl refl
answer-Outcome out a g timeout supported answered = inl refl
answer-Outcome out a g broken supported answered = inl refl

-- The gateway once the challenge of an attempt was generated and sent.
abbrev pub challenged : Attempt → Gateway → Gateway
challenged a g =
    note (send a.connection_id (auth_challenge a.nonce a.connection_id))
      (note (set_challenge a.nonce) g)

-- One attempt leaves the connections as they are, or it puts the new connection in the place of its
-- device, of which then: the row is in the database, trusted and not revoked; the version of the URL
-- is supported; the nonce of this attempt was still held when it was consumed; and the signature over
-- this device, connection and nonce is verified with the key in the row.
pub authenticate-Authenticated :
    (out : Outside) (a : Attempt) (g : Gateway)
    → ((authenticate out a g).active_connections ≡ g.active_connections)
      ⊎ Authenticated out a
          (challenged a g).log
          g.world.database
          g.active_connections
          (authenticate out a g).active_connections
unfolding authenticate generate_challenge
authenticate-Authenticated out a g =
    if-any (λ (k : Gateway). Outcome out a (challenged a g) k)
      (not (is_supported a.protocol_version)) _ _ (λ h. inl refl)
      (λ h. answer-Outcome out a (challenged a g) a.answer (ground arith) refl)
