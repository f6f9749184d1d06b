-- ===== src/Gateway/Authentication/Frame.antt =====
-- A connection attempt writes no table.
use veyaan_core_backend.Prelude.{not, ◌≡◌, refl, ◌∙◌, if-any, Option, none, some, ◌&&◌, ℕ}
use veyaan_core_backend.Python.{Json, null, text, uuid, fields, JsonFields}
use veyaan_core_backend.Device.Model.{Device}
use veyaan_core_backend.Device.Repository.{find_device}
use veyaan_core_backend.Gateway.Messages.{
  json, bad_json, bad_utf8, is_supported, last_field, or_null,
}
use veyaan_core_backend.Gateway.Connections.{
  DeviceConnection, Outside, Gateway, get, close_old, register,
}
use veyaan_core_backend.Gateway.Connections.Laws.{database-ask_stop}
use veyaan_core_backend.Gateway.Authentication.{
  generate_challenge, consume_challenge, Answer, frame, empty_frame, timeout, broken, Attempt,
  or_default, verify_device_challenge_response, is_unauthorized, new_connection, welcome_device,
  verify_device, find_and_verify, with_device_id, is_auth_response, on_answer, authenticate,
}

abbrev Same : Gateway → Gateway → Type 0
Same g after = after.world.database ≡ g.world.database

closed :
    (o : Option DeviceConnection) (g : Gateway) → (close_old o g).world.database ≡ g.world.database
closed none g = refl
closed (some c) g = refl

registered :
    (conn : DeviceConnection) (g : Gateway) → (register conn g).world.database ≡ g.world.database
unfolding register
registered conn g = closed (get conn.device_id g) g

module _ (out : Outside) (a : Attempt) where
  welcomed : (conn : DeviceConnection) (g : Gateway) → Same g (welcome_device out conn g)
  unfolding welcome_device
  welcomed conn g = registered conn _ ∙ database-ask_stop out conn.owner_id g

  verified :
      (fs : JsonFields) (device_id : ℕ) (d : Device) (g : Gateway)
      → Same g (verify_device out a fs device_id d g)
  unfolding verify_device verify_device_challenge_response consume_challenge
  verified fs device_id d g =
      let conn = new_connection out a fs device_id d in
      let signed =
        out.verifies d.device_public_identity device_id a.connection_id a.nonce
          (or_default a.server_time (last_field "server_time" none fs))
          (or_default (text "") (last_field "signature" none fs)) conn.protocol_version
          conn.app_version in
      if-any (Same g) (not (out.holds_challenge g.log a.nonce && signed)) _ _ (λ h. refl)
        (λ h. welcomed conn _)

  found :
      (fs : JsonFields) (device_id : ℕ) (o : Option Device) (g : Gateway)
      → Same g (find_and_verify out a fs device_id o g)
  unfolding find_and_verify
  found fs device_id none g = refl
  found fs device_id (some d) g =
      if-any (Same g) (is_unauthorized (some d)) _ _ (λ h. refl) (λ h. verified fs device_id d g)

  named : (fs : JsonFields) (v : Json) (g : Gateway) → Same g (with_device_id out a fs v g)
  unfolding with_device_id
  named fs (uuid device_id) g = found fs device_id (find_device device_id g.world.database) g
  named fs null g = refl
  named fs v g = refl

  answered : (answer : Answer) (g : Gateway) → Same g (on_answer out a answer g)
  unfolding on_answer
  answered (frame (json (fields fs))) g =
      if-any (Same g) (not (is_auth_response (or_null (last_field "type" none fs)))) _ _ (λ h. refl)
        (λ h. named fs (or_default (text "") (last_field "device_id" none fs)) g)
  answered (frame (json v)) g = refl
  answered (frame bad_json) g = refl
  answered (frame bad_utf8) g = refl
  answered empty_frame g = refl
  answered timeout g = refl
  answered broken g = refl

  pub database-authenticate : (g : Gateway) → Same g (authenticate out a g)
  unfolding authenticate generate_challenge
  database-authenticate g =
      if-any (Same g) (not (is_supported a.protocol_version)) _ _ (λ h. refl)
        (λ h. answered a.answer _)
