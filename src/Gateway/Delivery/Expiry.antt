-- ===== src/Gateway/Delivery/Expiry.antt =====
-- Commands that have no time of expiry, at the gateway.
use veyaan_core_backend.Prelude.{
  ℕ, Option, none, some, List, ◌≡◌, ◌≢◌, refl, arith, inl, inr, subst,
}
use veyaan_core_backend.Python.{Json, null, text, fields, JsonFields, to_fields}
use veyaan_core_backend.Command.Service.{queued_payload}
use veyaan_core_backend.Command.Model.{Command}
use veyaan_core_backend.Gateway.Messages.{ServerMessage, json, last_field}
use veyaan_core_backend.Gateway.Connections.{DeviceConnection, Request, Outside, Gateway}
use veyaan_core_backend.Gateway.Connections.Sent.{messages}
use veyaan_core_backend.Gateway.Delivery.Ready.{Ready, Sends, deliver_message-Ready}
use veyaan_core_backend.Gateway.Delivery.{message_of, request_message, or_low, deliver_message}

untimed : (id : ℕ) (t p : Option Json) (l : Json) → message_of id t p (some null) l ≡ none
untimed id none p l = refl
untimed id (some (text t)) none l = refl
untimed id (some (text t)) (some (fields fs)) l = refl
untimed id (some (text t)) p l = refl
untimed id t p l = refl

no_request :
    (id : ℕ) (fs gs : JsonFields) (m : ServerMessage)
    → json (fields fs) ≡ json (fields gs)
    → last_field "expires_at" none fs ≡ some null
    → request_message id gs ≢ some m
unfolding request_message
no_request id fs gs m e h r =
    let same_fs : fs ≡ gs = cc in
    let untimed =
      untimed id (last_field "command_type" none gs) (last_field "parameters" none gs)
        (or_low (last_field "risk_level" none gs)) in
    let timeless : last_field "expires_at" none gs ≡ some null =
      subst (λ k. last_field "expires_at" none k ≡ some null) same_fs h in
    let refused : request_message id gs ≡ none = rw timeless untimed in ground (arith, r, refused)

nothing_sent :
    (c : ℕ) (P : ServerMessage → Type 0) (before after : List Request)
    → ((m : ServerMessage) → P m → ⊥)
    → Sends c P before after
    → messages after ≡ messages before
nothing_sent c P before after h (inl e) = e
nothing_sent c P before after h (inr (m, p, e)) = absurd (h m p)

-- The payload that the services write for a command which has no time of expiry makes no request:
-- whatever connection takes it from the stream, nothing is sent.
pub deliver_message-without_expiry :
    (out : Outside) (conn : DeviceConnection) (c : Command) (g : Gateway)
    → c.expires_at ≡ none
    → messages (deliver_message out conn (json (fields (to_fields (queued_payload c)))) g).log
      ≡ messages g.log
unfolding last_field
deliver_message-without_expiry out conn c g h =
    let payload = to_fields (queued_payload c) in
    nothing_sent conn.connection_id (Ready out conn (json (fields payload)) g) g.log
      (deliver_message out conn (json (fields payload)) g).log
      (λ m r. no_request r.id payload r.fs m r.content_is (rw h refl) r.request)
      (deliver_message-Ready out conn (json (fields payload)) g)
