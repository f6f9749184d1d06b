-- ===== src/System/Reports.antt =====
-- A frame of a device, from the gateway through NATS to the consumer.
use veyaan_core_backend.Prelude.{
  ℕ, false, ◌==◌, List, [], ◌∷◌, ◌++◌, some, ◌≡◌, ◌≢◌, refl, sym, ap, ◌∙◌, subst, inl, inr, ==_ne,
}
use veyaan_core_backend.Python.{Dict, lookup, ok}
use veyaan_core_backend.Database.{Environment, World}
use veyaan_core_backend.Command.Model.{Command}
use veyaan_core_backend.Command.StateMachine.{find_command}
use veyaan_core_backend.Outbox.Model.{Subject, device_lifecycle}
use veyaan_core_backend.Gateway.Messages.{Frame}
use veyaan_core_backend.Gateway.Connections.{Request, Outside, Gateway, publish}
use veyaan_core_backend.Gateway.Handler.{head, handle_device_message}
use veyaan_core_backend.Gateway.Handler.Ownership.{
  OwnReport, Allowed, handle_device_message-Confined,
}
use veyaan_core_backend.Worker.Consumer.{command_id_of, get}
use veyaan_core_backend.Worker.Consumer.Routing.{poll_message, with_handler}
use veyaan_core_backend.Worker.Consumer.Others.{find_command-poll_message}
use veyaan_core_backend.System.{Run}
use veyaan_core_backend.System.Histories.{Run-SameRequest}

last_eq : (l : List Request) (r s : Request) → l ++ r ∷ [] ≡ l ++ s ∷ [] → r ≡ s
last_eq [] r s h = cc h
last_eq (x ∷ l) r s h = last_eq l r s (cc h)

grown-ne : (l : List Request) (r : Request) → l ≢ l ++ r ∷ []
grown-ne [] r h = cc h
grown-ne (x ∷ l) r h = grown-ne l r (cc h)

head-command_id : (id d : ℕ) (rest : Dict) → command_id_of (head id d rest) ≡ ok (some id)
unfolding command_id_of get lookup
head-command_id id d rest = refl

module _ (d : ℕ) (out : Outside) (g : Gateway) {v : World} (run : Run g.world v) (env : Environment)
    (j : ℕ) (c : Command) (found : find_command j v.database ≡ some c)
    (other : c.device_id ≢ d) where
  -- The command that a report names is the device's, now as then.
  apart :
      (s : Subject) (payload : Dict) (r : OwnReport g.world.database d s payload)
      → (r.id == j) ≡ false
  apart s payload r =
      let (b, later, kept) = Run-SameRequest run r.id r.command r.found in
      ==_ne r.id j (λ same. other (
        let row : some b ≡ some c = sym later ∙ ap (λ k. find_command k v.database) same ∙ found in
        let b_eq : b ≡ c = cc row in
        sym (ap (λ (x : Command). x.device_id) b_eq) ∙ kept.device_id ∙ r.own))

  reported :
      (s : Subject) (payload : Dict)
      → OwnReport g.world.database d s payload
      → find_command j (poll_message env s (some payload) v).1.database ≡ some c
  reported s payload r =
      find_command-poll_message j r.id (apart s payload r) env payload
        (rw r.names (head-command_id r.id d r.rest)) v s
      ∙ found

  -- A lifecycle event of a device goes to no handler of the consumer.
  unrouted :
      (s : Subject) (payload : Dict)
      → s ≡ device_lifecycle d
      → find_command j (poll_message env s (some payload) v).1.database ≡ some c
  unfolding poll_message with_handler
  unrouted s payload e = rw e found

  requested :
      (s : Subject) (payload : Dict) (r : Request)
      → r ≡ publish s payload
      → Allowed g d r
      → find_command j (poll_message env s (some payload) v).1.database ≡ some c
  requested s payload r e allowed = elim (subst (Allowed g d) e allowed) [
    | inl life ↦ unrouted s payload life
    | inr report ↦ reported s payload report
  ]

  -- When a frame of a device makes the gateway publish a message, and the consumer takes that message
  -- at any later time, whatever operations came between, then the row of every command of another
  -- device is as it was.
  pub find_command-poll_frame :
      (frame : Frame) (s : Subject) (payload : Dict)
      → (handle_device_message out d frame g).log ≡ g.log ++ publish s payload ∷ []
      → find_command j (poll_message env s (some payload) v).1.database ≡ some c
  find_command-poll_frame frame s payload published =
      elim (handle_device_message-Confined out d frame g).requests [
        | inl none_made ↦ absurd (grown-ne g.log (publish s payload) (sym none_made ∙ published))
        | inr (r, made, allowed) ↦
            requested s payload r (last_eq g.log r (publish s payload) (sym made ∙ published))
              allowed
      ]
