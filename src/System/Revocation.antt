-- ===== src/System/Revocation.antt =====
-- A revoked device, from the service through the event to the gateway.
use veyaan_core_backend.Prelude.{
  ℕ, Bool, true, false, ◌==◌, ◌&&◌, &&-left, ==→eq, ==_refl, Option, none, some, List, [], ◌∷◌, ◌≡◌,
  ◌≢◌, refl, sym, ◌∙◌, ap, subst, arith, ◌⊎◌, inl, inr, find?, find?-fits, find?-update_self,
  Bool-cases,
}
use mathlib.Core.Option
use veyaan_core_backend.Python.{fields, to_fields, Result, ok}
use veyaan_core_backend.Database.{Database, Environment, World}
use veyaan_core_backend.Database.Session.{with_session}
use veyaan_core_backend.Device.Model
use veyaan_core_backend.Device.Model.{Device}
use veyaan_core_backend.Device.Repository
use veyaan_core_backend.Device.Repository.{find_device, find_owned_device, revoke_device}
use veyaan_core_backend.Device.Service.{revoke, revoked_payload}
use veyaan_core_backend.EmergencyStop.Service.{create_audit_log, append_audit}
use veyaan_core_backend.Outbox.Repository.{add_event, append_event}
use veyaan_core_backend.Gateway.Messages.{json}
use veyaan_core_backend.Gateway.Connections.{DeviceConnection, Outside, Gateway, get}
use veyaan_core_backend.Gateway.Connections.Laws.{find?-put}
use veyaan_core_backend.Gateway.Handler.{device_lifecycle_callback}
use veyaan_core_backend.Gateway.Handler.Events.{
  get-device_lifecycle_callback, world-device_lifecycle_callback,
}
use veyaan_core_backend.Gateway.Authentication.{Attempt, is_revoked, new_connection, authenticate}
use veyaan_core_backend.Gateway.Authentication.Soundness.{
  Authenticated, challenged, authenticate-Authenticated,
}
use veyaan_core_backend.Gateway.Authentication.Frame.{database-authenticate}

-- The row of a device is there and revoked.
pub record Revoked (device_id : ℕ) (db : Database) : Type 0 where
  pub device : Device
  pub found : find_device device_id db ≡ some device
  pub revoked : is_revoked device.revoked_at ≡ true

-- The attempts of a list, the last one first.
unfoldable pub attempt_all : Outside → List Attempt → Gateway → Gateway
unfolding authenticate
attempt_all out [] g = g
attempt_all out (a ∷ attempts) g = authenticate out a (attempt_all out attempts g)

apart :
    (a b : Device)
    → some a ≡ some b
    → is_revoked a.revoked_at ≡ false
    → is_revoked b.revoked_at ≢ true
apart a b e f t = ground arith

module _ (out : Outside) (d : ℕ) where
  outcome :
      (a : Attempt) (g : Gateway)
      → Revoked d g.world.database
      → ((authenticate out a g).active_connections ≡ g.active_connections)
        ⊎ Authenticated out a
            (challenged a g).log
            g.world.database
            g.active_connections
            (authenticate out a g).active_connections
      → get d (authenticate out a g) ≡ get d g
  unfolding get
  outcome a g row (inl same) = ap (find? (λ (c : DeviceConnection). c.device_id == d)) same
  outcome a g row (inr new) =
      let conn = new_connection out a new.fs new.device_id new.device in
      elim (Bool-cases (new.device_id == d)) [
        | inl same ↦
            let moved = ap (λ k. find_device k g.world.database) (==→eq new.device_id d same) in
            absurd (
              apart new.device row.device (sym new.found ∙ moved ∙ row.found) new.not_revoked
                row.revoked)
        | inr other ↦
            ap (find? (λ (c : DeviceConnection). c.device_id == d)) new.registered
            ∙ find?-put d conn g.active_connections
            ∙ rw other refl
      ]

  -- A revoked device gets no new connection by an attempt.
  get-authenticate :
      (a : Attempt) (g : Gateway)
      → Revoked d g.world.database
      → get d (authenticate out a g) ≡ get d g
  get-authenticate a g row = outcome a g row (authenticate-Authenticated out a g)

  database-attempt_all :
      (attempts : List Attempt) (g : Gateway)
      → (attempt_all out attempts g).world.database ≡ g.world.database
  unfolding attempt_all
  database-attempt_all [] g = refl
  database-attempt_all (a ∷ attempts) g =
      database-authenticate out a (attempt_all out attempts g) ∙ database-attempt_all attempts g

  get-attempt_all :
      (attempts : List Attempt) (g : Gateway)
      → Revoked d g.world.database
      → get d (attempt_all out attempts g) ≡ get d g
  unfolding attempt_all
  get-attempt_all [] g row = refl
  get-attempt_all (a ∷ attempts) g row =
      get-authenticate a (attempt_all out attempts g)
        (subst (Revoked d) (sym (database-attempt_all attempts g)) row)
      ∙ get-attempt_all attempts g row

-- The row of the device after `revoke`.
find?-both :
    (p q : Device → Bool) (ds : List Device) (r : Device)
    → find? (λ k. p k && q k) ds ≡ some r
    → (k : Device) × (find? p ds ≡ some k)
unfolding find?
find?-both p q [] r h = ground arith
find?-both p q (x ∷ ds) r h = elim (Bool-cases (p x)) [
  | inl e ↦ (x, rw e refl)
  | inr e ↦ let (k, found) = find?-both p q ds r (ground (arith, e, h)) in (k, rw e found)
]

abbrev set_revoked : ℕ → Device → Device
set_revoked now k = record k { trust_status = Model.revoked; revoked_at = some now }

module _ (now d owner_id : ℕ) (db : Database) where
  Revoked-revoke :
      (r : Device)
      → find_owned_device d owner_id db ≡ some r
      → Revoked d (Repository.revoke now r.id db)
  unfolding Repository.revoke find_device find_owned_device
  Revoked-revoke r h =
      let own : (r.id == d) ≡ true =
        &&-left (r.id == d) (r.owner_id == owner_id)
          (find?-fits (λ k. (k.id == d) && (k.owner_id == owner_id)) db.devices r h) in
      let (k, found) = find?-both (λ k. k.id == d) (λ k. k.owner_id == owner_id) db.devices r h in
      let there : Revoked d (Repository.revoke now d db) = record {
        device = set_revoked now k;
        found =
            find?-update_self (λ k. k.id == d) (set_revoked now) db.devices (λ x. refl)
            ∙ ap (Option.map (set_revoked now)) found;
        revoked = refl;
      } in
      subst (λ n. Revoked d (Repository.revoke now n db)) (sym (==→eq r.id d own)) there

module _ (env : Environment) (event_id d owner_id : ℕ) (w : World) where
  abbrev revoked_world : Result Bool × World
  revoked_world = with_session (revoke env event_id d owner_id) w

  by_row :
      (o : Option Device)
      → find_owned_device d owner_id w.database ≡ o
      → revoked_world.0 ≡ ok true
      → Revoked d revoked_world.1.database
  unfolding revoke revoke_device create_audit_log append_audit add_event append_event find_device
  by_row none found h =
      let refused : revoked_world.0 ≡ ok false = rw found refl in ground (arith, refused, h)
  by_row (some r) found h =
      let row = Revoked-revoke env.now d owner_id w.database r found in
      rw found (record { device = row.device; found = row.found; revoked = row.revoked })

  -- Once `revoke` has returned true, and the gateway has handled the event that it published, the
  -- device has no connection, and it gets none by any attempts, whatever it sends and signs, as long
  -- as the database of the gateway is the one that `revoke` left.
  pub revoke-attempt_all :
      (out : Outside) (attempts : List Attempt) (g : Gateway)
      → (with_session (revoke env event_id d owner_id) w).0 ≡ ok true
      → g.world.database ≡ (with_session (revoke env event_id d owner_id) w).1.database
      → get d (
          attempt_all out attempts (
            device_lifecycle_callback out
              (json (fields (to_fields (revoked_payload d owner_id))))
              g))
        ≡ none
  revoke-attempt_all out attempts g returned shared =
      let told =
        device_lifecycle_callback out (json (fields (to_fields (revoked_payload d owner_id)))) g in
      let row : Revoked d g.world.database =
        subst (Revoked d) (sym shared)
          (by_row (find_owned_device d owner_id w.database) refl returned) in
      get-attempt_all out d attempts told (
        subst (λ k. Revoked d k.database) (sym (world-device_lifecycle_callback out d owner_id g))
          row)
      ∙ get-device_lifecycle_callback out d d owner_id g
      ∙ rw (==_refl d) refl
