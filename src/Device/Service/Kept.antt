-- ===== src/Device/Service/Kept.antt =====
-- Pairing and revoking devices is made of the shared steps.
use veyaan_core_backend.Prelude.{ℕ, String, refl}
use veyaan_core_backend.Python.{Error}
use veyaan_core_backend.Database.{Environment}
use veyaan_core_backend.Database.Session.{Session, modify}
use veyaan_core_backend.Database.Keeps.{Keeps, keeps_rules}
use veyaan_core_backend.Kept.{IsKept, kept_rules, Keeps-append_event, Keeps-create_audit_log}
use veyaan_core_backend.Device.Model.{Device, DeviceCredential, PairingRequest}
use veyaan_core_backend.Device.Repository
use veyaan_core_backend.Device.Repository.{revoke_device}
use veyaan_core_backend.Device.Service.{
  DevicePairingRequest, FreshDevice, append_pairing, start_pairing, write_pairing, insert_device,
  pair, refuse, on_pairing, confirm_pairing, revoke,
}

module _ {P : Session → Type 0} (r : IsKept P) where
  Keeps-append_pairing : (p : PairingRequest) → Keeps P (modify (append_pairing p))
  unfolding append_pairing
  Keeps-append_pairing p =
      r.writes (append_pairing p) (λ db. refl) (λ db. refl) (λ db. refl) (λ db. refl)

  Keeps-write_pairing : (p : PairingRequest) → Keeps P (modify (write_pairing p))
  unfolding write_pairing
  Keeps-write_pairing p =
      r.writes (write_pairing p) (λ db. refl) (λ db. refl) (λ db. refl) (λ db. refl)

  Keeps-insert_device : (v : Device) (c : DeviceCredential) → Keeps P (modify (insert_device v c))
  unfolding insert_device
  Keeps-insert_device v c =
      r.writes (insert_device v c) (λ db. refl) (λ db. refl) (λ db. refl) (λ db. refl)

  Keeps-write_revoked : (now device_id : ℕ) → Keeps P (modify (Repository.revoke now device_id))
  unfolding Repository.revoke
  Keeps-write_revoked now device_id =
      r.writes (Repository.revoke now device_id) (λ db. refl) (λ db. refl) (λ db. refl) (λ db. refl)

ruleset device_rules = (
  kept_rules, Keeps-append_event, Keeps-create_audit_log, Keeps-append_pairing, Keeps-write_pairing,
  Keeps-insert_device, Keeps-write_revoked,
)

module _ {P : Session → Type 0} (r : IsKept P) (env : Environment) where
  Keeps-refuse : (p : PairingRequest) (e : Error) → Keeps P (refuse p e)
  unfolding refuse
  Keeps-refuse p e = search device_rules depth 8

  Keeps-pair :
      (ids : FreshDevice) (owner_id : ℕ) (p : PairingRequest) → Keeps P (pair env ids owner_id p)
  unfolding pair
  Keeps-pair ids owner_id p = search device_rules depth 12

  Keeps-on_pairing :
      (ids : FreshDevice) (owner_id : ℕ) (code : String) (p : PairingRequest)
      → Keeps P (on_pairing env ids owner_id code p)
  unfolding on_pairing
  Keeps-on_pairing ids owner_id code p = search (device_rules, Keeps-refuse, Keeps-pair) depth 14

module _ {P : Session → Type 0} (r : IsKept P) (env : Environment) where
  pub Keeps-start_pairing :
      (pairing_id : ℕ) (code : String) (request : DevicePairingRequest)
      → Keeps P (start_pairing env pairing_id code request)
  unfolding start_pairing
  Keeps-start_pairing pairing_id code request = search device_rules depth 8

  pub Keeps-confirm_pairing :
      (ids : FreshDevice) (pairing_id owner_id : ℕ) (code : String)
      → Keeps P (confirm_pairing env ids pairing_id owner_id code)
  unfolding confirm_pairing
  Keeps-confirm_pairing ids pairing_id owner_id code =
      search (keeps_rules, Keeps-on_pairing) depth 8

  pub Keeps-revoke :
      (event_id device_id owner_id : ℕ) → Keeps P (revoke env event_id device_id owner_id)
  unfolding revoke
  Keeps-revoke event_id device_id owner_id = search device_rules depth 16
