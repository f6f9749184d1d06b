-- ===== src/Device/Repository.antt =====
-- app/devices/repository.py: the queries and the revocation.
use veyaan_core_backend.Prelude.{ℕ, Bool, ◌&&◌, ◌==◌, List, Option, some, find?, select, update}
use mathlib.Core.List.{reverse}
use veyaan_core_backend.Database.{Database}
use veyaan_core_backend.Database.Session.{Tx, pure, gets, modify, ◌>>=◌, ◌>>◌, case_found}
use veyaan_core_backend.Device.Model.{Device, revoked}

unfoldable pub find_device : ℕ → Database → Option Device
find_device device_id db = find? (λ d. d.id == device_id) db.devices

-- Newest first.
unfoldable pub devices_by_owner : ℕ → Database → List Device
devices_by_owner owner_id db = reverse (select (λ d. d.owner_id == owner_id) db.devices)

unfoldable pub find_owned_device : ℕ → ℕ → Database → Option Device
find_owned_device device_id owner_id db =
    find? (λ d. (d.id == device_id) && (d.owner_id == owner_id)) db.devices

-- The row of the device, and UPDATE of all its credentials.
unfoldable pub revoke : ℕ → ℕ → Database → Database
revoke now device_id db = record db {
  devices =
      update (λ d. d.id == device_id)
        (λ d. record d { trust_status = revoked; revoked_at = some now }) db.devices;
  credentials =
      update (λ c. c.device_id == device_id) (λ c. record c { revoked_at = some now })
        db.credentials;
}

unfoldable pub revoke_device : ℕ → ℕ → ℕ → Tx Bool
unfolding revoke
revoke_device now device_id owner_id = do
  found ← gets (find_owned_device device_id owner_id)
  case_found found (pure Bool.false) (λ d. do modify (revoke now d.id); pure Bool.true)

unfoldable pub update_last_seen : ℕ → ℕ → Database → Database
update_last_seen now device_id db = record db {
  devices = update (λ d. d.id == device_id) (λ d. record d { last_seen_at = some now }) db.devices;
}
