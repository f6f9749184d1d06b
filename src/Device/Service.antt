-- ===== src/Device/Service.antt =====
-- app/devices/service.py: DeviceService
pub mod Kept
pub mod Pairing
use veyaan_core_backend.Prelude.{
  ℕ, String, Bool, true, false, not, ◌==◌, ◌+◌, ◌*◌, ltb, List, [], ◌∷◌, ◌++◌, Option, none, some,
  if◌then◌else◌, find?, update, str_eq,
}
use veyaan_core_backend.Python.{
  Dict, text, uuid, Error, api_error, attribute_error, pairing_invalid, pairing_expired,
}
use veyaan_core_backend.Database.{Database, Environment}
use veyaan_core_backend.Database.Session.{
  Tx, pure, raise, gets, modify, commit, ◌>>=◌, ◌>>◌, case_found,
}
use veyaan_core_backend.Device.Model.{
  Device, DeviceCredential, PairingRequest, PairingStatus, trusted, confirmed, expired, rejected,
  is_pending,
}
use veyaan_core_backend.Device.Repository.{revoke_device, devices_by_owner}
use veyaan_core_backend.EmergencyStop.Model.{AuditLog}
use veyaan_core_backend.EmergencyStop.Service.{create_audit_log}
use veyaan_core_backend.Outbox.Model.{device_lifecycle}
use veyaan_core_backend.Outbox.Repository.{add_event}

-- app/config.py
abbrev pub pairing_code_ttl_minutes : ℕ
pairing_code_ttl_minutes = 10

abbrev pub max_pairing_attempts : ℕ
max_pairing_attempts = 5

abbrev pub device_credential_ttl_days : ℕ
device_credential_ttl_days = 365

-- app/devices/schemas.py
pub record DevicePairingRequest : Type 0 where
  pub display_name : String
  pub device_type : String
  pub operating_system : String
  pub app_version : String
  pub protocol_version : Option String
  pub device_public_identity : String

-- `protocol_version or "v1"`
abbrev pub version_or_v1 : Option String → String
version_or_v1 none = "v1"
version_or_v1 (some v) = if str_eq v "" then "v1" else v

abbrev pub new_pairing : Environment → ℕ → String → DevicePairingRequest → PairingRequest
new_pairing env pairing_id pairing_code request = record {
  id = pairing_id;
  device_name = request.display_name;
  device_type = request.device_type;
  operating_system = request.operating_system;
  app_version = request.app_version;
  protocol_version = version_or_v1 request.protocol_version;
  device_public_identity = request.device_public_identity;
  pairing_code_hash = env.sha256 pairing_code;
  attempt_count = 0;
  owner_id = none;
  status = PairingStatus.pending;
  expires_at = env.now + pairing_code_ttl_minutes * 60;
  confirmed_at = none;
}

unfoldable pub append_pairing : PairingRequest → Database → Database
append_pairing p db = record db { pairings = db.pairings ++ p ∷ [] }

-- The id and the code are generated; the code goes to the device, and only its hash is stored.
unfoldable pub start_pairing : Environment → ℕ → String → DevicePairingRequest → Tx (ℕ × String × ℕ)
unfolding append_pairing
start_pairing env pairing_id pairing_code request = do
  let p = new_pairing env pairing_id pairing_code request
  modify (append_pairing p)
  commit
  pure (p.id, pairing_code, p.expires_at)

unfoldable pub find_pairing : ℕ → Database → Option PairingRequest
find_pairing pairing_id db = find? (λ p. p.id == pairing_id) db.pairings

unfoldable pub write_pairing : PairingRequest → Database → Database
write_pairing p db = record db { pairings = update (λ r. r.id == p.id) (λ _. p) db.pairings }

pub record Confirmation : Type 0 where
  pub device_id : ℕ
  pub credential : String

-- The ids and the credential that are generated for a new device.
pub record FreshDevice : Type 0 where
  pub device_id : ℕ
  pub credential_id : ℕ
  pub credential : String

abbrev pub new_device : FreshDevice → ℕ → PairingRequest → Device
new_device ids owner_id p = record {
  id = ids.device_id;
  owner_id = owner_id;
  display_name = p.device_name;
  device_type = p.device_type;
  operating_system = p.operating_system;
  app_version = p.app_version;
  protocol_version = p.protocol_version;
  device_public_identity = p.device_public_identity;
  trust_status = trusted;
  last_seen_at = none;
  revoked_at = none;
}

abbrev pub new_credential : Environment → FreshDevice → DeviceCredential
new_credential env ids = record {
  id = ids.credential_id;
  device_id = ids.device_id;
  credential_hash = env.sha256 ids.credential;
  expires_at = some (env.now + device_credential_ttl_days * 86400);
  revoked_at = none;
}

unfoldable pub insert_device : Device → DeviceCredential → Database → Database
insert_device d c db = record db {
  devices = db.devices ++ d ∷ [];
  credentials = db.credentials ++ c ∷ [];
}

abbrev device_log : ℕ → ℕ → ℕ → String → Option Dict → AuditLog
device_log now user_id device_id action metadata = record {
  user_id = some user_id;
  device_id = some device_id;
  command_id = none;
  approval_id = none;
  category = "device";
  action = action;
  result = "success";
  event_metadata = metadata;
  created_at = now;
}

-- Device, credential, pairing and audit row, then the single commit.
pair : Environment → FreshDevice → ℕ → PairingRequest → Tx Confirmation
unfolding insert_device write_pairing create_audit_log
pair env ids owner_id p = do
  modify (insert_device (new_device ids owner_id p) (new_credential env ids))
  modify (
      write_pairing
        (record p { status = confirmed; owner_id = some owner_id; confirmed_at = some env.now }))
  create_audit_log (
      device_log env.now owner_id ids.device_id "device_pair_confirmed"
        (some (("device_name", text p.device_name) ∷ [])))
  commit
  pure (record { device_id = ids.device_id; credential = ids.credential })

-- What a refused attempt writes is committed before the error is raised.
refuse : PairingRequest → Error → Tx Confirmation
unfolding write_pairing
refuse p error = do modify (write_pairing p); commit; raise error

-- The attempt is counted first, and the code is compared only within the limit.
attempt : Environment → FreshDevice → ℕ → String → PairingRequest → Tx Confirmation
unfolding pair refuse
attempt env ids owner_id pairing_code p =
    if ltb max_pairing_attempts p.attempt_count
    then refuse (record p { status = rejected }) (api_error pairing_invalid 429)
    else if not (str_eq (env.sha256 pairing_code) p.pairing_code_hash)
    then refuse p (api_error pairing_invalid 400)
    else pair env ids owner_id p

-- `f"Pairing is {pairing.status.value}"` fails on a column that is a plain text.
not_pending : Environment → Tx Confirmation
not_pending env =
    if env.loads_enum then raise (api_error pairing_invalid 400) else raise attribute_error

on_pairing : Environment → FreshDevice → ℕ → String → PairingRequest → Tx Confirmation
unfolding attempt refuse not_pending
on_pairing env ids owner_id pairing_code p =
    if not (is_pending p.status)
    then not_pending env
    else if ltb p.expires_at env.now
    then refuse (record p { status = expired }) (api_error pairing_expired 400)
    else attempt env ids owner_id pairing_code (record p { attempt_count = p.attempt_count + 1 })

unfoldable pub confirm_pairing : Environment → FreshDevice → ℕ → ℕ → String → Tx Confirmation
unfolding on_pairing
confirm_pairing env ids pairing_id owner_id pairing_code = do
  found ← gets (find_pairing pairing_id)
  case_found found (raise (api_error pairing_invalid 404))
      (λ p. on_pairing env ids owner_id pairing_code p)

unfoldable pub list_devices : ℕ → Tx (List Device)
unfolding devices_by_owner
list_devices owner_id = gets (devices_by_owner owner_id)

abbrev pub revoked_payload : ℕ → ℕ → Dict
revoked_payload device_id owner_id =
    ("device_id", uuid device_id) ∷ ("state", text "revoked") ∷ ("owner_id", uuid owner_id) ∷ []

unfoldable pub revoke : Environment → ℕ → ℕ → ℕ → Tx Bool
unfolding revoke_device create_audit_log add_event
revoke env event_id device_id owner_id = do
  done ← revoke_device env.now device_id owner_id
  if not done then pure false else do
    create_audit_log (device_log env.now owner_id device_id "device_revoked" none)
    add_event env event_id "device.revoked" "device" device_id (device_lifecycle device_id)
        (revoked_payload device_id owner_id)
    commit
    pure true
