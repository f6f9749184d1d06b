-- ===== src/Device/Model.antt =====
-- app/devices/models.py
use veyaan_core_backend.Prelude.{ℕ, String, Bool, Option}

pub data DeviceStatus : Type 0 where
  trusted revoked pending : DeviceStatus

pub data PairingStatus : Type 0 where
  pending confirmed expired rejected : PairingStatus

abbrev pub is_trusted : DeviceStatus → Bool
is_trusted trusted = Bool.true
is_trusted _ = Bool.false

abbrev pub is_pending : PairingStatus → Bool
is_pending PairingStatus.pending = Bool.true
is_pending _ = Bool.false

pub record DeviceCredential : Type 0 where
  pub id : ℕ
  pub device_id : ℕ
  pub credential_hash : String
  pub expires_at : Option ℕ
  pub revoked_at : Option ℕ

pub record PairingRequest : Type 0 where
  pub id : ℕ
  pub device_name : String
  pub device_type : String
  pub operating_system : String
  pub app_version : String
  pub protocol_version : String
  pub device_public_identity : String
  pub pairing_code_hash : String
  pub attempt_count : ℕ
  pub owner_id : Option ℕ
  pub status : PairingStatus
  pub expires_at : ℕ
  pub confirmed_at : Option ℕ

pub record Device : Type 0 where
  pub id : ℕ
  pub owner_id : ℕ
  pub display_name : String
  pub device_type : String
  pub operating_system : String
  pub app_version : String
  pub protocol_version : String
  pub device_public_identity : String
  pub trust_status : DeviceStatus
  pub last_seen_at : Option ℕ
  pub revoked_at : Option ℕ
