-- ===== src/Examples.antt =====
-- A paired device and a command that is sent to it: the data of the concrete instances in the child
-- modules.
pub mod Reports
pub mod Histories
pub mod Services
pub mod Life
pub mod Stops
pub mod Workers
pub mod Rounds
pub mod Gateway
pub mod Interface
use veyaan_core_backend.Prelude.{ℕ, String, true, false, none, some, [], ◌∷◌}
use veyaan_core_backend.Python.{null}
use veyaan_core_backend.Database.{Environment, World}
use veyaan_core_backend.Device.Model.{Device, trusted}
use veyaan_core_backend.Device.Service.{DevicePairingRequest, FreshDevice}
use veyaan_core_backend.Command.Service.{CreateCommandRequest, Fresh}
use veyaan_core_backend.Command.Model.{Command, queued, low}
use veyaan_core_backend.System.{pair, confirm, create, perform, empty}

-- At time `now`: the hash is the text itself, Valkey is empty and NATS takes everything.
abbrev pub at_time : ℕ → Environment
at_time now = record {
  now = now;
  sha256 = λ s. s;
  uuid_text = λ _. "device";
  error_text = λ _. "error";
  loads_enum = true;
  validates = λ _ _. true;
  logs = λ _. true;
  cached = λ _ _. none;
  publish_error = λ _ _. none;
}

abbrev pub start : World
start = record { database = empty; calls = [] }

abbrev pub laptop : DevicePairingRequest
laptop = record {
  display_name = "laptop";
  device_type = "desktop";
  operating_system = "linux";
  app_version = "1.0";
  protocol_version = none;
  device_public_identity = "key";
}

abbrev pub laptop_ids : FreshDevice
laptop_ids = record { device_id = 20; credential_id = 21; credential = "secret" }

abbrev pub paired : World
paired =
    perform (at_time 1) (confirm laptop_ids 10 1 "123456")
      (perform (at_time 0) (pair 10 "123456" laptop) start)

abbrev pub ping_request : CreateCommandRequest
ping_request = record {
  device_id = 20;
  command_type = "system.ping";
  parameters = null;
  idempotency_key = "k";
  expires_at = none;
  requires_approval = false;
  delayed_execution_allowed = false;
}

abbrev pub ping_ids : Fresh
ping_ids = record {
  command_id = 30;
  task_id = 31;
  event_id = 32;
  approval = record { approval_id = 33; decision_nonce = "nonce" };
}

abbrev pub sent : World
sent = perform (at_time 2) (create ping_ids ping_request 1) paired

abbrev pub sent_ping : Command
sent_ping = record {
  id = 30;
  device_id = 20;
  command_type = "system.ping";
  parameters = null;
  risk_level = low;
  idempotency_key = "k";
  state = queued;
  requires_approval = false;
  delayed_execution_allowed = true;
  expires_at = none;
  delivered_at = none;
  acknowledged_at = none;
  started_at = none;
  finished_at = none;
  result_data = null;
  result_summary = null;
  error_code = null;
  error_message = null;
  created_at = 2;
  updated_at = 2;
}

abbrev pub trusted_laptop : Device
trusted_laptop = record {
  id = 20;
  owner_id = 1;
  display_name = "laptop";
  device_type = "desktop";
  operating_system = "linux";
  app_version = "1.0";
  protocol_version = "v1";
  device_public_identity = "key";
  trust_status = trusted;
  last_seen_at = none;
  revoked_at = none;
}

-- The tables with that device and one queued command.
abbrev pub office : World
office = record {
  database = record empty { devices = trusted_laptop ∷ []; commands = sent_ping ∷ [] };
  calls = [];
}
