-- ===== src/System.antt =====
-- The whole program, as the sequence of its operations: each API handler calls one service
-- operation in its session, and each loop of a worker runs one round in its session.
pub mod Audited
pub mod Trail
pub mod Revocation
pub mod Kept
pub mod Histories
pub mod Reports
pub mod Coherence
use veyaan_core_backend.Prelude.{ℕ, String, Option, List, []}
use veyaan_core_backend.Python.{Dict}
use veyaan_core_backend.Database.{Database, Environment, World}
use veyaan_core_backend.Database.Session.{with_session}
use veyaan_core_backend.Command.Service.{
  CreateCommandRequest, Fresh, create_command, cancel_command, approve_command, reject_command,
}
use veyaan_core_backend.Command.Service.Lifecycle.{IsFresh}
use veyaan_core_backend.Approval.Repository.{Generated}
use veyaan_core_backend.Approval.Service.{create_approval_for, decide_approval}
use veyaan_core_backend.Device.Service.{
  DevicePairingRequest, FreshDevice, start_pairing, confirm_pairing, revoke,
}
use veyaan_core_backend.EmergencyStop.Service.{activate, release, is_active}
use veyaan_core_backend.Worker.Publisher.{process_batch}
use veyaan_core_backend.Worker.Consumer.{
  handle_delivered, handle_acknowledged, handle_progress, handle_result,
}
use veyaan_core_backend.Worker.Scheduler.{maintain}
use veyaan_core_backend.Worker.Scheduler.Presence.{Presence, detect_stale_device_presence}

-- The operations that write, to the tables or to the cache. A round of the scheduler is two of them,
-- `schedule_round` and then `detect_round`. The first
-- arguments are the new ids and random values that the operation draws.
pub data Operation : Type 0 where
  create : Fresh → CreateCommandRequest → ℕ → Operation
  cancel : ℕ → ℕ → Operation
  approve : ℕ → Operation
  reject : ℕ → Operation
  ask : Generated → ℕ → ℕ → String → String → ℕ → Operation
  decide : ℕ → ℕ → ℕ → String → String → Option String → Operation
  pair : ℕ → String → DevicePairingRequest → Operation
  confirm : FreshDevice → ℕ → ℕ → String → Operation
  revoke_device : ℕ → ℕ → ℕ → Operation
  stop : ℕ → Option String → ℕ → ℕ → Operation
  resume : ℕ → ℕ → ℕ → Operation
  publish_round : Operation
  schedule_round : Operation
  detect_round : Presence → Operation
  on_delivered : Dict → Operation
  on_acknowledged : Dict → Operation
  on_progress : Dict → Operation
  on_result : Dict → Operation
  read_stop : ℕ → Operation

abbrev pub perform : Environment → Operation → World → World
perform env (create ids request owner_id) w =
    (with_session (create_command env ids request owner_id) w).1
perform env (cancel command_id owner_id) w =
    (with_session (cancel_command env command_id owner_id) w).1
perform env (approve command_id) w = (with_session (approve_command env command_id) w).1
perform env (reject command_id) w = (with_session (reject_command env command_id) w).1
perform env (ask ids command_id owner_id title description minutes) w =
    (with_session (create_approval_for env ids command_id owner_id title description minutes) w).1
perform env (decide approval_id owner_id event_id decision nonce note) w =
    (with_session (decide_approval env approval_id owner_id event_id decision nonce note) w).1
perform env (pair pairing_id code request) w =
    (with_session (start_pairing env pairing_id code request) w).1
perform env (confirm ids pairing_id owner_id code) w =
    (with_session (confirm_pairing env ids pairing_id owner_id code) w).1
perform env (revoke_device event_id device_id owner_id) w =
    (with_session (revoke env event_id device_id owner_id) w).1
perform env (stop owner_id reason actor_id event_id) w =
    (with_session (activate env owner_id reason actor_id event_id) w).1
perform env (resume owner_id released_by event_id) w =
    (with_session (release env owner_id released_by event_id) w).1
perform env publish_round w = (with_session (process_batch env) w).1
perform env schedule_round w = (with_session (maintain env) w).1
perform env (detect_round p) w = (detect_stale_device_presence p env.now w).1
perform env (on_delivered payload) w = (with_session (handle_delivered env payload) w).1
perform env (on_acknowledged payload) w = (with_session (handle_acknowledged env payload) w).1
perform env (on_progress payload) w = (with_session (handle_progress env payload) w).1
perform env (on_result payload) w = (with_session (handle_result env payload) w).1
perform env (read_stop owner_id) w = (with_session (is_active env owner_id) w).1

-- The ids that an operation draws are new: `uuid.uuid4()`.
abbrev pub DrawsFresh : Operation → Database → Type 0
DrawsFresh (create ids request owner_id) db = IsFresh ids db
DrawsFresh operation db = Unit {0}

-- Operations one after another, in any order and each with any time and any answers of the
-- services outside.
pub data Run (w : World) : World → Type 0 where
  here : Run w w
  next :
      {v : World}
      → Run w v
      → (env : Environment) (operation : Operation) → DrawsFresh operation v.database
      → Run w (perform env operation v)

abbrev pub empty : Database
empty = record {
  commands = [];
  tasks = [];
  state_events = [];
  approvals = [];
  devices = [];
  credentials = [];
  pairings = [];
  emergency_stops = [];
  outbox = [];
  audit = [];
}
