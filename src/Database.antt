-- ===== src/Database.antt =====
-- The state that the services share: the tables of the database, the calls made to the services
-- outside (the Valkey cache and NATS), and what those answer.
pub mod Session
pub mod Keeps
pub mod Atomic
pub mod Leads
use veyaan_core_backend.Prelude.{ℕ, String, Bool, Option, List}
use veyaan_core_backend.Python.{Json, Dict, Error}
use veyaan_core_backend.Command.Model.{Command, Task, CommandStateEvent}
use veyaan_core_backend.Approval.Model.{Approval}
use veyaan_core_backend.Device.Model.{Device, DeviceCredential, PairingRequest}
use veyaan_core_backend.EmergencyStop.Model.{EmergencyStop, AuditLog}
use veyaan_core_backend.Outbox.Model.{OutboxEvent, Subject}

-- The tables. Rows stand in the order in which they were created.
pub record Database : Type 0 where
  pub commands : List Command
  pub tasks : List Task
  pub state_events : List CommandStateEvent
  pub approvals : List Approval
  pub devices : List Device
  pub credentials : List DeviceCredential
  pub pairings : List PairingRequest
  pub emergency_stops : List EmergencyStop
  pub outbox : List OutboxEvent
  pub audit : List AuditLog

-- A request to Valkey or NATS. `cache_set` and `cache_delete` write the key
-- `emergency_stop:<owner>`: the owner, the fields `active` and `activated_at`, and the TTL.
pub data Call : Type 0 where
  cache_set : ℕ → Bool → Option ℕ → ℕ → Call
  cache_delete : ℕ → Call
  publish : Subject → Dict → ℕ → Call

-- The decoded value of the key `emergency_stop:<owner>`: a `dict`, with its `active` if it has
-- one, or some other value, with its truth.
pub data Cached : Type 0 where
  entry : Option Bool → Cached
  other : Bool → Cached

-- `logger.info`, `logger.warning`, and `logger.exception` or `logger.error`.
pub data LogLevel : Type 0 where
  info warning error : LogLevel

-- What an operation finds outside the program: the time (one reading for each operation), the hash
-- function, the texts of a UUID and of an exception, whether a text column that was loaded is an enumeration member (it has `.value`, as
-- the test doubles have) or a plain text, the verdict of the pydantic schema of a command type,
-- whether a worker's logger takes a call with keyword arguments at a level (a structlog logger does;
-- one of the standard `logging` raises TypeError at the levels that are enabled), and the answers of Valkey and NATS, after the calls made so far.
pub record Environment : Type 0 where
  pub now : ℕ
  pub sha256 : String → String
  pub uuid_text : ℕ → String
  pub error_text : Error → String
  pub loads_enum : Bool
  pub validates : String → Json → Bool
  pub logs : LogLevel → Bool
  pub cached : List Call → ℕ → Option Cached
  pub publish_error : List Call → ℕ → Option String

-- What the world outside keeps between two operations.
pub record World : Type 0 where
  pub database : Database
  pub calls : List Call
