-- ===== src/Lib.antt =====
-- The verification library of the VEYAAN core backend (app/): the life of a command, from the API
-- that creates it, through approval, the emergency stop, the outbox, the devices' messages and the
-- scheduler, to its final state.
--
-- The services and workers share the tables of one database. Each operation runs in a session
-- (app/database/session.py): it works on the tables, commits, and on an exception goes back to the
-- last commit. Sessions run one after another; the row locks of the code are not modelled. What is
-- outside the program (the time, random ids and codes, SHA-256, the pydantic parameter schemas, the
-- answers of Valkey and NATS) is a field of `Environment` or an argument of the operation. Times are
-- seconds, ids stand for UUIDs.
--
-- The parts:
--   Python: JSON values, `dict`s and the errors of app/api/errors.py.
--   Database, Database/Session: the tables, the calls to Valkey and NATS, and the session.
--   Database/Keeps, Leads, Atomic: rules for invariants of operations and for operations that raise.
--   Command/Model, Registry, StateMachine: app/commands/models.py, registry.py, state_machine.py.
--   Command/Service: create_command, cancel_command, approve_command, reject_command and
--     get_state_events of app/commands/service.py. Command/Tasks: its TaskService.
--   Approval: create_approval and decide_approval of app/approvals/service.py, and the repository;
--     Queries is list_approvals and the pages of its routes.py.
--   Device: start_pairing, confirm_pairing, list_devices and revoke_device of app/devices/service.py.
--   EmergencyStop: is_active, activate, release and _block_commands of
--     app/emergency_stop/service.py, with the audit rows of app/audit.
--   Audit: the query of app/audit/repository.py, and as its routes.py asks it. Audit/Trail,
--     System/Trail, System/Audited: what operations do to the log, and what it says of the stops.
--   Outbox: app/events/outbox.py, outbox_models.py and subjects.py.
--   Outbox/Backlog, Batches: how many rows still wait to be published, and what a batch takes of it.
--   Worker: process_batch and the loop of app/workers/outbox_publisher.py, the loop as a list of
--     rounds; the four handlers, their choice and the reply of app/workers/command_consumer.py; and
--     the tasks of app/workers/scheduler.py. What the publisher and the scheduler log is modelled,
--     since a logger that takes no keywords raises: `Environment.logs` says which calls return.
--   Gateway: app/websocket. Messages is protocol/messages.py and validator.py; Connections,
--     Delivery, Handler and Endpoint are gateway.py; Authentication is protocol/challenge.py and the
--     start of websocket_endpoint. The gateway reads the database of the services; its requests to
--     devices, Valkey and NATS are a log, and what those answer is a field of `Outside`.
--   Migrations: the trigger of migrations/versions/007_add_state_transition_constraints.py, by itself.
--   Pages: one page of a list. Command/Queries: those of app/commands/repository.py and
--     routes.py.
--   RateLimit: app/security/rate_limiter.py and rate_limit_check of app/cache/__init__.py.
--   Notification: app/notifications/service.py.
--   User: app/users and app/auth/dependencies.py, on a table of its own.
--   System: the operations as one step each, and their sequences. System/Histories, Coherence: the
--     invariants of the commands and of the cached emergency stop. System/Revocation, Reports: a
--     revocation from the service to the gateway, and a device's frame from the gateway to the
--     consumer.
--   Command/Lifecycle, Command/History: what operations may do to commands, and what the recorded
--     events say of the past.
--   Kept: the steps that operations share, as the interface `IsKept`. The modules Kept of the parts
--     are about every operation but the creation of a command and the changes of the emergency stop:
--     it keeps what these steps keep; System/Kept puts them together. The interface is filled in
--     EmergencyStop/Service/Lifecycle, its Cache/Agreement and Unchanged,
--     and in Audit/Trail.
--   Examples: the theorems at concrete inputs.
--
-- All loops of the code that are modelled run over lists, so no fuel is needed. The bounds are the
-- code's: 100 rows for a batch of the publisher and of the scheduler, 5 codes for a pairing, 5 frames
-- refused with a ProtocolError for a connection, and 1 MiB for a frame.
--
-- The trigger is not applied in `transition_command`. Where it refuses a move that the state machine
-- lets pass, the operation of the program raises and is rolled back: the operations here do more than
-- the program's then, and what holds of all their sequences is said of more than the program does.
--
-- Not modelled: the other routes (they call the operations that are modelled), the verification of
-- a token, metrics, the other logs, two sessions that run at the same time, and exceptions of a
-- WebSocket before a device is registered.
pub mod Prelude
pub mod Python
pub mod Pages
pub mod Command
pub mod Approval
pub mod Audit
pub mod Device
pub mod EmergencyStop
pub mod Outbox
pub mod Database
pub mod Worker
pub mod Gateway
pub mod Kept
pub mod Migrations
pub mod RateLimit
pub mod Notification
pub mod User
pub mod System
pub mod Examples
