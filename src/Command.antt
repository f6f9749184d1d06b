-- ===== src/Command.antt =====
-- app/commands: the rows, the state machine, and the service.
pub mod Tasks
pub mod Queries
pub mod Model
pub mod StateMachine
pub mod Registry
pub mod History
pub mod Service
pub mod Lifecycle
