-- ===== src/EmergencyStop.antt =====
-- app/emergency_stop
pub mod Model
pub mod Service
