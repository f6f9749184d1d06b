-- ===== src/Gateway.antt =====
-- app/websocket: the gateway that the devices connect to.
pub mod Messages
pub mod Connections
pub mod Delivery
pub mod Handler
pub mod Authentication
pub mod Endpoint
