-- ===== src/Gateway.antt =====
-- server/gateway-service: the public and the admin API in front of the two services.
pub mod Http
pub mod Auth
pub mod Config
pub mod Composite
pub mod Broker
pub mod Clients
pub mod Products
pub mod AdminInventory
pub mod AdminProducts
pub mod Routes
mod Tests
