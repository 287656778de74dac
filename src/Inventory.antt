-- ===== src/Inventory.antt =====
-- server/inventory-service: stock levels and reservations.
pub mod Domain
pub mod Db
pub mod Uuid
pub mod Repository
pub mod Accounts
pub mod Levels
pub mod Service
pub mod Seed
mod Tests
