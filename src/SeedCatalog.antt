-- ===== src/SeedCatalog.antt =====
-- scripts/seed-catalog/main.go: the program that uploads a directory of products to the gateway.
pub mod Client
pub mod Run
mod Tests
