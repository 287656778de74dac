-- ===== src/Catalog.antt =====
-- server/catalog-service: products and variants behind HTTP.
pub mod Rows
pub mod Domain
pub mod Db
pub mod Store
pub mod Seed
pub mod Paging
pub mod Service
pub mod Handler
mod Tests
