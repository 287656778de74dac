-- ===== src/Gateway/Clients.antt =====
-- server/gateway-service/internal/clients: the gateway's view of the two services. The generated
-- gRPC stub and the HTTP client are parameters, as are JSON decoding and `url.PathEscape`; each call
-- passes on the state of the service behind it.
pub mod InventoryClient
pub mod CatalogClient
