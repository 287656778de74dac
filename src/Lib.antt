-- ===== src/Lib.antt =====
-- go-folio: a leather-goods shop of three Go services. server/inventory-service keeps stock levels
-- and reservations in PostgreSQL behind gRPC; server/catalog-service keeps products and variants
-- behind HTTP; server/gateway-service serves the public and the admin API in front of both, checks
-- tokens, and streams stock events to browsers. The program scripts/seed-catalog uploads products
-- through the gateway.
--
-- Where each part is modelled:
--   Inventory.Domain, Db, Uuid, Repository, Service, Seed: server/inventory-service/internal, files
--     domain/domain.go, repository/repository.go, service/service.go and seed/seed.go. `Db` is the
--     pair of tables of migrations/001_create_tables.sql, and each SQL statement is a function on
--     it. A `Session` is the tables with what the environment decides: which statements fail and
--     what rand.Read returns. The methods of PostgresRepository and of pgTxRepository pass their
--     querier to the shared functions (queryStock is query_stock, and so on), which are modelled
--     once. `in_tx` is inTx and inTxReservation, `finish` their commit and rollback; `adjust`,
--     `reserve`, `release`, `get_stock` and `list` are the gRPC handlers, and `serve` dispatches a
--     call to its handler.
--   Gateway.Http, Auth, Config, Composite, Broker, Clients, Products, AdminInventory, AdminProducts,
--     Routes: server/gateway-service/internal, files server/response.go, middleware/auth.go,
--     config/config.go, runtime/composite.go, sse/broker.go (Broker.Threads has its goroutines step
--     by step), clients/inventory.go and clients/catalog.go, server/products.go,
--     server/admin_inventory_handler.go, server/admin_products_handler.go and server/routes.go. A
--     handler takes the decoded request and returns the answer with the states of the services
--     behind it. `service_stub` is the generated client over the inventory service of this library,
--     so that a gateway handler runs against the tables, and `Routes.serve` is the router over all
--     of them. The catalog's handlers share the answers of Gateway.Http.
--   Catalog.Rows, Db, Store:
--     server/catalog-service/internal/repository/postgres_catalog_repository.go on the tables of
--     server/catalog-service/migrations. Db has a function for each SQL statement, Store the
--     functions on a querier and `postgres`, the Repository that the service runs on; Store.Abstract
--     is what the service promises of its products, a map with a step for each call, and Store.Pages
--     the two pages of projections and inventory records. A `Session` holds the tables, their state
--     at BEGIN, the faults, the clock and the sequences.
--   Catalog.Domain, Paging, Service, Handler, Handler.Sync: server/catalog-service/internal, files
--     domain/catalog.go and types.go, service/cursor.go and default_catalog_service.go,
--     handler/catalog_handler.go, and the page queries of repository/postgres_catalog_repository.go.
--     `Repository` is the role interfaces of repository/interfaces.go, an argument of the service,
--     and Service.Calls is its CatalogService but for the lists, which only read; `list_with` is
--     ListProductProjections and ListVariantInventory, which differ in their limits and in their
--     records.
--   Catalog.Seed: server/catalog-service/internal/seed/seed.go.
--   SeedCatalog.Client, Run: scripts/seed-catalog/main.go. `World` is Keycloak, the gateway, the
--     clock, the file system and the object store; `do_json` is doJSON, and `run` is main.
--   Strconv: the two conversions of Go's strconv that the handlers call.
--
-- Conventions and bounds. A Go integer is the integer that it stands for; an INTEGER column refuses
-- a value outside 32 bits (`shift`), and int32(delta) of the gateway is `to_int32`. Text is the
-- native String. The code has no loop without a bound from its data: the loops over rows, variants
-- and subscribers are structural recursions, but for doJSON of scripts/seed-catalog, which calls
-- itself once at most and is written out twice, and `follow`, a client that asks for page after
-- page: its fuel is the number of requests, and one more than the rows that are chosen is enough.
--
-- Parameters. The OIDC verifier (Auth.TokenVerifier), the gRPC stub (InventoryClient.Stub), the HTTP
-- transport and the JSON decoders (CatalogClient.Transport), the cursors' text (Paging.Codec), the
-- parser of times, the order of the database's collation, the environment variables, the router
-- (Gateway.Routes.Router), and the world of the seeding program (SeedCatalog.Client.World) are
-- arguments of the definitions; nothing is assumed of them but what a theorem states.
--
-- Assumed of PostgreSQL: transactions run one at a time, a transaction that is not committed leaves
-- no trace but the values drawn from sequences, a COMMIT that reports an error has had no effect,
-- the check of a NO ACTION reference runs before a cascade reaches a second table, and every text
-- can be stored. The text that a driver puts behind an error's prefix is dropped, and so are log
-- records and HTTP headers.
--
-- Not modelled: process start, the database connections, CORS, metrics, request logs and health
-- checks, the generated code in server/gen, the frames of the event stream, and the JavaScript
-- clients: they call libraries, or keep no state of their own.
pub mod Prelude
pub mod Strconv
pub mod Inventory
pub mod Catalog
pub mod Gateway
pub mod SeedCatalog
