-- ===== src/Gateway/Clients/InventoryClient.antt =====
-- server/gateway-service/internal/clients/inventory.go over the generated stub, and the stub that the
-- inventory service answers.
use go_folio.Prelude.{ℤ, pos, List, [], map, String, Result, ok, err, to_int32, map_err}
use go_folio.Inventory.Domain.{Stock}
use go_folio.Inventory.Repository.{Session}
use go_folio.Inventory.Service
use go_folio.Inventory.Service.{Status, Response, stock_levels, adjusted}

-- `status.Code(err)`, as far as the gateway looks.
pub data GrpcCode : Type 0 where
  not_found failed_precondition other : GrpcCode

-- The stub of the generated client over a service with the states `S`.
pub record Stub (S : Type 0) : Type 0 where
  pub get : String → S → Result GrpcCode Stock × S
  pub list : S → Result GrpcCode (List Stock) × S
  -- the response has the SKU and the available level
  pub adjust : (sku : String) (delta : ℤ) (reason : String) → S → Result GrpcCode (String × ℤ) × S

pub record StockInfo : Type 0 where
  pub sku : String
  pub available : ℤ
  pub reserved : ℤ

abbrev pub map_ok {ℓ κ υ} :
    {E : Type ℓ} {A : Type κ} {B : Type υ} → (A → B) → Result E A → Result E B
map_ok f (ok a) = ok (f a)
map_ok f (err e) = err e

abbrev stock_info : Stock → StockInfo
stock_info r = record { sku = r.sku; available = r.available; reserved = r.reserved }

module _ {S : Type 0} (stub : Stub S) where
  unfoldable pub get_stock : String → S → Result GrpcCode StockInfo × S
  get_stock sku s = let (r, s') = stub.get sku s in (map_ok stock_info r, s')

  unfoldable pub list_stock : S → Result GrpcCode (List StockInfo) × S
  list_stock s = let (r, s') = stub.list s in (map_ok (map stock_info) r, s')

  -- The request carries `int32(delta)`; the response has no reserved count.
  unfoldable pub adjust_stock : String → ℤ → String → S → Result GrpcCode StockInfo × S
  adjust_stock sku delta reason s =
      let (r, s') = stub.adjust sku (to_int32 delta) reason s in
      (map_ok (λ x. record { sku = x.0; available = x.1; reserved = pos 0 }) r, s')

  unfoldable pub seed_sku : String → S → Result GrpcCode (Unit {0}) × S
  seed_sku sku s =
      let (r, s') = stub.adjust sku (pos 0) "saga: variant created" s in (map_ok (λ _. tt) r, s')

-- The service's status as the client sees it.
abbrev pub grpc_code : Service.Code → GrpcCode
grpc_code Service.not_found = not_found
grpc_code Service.failed_precondition = failed_precondition
grpc_code Service.internal = other

abbrev to_stock : Response → Stock
to_stock (stock_levels sku a r) = record { sku = sku; available = a; reserved = r }
to_stock _ = record { sku = ""; available = pos 0; reserved = pos 0 }

abbrev to_level : Response → String × ℤ
to_level (adjusted sku available) = (sku, available)
to_level _ = ("", pos 0)

abbrev to_rows : Response → List Stock
to_rows (Service.items rows) = rows
to_rows _ = []

-- The stub over the inventory service of this library.
abbrev pub service_stub : (List Stock → List Stock) → Stub Session
service_stub by_sku = record {
  get = λ sku s.
      let (r, s') = Service.get_stock sku s in
      (map_err (λ (e : Status). grpc_code e.code) (map_ok to_stock r), s');
  list = λ s.
      let (r, s') = Service.list by_sku s in
      (map_err (λ (e : Status). grpc_code e.code) (map_ok to_rows r), s');
  adjust = λ sku delta reason s.
      let (r, s') = Service.adjust sku delta s in
      (map_err (λ (e : Status). grpc_code e.code) (map_ok to_level r), s');
}
