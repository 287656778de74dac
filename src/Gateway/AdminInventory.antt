-- ===== src/Gateway/AdminInventory.antt =====
-- server/gateway-service/internal/server/admin_inventory_handler.go: the stock routes of the admin API,
-- and the event that an adjustment publishes.
pub mod Laws
use mathlib.Core.Option
use go_folio.Prelude.{
  ℕ, ℤ, pos, eqb_ℤ, leb_ℤ, none, some, List, map, String, Result, ok, err, to_int32, if◌then◌else◌,
}
use go_folio.Gateway.Http.{Response, write_json, write_error}
use go_folio.Gateway.Broker.{StockEvent, Broker, publish}
use go_folio.Gateway.Products.{derive_stock_status}
use go_folio.Gateway.Clients.InventoryClient
use go_folio.Gateway.Clients.InventoryClient.{
  Stub, GrpcCode, not_found, failed_precondition, other, StockInfo,
}

pub record InventoryItem : Type 0 where
  pub sku : String
  pub available : ℤ
  pub reserved : ℤ
  pub status : String

-- The decoder gives a `delta` of 64 bits, an `int`, and reports any other number as an error.
pub record AdjustRequest : Type 0 where
  pub delta : ℤ
  pub reason : String

pub record AdjustResponse : Type 0 where
  pub sku : String
  pub available : ℤ
  pub status : String

unfoldable pub derive_event_type : ℤ → ℤ → String
derive_event_type available threshold =
    if eqb_ℤ available (pos 0)
    then "stock.out"
    else if leb_ℤ available threshold
    then "stock.low"
    else "stock.updated"

unfoldable pub item : ℤ → StockInfo → InventoryItem
item threshold i = record {
  sku = i.sku;
  available = i.available;
  reserved = i.reserved;
  status = derive_stock_status i.available threshold;
}

unfoldable pub listed_items : ℤ → Result GrpcCode (List StockInfo) → Response (List InventoryItem)
unfolding item
listed_items threshold (err _) = write_error 502 "UPSTREAM_ERROR" "failed to fetch stock"
listed_items threshold (ok items) = write_json 200 (map (item threshold) items)

unfoldable pub one_item : ℤ → Result GrpcCode StockInfo → Response InventoryItem
unfolding item
one_item threshold (err not_found) = write_error 404 "NOT_FOUND" "sku not found"
one_item threshold (err _) = write_error 502 "UPSTREAM_ERROR" "failed to fetch stock"
one_item threshold (ok stock) = write_json 200 (item threshold stock)

-- The event of an adjustment that left this stock, under the SKU of the route.
unfoldable pub stock_event : ℤ → String → StockInfo → ℕ → StockEvent
unfolding derive_event_type
stock_event threshold sku stock now = record {
  event_type = derive_event_type stock.available threshold;
  sku = sku;
  available = to_int32 stock.available;
  reserved = pos 0;
  status = derive_stock_status stock.available threshold;
  occurred_at = now;
}

unfoldable pub refused : GrpcCode → Response AdjustResponse
refused not_found = write_error 404 "NOT_FOUND" "sku not found"
refused failed_precondition = write_error 422 "INSUFFICIENT_STOCK" "insufficient stock"
refused other = write_error 502 "UPSTREAM_ERROR" "failed to adjust stock"

unfoldable pub accepted : ℤ → StockInfo → Response AdjustResponse
accepted threshold stock = write_json 200 (record {
  sku = stock.sku;
  available = stock.available;
  status = derive_stock_status stock.available threshold;
})

-- Behind the call of the service; `none` where publishing panics.
unfoldable pub announce :
    ℤ
    → String
    → ℕ
    → Result GrpcCode StockInfo
    → Broker
    → Option.Option (Response AdjustResponse × Broker)
unfolding refused accepted stock_event
announce threshold sku now (err code) b = some (refused code, b)
announce threshold sku now (ok stock) b =
    Option.map (λ b'. (accepted threshold stock, b'))
      (publish (stock_event threshold sku stock now) b)

module _ {S : Type 0} (stub : Stub S) (threshold : ℤ) where
  unfoldable pub list_stock : S → Response (List InventoryItem) × S
  unfolding listed_items
  list_stock s = let (r, s') = InventoryClient.list_stock stub s in (listed_items threshold r, s')

  unfoldable pub get_stock : String → S → Response InventoryItem × S
  unfolding one_item
  get_stock sku s = let (r, s') = InventoryClient.get_stock stub sku s in (one_item threshold r, s')

  -- The body is what JSON decoding made of it; `now` is the clock.
  unfoldable pub adjust_stock :
      String
      → Option.Option AdjustRequest
      → ℕ
      → S
      → Broker
      → Option.Option (Response AdjustResponse × Broker) × S
  unfolding announce
  adjust_stock sku none now s b =
      (some (write_error 400 "INVALID_BODY" "invalid request body", b), s)
  adjust_stock sku (some req) now s b =
      let (r, s') = InventoryClient.adjust_stock stub sku req.delta req.reason s in
      (announce threshold sku now r b, s')
