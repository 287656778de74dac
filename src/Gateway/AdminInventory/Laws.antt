-- ===== src/Gateway/AdminInventory/Laws.antt =====
-- What an adjustment publishes, and the width of the delta on its way to the service.
use mathlib.Core.Option
use go_folio.Prelude.{
  ◌≡◌, refl, ℕ, ℤ, pos, Result, ok, err, Option, some, none, String, if◌then◌else◌, ◌==◌, ◌+ℤ◌,
  to_int32, to_int32-wraps, inl, inr, ◌⊎◌, Bool-cases, eqb_ℤ, leb_ℤ, arith,
}
use go_folio.Gateway.Clients.InventoryClient
use go_folio.Gateway.Broker.{Broker, StockEvent}
use go_folio.Gateway.Broker.Laws.{IsLive, is_client, delivered, publish-delivers}
use go_folio.Gateway.Clients.InventoryClient.{
  Stub, GrpcCode, StockInfo, not_found, failed_precondition, other,
}
use go_folio.Gateway.AdminInventory.{
  announce, derive_event_type, adjust_stock, refused, AdjustRequest, AdjustResponse, accepted,
  stock_event,
}
use go_folio.Gateway.Http.{Response, payload}
use go_folio.Gateway.Products.{derive_stock_status}

-- The event's type that goes with a stock status.
abbrev pub type_of_status : String → String
type_of_status s =
    if s == "OUT_OF_STOCK"
    then "stock.out"
    else if s == "LOW_STOCK"
    then "stock.low"
    else "stock.updated"

-- For every level and threshold, the event's type and the stock status of an adjustment agree:
-- "stock.out" with OUT_OF_STOCK, "stock.low" with LOW_STOCK, "stock.updated" with IN_STOCK.
pub derive_event_type-status :
    (available threshold : ℤ)
    → derive_event_type available threshold
      ≡ type_of_status (derive_stock_status available threshold)
unfolding derive_event_type derive_stock_status
derive_event_type-status available threshold = elim (Bool-cases (eqb_ℤ available (pos 0))) [
  | inl out ↦ rw out
  | inr some_left ↦ elim (Bool-cases (leb_ℤ available threshold)) [
    | inl low ↦ rw (some_left, low)
    | inr plenty ↦ rw (some_left, plenty)
  ]
]

-- The event's type and the stock status of a level.
abbrev pub kinds_of_level : ℤ → ℤ → String × String
kinds_of_level available threshold =
    if eqb_ℤ available (pos 0)
    then ("stock.out", "OUT_OF_STOCK")
    else if leb_ℤ available threshold
    then ("stock.low", "LOW_STOCK")
    else ("stock.updated", "IN_STOCK")

abbrev pub level_event : ℤ → String → StockInfo → ℕ → StockEvent
level_event threshold sku stock now = record {
  event_type = (kinds_of_level stock.available threshold).0;
  sku = sku;
  available = to_int32 stock.available;
  reserved = pos 0;
  status = (kinds_of_level stock.available threshold).1;
  occurred_at = now;
}

abbrev pub level_answer : ℤ → StockInfo → Response AdjustResponse
level_answer threshold stock = record {
  status = 200;
  body = payload (record {
    sku = stock.sku;
    available = stock.available;
    status = (kinds_of_level stock.available threshold).1;
  });
}

abbrev pub status_of : GrpcCode → ℕ
status_of not_found = 404
status_of failed_precondition = 422
status_of other = 502

-- The outcomes of an adjustment, by what the service was asked and answered.
abbrev pub IsAnnounced :
    ℤ
    → String
    → ℕ
    → Broker
    → Option.Option (Result GrpcCode StockInfo)
    → Option.Option (Response AdjustResponse × Broker)
    → Type 0
IsAnnounced threshold sku now b asked r =
    ((out : Response AdjustResponse) × (r ≡ some (out, b))
      × (((asked ≡ none) × (out.status ≡ 400))
          ⊎ ((code : GrpcCode) × (asked ≡ some (err code)) × (out.status ≡ status_of code))))
    ⊎ ((stock : StockInfo) × (b' : Broker) × (asked ≡ some (ok stock))
        × (r ≡ some (level_answer threshold stock, b'))
        × (b'.clients ≡ b.clients)
        × ((k : ℕ)
            → b'.store k ≡ (
                if is_client k b.clients
                then delivered (level_event threshold sku stock now) (b.store k)
                else b.store k)))

derive_event_type-level :
    (available threshold : ℤ)
    → derive_event_type available threshold ≡ (kinds_of_level available threshold).0
unfolding derive_event_type
derive_event_type-level available threshold = ground arith

derive_stock_status-level :
    (available threshold : ℤ)
    → derive_stock_status available threshold ≡ (kinds_of_level available threshold).1
unfolding derive_stock_status
derive_stock_status-level available threshold = ground arith

stock_event-level :
    (threshold : ℤ) (sku : String) (stock : StockInfo) (now : ℕ)
    → stock_event threshold sku stock now ≡ level_event threshold sku stock now
unfolding stock_event
stock_event-level threshold sku stock now =
    rw
      (
        derive_event_type-level stock.available threshold,
        derive_stock_status-level stock.available threshold,
      )
      refl

accepted-level :
    (threshold : ℤ) (stock : StockInfo) → accepted threshold stock ≡ level_answer threshold stock
unfolding accepted
accepted-level threshold stock = rw (derive_stock_status-level stock.available threshold) refl

announce-cases :
    (threshold : ℤ) (sku : String) (now : ℕ) (b : Broker) (r : Result GrpcCode StockInfo)
    → IsLive b
    → IsAnnounced threshold sku now b (some r) (announce threshold sku now r b)
unfolding announce refused
announce-cases threshold sku now b (err not_found) live =
    inl (refused not_found, refl, inr (not_found, refl, refl))
announce-cases threshold sku now b (err failed_precondition) live =
    inl (refused failed_precondition, refl, inr (failed_precondition, refl, refl))
announce-cases threshold sku now b (err other) live =
    inl (refused other, refl, inr (other, refl, refl))
announce-cases threshold sku now b (ok stock) live =
    let (b', ran, clients, made, spec) =
      publish-delivers (level_event threshold sku stock now) b live in
    inr (
      stock,
      b',
      refl,
      rw (stock_event-level threshold sku stock now, ran, accepted-level threshold stock) refl,
      clients,
      spec,
    )

module _ {S : Type 0} (stub : Stub S) (threshold : ℤ) where
  -- What the service answered; a body that is not JSON does not reach it.
  abbrev pub service_answer :
      String → Option.Option AdjustRequest → S → Option.Option (Result GrpcCode StockInfo)
  service_answer sku none s = none
  service_answer sku (some req) s =
      some (InventoryClient.adjust_stock stub sku req.delta req.reason s).0

  -- An adjustment on a live broker never panics and ends in one of two ways. Where the service
  -- answers with a stock, the answer is 200 with that stock's SKU and level and the status of the
  -- level (out at 0, low up to the threshold), and each subscriber with room gets one event, under the
  -- SKU of the route, with that level cut to 32 bits, its type and status, no reserved units and the
  -- time; otherwise the answer is 400 for a body that does not decode, 404 for an unknown SKU, 422 for
  -- a refused level and 502 for any other error, and the broker is as it was.
  pub adjust_stock-IsAnnounced :
      (sku : String) (body : Option.Option AdjustRequest) (now : ℕ) (s : S) (b : Broker)
      → IsLive b
      → IsAnnounced threshold sku now b
          (service_answer sku body s)
          (adjust_stock stub threshold sku body now s b).0
  unfolding adjust_stock
  adjust_stock-IsAnnounced sku none now s b live = inl (_, refl, inl (refl, refl))
  adjust_stock-IsAnnounced sku (some req) now s b live =
      announce-cases threshold sku now b
        (InventoryClient.adjust_stock stub sku req.delta req.reason s).0 live

  -- A delta and the delta larger by 2 ^ 32 are one request to the service: the same answer, the same
  -- event and the same state, for every body and every service.
  pub adjust_stock-wraps :
      (sku reason : String) (delta : ℤ) (now : ℕ) (s : S) (b : Broker)
      → adjust_stock stub threshold sku
          (some (record { delta = delta +ℤ pos 4294967296; reason = reason }))
          now
          s
          b
        ≡ adjust_stock stub threshold sku (some (record { delta = delta; reason = reason })) now s b
  unfolding adjust_stock InventoryClient.adjust_stock
  adjust_stock-wraps sku reason delta now s b = rw (to_int32-wraps delta)
