-- ===== src/Gateway/Tests.antt =====
-- The theorems at a small shop: one token, one subscriber, and a catalog that knows one product.
use go_folio.Gateway.AdminProducts
use go_folio.Gateway.AdminInventory
use go_folio.Gateway.AdminInventory.Laws.{
  derive_event_type-status, adjust_stock-IsAnnounced, adjust_stock-wraps, IsAnnounced,
  type_of_status, service_answer,
}
use go_folio.Gateway.AdminProducts.Laws.{add_variant-IsSaga, add_variant-new_sku, IsSaga}
use go_folio.Gateway.Products.Laws.{listed-ShowsProduct, ShowsProduct, Pointwise}
use go_folio.Gateway.Auth.{Request, TokenVerifier, Handler, require_auth, require_role}
use go_folio.Gateway.Auth.Laws.{IsAnswered, protect-cases}
use go_folio.Gateway.Broker.{
  StockEvent, Broker, new_broker, subscribe, publish, unsubscribe, with_channel, try_send,
}
use go_folio.Gateway.Broker.Laws.{
  publish-delivers, IsLive, subscribe-IsLive, new_broker-IsLive, is_client, delivered,
}
use go_folio.Gateway.Broker.Threads.{
  Threads, with_turn, Reach, start, next, join, enter, send, exit, leave, Panic,
}
use go_folio.Gateway.Broker.Threads.Laws.{Reach-never_panics}
use go_folio.Gateway.Clients.CatalogClient
use go_folio.Gateway.Clients.CatalogClient.{
  Method, Transport, CatalogVariant, CatalogProduct, CatalogProjection,
}
use go_folio.Gateway.Clients.InventoryClient.{service_stub}
use go_folio.Prelude.{
  ◌≡◌, ◌∷◌, [], ok, some, none, pos, refl, List, ℕ, Option, true, String, ◌+ℤ◌, if◌then◌else◌, ◌+◌,
  ◌==◌, arith,
}
use go_folio.Strconv.{parse_int64, unsigned, non_negative, digits_from}
use go_folio.Inventory.Db.{find_stock}
use go_folio.Gateway.Http.{Response, write_json, write_error}
use go_folio.Gateway.AdminInventory.{AdjustRequest, derive_event_type}
use go_folio.Inventory.Repository.{Session}
use go_folio.Gateway.Products.{ProductResponse, derive_stock_status, listed, product_response}

-- One token is genuine, and it lists the role `admin`.
abbrev tokens : TokenVerifier
tokens = record {
  IdToken = String;
  verify = λ t. if t == "good" then some t else none;
  claims = λ t. some ("admin" ∷ []);
}

abbrev echo : Handler (Response (Option (List String)))
echo r = write_json 200 r.context

abbrev signed : Request
signed = record { authorization = "Bearer good"; context = none }

protect-cases_example : IsAnswered write_error "admin" echo (some tokens) signed (
    require_auth write_error
      (some tokens)
      (require_role write_error (some tokens) "admin" echo)
      signed)
protect-cases_example = protect-cases write_error "admin" echo (some tokens) signed

abbrev event : StockEvent
event = record {
  event_type = "stock.low";
  sku = "BAG-MSG-001";
  available = pos 3;
  reserved = pos 0;
  status = "LOW_STOCK";
  occurred_at = 17;
}

abbrev joined : Broker
joined = (subscribe new_broker).0

joined-IsLive : IsLive joined
joined-IsLive = subscribe-IsLive new_broker new_broker-IsLive

publish-delivers_example :
    (b' : Broker) × (publish event joined ≡ some b')
    × (b'.clients ≡ joined.clients)
    × (b'.made ≡ joined.made)
    × ((k : ℕ)
        → b'.store k ≡ (
            if is_client k joined.clients
            then delivered event (joined.store k)
            else joined.store k))
publish-delivers_example = publish-delivers event joined joined-IsLive

-- One subscriber, whose channel a publisher is about to reach.
abbrev one_subscriber : Threads
one_subscriber = record { broker = joined; turns = λ k. none; leaving = [] }

abbrev publishing : Threads
publishing = record one_subscriber {
  turns = with_turn 4 (some (event, 0 ∷ [])) one_subscriber.turns;
}

abbrev delivered_joined : Broker
delivered_joined = record joined {
  store = with_channel 0 (delivered event (joined.store 0)) joined.store;
}

-- The event is sent, the publisher leaves, and the subscriber is between Unlock and close.
abbrev unlocking : Threads
unlocking = record {
  broker = record delivered_joined { clients = [] };
  turns = with_turn 4 none (with_turn 4 (some (event, [])) publishing.turns);
  leaving = 0 ∷ [];
}

all_done : (k : ℕ) → unlocking.turns k ≡ none
all_done k = ground arith

unlocking-Reach : Reach unlocking
unfolding subscribe new_broker is_client unsubscribe try_send
unlocking-Reach =
    next
      (next
        (next (next (next start (join (λ k. refl))) (enter 4 event refl))
          (send 4 event 0 [] refl refl))
        (exit 4 event refl))
      (leave 0 all_done refl refl)

Reach-never_panics_example : Panic unlocking → ⊥
Reach-never_panics_example = Reach-never_panics unlocking unlocking-Reach

abbrev bag : CatalogVariant
bag = record {
  sku = "BAG-MSG-001";
  color_name = "Negro";
  color_slug = "negro";
  primary_color_hex = "#000000";
  retail_price = pos 129900;
  sale_price = none;
  currency = "CRC";
  active = true;
}

abbrev messenger : CatalogProduct
messenger = record {
  id = pos 7;
  product_code = "BM-07";
  title = "Messenger";
  slug = "messenger";
  short_description = "";
  department = "bags";
  category = "messenger";
  primary_image_url = "";
  active = true;
}

-- The tables of the inventory hold one other SKU; nothing fails.
abbrev stocked : Session
stocked = record {
  db = record {
    stock = record { sku = "BEL-CLB-001"; available = pos 4; reserved = pos 0 } ∷ [];
    reservations = [];
  };
  faults = [];
  entropy = [];
}

-- A catalog that creates every variant it is sent and has seen so many requests.
abbrev catalog : Transport ℕ
catalog = record {
  fetch = λ method path body n. (some (201, ""), n + 1);
  path_escape = λ s. s;
  decode_projections = λ text. none;
  decode_projection = λ text. none;
  decode_variant = λ text. some bag;
}

listed-ShowsProduct_example :
    let ps : List CatalogProjection = record { product = messenger; variants = bag ∷ [] } ∷ [] in
    let stub = service_stub (λ rows. rows) in
    (rs : List ProductResponse) × ((listed stub (pos 5) product_response (ok ps) stocked).0
      ≡ write_json 200 rs)
    × Pointwise (ShowsProduct stub (pos 5)) ps rs
listed-ShowsProduct_example =
    listed-ShowsProduct (service_stub (λ rows. rows)) (pos 5)
      (record { product = messenger; variants = bag ∷ [] } ∷ []) stocked

derive_event_type-status_example :
    derive_event_type (pos 3) (pos 5) ≡ type_of_status (derive_stock_status (pos 3) (pos 5))
derive_event_type-status_example = derive_event_type-status (pos 3) (pos 5)

abbrev add_four : AdjustRequest
add_four = record { delta = pos 4; reason = "delivery" }

adjust_stock-IsAnnounced_example :
    IsAnnounced
      (pos 5)
      "BEL-CLB-001"
      17
      joined
      (service_answer (service_stub (λ rows. rows)) (pos 5) "BEL-CLB-001" (some add_four) stocked)
      (AdminInventory.adjust_stock
        (service_stub (λ rows. rows))
        (pos 5)
        "BEL-CLB-001"
        (some add_four)
        17
        stocked
        joined).0
adjust_stock-IsAnnounced_example =
    adjust_stock-IsAnnounced (service_stub (λ rows. rows)) (pos 5) "BEL-CLB-001" (some add_four) 17
      stocked joined joined-IsLive

adjust_stock-wraps_example :
    AdminInventory.adjust_stock
      (service_stub (λ rows. rows))
      (pos 5)
      "BEL-CLB-001"
      (some (record { delta = pos 4 +ℤ pos 4294967296; reason = "delivery" }))
      17
      stocked
      joined
    ≡ AdminInventory.adjust_stock
        (service_stub (λ rows. rows))
        (pos 5)
        "BEL-CLB-001"
        (some add_four)
        17
        stocked
        joined
adjust_stock-wraps_example =
    adjust_stock-wraps (service_stub (λ rows. rows)) (pos 5) "BEL-CLB-001" "delivery" (pos 4) 17
      stocked joined

add_variant-IsSaga_example :
    IsSaga catalog
      (service_stub (λ rows. rows))
      "7"
      "{}"
      stocked
      0
      (AdminProducts.add_variant catalog (service_stub (λ rows. rows)) "7" "{}" stocked 0)
add_variant-IsSaga_example =
    add_variant-IsSaga catalog (service_stub (λ rows. rows)) "7" "{}" stocked 0

created-bag : CatalogClient.add_variant catalog (pos 7) "{}" 0 ≡ (ok bag, 1)
unfolding CatalogClient.add_variant CatalogClient.created CatalogClient.decoded
    CatalogClient.proxy_request
created-bag = refl

id-seven : parse_int64 "7" ≡ some (pos 7)
unfolding parse_int64 unsigned non_negative digits_from
id-seven = refl

add_variant-new_sku_example :
    AdminProducts.add_variant catalog (service_stub (λ rows. rows)) "7" "{}" stocked 0 ≡ (
      write_error 503 "UPSTREAM_ERROR" "failed to register variant in inventory",
      stocked,
      (CatalogClient.delete_variant catalog (pos 7) "BAG-MSG-001" 1).1,
    )
unfolding find_stock
add_variant-new_sku_example =
    add_variant-new_sku catalog (λ rows. rows) "7" "{}" (pos 7) bag stocked 0 1 id-seven created-bag
      refl refl
