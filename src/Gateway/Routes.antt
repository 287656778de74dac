-- ===== src/Gateway/Routes.antt =====
-- server/gateway-service/internal/server/routes.go: which handler a request reaches, and through which
-- middleware. The router is a parameter, and so is what it answers where no route matches, `fallback`.
-- An event stream is the subscription that it opens. CORS, which wraps the router, is left out.
pub mod Laws
pub mod Public
mod Tests
use go_folio.Prelude.{
  ℕ, ℤ, Bool, true, false, not, Option, none, some, List, [], ◌∷◌, String, ◌==◌, if◌then◌else◌, map,
  suc, zero,
}
use go_folio.Gateway.Http.{Body, error_body, payload, raw, no_body, Response, write_error}
use go_folio.Gateway.Auth.{Request, Verifier, require_auth, require_role}
use go_folio.Gateway.Broker.{Broker, subscribe}
use go_folio.Gateway.Clients.InventoryClient.{Stub}
use go_folio.Gateway.Clients.CatalogClient.{Transport, CatalogVariant}
use go_folio.Gateway.Products.{ProductResponse, list_public, get_by_slug}
use go_folio.Gateway.AdminProducts
use go_folio.Gateway.AdminProducts.{AdminProductResponse}
use go_folio.Gateway.AdminInventory
use go_folio.Gateway.AdminInventory.{InventoryItem, AdjustRequest, AdjustResponse}

pub data Verb : Type 0 where
  get post put patch delete : Verb

pub record Call : Type 0 where
  pub verb : Verb
  pub path : String
  pub request : Request
  pub body : String
  -- the clock, where a handler looks at it
  pub time : ℕ

pub data Answer : Type 0 where
  products : List ProductResponse → Answer
  product : ProductResponse → Answer
  admin_products : List AdminProductResponse → Answer
  catalog_variant : CatalogVariant → Answer
  items : List InventoryItem → Answer
  item : InventoryItem → Answer
  adjusted : AdjustResponse → Answer
  stream : ℕ → Answer

unfoldable pub body_as : {P : Type 0} → (P → Answer) → Body P → Body Answer
body_as f (error_body code message) = error_body code message
body_as f (payload p) = payload (f p)
body_as f (raw text) = raw text
body_as f no_body = no_body

unfoldable pub answer_as : {P : Type 0} → (P → Answer) → Response P → Response Answer
unfolding body_as
answer_as f r = record { status = r.status; body = body_as f r.body }

-- The router of go-chi: the mounted prefix that a path falls under, with the rest of the path; and the
-- place of the route that a method and a rest match among a group's methods and patterns, with the
-- values of its parameters.
pub record Router : Type 0 where
  pub mount : List String → String → Option (String × String)
  pub route : List (Verb × String) → Verb → String → Option (ℕ × List String)

abbrev pub first_param : List String → String
first_param [] = ""
first_param (p ∷ ps) = p

pub record Backends (S C : Type 0) : Type 0 where
  pub inventory : S
  pub catalog : C
  pub broker : Broker

-- What a handler makes of the states behind it; `none` is a panic.
abbrev pub Effect : Type 0 → Type 0 → Type 0
Effect S C = Backends S C → Option (Response Answer) × Backends S C

abbrev pub prefixes : List String
prefixes = "/public" ∷ "/admin" ∷ "/account" ∷ []

pub record Route (S C : Type 0) : Type 0 where
  pub verb : Verb
  pub pattern : String
  pub handler : Call → List String → Effect S C

unfoldable pub refuse : {S C : Type 0} → ℕ → String → String → Effect S C
refuse status code message w = (some (write_error status code message), w)

module _ {S C : Type 0} where
  abbrev pub of_both : {P : Type 0} → (P → Answer) → (S → C → Response P × S × C) → Effect S C
  of_both f run w =
      let (r, s, c) = run w.inventory w.catalog in
      (some (answer_as f r), record w { inventory = s; catalog = c })

  abbrev pub of_catalog : {P : Type 0} → (P → Answer) → (C → Response P × C) → Effect S C
  of_catalog f run w =
      let (r, c) = run w.catalog in (some (answer_as f r), record w { catalog = c })

  abbrev pub of_inventory : {P : Type 0} → (P → Answer) → (S → Response P × S) → Effect S C
  of_inventory f run w =
      let (r, s) = run w.inventory in (some (answer_as f r), record w { inventory = s })

  abbrev pub published :
      Option (Response AdjustResponse × Broker) × S
      → Backends S C
      → Option (Response Answer) × Backends S C
  published (none, s) w = (none, record w { inventory = s })
  published (some (r, b), s) w =
      (some (answer_as adjusted r), record w { inventory = s; broker = b })

  unfoldable pub stream_events : Effect S C
  unfolding subscribe
  stream_events w =
      let (b, channel) = subscribe w.broker in
      (some (record { status = 200; body = payload (stream channel) }), record w { broker = b })

module _ {S C : Type 0} (router : Router) (stub : Stub S) (http : Transport C) (threshold : ℤ)
    (decode : String → Option AdjustRequest) (fallback : Effect S C) where
  unfoldable pub public_routes : List (Route S C)
  unfolding list_public get_by_slug stream_events answer_as
  public_routes =
      record {
        verb = get;
        pattern = "/products";
        handler = λ c ps. of_both products (list_public stub threshold http);
      }
      ∷ record {
        verb = get;
        pattern = "/products/{slug}";
        handler = λ c ps. of_both product (get_by_slug stub threshold http (first_param ps));
      }
      ∷ record { verb = get; pattern = "/events"; handler = λ c ps. stream_events }
      ∷ []

  unfoldable pub admin_routes : List (Route S C)
  unfolding AdminProducts.list_products AdminProducts.create_product AdminProducts.update_product
      AdminProducts.delete_product AdminProducts.add_variant AdminInventory.list_stock
      AdminInventory.get_stock AdminInventory.adjust_stock stream_events answer_as
  admin_routes =
      record {
        verb = get;
        pattern = "/products";
        handler = λ c ps. of_both admin_products (AdminProducts.list_products http stub threshold);
      }
      ∷ record {
        verb = post;
        pattern = "/products";
        handler = λ c ps. of_catalog catalog_variant (AdminProducts.create_product http c.body);
      }
      ∷ record {
        verb = patch;
        pattern = "/products/{id}";
        handler = λ c ps.
            of_catalog catalog_variant (AdminProducts.update_product http (first_param ps) c.body);
      }
      ∷ record {
        verb = delete;
        pattern = "/products/{id}";
        handler =
            λ c ps. of_catalog catalog_variant (AdminProducts.delete_product http (first_param ps));
      }
      ∷ record {
        verb = post;
        pattern = "/products/{id}/variants";
        handler = λ c ps.
            of_both catalog_variant (AdminProducts.add_variant http stub (first_param ps) c.body);
      }
      ∷ record {
        verb = get;
        pattern = "/inventory";
        handler = λ c ps. of_inventory items (AdminInventory.list_stock stub threshold);
      }
      ∷ record {
        verb = get;
        pattern = "/inventory/{sku}";
        handler =
            λ c ps. of_inventory item (AdminInventory.get_stock stub threshold (first_param ps));
      }
      ∷ record {
        verb = put;
        pattern = "/inventory/{sku}";
        handler = λ c ps w.
            published
              (AdminInventory.adjust_stock stub threshold (first_param ps) (decode c.body) c.time
                w.inventory w.broker)
              w;
      }
      ∷ record { verb = get; pattern = "/events"; handler = λ c ps. stream_events }
      ∷ []

  -- The handler at a place.
  unfoldable pub nth_handler : List (Route S C) → ℕ → Call → List String → Effect S C
  nth_handler [] n c ps = fallback
  nth_handler (r ∷ rs) zero c ps = r.handler c ps
  nth_handler (r ∷ rs) (suc n) c ps = nth_handler rs n c ps

  unfoldable pub routed : List (Route S C) → Call → Option (ℕ × List String) → Effect S C
  unfolding nth_handler
  routed routes c none = fallback
  routed routes c (some (n, ps)) = nth_handler routes n c ps

  unfoldable pub dispatch : List (Route S C) → Call → String → Effect S C
  unfolding routed
  dispatch routes c rest =
      routed routes c
        (router.route (map (λ (r : Route S C). (r.verb, r.pattern)) routes) c.verb rest)

  -- The router under /account has no route: it answers as for an unknown path, before its middleware.
  unfoldable pub mounted : Verifier → Call → String → String → Effect S C
  unfolding dispatch public_routes admin_routes require_auth require_role refuse
  mounted v c prefix rest =
      if prefix == "/public"
      then dispatch public_routes c rest
      else if prefix == "/admin"
      then require_auth refuse v (require_role refuse v "admin" (λ _. dispatch admin_routes c rest))
          c.request
      else fallback

  unfoldable pub served : Verifier → Call → Option (String × String) → Effect S C
  unfolding mounted
  served v c none = fallback
  served v c (some (prefix, rest)) = mounted v c prefix rest

  unfoldable pub serve : Verifier → Call → Effect S C
  unfolding served
  serve v c = served v c (router.mount prefixes c.path)
