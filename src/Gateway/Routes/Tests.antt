-- ===== src/Gateway/Routes/Tests.antt =====
-- The routes over an empty inventory and a catalog that does not answer, and witnesses.
use go_folio.Prelude.{◌≡◌, refl, ℕ, pos, none, some, List, [], ◌∷◌, String, ◌==◌, if◌then◌else◌}
use go_folio.Inventory.Repository.{Session}
use go_folio.Inventory.Domain.{Stock}
use go_folio.Gateway.Http.{raw}
use go_folio.Gateway.Auth.{TokenVerifier, strip_prefix}
use go_folio.Gateway.Broker.{new_broker}
use go_folio.Gateway.Clients.InventoryClient.{service_stub}
use go_folio.Gateway.Clients.CatalogClient.{Transport}
use go_folio.Gateway.Routes.{Router, Backends, Call, Effect, get, put, serve, refuse}
use go_folio.Gateway.Routes.Laws.{IsGuarded, serve-IsGuarded}
use go_folio.Gateway.Routes.Public.{serve_public-db}

abbrev silent : Transport ℕ
silent = record {
  fetch = λ method path body n. (none, n);
  path_escape = λ t. t;
  decode_projections = λ t. none;
  decode_projection = λ t. none;
  decode_variant = λ t. none;
}

abbrev tokens : TokenVerifier
tokens = record {
  IdToken = String;
  verify = λ t. if t == "good" then some t else none;
  claims = λ t. some ("viewer" ∷ []);
}

-- A router that knows the paths of the two calls.
abbrev router : Router
router = record {
  mount = λ prefixes path.
      if path == "/admin/inventory/BEL-1"
      then some ("/admin", "/inventory/BEL-1")
      else some ("/public", "/products");
  route = λ routes verb rest. if rest == "/products" then some (0, []) else some (7, "BEL-1" ∷ []);
}

abbrev fallback : Effect Session ℕ
fallback w = (some (record { status = 404; body = raw "404 page not found" }), w)

abbrev empty : Session
empty = record { db = record { stock = []; reservations = [] }; faults = []; entropy = [] }

abbrev backends : Backends Session ℕ
backends = record { inventory = empty; catalog = 0; broker = new_broker }

abbrev admin_call : Call
admin_call = record {
  verb = put;
  path = "/admin/inventory/BEL-1";
  request = record { authorization = "Bearer good"; context = none };
  body = "{}";
  time = 0;
}

abbrev public_call : Call
public_call = record {
  verb = get;
  path = "/public/products";
  request = record { authorization = ""; context = none };
  body = "";
  time = 0;
}

abbrev by_sku : List Stock → List Stock
by_sku rows = rows

-- A token without the role is refused.
refused :
    serve router (service_stub by_sku) silent (pos 5) (λ t. none) fallback (some tokens) admin_call
    ≡ refuse 403 "FORBIDDEN" "insufficient permissions"
unfolding serve strip_prefix
refused = refl

serve-IsGuarded_example :
    IsGuarded router
      (service_stub by_sku)
      silent
      (pos 5)
      (λ t. none)
      fallback
      tokens
      admin_call
      "/inventory/BEL-1"
      (serve router
        (service_stub by_sku)
        silent
        (pos 5)
        (λ t. none)
        fallback
        (some tokens)
        admin_call)
serve-IsGuarded_example =
    serve-IsGuarded router (service_stub by_sku) silent (pos 5) (λ t. none) fallback tokens
      admin_call "/inventory/BEL-1" refl

serve_public-db_example :
    (serve router
      (service_stub by_sku)
      silent
      (pos 5)
      (λ t. none)
      fallback
      (some tokens)
      public_call
      backends).1.inventory.db
    ≡ empty.db
serve_public-db_example =
    serve_public-db by_sku (pos 5) router silent (λ t. none) fallback (λ w. refl) (some tokens)
      public_call "/products" backends refl
