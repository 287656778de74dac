-- ===== src/Gateway/Routes/Public.antt =====
-- The public routes over the inventory service: they leave the stock.
use go_folio.Prelude.{
  zero, suc, map, All, ◌≡◌, refl, sym, ap, ◌∙◌, subst, ℤ, Option, none, some, List, [], ◌∷◌, String,
  Result, ok, err, ℕ,
}
use go_folio.Inventory.Repository.{Session}
use go_folio.Inventory.Domain.{Stock}
use go_folio.Inventory.Service.Invariant.{get_stock-db}
use go_folio.Gateway.Auth.{Verifier}
use go_folio.Gateway.Clients.InventoryClient.{Stub, service_stub, get_stock}
use go_folio.Gateway.Clients.CatalogClient.{
  Transport, CatalogVariant, CatalogProduct, CatalogProjection, CatalogErr, list_products,
  get_product_by_slug, not_found,
}
use go_folio.Gateway.Products.{
  VariantResponse, ProductResponse, product_response, fetch_stock, hydrate, hydrate_all, listed,
  one_product, list_public, get_by_slug,
}
use go_folio.Gateway.AdminInventory.{AdjustRequest}
use go_folio.Gateway.Routes.{
  Call, Backends, Effect, Route, public_routes, dispatch, Router, prefixes, nth_handler, routed,
  first_param, mounted, served, serve, stream_events,
}

module _ (by_sku : List Stock → List Stock) (threshold : ℤ) where
  abbrev stub : Stub Session
  stub = service_stub by_sku

  fetch_stock-db : (sku : String) (s : Session) → (fetch_stock stub threshold sku s).1.db ≡ s.db
  unfolding fetch_stock get_stock
  fetch_stock-db sku s = get_stock-db sku s

  hydrate-db : (vs : List CatalogVariant) (s : Session) → (hydrate stub threshold vs s).1.db ≡ s.db
  unfolding hydrate
  hydrate-db [] s = refl
  hydrate-db (v ∷ vs) s =
      hydrate-db vs (fetch_stock stub threshold v.sku s).1 ∙ fetch_stock-db v.sku s

  hydrate_all-db :
      (build : CatalogProduct → List VariantResponse → ProductResponse)
      (ps : List CatalogProjection) (s : Session)
      → (hydrate_all stub threshold build ps s).1.db ≡ s.db
  unfolding hydrate_all
  hydrate_all-db build [] s = refl
  hydrate_all-db build (p ∷ ps) s =
      hydrate_all-db build ps (hydrate stub threshold p.variants s).1 ∙ hydrate-db p.variants s

  listed-db :
      (build : CatalogProduct → List VariantResponse → ProductResponse)
      (r : Result CatalogErr (List CatalogProjection)) (s : Session)
      → (listed stub threshold build r s).1.db ≡ s.db
  unfolding listed
  listed-db build (err e) s = refl
  listed-db build (ok ps) s = hydrate_all-db build ps s

  one_product-db :
      (r : Result CatalogErr CatalogProjection) (s : Session)
      → (one_product stub threshold r s).1.db ≡ s.db
  unfolding one_product
  one_product-db (err not_found) s = refl
  one_product-db (err _) s = refl
  one_product-db (ok p) s = hydrate-db p.variants s

  module _ {C : Type 0} (router : Router) (http : Transport C)
      (decode : String → Option AdjustRequest) (fallback : Effect Session C)
      (quiet : (w : Backends Session C) → (fallback w).1 ≡ w) where
    abbrev IsQuiet : Effect Session C → Type 0
    IsQuiet f = (w : Backends Session C) → (f w).1.inventory.db ≡ w.inventory.db

    nth-IsQuiet :
        (routes : List (Route Session C)) (n : ℕ) (c : Call) (ps : List String)
        → All (λ (r : Route Session C). (qs : List String) → IsQuiet (r.handler c qs)) routes
        → IsQuiet (nth_handler router stub http threshold decode fallback routes n c ps)
    unfolding nth_handler
    nth-IsQuiet [] n c ps h w = ap (λ (x : Backends Session C). x.inventory.db) (quiet w)
    nth-IsQuiet (r ∷ rs) zero c ps h w = h.0 ps w
    nth-IsQuiet (r ∷ rs) (suc n) c ps h w = nth-IsQuiet rs n c ps h.1 w

    routed-IsQuiet :
        (routes : List (Route Session C)) (c : Call) (place : Option (ℕ × List String))
        → All (λ (r : Route Session C). (qs : List String) → IsQuiet (r.handler c qs)) routes
        → IsQuiet (routed router stub http threshold decode fallback routes c place)
    unfolding routed
    routed-IsQuiet routes c none h w = ap (λ (x : Backends Session C). x.inventory.db) (quiet w)
    routed-IsQuiet routes c (some (n, ps)) h w = nth-IsQuiet routes n c ps h w

    public-IsQuiet :
        (c : Call) (rest : String)
        → IsQuiet (
            dispatch router stub http threshold decode fallback
              (public_routes router stub http threshold decode fallback)
              c
              rest)
    unfolding dispatch public_routes list_public get_by_slug stream_events
    public-IsQuiet c rest w =
        let routes = public_routes router stub http threshold decode fallback in
        routed-IsQuiet routes c
          (router.route (map (λ (r : Route Session C). (r.verb, r.pattern)) routes) c.verb rest)
          (
            λ qs x. listed-db product_response (list_products http x.catalog).0 x.inventory,
            (
              λ qs x.
                  one_product-db (get_product_by_slug http (first_param qs) x.catalog).0
                    x.inventory,
              (λ qs x. refl, tt),
            ),
          )
          w

    -- Over the inventory service, no request under /public changes a stock level or a reservation,
    -- whatever the catalog answers and whatever statements fail, if the answer to a path that no route
    -- matches leaves the states.
    pub serve_public-db :
        (v : Verifier) (c : Call) (rest : String) (w : Backends Session C)
        → router.mount prefixes c.path ≡ some ("/public", rest)
        → (serve router stub http threshold decode fallback v c w).1.inventory.db ≡ w.inventory.db
    unfolding serve served mounted
    serve_public-db v c rest w e =
        subst
          (λ place.
            (served router stub http threshold decode fallback v c place w).1.inventory.db
            ≡ w.inventory.db)
          (sym e) (public-IsQuiet c rest w)
