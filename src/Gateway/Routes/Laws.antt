-- ===== src/Gateway/Routes/Laws.antt =====
-- What stands in front of the admin routes, and that the public routes leave the stock.
use go_folio.Prelude.{◌≡◌, ◌⊎◌, sym, subst, ℤ, Option, some, List, String}
use go_folio.Gateway.Auth.{Request, TokenVerifier}
use go_folio.Gateway.Auth.Laws.{IsAuthorized, protect-verified, protect-passes}
use go_folio.Gateway.Clients.InventoryClient.{Stub}
use go_folio.Gateway.Clients.CatalogClient.{Transport}
use go_folio.Gateway.AdminInventory.{AdjustRequest}
use go_folio.Gateway.Routes.{
  Router, prefixes, Call, Effect, refuse, admin_routes, dispatch, mounted, served, serve,
}

module _ {S C : Type 0} (router : Router) (stub : Stub S) (http : Transport C) (threshold : ℤ)
    (decode : String → Option AdjustRequest) (fallback : Effect S C) (v : TokenVerifier) where
  abbrev pub IsGuarded : Call → String → Effect S C → Type 0
  IsGuarded c rest out =
      let admitted =
        dispatch router stub http threshold decode fallback
          (admin_routes router stub http threshold decode fallback) c rest in
      ((out ≡ refuse 401 "UNAUTHORIZED" "missing or invalid token")
        ⊎ (out ≡ refuse 403 "FORBIDDEN" "insufficient permissions")
        ⊎ ((roles : List String) × IsAuthorized v "admin" c.request roles × (out ≡ admitted)))
      × ((roles : List String) → IsAuthorized v "admin" c.request roles → out ≡ admitted)

  mounted-IsGuarded :
      (c : Call) (rest : String)
      → IsGuarded c rest
          (mounted router stub http threshold decode fallback (some v) c "/admin" rest)
  unfolding mounted
  mounted-IsGuarded c rest =
      let next = λ (r : Request).
        dispatch router stub http threshold decode fallback
          (admin_routes router stub http threshold decode fallback) c rest in
      (
        protect-verified refuse v "admin" next c.request,
        λ roles a. protect-passes refuse v "admin" next c.request roles a,
      )

  -- Where tokens are verified, each request under /admin, matched by a route or not, is answered 401 or
  -- 403 with every state behind the gateway as it was, or its token verifies and lists the role admin
  -- and the request is routed; and each whose token does so is routed.
  pub serve-IsGuarded :
      (c : Call) (rest : String)
      → router.mount prefixes c.path ≡ some ("/admin", rest)
      → IsGuarded c rest (serve router stub http threshold decode fallback (some v) c)
  unfolding serve served
  serve-IsGuarded c rest e =
      subst
        (λ place.
          IsGuarded c rest (served router stub http threshold decode fallback (some v) c place))
        (sym e) (mounted-IsGuarded c rest)
