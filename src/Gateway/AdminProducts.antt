-- ===== src/Gateway/AdminProducts.antt =====
-- server/gateway-service/internal/server/admin_products_handler.go: the catalog routes of the admin
-- API, and the saga that creates a variant in both services. The request's body is its text, and a
-- log record is left out.
pub mod Laws
use Prim.Native.String
use go_folio.Gateway.Clients.CatalogClient
use go_folio.Gateway.Clients.CatalogClient.{
  Transport, Method, get, post, patch, del, proxy_request, delete_variant, CatalogErr,
  CatalogProduct, CatalogVariant, http_error,
}
use go_folio.Gateway.Products.{listed, VariantResponse}
use go_folio.Prelude.{
  ℤ, ℕ, Bool, List, Option, none, some, String, Result, ok, err, if◌then◌else◌, ◌==◌,
}
use go_folio.Gateway.Clients.InventoryClient.{Stub, seed_sku, GrpcCode}
use go_folio.Gateway.Http.{Response, write_error, raw, write_json, no_body}
use go_folio.Strconv.{parse_int64}

pub record AdminProductResponse : Type 0 where
  pub id : ℤ
  pub product_code : String
  pub title : String
  pub slug : String
  pub short_description : String
  pub department : String
  pub category : String
  pub primary_image_url : String
  pub active : Bool
  pub variants : List VariantResponse

unfoldable pub admin_product_response : CatalogProduct → List VariantResponse → AdminProductResponse
admin_product_response p variants = record {
  id = p.id;
  product_code = p.product_code;
  title = p.title;
  slug = p.slug;
  short_description = p.short_description;
  department = p.department;
  category = p.category;
  primary_image_url = p.primary_image_url;
  active = p.active;
  variants = variants;
}

-- The answer with the status and the body of another service; an empty body is left out.
unfoldable pub forwarded : Option (ℕ × String) → Response CatalogVariant
forwarded none = write_error 502 "UPSTREAM_ERROR" "upstream request failed"
forwarded (some (status, body)) = record {
  status = status;
  body = if body == "" then no_body else raw body;
}

-- The answer of the saga when the catalog did not create the variant.
unfoldable pub not_created : CatalogErr → Response CatalogVariant
not_created (http_error status body) = record { status = status; body = raw body }
not_created _ = write_error 502 "UPSTREAM_ERROR" "failed to create variant in catalog"

module _ {C : Type 0} (http : Transport C) where
  unfoldable pub proxy_to : Method → String → Option String → C → Response CatalogVariant × C
  unfolding forwarded proxy_request
  proxy_to method path body c =
      let (answer, c') = proxy_request http method path body c in (forwarded answer, c')

  unfoldable pub create_product : String → C → Response CatalogVariant × C
  unfolding proxy_to
  create_product body c = proxy_to post "/products" (some body) c

  unfoldable pub update_product : String → String → C → Response CatalogVariant × C
  unfolding proxy_to
  update_product id body c = proxy_to patch (String.◌++◌ "/products/" id) (some body) c

  unfoldable pub delete_product : String → C → Response CatalogVariant × C
  unfolding proxy_to
  delete_product id c = proxy_to del (String.◌++◌ "/products/" id) none c

  -- After the inventory was asked to register the SKU: a failure deletes the variant again, and the
  -- outcome of that is only logged.
  unfoldable pub seeded {ℓ} :
      {S : Type ℓ}
      → ℤ
      → CatalogVariant
      → Result GrpcCode (Unit {0}) × S
      → C
      → Response CatalogVariant × S × C
  unfolding delete_variant
  seeded product_id variant (ok _, s) c = (write_json 201 variant, s, c)
  seeded product_id variant (err _, s) c =
      let (_, c') = delete_variant http product_id variant.sku c in
      (write_error 503 "UPSTREAM_ERROR" "failed to register variant in inventory", s, c')

  module _ {S : Type 0} (stub : Stub S) where
    -- After the catalog was asked to create the variant.
    unfoldable pub after_create :
        ℤ → Result CatalogErr CatalogVariant × C → S → Response CatalogVariant × S × C
    unfolding not_created seeded seed_sku
    after_create product_id (err e, c) s = (not_created e, s, c)
    after_create product_id (ok variant, c) s =
        seeded product_id variant (seed_sku stub variant.sku s) c

    -- The saga, behind the parse of the product's id.
    unfoldable pub saga : Option ℤ → String → S → C → Response CatalogVariant × S × C
    unfolding after_create CatalogClient.add_variant
    saga none body s c = (write_error 400 "INVALID_REQUEST" "invalid product id", s, c)
    saga (some product_id) body s c =
        after_create product_id (CatalogClient.add_variant http product_id body c) s

    unfoldable pub add_variant : String → String → S → C → Response CatalogVariant × S × C
    unfolding saga parse_int64
    add_variant id body s c = saga (parse_int64 id) body s c

    module _ (threshold : ℤ) where
      unfoldable pub list_products : S → C → Response (List AdminProductResponse) × S × C
      unfolding listed admin_product_response
      list_products s c =
          let (r, c') = CatalogClient.list_products http c in
          let (answer, s') = listed stub threshold admin_product_response r s in (answer, s', c')
