-- ===== src/Gateway/Products.antt =====
-- server/gateway-service/internal/server/products.go: products with live stock.
pub mod Laws
use go_folio.Prelude.{
  ℤ, pos, eqb_ℤ, leb_ℤ, Bool, List, [], ◌∷◌, String, Result, ok, err, if◌then◌else◌,
}
use go_folio.Gateway.Http.{Response, write_json, write_error}
use go_folio.Gateway.Clients.InventoryClient.{Stub, GrpcCode, StockInfo, get_stock}
use go_folio.Gateway.Clients.CatalogClient.{
  Transport, CatalogVariant, CatalogProduct, CatalogProjection, CatalogErr, not_found,
  list_products, get_product_by_slug,
}

pub record VariantStock : Type 0 where
  pub available : ℤ
  pub reserved : ℤ
  pub status : String

pub record VariantResponse : Type 0 where
  pub sku : String
  pub color_name : String
  pub color_slug : String
  pub primary_color_hex : String
  pub retail_price : ℤ
  pub currency : String
  pub stock : VariantStock
  pub active : Bool

pub record ProductResponse : Type 0 where
  pub id : ℤ
  pub product_code : String
  pub title : String
  pub slug : String
  pub department : String
  pub category : String
  pub primary_image_url : String
  pub active : Bool
  pub variants : List VariantResponse

unfoldable pub derive_stock_status : ℤ → ℤ → String
derive_stock_status available threshold =
    if eqb_ℤ available (pos 0)
    then "OUT_OF_STOCK"
    else if leb_ℤ available threshold
    then "LOW_STOCK"
    else "IN_STOCK"

-- An error of any kind reads as no stock.
unfoldable pub stock_or_none : ℤ → Result GrpcCode StockInfo → VariantStock
unfolding derive_stock_status
stock_or_none threshold (err _) = record {
  available = pos 0;
  reserved = pos 0;
  status = "OUT_OF_STOCK";
}
stock_or_none threshold (ok stock) = record {
  available = stock.available;
  reserved = stock.reserved;
  status = derive_stock_status stock.available threshold;
}

unfoldable pub variant_response : CatalogVariant → VariantStock → VariantResponse
variant_response v stock = record {
  sku = v.sku;
  color_name = v.color_name;
  color_slug = v.color_slug;
  primary_color_hex = v.primary_color_hex;
  retail_price = v.retail_price;
  currency = v.currency;
  stock = stock;
  active = v.active;
}

unfoldable pub product_response : CatalogProduct → List VariantResponse → ProductResponse
product_response p variants = record {
  id = p.id;
  product_code = p.product_code;
  title = p.title;
  slug = p.slug;
  department = p.department;
  category = p.category;
  primary_image_url = p.primary_image_url;
  active = p.active;
  variants = variants;
}

module _ {S : Type 0} (stub : Stub S) (threshold : ℤ) where
  unfoldable pub fetch_stock : String → S → VariantStock × S
  unfolding stock_or_none get_stock
  fetch_stock sku s = let (r, s') = get_stock stub sku s in (stock_or_none threshold r, s')

  -- The inner loop: each variant with its stock, asked for in order.
  unfoldable pub hydrate : List CatalogVariant → S → List VariantResponse × S
  unfolding fetch_stock variant_response
  hydrate [] s = ([], s)
  hydrate (v ∷ vs) s =
      let (stock, s') = fetch_stock v.sku s in
      let (rest, s'') = hydrate vs s' in (variant_response v stock ∷ rest, s'')

  unfoldable pub hydrate_all {ℓ} :
      {P : Type ℓ}
      → (CatalogProduct → List VariantResponse → P)
      → List CatalogProjection
      → S
      → List P × S
  unfolding hydrate
  hydrate_all build [] s = ([], s)
  hydrate_all build (p ∷ ps) s =
      let (variants, s') = hydrate p.variants s in
      let (rest, s'') = hydrate_all build ps s' in (build p.product variants ∷ rest, s'')

  -- The answer of a list route and the states behind it, once the catalog has answered.
  unfoldable pub listed {ℓ} :
      {P : Type ℓ}
      → (CatalogProduct → List VariantResponse → P)
      → Result CatalogErr (List CatalogProjection)
      → S
      → Response (List P) × S
  unfolding hydrate_all
  listed build (err _) s = (write_error 502 "UPSTREAM_ERROR" "failed to fetch products", s)
  listed build (ok projections) s =
      let (result, s') = hydrate_all build projections s in (write_json 200 result, s')

  unfoldable pub one_product :
      Result CatalogErr CatalogProjection → S → Response ProductResponse × S
  unfolding hydrate product_response
  one_product (err not_found) s = (write_error 404 "NOT_FOUND" "product not found", s)
  one_product (err _) s = (write_error 502 "UPSTREAM_ERROR" "failed to fetch product", s)
  one_product (ok proj) s =
      let (variants, s') = hydrate proj.variants s in
      (write_json 200 (product_response proj.product variants), s')

  module _ {C : Type 0} (http : Transport C) where
    -- `listProducts` of ProductsHandler
    unfoldable pub list_public : S → C → Response (List ProductResponse) × S × C
    unfolding listed
    list_public s c =
        let (r, c') = list_products http c in
        let (answer, s') = listed product_response r s in (answer, s', c')

    -- `getProductBySlug` of ProductsHandler
    unfoldable pub get_by_slug : String → S → C → Response ProductResponse × S × C
    unfolding one_product
    get_by_slug slug s c =
        let (r, c') = get_product_by_slug http slug c in
        let (answer, s') = one_product r s in (answer, s', c')
