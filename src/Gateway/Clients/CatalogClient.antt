-- ===== src/Gateway/Clients/CatalogClient.antt =====
-- server/gateway-service/internal/clients/catalog.go
use Prim.Native.String
use go_folio.Prelude.{
  ℕ, ℤ, Bool, ◌&&◌, not, eqb, Option, none, some, List, String, Result, ok, err, if◌then◌else◌,
  false, true,
}
use go_folio.Strconv.{format_int}

pub record CatalogVariant : Type 0 where
  pub sku : String
  pub color_name : String
  pub color_slug : String
  pub primary_color_hex : String
  pub retail_price : ℤ
  pub sale_price : Option ℤ
  pub currency : String
  pub active : Bool

pub record CatalogProduct : Type 0 where
  pub id : ℤ
  pub product_code : String
  pub title : String
  pub slug : String
  pub short_description : String
  pub department : String
  pub category : String
  pub primary_image_url : String
  pub active : Bool

pub record CatalogProjection : Type 0 where
  pub product : CatalogProduct
  pub variants : List CatalogVariant

-- ErrNotFound, *CatalogError, and any other error with its prefix.
pub data CatalogErr : Type 0 where
  not_found : CatalogErr
  http_error : (status : ℕ) (body : String) → CatalogErr
  failed : String → CatalogErr

pub data Method : Type 0 where
  get post patch del : Method

-- The HTTP client at the catalog's base URL: a status and a body, or a failure to build, send or read.
pub record Transport (C : Type 0) : Type 0 where
  pub fetch : Method → (path : String) → (body : Option String) → C → Option (ℕ × String) × C
  pub path_escape : String → String
  pub decode_projections : String → Option (List CatalogProjection)
  pub decode_projection : String → Option CatalogProjection
  pub decode_variant : String → Option CatalogVariant

unfoldable pub decoded {ℓ} : {A : Type ℓ} → String → Option A → Result CatalogErr A
decoded op none = err (failed op)
decoded op (some a) = ok a

-- What is made of an answer to a GET; 404 has its own error where the caller asks for it.
unfoldable pub read_answer {ℓ} :
    {A : Type ℓ} → String → Bool → (String → Option A) → Option (ℕ × String) → Result CatalogErr A
unfolding decoded
read_answer op missing decode none = err (failed op)
read_answer op missing decode (some (status, body)) =
    if missing && eqb status 404
    then err not_found
    else if not (eqb status 200)
    then err (failed op)
    else decoded op (decode body)

module _ {C : Type 0} (http : Transport C) where
  unfoldable pub list_products : C → Result CatalogErr (List CatalogProjection) × C
  unfolding read_answer
  list_products c =
      let (answer, c') = http.fetch get "/products" none c in
      (read_answer "list products" false http.decode_projections answer, c')

  unfoldable pub get_variant_by_sku : String → C → Result CatalogErr CatalogProjection × C
  unfolding read_answer
  get_variant_by_sku sku c =
      let (answer, c') =
        http.fetch get (String.◌++◌ "/products/variants/" (http.path_escape sku)) none c in
      (read_answer "get variant" true http.decode_projection answer, c')

  unfoldable pub get_product_by_slug : String → C → Result CatalogErr CatalogProjection × C
  unfolding read_answer
  get_product_by_slug slug c =
      let (answer, c') = http.fetch get (String.◌++◌ "/products/" (http.path_escape slug)) none c in
      (read_answer "get product by slug" true http.decode_projection answer, c')

  unfoldable pub proxy_request : Method → String → Option String → C → Option (ℕ × String) × C
  proxy_request method path body c = http.fetch method path body c

  unfoldable pub created : Option (ℕ × String) → Result CatalogErr CatalogVariant
  unfolding decoded
  created none = err (failed "add variant")
  created (some (status, body)) =
      if eqb status 201
      then decoded "decode add variant response" (http.decode_variant body)
      else err (http_error status body)

  unfoldable pub add_variant : ℤ → String → C → Result CatalogErr CatalogVariant × C
  unfolding proxy_request created format_int
  add_variant product_id body c =
      let path = String.◌++◌ "/products/" (String.◌++◌ (format_int product_id) "/variants") in
      let (answer, c') = proxy_request post path (some body) c in (created answer, c')

  unfoldable pub deleted : Option (ℕ × String) → Result CatalogErr (Unit {0})
  deleted none = err (failed "delete variant")
  deleted (some (status, _)) =
      if not (eqb status 204) && not (eqb status 200) then err (failed "delete variant") else ok tt

  abbrev pub variant_path : ℤ → String → String
  variant_path product_id sku =
      String.◌++◌ "/products/"
        (String.◌++◌ (format_int product_id) (String.◌++◌ "/variants/" (http.path_escape sku)))

  unfoldable pub delete_variant : ℤ → String → C → Result CatalogErr (Unit {0}) × C
  unfolding proxy_request deleted
  delete_variant product_id sku c =
      let (answer, c') = proxy_request del (variant_path product_id sku) none c in
      (deleted answer, c')
