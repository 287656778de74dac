-- ===== src/Catalog/Handler.antt =====
-- server/catalog-service/internal/handler/catalog_handler.go: the routes of products and variants. A
-- body is what JSON decoding made of it. The answers have the shape of the gateway's.
pub mod Laws
pub mod Sync
use go_folio.Prelude.{
  ℕ, ℤ, pos, leb_ℤ, Bool, true, false, Option, none, some, List, [], ◌∷◌, String, ◌==◌, ◌||◌,
  Result, ok, err, if◌then◌else◌,
}
use go_folio.Strconv.{parse_int64}
use go_folio.Gateway.Http.{Response, write_json, write_error, no_body}
use go_folio.Catalog.Domain.{Product, ProductVariant, ProductImage, ProductProjection}
use go_folio.Catalog.Service
use go_folio.Catalog.Service.{
  Repository, ServiceErr, ProductUpdate, product_missing, variant_missing, invalid_product,
  product_conflict, invalid_variant, variant_conflict,
}

pub record CreateProductRequest : Type 0 where
  pub product_code : String
  pub title : String
  pub slug : String
  pub short_description : String
  pub department : String
  pub category : String
  pub active : Bool

pub record CreateVariantRequest : Type 0 where
  pub sku : String
  pub color_name : String
  pub color_slug : String
  pub primary_color_hex : String
  pub retail_price_cents : Option ℤ
  pub currency : String
  pub active : Bool

-- A positive id, or the answer 400.
unfoldable pub parse_id_param : String → Option ℤ
unfolding parse_int64
parse_id_param raw = elim (parse_int64 raw) [
  | none ↦ none
  | some id ↦ if leb_ℤ id (pos 0) then none else some id
]

-- The product that a request describes; the other fields are Go's zero values.
unfoldable pub new_product : CreateProductRequest → Product
new_product req = record {
  id = pos 0;
  product_code = req.product_code;
  external_product_id = "";
  title = req.title;
  slug = req.slug;
  short_description = req.short_description;
  description = "";
  additional_info = "";
  department = req.department;
  category = req.category;
  subcategory = "";
  tags = [];
  base_sku = "";
  primary_image_url = "";
  active = req.active;
  created_at = 0;
  updated_at = 0;
  last_synced_at = none;
}

unfoldable pub new_variant : ℤ → CreateVariantRequest → ℤ → ProductVariant
new_variant product_id req cents = record {
  id = pos 0;
  product_id = product_id;
  sku = req.sku;
  external_variant_id = "";
  color_slug = req.color_slug;
  color_name = req.color_name;
  primary_color_name = "";
  secondary_color_name = "";
  primary_color_hex = req.primary_color_hex;
  secondary_color_hex = "";
  retail_price = cents;
  sale_price = none;
  currency = req.currency;
  stock_quantity = pos 0;
  stock_status = "";
  warehouse_code = "";
  variant_image_url = "";
  active = req.active;
  created_at = 0;
  updated_at = 0;
  last_synced_at = none;
}

module _ {ℓ} {P : Type ℓ} where
  abbrev pub bad_request : String → Response P
  bad_request message = write_error 400 "INVALID_REQUEST" message

  abbrev pub internal_error : Response P
  internal_error = write_error 500 "INTERNAL_SERVER_ERROR" "internal server error"

  unfoldable pub handle_product_mutation_error : ServiceErr → Response P
  handle_product_mutation_error product_missing = write_error 404 "NOT_FOUND" "product not found"
  handle_product_mutation_error (invalid_product text) = bad_request text
  handle_product_mutation_error product_conflict =
      write_error 409 "CONFLICT" "product already exists"
  handle_product_mutation_error _ = internal_error

  unfoldable pub handle_variant_mutation_error : ServiceErr → Response P
  handle_variant_mutation_error variant_conflict =
      write_error 409 "CONFLICT" "variant already exists"
  handle_variant_mutation_error (invalid_variant text) = bad_request text
  handle_variant_mutation_error _ = internal_error

  -- The answer to a mutation: the record under this status, or the error's answer.
  unfoldable pub answered {κ} :
      {S : Type κ} → (ServiceErr → Response P) → ℕ → Result ServiceErr P × S → Response P × S
  answered refuse status (ok a, s) = (write_json status a, s)
  answered refuse status (err e, s) = (refuse e, s)

  unfoldable pub product_error : ServiceErr → Response P
  product_error product_missing = write_error 404 "NOT_FOUND" "product not found"
  product_error _ = internal_error

  unfoldable pub variant_error : ServiceErr → Response P
  variant_error variant_missing = write_error 404 "NOT_FOUND" "variant not found"
  variant_error _ = internal_error

module _ {S : Type 0} (repo : Repository S) where
  unfoldable pub create_product : Option CreateProductRequest → S → Response Product × S
  unfolding answered handle_product_mutation_error new_product Service.create_product
  create_product none s = (bad_request "invalid request body", s)
  create_product (some req) s =
      answered handle_product_mutation_error 201 (Service.create_product repo (new_product req) s)

  unfoldable pub update_with : Option ℤ → Option ProductUpdate → S → Response Product × S
  unfolding answered handle_product_mutation_error Service.update_product
  update_with none body s = (bad_request "id must be a positive integer", s)
  update_with (some id) none s = (bad_request "invalid request body", s)
  update_with (some id) (some u) s =
      answered handle_product_mutation_error 200 (Service.update_product repo id u s)

  unfoldable pub update_product : String → Option ProductUpdate → S → Response Product × S
  unfolding update_with parse_id_param
  update_product raw body s = update_with (parse_id_param raw) body s

  unfoldable pub gone : Result ServiceErr (Unit {0}) × S → Response Product × S
  unfolding handle_product_mutation_error
  gone (ok _, s) = (record { status = 204; body = no_body }, s)
  gone (err e, s) = (handle_product_mutation_error e, s)

  unfoldable pub delete_with : Option ℤ → S → Response Product × S
  unfolding gone Service.delete_product
  delete_with none s = (bad_request "id must be a positive integer", s)
  delete_with (some id) s = gone (Service.delete_product repo id s)

  unfoldable pub delete_product : String → S → Response Product × S
  unfolding delete_with parse_id_param
  delete_product raw s = delete_with (parse_id_param raw) s

  -- Behind the look-up of the product.
  unfoldable pub add_to :
      ℤ → CreateVariantRequest → ℤ → Result ServiceErr Product × S → Response ProductVariant × S
  unfolding product_error answered handle_variant_mutation_error new_variant
      Service.add_variant_to_product
  add_to id req cents (err e, s) = (product_error e, s)
  add_to id req cents (ok _, s) =
      answered handle_variant_mutation_error 201
        (Service.add_variant_to_product repo (new_variant id req cents) s)

  abbrev pub required : String
  required = "sku, retailPriceCents, and currency are required"

  unfoldable pub priced : ℤ → CreateVariantRequest → Option ℤ → S → Response ProductVariant × S
  unfolding add_to Service.get_product_by_id
  priced id req none s = (bad_request required, s)
  priced id req (some cents) s =
      if req.sku == "" || req.currency == ""
      then (bad_request required, s)
      else add_to id req cents (Service.get_product_by_id repo id s)

  unfoldable pub add_with : Option ℤ → Option CreateVariantRequest → S → Response ProductVariant × S
  unfolding priced
  add_with none body s = (bad_request "id must be a positive integer", s)
  add_with (some id) none s = (bad_request "invalid request body", s)
  add_with (some id) (some req) s = priced id req req.retail_price_cents s

  unfoldable pub add_variant :
      String → Option CreateVariantRequest → S → Response ProductVariant × S
  unfolding add_with parse_id_param
  add_variant raw body s = add_with (parse_id_param raw) body s

  -- `getVariantBySKU`
  unfoldable pub with_product :
      ProductVariant → Result ServiceErr Product × S → Response ProductProjection × S
  with_product v (err e, s) = (internal_error, s)
  with_product v (ok p, s) =
      (write_json 200 (record { product = p; variants = v ∷ []; images = [] }), s)

  unfoldable pub of_variant : Result ServiceErr ProductVariant × S → Response ProductProjection × S
  unfolding variant_error with_product Service.get_product_by_id
  of_variant (err e, s) = (variant_error e, s)
  of_variant (ok v, s) = with_product v (Service.get_product_by_id repo v.product_id s)

  unfoldable pub get_variant_by_sku : String → S → Response ProductProjection × S
  unfolding of_variant Service.get_variant_by_sku
  get_variant_by_sku sku s = of_variant (Service.get_variant_by_sku repo sku s)

  -- `getProductBySlug`
  unfoldable pub with_images :
      Product
      → List ProductVariant
      → Result Service.RepoErr (List ProductImage) × S
      → Response ProductProjection × S
  with_images p variants (err e, s) = (internal_error, s)
  with_images p variants (ok images, s) =
      (write_json 200 (record { product = p; variants = variants; images = images }), s)

  unfoldable pub with_variants :
      Product → Result Service.RepoErr (List ProductVariant) × S → Response ProductProjection × S
  unfolding with_images
  with_variants p (err e, s) = (internal_error, s)
  with_variants p (ok variants, s) = with_images p variants (repo.list_images_by_product_id p.id s)

  unfoldable pub of_product : Result ServiceErr Product × S → Response ProductProjection × S
  unfolding product_error with_variants
  of_product (err e, s) = (product_error e, s)
  of_product (ok p, s) = with_variants p (repo.list_variants_by_product_id p.id s)

  unfoldable pub get_product_by_slug : String → S → Response ProductProjection × S
  unfolding of_product Service.get_product_by_slug
  get_product_by_slug slug s = of_product (Service.get_product_by_slug repo slug s)
