-- ===== src/Catalog/Service.antt =====
-- server/catalog-service/internal/service/default_catalog_service.go, over the interfaces of
-- internal/repository/interfaces.go: the mutations with their transactions, and the reads by key.
pub mod Laws
pub mod Calls
use Prim.Native.String
use go_folio.Prelude.{
  ℤ, pos, ltb_ℤ, Bool, true, false, Option, none, some, List, String, ◌==◌, Result, ok, err,
}
use go_folio.Catalog.Domain.{
  Product, ProductVariant, ProductImage, validate_product, validate_variant, validate_image,
  is_below_zero, check,
}

-- internal/repository/errors.go
pub data RepoErr : Type 0 where
  product_not_found variant_not_found duplicate_sku duplicate_slug duplicate_product_code other :
      RepoErr

-- internal/service/errors.go; the invalid ones with the text of the rule behind the sentinel's.
pub data ServiceErr : Type 0 where
  invalid_product invalid_variant invalid_image : String → ServiceErr
  product_missing variant_missing product_conflict variant_conflict unexpected : ServiceErr

-- The role interfaces over a database with the states `S`. `begin` and `commit` say whether they
-- succeed; a writer bound to the transaction works on the same states.
pub record Repository (S : Type 0) : Type 0 where
  pub begin : S → Bool × S
  pub commit : S → Bool × S
  pub rollback : S → S
  pub get_product_by_id : ℤ → S → Result RepoErr Product × S
  pub get_product_by_id_for_update : ℤ → S → Result RepoErr Product × S
  pub get_product_by_slug : String → S → Result RepoErr Product × S
  pub create_product : Product → S → Result RepoErr Product × S
  pub update_product : ℤ → Product → S → Result RepoErr Product × S
  pub delete_product : ℤ → S → Result RepoErr (Unit {0}) × S
  pub add_variant : ProductVariant → S → Result RepoErr ProductVariant × S
  pub get_variant_by_sku : String → S → Result RepoErr ProductVariant × S
  pub update_variant_pricing :
      (sku : String) (retail : ℤ) (sale : Option ℤ) (currency : String)
      → S
      → Result RepoErr (Unit {0}) × S
  pub list_variants_by_product_id : ℤ → S → Result RepoErr (List ProductVariant) × S
  pub list_images_by_product_id : ℤ → S → Result RepoErr (List ProductImage) × S
  pub add_image : ProductImage → S → Result RepoErr ProductImage × S

unfoldable pub map_repo_err : RepoErr → ServiceErr
map_repo_err product_not_found = product_missing
map_repo_err variant_not_found = variant_missing
map_repo_err duplicate_product_code = product_conflict
map_repo_err duplicate_slug = product_conflict
map_repo_err duplicate_sku = variant_conflict
map_repo_err other = unexpected

-- A repository call with its error mapped.
unfoldable pub mapped {ℓ κ} :
    {A : Type ℓ} {S : Type κ} → Result RepoErr A × S → Result ServiceErr A × S
unfolding map_repo_err
mapped (ok a, s) = (ok a, s)
mapped (err e, s) = (err (map_repo_err e), s)

-- A repository call whose error is passed on: it is none of the service's sentinels.
unfoldable pub passed {ℓ κ} :
    {A : Type ℓ} {S : Type κ} → Result RepoErr A × S → Result ServiceErr A × S
passed (ok a, s) = (ok a, s)
passed (err e, s) = (err unexpected, s)

pub record ProductUpdate : Type 0 where
  pub product_code : Option String
  pub title : Option String
  pub slug : Option String
  pub short_description : Option String
  pub department : Option String
  pub category : Option String
  pub primary_image_url : Option String
  pub active : Option Bool

abbrev pub given_or {ℓ} : {A : Type ℓ} → Option A → A → A
given_or none a = a
given_or (some b) a = b

-- The fields that are given, over the row that is there.
unfoldable pub merged : ProductUpdate → Product → Product
merged u p = record p {
  product_code = given_or u.product_code p.product_code;
  title = given_or u.title p.title;
  slug = given_or u.slug p.slug;
  short_description = given_or u.short_description p.short_description;
  department = given_or u.department p.department;
  category = given_or u.category p.category;
  primary_image_url = given_or u.primary_image_url p.primary_image_url;
  active = given_or u.active p.active;
}

abbrev pub error_text : String → String → String
error_text sentinel rule = String.◌++◌ sentinel (String.◌++◌ ": " rule)

module _ {S : Type 0} (repo : Repository S) where
  unfoldable pub committed {ℓ} : {A : Type ℓ} → A → Bool × S → Result ServiceErr A × S
  committed a (true, s) = (ok a, s)
  committed a (false, s) = (err unexpected, s)

  -- Behind `fn`: the deferred Rollback, which does nothing once Commit was called.
  unfoldable pub ended {ℓ} : {A : Type ℓ} → Result ServiceErr A × S → Result ServiceErr A × S
  unfolding committed
  ended (err e, s) = (err e, repo.rollback s)
  ended (ok a, s) = committed a (repo.commit s)

  unfoldable pub begun {ℓ} :
      {A : Type ℓ} → (S → Result ServiceErr A × S) → Bool × S → Result ServiceErr A × S
  unfolding ended
  begun fn (false, s) = (err unexpected, s)
  begun fn (true, s) = ended (fn s)

  -- `inTx` and `inTxVoid`
  unfoldable pub in_tx {ℓ} :
      {A : Type ℓ} → (S → Result ServiceErr A × S) → S → Result ServiceErr A × S
  unfolding begun
  in_tx fn s = begun fn (repo.begin s)

  -- What is done where a record passes its rules.
  unfoldable pub where_valid {ℓ} :
      {A : Type ℓ}
      → (String → ServiceErr)
      → Option String
      → (S → Result ServiceErr A × S)
      → S
      → Result ServiceErr A × S
  where_valid refuse none run s = run s
  where_valid refuse (some rule) run s = (err (refuse rule), s)

  unfoldable pub create_product : Product → S → Result ServiceErr Product × S
  unfolding where_valid in_tx mapped validate_product
  create_product p s =
      where_valid (λ rule. invalid_product (error_text "invalid product" rule)) (validate_product p)
        (in_tx (λ t. mapped (repo.create_product p t))) s

  unfoldable pub get_product_by_id : ℤ → S → Result ServiceErr Product × S
  unfolding mapped
  get_product_by_id id s = mapped (repo.get_product_by_id id s)

  unfoldable pub get_product_by_slug : String → S → Result ServiceErr Product × S
  unfolding mapped
  get_product_by_slug slug s = mapped (repo.get_product_by_slug slug s)

  -- Behind the row that was locked.
  unfoldable pub change_product :
      ℤ → ProductUpdate → Result ServiceErr Product × S → Result ServiceErr Product × S
  unfolding where_valid mapped merged validate_product
  change_product id u (err e, s) = (err e, s)
  change_product id u (ok existing, s) =
      where_valid (λ rule. invalid_product (error_text "invalid product" rule))
        (validate_product (merged u existing))
        (λ t. mapped (repo.update_product id (merged u existing) t)) s

  unfoldable pub update_product : ℤ → ProductUpdate → S → Result ServiceErr Product × S
  unfolding in_tx change_product mapped
  update_product id u s =
      in_tx (λ t. change_product id u (mapped (repo.get_product_by_id_for_update id t))) s

  unfoldable pub delete_product : ℤ → S → Result ServiceErr (Unit {0}) × S
  unfolding in_tx mapped
  delete_product id s = in_tx (λ t. mapped (repo.delete_product id t)) s

  unfoldable pub add_variant_to_product : ProductVariant → S → Result ServiceErr ProductVariant × S
  unfolding where_valid mapped validate_variant
  add_variant_to_product v s =
      where_valid (λ rule. invalid_variant (error_text "invalid variant" rule)) (validate_variant v)
        (λ t. mapped (repo.add_variant v t)) s

  unfoldable pub get_variant_by_sku : String → S → Result ServiceErr ProductVariant × S
  unfolding mapped
  get_variant_by_sku sku s = mapped (repo.get_variant_by_sku sku s)

  abbrev pub pricing_rule : ℤ → Option ℤ → String → Option String
  pricing_rule retail sale currency =
      check (ltb_ℤ retail (pos 0)) "retail price must not be negative" (
        check (is_below_zero sale) "sale price must not be negative"
          (check (currency == "") "currency is required" none))

  unfoldable pub update_variant_pricing :
      (sku : String) (retail : ℤ) (sale : Option ℤ) (currency : String)
      → S
      → Result ServiceErr (Unit {0}) × S
  unfolding where_valid mapped
  update_variant_pricing sku retail sale currency s =
      where_valid (λ rule. invalid_variant (error_text "invalid variant" rule))
        (pricing_rule retail sale currency)
        (λ t. mapped (repo.update_variant_pricing sku retail sale currency t)) s

  unfoldable pub add_product_image : ProductImage → S → Result ServiceErr ProductImage × S
  unfolding where_valid passed validate_image
  add_product_image img s =
      where_valid (λ rule. invalid_image (error_text "invalid image" rule)) (validate_image img)
        (λ t. passed (repo.add_image img t)) s
