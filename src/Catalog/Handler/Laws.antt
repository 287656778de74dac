-- ===== src/Catalog/Handler/Laws.antt =====
-- The route of new variants.
use go_folio.Prelude.{
  ◌≡◌, ◌≢◌, refl, arith, Option, none, some, Bool, true, false, String, Result, ok, err, ℤ,
  Bool-cases, ◌==◌, not, ◌||◌, ltb_ℤ, inl, inr, pos, leb_ℤ, ◌⊎◌, ◌∙◌,
}
use go_folio.Gateway.Http.{Response}
use go_folio.Catalog.Service.Calls.{mapped-state}
use go_folio.Catalog.Service
use go_folio.Catalog.Service.{
  Repository, mapped, ServiceErr, where_valid, invalid_variant, error_text,
}
use go_folio.Catalog.Handler
use go_folio.Catalog.Handler.{
  CreateVariantRequest, new_variant, add_to, priced, add_with, parse_id_param, answered,
  handle_variant_mutation_error, product_error,
}
use go_folio.Catalog.Domain.{
  validate_variant, check, Product, ProductVariant, is_valid, is_below_zero, is_blank,
}

check-some :
    (bad : Bool) (text : String) (rest : Option String) (rule : String)
    → rest ≡ some rule
    → (r : String) × (check bad text rest ≡ some r)
check-some true text rest rule e = (text, refl)
check-some false text rest rule e = (rule, e)

-- A variant without a valid stock status breaks a rule.
validate_variant-refuses :
    (v : ProductVariant)
    → is_valid v.stock_status ≡ false
    → (r : String) × (validate_variant v ≡ some r)
unfolding validate_variant
validate_variant-refuses v e =
    let status =
      check-some (not (is_valid v.stock_status)) "invalid stock status" none
        "invalid stock status" in
    let stock =
      check-some (ltb_ℤ v.stock_quantity (pos 0)) "stock quantity must not be negative" _
        "invalid stock status" (rw e refl) in
    let sale =
      check-some (is_below_zero v.sale_price) "sale price must not be negative" _ stock.0 stock.1 in
    let retail =
      check-some (ltb_ℤ v.retail_price (pos 0)) "retail price must not be negative" _ sale.0
        sale.1 in
    let currency = check-some (is_blank v.currency) "currency is required" _ retail.0 retail.1 in
    let id =
      check-some (leb_ℤ v.product_id (pos 0)) "product ID is required" _ currency.0 currency.1 in
    check-some (is_blank v.sku) "SKU is required" _ id.0 id.1

module _ {S : Type 0} (repo : Repository S) where
  -- Not a 201, and the repository was asked nothing, or only for one product.
  abbrev pub IsRefused : S → Response ProductVariant × S → Type 0
  IsRefused s r =
      (r.0.status ≢ 201) × ((r.1 ≡ s) ⊎ ((id : ℤ) × (r.1 ≡ (repo.get_product_by_id id s).1)))

  -- Behind the look-up, nothing more is asked.
  add_to-refuses :
      (id : ℤ) (req : CreateVariantRequest) (cents : ℤ) (r : Result ServiceErr Product) (s : S)
      → ((add_to repo id req cents (r, s)).0.status ≢ 201)
        × ((add_to repo id req cents (r, s)).1 ≡ s)
  unfolding add_to Service.add_variant_to_product where_valid answered handle_variant_mutation_error
      product_error
  add_to-refuses id req cents (err Service.product_missing) s = (ground arith, refl)
  add_to-refuses id req cents (err _) s = (ground arith, refl)
  add_to-refuses id req cents (ok p) s =
      let (rule, refused) =
        validate_variant-refuses (new_variant id req cents) (unfold new_variant is_valid in refl) in
      rw refused (ground arith, refl)

  priced-refuses :
      (id : ℤ) (req : CreateVariantRequest) (cents : Option ℤ) (s : S)
      → IsRefused s (priced repo id req cents s)
  unfolding priced Service.get_product_by_id mapped
  priced-refuses id req none s = (ground arith, inl refl)
  priced-refuses id req (some cents) s = elim (Bool-cases (req.sku == "" || req.currency == "")) [
    | inl lacking ↦ rw lacking (ground arith, inl refl)
    | inr complete ↦
        let found = Service.get_product_by_id repo id s in
        let (status, asked) = add_to-refuses id req cents found.0 found.1 in
        rw complete (status, inr (id, asked ∙ mapped-state (repo.get_product_by_id id s)))
  ]

  add_with-refuses :
      (id : Option ℤ) (body : Option CreateVariantRequest) (s : S)
      → IsRefused s (add_with repo id body s)
  unfolding add_with
  add_with-refuses none body s = (ground arith, inl refl)
  add_with-refuses (some id) none s = (ground arith, inl refl)
  add_with-refuses (some id) (some req) s = priced-refuses id req req.retail_price_cents s

  -- No request creates a variant through the catalog's route: whatever the id, the body and the
  -- repository, the answer is not 201, and the repository is left alone or is asked for one product
  -- by its id, and for nothing else.
  pub add_variant-refuses :
      (raw : String) (body : Option CreateVariantRequest) (s : S)
      → IsRefused s (Handler.add_variant repo raw body s)
  unfolding Handler.add_variant
  add_variant-refuses raw body s = add_with-refuses (parse_id_param raw) body s
