-- ===== src/Gateway/Products/Laws.antt =====
-- The aggregated products follow the catalog's, and each stock status follows its level.
use go_folio.Prelude.{◌≡◌, ◌∷◌, [], refl, List, ℤ, Result, ok, err}
use go_folio.Gateway.Products.{
  stock_or_none, listed, hydrate, hydrate_all, ProductResponse, product_response, fetch_stock,
  VariantResponse, derive_stock_status, variant_response,
}
use go_folio.Gateway.Clients.InventoryClient.{Stub, GrpcCode, StockInfo, get_stock}
use go_folio.Gateway.Clients.CatalogClient.{CatalogProjection, CatalogVariant}
use go_folio.Gateway.Http.{write_json}

-- The response for a variant: the catalog's fields, and a status that follows from the level shown.
pub record Shows (threshold : ℤ) (v : CatalogVariant) (r : VariantResponse) : Type 0 where
  pub sku : r.sku ≡ v.sku
  pub price : r.retail_price ≡ v.retail_price
  pub currency : r.currency ≡ v.currency
  pub active : r.active ≡ v.active
  pub status : r.stock.status ≡ derive_stock_status r.stock.available threshold

-- Two lists of one length, related item by item.
abbrev pub Pointwise : {A B : Type 0} → (A → B → Type 0) → List A → List B → Type 0
Pointwise R [] [] = Unit
Pointwise R [] (y ∷ ys) = ⊥
Pointwise R (x ∷ xs) [] = ⊥
Pointwise R (x ∷ xs) (y ∷ ys) = R x y × Pointwise R xs ys

stock_or_none-status :
    (threshold : ℤ) (r : Result GrpcCode StockInfo)
    → (stock_or_none threshold r).status
      ≡ derive_stock_status (stock_or_none threshold r).available threshold
unfolding stock_or_none
stock_or_none-status threshold (ok a) = refl
stock_or_none-status threshold (err e) = unfold derive_stock_status in refl

module _ {S : Type 0} (stub : Stub S) (threshold : ℤ) where
  hydrate-Shows :
      (vs : List CatalogVariant) (s : S)
      → Pointwise (Shows threshold) vs (hydrate stub threshold vs s).0
  unfolding hydrate fetch_stock variant_response
  hydrate-Shows [] s = tt
  hydrate-Shows (v ∷ vs) s =
      let asked = get_stock stub v.sku s in
      (
        record {
          sku = refl;
          price = refl;
          currency = refl;
          active = refl;
          status = stock_or_none-status threshold asked.0;
        },
        hydrate-Shows vs asked.1,
      )

  -- A product's response: its id and slug, and its variants one by one.
  abbrev pub ShowsProduct : CatalogProjection → ProductResponse → Type 0
  ShowsProduct p r =
      (r.id ≡ p.product.id)
      × (r.slug ≡ p.product.slug)
      × (r.title ≡ p.product.title)
      × Pointwise (Shows threshold) p.variants r.variants

  hydrate_all-Shows :
      (ps : List CatalogProjection) (s : S)
      → Pointwise ShowsProduct ps (hydrate_all stub threshold product_response ps s).0
  unfolding hydrate_all product_response
  hydrate_all-Shows [] s = tt
  hydrate_all-Shows (p ∷ ps) s = (
    (refl, refl, refl, hydrate-Shows p.variants s),
    hydrate_all-Shows ps (hydrate stub threshold p.variants s).1,
  )

  -- When the catalog lists its products, the public list is answered 200 whatever the inventory does:
  -- one response for each product in the catalog's order, with each of its variants in order, under its
  -- own SKU and price, and with the stock status that follows from the level that is shown.
  pub listed-ShowsProduct :
      (ps : List CatalogProjection) (s : S)
      → (rs : List ProductResponse) × ((listed stub threshold product_response (ok ps) s).0
          ≡ write_json 200 rs)
        × Pointwise ShowsProduct ps rs
  unfolding listed
  listed-ShowsProduct ps s =
      ((hydrate_all stub threshold product_response ps s).0, refl, hydrate_all-Shows ps s)
