-- ===== src/Catalog/Store/Pages.antt =====
-- The pages of server/catalog-service over PostgreSQL: the CatalogSyncRepository part of
-- internal/repository/postgres_catalog_repository.go, and the two list functions of
-- internal/service/default_catalog_service.go on it.
pub mod Batches
pub mod Laws
pub mod Follow
use go_folio.Prelude.{
  ℕ, ℤ, pos, leb_ℤ, ltb_ℤ, eqb_ℤ, ltb, eqb, Bool, true, false, ◌&&◌, ◌||◌, Option, none, some, List,
  [], ◌∷◌, map, String, Result, ok, err,
}
use go_folio.Catalog.Rows.{filter, order_by}
use go_folio.Catalog.Domain.{
  Product, ProductVariant, ProductImage, ProductProjection, VariantInventoryRecord,
}
use go_folio.Catalog.Db.{Db, find_product}
use go_folio.Catalog.Service.{RepoErr, other}
use go_folio.Catalog.Paging.{
  SyncCursor, SyncQuery, SyncErr, failed, Codec, Page, list_page, page_of, position, clamp,
}
use go_folio.Catalog.Store.{Session, Tx, query, or_missing, pure, proceed, ◌>>=◌}

abbrev pub product_key : Product → SyncCursor
product_key p = record { updated_at = p.updated_at; id = p.id }

abbrev pub projection_key : ProductProjection → SyncCursor
projection_key x = product_key x.product

abbrev pub inventory_key : VariantInventoryRecord → SyncCursor
inventory_key r = record { updated_at = r.updated_at; id = r.variant_id }

-- ORDER BY updated_at ASC, id ASC
abbrev pub is_no_later : SyncCursor → SyncCursor → Bool
is_no_later a b =
    ltb a.updated_at b.updated_at || (eqb a.updated_at b.updated_at && leb_ℤ a.id b.id)

unfoldable pub in_order : {A : Type 0} → (A → SyncCursor) → List A → List A
in_order key rows = order_by (λ x y. is_no_later (key x) (key y)) rows

unfoldable pub is_in : ℤ → List ℤ → Bool
is_in id [] = false
is_in id (j ∷ js) = eqb_ℤ id j || is_in id js

abbrev pub by_id : ProductVariant → ProductVariant → Bool
by_id v w = leb_ℤ v.id w.id

abbrev pub by_place : ProductImage → ProductImage → Bool
by_place i j =
    ltb_ℤ i.sort_order j.sort_order || (eqb_ℤ i.sort_order j.sort_order && leb_ℤ i.id j.id)

-- `loadVariantsForProducts` and `loadImagesForProducts`: the rows of all the products at once
unfoldable pub load_variants_for_products : List ℤ → Tx (List ProductVariant)
unfolding query is_in
load_variants_for_products ids =
    query
      (λ db. order_by by_id (filter (λ (v : ProductVariant). is_in v.product_id ids) db.variants))

unfoldable pub load_images_for_products : List ℤ → Tx (List ProductImage)
unfolding query is_in
load_images_for_products ids =
    query
      (λ db. order_by by_place (filter (λ (i : ProductImage). is_in i.product_id ids) db.images))

-- A product with what the maps have under its id.
unfoldable pub projection : List ProductVariant → List ProductImage → Product → ProductProjection
projection variants images p = record {
  product = p;
  variants = filter (λ (v : ProductVariant). eqb_ℤ v.product_id p.id) variants;
  images = filter (λ (i : ProductImage). eqb_ℤ i.product_id p.id) images;
}

abbrev pub ids_of : List Product → List ℤ
ids_of ps = map (λ (p : Product). p.id) ps

unfoldable pub projections_of : List Product × Bool → Tx (List ProductProjection × Bool)
unfolding load_variants_for_products load_images_for_products projection
projections_of ([], more) = pure ([], false)
projections_of (p ∷ ps, more) = load_variants_for_products (ids_of (p ∷ ps)) >>= λ variants.
    load_images_for_products (ids_of (p ∷ ps)) >>= λ images.
    pure (map (projection variants images) (p ∷ ps), more)

unfoldable pub list_product_projection_page : SyncQuery → Tx (List ProductProjection × Bool)
unfolding query list_page in_order or_missing projections_of
list_product_projection_page q =
    query (λ db. list_page product_key (some (in_order product_key db.products)) q)
    >>= or_missing other
    >>= projections_of

-- JOIN catalog_products cp ON cp.id = pv.product_id
unfoldable pub inventory_record : ProductVariant → Product → VariantInventoryRecord
inventory_record v p = record {
  product_code = p.product_code;
  product_id = v.product_id;
  variant_id = v.id;
  sku = v.sku;
  retail_price = v.retail_price;
  sale_price = v.sale_price;
  currency = v.currency;
  stock_quantity = v.stock_quantity;
  stock_status = v.stock_status;
  active = v.active;
  updated_at = v.updated_at;
  last_synced_at = v.last_synced_at;
}

abbrev with_product :
    ProductVariant → Option Product → List VariantInventoryRecord → List VariantInventoryRecord
with_product v none rest = rest
with_product v (some p) rest = inventory_record v p ∷ rest

unfoldable pub joined : Db → List ProductVariant → List VariantInventoryRecord
unfolding inventory_record
joined db [] = []
joined db (v ∷ vs) = with_product v (find_product v.product_id db) (joined db vs)

unfoldable pub list_variant_inventory_page : SyncQuery → Tx (List VariantInventoryRecord × Bool)
unfolding query list_page in_order or_missing joined
list_variant_inventory_page q =
    query (λ db. list_page inventory_key (some (in_order inventory_key (joined db db.variants))) q)
    >>= or_missing other

module _ {A : Type 0} (key : A → SyncCursor) (codec : Codec) where
  unfoldable pub paged :
      SyncQuery → ℕ → Result RepoErr (List A × Bool) × Session → Result SyncErr (Page A) × Session
  unfolding page_of
  paged q now (ok x, s) = (page_of key codec q now (some x), s)
  paged q now (err e, s) = (err failed, s)

  unfoldable pub asked :
      (SyncQuery → Tx (List A × Bool))
      → ℕ
      → Result SyncErr SyncQuery
      → Session
      → Result SyncErr (Page A) × Session
  unfolding paged
  asked page now (err e) s = (err e, s)
  asked page now (ok q) s = paged q now (page q s)

  -- The sync token is the time before any statement.
  unfoldable pub list_from :
      (SyncQuery → Tx (List A × Bool))
      → ℤ
      → ℤ
      → SyncQuery
      → Session
      → Result SyncErr (Page A) × Session
  unfolding asked position clamp
  list_from page default limit q s =
      asked page s.now
        (position key codec (record q { page_size = clamp default limit q.page_size })) s

unfoldable pub list_product_projections :
    Codec → SyncQuery → Session → Result SyncErr (Page ProductProjection) × Session
unfolding list_from list_product_projection_page
list_product_projections codec q s =
    list_from projection_key codec list_product_projection_page (pos 100) (pos 500) q s

unfoldable pub list_variant_inventory :
    Codec → SyncQuery → Session → Result SyncErr (Page VariantInventoryRecord) × Session
unfolding list_from list_variant_inventory_page
list_variant_inventory codec q s =
    list_from inventory_key codec list_variant_inventory_page (pos 500) (pos 1000) q s
