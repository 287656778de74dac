-- ===== src/Catalog/Db.antt =====
-- The tables of server/catalog-service/migrations, and the SQL statements of
-- internal/repository/postgres_catalog_repository.go, each as a function on them. A new row's id is the
-- next value of its BIGSERIAL, and `now` is NOW(). NULL in a text column is the empty text, which is
-- how the code reads it, and `tags` is the list whose JSON the column holds.
pub mod Sound
pub mod Writes
pub mod Deletion
pub mod Additions
use Prim.Native.String
use go_folio.Prelude.{
  ℕ, ℤ, pos, leb_ℤ, ltb_ℤ, eqb_ℤ, eqb, fits_int32, Bool, true, false, not, ◌&&◌, ◌||◌, Option, none,
  some, List, [], ◌∷◌, String, Result, ok, err, if◌then◌else◌,
}
use go_folio.Catalog.Rows.{int_key, text_key, find, put, erase, filter, is_some, order_by}
use go_folio.Catalog.Domain.{Product, ProductVariant, ProductImage, is_valid, is_below_zero}

pub record Db : Type 0 where
  pub products : List Product
  pub variants : List ProductVariant
  pub images : List ProductImage

-- Why a statement is refused: SQLSTATE 23505 with the constraint's name, or anything else.
pub data Refusal : Type 0 where
  unique_violation : (constraint : String) → Refusal
  refused : Refusal

abbrev pub unless {ℓ} : {A : Type ℓ} → Bool → Refusal → Result Refusal A → Result Refusal A
unless bad refusal rest = if bad then err refusal else rest

abbrev pub find_product : ℤ → Db → Option Product
find_product id db = find (λ (p : Product). p.id) id db.products

abbrev pub find_variant : ℤ → Db → Option ProductVariant
find_variant id db = find (λ (v : ProductVariant). v.id) id db.variants

-- INSERT INTO catalog_products … RETURNING id
unfoldable pub inserted_product : ℤ → ℕ → Product → Product
inserted_product id now p = record p {
  id = id;
  created_at = now;
  updated_at = now;
  last_synced_at = none;
}

unfoldable pub insert_product : ℤ → ℕ → Product → Db → Result Refusal (ℤ × Db)
unfolding inserted_product
insert_product id now p db =
    unless (is_some (find_product id db)) (unique_violation "catalog_products_pkey") (
      unless (is_some (find (λ (q : Product). q.product_code) p.product_code db.products))
        (unique_violation "catalog_products_product_code_key")
        (unless (is_some (find (λ (q : Product). q.slug) p.slug db.products))
          (unique_violation "catalog_products_slug_key")
          (ok (id, record db { products = inserted_product id now p ∷ db.products }))))

-- UPDATE catalog_products SET … WHERE id = $14: every column but these three, and `updated_at`
unfoldable pub updated_product : ℕ → Product → Product → Product
updated_product now old p = record p {
  id = old.id;
  external_product_id = old.external_product_id;
  created_at = old.created_at;
  updated_at = now;
  last_synced_at = old.last_synced_at;
}

-- The row with the id is written, if its code and slug are free among the others.
unfoldable pub write_product : Product → Db → Result Refusal (ℕ × Db)
write_product n db =
    let others = erase (λ (q : Product). q.id) n.id db.products in
    unless (is_some (find (λ (q : Product). q.product_code) n.product_code others))
      (unique_violation "catalog_products_product_code_key")
      (unless (is_some (find (λ (q : Product). q.slug) n.slug others))
        (unique_violation "catalog_products_slug_key")
        (ok (1, record db { products = put (λ (q : Product). q.id) n db.products })))

unfoldable pub update_found : ℕ → Product → Option Product → Db → Result Refusal (ℕ × Db)
unfolding updated_product write_product
update_found now p none db = ok (0, db)
update_found now p (some old) db = write_product (updated_product now old p) db

unfoldable pub update_product : ℤ → ℕ → Product → Db → Result Refusal (ℕ × Db)
unfolding update_found
update_product id now p db = update_found now p (find_product id db) db

-- Is this variant one of the product's?
unfoldable pub is_of : ℤ → Option ProductVariant → Bool
is_of id none = false
is_of id (some v) = eqb_ℤ v.product_id id

-- An image goes with its variant.
unfoldable pub is_dropped : ℤ → Db → Option ℤ → Bool
unfolding is_of
is_dropped id db none = false
is_dropped id db (some variant) = is_of id (find_variant variant db)

-- The tables without a product: ON DELETE CASCADE takes its variants, and with them their images.
unfoldable pub without_product : ℤ → Db → Db
unfolding is_dropped
without_product id db = record {
  products = erase (λ (q : Product). q.id) id db.products;
  variants = filter (λ (v : ProductVariant). not (eqb_ℤ v.product_id id)) db.variants;
  images = filter (λ (i : ProductImage). not (is_dropped id db i.variant_id)) db.images;
}

-- DELETE FROM catalog_products WHERE id = $1; any image of the product refuses it, for the check of the
-- images' product_id runs before the cascade reaches the images of the variants
unfoldable pub delete_found : ℤ → Option Product → Db → Result Refusal (ℕ × Db)
unfolding without_product
delete_found id none db = ok (0, db)
delete_found id (some _) db =
    unless (is_some (find (λ (i : ProductImage). i.product_id) id db.images)) refused
      (ok (1, without_product id db))

unfoldable pub delete_product : ℤ → Db → Result Refusal (ℕ × Db)
unfolding delete_found
delete_product id db = delete_found id (find_product id db) db

-- The CHECK constraints of product_variants, and the width of an INTEGER.
unfoldable pub is_storable : ProductVariant → Bool
is_storable v =
    leb_ℤ (pos 0) v.retail_price
    && not (is_below_zero v.sale_price)
    && eqb (String.count v.currency) 3
    && leb_ℤ (pos 0) v.stock_quantity
    && fits_int32 v.stock_quantity
    && is_valid v.stock_status

unfoldable pub inserted_variant : ℤ → ℕ → ProductVariant → ProductVariant
inserted_variant id now v = record v {
  id = id;
  created_at = now;
  updated_at = now;
  last_synced_at = none;
}

-- INSERT INTO product_variants … RETURNING id
unfoldable pub insert_variant : ℤ → ℕ → ProductVariant → Db → Result Refusal (ℤ × Db)
unfolding is_storable inserted_variant
insert_variant id now v db = unless (not (is_storable v)) refused (
    unless (is_some (find_variant id db)) (unique_violation "product_variants_pkey") (
      unless (is_some (find (λ (w : ProductVariant). w.sku) v.sku db.variants))
        (unique_violation "product_variants_sku_key")
        (unless (not (is_some (find_product v.product_id db))) refused
          (ok (id, record db { variants = inserted_variant id now v ∷ db.variants })))))

-- UPDATE product_variants SET retail_price_cents = $1, … WHERE sku = $5
unfoldable pub priced_variant : ℕ → ℤ → Option ℤ → String → ProductVariant → ProductVariant
priced_variant now retail sale currency v = record v {
  retail_price = retail;
  sale_price = sale;
  currency = currency;
  updated_at = now;
}

unfoldable pub price_found : ProductVariant → Db → Result Refusal (ℕ × Db)
unfolding is_storable
price_found n db =
    unless (not (is_storable n)) refused
      (ok (1, record db { variants = put (λ (w : ProductVariant). w.id) n db.variants }))

unfoldable pub price_row :
    (now : ℕ) (retail : ℤ) (sale : Option ℤ) (currency : String)
    → Option ProductVariant
    → Db
    → Result Refusal (ℕ × Db)
unfolding priced_variant price_found
price_row now retail sale currency none db = ok (0, db)
price_row now retail sale currency (some v) db =
    price_found (priced_variant now retail sale currency v) db

unfoldable pub update_variant_pricing :
    (sku : String) (now : ℕ) (retail : ℤ) (sale : Option ℤ) (currency : String)
    → Db
    → Result Refusal (ℕ × Db)
unfolding price_row
update_variant_pricing sku now retail sale currency db =
    price_row now retail sale currency (find (λ (w : ProductVariant). w.sku) sku db.variants) db

abbrev is_size : Option ℤ → Bool
is_size none = true
is_size (some n) = leb_ℤ (pos 1) n && fits_int32 n

abbrev pub is_known_variant : Option ℤ → List ProductVariant → Bool
is_known_variant none vs = true
is_known_variant (some id) vs = is_some (find (λ (v : ProductVariant). v.id) id vs)

-- The CHECK constraints of product_images, and the width of an INTEGER.
unfoldable pub is_drawable : ProductImage → Bool
is_drawable i =
    leb_ℤ (pos 0) i.sort_order && fits_int32 i.sort_order && is_size i.width && is_size i.height

-- INSERT INTO product_images … RETURNING id
unfoldable pub insert_image : ℤ → ℕ → ProductImage → Db → Result Refusal (ℤ × Db)
unfolding is_drawable
insert_image id now i db = unless (not (is_drawable i)) refused (
    unless (is_some (find (λ (j : ProductImage). j.id) id db.images))
      (unique_violation "product_images_pkey")
      (unless
        (not (is_some (find_product i.product_id db) && is_known_variant i.variant_id db.variants))
        refused
        (ok (
          id,
          record db {
            images = record i { id = id; created_at = now; updated_at = now } ∷ db.images;
          },
        ))))

-- SELECT … WHERE product_id = $1 ORDER BY id, and the images' ORDER BY sort_order, id
unfoldable pub select_variants : ℤ → Db → List ProductVariant
select_variants id db =
    order_by (λ (v w : ProductVariant). leb_ℤ v.id w.id)
      (filter (λ (v : ProductVariant). eqb_ℤ v.product_id id) db.variants)

unfoldable pub select_images : (ProductImage → Bool) → Db → List ProductImage
select_images chosen db =
    order_by
      (λ (i j : ProductImage).
        ltb_ℤ i.sort_order j.sort_order || (eqb_ℤ i.sort_order j.sort_order && leb_ℤ i.id j.id))
      (filter chosen db.images)

-- SELECT … ORDER BY id
unfoldable pub select_products : Db → List Product
select_products db = order_by (λ (p q : Product). leb_ℤ p.id q.id) db.products
