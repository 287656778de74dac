-- ===== src/Catalog/Store.antt =====
-- server/catalog-service/internal/repository/postgres_catalog_repository.go: the functions on a
-- `querier`, and PostgresCatalogRepository as an implementation of the service's repository. A session
-- holds the tables and what the environment decides.
pub mod Steps
pub mod Transactions
pub mod Abstract
pub mod Effects
pub mod Refines
pub mod Invariant
pub mod Runs
pub mod Outcomes
pub mod Pages
mod Tests
use go_folio.Prelude.{
  ℕ, suc, ℤ, pos, eqb, eqb_ℤ, Bool, true, false, Option, none, some, List, [], ◌∷◌, String, ◌==◌,
  Result, ok, err, if◌then◌else◌,
}
use go_folio.Catalog.Rows.{find, text_key}
use go_folio.Catalog.Domain.{Product, ProductVariant, ProductImage}
use go_folio.Catalog.Service.{
  RepoErr, Repository, product_not_found, variant_not_found, duplicate_sku, duplicate_slug,
  duplicate_product_code, other,
}
use go_folio.Catalog.Db
use go_folio.Catalog.Db.{
  Db, Refusal, unique_violation, refused, find_product, find_variant, insert_product,
  insert_variant, insert_image, select_variants, select_images, select_products,
}

pub record Session : Type 0 where
  pub tables : Db
  -- the tables at BEGIN
  pub saved : Db
  -- `true` where the next statement fails; none is left to fail at the end of the list
  pub faults : List Bool
  -- NOW(), and the clock of the service
  pub now : ℕ
  -- the last value of each table's sequence, which no rollback takes back
  pub product_ids : ℕ
  pub variant_ids : ℕ
  pub image_ids : ℕ

abbrev pub Tx : Type 0 → Type 0
Tx A = Session → Result RepoErr A × Session

abbrev pub pure : {A : Type 0} → A → Tx A
pure a s = (ok a, s)

abbrev pub raise : {A : Type 0} → RepoErr → Tx A
raise e s = (err e, s)

-- The code behind `if err != nil { return nil, … }`.
abbrev pub proceed :
    {A B : Type 0} → (A → Tx B) → Result RepoErr A × Session → Result RepoErr B × Session
proceed f (ok a, s) = f a s
proceed f (err e, s) = (err e, s)

infixl 5 ◌>>=◌
abbrev pub ◌>>=◌ : {A B : Type 0} → Tx A → (A → Tx B) → Tx B
◌>>=◌ m f s = proceed f (m s)

abbrev pub fault_now : List Bool → Bool
fault_now [] = false
fault_now (b ∷ bs) = b

abbrev pub later : List Bool → List Bool
later [] = []
later (b ∷ bs) = bs

-- `mapCatalogPgError`
unfoldable pub map_pg_error : Refusal → RepoErr
map_pg_error (unique_violation name) =
    if name == "catalog_products_product_code_key"
    then duplicate_product_code
    else if name == "catalog_products_slug_key"
    then duplicate_slug
    else if name == "product_variants_sku_key"
    then duplicate_sku
    else other
map_pg_error refused = other

-- An error that is passed on wrapped, which is none of the sentinels.
abbrev pub wrapped : Refusal → RepoErr
wrapped _ = other

unfoldable pub answered :
    {A : Type 0}
    → (Refusal → RepoErr)
    → Session
    → Result Refusal (A × Db)
    → Result RepoErr A × Session
answered mapping s (ok (a, db)) = (ok a, record s { tables = db })
answered mapping s (err r) = (err (mapping r), s)

-- One statement: it fails on a fault or where the database refuses it; then the tables stay.
unfoldable pub statement :
    {A : Type 0} → (Refusal → RepoErr) → (Db → Result Refusal (A × Db)) → Tx A
unfolding answered
statement mapping run s =
    if fault_now s.faults
    then (err (mapping refused), record s { faults = later s.faults })
    else answered mapping (record s { faults = later s.faults }) (run s.tables)

-- A SELECT, whose rows are scanned.
unfoldable pub query : {A : Type 0} → (Db → A) → Tx A
unfolding statement
query read = statement wrapped (λ db. ok (read db, db))

-- sql.ErrNoRows, as the sentinel.
unfoldable pub or_missing : {A : Type 0} → RepoErr → Option A → Tx A
or_missing missing none = raise missing
or_missing missing (some a) = pure a

unfoldable pub get_product_by_id : ℤ → Tx Product
unfolding query or_missing
get_product_by_id id = query (find_product id) >>= or_missing product_not_found

-- FOR UPDATE: sessions run one after the other here, so the lock is free.
unfoldable pub get_product_by_id_for_update : ℤ → Tx Product
unfolding query or_missing
get_product_by_id_for_update id = query (find_product id) >>= or_missing product_not_found

unfoldable pub get_product_by_slug : String → Tx Product
unfolding query or_missing
get_product_by_slug slug =
    query (λ db. find (λ (p : Product). p.slug) slug db.products) >>= or_missing product_not_found

unfoldable pub create_product : Product → Tx Product
unfolding statement map_pg_error get_product_by_id
create_product p s =
    let next = suc s.product_ids in
    (statement map_pg_error (insert_product (pos next) s.now p) >>= get_product_by_id)
      (record s { product_ids = next })

-- Behind RowsAffected.
unfoldable pub if_any : {A : Type 0} → RepoErr → Tx A → ℕ → Tx A
if_any missing rest n = if eqb n 0 then raise missing else rest

unfoldable pub update_product : ℤ → Product → Tx Product
unfolding statement map_pg_error if_any get_product_by_id
update_product id p s =
    (statement map_pg_error (Db.update_product id s.now p)
        >>= if_any product_not_found (get_product_by_id id))
      s

unfoldable pub delete_product : ℤ → Tx (Unit {0})
unfolding statement if_any
delete_product id = statement wrapped (Db.delete_product id) >>= if_any product_not_found (pure tt)

unfoldable pub list_products : Tx (List Product)
unfolding query
list_products = query select_products

unfoldable pub get_variant_by_sku : String → Tx ProductVariant
unfolding query or_missing
get_variant_by_sku sku =
    query (λ db. find (λ (v : ProductVariant). v.sku) sku db.variants)
    >>= or_missing variant_not_found

unfoldable pub get_variant_by_id : ℤ → Tx ProductVariant
unfolding query or_missing
get_variant_by_id id = query (find_variant id) >>= or_missing variant_not_found

-- Two statements, outside of any transaction.
unfoldable pub add_variant : ProductVariant → Tx ProductVariant
unfolding statement map_pg_error get_variant_by_id
add_variant v s =
    let next = suc s.variant_ids in
    (statement map_pg_error (insert_variant (pos next) s.now v) >>= get_variant_by_id)
      (record s { variant_ids = next })

unfoldable pub update_variant_pricing :
    (sku : String) (retail : ℤ) (sale : Option ℤ) (currency : String) → Tx (Unit {0})
unfolding statement if_any
update_variant_pricing sku retail sale currency s =
    (statement wrapped (Db.update_variant_pricing sku s.now retail sale currency)
        >>= if_any variant_not_found (pure tt))
      s

unfoldable pub list_variants_by_product_id : ℤ → Tx (List ProductVariant)
unfolding query
list_variants_by_product_id id = query (select_variants id)

-- The answer is the given record with the new id.
unfoldable pub add_image : ProductImage → Tx ProductImage
unfolding statement
add_image img s =
    let next = suc s.image_ids in
    (statement wrapped (insert_image (pos next) s.now img) >>= λ id. pure (record img { id = id }))
      (record s { image_ids = next })

unfoldable pub list_images_by_product_id : ℤ → Tx (List ProductImage)
unfolding query
list_images_by_product_id id = query (select_images (λ (i : ProductImage). eqb_ℤ i.product_id id))

abbrev is_id : ℤ → Option ℤ → Bool
is_id id none = false
is_id id (some j) = eqb_ℤ j id

unfoldable pub list_images_by_variant_id : ℤ → Tx (List ProductImage)
unfolding query
list_images_by_variant_id id = query (select_images (λ (i : ProductImage). is_id id i.variant_id))

-- BEGIN, COMMIT and ROLLBACK. A COMMIT that fails has rolled back.
unfoldable pub begin : Session → Bool × Session
begin s =
    if fault_now s.faults
    then (false, record s { faults = later s.faults })
    else (true, record s { faults = later s.faults; saved = s.tables })

unfoldable pub commit : Session → Bool × Session
commit s =
    if fault_now s.faults
    then (false, record s { faults = later s.faults; tables = s.saved })
    else (true, record s { faults = later s.faults })

unfoldable pub rollback : Session → Session
rollback s = record s { tables = s.saved }

unfoldable pub postgres : Repository Session
unfolding begin commit rollback get_product_by_id get_product_by_id_for_update get_product_by_slug
    create_product update_product delete_product add_variant get_variant_by_sku
    update_variant_pricing list_variants_by_product_id list_images_by_product_id add_image
postgres = record {
  begin = begin;
  commit = commit;
  rollback = rollback;
  get_product_by_id = get_product_by_id;
  get_product_by_id_for_update = get_product_by_id_for_update;
  get_product_by_slug = get_product_by_slug;
  create_product = create_product;
  update_product = update_product;
  delete_product = delete_product;
  add_variant = add_variant;
  get_variant_by_sku = get_variant_by_sku;
  update_variant_pricing = update_variant_pricing;
  list_variants_by_product_id = list_variants_by_product_id;
  list_images_by_product_id = list_images_by_product_id;
  add_image = add_image;
}
