-- ===== src/Catalog/Store/Tests.antt =====
-- A catalog of one product with a picture of no variant, and witnesses.
use go_folio.Prelude.{
  ◌≡◌, refl, ◌<◌, ℤ, pos, true, false, ◌||◌, none, some, List, [], ◌∷◌, map, length, String, ok,
  err, if◌then◌else◌, arith,
}
use go_folio.Catalog.Rows.{erase, put, filter, find, order_by}
use go_folio.Catalog.Domain.{
  Product, ProductVariant, ProductImage, validate_product, validate_variant, is_valid,
}
use go_folio.Catalog.Db
use go_folio.Catalog.Db.{
  insert_product, Db, find_product, inserted_product, insert_variant, inserted_variant,
  without_product,
}
use go_folio.Catalog.Db.Sound.{IsSound}
use go_folio.Catalog.Service
use go_folio.Catalog.Service.{
  ServiceErr, product_conflict, product_missing, unexpected, ProductUpdate,
}
use go_folio.Catalog.Service.Calls.{
  Call, create, get_by_slug, change, remove, add, product, variant, done, serve_all,
}
use go_folio.Catalog.Paging
use go_folio.Catalog.Paging.{Codec, SyncQuery, follow, is_since}
use go_folio.Catalog.Store.{Session, postgres}
use go_folio.Catalog.Store.Abstract.{view, Run}
use go_folio.Catalog.Store.Invariant.{serve_all-IsSound}
use go_folio.Catalog.Store.Runs.{serve_all-refines}
use go_folio.Catalog.Store.Outcomes.{
  calm, is_code_taken, is_slug_taken, created_row, IsDelete, create_product-outcome,
  delete_product-outcome, add_variant-torn,
}
use go_folio.Catalog.Store.Pages.{product_key, projection_key, in_order, list_product_projections}
use go_folio.Catalog.Store.Pages.Batches.{projected}
use go_folio.Catalog.Store.Pages.Laws.{list_product_projections-page}
use go_folio.Catalog.Store.Pages.Follow.{catalog, follow_projections}

abbrev row : ℤ → String → Product
row id slug = record {
  id = id;
  product_code = slug;
  external_product_id = "";
  title = "Billetera";
  slug = slug;
  short_description = "";
  description = "";
  additional_info = "";
  department = "";
  category = "";
  subcategory = "";
  tags = [];
  base_sku = "";
  primary_image_url = "";
  active = true;
  created_at = 5;
  updated_at = 5;
  last_synced_at = none;
}

abbrev wallet : Product
wallet = row (pos 1) "billetera"

abbrev belt : Product
belt = row (pos 0) "faja"

abbrev picture : ProductImage
picture = record {
  id = pos 1;
  product_id = pos 1;
  variant_id = none;
  url = "products/billetera/front.jpg";
  alt_text = "";
  sort_order = pos 0;
  is_main = true;
  width = none;
  height = none;
  created_at = 5;
  updated_at = 5;
}

abbrev black : ProductVariant
black = record {
  id = pos 0;
  product_id = pos 1;
  sku = "BIL-001";
  external_variant_id = "";
  color_slug = "negro";
  color_name = "Negro";
  primary_color_name = "";
  secondary_color_name = "";
  primary_color_hex = "";
  secondary_color_hex = "";
  retail_price = pos 45000;
  sale_price = none;
  currency = "CRC";
  stock_quantity = pos 0;
  stock_status = "OUT_OF_STOCK";
  warehouse_code = "";
  variant_image_url = "";
  active = true;
  created_at = 0;
  updated_at = 0;
  last_synced_at = none;
}

abbrev tables : Db
tables = record { products = wallet ∷ []; variants = []; images = picture ∷ [] }

abbrev shop : Session
shop = record {
  tables = tables;
  saved = tables;
  faults = [];
  now = 9;
  product_ids = 1;
  variant_ids = 0;
  image_ids = 1;
}

tables-IsSound : IsSound tables
unfolding find
tables-IsSound = record {
  ids = (refl, tt);
  codes = (refl, tt);
  slugs = (refl, tt);
  variant_ids = tt;
  skus = tt;
  image_ids = (refl, tt);
  homes = tt;
  storable = tt;
  subjects = (refl, tt);
  colours = (refl, tt);
}

abbrev retitle : ProductUpdate
retitle = record {
  product_code = none;
  title = some "Billetera de Colores";
  slug = none;
  short_description = none;
  department = none;
  category = none;
  primary_image_url = none;
  active = none;
}

abbrev calls : List Call
calls =
    create belt
    ∷ create belt
    ∷ change (pos 2) retitle
    ∷ add black
    ∷ remove (pos 2)
    ∷ remove (pos 1)
    ∷ get_by_slug "billetera"
    ∷ []

-- A run in which the commit of the third call fails.
abbrev unlucky : Session
unlucky = record shop {
  faults =
      false ∷ false ∷ false ∷ false ∷ false ∷ false ∷ false ∷ false ∷ false ∷ false ∷ true ∷ [];
}

served :
    (serve_all postgres calls unlucky).0
    ≡ ok (product (record belt { id = pos 2; created_at = 9; updated_at = 9 }))
      ∷ err product_conflict
      ∷ err unexpected
      ∷ ok (variant (inserted_variant (pos 1) 9 black))
      ∷ ok done
      ∷ err unexpected
      ∷ ok (product wallet)
      ∷ []
unfolding serve_all inserted_variant find postgres insert_product Db.update_product erase put
    insert_variant Db.delete_product
served = refl

serve_all-refines_example :
    Run calls
      (view tables)
      (serve_all postgres calls unlucky).0
      (view (serve_all postgres calls unlucky).1.tables)
serve_all-refines_example = serve_all-refines calls unlucky tables-IsSound

serve_all-IsSound_example : IsSound (serve_all postgres calls unlucky).1.tables
serve_all-IsSound_example = serve_all-IsSound calls unlucky tables-IsSound

belt_valid : validate_product belt ≡ none
unfolding validate_product
belt_valid = refl

belt_fresh : find_product (pos 2) tables ≡ none
unfolding find
belt_fresh = refl

create_product-outcome_example :
    let (answer, after) = Service.create_product postgres belt (calm shop) in
    (answer ≡ (
      if is_code_taken belt tables || is_slug_taken belt tables
      then err product_conflict
      else ok (created_row belt shop)))
    × (after.tables ≡ (
        if is_code_taken belt tables || is_slug_taken belt tables
        then tables
        else record tables { products = created_row belt shop ∷ wallet ∷ [] }))
create_product-outcome_example = create_product-outcome belt shop belt_valid belt_fresh

delete_product-outcome_example :
    let (answer, after) = Service.delete_product postgres (pos 1) (calm shop) in
    IsDelete (pos 1) tables answer after.tables
delete_product-outcome_example = delete_product-outcome (pos 1) shop

abbrev with_black : Db
with_black = record tables { variants = inserted_variant (pos 1) 9 black ∷ [] }

black_valid : validate_variant black ≡ none
unfolding validate_variant
black_valid = refl

black_accepted : insert_variant (pos 1) 9 black tables ≡ ok (pos 1, with_black)
unfolding insert_variant is_valid find
black_accepted = refl

add_variant-torn_example :
    let (answer, after) =
      Service.add_variant_to_product postgres black (record shop { faults = false ∷ true ∷ [] }) in
    (answer ≡ err unexpected) × (after.tables ≡ with_black)
add_variant-torn_example = add_variant-torn black shop (pos 1) with_black black_valid black_accepted

-- Cursors of the one time and id of this catalog.
abbrev codec : Codec
codec = record { encode = λ c. "a"; decode = λ t. some (record { updated_at = 5; id = pos 1 }) }

abbrev page_query : SyncQuery
page_query = record { page_size = pos 2; cursor = ""; updated_since = none; after = none }

list_product_projections-page_example : list_product_projections codec page_query (calm shop) ≡ (
  Paging.list_product_projections projection_key codec
      (some (map (projected tables) (in_order product_key (wallet ∷ []))))
      page_query
      9,
  calm shop,
)
list_product_projections-page_example = list_product_projections-page codec page_query shop

two : length (filter (λ x. is_since none (projection_key x)) (catalog tables)) < 2
unfolding filter is_since in_order order_by
two = omega arith

follow_projections_example :
    follow (λ q. (list_product_projections codec q (calm shop)).0) 2 page_query
    ≡ ok (filter (λ x. is_since none (projection_key x)) (catalog tables))
follow_projections_example =
    follow_projections codec shop (pos 2) none 2 tables-IsSound (refl, tt)
      (record { reads = refl; shows = refl }, tt) two
