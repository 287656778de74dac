-- ===== src/Catalog/Seed/Tests.antt =====
-- The seed of an empty catalog, and a witness.
use go_folio.Prelude.{◌≡◌, refl, pos, List, [], ◌∷◌, map}
use go_folio.Catalog.Rows.{find, order_by}
use go_folio.Catalog.Service
use go_folio.Catalog.Domain.{Product, ProductVariant}
use go_folio.Catalog.Db.{Db, select_products, insert_product, inserted_product, insert_variant}
use go_folio.Catalog.Store.{Session, postgres}
use go_folio.Catalog.Store.Outcomes.{calm, next_id}
use go_folio.Catalog.Seed.{billetera, run}
use go_folio.Catalog.Seed.Laws.{run_once}

abbrev nothing : Db
nothing = record { products = []; variants = []; images = [] }

abbrev empty : Session
empty = record {
  tables = nothing;
  saved = nothing;
  faults = [];
  now = 9;
  product_ids = 0;
  variant_ids = 0;
  image_ids = 0;
}

stocked :
    map (λ (v : ProductVariant). v.stock_quantity) (run empty).tables.variants
    ≡ pos 12 ∷ pos 5 ∷ pos 8 ∷ pos 13 ∷ []
unfolding run select_products order_by Service.create_product postgres insert_product find
    Service.add_variant_to_product insert_variant
stocked = refl

run_once_example :
    let after = run (calm empty) in
    (nothing.products ≡ []
      → after.tables.products ≡ inserted_product (next_id empty) 9 billetera ∷ [])
    × ((p : Product) (ps : List Product) → nothing.products ≡ p ∷ ps → after ≡ calm empty)
    × (run (calm after) ≡ calm after)
run_once_example = run_once empty
