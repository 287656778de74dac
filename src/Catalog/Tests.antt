-- ===== src/Catalog/Tests.antt =====
-- The theorems at a table of three records and at a catalog of one product.

use go_folio.Catalog.Service
use go_folio.Catalog.Handler
use go_folio.Catalog.Handler.Laws.{add_variant-refuses, IsRefused}
use go_folio.Catalog.Service.Laws.{update_product-ok}
use go_folio.Catalog.Paging.Laws.{follow_complete, IsFaithful}
use go_folio.Catalog.Rows.{filter}
use go_folio.Prelude.{
  ◌≡◌, ◌∷◌, [], refl, pos, some, none, ok, arith, true, List, All, if◌then◌else◌, eqb, eqb_ℤ, ◌==◌,
}
use go_folio.Catalog.Paging.{is_after, Codec, SyncCursor, is_since, follow, list_with}
use go_folio.Catalog.Domain.{ProductVariant, Product, validate_product}
use go_folio.Catalog.Handler.{of_product}
use go_folio.Catalog.Service.{Repository, RepoErr}
use go_folio.Catalog.Paging.Filter.{IsOrdered}

-- Cursors as a time, a colon and an id, with times and ids of one digit.
abbrev rows : List SyncCursor
rows =
    record { updated_at = 3; id = pos 1 }
    ∷ record { updated_at = 3; id = pos 4 }
    ∷ record { updated_at = 7; id = pos 2 }
    ∷ []

-- A code that knows the cursors of these rows.
abbrev codec : Codec
codec = record {
  encode = λ c. if eqb c.updated_at 7 then "c" else if eqb_ℤ c.id (pos 1) then "a" else "b";
  decode = λ t.
      if t == "a"
      then some (record { updated_at = 3; id = pos 1 })
      else if t == "b"
      then some (record { updated_at = 3; id = pos 4 })
      else some (record { updated_at = 7; id = pos 2 });
}

rows-IsOrdered : IsOrdered (λ c. c) rows
unfolding is_after
rows-IsOrdered = ((refl, (refl, tt)), ((refl, tt), (tt, tt)))

rows-IsFaithful : All (IsFaithful codec) rows
rows-IsFaithful = (
  record { reads = refl; shows = refl },
  (record { reads = refl; shows = refl }, (record { reads = refl; shows = refl }, tt)),
)

-- Pages of two rows; the third request is not needed.
follow_complete_example :
    follow
      (λ q. list_with (λ c. c) (pos 500) (pos 1000) codec (some rows) q 9)
      4
      (record { page_size = pos 2; cursor = ""; updated_since = none; after = none })
    ≡ ok rows
unfolding filter is_since
follow_complete_example =
    follow_complete (λ c. c) codec (pos 500) (pos 1000) (omega arith) (omega arith) rows
      rows-IsOrdered (refl, (refl, (refl, tt))) rows-IsFaithful (pos 2) none 9 4 (omega arith)

abbrev wallet : Product
wallet = Handler.new_product (record {
  product_code = "BM-02";
  title = "Billetera";
  slug = "billetera";
  short_description = "";
  department = "";
  category = "";
  active = true;
})

abbrev no_variant : ProductVariant
no_variant =
    Handler.new_variant (pos 1)
      (record {
        sku = "";
        color_name = "";
        color_slug = "";
        primary_color_hex = "";
        retail_price_cents = none;
        currency = "";
        active = true;
      })
      (pos 0)

-- A database of one product, in which nothing fails.
abbrev one : Repository Product
one = record {
  begin = λ p. (true, p);
  commit = λ p. (true, p);
  rollback = λ p. p;
  get_product_by_id = λ id p. (ok p, p);
  get_product_by_id_for_update = λ id p. (ok p, p);
  get_product_by_slug = λ slug p. (ok p, p);
  create_product = λ new p. (ok new, new);
  update_product = λ id new p. (ok new, new);
  delete_product = λ id p. (ok tt, p);
  add_variant = λ v p. (ok v, p);
  get_variant_by_sku = λ sku p. (ok no_variant, p);
  update_variant_pricing = λ sku retail sale currency p. (ok tt, p);
  list_variants_by_product_id = λ id p. (ok [], p);
  list_images_by_product_id = λ id p. (ok [], p);
  add_image = λ img p. (ok img, p);
}

abbrev belt_request : Handler.CreateVariantRequest
belt_request = record {
  sku = "BEL-CLB-002";
  color_name = "Negro";
  color_slug = "negro";
  primary_color_hex = "#000000";
  retail_price_cents = some (pos 45000);
  currency = "CRC";
  active = true;
}

add_variant-refuses_example :
    IsRefused one wallet (Handler.add_variant one "1" (some belt_request) wallet)
add_variant-refuses_example = add_variant-refuses one "1" (some belt_request) wallet

abbrev retitle : Service.ProductUpdate
retitle = record {
  product_code = none;
  title = some "Billetera de Colores";
  slug = none;
  short_description = none;
  department = none;
  category = none;
  primary_image_url = none;
  active = none;
}

retitled :
    (Service.update_product one (pos 1) retitle wallet).0 ≡ ok (Service.merged retitle wallet)
unfolding Service.update_product Service.in_tx Handler.new_product
retitled = refl

update_product-ok_example :
    (true ≡ true)
    × ((old : Product) × ((one.get_product_by_id_for_update (pos 1) wallet).0 ≡ ok old)
        × (validate_product (Service.merged retitle old) ≡ none)
        × (((one.update_product (pos 1) (Service.merged retitle old) wallet).0
              ≡ ok (Service.merged retitle wallet))
            × (true ≡ true)))
update_product-ok_example =
    update_product-ok one (pos 1) retitle wallet (Service.merged retitle wallet) retitled
