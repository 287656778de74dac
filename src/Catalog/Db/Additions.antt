-- ===== src/Catalog/Db/Additions.antt =====
-- An accepted INSERT or UPDATE of a variant, or INSERT of an image: the tables stay sound.
use go_folio.Prelude.{
  ◌&&◌, ◌≡◌, refl, sym, subst, ◌∷◌, ℕ, ℤ, String, List, Bool, true, false, not, none, some, Option,
  ok, Result, inl, inr, ◌⊎◌, Option-cases,
}
use go_folio.Catalog.Rows.{int_key, text_key, find, put, is_some}
use go_folio.Catalog.Rows.Laws.{
  find-key, find-erase_unique, erase_self, put-IsUniqueBy, find-All, All-put, All-weaken,
}
use go_folio.Catalog.Domain.{ProductVariant, ProductImage}
use go_folio.Catalog.Db.{
  is_drawable, Db, Refusal, find_product, find_variant, is_storable, inserted_variant,
  insert_variant, priced_variant, price_found, update_variant_pricing, price_row, is_known_variant,
  insert_image,
}
use go_folio.Catalog.Db.Sound.{
  IsSound, unless-ok, is_some-false, find-cons_is_some, find-put-is_some,
}

not-false : (b : Bool) → not b ≡ false → b ≡ true
not-false true e = refl
not-false false e = cc

and-true : (a b : Bool) → a && b ≡ true → (a ≡ true) × (b ≡ true)
and-true true b e = (refl, e)
and-true false b e = absurd (cc)

-- What an accepted INSERT of a variant found, and left.
pub insert_variant-ok :
    (id : ℤ) (now : ℕ) (v : ProductVariant) (db db' : Db) (out : ℤ)
    → insert_variant id now v db ≡ ok (out, db')
    → (is_storable v ≡ true)
      × (find_variant id db ≡ none)
      × (find (λ (w : ProductVariant). w.sku) v.sku db.variants ≡ none)
      × (is_some (find_product v.product_id db) ≡ true)
      × (out ≡ id)
      × (db' ≡ record db { variants = inserted_variant id now v ∷ db.variants })
unfolding insert_variant
insert_variant-ok id now v db db' out e =
    let (fits, e1) = unless-ok _ _ _ (out, db') e in
    let (free_id, e2) = unless-ok _ _ _ (out, db') e1 in
    let (free_sku, e3) = unless-ok _ _ _ (out, db') e2 in
    let (home, e4) = unless-ok _ _ _ (out, db') e3 in
    (not-false _ fits, is_some-false _ free_id, is_some-false _ free_sku, not-false _ home, cc, cc)

known_variant :
    (variant : Option ℤ) (v : ProductVariant) (vs : List ProductVariant)
    → is_known_variant variant vs ≡ true
    → is_known_variant variant (v ∷ vs) ≡ true
known_variant none v vs e = refl
known_variant (some a) v vs e = find-cons_is_some (λ (w : ProductVariant). w.id) a v vs e

pub insert_variant-IsSound :
    (id : ℤ) (now : ℕ) (v : ProductVariant) (db db' : Db) (out : ℤ)
    → insert_variant id now v db ≡ ok (out, db')
    → IsSound db
    → IsSound db'
unfolding inserted_variant is_storable
insert_variant-IsSound id now v db db' out e h =
    let (fits, free_id, free_sku, home, _, left) = insert_variant-ok id now v db db' out e in
    let row = inserted_variant id now v in
    subst IsSound (sym left) (record {
      ids = h.ids;
      codes = h.codes;
      slugs = h.slugs;
      variant_ids = (free_id, h.variant_ids);
      skus = (free_sku, h.skus);
      image_ids = h.image_ids;
      homes = (home, h.homes);
      storable = (fits, h.storable);
      subjects = h.subjects;
      colours =
          All-weaken _ _ db.images
            (λ (i : ProductImage) f. known_variant i.variant_id row db.variants f) h.colours;
    })

-- What an accepted UPDATE of a price read, and left.
pub update_variant_pricing-ok :
    (sku : String) (now : ℕ) (retail : ℤ) (sale : Option ℤ) (currency : String) (db db' : Db)
    (n : ℕ)
    → update_variant_pricing sku now retail sale currency db ≡ ok (n, db')
    → ((n ≡ 0) × (find (λ (w : ProductVariant). w.sku) sku db.variants ≡ none) × (db' ≡ db))
      ⊎ ((n ≡ 1)
          × ((old : ProductVariant) × (find (λ (w : ProductVariant). w.sku) sku db.variants
                ≡ some old)
              × (is_storable (priced_variant now retail sale currency old) ≡ true)
              × (db' ≡ record db {
                variants =
                    put
                      (λ (w : ProductVariant). w.id)
                      (priced_variant now retail sale currency old)
                      db.variants;
              })))
unfolding update_variant_pricing price_row price_found
update_variant_pricing-ok sku now retail sale currency db db' n e =
    elim (Option-cases (find (λ (w : ProductVariant). w.sku) sku db.variants)) [
      | inl absent ↦
          let none_written : Result Refusal (ℕ × Db) = ok (0, db) in
          let gone : none_written ≡ ok (n, db') = (rw absent at e) in inl (cc, absent, cc)
      | inr (old, found) ↦
          let e0 : price_found (priced_variant now retail sale currency old) db ≡ ok (n, db') =
            (rw found at e) in
          let (fits, e1) = unless-ok _ _ _ (n, db') e0 in
          inr (cc, (old, found, not-false _ fits, cc))
    ]

put_known :
    (variant : Option ℤ) (v : ProductVariant) (vs : List ProductVariant)
    → is_known_variant variant vs ≡ true
    → is_known_variant variant (put (λ (w : ProductVariant). w.id) v vs) ≡ true
put_known none v vs e = refl
put_known (some a) v vs e = find-put-is_some (λ (w : ProductVariant). w.id) v vs a e

pub update_variant_pricing-IsSound :
    (sku : String) (now : ℕ) (retail : ℤ) (sale : Option ℤ) (currency : String) (db db' : Db)
    (n : ℕ)
    → update_variant_pricing sku now retail sale currency db ≡ ok (n, db')
    → IsSound db
    → IsSound db'
unfolding priced_variant
update_variant_pricing-IsSound sku now retail sale currency db db' n e h =
    elim (update_variant_pricing-ok sku now retail sale currency db db' n e) [
      | inl (_, _, same) ↦ subst IsSound (sym same) h
      | inr (_, (old, found, fits, left)) ↦
          let key = λ (w : ProductVariant). w.id in
          let row = priced_variant now retail sale currency old in
          let named = find-key (λ (w : ProductVariant). w.sku) sku db.variants old found in
          let own : find (λ (w : ProductVariant). w.sku) old.sku db.variants ≡ some old =
            subst (λ k. find (λ (w : ProductVariant). w.sku) k db.variants ≡ some old) (sym named)
              found in
          let home =
            find-All (λ (w : ProductVariant). w.sku)
              (λ (w : ProductVariant). is_some (find_product w.product_id db) ≡ true) sku
              db.variants old found h.homes in
          subst IsSound (sym left) (record {
            ids = h.ids;
            codes = h.codes;
            slugs = h.slugs;
            variant_ids =
                put-IsUniqueBy key key row db.variants h.variant_ids h.variant_ids
                  (erase_self key old.id db.variants);
            skus =
                put-IsUniqueBy key (λ (w : ProductVariant). w.sku) row db.variants h.variant_ids
                  h.skus
                  (find-erase_unique key (λ (w : ProductVariant). w.sku) old.sku db.variants old
                    h.skus own);
            image_ids = h.image_ids;
            homes = All-put key _ row db.variants home h.homes;
            storable = All-put key _ row db.variants fits h.storable;
            subjects = h.subjects;
            colours =
                All-weaken _ _ db.images
                  (λ (i : ProductImage) f. put_known i.variant_id row db.variants f) h.colours;
          })
    ]

-- What an accepted INSERT of an image found, and left.
pub insert_image-ok :
    (id : ℤ) (now : ℕ) (i : ProductImage) (db db' : Db) (out : ℤ)
    → insert_image id now i db ≡ ok (out, db')
    → (is_drawable i ≡ true)
      × (find (λ (j : ProductImage). j.id) id db.images ≡ none)
      × (is_some (find_product i.product_id db) ≡ true)
      × (is_known_variant i.variant_id db.variants ≡ true)
      × (out ≡ id)
      × (db' ≡ record db {
        images = record i { id = id; created_at = now; updated_at = now } ∷ db.images;
      })
unfolding insert_image
insert_image-ok id now i db db' out e =
    let (fits, e1) = unless-ok _ _ _ (out, db') e in
    let (free_id, e2) = unless-ok _ _ _ (out, db') e1 in
    let (known, e3) = unless-ok _ _ _ (out, db') e2 in
    let (subject, colour) =
      and-true (is_some (find_product i.product_id db)) (is_known_variant i.variant_id db.variants)
        (not-false _ known) in
    (not-false _ fits, is_some-false _ free_id, subject, colour, cc, cc)

pub insert_image-IsSound :
    (id : ℤ) (now : ℕ) (i : ProductImage) (db db' : Db) (out : ℤ)
    → insert_image id now i db ≡ ok (out, db')
    → IsSound db
    → IsSound db'
insert_image-IsSound id now i db db' out e h =
    let (_, free_id, subject, colour, _, left) = insert_image-ok id now i db db' out e in
    subst IsSound (sym left) (record {
      ids = h.ids;
      codes = h.codes;
      slugs = h.slugs;
      variant_ids = h.variant_ids;
      skus = h.skus;
      image_ids = (free_id, h.image_ids);
      homes = h.homes;
      storable = h.storable;
      subjects = (subject, h.subjects);
      colours = (colour, h.colours);
    })
