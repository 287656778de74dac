-- ===== src/Catalog/Db/Writes.antt =====
-- An accepted INSERT or UPDATE of a product: what it found free, and that the tables stay sound.
use go_folio.Prelude.{
  ◌≡◌, sym, subst, ◌∷◌, ℕ, ℤ, none, some, ok, Result, inl, inr, ◌⊎◌, Option-cases,
}
use go_folio.Catalog.Rows.{int_key, text_key, find, put, erase}
use go_folio.Catalog.Rows.Laws.{erase_self, put-IsUniqueBy, All-weaken}
use go_folio.Catalog.Domain.{Product, ProductVariant, ProductImage}
use go_folio.Catalog.Db.{
  Db, Refusal, find_product, inserted_product, insert_product, updated_product, write_product,
  update_found, update_product,
}
use go_folio.Catalog.Db.Sound.{
  IsSound, unless-ok, is_some-false, find-cons_is_some, find-put-is_some,
}

-- What an accepted INSERT of a product found free, and left.
pub insert_product-ok :
    (id : ℤ) (now : ℕ) (p : Product) (db db' : Db) (out : ℤ)
    → insert_product id now p db ≡ ok (out, db')
    → (find_product id db ≡ none)
      × (find (λ (q : Product). q.product_code) p.product_code db.products ≡ none)
      × (find (λ (q : Product). q.slug) p.slug db.products ≡ none)
      × (out ≡ id)
      × (db' ≡ record db { products = inserted_product id now p ∷ db.products })
unfolding insert_product
insert_product-ok id now p db db' out e =
    let (free_id, e1) = unless-ok _ _ _ (out, db') e in
    let (free_code, e2) = unless-ok _ _ _ (out, db') e1 in
    let (free_slug, e3) = unless-ok _ _ _ (out, db') e2 in
    (is_some-false _ free_id, is_some-false _ free_code, is_some-false _ free_slug, cc, cc)

pub insert_product-IsSound :
    (id : ℤ) (now : ℕ) (p : Product) (db db' : Db) (out : ℤ)
    → insert_product id now p db ≡ ok (out, db')
    → IsSound db
    → IsSound db'
unfolding inserted_product
insert_product-IsSound id now p db db' out e h =
    let (free_id, free_code, free_slug, _, left) = insert_product-ok id now p db db' out e in
    let n = inserted_product id now p in
    let known = λ (a : ℤ). find-cons_is_some (λ (q : Product). q.id) a n db.products in
    subst IsSound (sym left) (record {
      ids = (free_id, h.ids);
      codes = (free_code, h.codes);
      slugs = (free_slug, h.slugs);
      variant_ids = h.variant_ids;
      skus = h.skus;
      image_ids = h.image_ids;
      homes = All-weaken _ _ db.variants (λ (v : ProductVariant) f. known v.product_id f) h.homes;
      storable = h.storable;
      subjects = All-weaken _ _ db.images (λ (i : ProductImage) f. known i.product_id f) h.subjects;
      colours = h.colours;
    })

-- What an accepted UPDATE of a product read, and left.
pub update_product-ok :
    (id : ℤ) (now : ℕ) (p : Product) (db db' : Db) (n : ℕ)
    → update_product id now p db ≡ ok (n, db')
    → ((n ≡ 0) × (find_product id db ≡ none) × (db' ≡ db))
      ⊎ ((n ≡ 1)
          × ((old : Product) × (find_product id db ≡ some old)
              × (find
                    (λ (q : Product). q.product_code)
                    p.product_code
                    (erase (λ (q : Product). q.id) old.id db.products)
                  ≡ none)
              × (find
                    (λ (q : Product). q.slug)
                    p.slug
                    (erase (λ (q : Product). q.id) old.id db.products)
                  ≡ none)
              × (db' ≡ record db {
                products = put (λ (q : Product). q.id) (updated_product now old p) db.products;
              })))
unfolding update_product update_found write_product updated_product
update_product-ok id now p db db' n e = elim (Option-cases (find_product id db)) [
  | inl absent ↦
      let none_written : Result Refusal (ℕ × Db) = ok (0, db) in
      let gone : none_written ≡ ok (n, db') = (rw absent at e) in inl (cc, absent, cc)
  | inr (old, found) ↦
      let e0 : write_product (updated_product now old p) db ≡ ok (n, db') = (rw found at e) in
      let (free_code, e1) = unless-ok _ _ _ (n, db') e0 in
      let (free_slug, e2) = unless-ok _ _ _ (n, db') e1 in
      inr (cc, (old, found, is_some-false _ free_code, is_some-false _ free_slug, cc))
]

pub update_product-IsSound :
    (id : ℤ) (now : ℕ) (p : Product) (db db' : Db) (n : ℕ)
    → update_product id now p db ≡ ok (n, db')
    → IsSound db
    → IsSound db'
unfolding updated_product
update_product-IsSound id now p db db' n e h = elim (update_product-ok id now p db db' n e) [
  | inl (_, _, same) ↦ subst IsSound (sym same) h
  | inr (_, (old, found, free_code, free_slug, left)) ↦
      let key = λ (q : Product). q.id in
      let row = updated_product now old p in
      let known = λ (a : ℤ). find-put-is_some key row db.products a in
      subst IsSound (sym left) (record {
        ids =
            put-IsUniqueBy key key row db.products h.ids h.ids (erase_self key old.id db.products);
        codes =
            put-IsUniqueBy key (λ (q : Product). q.product_code) row db.products h.ids h.codes
              free_code;
        slugs =
            put-IsUniqueBy key (λ (q : Product). q.slug) row db.products h.ids h.slugs free_slug;
        variant_ids = h.variant_ids;
        skus = h.skus;
        image_ids = h.image_ids;
        homes = All-weaken _ _ db.variants (λ (v : ProductVariant) f. known v.product_id f) h.homes;
        storable = h.storable;
        subjects =
            All-weaken _ _ db.images (λ (i : ProductImage) f. known i.product_id f) h.subjects;
        colours = h.colours;
      })
]
