-- ===== src/Catalog/Db/Deletion.antt =====
-- An accepted DELETE of a product: what was left, and that the tables stay sound.
use go_folio.Prelude.{
  ◌≡◌, refl, sym, subst, ℕ, ℤ, true, false, not, none, some, Option, ok, Result, arith, inl, inr,
  ◌⊎◌, Option-cases, eqb_ℤ, eqb_ℤ_iff,
}
use go_folio.Catalog.Rows.{int_key, text_key, find, erase, is_some}
use go_folio.Catalog.Rows.Laws.{
  find-filter, find-erase, filter-IsUniqueBy, find-none, All-weaken, All-both, All-filter,
}
use go_folio.Catalog.Domain.{Product, ProductVariant, ProductImage}
use go_folio.Catalog.Db.{
  Db, Refusal, find_product, is_of, is_dropped, without_product, delete_found, delete_product,
  is_known_variant,
}
use go_folio.Catalog.Db.Sound.{IsSound, unless-ok, is_some-false, is_some-true}

-- An accepted DELETE of a product: the tables without it, where no image names it.
pub delete_product-ok :
    (id : ℤ) (db db' : Db) (n : ℕ)
    → delete_product id db ≡ ok (n, db')
    → ((n ≡ 0) × (find_product id db ≡ none) × (db' ≡ db))
      ⊎ ((n ≡ 1)
          × ((old : Product) × (find_product id db ≡ some old)
              × (find (λ (i : ProductImage). i.product_id) id db.images ≡ none)
              × (db' ≡ without_product id db)))
unfolding delete_product delete_found
delete_product-ok id db db' n e = elim (Option-cases (find_product id db)) [
  | inl absent ↦
      let none_written : Result Refusal (ℕ × Db) = ok (0, db) in
      let gone : none_written ≡ ok (n, db') = (rw absent at e) in inl (cc, absent, cc)
  | inr (old, found) ↦
      let e0 : delete_found id (some old) db ≡ ok (n, db') = (rw found at e) in
      let (free, e1) = unless-ok _ _ _ (n, db') e0 in
      inr (cc, (old, found, is_some-false _ free, cc))
]

kept_home :
    (id : ℤ) (db : Db) (v : ProductVariant)
    → (is_some (find_product v.product_id db) ≡ true) × (not (eqb_ℤ v.product_id id) ≡ true)
    → is_some (find_product v.product_id (without_product id db)) ≡ true
unfolding without_product
kept_home id db v h = ground (
  arith,
  find-erase (λ (q : Product). q.id) id v.product_id db.products,
  eqb_ℤ_iff v.product_id id,
  eqb_ℤ_iff id v.product_id,
)

kept_subject :
    (id : ℤ) (db : Db) (i : ProductImage)
    → (is_some (find_product i.product_id db) ≡ true) × (eqb_ℤ i.product_id id ≡ false)
    → is_some (find_product i.product_id (without_product id db)) ≡ true
unfolding without_product
kept_subject id db i h = ground (
  arith,
  find-erase (λ (q : Product). q.id) id i.product_id db.products,
  eqb_ℤ_iff i.product_id id,
  eqb_ℤ_iff id i.product_id,
)

kept_colour :
    (id : ℤ) (db : Db) (variant : Option ℤ)
    → (is_known_variant variant db.variants ≡ true) × (not (is_dropped id db variant) ≡ true)
    → is_known_variant variant (without_product id db).variants ≡ true
unfolding without_product is_dropped is_of
kept_colour id db none h = refl
kept_colour id db (some a) h =
    let (v, found) = is_some-true _ h.0 in
    let foreign : not (is_of id (some v)) ≡ true = (rw found at h.1) in
    let kept =
      find-filter (λ (w : ProductVariant). w.id)
        (λ (w : ProductVariant). not (eqb_ℤ w.product_id id)) db.variants a v found foreign in
    rw kept refl

pub delete_product-IsSound :
    (id : ℤ) (db db' : Db) (n : ℕ) → delete_product id db ≡ ok (n, db') → IsSound db → IsSound db'
unfolding without_product erase
delete_product-IsSound id db db' n e h = elim (delete_product-ok id db db' n e) [
  | inl (_, _, same) ↦ subst IsSound (sym same) h
  | inr (_, (old, found, free, left)) ↦
      let of_another = λ (v : ProductVariant). not (eqb_ℤ v.product_id id) in
      let kept = λ (i : ProductImage). not (is_dropped id db i.variant_id) in
      let others = λ (q : Product). not (eqb_ℤ q.id id) in
      subst IsSound (sym left) (record {
        ids = filter-IsUniqueBy (λ (q : Product). q.id) others db.products h.ids;
        codes = filter-IsUniqueBy (λ (q : Product). q.product_code) others db.products h.codes;
        slugs = filter-IsUniqueBy (λ (q : Product). q.slug) others db.products h.slugs;
        variant_ids =
            filter-IsUniqueBy (λ (v : ProductVariant). v.id) of_another db.variants h.variant_ids;
        skus = filter-IsUniqueBy (λ (v : ProductVariant). v.sku) of_another db.variants h.skus;
        image_ids = filter-IsUniqueBy (λ (i : ProductImage). i.id) kept db.images h.image_ids;
        homes = All-weaken _ _ _ (kept_home id db) (All-filter _ of_another db.variants h.homes);
        storable = All-weaken _ _ _ (λ v f. f.0) (All-filter _ of_another db.variants h.storable);
        subjects = All-weaken _ _ _ (kept_subject id db) (
            All-both _ _ _ (All-weaken _ _ _ (λ v f. f.0) (All-filter _ kept db.images h.subjects))
              (All-weaken _ _ _ (λ v f. f.0)
                (All-filter _ kept db.images
                  (find-none (λ (i : ProductImage). i.product_id) id db.images free))));
        colours =
            All-weaken _ _ _ (λ (i : ProductImage) f. kept_colour id db i.variant_id f)
              (All-filter _ kept db.images h.colours);
      })
]
