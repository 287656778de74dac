-- ===== src/Catalog/Store/Outcomes.antt =====
-- What the writes on products answer where no statement fails, on every branch.
use mathlib.Core.List.{Mem}
use go_folio.Prelude.{
  ◌≡◌, ◌≢◌, ◌↔◌, ◌⊎◌, refl, suc, ℤ, pos, Bool, true, false, not, ◌||◌, Option, none, some, [], ◌∷◌,
  Result, ok, err, if◌then◌else◌, Option-cases, inl, inr, eqb_ℤ, eqb_ℤ_iff, arith, subst, sym,
}
use go_folio.Catalog.Rows.{int_key, text_key, find, is_some}
use go_folio.Catalog.Rows.Laws.{is_refl, find-erase, filter-mem}
use go_folio.Catalog.Domain.{
  Product, ProductVariant, ProductImage, validate_product, validate_variant,
}
use go_folio.Catalog.Db
use go_folio.Catalog.Db.{
  Db, find_product, find_variant, insert_product, insert_variant, inserted_product, without_product,
  delete_found, is_dropped, is_of,
}
use go_folio.Catalog.Service
use go_folio.Catalog.Service.{
  ServiceErr, product_conflict, product_missing, unexpected, mapped, map_repo_err, where_valid,
  in_tx, begun, ended, committed,
}
use go_folio.Catalog.Store.{
  Session, postgres, create_product, delete_product, begin, commit, rollback, statement, answered,
  map_pg_error, get_product_by_id, query, or_missing, if_any, add_variant, get_variant_by_id,
}

-- The session with no statement left to fail.
abbrev pub calm : Session → Session
calm s = record s { faults = [] }

abbrev pub next_id : Session → ℤ
next_id s = pos (suc s.product_ids)

abbrev pub is_code_taken : Product → Db → Bool
is_code_taken p db = is_some (find (λ (q : Product). q.product_code) p.product_code db.products)

abbrev pub is_slug_taken : Product → Db → Bool
is_slug_taken p db = is_some (find (λ (q : Product). q.slug) p.slug db.products)

-- The row of a product that was created.
abbrev pub created_row : Product → Session → Product
created_row p s = record p {
  id = next_id s;
  created_at = s.now;
  updated_at = s.now;
  last_synced_at = none;
}

-- Where no statement fails, and the next id of the sequence is free, the create of a valid product whose
-- code or slug is taken answers a conflict and every table stays. Any other valid product is stored,
-- as the one new row, with that id, the time of the session as both its times, no time of a sync and
-- every other column as it was given; the answer is that row.
pub create_product-outcome :
    (p : Product) (s : Session)
    → validate_product p ≡ none
    → find_product (next_id s) s.tables ≡ none
    → let (answer, after) = Service.create_product postgres p (calm s) in
      (answer ≡ (
        if is_code_taken p s.tables || is_slug_taken p s.tables
        then err product_conflict
        else ok (created_row p s)))
      × (after.tables ≡ (
          if is_code_taken p s.tables || is_slug_taken p s.tables
          then s.tables
          else record s.tables { products = created_row p s ∷ s.tables.products }))
unfolding Service.create_product where_valid in_tx begun ended committed mapped map_repo_err
    postgres begin commit rollback create_product statement answered map_pg_error insert_product
    get_product_by_id query or_missing inserted_product find
create_product-outcome p s valid fresh =
    let key = λ (q : Product). q.id in
    elim (Option-cases (find (λ (q : Product). q.product_code) p.product_code s.tables.products)) [
      | inr (_, taken) ↦ rw (valid, fresh, taken) (refl, refl)
      | inl free_code ↦
          elim (Option-cases (find (λ (q : Product). q.slug) p.slug s.tables.products)) [
            | inr (_, taken) ↦ rw (valid, fresh, free_code, taken) (refl, refl)
            | inl free_slug ↦
                rw (valid, fresh, free_code, free_slug, is_refl key (next_id s)) (refl, refl)
          ]
    ]

-- The tables `after` are `db` without a product, its variants, and the images of its variants.
abbrev pub IsDeleted : ℤ → Db → Db → Type 0
IsDeleted id db after =
    ((k : ℤ) → find_product k after ≡ (if eqb_ℤ id k then none else find_product k db))
    × ((v : ProductVariant) → Mem v after.variants ↔ (Mem v db.variants × (v.product_id ≢ id)))
    × ((i : ProductImage)
        → Mem i after.images ↔ (
            Mem i db.images
            × ((a : ℤ) (v : ProductVariant)
                → i.variant_id ≡ some a
                → find_variant a db ≡ some v
                → v.product_id ≢ id)))

ne_of_not : (a b : ℤ) → not (eqb_ℤ a b) ≡ true → a ≢ b
ne_of_not a b e = ground (arith, eqb_ℤ_iff a b)

not_of_ne : (a b : ℤ) → a ≢ b → not (eqb_ℤ a b) ≡ true
not_of_ne a b e = ground (arith, eqb_ℤ_iff a b)

foreign-variant :
    (id : ℤ) (db : Db) (variant : Option ℤ)
    → (not (is_dropped id db variant) ≡ true) ↔ (
        (a : ℤ) (v : ProductVariant)
        → variant ≡ some a
        → find_variant a db ≡ some v
        → v.product_id ≢ id)
unfolding is_dropped is_of
foreign-variant id db none = (λ e a v none_named found. cc, λ f. refl)
foreign-variant id db (some a) = elim (Option-cases (find_variant a db)) [
  | inl absent ↦ rw absent (
    λ e b v named found.
        let key : a ≡ b = cc in
        let here : find_variant a db ≡ some v =
          subst (λ k. find_variant k db ≡ some v) (sym key) found in
        absurd (cc),
    λ f. refl,
  )
  | inr (v, there) ↦ rw there (
    λ e b w named found.
        let key : a ≡ b = cc in
        let here : find_variant a db ≡ some w =
          subst (λ k. find_variant k db ≡ some w) (sym key) found in
        let same : v ≡ w = cc in subst (λ u. u.product_id ≢ id) same (ne_of_not v.product_id id e),
    λ f. not_of_ne v.product_id id (f a v refl there),
  )
]

without_product-IsDeleted : (id : ℤ) (db : Db) → IsDeleted id db (without_product id db)
unfolding without_product
without_product-IsDeleted id db = (
  λ k. find-erase (λ (q : Product). q.id) id k db.products,
  λ v.
      let in_filter =
        filter-mem (λ (w : ProductVariant). not (eqb_ℤ w.product_id id)) v db.variants in
      (
        λ m. ((in_filter.0 m).0, ne_of_not v.product_id id (in_filter.0 m).1),
        λ h. in_filter.1 (h.0, not_of_ne v.product_id id h.1),
      ),
  λ i.
      let in_filter =
        filter-mem (λ (j : ProductImage). not (is_dropped id db j.variant_id)) i db.images in
      let foreign = foreign-variant id db i.variant_id in
      (
        λ m. ((in_filter.0 m).0, foreign.0 (in_filter.0 m).1),
        λ h. in_filter.1 (h.0, foreign.1 h.1),
      ),
)

abbrev pub image_of : ℤ → Db → Option ProductImage
image_of id db = find (λ (i : ProductImage). i.product_id) id db.images

-- What a delete answers and leaves.
abbrev pub IsDelete : ℤ → Db → Result ServiceErr (Unit {0}) → Db → Type 0
IsDelete id db answer after =
    ((find_product id db ≡ none) × (answer ≡ err product_missing) × (after ≡ db))
    ⊎ ((old : Product) × (i : ProductImage) × (find_product id db ≡ some old)
        × (image_of id db ≡ some i)
        × (answer ≡ err unexpected)
        × (after ≡ db))
    ⊎ ((old : Product) × (find_product id db ≡ some old)
        × (image_of id db ≡ none)
        × (answer ≡ ok tt)
        × IsDeleted id db after)

-- Where no statement fails, the delete of a product that is not there answers so; one that an image
-- names is refused as an unexpected error; and in both cases every row stays. Any other is deleted:
-- exactly its row, the variants of that product, and the images of those variants are gone.
pub delete_product-outcome :
    (id : ℤ) (s : Session)
    → let (answer, after) = Service.delete_product postgres id (calm s) in
      IsDelete id s.tables answer after.tables
unfolding Service.delete_product in_tx begun ended committed mapped map_repo_err postgres begin
    commit rollback delete_product statement answered Db.delete_product delete_found if_any
delete_product-outcome id s = elim (Option-cases (find_product id s.tables)) [
  | inl absent ↦ inl (absent, rw absent refl, rw absent refl)
  | inr (old, found) ↦ elim (Option-cases (image_of id s.tables)) [
    | inr (i, pictured) ↦
        inr (inl (old, i, found, pictured, rw (found, pictured) refl, rw (found, pictured) refl))
    | inl bare ↦ inr (
        inr (
          old,
          found,
          bare,
          rw (found, bare) refl,
          rw (found, bare) (without_product-IsDeleted id s.tables),
        ))
  ]
]

-- Where the INSERT of a variant is accepted and the SELECT behind it fails, the caller is told of an
-- error, and the variant is there.
pub add_variant-torn :
    (v : ProductVariant) (s : Session) (id : ℤ) (db : Db)
    → validate_variant v ≡ none
    → insert_variant (pos (suc s.variant_ids)) s.now v s.tables ≡ ok (id, db)
    → let (answer, after) =
        Service.add_variant_to_product postgres v (record s { faults = false ∷ true ∷ [] }) in
      (answer ≡ err unexpected) × (after.tables ≡ db)
unfolding Service.add_variant_to_product where_valid mapped map_repo_err postgres add_variant
    statement answered get_variant_by_id query
add_variant-torn v s id db valid accepted = rw (valid, accepted) (refl, refl)
