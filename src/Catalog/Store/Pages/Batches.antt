-- ===== src/Catalog/Store/Pages/Batches.antt =====
-- The rows that are loaded for many products at once, product by product.
use go_folio.Prelude.{
  ◌≡◌, refl, ap, sym, ◌∙◌, subst, ℤ, eqb_ℤ, eqb_ℤ_iff, Bool, true, List, [], ◌∷◌, map, All,
  Bool-cases, inl, inr, arith, if◌then◌else◌,
}
use go_folio.Catalog.Rows.{filter, order_by}
use go_folio.Catalog.Rows.Laws.{All-weaken}
use go_folio.Catalog.Rows.Order.{IsOrder, filter-order_by}
use go_folio.Catalog.Domain.{Product, ProductVariant, ProductImage, ProductProjection}
use go_folio.Catalog.Db.{Db, select_variants, select_images}
use go_folio.Catalog.Store.Pages.{by_id, by_place, is_in, ids_of, projection}

by_id-IsOrder : IsOrder by_id
by_id-IsOrder = record { total = λ v w e. ground arith; chains = λ u v w e f. ground arith }

by_place-IsOrder : IsOrder by_place
by_place-IsOrder = record { total = λ i j e. ground arith; chains = λ h i j e f. ground arith }

filter-narrow :
    {A : Type 0} (p q : A → Bool) (xs : List A)
    → ((x : A) → p x ≡ true → q x ≡ true)
    → filter p (filter q xs) ≡ filter p xs
unfolding filter
filter-narrow p q [] h = refl
filter-narrow p q (x ∷ xs) h = elim (Bool-cases (p x)) [
  | inl kept ↦ rw (h x kept) (ap (λ ys. if p x then x ∷ ys else ys) (filter-narrow p q xs h))
  | inr dropped ↦ ground (arith, filter-narrow p q xs h)
]

-- One key's rows, of the ordered rows of many.
batch :
    {A : Type 0} (before : A → A → Bool) (owner : A → ℤ) (id : ℤ) (ids : List ℤ) (rows : List A)
    → IsOrder before
    → is_in id ids ≡ true
    → filter (λ x. eqb_ℤ (owner x) id) (order_by before (filter (λ x. is_in (owner x) ids) rows))
      ≡ order_by before (filter (λ x. eqb_ℤ (owner x) id) rows)
batch before owner id ids rows order member =
    filter-order_by before order (λ x. eqb_ℤ (owner x) id) (filter (λ x. is_in (owner x) ids) rows)
    ∙ ap (order_by before) (
        filter-narrow (λ x. eqb_ℤ (owner x) id) (λ x. is_in (owner x) ids) rows
          (λ x e. subst (λ j. is_in j ids ≡ true) (sym ((eqb_ℤ_iff (owner x) id).0 e)) member))

-- A product as the reads by its id have it.
abbrev pub projected : Db → Product → ProductProjection
projected db p = record {
  product = p;
  variants = select_variants p.id db;
  images = select_images (λ (i : ProductImage). eqb_ℤ i.product_id p.id) db;
}

projection-projected :
    (ids : List ℤ) (db : Db) (p : Product)
    → is_in p.id ids ≡ true
    → projection
        (order_by by_id (filter (λ (v : ProductVariant). is_in v.product_id ids) db.variants))
        (order_by by_place (filter (λ (i : ProductImage). is_in i.product_id ids) db.images))
        p
      ≡ projected db p
unfolding projection select_variants select_images
projection-projected ids db p member =
    let variants =
      batch by_id (λ (v : ProductVariant). v.product_id) p.id ids db.variants by_id-IsOrder
        member in
    let images =
      batch by_place (λ (i : ProductImage). i.product_id) p.id ids db.images by_place-IsOrder
        member in
    rw (variants, images) refl

is_in-here : (id : ℤ) (js : List ℤ) → is_in id (id ∷ js) ≡ true
unfolding is_in
is_in-here id js = ground (arith, eqb_ℤ_iff id id)

is_in-later : (id j : ℤ) (js : List ℤ) → is_in id js ≡ true → is_in id (j ∷ js) ≡ true
unfolding is_in
is_in-later id j js e = ground arith

All-listed : (ps : List Product) → All (λ (p : Product). is_in p.id (ids_of ps) ≡ true) ps
All-listed [] = tt
All-listed (p ∷ ps) = (
  is_in-here p.id (ids_of ps),
  All-weaken _ _ ps (λ (q : Product) e. is_in-later q.id p.id (ids_of ps) e) (All-listed ps),
)

map-agree :
    {A B : Type 0} (f g : A → B) (xs : List A) → All (λ x. f x ≡ g x) xs → map f xs ≡ map g xs
map-agree f g [] h = refl
map-agree f g (x ∷ xs) h = rw (h.0, map-agree f g xs h.1) refl

-- Loaded at once or one by one, the projections of some products are the same.
pub projections-projected :
    (ps : List Product) (db : Db)
    → map
        (projection
          (order_by by_id
            (filter (λ (v : ProductVariant). is_in v.product_id (ids_of ps)) db.variants))
          (order_by by_place
            (filter (λ (i : ProductImage). is_in i.product_id (ids_of ps)) db.images)))
        ps
      ≡ map (projected db) ps
projections-projected ps db =
    map-agree _ (projected db) ps (
      All-weaken _ _ ps (λ (p : Product) e. projection-projected (ids_of ps) db p e)
        (All-listed ps))
