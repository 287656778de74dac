-- ===== src/Catalog/Store/Refines.antt =====
-- The service over PostgreSQL is an implementation of the map from ids to products.
use go_folio.Prelude.{
  ◌≡◌, ◌≢◌, refl, sym, ap, ◌∙◌, subst, ℕ, ℤ, eqb_ℤ_iff, none, some, ◌∷◌, String, ok, inl, inr,
  arith,
}
use go_folio.Catalog.Rows.{Key, int_key, text_key, find, put, erase}
use go_folio.Catalog.Rows.Laws.{is_refl, find-key, find-put, find-erase, find-none_ne}
use go_folio.Catalog.Domain.{Product}
use mathlib.Core.Option
use go_folio.Catalog.Db
use go_folio.Catalog.Db.{
  Db, find_product, insert_product, inserted_product, updated_product, without_product,
}
use go_folio.Catalog.Db.Writes.{insert_product-ok, update_product-ok}
use go_folio.Catalog.Db.Deletion.{delete_product-ok}
use go_folio.Catalog.Store.Abstract.{view, IsWrite, IsFree}

-- An accepted INSERT, on the map.
pub inserted_view :
    (id : ℤ) (now : ℕ) (p : Product) (db db' : Db) (out : ℤ) (a : Product)
    → insert_product id now p db ≡ ok (out, db')
    → find_product out db' ≡ some a
    → (view db id ≡ none)
      × IsFree (λ _. Unit) p (view db)
      × IsWrite id (some (inserted_product id now p)) (view db) (view db')
      × (a ≡ inserted_product id now p)
unfolding inserted_product find
inserted_view id now p db db' out a e found =
    let (free_id, free_code, free_slug, same, left) = insert_product-ok id now p db db' out e in
    let key = λ (q : Product). q.id in
    let row = inserted_product id now p in
    let here : find_product id (record db { products = row ∷ db.products }) ≡ some row =
      (rw (is_refl key id) refl) in
    let there : some a ≡ some row =
      sym found ∙ ap (λ i. find_product i db') same ∙ ap (find_product id) left ∙ here in
    (
      free_id,
      λ k q _ f. (
        find-none_ne key (λ (x : Product). x.product_code) p.product_code k db.products q free_code
            f,
        find-none_ne key (λ (x : Product). x.slug) p.slug k db.products q free_slug f,
      ),
      λ k. ap (find_product k) left,
      cc,
    )

free_among_others :
    {L : Type 0} ⦃l : Key L⦄ (other : Product → L) (b : L) (id : ℤ) (db : Db)
    → find other b (erase (λ (q : Product). q.id) id db.products) ≡ none
    → (k : ℤ) (q : Product) → k ≢ id
    → find_product k db ≡ some q
    → other q ≢ b
free_among_others other b id db free k q differs found =
    let key = λ (x : Product). x.id in
    let left : find key k (erase key id db.products) ≡ some q =
      ground (arith, find-erase key id k db.products, eqb_ℤ_iff id k) in
    find-none_ne key other b k (erase key id db.products) q free left

put-view :
    (id : ℤ) (row : Product) (old : Product) (db : Db)
    → row.id ≡ id
    → find_product id db ≡ some old
    → IsWrite id
        (some row)
        (view db)
        (view (record db { products = put (λ (q : Product). q.id) row db.products }))
put-view id row old db named found k =
    let key = λ (x : Product). x.id in
    let mapped : Option.map (λ (_ : Product). row) (find_product id db) ≡ some row =
      rw found refl in
    ground (arith, find-put key row db.products k, eqb_ℤ_iff row.id k, eqb_ℤ_iff id k)

-- An accepted UPDATE that found its row, on the map.
pub updated_view :
    (id : ℤ) (now : ℕ) (p : Product) (db db' : Db) (n : ℕ) (a : Product)
    → Db.update_product id now p db ≡ ok (n, db')
    → n ≢ 0
    → find_product id db' ≡ some a
    → (old : Product) × (view db id ≡ some old)
      × IsFree (λ k. k ≢ id) p (view db)
      × IsWrite id (some (updated_product now old p)) (view db) (view db')
      × (a ≡ updated_product now old p)
unfolding updated_product
updated_view id now p db db' n a e any found = elim (update_product-ok id now p db db' n e) [
  | inl (nought, _, _) ↦ absurd (any nought)
  | inr (_, (old, was, free_code, free_slug, left)) ↦
      let key = λ (x : Product). x.id in
      let row = updated_product now old p in
      let named : old.id ≡ id = find-key key id db.products old was in
      let set : IsWrite id (some row) (view db) (view db') =
        λ k. ap (find_product k) left ∙ put-view id row old db named was k in
      let here : find_product id db' ≡ some row = set id ∙ rw (is_refl key id) refl in
      let there : some a ≡ some row = sym found ∙ here in
      let at = λ (i : ℤ) (other : Product → String) (b : String).
        find other b (erase key i db.products) ≡ none in
      (
        old,
        was,
        λ k q ne f. (
          free_among_others (λ (x : Product). x.product_code) p.product_code id db
              (subst
                (λ i.
                  find (λ (x : Product). x.product_code) p.product_code (erase key i db.products)
                  ≡ none)
                named free_code)
              k q ne f,
          free_among_others (λ (x : Product). x.slug) p.slug id db
              (subst (λ i. find (λ (x : Product). x.slug) p.slug (erase key i db.products) ≡ none)
                named free_slug)
              k q ne f,
        ),
        set,
        cc,
      )
]

-- An accepted DELETE that found its row, on the map.
pub deleted_view :
    (id : ℤ) (db db' : Db) (n : ℕ)
    → Db.delete_product id db ≡ ok (n, db')
    → n ≢ 0
    → (old : Product) × (view db id ≡ some old) × IsWrite id none (view db) (view db')
unfolding without_product
deleted_view id db db' n e any = elim (delete_product-ok id db db' n e) [
  | inl (nought, _, _) ↦ absurd (any nought)
  | inr (_, (old, was, _, left)) ↦ (
    old,
    was,
    λ k. ap (find_product k) left ∙ find-erase (λ (q : Product). q.id) id k db.products,
  )
]
