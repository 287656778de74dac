-- ===== src/Catalog/Store/Pages/Follow.antt =====
-- Following the cursors of the product projections over PostgreSQL.
use go_folio.Prelude.{
  Bool-cases, inl, inr, ◌≡◌, ap, ◌∙◌, ℕ, ◌<◌, ℤ, pos, eqb, eqb_ℤ, Bool, true, false, Option, none,
  List, [], ◌∷◌, map, length, All, ok, arith, ◌∷◌,
}
use go_folio.Catalog.Rows.{int_key, filter, insert_by, order_by, IsUniqueBy}
use go_folio.Catalog.Rows.Laws.{find-none}
use go_folio.Catalog.Rows.Order.{IsOrder, IsSorted, All-insert, order_by-IsSorted}
use go_folio.Catalog.Domain.{Product, ProductProjection}
use go_folio.Catalog.Db.{Db}
use go_folio.Catalog.Db.Sound.{IsSound}
use go_folio.Catalog.Paging.{
  SyncCursor, SyncQuery, SyncErr, Page, Codec, follow, is_since, is_after,
}
use go_folio.Catalog.Paging
use go_folio.Catalog.Paging.Filter.{IsOrdered, Before}
use go_folio.Catalog.Paging.Laws
use go_folio.Catalog.Paging.Laws.{IsFaithful}
use go_folio.Catalog.Store.{Session}
use go_folio.Catalog.Store.Outcomes.{calm}
use go_folio.Catalog.Store.Pages.{
  product_key, projection_key, is_no_later, in_order, list_product_projections,
}
use go_folio.Catalog.Store.Pages.Batches.{projected}
use go_folio.Catalog.Store.Pages.Laws.{list_product_projections-page}

abbrev before : Product → Product → Bool
before p q = is_no_later (product_key p) (product_key q)

before-IsOrder : IsOrder before
before-IsOrder = record { total = λ p q e. ground arith; chains = λ p q r e f. ground arith }

-- No two rows of the list have one id.
IsDistinct : List Product → Type 0
IsDistinct [] = Unit
IsDistinct (p ∷ ps) = All (λ (q : Product). eqb_ℤ q.id p.id ≡ false) ps × IsDistinct ps

unique-IsDistinct : (ps : List Product) → IsUniqueBy (λ (p : Product). p.id) ps → IsDistinct ps
unfolding IsDistinct
unique-IsDistinct [] u = tt
unique-IsDistinct (p ∷ ps) u =
    (find-none (λ (q : Product). q.id) p.id ps u.0, unique-IsDistinct ps u.1)

All-order_by : (P : Product → Type 0) (ps : List Product) → All P ps → All P (order_by before ps)
unfolding order_by
All-order_by P [] h = tt
All-order_by P (p ∷ ps) h =
    All-insert before before-IsOrder P p (order_by before ps) h.0 (All-order_by P ps h.1)

ne-sym : (i j : ℤ) → eqb_ℤ i j ≡ false → eqb_ℤ j i ≡ false
ne-sym i j e = ground arith

insert-IsDistinct :
    (p : Product) (ps : List Product)
    → All (λ (q : Product). eqb_ℤ q.id p.id ≡ false) ps
    → IsDistinct ps
    → IsDistinct (insert_by before p ps)
unfolding insert_by IsDistinct
insert-IsDistinct p [] a d = (tt, tt)
insert-IsDistinct p (q ∷ qs) a d = elim (Bool-cases (before p q)) [
  | inl first ↦ rw first (a, d)
  | inr later ↦ rw later (
    All-insert before before-IsOrder (λ (r : Product). eqb_ℤ r.id q.id ≡ false) p qs
        (ne-sym q.id p.id a.0) d.0,
    insert-IsDistinct p qs a.1 d.1,
  )
]

order_by-IsDistinct : (ps : List Product) → IsDistinct ps → IsDistinct (order_by before ps)
unfolding order_by IsDistinct
order_by-IsDistinct [] d = tt
order_by-IsDistinct (p ∷ ps) d =
    insert-IsDistinct p (order_by before ps)
      (All-order_by (λ (q : Product). eqb_ℤ q.id p.id ≡ false) ps d.0) (order_by-IsDistinct ps d.1)

strictly :
    (p : Product) (ps : List Product)
    → All (λ q. before p q ≡ true) ps
    → All (λ (q : Product). eqb_ℤ q.id p.id ≡ false) ps
    → All (λ q. Before (product_key p) (product_key q)) ps
unfolding is_after
strictly p [] h d = tt
strictly p (q ∷ qs) h d = (ground arith, strictly p qs h.1 d.1)

sorted-IsOrdered :
    (ps : List Product)
    → IsSorted before before-IsOrder ps
    → IsDistinct ps
    → IsOrdered product_key ps
unfolding IsDistinct
sorted-IsOrdered [] h d = tt
sorted-IsOrdered (p ∷ ps) h d = (strictly p ps h.0 d.0, sorted-IsOrdered ps h.1 d.1)

All-map :
    {A B : Type 0} (f : A → B) (P : B → Type 0) (xs : List A)
    → All (λ x. P (f x)) xs
    → All P (map f xs)
All-map f P [] h = tt
All-map f P (x ∷ xs) h = (h.0, All-map f P xs h.1)

projected-IsOrdered :
    (db : Db) (ps : List Product)
    → IsOrdered product_key ps
    → IsOrdered projection_key (map (projected db) ps)
projected-IsOrdered db [] h = tt
projected-IsOrdered db (p ∷ ps) h = (All-map (projected db) _ ps h.0, projected-IsOrdered db ps h.1)

-- The products in order, each with its variants and images.
abbrev pub catalog : Db → List ProductProjection
catalog db = map (projected db) (in_order product_key db.products)

-- From sound tables, where no statement fails, following the cursors of the product projections gives
-- every product that was updated since the given time once, with its variants and images, in the order
-- of the updates, whatever page size is asked for: with row cursors that read back, no product of time
-- zero, and one request more than there are such products.
pub follow_projections :
    (codec : Codec) (s : Session) (size : ℤ) (since : Option ℕ) (fuel : ℕ)
    → IsSound s.tables
    → All (λ (p : Product). eqb p.updated_at 0 ≡ false) s.tables.products
    → All (λ (p : Product). IsFaithful codec (product_key p)) s.tables.products
    → let chosen = filter (λ x. is_since since (projection_key x)) (catalog s.tables) in
      length chosen < fuel
      → follow
          (λ q. (list_product_projections codec q (calm s)).0)
          fuel
          (record { page_size = size; cursor = ""; updated_since = since; after = none })
        ≡ ok chosen
unfolding in_order Paging.list_product_projections
follow_projections codec s size since fuel sound dated faithful small =
    let db = s.tables in
    let ordered = projected-IsOrdered db (in_order product_key db.products) (
      sorted-IsOrdered (order_by before db.products)
        (order_by-IsSorted before before-IsOrder db.products)
        (order_by-IsDistinct db.products (unique-IsDistinct db.products sound.ids))) in
    let all_dated =
      All-map (projected db) (λ x. eqb (projection_key x).updated_at 0 ≡ false) _
        (All-order_by _ db.products dated) in
    let all_faithful =
      All-map (projected db) (λ x. IsFaithful codec (projection_key x)) _
        (All-order_by _ db.products faithful) in
    ap
      (λ ask.
        follow ask fuel
          (record { page_size = size; cursor = ""; updated_since = since; after = none }))
      (λ i q. (list_product_projections-page codec q s i).0)
    ∙ Laws.follow_complete projection_key codec (pos 100) (pos 500) (omega arith) (omega arith)
        (catalog db) ordered all_dated all_faithful size since s.now fuel small
