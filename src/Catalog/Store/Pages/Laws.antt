-- ===== src/Catalog/Store/Pages/Laws.antt =====
-- The pages over PostgreSQL are those of a list of projections in order.
use go_folio.Prelude.{
  ◌≡◌, ◌≢◌, refl, ap, sym, ◌∙◌, subst, ℕ, ◌+◌, ◌≤◌, zero, suc, pos, pos_part, Bool, false, ◌&&◌,
  some, List, [], ◌∷◌, map, take, length, length-map, Result, ok, err, Result-cases, ◌==◌,
  Bool-cases, inl, inr, arith, ltb,
}
use go_folio.Catalog.Rows.{filter}
use go_folio.Catalog.Domain.{Product}
use go_folio.Catalog.Db.{Db}
use go_folio.Catalog.Paging
use go_folio.Catalog.Paging.{
  SyncCursor, SyncQuery, SyncErr, Codec, Page, list_page, page_of, position, decode_cursor, clamp,
  cut, is_since, is_after, answer, list_with,
}
use go_folio.Catalog.Paging.Laws.{clamp-positive}
use go_folio.Catalog.Store.{Session, query, statement, answered, or_missing}
use go_folio.Catalog.Store.Outcomes.{calm}
use go_folio.Catalog.Store.Pages.{
  product_key, projection_key, in_order, projections_of, load_variants_for_products,
  load_images_for_products, list_product_projection_page, asked, paged, list_from,
  list_product_projections,
}
use go_folio.Catalog.Store.Pages.Batches.{projected, projections-projected}

module _ {A B : Type 0} (f : A → B) where
  filter-map : (p : B → Bool) (xs : List A) → filter p (map f xs) ≡ map f (filter (λ x. p (f x)) xs)
  unfolding filter
  filter-map p [] = refl
  filter-map p (x ∷ xs) = elim (Bool-cases (p (f x))) [
    | inl kept ↦ rw (kept, filter-map p xs) refl
    | inr dropped ↦ rw (dropped, filter-map p xs) refl
  ]

  take-map : (n : ℕ) (xs : List A) → take n (map f xs) ≡ map f (take n xs)
  take-map zero xs = refl
  take-map (suc n) [] = refl
  take-map (suc n) (x ∷ xs) = ap (◌∷◌ (f x)) (take-map n xs)

  cut-map : (n : ℕ) (rows : List A) → cut n (map f rows) ≡ (map f (cut n rows).0, (cut n rows).1)
  unfolding cut
  cut-map n rows = elim (Bool-cases (ltb n (length rows))) [
    | inl more ↦ rw (length-map rows f, more, take-map n rows) refl
    | inr last ↦ rw (length-map rows f, last) refl
  ]

-- The rows that a page takes.
chosen : SyncQuery → List Product → List Product
chosen q rows =
    filter (λ p. is_since q.updated_since (product_key p) && is_after q.after (product_key p)) rows

page_rows : SyncQuery → List Product → List Product × Bool
unfolding chosen
page_rows q rows = cut (pos_part q.page_size) (take (pos_part q.page_size + 1) (chosen q rows))

list_page-projected :
    (db : Db) (q : SyncQuery) (rows : List Product)
    → list_page projection_key (some (map (projected db) rows)) q
      ≡ some (map (projected db) (page_rows q rows).0, (page_rows q rows).1)
unfolding list_page page_rows chosen
list_page-projected db q rows =
    let n = pos_part q.page_size in
    let f = projected db in
    let same =
      filter-map f
        (λ x. is_since q.updated_since (projection_key x) && is_after q.after (projection_key x))
        rows in
    ap (λ ys. some (cut n (take (n + 1) ys))) same
    ∙ ap (λ ys. some (cut n ys)) (take-map f (n + 1) (chosen q rows))
    ∙ ap some (cut-map f n (take (n + 1) (chosen q rows)))

not-cons : {A : Type 0} (x : A) (xs : List A) → x ∷ xs ≢ []
not-cons x xs e = cc

cut-empty :
    {A : Type 0} (n : ℕ) (rows : List A) → 1 ≤ n → (cut n rows).0 ≡ [] → (cut n rows).1 ≡ false
unfolding cut
cut-empty n [] h e = ground arith
cut-empty zero (x ∷ rows) h e = absurd (omega arith)
cut-empty (suc n) (x ∷ rows) h e = elim (Bool-cases (ltb (suc n) (length (x ∷ rows)))) [
  | inl more ↦ absurd (not-cons x (take n rows) (rw more at e))
  | inr last ↦ rw last refl
]

projections_of-calm :
    (x : List Product × Bool) (s : Session)
    → (x.0 ≡ [] → x.1 ≡ false)
    → projections_of x (calm s) ≡ (ok (map (projected s.tables) x.0, x.1), calm s)
unfolding projections_of load_variants_for_products load_images_for_products query statement
    answered
projections_of-calm ([], more) s h = ap (λ b. (ok ([], b), calm s)) (sym (h refl))
projections_of-calm (p ∷ ps, more) s h =
    ap (λ ys. (ok (ys, more), calm s)) (projections-projected (p ∷ ps) s.tables)

-- One page on a session in which no statement fails.
page-calm :
    (q : SyncQuery) (s : Session)
    → 1 ≤ pos_part q.page_size
    → list_product_projection_page q (calm s) ≡ (
      ok (
        map (projected s.tables) (page_rows q (in_order product_key s.tables.products)).0,
        (page_rows q (in_order product_key s.tables.products)).1,
      ),
      calm s,
    )
unfolding list_product_projection_page list_page query statement answered or_missing page_rows
    chosen
page-calm q s positive =
    let n = pos_part q.page_size in
    let rows = in_order product_key s.tables.products in
    projections_of-calm (page_rows q rows) s (cut-empty n (take (n + 1) (chosen q rows)) positive)

asked-calm :
    (codec : Codec) (s : Session) (q : Result SyncErr SyncQuery)
    → ((r : SyncQuery) → q ≡ ok r → 1 ≤ pos_part r.page_size)
    → asked projection_key codec list_product_projection_page s.now q (calm s) ≡ (
      answer projection_key codec
          (some (map (projected s.tables) (in_order product_key s.tables.products)))
          s.now
          q,
      calm s,
    )
unfolding asked paged answer
asked-calm codec s (err e) h = refl
asked-calm codec s (ok q) h =
    let table = in_order product_key s.tables.products in
    ap (paged projection_key codec q s.now) (page-calm q s (h q refl))
    ∙ ap (λ x. (page_of projection_key codec q s.now x, calm s))
        (sym (list_page-projected s.tables q table))

abbrev good : SyncQuery → Result SyncErr SyncQuery
good q = ok q

ok-injective : (q r : SyncQuery) → good q ≡ good r → q ≡ r
ok-injective q r e = cc

err-ne : (x : SyncErr) (r : SyncQuery) → err x ≢ ok r
err-ne x r e = cc

position-size :
    (codec : Codec) (q r : SyncQuery)
    → position projection_key codec q ≡ ok r
    → r.page_size ≡ q.page_size
unfolding position
position-size codec q r e = elim (Bool-cases (q.cursor == "")) [
  | inl first ↦ ap (λ (x : SyncQuery). x.page_size) (sym (ok-injective q r (rw first at e)))
  | inr later ↦ elim (Result-cases (decode_cursor codec q.cursor)) [
    | inl (c, decoded) ↦
        ap (λ (x : SyncQuery). x.page_size)
          (sym (ok-injective (record q { after = some c }) r (rw (later, decoded) at e)))
    | inr (x, refused) ↦ absurd (err-ne x r (rw (later, refused) at e))
  ]
]

-- Where no statement fails, a page of projections that the service answers over PostgreSQL is the page
-- of a list: the products by the time of their update and their id, each with its variants by id and
-- its images by place, as the reads by the product's id have them; and the session stays.
pub list_product_projections-page :
    (codec : Codec) (q : SyncQuery) (s : Session)
    → list_product_projections codec q (calm s) ≡ (
      Paging.list_product_projections projection_key codec
          (some (map (projected s.tables) (in_order product_key s.tables.products)))
          q
          s.now,
      calm s,
    )
unfolding list_product_projections list_from Paging.list_product_projections list_with
list_product_projections-page codec q s =
    let clamped = record q { page_size = clamp (pos 100) (pos 500) q.page_size } in
    let size = clamp-positive (pos 100) (pos 500) q.page_size (omega arith) (omega arith) in
    asked-calm codec s (position projection_key codec clamped)
      (λ r e. subst (λ m. 1 ≤ pos_part m) (sym (position-size codec clamped r e)) size)
