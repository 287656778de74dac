-- ===== src/Catalog/Paging/Laws.antt =====
-- Following the cursors of a list gives each of its rows once.
use go_folio.Catalog.Paging.{
  Codec, SyncCursor, SyncQuery, list_with, follow, clamp, cut, is_since, SyncErr, position, Page,
  is_after, decode_cursor, list_page, page_of, next_cursor, answer, continued, last_or, joined,
}
use go_folio.Catalog.Paging.Filter.{
  IsOrdered, filter-IsOrdered, filter-after, filter-every, filter-All, filter-filter, All-middle,
  take-last,
}
use mathlib.Core.List.{append_assoc}
use go_folio.Catalog.Rows.{filter}
use go_folio.Prelude.{
  take, ◌∙◌, ap, sym, ◌≡◌, ◌∷◌, [], ◌++◌, refl, All, List, Bool, true, false, some, arith,
  Bool-cases, inl, inr, ℕ, ℤ, ◌==◌, length, pos, ◌<◌, ◌≤◌, ◌≤ℤ◌, eqb, pos_part, ◌+◌, Option, String,
  Result, none, ok, suc, ltb, zero, length-take, subst, drop, take-append-drop, length-append,
}

-- The cursor's text reads back as the cursor, and it is not the empty text.
pub record IsFaithful (codec : Codec) (c : SyncCursor) : Type 0 where
  pub reads : codec.decode (codec.encode c) ≡ some c
  pub shows : (codec.encode c == "") ≡ false

pub clamp-positive :
    (default limit n : ℤ) → pos 1 ≤ℤ default → pos 1 ≤ℤ limit → 1 ≤ pos_part (clamp default limit n)
unfolding clamp
clamp-positive default limit n d l = ground arith

module _ {A : Type 0} where
  take-all : (n : ℕ) (rows : List A) → length rows ≤ n → take n rows ≡ rows
  take-all zero [] h = refl
  take-all zero (x ∷ rows) h = absurd (omega arith)
  take-all (suc n) [] h = refl
  take-all (suc n) (x ∷ rows) h = ap (◌∷◌ x) (take-all n rows (omega arith))

  take-take : (n m : ℕ) (rows : List A) → n ≤ m → take n (take m rows) ≡ take n rows
  take-take zero m rows h = refl
  take-take (suc n) zero rows h = absurd (omega arith)
  take-take (suc n) (suc m) [] h = refl
  take-take (suc n) (suc m) (x ∷ rows) h = ap (◌∷◌ x) (take-take n m rows (omega arith))

  All-true : (rows : List A) → All (λ x. true ≡ true) rows
  All-true [] = tt
  All-true (x ∷ rows) = (refl, All-true rows)

  pub cut-last :
      (n : ℕ) (rows : List A) → length rows ≤ n → cut n (take (n + 1) rows) ≡ (rows, false)
  unfolding cut
  cut-last n rows h = rw (take-all (n + 1) rows (omega arith)) (ground arith)

  pub cut-more :
      (n : ℕ) (rows : List A) → n < length rows → cut n (take (n + 1) rows) ≡ (take n rows, true)
  unfolding cut
  cut-more n rows h =
      let more : ltb n (length (take (n + 1) rows)) ≡ true =
        ground (arith, length-take (n + 1) rows) in
      rw more (ap (λ x. (x, true)) (take-take n (n + 1) rows (omega arith)))

module _ {A : Type 0} (key : A → SyncCursor) (codec : Codec) (default limit : ℤ)
    (d_positive : pos 1 ≤ℤ default) (l_positive : pos 1 ≤ℤ limit) (table : List A)
    (ordered : IsOrdered key table) (dated : All (λ x. eqb (key x).updated_at 0 ≡ false) table)
    (faithful : All (λ x. IsFaithful codec (key x)) table) (size : ℤ) (since : Option ℕ)
    (now : ℕ) where
  -- A query of the run, at its cursor.
  abbrev pub query : String → SyncQuery
  query cursor = record { page_size = size; cursor = cursor; updated_since = since; after = none }

  abbrev pub chosen : List A
  chosen = filter (λ x. is_since since (key x)) table

  abbrev page : ℕ
  page = pos_part (clamp default limit size)

  abbrev pub ask : SyncQuery → Result SyncErr (Page A)
  ask q = list_with key default limit codec (some table) q now

  -- The cursor stands before these rows.
  IsAt : String → List A → Type 0
  IsAt cursor rows =
      (a : Option SyncCursor) × (position key codec
          (record (query cursor) { page_size = clamp default limit size })
        ≡ ok (record (query cursor) { page_size = clamp default limit size; after = a }))
      × (filter (λ x. is_after a (key x)) chosen ≡ rows)
      × ((before : List A) × (chosen ≡ before ++ rows))

  ask-at :
      (cursor : String) (rows : List A)
      → IsAt cursor rows
      → (q : SyncQuery) × (ask (query cursor)
          ≡ page_of key codec q now (some (cut page (take (page + 1) rows))))
  unfolding list_with list_page IsAt answer
  ask-at cursor rows h =
      let q = record (query cursor) { page_size = clamp default limit size; after = h.0 } in
      (
        q,
        ap (answer key codec (some table) now) h.1
            ∙ ap (λ found. page_of key codec q now (some (cut page (take (page + 1) found))))
                (filter-filter (λ x. is_since since (key x)) (λ x. is_after h.0 (key x)) table
                  ∙ h.2),
      )

  start-IsAt : IsAt "" chosen
  unfolding IsAt position is_after
  start-IsAt = (none, refl, filter-every (λ x. true) chosen (All-true chosen), ([], refl))

  next-IsAt :
      (before : List A) (y : A) (rest : List A)
      → chosen ≡ before ++ y ∷ rest
      → IsAt (codec.encode (key y)) rest
  unfolding IsAt position decode_cursor
  next-IsAt before y rest whole =
      let is_dated = filter-All _ (λ x. is_since since (key x)) table dated in
      let y_dated =
        All-middle _ before y rest
          (subst (All (λ x. eqb (key x).updated_at 0 ≡ false)) whole is_dated) in
      let faithful_rows = filter-All _ (λ x. is_since since (key x)) table faithful in
      let f =
        All-middle _ before y rest
          (subst (All (λ x. IsFaithful codec (key x))) whole faithful_rows) in
      let in_order =
        subst (IsOrdered key) whole
          (filter-IsOrdered key (λ x. is_since since (key x)) table ordered) in
      (
        some (key y),
        rw (f.shows, f.reads, y_dated) refl,
        subst (λ rows. filter (λ x. is_after (some (key y)) (key x)) rows ≡ rest) (sym whole)
            (filter-after key before y rest in_order),
        (before ++ y ∷ [], whole ∙ sym (append_assoc before (y ∷ []) rest)),
      )

  drop-shorter : (rows : List A) → page < length rows → length (drop page rows) < length rows
  drop-shorter rows h = omega (
    arith,
    length-append (take page rows) (drop page rows),
    ap length (take-append-drop page rows),
    length-take page rows,
    clamp-positive default limit size d_positive l_positive,
  )

  follow-from :
      (fuel : ℕ) (cursor : String) (rows : List A)
      → length rows < fuel
      → IsAt cursor rows
      → follow ask fuel (query cursor) ≡ ok rows
  unfolding follow page_of next_cursor IsAt
  follow-from zero cursor rows small h = absurd (omega arith)
  follow-from (suc fuel) cursor rows small h =
      let (q, asked) = ask-at cursor rows h in
      let go = λ (c : String). follow ask fuel (query c) in
      let shown = λ (x : List A × Bool). page_of key codec q now (some x) in
      elim (Bool-cases (ltb page (length rows))) [
        | inr last ↦ ap (continued go) (asked ∙ ap shown (cut-last page rows (ground arith)))
        | inl more ↦
            let short : page < length rows = ground arith in
            let (before, y, whole, ends) =
              take-last page rows none short
                (clamp-positive default limit size d_positive l_positive) in
            let there = next-IsAt (h.3.0 ++ before) y (drop page rows) (
              h.3.1
              ∙ ap (λ z. h.3.0 ++ z) whole
              ∙ sym (append_assoc h.3.0 before (y ∷ drop page rows))) in
            let rest =
              follow-from fuel (codec.encode (key y)) (drop page rows)
                (omega (arith, drop-shorter rows short)) there in
            let p : Page A = record {
              items = take page rows;
              page_size = q.page_size;
              next_cursor = next_cursor key codec true (last_or none (take page rows));
              has_next = true;
              sync_token = now;
            } in
            ap (continued go) (asked ∙ ap shown (cut-more page rows short))
            ∙ ap (λ o. joined p (go (next_cursor key codec true o))) ends
            ∙ ap (joined p) rest
            ∙ ap ok (take-append-drop page rows)
      ]

  -- The pages of a list, each asked for with the cursor of the one before, give together every row of
  -- the table that was updated since the given time, once and in the table's order, whatever page size
  -- is asked for: with row cursors that read back, a table in strict order of its keys, no key of time zero,
  -- a default and a limit of at least 1, and one request more than there are such rows.
  pub follow_complete : (fuel : ℕ) → length chosen < fuel → follow ask fuel (query "") ≡ ok chosen
  follow_complete fuel small = follow-from fuel "" chosen small start-IsAt
