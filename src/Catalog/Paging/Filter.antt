-- ===== src/Catalog/Paging/Filter.antt =====
-- Rows in the order of their keys, and what a cursor leaves of them.
use go_folio.Catalog.Paging.{SyncCursor, is_after, last_or}
use go_folio.Catalog.Rows.{filter}
use go_folio.Prelude.{
  take, ◌≡◌, ◌∷◌, [], ◌++◌, refl, All, List, Bool, true, false, some, arith, Bool-cases, inl, inr,
  ℕ, ◌&&◌, Option, ◌<◌, length, ◌≤◌, drop, suc, ap, zero,
}

-- One key comes before another.
abbrev pub Before : SyncCursor → SyncCursor → Type 0
Before a b = is_after (some a) b ≡ true

pub Before-irreflexive : (a : SyncCursor) → is_after (some a) a ≡ false
unfolding is_after
Before-irreflexive a = ground arith

pub Before-asymmetric : (a b : SyncCursor) → Before a b → is_after (some b) a ≡ false
unfolding is_after
Before-asymmetric a b h = ground arith

module _ {A : Type 0} where
  pub All-middle {ℓ} :
      (P : A → Type ℓ) (before : List A) (y : A) (rest : List A) → All P (before ++ y ∷ rest) → P y
  All-middle P [] y rest h = h.0
  All-middle P (x ∷ before) y rest h = All-middle P before y rest h.1

  pub filter-every : (p : A → Bool) (xs : List A) → All (λ x. p x ≡ true) xs → filter p xs ≡ xs
  unfolding filter
  filter-every p [] h = refl
  filter-every p (x ∷ xs) h = rw (h.0, filter-every p xs h.1) refl

  pub filter-filter :
      (p q : A → Bool) (xs : List A) → filter (λ x. p x && q x) xs ≡ filter q (filter p xs)
  unfolding filter
  filter-filter p q [] = refl
  filter-filter p q (x ∷ xs) = elim (Bool-cases (p x)) [
    | inl kept ↦ rw (kept, filter-filter p q xs) refl
    | inr dropped ↦ rw (dropped, filter-filter p q xs) refl
  ]

  pub filter-All {ℓ} :
      (P : A → Type ℓ) (p : A → Bool) (xs : List A) → All P xs → All P (filter p xs)
  unfolding filter
  filter-All P p [] h = tt
  filter-All P p (x ∷ xs) h = elim (Bool-cases (p x)) [
    | inl kept ↦ rw kept (h.0, filter-All P p xs h.1)
    | inr dropped ↦ rw dropped (filter-All P p xs h.1)
  ]

  -- A page that is not the last ends in a row, and the rows behind it are left.
  pub take-last :
      (n : ℕ) (rows : List A) (d : Option A)
      → n < length rows
      → 1 ≤ n
      → (before : List A) × (y : A) × (rows ≡ before ++ y ∷ drop n rows)
        × (last_or d (take n rows) ≡ some y)
  unfolding last_or
  take-last zero rows d short some_left = absurd (omega arith)
  take-last (suc n) [] d short some_left = absurd (omega arith)
  take-last (suc zero) (x ∷ rows) d short some_left = ([], x, refl, refl)
  take-last (suc (suc n)) (x ∷ rows) d short some_left =
      let (before, y, whole, last) = take-last (suc n) rows (some x) (omega arith) (omega arith) in
      (x ∷ before, y, ap (◌∷◌ x) whole, last)

module _ {A : Type 0} (key : A → SyncCursor) where
  abbrev pub IsOrdered : List A → Type 0
  IsOrdered [] = Unit
  IsOrdered (x ∷ xs) = All (λ y. Before (key x) (key y)) xs × IsOrdered xs

  pub filter-IsOrdered : (p : A → Bool) (xs : List A) → IsOrdered xs → IsOrdered (filter p xs)
  unfolding filter
  filter-IsOrdered p [] h = tt
  filter-IsOrdered p (x ∷ xs) h = elim (Bool-cases (p x)) [
    | inl kept ↦ rw kept (filter-All _ p xs h.0, filter-IsOrdered p xs h.1)
    | inr dropped ↦ rw dropped (filter-IsOrdered p xs h.1)
  ]

  -- The cursor of a row leaves the rows behind it.
  pub filter-after :
      (before : List A) (y : A) (rest : List A)
      → IsOrdered (before ++ y ∷ rest)
      → filter (λ x. is_after (some (key y)) (key x)) (before ++ y ∷ rest) ≡ rest
  unfolding filter
  filter-after [] y rest h =
      rw (Before-irreflexive (key y)) (filter-every (λ x. is_after (some (key y)) (key x)) rest h.0)
  filter-after (x ∷ before) y rest h =
      rw (Before-asymmetric (key x) (key y) (All-middle _ before y rest h.0))
        (filter-after before y rest h.1)
