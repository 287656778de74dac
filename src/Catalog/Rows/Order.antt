-- ===== src/Catalog/Rows/Order.antt =====
-- ORDER BY and WHERE: choosing rows of an ordered list is ordering the chosen rows.
use go_folio.Catalog.Rows.{filter, insert_by, order_by}
use go_folio.Prelude.{
  All, ◌≡◌, ◌∷◌, [], refl, ap, ◌∙◌, sym, Bool, true, false, List, Bool-cases, inl, inr, arith,
}

-- An order that ORDER BY can follow.
pub record IsOrder {A : Type 0} (before : A → A → Bool) : Type 0 where
  pub total : (x y : A) → before x y ≡ false → before y x ≡ true
  pub chains : (x y z : A) → before x y ≡ true → before y z ≡ true → before x z ≡ true

module _ {A : Type 0} (before : A → A → Bool) (order : IsOrder before) where
  abbrev pub IsSorted : List A → Type 0
  IsSorted [] = Unit
  IsSorted (x ∷ xs) = All (λ y. before x y ≡ true) xs × IsSorted xs

  pub All-insert :
      (P : A → Type 0) (x : A) (ys : List A) → P x → All P ys → All P (insert_by before x ys)
  unfolding insert_by
  All-insert P x [] p h = (p, tt)
  All-insert P x (y ∷ ys) p h = elim (Bool-cases (before x y)) [
    | inl first ↦ rw first (p, h)
    | inr later ↦ rw later (h.0, All-insert P x ys p h.1)
  ]

  All-below :
      (x y : A) (ys : List A)
      → before x y ≡ true
      → All (λ z. before y z ≡ true) ys
      → All (λ z. before x z ≡ true) ys
  All-below x y [] e h = tt
  All-below x y (z ∷ zs) e h = (order.chains x y z e h.0, All-below x y zs e h.1)

  insert-IsSorted : (x : A) (ys : List A) → IsSorted ys → IsSorted (insert_by before x ys)
  unfolding insert_by
  insert-IsSorted x [] h = (tt, tt)
  insert-IsSorted x (y ∷ ys) h = elim (Bool-cases (before x y)) [
    | inl first ↦ rw first ((first, All-below x y ys first h.0), h)
    | inr later ↦ rw later (
      All-insert (λ z. before y z ≡ true) x ys (order.total x y later) h.0,
      insert-IsSorted x ys h.1,
    )
  ]

  pub order_by-IsSorted : (xs : List A) → IsSorted (order_by before xs)
  unfolding order_by
  order_by-IsSorted [] = tt
  order_by-IsSorted (x ∷ xs) = insert-IsSorted x (order_by before xs) (order_by-IsSorted xs)

  All-kept : (P : A → Type 0) (p : A → Bool) (xs : List A) → All P xs → All P (filter p xs)
  unfolding filter
  All-kept P p [] h = tt
  All-kept P p (x ∷ xs) h = elim (Bool-cases (p x)) [
    | inl kept ↦ rw kept (h.0, All-kept P p xs h.1)
    | inr dropped ↦ rw dropped (All-kept P p xs h.1)
  ]

  insert-first :
      (x : A) (ys : List A) → All (λ y. before x y ≡ true) ys → insert_by before x ys ≡ x ∷ ys
  unfolding insert_by
  insert-first x [] h = refl
  insert-first x (y ∷ ys) h = rw h.0 refl

  filter-insert_dropped :
      (p : A → Bool) (x : A) (ys : List A)
      → p x ≡ false
      → filter p (insert_by before x ys) ≡ filter p ys
  unfolding insert_by filter
  filter-insert_dropped p x [] e = rw e refl
  filter-insert_dropped p x (y ∷ ys) e = ground (arith, filter-insert_dropped p x ys)

  filter-insert_kept :
      (p : A → Bool) (x : A) (ys : List A)
      → p x ≡ true
      → IsSorted ys
      → filter p (insert_by before x ys) ≡ insert_by before x (filter p ys)
  unfolding insert_by filter
  filter-insert_kept p x [] e h = rw e refl
  filter-insert_kept p x (y ∷ ys) e h = elim (Bool-cases (before x y)) [
    | inl first ↦
        let below =
          All-kept (λ z. before x z ≡ true) p (y ∷ ys) (first, All-below x y ys first h.0) in
        let front = insert-first x (filter p (y ∷ ys)) below in rw (first, e) (sym front)
    | inr later ↦ let rest = filter-insert_kept p x ys e h.1 in ground (arith, rest)
  ]

  -- WHERE commutes with ORDER BY.
  pub filter-order_by :
      (p : A → Bool) (xs : List A) → filter p (order_by before xs) ≡ order_by before (filter p xs)
  unfolding order_by filter
  filter-order_by p [] = refl
  filter-order_by p (x ∷ xs) = elim (Bool-cases (p x)) [
    | inl kept ↦ rw kept (
        filter-insert_kept p x (order_by before xs) kept (order_by-IsSorted xs)
        ∙ ap (insert_by before x) (filter-order_by p xs))
    | inr dropped ↦
        rw dropped (filter-insert_dropped p x (order_by before xs) dropped ∙ filter-order_by p xs)
  ]
