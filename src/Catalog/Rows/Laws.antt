-- ===== src/Catalog/Rows/Laws.antt =====
-- What a key finds after a write, and that a UNIQUE column stays one.
use go_folio.Catalog.Rows.{is_some, Key, filter, find, put, erase, IsUniqueBy}
use mathlib.Core.List.{Mem, mem-cons, not-mem-nil}
use mathlib.Core.Logic.Or
use mathlib.Core.Option
use go_folio.Prelude.{
  All, ◌≡◌, ◌≢◌, ◌∷◌, [], refl, none, some, Bool, true, false, not, List, arith, if◌then◌else◌,
  Bool-cases, inl, inr, subst, ap, ◌∙◌, ◌↔◌,
}

module _ {A K : Type 0} ⦃k : Key K⦄ (key : A → K) where
  pub is_refl : (a : K) → k.is a a ≡ true
  is_refl a = (k.is_iff a a).1 refl

  pub find-key : (a : K) (xs : List A) (x : A) → find key a xs ≡ some x → key x ≡ a
  unfolding find
  find-key a [] x e = absurd (cc)
  find-key a (y ∷ ys) x e = elim (Bool-cases (k.is (key y) a)) [
    | inl here ↦ let same : some y ≡ some x = (rw here at e) in cc ((k.is_iff (key y) a).0 here)
    | inr elsewhere ↦ find-key a ys x (rw elsewhere at e)
  ]

  -- After an UPDATE of a row that is there, its key finds the new row and the others find what they did.
  pub find-put :
      (n : A) (xs : List A) (a : K)
      → find key a (put key n xs)
        ≡ (if k.is (key n) a then Option.map (λ _. n) (find key a xs) else find key a xs)
  unfolding find put
  find-put n [] a = ground arith
  find-put n (x ∷ xs) a =
      ground
        (arith, k.is_iff (key x) (key n), k.is_iff (key x) a, k.is_iff (key n) a, find-put n xs a)

  pub find-filter :
      (p : A → Bool) (xs : List A) (a : K) (x : A)
      → find key a xs ≡ some x
      → p x ≡ true
      → find key a (filter p xs) ≡ some x
  unfolding find filter
  find-filter p [] a x e h = absurd (cc)
  find-filter p (y ∷ ys) a x e h = ground (arith, find-filter p ys a x)

  pub find-filter-none :
      (p : A → Bool) (xs : List A) (a : K) → find key a xs ≡ none → find key a (filter p xs) ≡ none
  unfolding find filter
  find-filter-none p [] a e = refl
  find-filter-none p (y ∷ ys) a e = ground (arith, find-filter-none p ys a)

  pub find-erase :
      (b a : K) (xs : List A)
      → find key a (erase key b xs) ≡ (if k.is b a then none else find key a xs)
  unfolding find erase filter
  find-erase b a [] = ground arith
  find-erase b a (x ∷ xs) =
      ground (arith, k.is_iff (key x) b, k.is_iff (key x) a, k.is_iff b a, find-erase b a xs)

  pub erase_self : (a : K) (xs : List A) → find key a (erase key a xs) ≡ none
  erase_self a xs = ground (arith, find-erase a a xs, is_refl a)

  pub filter-IsUniqueBy :
      (p : A → Bool) (xs : List A) → IsUniqueBy key xs → IsUniqueBy key (filter p xs)
  unfolding filter
  filter-IsUniqueBy p [] u = tt
  filter-IsUniqueBy p (x ∷ xs) u = elim (Bool-cases (p x)) [
    | inl kept ↦ rw kept (find-filter-none p xs (key x) u.0, filter-IsUniqueBy p xs u.1)
    | inr dropped ↦ rw dropped (filter-IsUniqueBy p xs u.1)
  ]

  -- A key that is free among the other rows stays free of the new row's.
  find-put-none :
      {L : Type 0} ⦃l : Key L⦄ (other : A → L) (n : A) (xs : List A) (a : L)
      → find other a xs ≡ none
      → l.is (other n) a ≡ false
      → find other a (put key n xs) ≡ none
  unfolding find put
  find-put-none other n [] a e ne = refl
  find-put-none other n (x ∷ xs) a e ne = ground (arith, find-put-none other n xs a)

  put-absent : (n : A) (xs : List A) → find key (key n) xs ≡ none → put key n xs ≡ xs
  unfolding find put
  put-absent n [] e = refl
  put-absent n (x ∷ xs) e = ground (arith, put-absent n xs)

  erase-absent : (a : K) (xs : List A) → find key a xs ≡ none → erase key a xs ≡ xs
  unfolding find erase filter
  erase-absent a [] e = refl
  erase-absent a (x ∷ xs) e = ground (arith, erase-absent a xs)

  erase-head :
      (a : K) (x : A) (xs : List A)
      → erase key a (x ∷ xs) ≡ (if k.is (key x) a then erase key a xs else x ∷ erase key a xs)
  unfolding erase filter
  erase-head a x xs = ground arith

  head_ne :
      {L : Type 0} ⦃l : Key L⦄ (other : A → L) (a : L) (x : A) (xs : List A)
      → find other a (x ∷ xs) ≡ none
      → (l.is a (other x) ≡ false) × (find other a xs ≡ none)
  unfolding find
  head_ne {L} ⦃l⦄ other a x xs e = ground (arith, l.is_iff (other x) a, l.is_iff a (other x))

  -- An UPDATE keeps a UNIQUE column, if no other row has the new value.
  pub put-IsUniqueBy :
      {L : Type 0} ⦃l : Key L⦄ (other : A → L) (n : A) (xs : List A)
      → IsUniqueBy key xs
      → IsUniqueBy other xs
      → find other (other n) (erase key (key n) xs) ≡ none
      → IsUniqueBy other (put key n xs)
  unfolding put
  put-IsUniqueBy other n [] ids u free = tt
  put-IsUniqueBy other n (x ∷ xs) ids u free = elim (Bool-cases (k.is (key x) (key n))) [
    | inl same ↦
        let absent = subst (λ a. find key a xs ≡ none) ((k.is_iff (key x) (key n)).0 same) ids.0 in
        let rows = put-absent n xs absent in
        let rest : erase key (key n) (x ∷ xs) ≡ xs =
          erase-head (key n) x xs ∙ rw same (erase-absent (key n) xs absent) in
        rw (same, rows) (subst (λ ys. find other (other n) ys ≡ none) rest free, u.1)
    | inr differs ↦
        let rest : erase key (key n) (x ∷ xs) ≡ x ∷ erase key (key n) xs =
          erase-head (key n) x xs ∙ rw differs refl in
        let (ne, free') =
          head_ne other (other n) x (erase key (key n) xs)
            (subst (λ ys. find other (other n) ys ≡ none) rest free) in
        rw differs
          (find-put-none other n xs (other x) u.0 ne, put-IsUniqueBy other n xs ids.1 u.1 free')
  ]

  pub find-All :
      (P : A → Type 0) (a : K) (xs : List A) (x : A) → find key a xs ≡ some x → All P xs → P x
  unfolding find
  find-All P a [] x e h = absurd (cc)
  find-All P a (y ∷ ys) x e h = elim (Bool-cases (k.is (key y) a)) [
    | inl here ↦
        let same : some y ≡ some x = (rw here at e) in let y_x : y ≡ x = cc in subst P y_x h.0
    | inr elsewhere ↦ find-All P a ys x (rw elsewhere at e) h.1
  ]

  pub All-put : (P : A → Type 0) (n : A) (xs : List A) → P n → All P xs → All P (put key n xs)
  unfolding put
  All-put P n [] p h = tt
  All-put P n (x ∷ xs) p h = elim (Bool-cases (k.is (key x) (key n))) [
    | inl same ↦ rw same (p, All-put P n xs p h.1)
    | inr differs ↦ rw differs (h.0, All-put P n xs p h.1)
  ]

  -- A key that finds nothing is the key of no row.
  pub find-none :
      (a : K) (xs : List A) → find key a xs ≡ none → All (λ x. k.is (key x) a ≡ false) xs
  unfolding find
  find-none a [] e = tt
  find-none a (x ∷ xs) e = elim (Bool-cases (k.is (key x) a)) [
    | inl here ↦ let found : some x ≡ none = (rw here at e) in absurd (cc)
    | inr elsewhere ↦ (elsewhere, find-none a xs (rw elsewhere at e))
  ]

pub is_some-map :
    {A B : Type 0} (f : A → B) (x : Option.Option A) → is_some (Option.map f x) ≡ is_some x
is_some-map f none = refl
is_some-map f (some a) = refl

pub All-weaken :
    {A : Type 0} (P Q : A → Type 0) (xs : List A) → ((x : A) → P x → Q x) → All P xs → All Q xs
All-weaken P Q [] f h = tt
All-weaken P Q (x ∷ xs) f h = (f x h.0, All-weaken P Q xs f h.1)

pub All-both :
    {A : Type 0} (P Q : A → Type 0) (xs : List A) → All P xs → All Q xs → All (λ x. P x × Q x) xs
All-both P Q [] h g = tt
All-both P Q (x ∷ xs) h g = ((h.0, g.0), All-both P Q xs h.1 g.1)

-- What passes a WHERE had the property, and the condition.
pub All-filter :
    {A : Type 0} (P : A → Type 0) (keep : A → Bool) (xs : List A)
    → All P xs
    → All (λ x. P x × (keep x ≡ true)) (filter keep xs)
unfolding filter
All-filter P keep [] h = tt
All-filter P keep (x ∷ xs) h = elim (Bool-cases (keep x)) [
  | inl kept ↦ rw kept ((h.0, kept), All-filter P keep xs h.1)
  | inr dropped ↦ rw dropped (All-filter P keep xs h.1)
]

-- The one row with a value goes when its own key is erased.
pub find-erase_unique :
    {A K L : Type 0} ⦃k : Key K⦄ ⦃l : Key L⦄ (key : A → K) (other : A → L) (a : L) (xs : List A)
    (x : A)
    → IsUniqueBy other xs
    → find other a xs ≡ some x
    → find other a (erase key (key x) xs) ≡ none
unfolding find erase filter
find-erase_unique key other a [] x u e = refl
find-erase_unique {A = A} ⦃k⦄ ⦃l⦄ key other a (y ∷ ys) x u e =
    elim (Bool-cases (l.is (other y) a)) [
      | inl here ↦
          let same : some y ≡ some x = (rw here at e) in
          let y_x : y ≡ x = cc in
          let absent = subst (λ b. find other b ys ≡ none) ((l.is_iff (other y) a).0 here) u.0 in
          let drop_x = λ (z : A). not (k.is (key z) (key x)) in
          let gone : k.is (key y) (key x) ≡ true = (k.is_iff (key y) (key x)).1 (ap key y_x) in
          rw gone (find-filter-none other drop_x ys a absent)
      | inr elsewhere ↦
          let found : find other a ys ≡ some x = (rw elsewhere at e) in
          let rest = find-erase_unique key other a ys x u.1 found in ground (arith, rest)
    ]

-- A row found by one unique key is found by its own.
pub find-own :
    {A K L : Type 0} ⦃k : Key K⦄ ⦃l : Key L⦄ (key : A → K) (other : A → L) (b : L) (xs : List A)
    (x : A)
    → IsUniqueBy key xs
    → find other b xs ≡ some x
    → find key (key x) xs ≡ some x
unfolding find
find-own key other b [] x u e = absurd (cc)
find-own ⦃k⦄ ⦃l⦄ key other b (y ∷ ys) x u e = elim (Bool-cases (l.is (other y) b)) [
  | inl here ↦
      let same : some y ≡ some x = (rw here at e) in
      let y_x : y ≡ x = cc in rw ((k.is_iff (key y) (key x)).1 (ap key y_x)) same
  | inr elsewhere ↦
      let rest = find-own key other b ys x u.1 (rw elsewhere at e) in
      ground (arith, k.is_iff (key y) (key x), rest, u.0)
]

-- A value that no row has is not the one of a row that a key finds.
pub find-none_ne :
    {A K L : Type 0} ⦃k : Key K⦄ ⦃l : Key L⦄ (key : A → K) (other : A → L) (b : L) (a : K)
    (xs : List A) (x : A)
    → find other b xs ≡ none
    → find key a xs ≡ some x
    → other x ≢ b
find-none_ne ⦃k⦄ ⦃l⦄ key other b a xs x free found same =
    let foreign = find-All key _ a xs x found (find-none other b xs free) in
    let own = (l.is_iff (other x) b).1 same in cc

pub filter-mem :
    {A : Type 0} (p : A → Bool) (x : A) (xs : List A)
    → Mem x (filter p xs) ↔ (Mem x xs × (p x ≡ true))
unfolding filter
filter-mem p x [] = (λ m. absurd (not-mem-nil m), λ h. absurd (not-mem-nil h.0))
filter-mem p x (y ∷ ys) =
    let rest = filter-mem p x ys in
    elim (Bool-cases (p y)) [
      | inl kept ↦ rw kept (
        λ m.
            Or.elim (hlevel) (mem-cons.0 m) (λ e. (mem-cons.1 (Or.inl e), ap p e ∙ kept))
              (λ later. (mem-cons.1 (Or.inr (rest.0 later).0), (rest.0 later).1)),
        λ h.
            Or.elim (hlevel) (mem-cons.0 h.0) (λ e. mem-cons.1 (Or.inl e))
              (λ later. mem-cons.1 (Or.inr (rest.1 (later, h.1)))),
      )
      | inr dropped ↦ rw dropped (
        λ m. (mem-cons.1 (Or.inr (rest.0 m).0), (rest.0 m).1),
        λ h.
            Or.elim (hlevel) (mem-cons.0 h.0)
              (λ e. absurd (let kept : p y ≡ true = (subst (λ z. p z ≡ true) e h.1) in cc))
              (λ later. rest.1 (later, h.1)),
      )
    ]
