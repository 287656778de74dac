-- ===== src/Catalog/Rows.antt =====
-- Rows of a table under a key, as the SQL of the catalog selects, writes and deletes them.
pub mod Laws
pub mod Order
use go_folio.Prelude.{
  ◌≡◌, ◌↔◌, Bool, true, false, not, Option, none, some, List, [], ◌∷◌, ℤ, String, eqb_ℤ, eqb_ℤ_iff,
  ◌==◌, eq_iff, if◌then◌else◌,
}

-- The types of the key columns.
pub record Key {ℓ} (K : Type ℓ) : Type ℓ where
  pub is : K → K → Bool
  pub is_iff : (a b : K) → (is a b ≡ true) ↔ (a ≡ b)

instance abbrev pub int_key : Key ℤ
int_key = record { is = eqb_ℤ; is_iff = eqb_ℤ_iff }

instance abbrev pub text_key : Key String
text_key = record { is = ◌==◌; is_iff = eq_iff }

module _ {ℓ} {A : Type ℓ} where
  -- WHERE
  unfoldable pub filter : (A → Bool) → List A → List A
  filter p [] = []
  filter p (x ∷ xs) = if p x then x ∷ filter p xs else filter p xs

  abbrev pub is_some : Option A → Bool
  is_some none = false
  is_some (some a) = true

  -- ORDER BY, as an insertion sort.
  unfoldable pub insert_by : (A → A → Bool) → A → List A → List A
  insert_by before x [] = x ∷ []
  insert_by before x (y ∷ ys) = if before x y then x ∷ y ∷ ys else y ∷ insert_by before x ys

  unfoldable pub order_by : (A → A → Bool) → List A → List A
  unfolding insert_by
  order_by before [] = []
  order_by before (x ∷ xs) = insert_by before x (order_by before xs)

module _ {ℓ κ} {A : Type ℓ} {K : Type κ} ⦃k : Key K⦄ (key : A → K) where
  unfoldable pub find : K → List A → Option A
  find a [] = none
  find a (x ∷ xs) = if k.is (key x) a then some x else find a xs

  -- UPDATE: the row with the new row's key.
  unfoldable pub put : A → List A → List A
  put n [] = []
  put n (x ∷ xs) = (if k.is (key x) (key n) then n else x) ∷ put n xs

  -- DELETE
  unfoldable pub erase : K → List A → List A
  unfolding filter
  erase a xs = filter (λ x. not (k.is (key x) a)) xs

  -- A UNIQUE column.
  abbrev pub IsUniqueBy : List A → Type ℓ
  IsUniqueBy [] = Unit
  IsUniqueBy (x ∷ xs) = (find (key x) xs ≡ none) × IsUniqueBy xs
