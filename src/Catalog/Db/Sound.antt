-- ===== src/Catalog/Db/Sound.antt =====
-- What holds between the rows of the tables.
use go_folio.Prelude.{
  All, ◌≡◌, refl, ◌∷◌, ℤ, List, Bool, true, false, none, some, Option, ok, Result, arith,
}
use go_folio.Catalog.Rows.{int_key, text_key, find, put, is_some, IsUniqueBy}
use go_folio.Catalog.Rows.Laws.{find-put, is_some-map}
use go_folio.Catalog.Domain.{Product, ProductVariant, ProductImage}
use go_folio.Catalog.Db.{Db, Refusal, unless, find_product, is_storable, is_known_variant}

-- Keys are unique, references lead to rows, and variants meet the table's conditions.
pub record IsSound (db : Db) : Type 0 where
  pub ids : IsUniqueBy (λ (p : Product). p.id) db.products
  pub codes : IsUniqueBy (λ (p : Product). p.product_code) db.products
  pub slugs : IsUniqueBy (λ (p : Product). p.slug) db.products
  pub variant_ids : IsUniqueBy (λ (v : ProductVariant). v.id) db.variants
  pub skus : IsUniqueBy (λ (v : ProductVariant). v.sku) db.variants
  pub image_ids : IsUniqueBy (λ (i : ProductImage). i.id) db.images
  pub homes :
      All (λ (v : ProductVariant). is_some (find_product v.product_id db) ≡ true) db.variants
  pub storable : All (λ v. is_storable v ≡ true) db.variants
  pub subjects : All (λ (i : ProductImage). is_some (find_product i.product_id db) ≡ true) db.images
  pub colours :
      All (λ (i : ProductImage). is_known_variant i.variant_id db.variants ≡ true) db.images

pub unless-ok :
    {A : Type 0} (bad : Bool) (r : Refusal) (rest : Result Refusal A) (a : A)
    → unless bad r rest ≡ ok a
    → (bad ≡ false) × (rest ≡ ok a)
unless-ok true r rest a e = absurd (cc)
unless-ok false r rest a e = (refl, e)

pub is_some-false : {A : Type 0} (x : Option A) → is_some x ≡ false → x ≡ none
is_some-false none e = refl
is_some-false (some a) e = absurd (cc)

pub find-cons_is_some :
    {A : Type 0} (key : A → ℤ) (a : ℤ) (x : A) (xs : List A)
    → is_some (find key a xs) ≡ true
    → is_some (find key a (x ∷ xs)) ≡ true
unfolding find
find-cons_is_some key a x xs e = ground arith

pub find-put-is_some :
    {A : Type 0} (key : A → ℤ) (n : A) (xs : List A) (a : ℤ)
    → is_some (find key a xs) ≡ true
    → is_some (find key a (put key n xs)) ≡ true
find-put-is_some key n xs a e =
    ground (arith, find-put key n xs a, is_some-map (λ _. n) (find key a xs))

pub is_some-true : {A : Type 0} (x : Option A) → is_some x ≡ true → (a : A) × (x ≡ some a)
is_some-true none e = absurd (cc)
is_some-true (some a) e = (a, refl)
