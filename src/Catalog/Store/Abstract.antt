-- ===== src/Catalog/Store/Abstract.antt =====
-- What the service promises of its products: a map from ids, without rows, tables or transactions.
use go_folio.Prelude.{
  ◌≡◌, ◌≢◌, ℕ, ℤ, eqb_ℤ, Option, none, some, List, [], ◌∷◌, String, Result, ok, err, if◌then◌else◌,
}
use go_folio.Catalog.Domain.{Product, ProductVariant, ProductImage, validate_product}
use go_folio.Catalog.Db.{Db, find_product, inserted_product, updated_product}
use go_folio.Catalog.Service.{ServiceErr, ProductUpdate, merged}
use go_folio.Catalog.Service.Calls.{
  Call, create, get, get_by_slug, change, remove, add, get_sku, price, picture, Answer, product,
  variant, image, done,
}

abbrev pub View : Type 0
View = ℤ → Option Product

abbrev pub view : Db → View
view db id = find_product id db

abbrev pub IsSame : View → View → Type 0
IsSame v w = (k : ℤ) → w k ≡ v k

-- The same map but for one key.
abbrev pub IsWrite : ℤ → Option Product → View → View → Type 0
IsWrite id row v w = (k : ℤ) → w k ≡ (if eqb_ℤ id k then row else v k)

-- No product that counts has the code or the slug.
abbrev pub IsFree : (ℤ → Type 0) → Product → View → Type 0
IsFree Counts p v =
    (k : ℤ) (q : Product)
    → Counts k
    → v k ≡ some q
    → (q.product_code ≢ p.product_code) × (q.slug ≢ p.slug)

-- A call, the map before it, its answer, and the map after it.
pub data Step (now : ℕ) : Call → View → Result ServiceErr Answer → View → Type 0 where
  refuse : (c : Call) (v w : View) (e : ServiceErr) → IsSame v w → Step now c v (err e) w
  creates :
      (p : Product) (v w : View) (id : ℤ)
      → validate_product p ≡ none
      → v id ≡ none
      → IsFree (λ _. Unit) p v
      → IsWrite id (some (inserted_product id now p)) v w
      → Step now (create p) v (ok (product (inserted_product id now p))) w
  gets :
      (id : ℤ) (v w : View) (p : Product)
      → v id ≡ some p
      → IsSame v w
      → Step now (get id) v (ok (product p)) w
  gets_by_slug :
      (slug : String) (v w : View) (p : Product)
      → v p.id ≡ some p
      → p.slug ≡ slug
      → IsSame v w
      → Step now (get_by_slug slug) v (ok (product p)) w
  changes :
      (id : ℤ) (u : ProductUpdate) (v w : View) (old : Product)
      → v id ≡ some old
      → validate_product (merged u old) ≡ none
      → IsFree (λ k. k ≢ id) (merged u old) v
      → IsWrite id (some (updated_product now old (merged u old))) v w
      → Step now (change id u) v (ok (product (updated_product now old (merged u old)))) w
  removes :
      (id : ℤ) (v w : View) (old : Product)
      → v id ≡ some old
      → IsWrite id none v w
      → Step now (remove id) v (ok done) w
  adds :
      (x : ProductVariant) (v w : View) (y : ProductVariant)
      → IsSame v w
      → Step now (add x) v (ok (variant y)) w
  gets_sku :
      (sku : String) (v w : View) (y : ProductVariant)
      → IsSame v w
      → Step now (get_sku sku) v (ok (variant y)) w
  prices :
      (sku : String) (retail : ℤ) (sale : Option ℤ) (currency : String) (v w : View)
      → IsSame v w
      → Step now (price sku retail sale currency) v (ok done) w
  pictures :
      (x : ProductImage) (v w : View) (y : ProductImage)
      → IsSame v w
      → Step now (picture x) v (ok (image y)) w

-- Calls one after the other, each at its time.
pub data Run : List Call → View → List (Result ServiceErr Answer) → View → Type 0 where
  stop : (v : View) → Run [] v [] v
  step :
      {c : Call} {cs : List Call} {v w z : View} {r : Result ServiceErr Answer}
      {rs : List (Result ServiceErr Answer)} (now : ℕ)
      → Step now c v r w
      → Run cs w rs z
      → Run (c ∷ cs) v (r ∷ rs) z
