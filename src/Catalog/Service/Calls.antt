-- ===== src/Catalog/Service/Calls.antt =====
-- The calls of the CatalogService interface of internal/service/interfaces.go, on any repository, but
-- for its lists: they only read, and stand in Store.Pages and Handler.Sync.
use go_folio.Prelude.{◌≡◌, refl, none, some, ℤ, Option, List, [], ◌∷◌, String, Result, ok, err}
use go_folio.Catalog.Domain.{Product, ProductVariant, ProductImage}
use go_folio.Catalog.Service.{
  Repository, RepoErr, ServiceErr, ProductUpdate, mapped, passed, where_valid, create_product,
  get_product_by_id, get_product_by_slug, update_product, delete_product, add_variant_to_product,
  get_variant_by_sku, update_variant_pricing, add_product_image,
}

pub data Call : Type 0 where
  create : Product → Call
  get : ℤ → Call
  get_by_slug : String → Call
  change : ℤ → ProductUpdate → Call
  remove : ℤ → Call
  add : ProductVariant → Call
  get_sku : String → Call
  price : (sku : String) (retail : ℤ) (sale : Option ℤ) (currency : String) → Call
  picture : ProductImage → Call

pub data Answer : Type 0 where
  product : Product → Answer
  variant : ProductVariant → Answer
  image : ProductImage → Answer
  done : Answer

unfoldable pub answer_as :
    {A S : Type 0} → (A → Answer) → Result ServiceErr A × S → Result ServiceErr Answer × S
answer_as f (ok a, s) = (ok (f a), s)
answer_as f (err e, s) = (err e, s)

module _ {S : Type 0} (repo : Repository S) where
  unfoldable pub serve : Call → S → Result ServiceErr Answer × S
  unfolding answer_as create_product get_product_by_id get_product_by_slug update_product
      delete_product add_variant_to_product get_variant_by_sku update_variant_pricing
      add_product_image
  serve (create p) s = answer_as product (create_product repo p s)
  serve (get id) s = answer_as product (get_product_by_id repo id s)
  serve (get_by_slug slug) s = answer_as product (get_product_by_slug repo slug s)
  serve (change id u) s = answer_as product (update_product repo id u s)
  serve (remove id) s = answer_as (λ _. done) (delete_product repo id s)
  serve (add v) s = answer_as variant (add_variant_to_product repo v s)
  serve (get_sku sku) s = answer_as variant (get_variant_by_sku repo sku s)
  serve (price sku retail sale currency) s =
      answer_as (λ _. done) (update_variant_pricing repo sku retail sale currency s)
  serve (picture i) s = answer_as image (add_product_image repo i s)

  -- One call after the other, with the answers.
  unfoldable pub serve_all : List Call → S → List (Result ServiceErr Answer) × S
  unfolding serve
  serve_all [] s = ([], s)
  serve_all (c ∷ cs) s =
      let first = serve c s in let rest = serve_all cs first.1 in (first.0 ∷ rest.0, rest.1)

-- The wrappers leave the state.
pub mapped-state : {A S : Type 0} (x : Result RepoErr A × S) → (mapped x).1 ≡ x.1
unfolding mapped
mapped-state (ok a, s) = refl
mapped-state (err e, s) = refl

pub passed-state : {A S : Type 0} (x : Result RepoErr A × S) → (passed x).1 ≡ x.1
unfolding passed
passed-state (ok a, s) = refl
passed-state (err e, s) = refl

pub answer_as-state :
    {A S : Type 0} (f : A → Answer) (x : Result ServiceErr A × S) → (answer_as f x).1 ≡ x.1
unfolding answer_as
answer_as-state f (ok a, s) = refl
answer_as-state f (err e, s) = refl

-- Behind the rules of a record: what the state and what is done keep.
pub where_valid-keeps :
    {A S : Type 0} (repo : Repository S) (Q : S → Type 0) (refuse : String → ServiceErr)
    (rule : Option String) (run : S → Result ServiceErr A × S) (s : S)
    → Q s
    → Q (run s).1
    → Q (where_valid repo refuse rule run s).1
unfolding where_valid
where_valid-keeps repo Q refuse none run s q r = r
where_valid-keeps repo Q refuse (some rule) run s q r = q
