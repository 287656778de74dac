-- ===== src/Catalog/Seed/Laws.antt =====
-- What the seed does to a catalog, and that it does it once.
use go_folio.Prelude.{
  leb_ℤ, if◌then◌else◌, ◌||◌, ◌≡◌, ◌⊎◌, inl, inr, refl, ap, ◌∙◌, ℤ, Bool-cases, List, [], ◌∷◌, none,
  Result, ok, err, Bool,
}
use go_folio.Catalog.Rows.{int_key, text_key, is_some, insert_by, order_by, find}
use go_folio.Catalog.Domain.{Product, validate_product, validate_variant}
use go_folio.Catalog.Db.{Db, select_products, inserted_product}
use go_folio.Catalog.Db.Writes.{insert_product-ok}
use go_folio.Catalog.Service
use go_folio.Catalog.Service.{product_conflict, RepoErr, ServiceErr, mapped, where_valid, in_tx}
use go_folio.Catalog.Service.Laws.{mapped-ok}
use go_folio.Catalog.Service.Calls.{mapped-state, where_valid-keeps}
use go_folio.Catalog.Store.{
  Session, postgres, create_product, add_variant, list_products, query, statement, answered,
}
use go_folio.Catalog.Store.Effects.{create_product-ok, create_product-saved, add_variant-rows}
use go_folio.Catalog.Store.Transactions.{opened, IsAtomic, in_tx-IsAtomic}
use go_folio.Catalog.Store.Outcomes.{calm, next_id, create_product-outcome}
use go_folio.Catalog.Seed.{
  billetera, variant_of, VariantSeed, variants, add_variants, after_create, seed_catalog, run,
}

List-cases : {A : Type 0} (xs : List A) → (xs ≡ []) ⊎ ((x : A) × (ys : List A) × (xs ≡ x ∷ ys))
List-cases [] = inl refl
List-cases (x ∷ xs) = inr (x, xs, refl)

insert_some :
    {A : Type 0} (before : A → A → Bool) (x : A) (ys : List A)
    → (y : A) × (zs : List A) × (insert_by before x ys ≡ y ∷ zs)
unfolding insert_by
insert_some before x [] = (x, [], refl)
insert_some before x (y ∷ ys) = elim (Bool-cases (before x y)) [
  | inl first ↦ (x, y ∷ ys, rw first refl)
  | inr later ↦ (y, insert_by before x ys, rw later refl)
]

-- A list of rows that there are is not empty.
selected_some :
    (db : Db) (p : Product) (ps : List Product)
    → db.products ≡ p ∷ ps
    → (q : Product) × (qs : List Product) × (select_products db ≡ q ∷ qs)
unfolding select_products order_by
selected_some db p ps e =
    let order = order_by (λ (a b : Product). leb_ℤ a.id b.id) in
    let (q, qs, shown) = insert_some (λ (a b : Product). leb_ℤ a.id b.id) p (order ps) in
    (q, qs, ap order e ∙ shown)

listed : (s : Session) → list_products (calm s) ≡ (ok (select_products s.tables), calm s)
unfolding list_products query statement answered
listed s = refl

-- Where there is a product, nothing is done.
run_full :
    (s : Session) (p : Product) (ps : List Product)
    → s.tables.products ≡ p ∷ ps
    → run (calm s) ≡ calm s
unfolding run seed_catalog
run_full s p ps e =
    let (q, qs, shown) = selected_some s.tables p ps e in
    ap seed_catalog (listed s) ∙ ap (λ xs. seed_catalog (ok xs, calm s)) shown

add_variants-rows :
    (id : ℤ) (vs : List VariantSeed) (s : Session)
    → (add_variants id vs s).tables.products ≡ s.tables.products
unfolding add_variants Service.add_variant_to_product postgres
add_variants-rows id [] s = refl
add_variants-rows id (v ∷ vs) s =
    let row = variant_of id v in
    add_variants-rows id vs (Service.add_variant_to_product postgres row s).1
    ∙ where_valid-keeps postgres (λ t. t.tables.products ≡ s.tables.products) _
        (validate_variant row) (λ t. mapped (add_variant row t)) s refl
        (ap (λ (t : Session). t.tables.products) (mapped-state (add_variant row s))
          ∙ add_variant-rows row s)

created-rows :
    (s : Session) (y : Result ServiceErr Product × Session)
    → IsAtomic (λ t. mapped (create_product billetera t)) (calm s) y
    → y.0 ≡ ok (inserted_product (next_id s) s.now billetera)
    → (after_create y).tables.products
      ≡ inserted_product (next_id s) s.now billetera ∷ s.tables.products
unfolding after_create
created-rows s (err e, t) atomic h = absurd (cc)
created-rows s (ok a, t) (ran, left) h =
    let o = opened (calm s) in
    let (answer, state) = mapped-ok postgres a (create_product billetera o) ran in
    let (id, did, found) = create_product-ok billetera o a answer in
    let (_, _, _, _, rows) = insert_product-ok (next_id s) s.now billetera s.tables _ id did in
    add_variants-rows a.id variants t
    ∙ ap (λ (db : Db). db.products) (left ∙ ap (λ (u : Session). u.tables) state ∙ rows)

seeded_product : Session → Product
seeded_product s = inserted_product (next_id s) s.now billetera

billetera_valid : validate_product billetera ≡ none
unfolding validate_product billetera
billetera_valid = refl

run_empty :
    (s : Session) → s.tables.products ≡ [] → (run (calm s)).tables.products ≡ seeded_product s ∷ []
unfolding run seed_catalog seeded_product inserted_product Service.create_product where_valid
    select_products order_by find validate_product billetera postgres
run_empty s empty =
    let created = Service.create_product postgres billetera (calm s) in
    let outcome : created.0 ≡ ok (seeded_product s) =
      (create_product-outcome billetera s billetera_valid
        (ap (find (λ (q : Product). q.id) (next_id s)) empty)).0
      ∙ ap
          (λ (ps : List Product).
            if is_some (find (λ (q : Product). q.product_code) "BM-02" ps)
              || is_some (find (λ (q : Product). q.slug) "billetera-de-colores" ps)
            then err product_conflict
            else ok (seeded_product s))
          empty in
    let atomic : IsAtomic (λ t. mapped (create_product billetera t)) (calm s) created =
      in_tx-IsAtomic (λ t. mapped (create_product billetera t)) (calm s)
        (ap (λ (t : Session). t.saved) (mapped-state (create_product billetera (opened (calm s))))
          ∙ create_product-saved billetera (opened (calm s))) in
    ap (λ (t : Session). t.tables.products)
      (ap seed_catalog (listed s)
        ∙ ap (λ xs. seed_catalog (ok xs, calm s))
            (ap (order_by (λ (a b : Product). leb_ℤ a.id b.id)) empty))
    ∙ created-rows s created atomic outcome
    ∙ ap (λ ps. seeded_product s ∷ ps) empty

-- Where no statement fails: the seed of a catalog without products leaves the one product BM-02, under
-- the next id; where there is a product it changes nothing; and seeding again changes nothing.
pub run_once :
    (s : Session)
    → let after = run (calm s) in
      (s.tables.products ≡ []
        → after.tables.products ≡ inserted_product (next_id s) s.now billetera ∷ [])
      × ((p : Product) (ps : List Product) → s.tables.products ≡ p ∷ ps → after ≡ calm s)
      × (run (calm after) ≡ calm after)
unfolding seeded_product
run_once s = (
  run_empty s,
  run_full s,
  elim (List-cases s.tables.products) [
    | inl empty ↦ run_full (run (calm s)) (seeded_product s) [] (run_empty s empty)
    | inr (p, ps, full) ↦
        run_full (run (calm s)) p ps
          (ap (λ (t : Session). t.tables.products) (run_full s p ps full) ∙ full)
  ],
)
