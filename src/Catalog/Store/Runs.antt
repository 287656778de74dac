-- ===== src/Catalog/Store/Runs.antt =====
-- Every run of calls over PostgreSQL is a run of the map from ids to products.
use go_folio.Prelude.{
  ◌≡◌, refl, sym, ap, ◌∙◌, subst, subst₂, suc, ℤ, pos, Option, none, some, List, [], ◌∷◌, String,
  Result, ok, err,
}
use go_folio.Catalog.Rows.{int_key, text_key, find}
use go_folio.Catalog.Rows.Laws.{find-key, find-own}
use go_folio.Catalog.Domain.{
  Product, ProductVariant, validate_product, validate_variant, validate_image,
}
use go_folio.Catalog.Db
use go_folio.Catalog.Db.{Db, find_product, inserted_product, updated_product}
use go_folio.Catalog.Db.Sound.{IsSound}
use go_folio.Catalog.Service
use go_folio.Catalog.Service.{
  RepoErr, ServiceErr, ProductUpdate, mapped, passed, where_valid, in_tx, merged, product_not_found,
  variant_not_found,
}
use go_folio.Catalog.Service.Laws.{mapped-ok, change_product-ok}
use go_folio.Catalog.Service.Calls.{
  Call, create, get, get_by_slug, change, remove, add, get_sku, price, picture, Answer, product,
  variant, image, done, answer_as, serve, serve_all, mapped-state, passed-state,
}
use go_folio.Catalog.Store.{
  Session, postgres, query, or_missing, ◌>>=◌, get_product_by_id, get_product_by_id_for_update,
  get_product_by_slug, create_product, update_product, delete_product, get_variant_by_sku,
  add_variant, update_variant_pricing, add_image,
}
use go_folio.Catalog.Store.Steps.{lookup-ok, lookup-tables, lookup-frame}
use go_folio.Catalog.Store.Effects.{
  create_product-ok, create_product-saved, update_product-ok, delete_product-ok,
  delete_product-saved, add_variant-rows, update_variant_pricing-rows, add_image-rows,
}
use go_folio.Catalog.Store.Transactions.{opened, IsAtomic, in_tx-IsAtomic}
use go_folio.Catalog.Store.Abstract.{
  view, IsSame, IsWrite, Step, refuse, creates, gets, gets_by_slug, changes, removes, adds,
  gets_sku, prices, pictures, Run, stop, step,
}
use go_folio.Catalog.Store.Refines.{inserted_view, updated_view, deleted_view}
use go_folio.Catalog.Store.Invariant.{change_body, change_body-saved, serve-Keeps}

-- What a call did to the map.
abbrev IsStep : Call → Session → Result ServiceErr Answer × Session → Type 0
IsStep c s y = Step s.now c (view s.tables) y.0 (view y.1.tables)

some-injective : {A : Type 0} {a b : A} → some a ≡ some b → a ≡ b
some-injective e = cc

same : (db db' : Db) → db' ≡ db → IsSame (view db) (view db')
same db db' e k = ap (find_product k) e

create-IsStep :
    (p : Product) (s : Session) (y : Result ServiceErr Product × Session)
    → validate_product p ≡ none
    → IsAtomic (λ t. mapped (create_product p t)) s y
    → IsStep (create p) s (answer_as product y)
unfolding answer_as
create-IsStep p s (err e, t) valid left = refuse (create p) _ _ e (same s.tables t.tables left)
create-IsStep p s (ok a, t) valid (ran, left) =
    let o = opened s in
    let (answer, state) = mapped-ok postgres a (create_product p o) ran in
    let (id, did, found) = create_product-ok p o a answer in
    let after : t.tables ≡ (create_product p o).1.tables =
      left ∙ ap (λ (u : Session). u.tables) state in
    let (absent, free, set, is) =
      inserted_view (pos (suc s.product_ids)) s.now p s.tables t.tables id a
        (did ∙ ap (λ db. ok (id, db)) (sym after)) (ap (find_product id) after ∙ found) in
    subst (λ x. Step s.now (create p) (view s.tables) (ok (product x)) (view t.tables)) (sym is)
      (creates p (view s.tables) (view t.tables) (pos (suc s.product_ids)) valid absent free set)

remove-IsStep :
    (id : ℤ) (s : Session) (y : Result ServiceErr Unit × Session)
    → IsAtomic (λ t. mapped (delete_product id t)) s y
    → IsStep (remove id) s (answer_as (λ _. done) y)
unfolding answer_as
remove-IsStep id s (err e, t) left = refuse (remove id) _ _ e (same s.tables t.tables left)
remove-IsStep id s (ok a, t) (ran, left) =
    let o = opened s in
    let (answer, state) = mapped-ok postgres a (delete_product id o) ran in
    let (n, any, did) = delete_product-ok id o a answer in
    let after : t.tables ≡ (delete_product id o).1.tables =
      left ∙ ap (λ (u : Session). u.tables) state in
    let (old, was, set) =
      deleted_view id s.tables t.tables n (did ∙ ap (λ db. ok (n, db)) (sym after)) any in
    removes id (view s.tables) (view t.tables) old was set

change-IsStep :
    (id : ℤ) (u : ProductUpdate) (s : Session) (y : Result ServiceErr Product × Session)
    → IsAtomic (change_body id u) s y
    → IsStep (change id u) s (answer_as product y)
unfolding answer_as postgres get_product_by_id_for_update
change-IsStep id u s (err e, t) left = refuse (change id u) _ _ e (same s.tables t.tables left)
change-IsStep id u s (ok a, t) (ran, left) =
    let o = opened s in
    let locked = get_product_by_id_for_update id o in
    let (old, read, valid, answer, state) = change_product-ok postgres id u (mapped locked) a ran in
    let (row, kept) = mapped-ok postgres old locked read in
    let was = lookup-ok (find_product id) product_not_found o old row in
    let unchanged : (mapped locked).1.tables ≡ s.tables =
      ap (λ (t : Session). t.tables) kept ∙ lookup-tables (find_product id) product_not_found o in
    let now : (mapped locked).1.now ≡ s.now =
      ap (λ (t : Session). t.now) kept
      ∙ ap (λ x. x.1) (lookup-frame (find_product id) product_not_found o) in
    let write = update_product id (merged u old) (mapped locked).1 in
    let (n, any, did, found) = update_product-ok id (merged u old) (mapped locked).1 a answer in
    let after : t.tables ≡ write.1.tables = left ∙ ap (λ (u : Session). u.tables) state in
    let (prior, was', free, set, is) =
      updated_view id s.now (merged u old) s.tables t.tables n a
        (subst₂ (λ c db. Db.update_product id c (merged u old) db ≡ ok (n, t.tables)) now unchanged
          (did ∙ ap (λ db. ok (n, db)) (sym after)))
        any (ap (find_product id) after ∙ found) in
    let prior_old : prior ≡ old = some-injective (sym was' ∙ was) in
    let row_set =
      subst
        (λ o.
          IsWrite id (some (updated_product s.now o (merged u old))) (view s.tables)
            (view t.tables))
        prior_old set in
    let answer_is = subst (λ o. a ≡ updated_product s.now o (merged u old)) prior_old is in
    subst (λ x. Step s.now (change id u) (view s.tables) (ok (product x)) (view t.tables))
      (sym answer_is) (changes id u (view s.tables) (view t.tables) old was valid free row_set)

-- The rules of a record come first, and change nothing.
valid-IsStep :
    {A : Type 0} (c : Call) (f : A → Answer) (s : Session) (refusal : String → ServiceErr)
    (rule : Option String) (run : Session → Result ServiceErr A × Session)
    → (rule ≡ none → IsStep c s (answer_as f (run s)))
    → IsStep c s (answer_as f (where_valid postgres refusal rule run s))
unfolding answer_as where_valid
valid-IsStep c f s refusal none run h = h refl
valid-IsStep c f s refusal (some text) run h = refuse c _ _ (refusal text) (λ k. refl)

-- A call that leaves the rows of the products.
quiet-IsStep :
    {A : Type 0} (c : Call) (f : A → Answer) (s : Session) (y : Result ServiceErr A × Session)
    → y.1.tables.products ≡ s.tables.products
    → ((a : A)
        → y.0 ≡ ok a
        → IsSame (view s.tables) (view y.1.tables)
        → Step s.now c (view s.tables) (ok (f a)) (view y.1.tables))
    → IsStep c s (answer_as f y)
unfolding answer_as
quiet-IsStep c f s (ok a, t) rows h = h a refl (λ k. ap (find (λ (p : Product). p.id) k) rows)
quiet-IsStep c f s (err e, t) rows h =
    refuse c _ _ e (λ k. ap (find (λ (p : Product). p.id) k) rows)

read-rows :
    {A : Type 0} (read : Db → Option A) (missing : RepoErr) (s : Session)
    → (mapped ((query read >>= or_missing missing) s)).1.tables.products ≡ s.tables.products
read-rows read missing s =
    ap (λ (t : Session). t.tables.products) (mapped-state ((query read >>= or_missing missing) s))
    ∙ ap (λ (db : Db). db.products) (lookup-tables read missing s)

read-found :
    {A : Type 0} (read : Db → Option A) (missing : RepoErr) (s : Session) (a : A)
    → (mapped ((query read >>= or_missing missing) s)).0 ≡ ok a
    → read s.tables ≡ some a
read-found read missing s a e =
    lookup-ok read missing s a (mapped-ok postgres a ((query read >>= or_missing missing) s) e).0

serve-IsStep : (c : Call) (s : Session) → IsSound s.tables → IsStep c s (serve postgres c s)
unfolding serve postgres Service.create_product Service.get_product_by_id
    Service.get_product_by_slug Service.update_product Service.delete_product
    Service.add_variant_to_product Service.get_variant_by_sku Service.update_variant_pricing
    Service.add_product_image get_product_by_id get_product_by_slug get_variant_by_sku
serve-IsStep (create p) s h =
    valid-IsStep (create p) product s _ (validate_product p)
      (in_tx postgres (λ t. mapped (create_product p t)))
      (λ valid. create-IsStep p s (in_tx postgres (λ t. mapped (create_product p t)) s) valid (
        in_tx-IsAtomic (λ t. mapped (create_product p t)) s
          (ap (λ (t : Session). t.saved) (mapped-state (create_product p (opened s)))
            ∙ create_product-saved p (opened s))))
serve-IsStep (get id) s h =
    quiet-IsStep (get id) product s _ (read-rows (find_product id) product_not_found s)
      (λ p e. gets id _ _ p (read-found (find_product id) product_not_found s p e))
serve-IsStep (get_by_slug slug) s h =
    let read = λ (db : Db). find (λ (p : Product). p.slug) slug db.products in
    quiet-IsStep (get_by_slug slug) product s _ (read-rows read product_not_found s) (λ p e.
      let found = read-found read product_not_found s p e in
      gets_by_slug slug _ _ p
        (find-own (λ (q : Product). q.id) (λ (q : Product). q.slug) slug s.tables.products p h.ids
          found)
        (find-key (λ (q : Product). q.slug) slug s.tables.products p found))
serve-IsStep (change id u) s h =
    change-IsStep id u s (in_tx postgres (change_body id u) s)
      (in_tx-IsAtomic (change_body id u) s (change_body-saved id u (opened s)))
serve-IsStep (remove id) s h =
    remove-IsStep id s (in_tx postgres (λ t. mapped (delete_product id t)) s) (
      in_tx-IsAtomic (λ t. mapped (delete_product id t)) s
        (ap (λ (t : Session). t.saved) (mapped-state (delete_product id (opened s)))
          ∙ delete_product-saved id (opened s)))
serve-IsStep (add v) s h =
    valid-IsStep (add v) variant s _ (validate_variant v) (λ t. mapped (add_variant v t))
      (λ _.
        quiet-IsStep (add v) variant s (mapped (add_variant v s))
          (ap (λ (t : Session). t.tables.products) (mapped-state (add_variant v s))
            ∙ add_variant-rows v s)
          (λ a e. adds v _ _ a))
serve-IsStep (get_sku sku) s h =
    let read = λ (db : Db). find (λ (v : ProductVariant). v.sku) sku db.variants in
    quiet-IsStep (get_sku sku) variant s _ (read-rows read variant_not_found s)
      (λ v e. gets_sku sku _ _ v)
serve-IsStep (price sku retail sale currency) s h =
    let pricing = update_variant_pricing sku retail sale currency in
    valid-IsStep (price sku retail sale currency) (λ _. done) s _
      (Service.pricing_rule postgres retail sale currency) (λ t. mapped (pricing t))
      (λ _.
        quiet-IsStep (price sku retail sale currency) (λ _. done) s (mapped (pricing s))
          (ap (λ (t : Session). t.tables.products) (mapped-state (pricing s))
            ∙ update_variant_pricing-rows sku retail sale currency s)
          (λ a e. prices sku retail sale currency _ _))
serve-IsStep (picture i) s h =
    valid-IsStep (picture i) image s _ (validate_image i) (λ t. passed (add_image i t))
      (λ _.
        quiet-IsStep (picture i) image s (passed (add_image i s))
          (ap (λ (t : Session). t.tables.products) (passed-state (add_image i s))
            ∙ add_image-rows i s)
          (λ a e. pictures i _ _ a))

-- The service over PostgreSQL implements the map from ids to products, for any sequence of calls from
-- sound tables and whatever statements fail: each answer with its change of the products is a step of
-- the map. A refused call changes no product. An accepted create puts the given product under an id,
-- code and slug that were free; an accepted update merges the given fields into the product that was
-- there, under a code and slug that no other has; an accepted delete removes one that was there; a
-- read by id or slug answers the product that the map holds.
pub serve_all-refines :
    (calls : List Call) (s : Session)
    → IsSound s.tables
    → Run calls
        (view s.tables)
        (serve_all postgres calls s).0
        (view (serve_all postgres calls s).1.tables)
unfolding serve_all
serve_all-refines [] s h = stop (view s.tables)
serve_all-refines (c ∷ cs) s h =
    let after = serve postgres c s in
    step s.now (serve-IsStep c s h) (serve_all-refines cs after.1 (serve-Keeps c s h))
