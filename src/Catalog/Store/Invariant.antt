-- ===== src/Catalog/Store/Invariant.antt =====
-- The tables stay sound, whatever is called and whatever fails.
use go_folio.Prelude.{
  ◌≡◌, sym, ap, ◌∙◌, subst, suc, ℤ, pos, Option, List, [], ◌∷◌, String, Result, ok, err,
}
use go_folio.Catalog.Domain.{
  Product, ProductVariant, ProductImage, validate_product, validate_variant, validate_image,
}
use go_folio.Catalog.Db
use go_folio.Catalog.Db.{
  Db, find_product, find_variant, insert_product, insert_variant, insert_image,
}
use go_folio.Catalog.Db.Sound.{IsSound}
use go_folio.Catalog.Db.Writes.{insert_product-IsSound, update_product-IsSound}
use go_folio.Catalog.Db.Deletion.{delete_product-IsSound}
use go_folio.Catalog.Db.Additions.{
  insert_variant-IsSound, update_variant_pricing-IsSound, insert_image-IsSound,
}
use go_folio.Catalog.Service
use go_folio.Catalog.Service.{
  RepoErr, ServiceErr, ProductUpdate, mapped, passed, where_valid, in_tx, change_product, merged,
  variant_not_found, product_not_found, invalid_product, error_text, pricing_rule,
}
use go_folio.Catalog.Service.Calls.{
  Call, create, get, get_by_slug, change, remove, add, get_sku, price, picture, Answer, product,
  variant, image, done, answer_as, serve, serve_all, mapped-state, passed-state, answer_as-state,
  where_valid-keeps,
}
use go_folio.Catalog.Store.{
  Session, Tx, postgres, statement, map_pg_error, wrapped, if_any, pure, query, or_missing, ◌>>=◌,
  get_product_by_id, get_product_by_id_for_update, get_product_by_slug, create_product,
  update_product, delete_product, add_variant, get_variant_by_sku, get_variant_by_id,
  update_variant_pricing, add_image,
}
use go_folio.Catalog.Store.Steps.{statement-keeps, proceed-keeps, lookup-tables, lookup-saved}
use go_folio.Catalog.Store.Effects.{
  if_any-keeps, get_product_by_id-tables, create_product-saved, update_product-saved,
  delete_product-saved,
}
use go_folio.Catalog.Store.Transactions.{opened, IsAtomic, in_tx-IsAtomic}

abbrev pub Keeps : {A : Type 0} → (Session → A × Session) → Type 0
Keeps run = (s : Session) → IsSound s.tables → IsSound (run s).1.tables

abbrev TablesSound : Session → Type 0
TablesSound s = IsSound s.tables

create_product-Keeps : (p : Product) → Keeps (create_product p)
unfolding create_product
create_product-Keeps p s h =
    let s1 = record s { product_ids = suc s.product_ids } in
    let id = pos (suc s.product_ids) in
    proceed-keeps TablesSound get_product_by_id
      (statement map_pg_error (insert_product id s.now p) s1)
      (statement-keeps IsSound map_pg_error (insert_product id s.now p) s1 h
        (λ out db e. insert_product-IsSound id s.now p s.tables db out e h))
      (λ i t q. subst IsSound (sym (get_product_by_id-tables i t)) q)

update_product-Keeps : (id : ℤ) (p : Product) → Keeps (update_product id p)
unfolding update_product
update_product-Keeps id p s h =
    let write = Db.update_product id s.now p in
    proceed-keeps TablesSound (if_any product_not_found (get_product_by_id id))
      (statement map_pg_error write s)
      (statement-keeps IsSound map_pg_error write s h
        (λ n db e. update_product-IsSound id s.now p s.tables db n e h))
      (λ n t q.
        if_any-keeps TablesSound product_not_found (get_product_by_id id) n t q
          (subst IsSound (sym (get_product_by_id-tables id t)) q))

delete_product-Keeps : (id : ℤ) → Keeps (delete_product id)
unfolding delete_product
delete_product-Keeps id s h =
    let write = Db.delete_product id in
    proceed-keeps TablesSound (if_any product_not_found (pure tt)) (statement wrapped write s)
      (statement-keeps IsSound wrapped write s h
        (λ n db e. delete_product-IsSound id s.tables db n e h))
      (λ n t q. if_any-keeps TablesSound product_not_found (pure tt) n t q q)

add_variant-Keeps : (v : ProductVariant) → Keeps (add_variant v)
unfolding add_variant get_variant_by_id
add_variant-Keeps v s h =
    let s1 = record s { variant_ids = suc s.variant_ids } in
    let id = pos (suc s.variant_ids) in
    proceed-keeps TablesSound get_variant_by_id
      (statement map_pg_error (insert_variant id s.now v) s1)
      (statement-keeps IsSound map_pg_error (insert_variant id s.now v) s1 h
        (λ out db e. insert_variant-IsSound id s.now v s.tables db out e h))
      (λ i t q. subst IsSound (sym (lookup-tables (find_variant i) variant_not_found t)) q)

update_variant_pricing-Keeps :
    (sku : String) (retail : ℤ) (sale : Option ℤ) (currency : String)
    → Keeps (update_variant_pricing sku retail sale currency)
unfolding update_variant_pricing
update_variant_pricing-Keeps sku retail sale currency s h =
    let write = Db.update_variant_pricing sku s.now retail sale currency in
    proceed-keeps TablesSound (if_any variant_not_found (pure tt)) (statement wrapped write s)
      (statement-keeps IsSound wrapped write s h
        (λ n db e. update_variant_pricing-IsSound sku s.now retail sale currency s.tables db n e h))
      (λ n t q. if_any-keeps TablesSound variant_not_found (pure tt) n t q q)

add_image-Keeps : (i : ProductImage) → Keeps (add_image i)
unfolding add_image
add_image-Keeps i s h =
    let s1 = record s { image_ids = suc s.image_ids } in
    let id = pos (suc s.image_ids) in
    proceed-keeps TablesSound (λ j. pure (record i { id = j }))
      (statement wrapped (insert_image id s.now i) s1)
      (statement-keeps IsSound wrapped (insert_image id s.now i) s1 h
        (λ out db e. insert_image-IsSound id s.now i s.tables db out e h))
      (λ j t q. q)

in_tx-Keeps :
    {A : Type 0} (fn : Session → Result ServiceErr A × Session) (s : Session)
    (y : Result ServiceErr A × Session)
    → Keeps fn
    → IsSound s.tables
    → IsAtomic fn s y
    → IsSound y.1.tables
in_tx-Keeps fn s (ok a, t) k h (_, left) = subst IsSound (sym left) (k (opened s) h)
in_tx-Keeps fn s (err e, t) k h left = subst IsSound (sym left) h

-- The body of the service's UpdateProduct.
abbrev pub change_body : ℤ → ProductUpdate → Session → Result ServiceErr Product × Session
change_body id u t = change_product postgres id u (mapped (get_product_by_id_for_update id t))

change_product-keeps :
    (Q : Session → Type 0) (id : ℤ) (u : ProductUpdate) (x : Result ServiceErr Product × Session)
    → Q x.1
    → ((p : Product) (t : Session) → Q t → Q (update_product id p t).1)
    → Q (change_product postgres id u x).1
unfolding change_product postgres
change_product-keeps Q id u (err e, s) q f = q
change_product-keeps Q id u (ok old, s) q f =
    where_valid-keeps postgres Q (λ rule. invalid_product (error_text "invalid product" rule))
      (validate_product (merged u old)) (λ t. mapped (update_product id (merged u old) t)) s q
      (subst Q (sym (mapped-state (update_product id (merged u old) s))) (f (merged u old) s q))

locked-keeps :
    (Q : Session → Type 0) (id : ℤ) (t : Session)
    → Q (get_product_by_id_for_update id t).1
    → Q (mapped (get_product_by_id_for_update id t)).1
locked-keeps Q id t q = subst Q (sym (mapped-state (get_product_by_id_for_update id t))) q

pub change_body-saved :
    (id : ℤ) (u : ProductUpdate) (t : Session) → (change_body id u t).1.saved ≡ t.saved
unfolding get_product_by_id_for_update
change_body-saved id u t =
    let Q = λ (r : Session). r.saved ≡ t.saved in
    change_product-keeps Q id u (mapped (get_product_by_id_for_update id t))
      (locked-keeps Q id t (lookup-saved (find_product id) product_not_found t))
      (λ p r q. update_product-saved id p r ∙ q)

change_body-Keeps : (id : ℤ) (u : ProductUpdate) → Keeps (change_body id u)
unfolding get_product_by_id_for_update
change_body-Keeps id u t h =
    change_product-keeps TablesSound id u (mapped (get_product_by_id_for_update id t))
      (locked-keeps TablesSound id t
        (subst IsSound (sym (lookup-tables (find_product id) product_not_found t)) h))
      (λ p r q. update_product-Keeps id p r q)

mapped-Keeps : {A : Type 0} (m : Tx A) → Keeps m → Keeps (λ s. mapped (m s))
mapped-Keeps m k s h = subst TablesSound (sym (mapped-state (m s))) (k s h)

-- A SELECT by a key and its mapping.
lookup-Keeps :
    {A : Type 0} (read : Db → Option A) (missing : RepoErr)
    → Keeps (query read >>= or_missing missing)
lookup-Keeps read missing s h = subst IsSound (sym (lookup-tables read missing s)) h

-- A transaction of the service on one function of the repository.
mapped-in_tx-Keeps :
    {A : Type 0} (m : Tx A)
    → Keeps m
    → ((t : Session) → (m t).1.saved ≡ t.saved)
    → Keeps (in_tx postgres (λ t. mapped (m t)))
mapped-in_tx-Keeps m k kept s h =
    in_tx-Keeps (λ t. mapped (m t)) s (in_tx postgres (λ t. mapped (m t)) s) (mapped-Keeps m k) h
      (in_tx-IsAtomic (λ t. mapped (m t)) s
        (ap (λ (t : Session). t.saved) (mapped-state (m (opened s))) ∙ kept (opened s)))

answer_as-Keeps :
    {A : Type 0} (f : A → Answer) (run : Session → Result ServiceErr A × Session)
    → Keeps run
    → Keeps (λ s. answer_as f (run s))
answer_as-Keeps f run k s h = subst TablesSound (sym (answer_as-state f (run s))) (k s h)

where_valid-Keeps :
    {A : Type 0} (refuse : String → ServiceErr) (rule : Option String)
    (run : Session → Result ServiceErr A × Session)
    → Keeps run
    → Keeps (where_valid postgres refuse rule run)
where_valid-Keeps refuse rule run k s h =
    where_valid-keeps postgres TablesSound refuse rule run s h (k s h)

pub serve-Keeps : (c : Call) → Keeps (serve postgres c)
unfolding serve postgres Service.create_product Service.get_product_by_id
    Service.get_product_by_slug Service.update_product Service.delete_product
    Service.add_variant_to_product Service.get_variant_by_sku Service.update_variant_pricing
    Service.add_product_image get_product_by_id get_product_by_slug get_variant_by_sku
serve-Keeps (create p) = answer_as-Keeps product _ (
    where_valid-Keeps _ (validate_product p) _
      (mapped-in_tx-Keeps (create_product p) (create_product-Keeps p) (create_product-saved p)))
serve-Keeps (get id) = answer_as-Keeps product _ (mapped-Keeps _ (lookup-Keeps _ product_not_found))
serve-Keeps (get_by_slug slug) =
    answer_as-Keeps product _ (mapped-Keeps _ (lookup-Keeps _ product_not_found))
serve-Keeps (change id u) = answer_as-Keeps product (Service.update_product postgres id u) (λ s h.
    in_tx-Keeps (change_body id u) s (in_tx postgres (change_body id u) s) (change_body-Keeps id u)
      h (in_tx-IsAtomic (change_body id u) s (change_body-saved id u (opened s))))
serve-Keeps (remove id) =
    answer_as-Keeps (λ _. done) _
      (mapped-in_tx-Keeps (delete_product id) (delete_product-Keeps id) (delete_product-saved id))
serve-Keeps (add v) = answer_as-Keeps variant _ (
    where_valid-Keeps _ (validate_variant v) _ (mapped-Keeps (add_variant v) (add_variant-Keeps v)))
serve-Keeps (get_sku sku) =
    answer_as-Keeps variant _ (mapped-Keeps _ (lookup-Keeps _ variant_not_found))
serve-Keeps (price sku retail sale currency) =
    answer_as-Keeps (λ _. done) _
      (where_valid-Keeps _ (Service.pricing_rule postgres retail sale currency) _ (
        mapped-Keeps (update_variant_pricing sku retail sale currency)
          (update_variant_pricing-Keeps sku retail sale currency)))
serve-Keeps (picture i) = answer_as-Keeps image _ (
    where_valid-Keeps _ (validate_image i) _
      (λ s h. subst TablesSound (sym (passed-state (add_image i s))) (add_image-Keeps i s h)))

-- After any sequence of calls of the catalog service over PostgreSQL, whatever statements, commits and
-- begins fail: ids, product codes, slugs and SKUs are unique, every variant belongs to a product that
-- is there, every image to a product and, where it names one, to a variant that is there, and every
-- variant meets the conditions of its table, if all this held at the start.
pub serve_all-IsSound :
    (calls : List Call) (s : Session)
    → IsSound s.tables
    → IsSound (serve_all postgres calls s).1.tables
unfolding serve_all
serve_all-IsSound [] s h = h
serve_all-IsSound (c ∷ cs) s h = serve_all-IsSound cs (serve postgres c s).1 (serve-Keeps c s h)
