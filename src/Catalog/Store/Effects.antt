-- ===== src/Catalog/Store/Effects.antt =====
-- What each function on products does when it succeeds, and that none touches the snapshot.
use go_folio.Prelude.{
  ◌≡◌, ◌≢◌, refl, sym, ap, ◌∙◌, ℕ, suc, ℤ, pos, Option, some, String, ok, eqb, Bool-cases, inl, inr,
  false, arith,
}
use go_folio.Catalog.Rows.{text_key}
use go_folio.Catalog.Domain.{Product, ProductVariant, ProductImage}
use go_folio.Catalog.Service.{RepoErr, product_not_found, variant_not_found}
use go_folio.Catalog.Db
use go_folio.Catalog.Db.{
  Db, find_product, find_variant, insert_product, insert_variant, insert_image,
}
use go_folio.Catalog.Db.Additions.{insert_variant-ok, update_variant_pricing-ok, insert_image-ok}
use go_folio.Catalog.Store.{
  Session, Tx, statement, map_pg_error, wrapped, if_any, get_product_by_id, create_product,
  update_product, delete_product, add_variant, get_variant_by_id, update_variant_pricing, add_image,
  pure,
}
use go_folio.Catalog.Store.Steps.{
  err-ne-ok, statement-ok, statement-keeps, statement-saved, proceed-ok, proceed-keeps, lookup-ok,
  lookup-tables, lookup-saved,
}

eqb_ne : (n : ℕ) → eqb n 0 ≡ false → n ≢ 0
eqb_ne n e h = ground (arith)

pub get_product_by_id-ok :
    (id : ℤ) (s : Session) (p : Product)
    → (get_product_by_id id s).0 ≡ ok p
    → find_product id s.tables ≡ some p
unfolding get_product_by_id
get_product_by_id-ok id s p e = lookup-ok (find_product id) product_not_found s p e

pub get_product_by_id-tables : (id : ℤ) (s : Session) → (get_product_by_id id s).1.tables ≡ s.tables
unfolding get_product_by_id
get_product_by_id-tables id s = lookup-tables (find_product id) product_not_found s

pub get_product_by_id-saved : (id : ℤ) (s : Session) → (get_product_by_id id s).1.saved ≡ s.saved
unfolding get_product_by_id
get_product_by_id-saved id s = lookup-saved (find_product id) product_not_found s

-- A product that was created: its row is in, and it is what the key finds now.
pub create_product-ok :
    (p : Product) (s : Session) (a : Product)
    → (create_product p s).0 ≡ ok a
    → let after = (create_product p s).1.tables in
      (id : ℤ) × (insert_product (pos (suc s.product_ids)) s.now p s.tables ≡ ok (id, after))
      × (find_product id after ≡ some a)
unfolding create_product
create_product-ok p s a e =
    let s1 = record s { product_ids = suc s.product_ids } in
    let insert = insert_product (pos (suc s.product_ids)) s.now p in
    let inserted = statement map_pg_error insert s1 in
    let (id, ran, rest) = proceed-ok get_product_by_id inserted a e in
    let did = statement-ok map_pg_error insert s1 id ran in
    let tables : (create_product p s).1.tables ≡ inserted.1.tables =
      ap (λ x. x.1.tables) rest ∙ get_product_by_id-tables id inserted.1 in
    let found = get_product_by_id-ok id inserted.1 a (ap (λ x. x.0) (sym rest) ∙ e) in
    (id, did ∙ ap (λ db. ok (id, db)) (sym tables), ap (find_product id) tables ∙ found)

pub create_product-saved : (p : Product) (s : Session) → (create_product p s).1.saved ≡ s.saved
unfolding create_product
create_product-saved p s =
    let s1 = record s { product_ids = suc s.product_ids } in
    let insert = insert_product (pos (suc s.product_ids)) s.now p in
    proceed-keeps (λ t. t.saved ≡ s.saved) get_product_by_id (statement map_pg_error insert s1)
      (statement-saved map_pg_error insert s1) (λ id t q. get_product_by_id-saved id t ∙ q)

-- Behind RowsAffected: a row was written, and the rest went on.
pub if_any-ok :
    {A : Type 0} (missing : RepoErr) (rest : Tx A) (n : ℕ) (s : Session) (a : A)
    → (if_any missing rest n s).0 ≡ ok a
    → (n ≢ 0) × (if_any missing rest n s ≡ rest s)
unfolding if_any
if_any-ok missing rest n s a e = elim (Bool-cases (eqb n 0)) [
  | inl nought ↦ absurd (err-ne-ok missing a (rw nought at e))
  | inr some_rows ↦ (eqb_ne n some_rows, rw some_rows refl)
]

pub if_any-keeps :
    {A : Type 0} (Q : Session → Type 0) (missing : RepoErr) (rest : Tx A) (n : ℕ) (s : Session)
    → Q s
    → Q (rest s).1
    → Q (if_any missing rest n s).1
unfolding if_any
if_any-keeps Q missing rest n s q r = elim (Bool-cases (eqb n 0)) [
  | inl nought ↦ rw nought q
  | inr some_rows ↦ rw some_rows r
]

-- A product that was updated: a row was, and it is what the key finds now.
pub update_product-ok :
    (id : ℤ) (p : Product) (s : Session) (a : Product)
    → (update_product id p s).0 ≡ ok a
    → let after = (update_product id p s).1.tables in
      (n : ℕ) × (n ≢ 0)
      × (Db.update_product id s.now p s.tables ≡ ok (n, after))
      × (find_product id after ≡ some a)
unfolding update_product
update_product-ok id p s a e =
    let write = Db.update_product id s.now p in
    let wrote = statement map_pg_error write s in
    let go = if_any product_not_found (get_product_by_id id) in
    let (n, ran, rest) = proceed-ok go wrote a e in
    let did = statement-ok map_pg_error write s n ran in
    let (any, went) =
      if_any-ok product_not_found (get_product_by_id id) n wrote.1 a
        (ap (λ x. x.0) (sym rest) ∙ e) in
    let tables : (update_product id p s).1.tables ≡ wrote.1.tables =
      ap (λ x. x.1.tables) (rest ∙ went) ∙ get_product_by_id-tables id wrote.1 in
    let found = get_product_by_id-ok id wrote.1 a (ap (λ x. x.0) (sym (rest ∙ went)) ∙ e) in
    (n, any, did ∙ ap (λ db. ok (n, db)) (sym tables), ap (find_product id) tables ∙ found)

pub update_product-saved :
    (id : ℤ) (p : Product) (s : Session) → (update_product id p s).1.saved ≡ s.saved
unfolding update_product
update_product-saved id p s =
    let write = Db.update_product id s.now p in
    let Q = λ (t : Session). t.saved ≡ s.saved in
    proceed-keeps Q (if_any product_not_found (get_product_by_id id))
      (statement map_pg_error write s) (statement-saved map_pg_error write s)
      (λ n t q.
        if_any-keeps Q product_not_found (get_product_by_id id) n t q
          (get_product_by_id-saved id t ∙ q))

pub delete_product-ok :
    (id : ℤ) (s : Session) (a : Unit)
    → (delete_product id s).0 ≡ ok a
    → (n : ℕ) × (n ≢ 0) × (Db.delete_product id s.tables ≡ ok (n, (delete_product id s).1.tables))
unfolding delete_product
delete_product-ok id s a e =
    let deleted = statement wrapped (Db.delete_product id) s in
    let go = if_any product_not_found (pure tt) in
    let (n, ran, rest) = proceed-ok go deleted a e in
    let did = statement-ok wrapped (Db.delete_product id) s n ran in
    let (any, went) =
      if_any-ok product_not_found (pure tt) n deleted.1 a (ap (λ x. x.0) (sym rest) ∙ e) in
    (n, any, did ∙ ap (λ db. ok (n, db)) (ap (λ x. x.1.tables) (sym (rest ∙ went))))

pub delete_product-saved : (id : ℤ) (s : Session) → (delete_product id s).1.saved ≡ s.saved
unfolding delete_product
delete_product-saved id s =
    let Q = λ (t : Session). t.saved ≡ s.saved in
    proceed-keeps Q (if_any product_not_found (pure tt))
      (statement wrapped (Db.delete_product id) s)
      (statement-saved wrapped (Db.delete_product id) s)
      (λ n t q. if_any-keeps Q product_not_found (pure tt) n t q q)

-- What leaves the rows of the products: the calls on variants and on images.
pub add_variant-rows :
    (v : ProductVariant) (s : Session) → (add_variant v s).1.tables.products ≡ s.tables.products
unfolding add_variant get_variant_by_id
add_variant-rows v s =
    let s1 = record s { variant_ids = suc s.variant_ids } in
    let insert = insert_variant (pos (suc s.variant_ids)) s.now v in
    proceed-keeps (λ t. t.tables.products ≡ s.tables.products) get_variant_by_id
      (statement map_pg_error insert s1)
      (statement-keeps (λ db. db.products ≡ s.tables.products) map_pg_error insert s1 refl
        (λ id db e.
          let (_, _, _, _, _, left) =
            insert_variant-ok (pos (suc s.variant_ids)) s.now v s.tables db id e in
          ap (λ (x : Db). x.products) left))
      (λ id t q.
        ap (λ (x : Db). x.products) (lookup-tables (find_variant id) variant_not_found t) ∙ q)

priced-rows :
    (sku : String) (now : ℕ) (retail : ℤ) (sale : Option ℤ) (currency : String) (db db' : Db)
    (n : ℕ)
    → Db.update_variant_pricing sku now retail sale currency db ≡ ok (n, db')
    → db'.products ≡ db.products
priced-rows sku now retail sale currency db db' n e =
    elim (update_variant_pricing-ok sku now retail sale currency db db' n e) [
      | inl (_, _, left) ↦ ap (λ (x : Db). x.products) left
      | inr (_, (_, _, _, left)) ↦ ap (λ (x : Db). x.products) left
    ]

pub update_variant_pricing-rows :
    (sku : String) (retail : ℤ) (sale : Option ℤ) (currency : String) (s : Session)
    → (update_variant_pricing sku retail sale currency s).1.tables.products ≡ s.tables.products
unfolding update_variant_pricing
update_variant_pricing-rows sku retail sale currency s =
    let write = Db.update_variant_pricing sku s.now retail sale currency in
    let Q = λ (t : Session). t.tables.products ≡ s.tables.products in
    proceed-keeps Q (if_any variant_not_found (pure tt)) (statement wrapped write s)
      (statement-keeps (λ db. db.products ≡ s.tables.products) wrapped write s refl
        (λ n db e. priced-rows sku s.now retail sale currency s.tables db n e))
      (λ n t q. if_any-keeps Q variant_not_found (pure tt) n t q q)

pub add_image-rows :
    (i : ProductImage) (s : Session) → (add_image i s).1.tables.products ≡ s.tables.products
unfolding add_image
add_image-rows i s =
    let s1 = record s { image_ids = suc s.image_ids } in
    let insert = insert_image (pos (suc s.image_ids)) s.now i in
    proceed-keeps (λ t. t.tables.products ≡ s.tables.products) (λ j. pure (record i { id = j }))
      (statement wrapped insert s1)
      (statement-keeps (λ db. db.products ≡ s.tables.products) wrapped insert s1 refl
        (λ id db e.
          let (_, _, _, _, _, left) =
            insert_image-ok (pos (suc s.image_ids)) s.now i s.tables db id e in
          ap (λ (x : Db). x.products) left))
      (λ id t q. q)
