-- ===== src/Catalog/Service/Laws.antt =====
-- What an accepted mutation went through.
use go_folio.Prelude.{
  ◌≡◌, refl, true, false, Result, ok, err, ap, String, ℤ, Bool, none, Option, sym, some, ◌∙◌,
}
use go_folio.Catalog.Domain.{Product, validate_product}
use go_folio.Catalog.Service.{
  Repository, ServiceErr, ProductUpdate, merged, mapped, where_valid, committed, ended, begun,
  in_tx, change_product, update_product, RepoErr,
}

module _ {S : Type 0} (repo : Repository S) where
  committed-ok :
      {A : Type 0} (a b : A) (x : Bool × S) → (committed repo a x).0 ≡ ok b → (x.0 ≡ true) × (a ≡ b)
  unfolding committed
  committed-ok a b (true, s) e = (refl, cc)
  committed-ok a b (false, s) e = absurd (cc)

  ended-ok :
      {A : Type 0} (a : A) (x : Result ServiceErr A × S)
      → (ended repo x).0 ≡ ok a
      → (x.0 ≡ ok a) × ((repo.commit x.1).0 ≡ true)
  unfolding ended
  ended-ok a (err e, s) h = absurd (cc)
  ended-ok a (ok b, s) h =
      let (done, same) = committed-ok b a (repo.commit s) h in (ap ok same, done)

  begun-ok :
      {A : Type 0} (fn : S → Result ServiceErr A × S) (a : A) (x : Bool × S)
      → (begun repo fn x).0 ≡ ok a
      → (x.0 ≡ true) × ((fn x.1).0 ≡ ok a) × ((repo.commit (fn x.1).1).0 ≡ true)
  unfolding begun
  begun-ok fn a (false, s) h = absurd (cc)
  begun-ok fn a (true, s) h = let (ran, closed) = ended-ok a (fn s) h in (refl, ran, closed)

  pub mapped-ok :
      {A : Type 0} (a : A) (x : Result RepoErr A × S)
      → (mapped x).0 ≡ ok a
      → (x.0 ≡ ok a) × ((mapped x).1 ≡ x.1)
  unfolding mapped
  mapped-ok a (ok b, s) h = let same : b ≡ a = cc in (ap ok same, refl)
  mapped-ok a (err e, s) h = absurd (cc)

  pub where_valid-ok :
      {A : Type 0} (refuse : String → ServiceErr) (rule : Option String)
      (run : S → Result ServiceErr A × S) (s : S) (a : A)
      → (where_valid repo refuse rule run s).0 ≡ ok a
      → (rule ≡ none) × (where_valid repo refuse rule run s ≡ run s)
  unfolding where_valid
  where_valid-ok refuse none run s a h = (refl, refl)
  where_valid-ok refuse (some rule) run s a h = absurd (cc)

  pub change_product-ok :
      (id : ℤ) (u : ProductUpdate) (x : Result ServiceErr Product × S) (p : Product)
      → (change_product repo id u x).0 ≡ ok p
      → (old : Product) × (x.0 ≡ ok old)
        × (validate_product (merged u old) ≡ none)
        × ((repo.update_product id (merged u old) x.1).0 ≡ ok p)
        × ((change_product repo id u x).1 ≡ (repo.update_product id (merged u old) x.1).1)
  unfolding change_product
  change_product-ok id u (err e, s) p h = absurd (cc)
  change_product-ok id u (ok old, s) p h =
      let write = λ (t : S). mapped (repo.update_product id (merged u old) t) in
      let (valid, ran) = where_valid-ok _ (validate_product (merged u old)) write s p h in
      let (done, state) =
        mapped-ok p (repo.update_product id (merged u old) s) (ap (λ x. x.0) (sym ran) ∙ h) in
      (old, refl, valid, done, ap (λ x. x.1) ran ∙ state)

  -- An update of a product that is accepted, over any repository, went through each of these: the
  -- transaction began, the row was read under a lock, the row with the given fields put over it
  -- passes the rules of a product, that row was written, the written row is the answer, and the
  -- transaction was committed.
  pub update_product-ok :
      (id : ℤ) (u : ProductUpdate) (s : S) (p : Product)
      → (update_product repo id u s).0 ≡ ok p
      → let s1 = (repo.begin s).1 in
        let locked = repo.get_product_by_id_for_update id s1 in
        ((repo.begin s).0 ≡ true)
        × ((old : Product) × (locked.0 ≡ ok old)
            × (validate_product (merged u old) ≡ none)
            × (let wrote = repo.update_product id (merged u old) locked.1 in
                (wrote.0 ≡ ok p) × ((repo.commit wrote.1).0 ≡ true)))
  unfolding update_product in_tx
  update_product-ok id u s p h =
      let s1 = (repo.begin s).1 in
      let locked = repo.get_product_by_id_for_update id s1 in
      let fn =
        λ (t : S). change_product repo id u (mapped (repo.get_product_by_id_for_update id t)) in
      let (opened, ran, closed) = begun-ok fn p (repo.begin s) h in
      let (old, found, valid, wrote, left) = change_product-ok id u (mapped locked) p ran in
      let (read, same) = mapped-ok old locked found in
      let at = λ (t : S). repo.update_product id (merged u old) t in
      (
        opened,
        (
          old,
          read,
          valid,
          (
            ap (λ t. (at t).0) (sym same) ∙ wrote,
            ap (λ t. (repo.commit t).0) (ap (λ t. (at t).1) (sym same) ∙ sym left) ∙ closed,
          ),
        ),
      )
