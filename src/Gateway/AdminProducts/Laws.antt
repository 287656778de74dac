-- ===== src/Gateway/AdminProducts/Laws.antt =====
-- The saga: what a 201 takes, what a failure undoes, and the saga over the inventory service.
use Prim.Native.String
use go_folio.Inventory.Service.Outcomes.{adjust_unknown}
use go_folio.Prelude.{
  ◌≡◌, [], refl, ℤ, ℕ, String, Option, none, some, Result, ok, err, eqb, false, Bool-cases, ◌≢◌,
  inl, inr, ◌⊎◌, arith, ap, subst, sym, List, pos,
}
use go_folio.Gateway.Clients.CatalogClient
use go_folio.Gateway.Clients.CatalogClient.{
  Transport, CatalogVariant, CatalogErr, created, decoded, proxy_request, post, http_error, del,
  variant_path, delete_variant, failed,
}
use go_folio.Gateway.Clients.InventoryClient.{Stub, seed_sku, GrpcCode, service_stub}
use go_folio.Gateway.AdminProducts.{seeded, after_create, saga, not_created}
use go_folio.Gateway.Http.{Response, write_json, write_error}
use go_folio.Strconv.{parse_int64, format_int}
use go_folio.Inventory.Domain.{Stock}
use go_folio.Inventory.Repository.{Session}
use go_folio.Inventory.Db.{find_stock}

-- An error with a status has another status than 201.
abbrev IsPlain : Result CatalogErr CatalogVariant → Type 0
IsPlain (err (http_error status _)) = status ≢ 201
IsPlain _ = Unit

decoded-IsPlain : (op : String) (v : Option CatalogVariant) → IsPlain (decoded op v)
unfolding decoded
decoded-IsPlain op none = tt
decoded-IsPlain op (some v) = tt

ne_of_eqb : (n : ℕ) → eqb n 201 ≡ false → n ≢ 201
ne_of_eqb n e = ground arith

created-IsPlain :
    {C : Type 0} (http : Transport C) (answer : Option (ℕ × String)) → IsPlain (created http answer)
unfolding created
created-IsPlain http none = tt
created-IsPlain http (some (n, text)) = elim (Bool-cases (eqb n 201)) [
  | inl made ↦ rw made (decoded-IsPlain "decode add variant response" (http.decode_variant text))
  | inr not_made ↦ rw not_made (ne_of_eqb n not_made)
]

add_variant-IsPlain :
    {C : Type 0} (http : Transport C) (n : ℤ) (body : String) (c : C)
    → IsPlain (CatalogClient.add_variant http n body c).0
unfolding CatalogClient.add_variant
add_variant-IsPlain http n body c =
    created-IsPlain http
      (proxy_request http post (String.◌++◌ "/products/" (String.◌++◌ (format_int n) "/variants"))
        (some body) c).0

module _ {S C : Type 0} (http : Transport C) (stub : Stub S) where
  -- How the inventory's answer ends the saga once the variant was created with the catalog left at `c1`.
  abbrev pub IsSeeded :
      ℤ
      → CatalogVariant
      → Result GrpcCode (Unit {0}) × S
      → C
      → Response CatalogVariant × S × C
      → Type 0
  IsSeeded n v (seed, s1) c1 r =
      ((seed ≡ ok tt) × (r ≡ (write_json 201 v, s1, c1)))
      ⊎ ((code : GrpcCode) × (seed ≡ err code)
          × (r.0.status ≡ 503)
          × (r.1 ≡ s1)
          × (r.2 ≡ (http.fetch del (variant_path http n v.sku) none c1).1))

  -- The id is no number and the catalog is not asked, or the catalog's client reports an error and
  -- the request to create is the only one: nothing is sent to undo it.
  abbrev pub IsGivenUp : String → String → C → C → Type 0
  IsGivenUp id body c c1 =
      ((parse_int64 id ≡ none) × (c1 ≡ c))
      ⊎ ((n : ℤ) × (e : CatalogErr) × (parse_int64 id ≡ some n)
          × (CatalogClient.add_variant http n body c ≡ (err e, c1)))

  -- The two ways the saga can end.
  abbrev pub IsSaga : String → String → S → C → Response CatalogVariant × S × C → Type 0
  IsSaga id body s c r =
      ((r.0.status ≢ 201) × (r.1 ≡ s) × IsGivenUp id body c r.2)
      ⊎ ((n : ℤ) × (v : CatalogVariant) × (parse_int64 id ≡ some n)
          × ((CatalogClient.add_variant http n body c).0 ≡ ok v)
          × IsSeeded n v (seed_sku stub v.sku s) (CatalogClient.add_variant http n body c).1 r)

  seeded-IsSeeded :
      (n : ℤ) (v : CatalogVariant) (x : Result GrpcCode (Unit {0}) × S) (c1 : C)
      → IsSeeded n v x c1 (seeded http n v x c1)
  unfolding seeded delete_variant proxy_request
  seeded-IsSeeded n v (ok u, s1) c1 = inl (refl, refl)
  seeded-IsSeeded n v (err code, s1) c1 = inr (code, refl, refl, refl, refl)

  after_create-IsSaga :
      (id body : String) (n : ℤ) (s : S) (c c1 : C) (r : Result CatalogErr CatalogVariant)
      → parse_int64 id ≡ some n
      → CatalogClient.add_variant http n body c ≡ (r, c1)
      → IsPlain r
      → IsSaga id body s c (after_create http stub n (r, c1) s)
  unfolding after_create not_created
  after_create-IsSaga id body n s c c1 (err (http_error status text)) parsed added plain =
      inl (plain, refl, inr (n, http_error status text, parsed, added))
  after_create-IsSaga id body n s c c1 (err CatalogClient.not_found) parsed added plain =
      inl (ground arith, refl, inr (n, CatalogClient.not_found, parsed, added))
  after_create-IsSaga id body n s c c1 (err (failed op)) parsed added plain =
      inl (ground arith, refl, inr (n, failed op, parsed, added))
  after_create-IsSaga id body n s c c1 (ok v) parsed added plain = inr (
    n,
    v,
    parsed,
    ap (λ x. x.0) added,
    subst (λ k. IsSeeded n v (seed_sku stub v.sku s) k (seeded http n v (seed_sku stub v.sku s) c1))
        (sym (ap (λ x. x.1) added)) (seeded-IsSeeded n v (seed_sku stub v.sku s) c1),
  )

  saga-IsSaga :
      (id body : String) (s : S) (c : C) (o : Option ℤ)
      → parse_int64 id ≡ o
      → IsSaga id body s c (saga http stub o body s c)
  unfolding saga
  saga-IsSaga id body s c none parsed = inl (ground arith, refl, inl (parsed, refl))
  saga-IsSaga id body s c (some n) parsed =
      after_create-IsSaga id body n s c (CatalogClient.add_variant http n body c).1
        (CatalogClient.add_variant http n body c).0 parsed refl (add_variant-IsPlain http n body c)

  -- Every request for a new variant, whatever the two services answer, ends in one of two ways. Either
  -- the path's id is no number and the catalog is not asked, or the catalog's client reports an error,
  -- which it does for no answer, for a status other than 201, and for a 201 whose body does not
  -- decode, though then the variant may be there; the answer is not 201, the inventory is as it was,
  -- and the catalog is sent no deletion. Or the client got the variant of a 201, and then the
  -- inventory registered its SKU and the answer is 201 with the variant, or the inventory failed, the
  -- answer is 503, and the catalog was sent the deletion of that SKU under that product.
  pub add_variant-IsSaga :
      (id body : String) (s : S) (c : C)
      → IsSaga id body s c (go_folio.Gateway.AdminProducts.add_variant http stub id body s c)
  unfolding go_folio.Gateway.AdminProducts.add_variant
  add_variant-IsSaga id body s c = saga-IsSaga id body s c (parse_int64 id) refl

seed_unknown :
    (by_sku : List Stock → List Stock) (sku : String) (s : Session)
    → s.faults ≡ []
    → find_stock sku s.db.stock ≡ none
    → seed_sku (service_stub by_sku) sku s ≡ (err GrpcCode.not_found, s)
unfolding seed_sku
seed_unknown by_sku sku s calm missing = rw (adjust_unknown sku (pos 0) s calm missing) refl

-- The saga over the inventory service: when the catalog creates the variant, no statement of the
-- inventory fails and the inventory has no row for the variant's SKU, the answer is 503, the
-- inventory is as it was, and the catalog was sent the deletion of the variant.
pub add_variant-new_sku :
    {C : Type 0} (http : Transport C) (by_sku : List Stock → List Stock) (id body : String) (n : ℤ)
    (v : CatalogVariant) (s : Session) (c c1 : C)
    → parse_int64 id ≡ some n
    → CatalogClient.add_variant http n body c ≡ (ok v, c1)
    → s.faults ≡ []
    → find_stock v.sku s.db.stock ≡ none
    → go_folio.Gateway.AdminProducts.add_variant http (service_stub by_sku) id body s c ≡ (
      write_error 503 "UPSTREAM_ERROR" "failed to register variant in inventory",
      s,
      (delete_variant http n v.sku c1).1,
    )
unfolding go_folio.Gateway.AdminProducts.add_variant saga after_create seeded
add_variant-new_sku http by_sku id body n v s c c1 parsed added calm missing =
    rw (parsed, added, seed_unknown by_sku v.sku s calm missing) refl
