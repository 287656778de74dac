-- ===== src/Inventory/Repository/Release.antt =====
-- What a release that succeeds has found and done, and seeding.
use Prim.Native.String
use Prim.Native.String.{String}
use go_folio.Inventory.Repository.{
  release_stock, query_stock, ℤ, Session, Stock, Reservation, ok, some, statement, none,
  or_not_found, ◌>>◌, ◌>>=◌,
}
use go_folio.Inventory.Db.{
  credit_stock, delete_reservation, select_stock, Db, find_reservation, erase_reservation,
  find_stock, put_stock,
}
use go_folio.Prelude.{String, ◌≡◌, arith, ◌⊎◌, pos, ◌-ℤ◌, Option-cases, inl, inr, ap, ◌∙◌, sym}
use go_folio.Inventory.Repository.Steps.{>>=-ok, or_not_found-ok, statement-ok}
use go_folio.Inventory.Repository.Exact.{moved}

pub record Released (id : String) (db db' : Db) : Type 0 where
  pub claimed : Reservation
  pub found : find_reservation id db.reservations ≡ some claimed
  pub row : Stock
  pub stocked : find_stock claimed.sku db.stock ≡ some row
  pub left : db' ≡ record {
    stock = put_stock (moved claimed.quantity (pos 0 -ℤ claimed.quantity) row) db.stock;
    reservations = erase_reservation id db.reservations;
  }

delete_reservation-some :
    (id : String) (db db' : Db) (r : Reservation)
    → delete_reservation id db ≡ some (some r, db')
    → (find_reservation id db.reservations ≡ some r)
      × (db' ≡ record db { reservations = erase_reservation id db.reservations })
unfolding delete_reservation
delete_reservation-some id db db' r e = ground arith

-- Crediting a SKU that is not there changes nothing.
pub credit_stock-some :
    (sku : String) (quantity : ℤ) (db db' : Db) (u : Unit {0})
    → credit_stock sku quantity db ≡ some (u, db')
    → ((find_stock sku db.stock ≡ none) × (db' ≡ db))
      ⊎ ((row : Stock) × (find_stock sku db.stock ≡ some row)
          × (db'
              ≡ record db { stock = put_stock (moved quantity (pos 0 -ℤ quantity) row) db.stock }))
unfolding credit_stock
credit_stock-some sku quantity db db' u e = elim (Option-cases (find_stock sku db.stock)) [
  | inl missing ↦ inl (missing, ground arith)
  | inr (row, found) ↦ inr (row, found, ground arith)
]

pub query_stock-some :
    (sku : String) (s : Session) (out : Stock)
    → (query_stock sku s).0 ≡ ok out
    → (find_stock sku s.db.stock ≡ some out) × ((query_stock sku s).1.db ≡ s.db)
unfolding query_stock select_stock
query_stock-some sku s out e =
    let get = statement "get stock" (select_stock sku) in
    let (row, ran, e', same) = >>=-ok get (or_not_found (String.◌++◌ "sku=" sku)) s out e in
    let (shown, kept) = or_not_found-ok (String.◌++◌ "sku=" sku) row (get s).1 out e' in
    let selected = statement-ok "get stock" (select_stock sku) s row ran in (cc, cc)

pub release_stock-Released :
    (id : String) (s : Session) (out : Stock)
    → (release_stock id s).0 ≡ ok out
    → Released id s.db (release_stock id s).1.db
unfolding release_stock
release_stock-Released id s out e =
    let detail = String.◌++◌ "reservation_id=" id in
    let delete = statement "delete reservation" (delete_reservation id) in
    let credit =
      λ (r : Reservation). statement "update stock for release" (credit_stock r.sku r.quantity) in
    let last = λ (r : Reservation). credit r >> query_stock r.sku in
    let (claimed?, ran, e1, same1) = >>=-ok delete (λ c. or_not_found detail c >>= last) s out e in
    let s1 = (delete s).1 in
    let (r, took, e2, same2) = >>=-ok (or_not_found detail claimed?) last s1 out e1 in
    let (shown, kept) = or_not_found-ok detail claimed? s1 r took in
    let s2 = (or_not_found detail claimed? s1).1 in
    let (u, credited, e3, same3) = >>=-ok (credit r) (λ _. query_stock r.sku) s2 out e2 in
    let s3 = (credit r s2).1 in
    let (present, same4) = query_stock-some r.sku s3 out e3 in
    let (found, erased) =
      delete_reservation-some id s.db s1.db r
        (cc (statement-ok "delete reservation" (delete_reservation id) s claimed? ran)) in
    let db2 = ap (λ (x : Session). x.db) kept ∙ erased in
    let outcome =
      credit_stock-some r.sku r.quantity s2.db s3.db u
        (statement-ok "update stock for release" (credit_stock r.sku r.quantity) s2 u credited) in
    elim outcome [
      | inl (missing, unchanged) ↦ absurd (ground arith)
      | inr (row, stocked, put) ↦ record {
        claimed = r;
        found = found;
        row = row;
        stocked = ap (λ (d : Db). find_stock r.sku d.stock) (sym db2) ∙ stocked;
        left =
            ap (λ (x : Session). x.db) (same1 ∙ same2 ∙ same3)
            ∙ same4
            ∙ put
            ∙ ap
                (λ (d : Db). record d {
                  stock = put_stock (moved r.quantity (pos 0 -ℤ r.quantity) row) d.stock;
                })
                db2;
      }
    ]
