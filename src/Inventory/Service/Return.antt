-- ===== src/Inventory/Service/Return.antt =====
-- Reserving and releasing: the one undoes the other, and nothing is released twice.
use Prim.Native.String
use go_folio.Prelude.{
  ◌≡◌, ◌∷◌, [], ok, err, some, none, pos, String, ℤ, ◌-ℤ◌, ◌≤ℤ◌, IsInt32, ◌+ℤ◌, ap, arith, ◌∙◌,
  int_laws, subst, sym, eq_refl, List, refl, subst₂,
}
use go_folio.Inventory.Db.{
  credit_stock, hold_stock, Db, find_reservation, find_stock, put_stock, delete_reservation,
  select_stock, erase_reservation,
}
use go_folio.Inventory.Service.{
  release, release_status, Response, respond, status, not_found, released, finish, reserve,
  reserved_as, mutation_status, in_tx,
}
use go_folio.Inventory.Repository.{
  release_stock, Session, or_not_found, statement, ◌>>◌, query_stock, proceed, ◌>>=◌, reserve_stock,
}
use go_folio.Inventory.Domain.{Stock, Error, Reservation}
use go_folio.Inventory.Repository.Exact.{moved, Held, reserve_stock-Held}
use go_folio.Inventory.Accounts.{HasUniqueIds, find_reservation-erase_self, AllRows}
use go_folio.Inventory.Service.Totals.{free-Released, accepted}
use go_folio.Inventory.Service.Outcomes.{
  in_tx-calm, finish-err_self, statement-calm, with_db, finish-calm,
}
use go_folio.Inventory.Db.Laws.{
  find_stock-put_self, put_stock-put_stock, find_stock-own, find_stock-sku,
}

-- What a reservation of a known SKU, and the release of it, make of the row.
abbrev pub taken : ℤ → Stock → Stock
taken quantity row = moved (pos 0 -ℤ quantity) quantity row

pub hold_stock-known :
    (sku : String) (quantity : ℤ) (db : Db) (row : Stock)
    → find_stock sku db.stock ≡ some row
    → quantity ≤ℤ row.available
    → IsInt32 (row.available +ℤ (pos 0 -ℤ quantity))
    → IsInt32 (row.reserved +ℤ quantity)
    → hold_stock sku quantity db
      ≡ some (1, record db { stock = put_stock (taken quantity row) db.stock })
unfolding hold_stock
hold_stock-known sku quantity db row found covered a r = ground arith

credit_stock-known :
    (sku : String) (quantity : ℤ) (db : Db) (row : Stock)
    → find_stock sku db.stock ≡ some row
    → IsInt32 (row.available +ℤ quantity)
    → IsInt32 (row.reserved +ℤ (pos 0 -ℤ quantity))
    → credit_stock sku quantity db
      ≡ some (tt, record db { stock = put_stock (moved quantity (pos 0 -ℤ quantity) row) db.stock })
unfolding credit_stock
credit_stock-known sku quantity db row found a r = ground arith

-- A claim of a reservation that is not there.
release_stock-missing :
    (id : String) (s : Session)
    → s.faults ≡ []
    → find_reservation id s.db.reservations ≡ none
    → release_stock id s ≡ (err (Error.not_found (String.◌++◌ "reservation_id=" id)), s)
unfolding release_stock or_not_found delete_reservation
release_stock-missing id s calm missing =
    let detail = String.◌++◌ "reservation_id=" id in
    let credit =
      λ (r : Reservation). statement "update stock for release" (credit_stock r.sku r.quantity) in
    let last = λ (r : Reservation). credit r >> query_stock r.sku in
    ap (λ x. proceed (λ c. or_not_found detail c >>= last) x.0 x.1)
      (statement-calm "delete reservation" (delete_reservation id) s none s.db calm
        (rw (missing, delete_reservation)))

-- The release of a reservation that is not there, when no statement fails, is answered NotFound and
-- changes nothing.
pub release_unknown :
    (id : String) (s : Session)
    → s.faults ≡ []
    → find_reservation id s.db.reservations ≡ none
    → release id s ≡ (err (status not_found (String.◌++◌ "reservation not found: " id)), s)
unfolding release release_status respond
release_unknown id s calm missing = ap (respond (release_status id) (λ _. released)) (
    in_tx-calm (release_stock id) s calm
    ∙ ap (finish s.db) (release_stock-missing id s calm missing)
    ∙ finish-err_self s.db (Error.not_found (String.◌++◌ "reservation_id=" id)) s)

-- A reservation is released at most once: after a release that was accepted from tables in which no two
-- reservations have one id, the same release is answered NotFound and changes nothing, when no
-- statement fails any more.
pub release_twice :
    (id : String) (s : Session) (out : Response)
    → HasUniqueIds s.db.reservations
    → (release id s).0 ≡ ok out
    → (release id s).1.faults ≡ []
    → let after = (release id s).1 in
      release id after ≡ (err (status not_found (String.◌++◌ "reservation not found: " id)), after)
release_twice id s out unique accepted calm =
    let x = free-Released id s out accepted in
    release_unknown id (release id s).1 calm (
      ap (λ (db : Db). find_reservation id db.reservations) x.left
      ∙ find_reservation-erase_self id s.db.reservations unique)

abbrev pub InRange : Stock → Type 0
InRange r = IsInt32 r.available × IsInt32 r.reserved

moved_back :
    (quantity : ℤ) (row : Stock) → moved quantity (pos 0 -ℤ quantity) (taken quantity row) ≡ row
moved_back quantity row =
    let a : row.available +ℤ (pos 0 -ℤ quantity) +ℤ quantity ≡ row.available = omega int_laws in
    let r : row.reserved +ℤ quantity +ℤ (pos 0 -ℤ quantity) ≡ row.reserved = omega int_laws in
    λ i. record { sku = row.sku; available = a i; reserved = r i }

-- The tables with the reservation in them.
module _ (quantity : ℤ) (db : Db) (row : Stock) (r : Reservation)
    (found : find_stock row.sku db.stock ≡ some row) (r_sku : r.sku ≡ row.sku)
    (r_quantity : r.quantity ≡ quantity) (range : InRange row) where
  abbrev holding : Db
  holding = record {
    stock = put_stock (taken quantity row) db.stock;
    reservations = r ∷ db.reservations;
  }

  abbrev claimed : Db
  claimed = record {
    stock = put_stock (taken quantity row) db.stock;
    reservations = db.reservations;
  }

  delete-holding : delete_reservation r.id holding ≡ some (some r, claimed)
  unfolding delete_reservation find_reservation erase_reservation
  delete-holding = ground (arith, eq_refl r.id)

  found_taken : find_stock row.sku claimed.stock ≡ some (taken quantity row)
  found_taken = find_stock-put_self (taken quantity row) db.stock row found

  credit-claimed : credit_stock r.sku r.quantity claimed ≡ some (tt, db)
  credit-claimed =
      let back = moved_back quantity row in
      ap (λ (k : String). credit_stock k r.quantity claimed) r_sku
      ∙ ap (λ (q : ℤ). credit_stock row.sku q claimed) r_quantity
      ∙ credit_stock-known row.sku quantity claimed (taken quantity row) found_taken
          (subst (λ (x : Stock). IsInt32 x.available) (sym back) range.0)
          (subst (λ (x : Stock). IsInt32 x.reserved) (sym back) range.1)
      ∙ ap (λ (x : Stock). some (tt, record claimed { stock = put_stock x claimed.stock })) back
      ∙ ap (λ (rows : List Stock). some (tt, record db { stock = rows }))
          (put_stock-put_stock (taken quantity row) row db.stock refl found)

  release_stock-holding :
      (s : Session) → s.db ≡ holding → s.faults ≡ [] → release_stock r.id s ≡ (ok row, with_db s db)
  unfolding release_stock or_not_found query_stock select_stock
  release_stock-holding s same calm =
      let detail = String.◌++◌ "reservation_id=" r.id in
      let credit =
        λ (x : Reservation). statement "update stock for release" (credit_stock x.sku x.quantity) in
      let last = λ (x : Reservation). credit x >> query_stock x.sku in
      let s1 = with_db s claimed in
      let s2 = with_db s db in
      ap (λ x. proceed (λ c. or_not_found detail c >>= last) x.0 x.1)
        (statement-calm "delete reservation" (delete_reservation r.id) s (some r) claimed calm
          (ap (delete_reservation r.id) same ∙ delete-holding))
      ∙ ap (λ x. proceed (λ _. query_stock r.sku) x.0 x.1)
          (statement-calm "update stock for release" (credit_stock r.sku r.quantity) s1 tt db calm
            credit-claimed)
      ∙ ap (λ x. proceed (or_not_found (String.◌++◌ "sku=" r.sku)) x.0 x.1)
          (statement-calm "get stock" (select_stock r.sku) s2 (some row) db calm
            (ap (λ o. some (o, db)) (ap (λ (k : String). find_stock k db.stock) r_sku ∙ found)))

-- Releasing a reservation right after it was made, when the release meets no fault and the rows were
-- in range, is accepted and restores both tables exactly.
pub release-reserve :
    (sku : String) (quantity : ℤ) (order_id id : String) (s : Session)
    → AllRows (λ k r. InRange r) s.db.stock
    → (reserve sku quantity order_id s).0 ≡ ok (reserved_as id)
    → (reserve sku quantity order_id s).1.faults ≡ []
    → let after = (reserve sku quantity order_id s).1 in
      release id after ≡ (ok released, with_db after s.db)
unfolding release respond reserve
release-reserve sku quantity order_id id s range accepted_id calm =
    let (r, t, same, did, shown, left) =
      accepted (mutation_status sku) (λ r. reserved_as r.id) (reserve_stock sku quantity order_id) s
        (reserved_as id) accepted_id in
    let after = (reserve sku quantity order_id s).1 in
    let h =
      subst₂ (λ x y. Held sku quantity order_id x y r) same (sym left)
        (reserve_stock-Held sku quantity order_id t r did) in
    let own = find_stock-own sku s.db.stock h.row h.found in
    let r_sku : r.sku ≡ h.row.sku = cc (h.shape, find_stock-sku sku s.db.stock h.row h.found) in
    let key : r.id ≡ id = cc in
    let run =
      release_stock-holding quantity s.db h.row r own r_sku (cc (h.shape)) (range sku h.row h.found)
        after h.left calm in
    subst
      (λ k.
        respond (release_status k) (λ _. released) (in_tx (release_stock k) after)
        ≡ (ok released, with_db after s.db))
      key
      (ap (respond (release_status r.id) (λ _. released)) (
        in_tx-calm (release_stock r.id) after calm
        ∙ ap (finish after.db) run
        ∙ finish-calm after.db h.row (with_db after s.db) calm))
