-- ===== src/Inventory/Repository/Exact.antt =====
-- What an operation that succeeds has found and done, whatever the faults.
use go_folio.Inventory.Db.{
  Db, find_stock, put_stock, find_reservation, update_available, hold_stock, insert_reservation,
}
use Prim.Native.String.{String}
use go_folio.Prelude.{
  ℤ, ◌+ℤ◌, ◌≡◌, pos, Option-cases, ◌≤ℤ◌, inl, arith, IsInt32, inr, ◌-ℤ◌, ◌∷◌, if◌then◌else◌, refl,
  true,
}
use go_folio.Inventory.Repository.{
  adjust_stock, Session, Stock, some, ok, statement, or_classify, ℕ, Reservation,
  record_reservation, new_id, reservation, none, eqb, false, ◌>>◌, pure, reserve_stock,
  classify_zero_rows, ◌>>=◌, Bool,
}
use go_folio.Inventory.Repository.Steps.{
  >>=-ok, or_classify-ok, statement-ok, classify_zero_rows-ne-ok,
}

-- The row of an UPDATE with no bounds.
abbrev pub moved : ℤ → ℤ → Stock → Stock
moved a r row = record row { available = row.available +ℤ a; reserved = row.reserved +ℤ r }

pub record Adjusted (sku : String) (delta : ℤ) (db db' : Db) (out : Stock) : Type 0 where
  pub row : Stock
  pub found : find_stock sku db.stock ≡ some row
  pub out_eq : out ≡ moved delta (pos 0) row
  pub enough : pos 0 ≤ℤ out.available
  pub range : IsInt32 out.available
  pub left : db' ≡ record db { stock = put_stock out db.stock }

update_available-Adjusted :
    (sku : String) (delta : ℤ) (db db' : Db) (out : Stock)
    → update_available sku delta db ≡ some (some out, db')
    → Adjusted sku delta db db' out
unfolding update_available
update_available-Adjusted sku delta db db' out e = elim (Option-cases (find_stock sku db.stock)) [
  | inl missing ↦ absurd (ground arith)
  | inr (row, found) ↦ record {
    row = row;
    found = found;
    out_eq = ground arith;
    enough = ground arith;
    range = ground arith;
    left = ground arith;
  }
]

pub adjust_stock-Adjusted :
    (sku : String) (delta : ℤ) (s : Session) (out : Stock)
    → (adjust_stock sku delta s).0 ≡ ok out
    → Adjusted sku delta s.db (adjust_stock sku delta s).1.db out
unfolding adjust_stock
adjust_stock-Adjusted sku delta s out e =
    let st = statement "adjust stock" (update_available sku delta) in
    let (row, ran, e', same) = >>=-ok st (or_classify sku) s out e in
    let (shown, kept) = or_classify-ok sku row (st s).1 out e' in
    update_available-Adjusted sku delta s.db (adjust_stock sku delta s).1.db out
      (cc (statement-ok "adjust stock" (update_available sku delta) s row ran))

-- A statement that reads a value and leaves the tables.
statement_read-ok :
    {A : Type 0} (op : String) (a : A) (s : Session) (b : A)
    → (statement op (λ db. some (a, db)) s).0 ≡ ok b
    → (a ≡ b) × ((statement op (λ db. some (a, db)) s).1.db ≡ s.db)
statement_read-ok op a s b e = let ran = statement-ok op (λ db. some (a, db)) s b e in (cc, cc)

pub record Held (sku : String) (quantity : ℤ) (order_id : String) (db db' : Db) (r : Reservation)
    : Type 0 where
  pub row : Stock
  pub found : find_stock sku db.stock ≡ some row
  pub covered : quantity ≤ℤ row.available
  pub fresh : find_reservation r.id db.reservations ≡ none
  pub shape : r ≡ reservation sku quantity order_id r.id
  pub left : db' ≡ record {
    stock = put_stock (moved (pos 0 -ℤ quantity) quantity row) db.stock;
    reservations = r ∷ db.reservations;
  }

hold_stock-some :
    (sku : String) (quantity : ℤ) (db db' : Db) (n : ℕ)
    → hold_stock sku quantity db ≡ some (n, db')
    → eqb n 0 ≡ false
    → (row : Stock) × (find_stock sku db.stock ≡ some row)
      × (quantity ≤ℤ row.available)
      × (db' ≡ record db { stock = put_stock (moved (pos 0 -ℤ quantity) quantity row) db.stock })
unfolding hold_stock
hold_stock-some sku quantity db db' n e some_row = elim (Option-cases (find_stock sku db.stock)) [
  | inl missing ↦ absurd (ground arith)
  | inr (row, found) ↦ (row, found, ground arith, ground arith)
]

insert_reservation-some :
    (r : Reservation) (db db' : Db) (u : Unit {0})
    → insert_reservation r db ≡ some (u, db')
    → (find_reservation r.id db.reservations ≡ none)
      × (db' ≡ record db { reservations = r ∷ db.reservations })
unfolding insert_reservation
insert_reservation-some r db db' u e = ground arith

new_id-db : (s : Session) → (new_id s).1.db ≡ s.db
unfolding new_id
new_id-db s = ground arith

record_reservation-some :
    (sku : String) (quantity : ℤ) (order_id : String) (s : Session) (r : Reservation)
    → (record_reservation sku quantity order_id s).0 ≡ ok r
    → (r ≡ reservation sku quantity order_id r.id)
      × (find_reservation r.id s.db.reservations ≡ none)
      × ((record_reservation sku quantity order_id s).1.db
          ≡ record s.db { reservations = r ∷ s.db.reservations })
unfolding record_reservation
record_reservation-some sku quantity order_id s r e =
    let next = λ (id : String). λ (s' : Session).
      (statement "insert reservation" (insert_reservation (reservation sku quantity order_id id))
          >> pure (reservation sku quantity order_id id))
        s' in
    let (id, made, e', same) = >>=-ok new_id next s r e in
    let new = reservation sku quantity order_id id in
    let ins = statement "insert reservation" (insert_reservation new) in
    let (u, ran, done, kept) = >>=-ok ins (λ _. pure new) (new_id s).1 r e' in
    let (fresh, left) =
      insert_reservation-some new (new_id s).1.db (ins (new_id s).1).1.db u
        (statement-ok "insert reservation" (insert_reservation new) (new_id s).1 u ran) in
    let eq : new ≡ r = cc in
    (rw (← eq) refl, rw (← eq) (cc (new_id-db s)), rw (← eq) (cc (new_id-db s, left, kept, same)))

branch-ok :
    (none_hit : Bool) (sku : String) (quantity : ℤ) (order_id : String) (s : Session)
    (r : Reservation)
    → let branch =
        if none_hit then classify_zero_rows sku else record_reservation sku quantity order_id in
      let rest = record_reservation sku quantity order_id s in
      (branch s).0 ≡ ok r → (none_hit ≡ false) × (rest.0 ≡ ok r) × ((branch s).1 ≡ rest.1)
branch-ok true sku quantity order_id s r e = absurd (classify_zero_rows-ne-ok sku s r e)
branch-ok false sku quantity order_id s r e = (refl, e, refl)

pub reserve_stock-Held :
    (sku : String) (quantity : ℤ) (order_id : String) (s : Session) (r : Reservation)
    → (reserve_stock sku quantity order_id s).0 ≡ ok r
    → Held sku quantity order_id s.db (reserve_stock sku quantity order_id s).1.db r
unfolding reserve_stock
reserve_stock-Held sku quantity order_id s r e =
    let hold = statement "reserve stock update" (hold_stock sku quantity) in
    let count = λ (n : ℕ). statement "reserve stock rows affected" (λ db. some (n, db)) in
    let branch = λ (n : ℕ).
      if eqb n 0 then classify_zero_rows sku else record_reservation sku quantity order_id in
    let (n, ran, e', same) = >>=-ok hold (λ n. count n >>= branch) s r e in
    let (m, ran', e'', same') = >>=-ok (count n) branch (hold s).1 r e' in
    let (k, counted) = statement_read-ok "reserve stock rows affected" n (hold s).1 m ran' in
    let s2 = (count n (hold s).1).1 in
    let (hit, recorded, same'') = branch-ok (eqb m 0) sku quantity order_id s2 r e'' in
    let (shape, fresh, left) = record_reservation-some sku quantity order_id s2 r recorded in
    let (row, found, covered, put) =
      hold_stock-some sku quantity s.db (hold s).1.db n
        (statement-ok "reserve stock update" (hold_stock sku quantity) s n ran) (cc) in
    let db2 : s2.db
        ≡ record s.db { stock = put_stock (moved (pos 0 -ℤ quantity) quantity row) s.db.stock } =
      cc in
    record { row = row; found = found; covered = covered; fresh = cc; shape = shape; left = cc }
