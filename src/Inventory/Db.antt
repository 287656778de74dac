-- ===== src/Inventory/Db.antt =====
-- The tables of migrations/0001 and the SQL statements of internal/repository/repository.go, each
-- as a function on the tables. `sku` and `id` are primary keys, so at most one row matches; a
-- statement that PostgreSQL refuses (integer out of range, a key that is taken, a reference that is
-- missing) is `none`.
pub mod Laws
use go_folio.Prelude.{
  ℕ, ◌≡◌, ℤ, pos, ◌+ℤ◌, ◌-ℤ◌, leb_ℤ, fits_int32, Bool, true, false, ◌&&◌, Option, none, some, List,
  [], ◌∷◌, String, ◌==◌, if◌then◌else◌,
}
use go_folio.Inventory.Domain.{Stock, Reservation}

pub record Db : Type 0 where
  pub stock : List Stock
  pub reservations : List Reservation

unfoldable pub find_stock : String → List Stock → Option Stock
find_stock k [] = none
find_stock k (r ∷ rs) = if r.sku == k then some r else find_stock k rs

-- The row with the new row's key is replaced.
unfoldable pub put_stock : Stock → List Stock → List Stock
put_stock n [] = []
put_stock n (r ∷ rs) = if r.sku == n.sku then n ∷ rs else r ∷ put_stock n rs

unfoldable pub find_reservation : String → List Reservation → Option Reservation
find_reservation k [] = none
find_reservation k (r ∷ rs) = if r.id == k then some r else find_reservation k rs

unfoldable pub erase_reservation : String → List Reservation → List Reservation
erase_reservation k [] = []
erase_reservation k (r ∷ rs) = if r.id == k then rs else r ∷ erase_reservation k rs

-- SELECT sku, available, reserved FROM stock WHERE sku = $1
unfoldable pub select_stock : String → Db → Option (Option Stock × Db)
select_stock sku db = some (find_stock sku db.stock, db)

-- The row as the UPDATE leaves it, if its integers still fit their columns.
unfoldable pub shift : ℤ → ℤ → Stock → Option Stock
shift a r row =
    let n = record row { available = row.available +ℤ a; reserved = row.reserved +ℤ r } in
    if fits_int32 n.available && fits_int32 n.reserved then some n else none

-- UPDATE stock SET available = available + $1 WHERE sku = $2 AND available + $1 >= 0 RETURNING …
unfoldable pub update_available : String → ℤ → Db → Option (Option Stock × Db)
unfolding shift
update_available sku delta db = elim (find_stock sku db.stock) [
  | none ↦ some (none, db)
  | some row ↦ elim (shift delta (pos 0) row) [
    | none ↦ none
    | some n ↦
        if leb_ℤ (pos 0) n.available
        then some (some n, record db { stock = put_stock n db.stock })
        else some (none, db)
  ]
]

-- UPDATE stock SET available = available - $1, reserved = reserved + $1
-- WHERE sku = $2 AND available >= $1, with the number of rows affected
unfoldable pub hold_stock : String → ℤ → Db → Option (ℕ × Db)
unfolding shift
hold_stock sku quantity db = elim (find_stock sku db.stock) [
  | none ↦ some (0, db)
  | some row ↦
      if leb_ℤ quantity row.available
      then elim (shift (pos 0 -ℤ quantity) quantity row) [
        | none ↦ none
        | some n ↦ some (1, record db { stock = put_stock n db.stock })
      ]
      else some (0, db)
]

-- UPDATE stock SET available = available + $1, reserved = reserved - $1 WHERE sku = $2
unfoldable pub credit_stock : String → ℤ → Db → Option (Unit {0} × Db)
unfolding shift
credit_stock sku quantity db = elim (find_stock sku db.stock) [
  | none ↦ some (tt, db)
  | some row ↦ elim (shift quantity (pos 0 -ℤ quantity) row) [
    | none ↦ none
    | some n ↦ some (tt, record db { stock = put_stock n db.stock })
  ]
]

-- SELECT COUNT(*) FROM stock WHERE sku = $1
unfoldable pub count_stock : String → Db → Option (ℕ × Db)
count_stock sku db = elim (find_stock sku db.stock) [ none ↦ some (0, db) | some _ ↦ some (1, db) ]

-- INSERT INTO reservations …; the id must be new and the SKU known
unfoldable pub insert_reservation : Reservation → Db → Option (Unit {0} × Db)
insert_reservation r db = elim (find_reservation r.id db.reservations) [
  | some _ ↦ none
  | none ↦ elim (find_stock r.sku db.stock) [
    | none ↦ none
    | some _ ↦ some (tt, record db { reservations = r ∷ db.reservations })
  ]
]

-- DELETE FROM reservations WHERE id = $1 RETURNING sku, quantity
unfoldable pub delete_reservation : String → Db → Option (Option Reservation × Db)
delete_reservation id db = elim (find_reservation id db.reservations) [
  | none ↦ some (none, db)
  | some r ↦ some (some r, record db { reservations = erase_reservation id db.reservations })
]

-- INSERT INTO stock (sku, available, reserved) VALUES ($1, $2, 0) ON CONFLICT DO NOTHING
unfoldable pub insert_stock : String → ℤ → Db → Option (Unit {0} × Db)
insert_stock sku available db = elim (find_stock sku db.stock) [
  | some _ ↦ some (tt, db)
  | none ↦
      let row : Stock = record { sku = sku; available = available; reserved = pos 0 } in
      some (tt, record db { stock = row ∷ db.stock })
]

-- SELECT COUNT(*) FROM stock
unfoldable pub has_rows : Db → Option (Bool × Db)
has_rows db = some (elim db.stock [ [] ↦ false | _ ∷ _ ↦ true ], db)
