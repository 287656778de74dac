-- ===== src/Inventory/Levels.antt =====
-- No level of the inventory falls below zero, as long as no quantity is negative.
use go_folio.Prelude.{
  ◌≡◌, ◌∷◌, [], ℤ, pos, All, String, some, List, ◌≤ℤ◌, arith, ◌-ℤ◌, subst, int_laws, sym,
}
use go_folio.Inventory.Domain.{Stock, Reservation}
use go_folio.Inventory.Db.{find_reservation, Db, erase_reservation, find_stock, put_stock}
use go_folio.Inventory.Repository.Release.{Released}
use go_folio.Inventory.Accounts.{AllRows, put_stock-AllRows}
use go_folio.Inventory.Repository.Exact.{Adjusted, Held, moved}
use go_folio.Inventory.Db.Laws.{held, find_stock-own}

pub record IsNonneg (db : Db) : Type 0 where
  pub levels : AllRows (λ k r. pos 0 ≤ℤ r.available) db.stock
  pub quantities : All (λ r. pos 0 ≤ℤ r.quantity) db.reservations

find_reservation-nonneg :
    (id : String) (rs : List Reservation) (r : Reservation)
    → find_reservation id rs ≡ some r
    → All (λ x. pos 0 ≤ℤ x.quantity) rs
    → pos 0 ≤ℤ r.quantity
unfolding find_reservation
find_reservation-nonneg id [] r e h = absurd (ground arith)
find_reservation-nonneg id (x ∷ rs) r e h = ground (arith, find_reservation-nonneg id rs r)

erase_reservation-nonneg :
    (id : String) (rs : List Reservation)
    → All (λ x. pos 0 ≤ℤ x.quantity) rs
    → All (λ x. pos 0 ≤ℤ x.quantity) (erase_reservation id rs)
unfolding erase_reservation
erase_reservation-nonneg id [] h = tt
erase_reservation-nonneg id (x ∷ rs) h = ground (arith, erase_reservation-nonneg id rs h.1)

pub held-nonneg :
    (k : String) (rs : List Reservation) → All (λ x. pos 0 ≤ℤ x.quantity) rs → pos 0 ≤ℤ held k rs
held-nonneg k [] h = omega arith
held-nonneg k (r ∷ rs) h = grind (int_laws, held-nonneg k rs h.1)

-- Writing one row whose level is not below zero.
put_stock-levels :
    (n row : Stock) (rows : List Stock)
    → find_stock n.sku rows ≡ some row
    → AllRows (λ k r. pos 0 ≤ℤ r.available) rows
    → pos 0 ≤ℤ n.available
    → AllRows (λ k r. pos 0 ≤ℤ r.available) (put_stock n rows)
put_stock-levels n row rows found old new =
    put_stock-AllRows (λ k r. pos 0 ≤ℤ r.available) (λ k r. pos 0 ≤ℤ r.available) n row rows found
      old new (λ k r _ h. h)

pub Adjusted-IsNonneg :
    (sku : String) (delta : ℤ) (db db' : Db) (out : Stock)
    → Adjusted sku delta db db' out
    → IsNonneg db
    → IsNonneg db'
Adjusted-IsNonneg sku delta db db' out a h =
    let n = moved delta (pos 0) a.row in
    let enough : pos 0 ≤ℤ n.available =
      subst (λ (r : Stock). pos 0 ≤ℤ r.available) a.out_eq a.enough in
    rw (a.left, a.out_eq)
      (record {
        levels =
            put_stock-levels n a.row db.stock (find_stock-own sku db.stock a.row a.found) h.levels
              enough;
        quantities = h.quantities;
      })

pub Held-IsNonneg :
    (sku : String) (quantity : ℤ) (order_id : String) (db db' : Db) (r : Reservation)
    → Held sku quantity order_id db db' r
    → pos 0 ≤ℤ quantity
    → IsNonneg db
    → IsNonneg db'
Held-IsNonneg sku quantity order_id db db' r x q h =
    let n = moved (pos 0 -ℤ quantity) quantity x.row in
    let covered = x.covered in
    let enough : pos 0 ≤ℤ n.available = omega int_laws in
    let held : r.quantity ≡ quantity = cc (x.shape) in
    rw (x.left) (record {
      levels =
          put_stock-levels n x.row db.stock (find_stock-own sku db.stock x.row x.found) h.levels
            enough;
      quantities = (subst (λ (z : ℤ). pos 0 ≤ℤ z) (sym held) q, h.quantities);
    })

pub Released-IsNonneg :
    (id : String) (db db' : Db) → Released id db db' → IsNonneg db → IsNonneg db'
Released-IsNonneg id db db' x h =
    let q = find_reservation-nonneg id db.reservations x.claimed x.found h.quantities in
    let level = h.levels x.claimed.sku x.row x.stocked in
    let n = moved x.claimed.quantity (pos 0 -ℤ x.claimed.quantity) x.row in
    let enough : pos 0 ≤ℤ n.available = omega int_laws in
    rw (x.left) (record {
      levels =
          put_stock-levels n x.row db.stock (find_stock-own x.claimed.sku db.stock x.row x.stocked)
            h.levels enough;
      quantities = erase_reservation-nonneg id db.reservations h.quantities;
    })
