-- ===== src/Inventory/Repository.antt =====
-- internal/repository/repository.go: the functions on a `querier`, which the methods of
-- PostgresRepository and pgTxRepository share. A session holds the tables, and what the environment
-- decides: whether each statement fails, and what each `rand.Read` returns.
use Prim.Native.String
pub mod Steps
pub mod Exact
pub mod Release
use go_folio.Prelude.{
  ℕ, Bool, false, ℤ, Option, none, some, List, [], ◌∷◌, String, Result, ok, err, eqb, if◌then◌else◌,
}
use go_folio.Inventory.Domain.{Stock, Reservation, Error, not_found, insufficient_stock, failure}
use go_folio.Inventory.Db.{
  Db, select_stock, update_available, hold_stock, credit_stock, count_stock, insert_reservation,
  delete_reservation, insert_stock, has_rows,
}
use go_folio.Inventory.Uuid.{stamp, format_id}

pub record Session : Type 0 where
  pub db : Db
  -- `true` where the next statement fails; none is left to fail at the end of the list
  pub faults : List Bool
  -- the bytes of each `rand.Read`, or its failure
  pub entropy : List (Option (List ℕ))

abbrev pub Tx : Type 0 → Type 0
Tx A = Session → Result Error A × Session

abbrev pub pure : {A : Type 0} → A → Tx A
pure a s = (ok a, s)

abbrev pub raise : {A : Type 0} → Error → Tx A
raise e s = (err e, s)

-- The code behind `if err != nil { return nil, err }`.
abbrev pub proceed : {A B : Type 0} → (A → Tx B) → Result Error A → Tx B
proceed f (ok a) s = f a s
proceed f (err e) s = (err e, s)

infixl 5 ◌>>=◌ ◌>>◌
abbrev pub ◌>>=◌ : {A B : Type 0} → Tx A → (A → Tx B) → Tx B
◌>>=◌ m f s = proceed f (m s).0 (m s).1

abbrev pub ◌>>◌ : {A B : Type 0} → Tx A → Tx B → Tx B
m >> k = m >>= λ _. k

abbrev pub fault_now : List Bool → Bool
fault_now [] = false
fault_now (b ∷ bs) = b

abbrev pub later : {A : Type 0} → List A → List A
later [] = []
later (x ∷ xs) = xs

-- One statement: it fails on a fault or where the database refuses it; then the tables stay.
unfoldable pub statement :
    {A : Type 0} → String → (Db → Option (A × Db)) → Session → Result Error A × Session
statement op run s =
    let s' = record s { faults = later s.faults } in
    if fault_now s.faults then (err (failure op), s') else elim (run s.db) [
      | none ↦ (err (failure op), s')
      | some (a, db') ↦ (ok a, record s' { db = db' })
    ]

unfoldable pub or_not_found : {A : Type 0} → String → Option A → Tx A
or_not_found detail none = raise (not_found detail)
or_not_found detail (some a) = pure a

abbrev sku_detail : String → String
sku_detail sku = String.◌++◌ "sku=" sku

unfoldable pub query_stock : String → Tx Stock
query_stock sku = do
  row ← statement "get stock" (select_stock sku)
  or_not_found (sku_detail sku) row

-- After an UPDATE that touched no row: is the SKU unknown, or did the guard refuse?
unfoldable pub classify_zero_rows : {A : Type 0} → String → Tx A
classify_zero_rows sku = do
  count ← statement "classify zero rows" (count_stock sku)
  raise (if eqb count 0 then not_found (sku_detail sku) else insufficient_stock (sku_detail sku))

unfoldable pub or_classify : String → Option Stock → Tx Stock
or_classify sku none = classify_zero_rows sku
or_classify sku (some row) = pure row

unfoldable pub adjust_stock : String → ℤ → Tx Stock
adjust_stock sku delta = do
  row ← statement "adjust stock" (update_available sku delta)
  or_classify sku row

unfoldable pub take_bytes : List (Option (List ℕ)) → Option (List ℕ)
take_bytes [] = none
take_bytes (b ∷ bs) = b

unfoldable pub new_id : Tx String
new_id s =
    let s' = record s { entropy = later s.entropy } in
    elim (take_bytes s.entropy) [
      | none ↦ (err (failure "generate id"), s')
      | some b ↦ (ok (format_id (stamp b)), s')
    ]

abbrev pub reservation : String → ℤ → String → String → Reservation
reservation sku quantity order_id id = record {
  id = id;
  sku = sku;
  quantity = quantity;
  order_id = order_id;
}

-- The part of `reserveStock` behind the guarded UPDATE.
unfoldable pub record_reservation : String → ℤ → String → Tx Reservation
record_reservation sku quantity order_id = do
  id ← new_id
  statement "insert reservation" (insert_reservation (reservation sku quantity order_id id))
  pure (reservation sku quantity order_id id)

unfoldable pub reserve_stock : String → ℤ → String → Tx Reservation
reserve_stock sku quantity order_id = do
  affected ← statement "reserve stock update" (hold_stock sku quantity)
  n ← statement "reserve stock rows affected" (λ db. some (affected, db))
  if eqb n 0 then classify_zero_rows sku else record_reservation sku quantity order_id

unfoldable pub release_stock : String → Tx Stock
release_stock id = do
  claimed ← statement "delete reservation" (delete_reservation id)
  r ← or_not_found (String.◌++◌ "reservation_id=" id) claimed
  statement "update stock for release" (credit_stock r.sku r.quantity)
  query_stock r.sku

unfoldable pub seed_sku : String → ℤ → Tx (Unit {0})
seed_sku sku available = statement "seed sku" (insert_stock sku available)

unfoldable pub has_any_stock : Tx Bool
has_any_stock = statement "has any stock" has_rows

-- The rows come in the order of the database's collation, `ORDER BY sku`, which is given. A failed
-- scan or `rows.Err()` shows as a failed statement.
unfoldable pub list_stock : (List Stock → List Stock) → Tx (List Stock)
list_stock by_sku = statement "list stock" (λ db. some (by_sku db.stock, db))
