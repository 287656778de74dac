-- ===== src/Inventory/Service/Outcomes.antt =====
-- The answer and the tables of a call when no statement fails.
use Prim.Native.String
use go_folio.Prelude.{
  ◌≡◌, [], ok, err, some, none, pos, String, Option, arith, ℤ, IsInt32, ◌+ℤ◌, if◌then◌else◌, leb_ℤ,
  Bool, +ℤ_zero, true, Bool-cases, ap, refl, false, inl, ◌∙◌, inr, eqb,
}
use go_folio.Inventory.Service.{
  adjust, in_tx, finish, mutation_status, respond, adjusted, status, failed_precondition, not_found,
}
use go_folio.Inventory.Repository.{
  Session, statement, Tx, adjust_stock, or_classify, classify_zero_rows, proceed, raise,
}
use go_folio.Inventory.Db.{Db, find_stock, put_stock, count_stock, update_available}
use go_folio.Inventory.Domain.{message, Stock, Error, insufficient_stock}

-- The session with other tables.
abbrev pub with_db : Session → Db → Session
with_db s db = record s { db = db }

-- One statement with no fault.
pub statement-calm :
    {A : Type 0} (op : String) (run : Db → Option (A × Db)) (s : Session) (a : A) (db' : Db)
    → s.faults ≡ []
    → run s.db ≡ some (a, db')
    → statement op run s ≡ (ok a, with_db s db')
unfolding statement
statement-calm op run s a db' calm ran = ground arith

pub in_tx-calm :
    {A : Type 0} (fn : Tx A) (s : Session) → s.faults ≡ [] → in_tx fn s ≡ finish s.db (fn s)
unfolding in_tx
in_tx-calm fn s calm = ground arith

pub finish-calm :
    {A : Type 0} (before : Db) (a : A) (s : Session)
    → s.faults ≡ []
    → finish before (ok a, s) ≡ (ok a, s)
unfolding finish
finish-calm before a s calm = ground arith

pub finish-err_self :
    {A : Type 0} (before : Db) (e : Error) (s : Session)
    → finish {A = A} before (err e, s) ≡ (err e, with_db s before)
unfolding finish
finish-err_self before e s = refl

classify-known :
    {A : Type 0} (sku : String) (row : Stock) (s : Session)
    → s.faults ≡ []
    → find_stock sku s.db.stock ≡ some row
    → classify_zero_rows {A = A} sku s ≡ (err (insufficient_stock (String.◌++◌ "sku=" sku)), s)
unfolding classify_zero_rows count_stock
classify-known sku row s calm found =
    ap
      (λ x.
        proceed
          (λ n. raise (
            if eqb n 0
            then Error.not_found (String.◌++◌ "sku=" sku)
            else insufficient_stock (String.◌++◌ "sku=" sku)))
          x.0 x.1)
      (statement-calm "classify zero rows" (count_stock sku) s 1 s.db calm
        (rw (found, count_stock)))

classify-unknown :
    {A : Type 0} (sku : String) (s : Session)
    → s.faults ≡ []
    → find_stock sku s.db.stock ≡ none
    → classify_zero_rows {A = A} sku s ≡ (err (Error.not_found (String.◌++◌ "sku=" sku)), s)
unfolding classify_zero_rows count_stock
classify-unknown sku s calm missing =
    ap
      (λ x.
        proceed
          (λ n. raise (
            if eqb n 0
            then Error.not_found (String.◌++◌ "sku=" sku)
            else insufficient_stock (String.◌++◌ "sku=" sku)))
          x.0 x.1)
      (statement-calm "classify zero rows" (count_stock sku) s 0 s.db calm
        (rw (missing, count_stock)))

-- What the guarded UPDATE returns and leaves, by its guard.
abbrev updated : Bool → Stock → Db → Option (Option Stock × Db)
updated true new db = some (some new, record db { stock = put_stock new db.stock })
updated false new db = some (none, db)

update_available-known :
    (sku : String) (delta : ℤ) (db : Db) (row : Stock)
    → find_stock sku db.stock ≡ some row
    → IsInt32 row.reserved
    → IsInt32 (row.available +ℤ delta)
    → let level = row.available +ℤ delta in
      update_available sku delta db
      ≡ updated (leb_ℤ (pos 0) level) (record row { available = level }) db
unfolding update_available
update_available-known sku delta db row found small fits = ground (arith, +ℤ_zero row.reserved)

-- An adjustment of a known SKU, when no statement fails and the new level fits 32 bits: if the level
-- would be negative, it is refused as insufficient stock and the tables stay; otherwise the new
-- level is answered and stored in the SKU's row, and nothing else changes.
pub adjust_known :
    (sku : String) (delta : ℤ) (s : Session) (row : Stock)
    → s.faults ≡ []
    → find_stock sku s.db.stock ≡ some row
    → IsInt32 row.reserved
    → IsInt32 (row.available +ℤ delta)
    → let level = row.available +ℤ delta in
      adjust sku delta s ≡ (
        if leb_ℤ (pos 0) level
        then (
          ok (adjusted row.sku level),
          with_db s
              (record s.db { stock = put_stock (record row { available = level }) s.db.stock }),
        )
        else (
          err (
              status failed_precondition (
                String.◌++◌ "insufficient stock: "
                  (String.◌++◌ "insufficient stock: " (String.◌++◌ "sku=" sku)))),
          s,
        ))
unfolding adjust adjust_stock or_classify mutation_status respond message
adjust_known sku delta s row calm found small fits =
    let level = row.available +ℤ delta in
    let new : Stock = record row { available = level } in
    let up = update_available sku delta in
    elim (Bool-cases (leb_ℤ (pos 0) level)) [
      | inl enough ↦
          let db1 : Db = record s.db { stock = put_stock new s.db.stock } in
          let st = statement-calm "adjust stock" up s (some new) db1 calm (
            update_available-known sku delta s.db row found small fits
            ∙ ap (λ b. updated b new s.db) enough) in
          let ran : adjust_stock sku delta s ≡ (ok new, with_db s db1) =
            ap (λ x. proceed (or_classify sku) x.0 x.1) st in
          rw enough (
            ap (respond (mutation_status sku) (λ r. adjusted r.sku r.available)) (
              in_tx-calm (adjust_stock sku delta) s calm
              ∙ ap (finish s.db) ran
              ∙ finish-calm s.db new (with_db s db1) calm))
      | inr short ↦
          let st = statement-calm "adjust stock" up s none s.db calm (
            update_available-known sku delta s.db row found small fits
            ∙ ap (λ b. updated b new s.db) short) in
          let ran : adjust_stock sku delta s
              ≡ (err (insufficient_stock (String.◌++◌ "sku=" sku)), s) =
            ap (λ x. proceed (or_classify sku) x.0 x.1) st ∙ classify-known sku row s calm found in
          rw short (
            ap (respond (mutation_status sku) (λ r. adjusted r.sku r.available)) (
              in_tx-calm (adjust_stock sku delta) s calm
              ∙ ap (finish s.db) ran
              ∙ finish-err_self s.db (insufficient_stock (String.◌++◌ "sku=" sku)) s))
    ]

-- An adjustment of an unknown SKU, when no statement fails, is answered NotFound and changes nothing,
-- whatever its delta.
pub adjust_unknown :
    (sku : String) (delta : ℤ) (s : Session)
    → s.faults ≡ []
    → find_stock sku s.db.stock ≡ none
    → adjust sku delta s ≡ (err (status not_found (String.◌++◌ "sku not found: " sku)), s)
unfolding adjust adjust_stock or_classify mutation_status respond update_available
adjust_unknown sku delta s calm missing =
    let up = update_available sku delta in
    let st = statement-calm "adjust stock" up s none s.db calm (rw (missing, update_available)) in
    let ran : adjust_stock sku delta s ≡ (err (Error.not_found (String.◌++◌ "sku=" sku)), s) =
      ap (λ x. proceed (or_classify sku) x.0 x.1) st ∙ classify-unknown sku s calm missing in
    ap (respond (mutation_status sku) (λ r. adjusted r.sku r.available)) (
      in_tx-calm (adjust_stock sku delta) s calm
      ∙ ap (finish s.db) ran
      ∙ finish-err_self s.db (Error.not_found (String.◌++◌ "sku=" sku)) s)
