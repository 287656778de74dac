-- ===== src/Inventory/Repository/Steps.antt =====
-- A session step by step: what a statement and a sequence that succeed have done.
use go_folio.Prelude.{◌≡◌, refl, Option, none, some, String, Result, ok, err, arith, ◌≢◌}
use go_folio.Inventory.Domain.{Error, Stock}
use go_folio.Inventory.Db.{Db, count_stock}
use go_folio.Inventory.Repository.{
  Session, Tx, ◌>>=◌, statement, or_not_found, or_classify, classify_zero_rows, proceed,
}

-- A statement that succeeds ran on the tables and left its own.
pub statement-ok :
    {A : Type 0} (op : String) (run : Db → Option (A × Db)) (s : Session) (a : A)
    → (statement op run s).0 ≡ ok a
    → run s.db ≡ some (a, (statement op run s).1.db)
unfolding statement
statement-ok op run s a e = ground arith

-- One that fails leaves the tables.
pub statement-err :
    {A : Type 0} (op : String) (run : Db → Option (A × Db)) (s : Session) (e : Error)
    → (statement op run s).0 ≡ err e
    → (statement op run s).1.db ≡ s.db
unfolding statement
statement-err op run s e h = ground arith

-- One that only reads leaves them in any case.
pub statement_read-db :
    {A : Type 0} (op : String) (f : Db → A) (s : Session)
    → (statement op (λ db. some (f db, db)) s).1.db ≡ s.db
unfolding statement
statement_read-db op f s = ground arith

proceed-ok :
    {A B : Type 0} (f : A → Tx B) (r : Result Error A) (s : Session) (b : B)
    → (proceed f r s).0 ≡ ok b
    → (a : A) × (r ≡ ok a) × ((f a s).0 ≡ ok b) × ((proceed f r s).1 ≡ (f a s).1)
proceed-ok f (ok a) s b e = (a, refl, e, refl)
proceed-ok f (err x) s b e = cc

-- Two steps that succeed: the first did, and the second from where it left.
pub >>=-ok :
    {A B : Type 0} (m : Tx A) (f : A → Tx B) (s : Session) (b : B)
    → ((m >>= f) s).0 ≡ ok b
    → (a : A) × ((m s).0 ≡ ok a) × ((f a (m s).1).0 ≡ ok b) × (((m >>= f) s).1 ≡ (f a (m s).1).1)
>>=-ok m f s b e = proceed-ok f (m s).0 (m s).1 b e

pub classify_zero_rows-ne-ok :
    {A : Type 0} (sku : String) (s : Session) (a : A) → (classify_zero_rows sku s).0 ≢ ok a
unfolding classify_zero_rows
classify_zero_rows-ne-ok sku s a e =
    let (n, ran, raised, same) = >>=-ok (statement _ (count_stock sku)) _ s a e in cc

-- A tables' function that only reads leaves them, and an update that finds no row reports an error.
pub or_classify-ok :
    (sku : String) (row : Option Stock) (s : Session) (out : Stock)
    → (or_classify sku row s).0 ≡ ok out
    → (row ≡ some out) × ((or_classify sku row s).1 ≡ s)
unfolding or_classify
or_classify-ok sku none s out e = absurd (classify_zero_rows-ne-ok sku s out e)
or_classify-ok sku (some row) s out e = (cc, refl)

pub or_not_found-ok :
    {A : Type 0} (detail : String) (row : Option A) (s : Session) (out : A)
    → (or_not_found detail row s).0 ≡ ok out
    → (row ≡ some out) × ((or_not_found detail row s).1 ≡ s)
unfolding or_not_found
or_not_found-ok detail none s out e = cc
or_not_found-ok detail (some row) s out e = (cc, refl)
