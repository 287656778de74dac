-- ===== src/Inventory/Service.antt =====
-- server/inventory-service/internal/service/service.go: the gRPC handlers, and `inTx`, which gives
-- each mutation a transaction of its own. A transaction runs alone, and a COMMIT that reports an
-- error has had no effect.
use Prim.Native.String
pub mod Invariant
pub mod Atomic
pub mod Outcomes
pub mod Return
pub mod Holding
pub mod Totals
use go_folio.Prelude.{ℤ, List, [], ◌∷◌, String, Result, ok, err, if◌then◌else◌}
use go_folio.Inventory.Domain.{Stock, Error, insufficient_stock, failure, message}
use go_folio.Inventory.Db.{Db}
use go_folio.Inventory.Repository.{
  Session, Tx, fault_now, later, query_stock, adjust_stock, reserve_stock, release_stock,
  list_stock,
}

pub data Code : Type 0 where
  not_found failed_precondition internal : Code

pub record Status : Type 0 where
  pub code : Code
  pub text : String

abbrev pub status : Code → String → Status
status c t = record { code = c; text = t }

-- The response messages of proto/inventory.
pub data Response : Type 0 where
  stock_levels : (sku : String) (available reserved : ℤ) → Response
  adjusted : (sku : String) (available : ℤ) → Response
  reserved_as : (reservation_id : String) → Response
  released : Response
  items : List Stock → Response

-- Behind `fn`: a failed one is rolled back, and so is one whose COMMIT fails.
unfoldable pub finish : {A : Type 0} → Db → Result Error A × Session → Result Error A × Session
finish before (err e, s) = (err e, record s { db = before })
finish before (ok a, s) =
    if fault_now s.faults
    then (err (failure "commit"), record s { db = before; faults = later s.faults })
    else (ok a, record s { faults = later s.faults })

-- `inTx` and `inTxReservation`, which differ in the result's type alone
unfoldable pub in_tx : {A : Type 0} → Tx A → Tx A
in_tx fn s =
    let begun = record s { faults = later s.faults } in
    if fault_now s.faults then (err (failure "begin tx"), begun) else finish s.db (fn begun)

unfoldable pub respond :
    {A : Type 0}
    → (Error → Status)
    → (A → Response)
    → Result Error A × Session
    → Result Status Response × Session
respond refuse answer (ok a, s) = (ok (answer a), s)
respond refuse answer (err e, s) = (err (refuse e), s)

abbrev pub sku_unknown : String → Status
sku_unknown sku = status not_found (String.◌++◌ "sku not found: " sku)

abbrev pub internal_error : Status
internal_error = status internal "internal error"

unfoldable pub get_status : String → Error → Status
get_status sku (Error.not_found _) = sku_unknown sku
get_status sku _ = internal_error

unfoldable pub mutation_status : String → Error → Status
mutation_status sku (Error.not_found _) = sku_unknown sku
mutation_status sku (insufficient_stock d) =
    status failed_precondition (String.◌++◌ "insufficient stock: " (message (insufficient_stock d)))
mutation_status sku (failure _) = internal_error

unfoldable pub release_status : String → Error → Status
release_status id (Error.not_found _) = status not_found (String.◌++◌ "reservation not found: " id)
release_status id _ = internal_error

unfoldable pub list_status : Error → Status
list_status _ = internal_error

abbrev pub Handler : Type 0
Handler = Session → Result Status Response × Session

unfoldable pub get_stock : String → Handler
get_stock sku s =
    respond (get_status sku) (λ r. stock_levels r.sku r.available r.reserved) (query_stock sku s)

unfoldable pub adjust : String → ℤ → Handler
adjust sku delta s =
    respond (mutation_status sku) (λ r. adjusted r.sku r.available)
      (in_tx (adjust_stock sku delta) s)

unfoldable pub reserve : String → ℤ → String → Handler
reserve sku quantity order_id s =
    respond (mutation_status sku) (λ r. reserved_as r.id)
      (in_tx (reserve_stock sku quantity order_id) s)

unfoldable pub release : String → Handler
release id s = respond (release_status id) (λ _. released) (in_tx (release_stock id) s)

unfoldable pub list : (List Stock → List Stock) → Handler
list by_sku s = respond list_status (λ rows. items rows) (list_stock by_sku s)

-- One RPC, as the generated server dispatches it; `get_all` carries the order of the collation.
pub data Call : Type 0 where
  get : String → Call
  get_all : (List Stock → List Stock) → Call
  change : String → ℤ → Call
  hold : String → ℤ → String → Call
  free : String → Call

unfoldable pub serve : Call → Handler
serve (get sku) = get_stock sku
serve (get_all by_sku) = list by_sku
serve (change sku delta) = adjust sku delta
serve (hold sku quantity order_id) = reserve sku quantity order_id
serve (free id) = release id

unfoldable pub serve_all : List Call → Session → Session
serve_all [] s = s
serve_all (c ∷ cs) s = serve_all cs (serve c s).1
