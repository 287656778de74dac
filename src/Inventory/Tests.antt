-- ===== src/Inventory/Tests.antt =====
-- The theorems on a shop of two SKUs, one of them with a reservation.
use Prim.Native.String
use go_folio.Inventory.Service
use go_folio.Inventory.Service.{
  adjust, get, get_all, change, hold, free, Call, release, reserve, respond, in_tx, mutation_status,
  finish,
}
use go_folio.Prelude.{
  ◌≡◌, ◌∷◌, [], ok, err, some, pos, negsuc, refl, arith, ap, List, ℕ, false, true, ◌+ℤ◌, ℤ, ◌-ℤ◌,
  All, String, ◌≤ℤ◌,
}
use go_folio.Inventory.Service.Invariant.{serve_all-IsBalanced, serve_all-IsNonneg}
use go_folio.Inventory.Service.Atomic.{serve-atomic}
use go_folio.Inventory.Service.Totals.{serve-on_hand, on_hand, brought}
use go_folio.Inventory.Service.Return.{release-reserve, release_twice, release_unknown, InRange}
use go_folio.Inventory.Service.Outcomes.{adjust_known, adjust_unknown, with_db}
use go_folio.Inventory.Service.Holding.{reserve_covered, reserve_negative, drawn, booked}
use go_folio.Inventory.Uuid.Laws.{format_id-stamp, bytes16, IsByte, are_bytes-All}
use go_folio.Inventory.Seed.{run_sound, run-seeded, run-levels, run, skus}
use go_folio.Inventory.Levels.{IsNonneg}
use go_folio.Inventory.Db.{
  find_stock, find_reservation, update_available, shift, put_stock, delete_reservation,
  credit_stock, select_stock,
}
use go_folio.Inventory.Service.{serve, Call, serve_all, hold, change, free}
use go_folio.Inventory.Domain.{Reservation, Stock}
use go_folio.Inventory.Repository.{
  adjust_stock, Session, release_stock, or_classify, statement, or_not_found, query_stock,
}
use go_folio.Inventory.Accounts.{IsBalanced, AllRows}
use go_folio.Inventory.Uuid.{stamp, format_id}

abbrev tote : Stock
tote = record { sku = "BAG-TOTE-001"; available = pos 5; reserved = pos 2 }

abbrev belt : Stock
belt = record { sku = "BEL-CLB-001"; available = pos 0; reserved = pos 0 }

abbrev order : Reservation
order = record { id = "r1"; sku = "BAG-TOTE-001"; quantity = pos 2; order_id = "o1" }

abbrev bytes : List ℕ
bytes = bytes16 1 2 3 4 5 6 7 8 9 10 11 12 13 14 15 16

abbrev shop : Session
shop = record {
  db = record { stock = tote ∷ belt ∷ []; reservations = order ∷ [] };
  faults = [];
  entropy = some bytes ∷ [];
}

abbrev empty : Session
empty = record {
  db = record { stock = []; reservations = [] };
  faults = [];
  entropy = some bytes ∷ [];
}

-- A day of calls: the first cannot begin, the last asks for too much.
abbrev calls : List Call
calls =
    hold "BAG-TOTE-001" (pos 2) "o1"
    ∷ change "BAG-TOTE-001" (pos 3)
    ∷ get "BAG-TOTE-001"
    ∷ get_all (λ rows. rows)
    ∷ free "r1"
    ∷ hold "BAG-TOTE-001" (pos 900) "o2"
    ∷ []

shop-IsBalanced : IsBalanced shop.db
unfolding find_stock find_reservation ◌+ℤ◌
shop-IsBalanced = record { accounts = λ k r found. ground arith; unique = (refl, tt) }

shop-IsNonneg : IsNonneg shop.db
unfolding find_stock
shop-IsNonneg = record { levels = λ k r found. ground arith; quantities = (omega arith, tt) }

shop-InRange : AllRows (λ k r. InRange r) shop.db.stock
unfolding find_stock
shop-InRange k r found = ground arith

serve_all-IsBalanced_example : IsBalanced (serve_all calls shop).db
serve_all-IsBalanced_example = serve_all-IsBalanced calls shop shop-IsBalanced

serve_all-IsNonneg_example : IsNonneg (serve_all calls shop).db
serve_all-IsNonneg_example =
    serve_all-IsNonneg calls shop (omega arith, (tt, (tt, (tt, (tt, (omega arith, tt))))))
      shop-IsNonneg

-- The COMMIT of this adjustment fails.
abbrev unlucky : Session
unlucky = record shop { faults = false ∷ false ∷ true ∷ [] }

change-unlucky : (serve (change "BAG-TOTE-001" (pos 3)) unlucky).0 ≡ err Service.internal_error
unfolding serve adjust respond mutation_status in_tx finish adjust_stock or_classify statement
    update_available shift ◌+ℤ◌ find_stock put_stock
change-unlucky = refl

serve-atomic_example : (serve (change "BAG-TOTE-001" (pos 3)) unlucky).1.db ≡ shop.db
serve-atomic_example =
    serve-atomic (change "BAG-TOTE-001" (pos 3)) unlucky Service.internal_error change-unlucky

serve-on_hand_example :
    on_hand "BAG-TOTE-001" (serve (hold "BAG-TOTE-001" (pos 3) "o2") shop).1.db
    ≡ on_hand "BAG-TOTE-001" shop.db
      +ℤ brought
          (hold "BAG-TOTE-001" (pos 3) "o2")
          (serve (hold "BAG-TOTE-001" (pos 3) "o2") shop).0
          "BAG-TOTE-001"
serve-on_hand_example = serve-on_hand (hold "BAG-TOTE-001" (pos 3) "o2") shop "BAG-TOTE-001"

adjust_known_example : adjust "BAG-TOTE-001" (negsuc 5) shop ≡ (
  err (
      Service.status Service.failed_precondition (
        String.◌++◌ "insufficient stock: "
          (String.◌++◌ "insufficient stock: " (String.◌++◌ "sku=" "BAG-TOTE-001")))),
  shop,
)
unfolding find_stock ◌+ℤ◌
adjust_known_example =
    adjust_known "BAG-TOTE-001" (negsuc 5) shop tote refl refl (omega arith) (omega arith)

adjust_unknown_example :
    adjust "X" (pos 0) shop
    ≡ (err (Service.status Service.not_found (String.◌++◌ "sku not found: " "X")), shop)
unfolding find_stock
adjust_unknown_example = adjust_unknown "X" (pos 0) shop refl refl

release_unknown_example :
    release "r9" shop
    ≡ (err (Service.status Service.not_found (String.◌++◌ "reservation not found: " "r9")), shop)
unfolding find_reservation
release_unknown_example = release_unknown "r9" shop refl refl

abbrev new_id_text : String
new_id_text = format_id (stamp bytes)

abbrev booked_shop : ℤ → Session
booked_shop quantity =
    drawn
      (with_db shop
        (booked "BAG-TOTE-001" quantity "o2" shop tote bytes [] refl (unfold find_stock in refl)))
      []

reserve_covered_example :
    reserve "BAG-TOTE-001" (pos 3) "o2" shop
    ≡ (ok (Service.reserved_as new_id_text), booked_shop (pos 3))
unfolding find_stock ◌+ℤ◌ ◌-ℤ◌ find_reservation format_id stamp
reserve_covered_example =
    reserve_covered "BAG-TOTE-001" (pos 3) "o2" shop tote bytes [] refl refl (omega arith)
      (omega arith) (omega arith) refl refl

reserve_negative_example :
    let (answer, after) = reserve "BAG-TOTE-001" (negsuc 6) "o2" shop in
    (answer ≡ ok (Service.reserved_as new_id_text))
    × ((new : Stock) × (find_stock "BAG-TOTE-001" after.db.stock ≡ some new)
        × (tote.available +ℤ pos 1 ≤ℤ new.available)
        × (new.reserved +ℤ pos 1 ≤ℤ tote.reserved))
unfolding find_stock ◌+ℤ◌ ◌-ℤ◌ find_reservation format_id stamp
reserve_negative_example =
    reserve_negative "BAG-TOTE-001" (negsuc 6) "o2" shop tote bytes [] refl refl (omega arith)
      (omega arith) (omega arith) (omega arith) refl refl

release-reserve_example :
    let after = (reserve "BAG-TOTE-001" (pos 3) "o2" shop).1 in
    release new_id_text after ≡ (ok Service.released, with_db after shop.db)
release-reserve_example =
    release-reserve "BAG-TOTE-001" (pos 3) "o2" new_id_text shop shop-InRange
      (ap (λ x. x.0) reserve_covered_example) (ap (λ x. x.1.faults) reserve_covered_example)

release-shop : release "r1" shop ≡ (ok Service.released, with_db shop (release "r1" shop).1.db)
unfolding release respond in_tx finish release_stock statement delete_reservation find_reservation
    or_not_found credit_stock find_stock ◌+ℤ◌ ◌-ℤ◌ query_stock select_stock put_stock
release-shop = refl

release_twice_example :
    let after = (release "r1" shop).1 in
    release "r1" after
    ≡ (err (Service.status Service.not_found (String.◌++◌ "reservation not found: " "r1")), after)
release_twice_example =
    release_twice "r1" shop Service.released shop-IsBalanced.unique (ap (λ x. x.0) release-shop)
      (ap (λ x. x.1.faults) release-shop)

bytes-small : All IsByte bytes
bytes-small = are_bytes-All bytes refl

format_id-stamp_example : new_id_text ≡ "01020304-0506-4708-890a-0b0c0d0e0f10"
format_id-stamp_example = format_id-stamp 1 2 3 4 5 6 7 8 9 10 11 12 13 14 15 16 bytes-small

-- The statement for the third SKU fails.
abbrev unlucky_start : Session
unlucky_start = record empty { faults = false ∷ false ∷ false ∷ true ∷ [] }

run_sound_example : IsBalanced (run unlucky_start).db × IsNonneg (run unlucky_start).db
run_sound_example = run_sound unlucky_start refl refl

run-seeded_example : (run shop).db ≡ shop.db
run-seeded_example = run-seeded shop tote (belt ∷ []) refl

run-levels_example :
    All
      (λ x.
        find_stock x.0 (run empty).db.stock
        ≡ some (record { sku = x.0; available = x.1; reserved = pos 0 }))
      skus
run-levels_example = run-levels empty refl refl
