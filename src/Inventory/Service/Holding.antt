-- ===== src/Inventory/Service/Holding.antt =====
-- The answer to a reservation when no statement fails.
use go_folio.Prelude.{
  ◌≡◌, ◌∷◌, [], ok, some, none, pos, String, ℤ, List, Option, ℕ, arith, ◌≤ℤ◌, negsuc, IsInt32, ◌+ℤ◌,
  ◌-ℤ◌, ap, int_laws, if◌then◌else◌, eqb, ◌∙◌, subst, refl,
}
use go_folio.Inventory.Repository.{
  new_id, Session, reservation, take_bytes, reserve_stock, record_reservation, classify_zero_rows,
  statement, ◌>>◌, pure, proceed, ◌>>=◌,
}
use go_folio.Inventory.Db.{
  insert_reservation, Db, find_stock, find_reservation, put_stock, hold_stock,
}
use go_folio.Inventory.Domain.{Reservation, Stock}
use go_folio.Inventory.Uuid.{format_id, stamp}
use go_folio.Inventory.Service.{reserve, respond, reserved_as, mutation_status, finish}
use go_folio.Inventory.Service.Return.{taken, hold_stock-known}
use go_folio.Inventory.Service.Outcomes.{with_db, in_tx-calm, finish-calm, statement-calm}
use go_folio.Inventory.Db.Laws.{find_stock-sku, find_stock-put_self, find_stock-own}

-- The session behind `new_id`.
abbrev pub drawn : Session → List (Option (List ℕ)) → Session
drawn s rest = record s { entropy = rest }

new_id-some :
    (s : Session) (b : List ℕ) (rest : List (Option (List ℕ)))
    → s.entropy ≡ some b ∷ rest
    → new_id s ≡ (ok (format_id (stamp b)), drawn s rest)
unfolding new_id take_bytes
new_id-some s b rest e = ground arith

insert_reservation-fresh :
    (r : Reservation) (db : Db) (row : Stock)
    → find_reservation r.id db.reservations ≡ none
    → find_stock r.sku db.stock ≡ some row
    → insert_reservation r db ≡ some (tt, record db { reservations = r ∷ db.reservations })
unfolding insert_reservation
insert_reservation-fresh r db row fresh known = ground arith

module _ (sku : String) (quantity : ℤ) (order_id : String) (s : Session) (row : Stock) (b : List ℕ)
    (rest : List (Option (List ℕ))) (calm : s.faults ≡ [])
    (found : find_stock sku s.db.stock ≡ some row) where
  -- The reservation that is recorded, and the tables with it.
  abbrev pub recorded : Reservation
  recorded = reservation sku quantity order_id (format_id (stamp b))

  abbrev pub booked : Db
  booked = record {
    stock = put_stock (taken quantity row) s.db.stock;
    reservations = recorded ∷ s.db.reservations;
  }

  reserve_stock-covered :
      quantity ≤ℤ row.available
      → IsInt32 (row.available +ℤ (pos 0 -ℤ quantity))
      → IsInt32 (row.reserved +ℤ quantity)
      → s.entropy ≡ some b ∷ rest
      → find_reservation recorded.id s.db.reservations ≡ none
      → reserve_stock sku quantity order_id s ≡ (ok recorded, drawn (with_db s booked) rest)
  unfolding reserve_stock record_reservation
  reserve_stock-covered covered a r bytes fresh =
      let key = find_stock-sku sku s.db.stock row found in
      let db1 : Db = record s.db { stock = put_stock (taken quantity row) s.db.stock } in
      let s1 = with_db s db1 in
      let s2 = drawn s1 rest in
      let branch = λ (n : ℕ).
        if eqb n 0 then classify_zero_rows sku else record_reservation sku quantity order_id in
      let count = λ (n : ℕ). statement "reserve stock rows affected" (λ db. some (n, db)) in
      let insert = λ (id : String). λ (t : Session).
        (statement "insert reservation" (insert_reservation (reservation sku quantity order_id id))
            >> pure (reservation sku quantity order_id id))
          t in
      let here : find_stock sku db1.stock ≡ some (taken quantity row) =
        subst (λ k. find_stock k db1.stock ≡ some (taken quantity row)) key
          (find_stock-put_self (taken quantity row) s.db.stock row
            (find_stock-own sku s.db.stock row found)) in
      ap (λ x. proceed (λ n. count n >>= branch) x.0 x.1)
        (statement-calm "reserve stock update" (hold_stock sku quantity) s 1 db1 calm
          (hold_stock-known sku quantity s.db row found covered a r))
      ∙ ap (λ x. proceed branch x.0 x.1)
          (statement-calm "reserve stock rows affected" (λ db. some (1, db)) s1 1 db1 calm refl)
      ∙ ap (λ x. proceed insert x.0 x.1) (new_id-some s1 b rest bytes)
      ∙ ap (λ x. proceed (λ _. pure recorded) x.0 x.1)
          (statement-calm "insert reservation" (insert_reservation recorded) s2 tt booked calm
            (insert_reservation-fresh recorded db1 (taken quantity row) fresh here))

  -- A reservation of a known SKU whose available level covers it, when no statement fails, the new
  -- levels fit 32 bits, and random bytes give an id that is not in use: it is answered with that id,
  -- the quantity moves from available to reserved in the SKU's row, the reservation is recorded, and
  -- nothing else changes.
  pub reserve_covered :
      quantity ≤ℤ row.available
      → IsInt32 (row.available +ℤ (pos 0 -ℤ quantity))
      → IsInt32 (row.reserved +ℤ quantity)
      → s.entropy ≡ some b ∷ rest
      → find_reservation recorded.id s.db.reservations ≡ none
      → reserve sku quantity order_id s
        ≡ (ok (reserved_as recorded.id), drawn (with_db s booked) rest)
  unfolding reserve respond
  reserve_covered covered a r bytes fresh =
      ap (respond (mutation_status sku) (λ x. reserved_as x.id)) (
        in_tx-calm (reserve_stock sku quantity order_id) s calm
        ∙ ap (finish s.db) (reserve_stock-covered covered a r bytes fresh)
        ∙ finish-calm s.db recorded (drawn (with_db s booked) rest) calm)

  -- A negative quantity is not refused: with a level that is not negative, and the other conditions of
  -- an accepted reservation, the reservation is accepted, the available level of the SKU rises above
  -- what it was, and its reserved count falls.
  pub reserve_negative :
      quantity ≤ℤ negsuc 0
      → pos 0 ≤ℤ row.available
      → IsInt32 (row.available +ℤ (pos 0 -ℤ quantity))
      → IsInt32 (row.reserved +ℤ quantity)
      → s.entropy ≡ some b ∷ rest
      → find_reservation recorded.id s.db.reservations ≡ none
      → let (answer, after) = reserve sku quantity order_id s in
        (answer ≡ ok (reserved_as recorded.id))
        × ((new : Stock) × (find_stock sku after.db.stock ≡ some new)
            × (row.available +ℤ pos 1 ≤ℤ new.available)
            × (new.reserved +ℤ pos 1 ≤ℤ row.reserved))
  reserve_negative below level a r bytes fresh =
      let key = find_stock-sku sku s.db.stock row found in
      let done = reserve_covered (omega int_laws) a r bytes fresh in
      (
        ap (λ x. x.0) done,
        (
          taken quantity row,
          ap (λ x. find_stock sku x.1.db.stock) done
              ∙ subst (λ k. find_stock k booked.stock ≡ some (taken quantity row)) key
                  (find_stock-put_self (taken quantity row) s.db.stock row
                    (find_stock-own sku s.db.stock row found)),
          omega int_laws,
          omega int_laws,
        ),
      )
