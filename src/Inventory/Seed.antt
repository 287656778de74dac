-- ===== src/Inventory/Seed.antt =====
-- server/inventory-service/internal/seed/seed.go: the start levels, written once.
use go_folio.Prelude.{
  ◌≡◌, ◌∷◌, [], ok, err, some, pos, String, ℤ, Result, List, Bool, if◌then◌else◌, arith, All, ◌≤ℤ◌,
  Result-cases, Option-cases, true, inl, inr, subst, ◌∙◌, false, sym, Bool-cases, ap, ◌==◌, refl,
}
use go_folio.Inventory.Repository.{Session, seed_sku, has_any_stock, statement}
use go_folio.Inventory.Domain.{Error, Stock}
use go_folio.Inventory.Accounts.{IsBalanced, AllRows, HasUniqueIds}
use go_folio.Inventory.Db.{Db, find_stock, insert_stock, has_rows}
use go_folio.Inventory.Levels.{IsNonneg}
use go_folio.Inventory.Repository.Steps.{statement-ok, statement-err, statement_read-db}
use go_folio.Inventory.Db.Laws.{held}

abbrev pub skus : List (String × ℤ)
skus =
    ("BAG-TOTE-001", pos 15)
    ∷ ("WAL-BIF-001", pos 40)
    ∷ ("BEL-CLB-001", pos 25)
    ∷ ("BAG-MSG-001", pos 8)
    ∷ ("ACC-KCH-001", pos 100)
    ∷ ("BAG-BCK-001", pos 0)
    ∷ ("WAL-ZIP-001", pos 20)
    ∷ ("ACC-CAR-001", pos 60)
    ∷ ("BAG-CLT-001", pos 12)
    ∷ ("BEL-CSL-001", pos 3)
    ∷ ("BM-02-COL-CO-NUE", pos 13)
    ∷ ("BM-02-COL-CO-NE", pos 8)
    ∷ ("BM-02-COL-CO-MI", pos 5)
    ∷ ("BM-02-COL-CO-CA", pos 12)
    ∷ []

-- The loop: an error is logged, and the next SKU is tried.
unfoldable pub seed_each : List (String × ℤ) → Session → Session
seed_each [] s = s
seed_each ((sku, available) ∷ rest) s = seed_each rest (seed_sku sku available s).1

-- `Run`: nothing is done where a row exists, or where that could not be told.
unfoldable pub run_with : Result Error Bool → Session → Session
run_with (err e) s = s
run_with (ok has) s = if has then s else seed_each skus s

unfoldable pub run : Session → Session
run s = let (r, s') = has_any_stock s in run_with r s'

-- Tables of unreserved levels, none of them negative.
abbrev pub IsFresh : Db → Type 0
IsFresh db =
    (db.reservations ≡ []) × AllRows (λ k r. (r.reserved ≡ pos 0) × (pos 0 ≤ℤ r.available)) db.stock

insert_stock-IsFresh :
    (sku : String) (available : ℤ) (db db' : Db) (u : Unit {0})
    → pos 0 ≤ℤ available
    → insert_stock sku available db ≡ some (u, db')
    → IsFresh db
    → IsFresh db'
unfolding insert_stock find_stock
insert_stock-IsFresh sku available db db' u h e fresh =
    elim (Option-cases (find_stock sku db.stock)) [
      | inr (row, found) ↦ let same : db ≡ db' = ground arith in subst IsFresh same fresh
      | inl missing ↦
          let row : Stock = record { sku = sku; available = available; reserved = pos 0 } in
          let new : record db { stock = row ∷ db.stock } ≡ db' = ground arith in
          subst IsFresh new (
            fresh.0,
            λ k r found. elim (Bool-cases (sku == k)) [
              | inl same ↦
                  let eq : row ≡ r = ground arith in
                  subst (λ (x : Stock). (x.reserved ≡ pos 0) × (pos 0 ≤ℤ x.available)) eq (refl, h)
              | inr differs ↦ fresh.1 k r (ground arith)
            ],
          )
    ]

seed_sku-IsFresh :
    (sku : String) (available : ℤ) (s : Session)
    → pos 0 ≤ℤ available
    → IsFresh s.db
    → IsFresh (seed_sku sku available s).1.db
unfolding seed_sku
seed_sku-IsFresh sku available s h fresh =
    elim (Result-cases (statement "seed sku" (insert_stock sku available) s).0) [
      | inl (u, done) ↦
          insert_stock-IsFresh sku available s.db _ u h
            (statement-ok "seed sku" (insert_stock sku available) s u done) fresh
      | inr (e, failed) ↦
          subst IsFresh (sym (statement-err "seed sku" (insert_stock sku available) s e failed))
            fresh
    ]

seed_each-IsFresh :
    (rows : List (String × ℤ)) (s : Session)
    → All (λ x. pos 0 ≤ℤ x.1) rows
    → IsFresh s.db
    → IsFresh (seed_each rows s).db
unfolding seed_each
seed_each-IsFresh [] s h fresh = fresh
seed_each-IsFresh ((sku, available) ∷ rest) s h fresh =
    seed_each-IsFresh rest (seed_sku sku available s).1 h.1
      (seed_sku-IsFresh sku available s h.0 fresh)

IsFresh-sound : (db : Db) → IsFresh db → IsBalanced db × IsNonneg db
IsFresh-sound db (none_held, rows) = (
  record {
    accounts = λ k r found. (rows k r found).0 ∙ sym (ap (held k) none_held);
    unique = subst HasUniqueIds (sym none_held) tt;
  },
  record {
    levels = λ k r found. (rows k r found).1;
    quantities = subst (All (λ r. pos 0 ≤ℤ r.quantity)) (sym none_held) tt;
  },
)

run_with-IsFresh : (r : Result Error Bool) (s : Session) → IsFresh s.db → IsFresh (run_with r s).db
unfolding run_with
run_with-IsFresh (err e) s fresh = fresh
run_with-IsFresh (ok true) s fresh = fresh
run_with-IsFresh (ok false) s fresh = seed_each-IsFresh skus s (omega arith) fresh

-- Whatever statements fail, seeding empty tables leaves balanced books in which no level is negative,
-- so it meets what the calls of the service require of their start.
pub run_sound :
    (s : Session)
    → s.db.stock ≡ []
    → s.db.reservations ≡ []
    → IsBalanced (run s).db × IsNonneg (run s).db
unfolding run has_any_stock find_stock has_rows
run_sound s no_rows none_held =
    let fresh : IsFresh s.db = (none_held, λ k r found. absurd (ground arith)) in
    let ask = statement "has any stock" has_rows s in
    IsFresh-sound (run s).db (
      run_with-IsFresh ask.0 ask.1 (
        subst IsFresh
          (sym (
            statement_read-db "has any stock" (λ db. elim db.stock [ [] ↦ false | _ ∷ _ ↦ true ])
              s))
          fresh))

-- Seeding does nothing where a row exists, whatever statements fail.
pub run-seeded :
    (s : Session) (row : Stock) (rows : List Stock) → s.db.stock ≡ row ∷ rows → (run s).db ≡ s.db
unfolding run has_any_stock run_with statement has_rows
run-seeded s row rows e = ground arith

-- Seeding empty tables, when no statement fails, gives each listed SKU its level, with none reserved.
pub run-levels :
    (s : Session)
    → s.db.stock ≡ []
    → s.faults ≡ []
    → All
        (λ x.
          find_stock x.0 (run s).db.stock
          ≡ some (record { sku = x.0; available = x.1; reserved = pos 0 }))
        skus
unfolding run has_any_stock run_with statement has_rows seed_each seed_sku insert_stock find_stock
run-levels s e calm =
    let start : Session = record {
      db = record { stock = []; reservations = s.db.reservations };
      faults = [];
      entropy = s.entropy;
    } in
    let eq : start ≡ s = λ i. record {
      db = record { stock = sym e i; reservations = s.db.reservations };
      faults = sym calm i;
      entropy = s.entropy;
    } in
    subst
      (λ (t : Session).
        All
          (λ x.
            find_stock x.0 (run t).db.stock
            ≡ some (record { sku = x.0; available = x.1; reserved = pos 0 }))
          skus)
      eq
      (
        refl,
        (
          refl,
          (
            refl,
            (
              refl,
              (refl, (refl, (refl, (refl, (refl, (refl, (refl, (refl, (refl, (refl, tt)))))))))),
            ),
          ),
        ),
      )
