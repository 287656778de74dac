-- ===== src/Inventory/Service/Atomic.antt =====
-- A call that is refused.
use go_folio.Prelude.{◌≡◌, ok, err, Result, ap, arith, refl, Bool-cases, ◌∙◌, inl, inr}
use go_folio.Inventory.Domain.{Error}
use go_folio.Inventory.Service.{
  finish, in_tx, respond, serve, adjust, Status, Response, reserve, release, Call, get, get_all,
  change, mutation_status, adjusted, hold, reserved_as, free, release_status, released,
}
use go_folio.Inventory.Db.{Db}
use go_folio.Inventory.Repository.{
  Tx, Session, later, fault_now, adjust_stock, reserve_stock, release_stock,
}
use go_folio.Inventory.Service.Invariant.{respond-session, get_stock-db, list-db}

finish-err :
    {A : Type 0} (before : Db) (r : Result Error A) (s : Session) (e : Error)
    → (finish before (r, s)).0 ≡ err e
    → (finish before (r, s)).1.db ≡ before
unfolding finish
finish-err before (err x) s e h = refl
finish-err before (ok a) s e h = ground arith

in_tx-err :
    {A : Type 0} (fn : Tx A) (s : Session) (e : Error)
    → (in_tx fn s).0 ≡ err e
    → (in_tx fn s).1.db ≡ s.db
unfolding in_tx
in_tx-err fn s e h =
    let begun = record s { faults = later s.faults } in
    elim (Bool-cases (fault_now s.faults)) [
      | inl fault ↦ rw fault refl
      | inr fine ↦ rw fine (finish-err s.db (fn begun).0 (fn begun).1 e (rw fine at h))
    ]

-- The status of a refused transaction comes from its error.
respond-err :
    {A : Type 0} (refuse : Error → Status) (answer : A → Response) (r : Result Error A)
    (s : Session) (st : Status)
    → (respond refuse answer (r, s)).0 ≡ err st
    → (e : Error) × (r ≡ err e) × (refuse e ≡ st)
unfolding respond
respond-err refuse answer (ok a) s st h = absurd (cc)
respond-err refuse answer (err e) s st h = (e, refl, cc)

refused :
    {A : Type 0} (refuse : Error → Status) (answer : A → Response) (fn : Tx A) (s : Session)
    (st : Status)
    → (respond refuse answer (in_tx fn s)).0 ≡ err st
    → (respond refuse answer (in_tx fn s)).1.db ≡ s.db
refused refuse answer fn s st h =
    let run = in_tx fn s in
    let (e, failed, same) = respond-err refuse answer run.0 run.1 st h in
    ap (λ (t : Session). t.db) (respond-session refuse answer run.0 run.1) ∙ in_tx-err fn s e failed

-- A call that is answered with an error has changed no table, whichever statement failed.
pub serve-atomic :
    (c : Call) (s : Session) (st : Status) → (serve c s).0 ≡ err st → (serve c s).1.db ≡ s.db
unfolding serve adjust reserve release
serve-atomic (get sku) s st h = get_stock-db sku s
serve-atomic (get_all by_sku) s st h = list-db by_sku s
serve-atomic (change sku delta) s st h =
    refused (mutation_status sku) (λ r. adjusted r.sku r.available) (adjust_stock sku delta) s st h
serve-atomic (hold sku quantity order_id) s st h =
    refused (mutation_status sku) (λ r. reserved_as r.id) (reserve_stock sku quantity order_id) s st
      h
serve-atomic (free id) s st h =
    refused (release_status id) (λ _. released) (release_stock id) s st h
