-- ===== src/Inventory/Service/Totals.antt =====
-- The units of each SKU: calls that move them between available and reserved, and calls that bring
-- or take some.
use go_folio.Prelude.{
  ◌≡◌, ◌∷◌, ok, err, some, none, pos, String, ℤ, Result, List, ◌+ℤ◌, arith, refl, ap, Bool-cases,
  if◌then◌else◌, ◌==◌, ◌∙◌, inl, inr, eq_iff, subst₂, sym, subst, ◌≢◌, +ℤ_zero, Option,
  Result-cases, int_laws, ◌-ℤ◌, if_same,
}
use go_folio.Inventory.Service.{
  Call, in_tx, serve, finish, respond, Status, adjust, reserve, Response, get, get_all, change,
  release, adjusted, mutation_status, hold, free, released, reserved_as, release_status,
}
use go_folio.Inventory.Domain.{Error, Stock, Reservation}
use go_folio.Inventory.Repository.{
  Tx, Session, later, fault_now, adjust_stock, reserve_stock, release_stock,
}
use go_folio.Inventory.Db.{Db, find_stock, put_stock, erase_reservation}
use go_folio.Inventory.Service.Invariant.{respond-session, get_stock-db, list-db}
use go_folio.Inventory.Repository.Exact.{
  Adjusted, Held, adjust_stock-Adjusted, reserve_stock-Held, moved,
}
use go_folio.Inventory.Repository.Release.{Released, release_stock-Released}
use go_folio.Inventory.Db.Laws.{
  find_stock-put_self, find_stock-put_ne, find_stock-sku, find_stock-own,
}
use go_folio.Inventory.Service.Atomic.{serve-atomic}

-- All the units of a SKU, available or reserved.
abbrev pub units : Option Stock → ℤ
units none = pos 0
units (some r) = r.available +ℤ r.reserved

abbrev pub on_hand : String → Db → ℤ
on_hand k db = units (find_stock k db.stock)

on_hand-some :
    (k : String) (db : Db) (r : Stock)
    → find_stock k db.stock ≡ some r
    → on_hand k db ≡ r.available +ℤ r.reserved
on_hand-some k db r e = ap units e

-- One row written, with `d` more units than before.
put_stock-on_hand :
    (n row : Stock) (d : ℤ) (db : Db) (k : String) (reservations : List Reservation)
    → find_stock n.sku db.stock ≡ some row
    → n.available +ℤ n.reserved ≡ row.available +ℤ row.reserved +ℤ d
    → on_hand k (record { stock = put_stock n db.stock; reservations = reservations })
      ≡ on_hand k db +ℤ (if n.sku == k then d else pos 0)
put_stock-on_hand n row d db k reservations found sum = elim (Bool-cases (n.sku == k)) [
  | inl same ↦
      let after : Db = record { stock = put_stock n db.stock; reservations = reservations } in
      let key = (eq_iff n.sku k).0 same in
      rw same (
        subst (λ j. on_hand j after ≡ on_hand j db +ℤ d) key
          (on_hand-some n.sku after n (find_stock-put_self n db.stock row found)
            ∙ sum
            ∙ ap (λ (a : ℤ). a +ℤ d) (sym (on_hand-some n.sku db row found))))
  | inr differs ↦
      let ne : n.sku ≢ k = λ p. cc ((eq_iff n.sku k).1 p) in
      rw differs (ap units (find_stock-put_ne k n db.stock ne) ∙ sym (+ℤ_zero _))
]

-- What a call brings of a SKU: the delta of an accepted adjustment.
abbrev pub brought : Call → Result Status Response → String → ℤ
brought (change sku delta) (ok _) k = if sku == k then delta else pos 0
brought _ _ _ = pos 0

brought-err : (c : Call) (st : Status) (k : String) → brought c (err st) k ≡ pos 0
brought-err (get _) st k = refl
brought-err (get_all _) st k = refl
brought-err (change _ _) st k = refl
brought-err (hold _ _ _) st k = refl
brought-err (free _) st k = refl

-- A call that is accepted has done one of these.
abbrev pub Effect : Call → Db → Db → Type 0
Effect (get sku) db db' = db' ≡ db
Effect (get_all by_sku) db db' = db' ≡ db
Effect (change sku delta) db db' = (out : Stock) × Adjusted sku delta db db' out
Effect (hold sku quantity order_id) db db' = (r : Reservation) × Held sku quantity order_id db db' r
Effect (free id) db db' = Released id db db'

finish-ok :
    {A : Type 0} (before : Db) (r : Result Error A) (s : Session) (a : A)
    → (finish before (r, s)).0 ≡ ok a
    → (r ≡ ok a) × ((finish before (r, s)).1.db ≡ s.db)
unfolding finish
finish-ok before (err e) s a h = absurd (cc)
finish-ok before (ok b) s a h = ground arith

in_tx-ok :
    {A : Type 0} (fn : Tx A) (s : Session) (a : A)
    → (in_tx fn s).0 ≡ ok a
    → (t : Session) × (t.db ≡ s.db) × ((fn t).0 ≡ ok a) × ((in_tx fn s).1.db ≡ (fn t).1.db)
unfolding in_tx
in_tx-ok fn s a h =
    let begun = record s { faults = later s.faults } in
    elim (Bool-cases (fault_now s.faults)) [
      | inl fault ↦ absurd (cc (rw fault at h))
      | inr fine ↦
          let (ran, kept) = finish-ok s.db (fn begun).0 (fn begun).1 a (rw fine at h) in
          (begun, refl, ran, rw fine kept)
    ]

respond-ok :
    {A : Type 0} (refuse : Error → Status) (answer : A → Response) (r : Result Error A)
    (s : Session) (out : Response)
    → (respond refuse answer (r, s)).0 ≡ ok out
    → (a : A) × (r ≡ ok a) × (answer a ≡ out)
unfolding respond
respond-ok refuse answer (ok a) s out h = (a, refl, cc)
respond-ok refuse answer (err e) s out h = absurd (cc)

pub accepted :
    {A : Type 0} (refuse : Error → Status) (answer : A → Response) (fn : Tx A) (s : Session)
    (out : Response)
    → (respond refuse answer (in_tx fn s)).0 ≡ ok out
    → (a : A) × (t : Session) × (t.db ≡ s.db)
      × ((fn t).0 ≡ ok a)
      × (answer a ≡ out)
      × ((respond refuse answer (in_tx fn s)).1.db ≡ (fn t).1.db)
accepted refuse answer fn s out h =
    let run = in_tx fn s in
    let (a, ran, shown) = respond-ok refuse answer run.0 run.1 out h in
    let (t, same, did, left) = in_tx-ok fn s a ran in
    (
      a,
      t,
      same,
      did,
      shown,
      ap (λ (x : Session). x.db) (respond-session refuse answer run.0 run.1) ∙ left,
    )

serve-Effect :
    (c : Call) (s : Session) (out : Response)
    → (serve c s).0 ≡ ok out
    → Effect c s.db (serve c s).1.db
unfolding serve adjust reserve release
serve-Effect (get sku) s out h = get_stock-db sku s
serve-Effect (get_all by_sku) s out h = list-db by_sku s
serve-Effect (change sku delta) s out h =
    let (a, t, same, did, shown, left) =
      accepted (mutation_status sku) (λ r. adjusted r.sku r.available) (adjust_stock sku delta) s
        out h in
    (
      a,
      subst₂ (λ x y. Adjusted sku delta x y a) same (sym left)
          (adjust_stock-Adjusted sku delta t a did),
    )
serve-Effect (hold sku quantity order_id) s out h =
    let (a, t, same, did, shown, left) =
      accepted (mutation_status sku) (λ r. reserved_as r.id) (reserve_stock sku quantity order_id) s
        out h in
    (
      a,
      subst₂ (λ x y. Held sku quantity order_id x y a) same (sym left)
          (reserve_stock-Held sku quantity order_id t a did),
    )
serve-Effect (free id) s out h =
    let (a, t, same, did, shown, left) =
      accepted (release_status id) (λ _. released) (release_stock id) s out h in
    subst₂ (λ x y. Released id x y) same (sym left) (release_stock-Released id t a did)

-- The effects of two accepted calls.
pub free-Released :
    (id : String) (s : Session) (out : Response)
    → (release id s).0 ≡ ok out
    → Released id s.db (release id s).1.db
free-Released id s out h = unfold serve in serve-Effect (free id) s out h

pub hold-Held :
    (sku : String) (quantity : ℤ) (order_id : String) (s : Session) (out : Response)
    → (reserve sku quantity order_id s).0 ≡ ok out
    → (r : Reservation) × Held sku quantity order_id s.db (reserve sku quantity order_id s).1.db r
hold-Held sku quantity order_id s out h =
    unfold serve in serve-Effect (hold sku quantity order_id) s out h

Effect-on_hand :
    (c : Call) (out : Response) (db db' : Db) (k : String)
    → Effect c db db'
    → on_hand k db' ≡ on_hand k db +ℤ brought c (ok out) k
Effect-on_hand (get sku) out db db' k e = ap (on_hand k) e ∙ sym (+ℤ_zero _)
Effect-on_hand (get_all by_sku) out db db' k e = ap (on_hand k) e ∙ sym (+ℤ_zero _)
Effect-on_hand (change sku delta) out db db' k (n, a) =
    let new = moved delta (pos 0) a.row in
    let key : new.sku ≡ sku = find_stock-sku sku db.stock a.row a.found in
    ap (on_hand k)
      (a.left ∙ ap (λ (x : Stock). record db { stock = put_stock x db.stock }) a.out_eq)
    ∙ put_stock-on_hand new a.row delta db k db.reservations
        (find_stock-own sku db.stock a.row a.found) (omega int_laws)
    ∙ ap (λ (j : String). on_hand k db +ℤ (if j == k then delta else pos 0)) key
Effect-on_hand (hold sku quantity order_id) out db db' k (r, h) =
    let new = moved (pos 0 -ℤ quantity) quantity h.row in
    ap (on_hand k) h.left
    ∙ put_stock-on_hand new h.row (pos 0) db k (r ∷ db.reservations)
        (find_stock-own sku db.stock h.row h.found) (omega int_laws)
    ∙ ap (λ (z : ℤ). on_hand k db +ℤ z) (if_same (new.sku == k) (pos 0))
Effect-on_hand (free id) out db db' k x =
    let new = moved x.claimed.quantity (pos 0 -ℤ x.claimed.quantity) x.row in
    ap (on_hand k) x.left
    ∙ put_stock-on_hand new x.row (pos 0) db k (erase_reservation id db.reservations)
        (find_stock-own x.claimed.sku db.stock x.row x.stocked) (omega int_laws)
    ∙ ap (λ (z : ℤ). on_hand k db +ℤ z) (if_same (new.sku == k) (pos 0))

-- Whatever a call is answered and whatever fails, the units of a SKU, available and reserved
-- together, change by the delta of an accepted adjustment of that SKU and by nothing else: reading,
-- reserving and releasing conserve them.
pub serve-on_hand :
    (c : Call) (s : Session) (k : String)
    → on_hand k (serve c s).1.db ≡ on_hand k s.db +ℤ brought c (serve c s).0 k
serve-on_hand c s k = elim (Result-cases (serve c s).0) [
  | inl (out, e) ↦ rw e (Effect-on_hand c out s.db (serve c s).1.db k (serve-Effect c s out e))
  | inr (st, e) ↦
      ap (on_hand k) (serve-atomic c s st e)
      ∙ sym (+ℤ_zero _)
      ∙ ap (λ (z : ℤ). on_hand k s.db +ℤ z) (sym (ap (λ r. brought c r k) e ∙ brought-err c st k))
]
