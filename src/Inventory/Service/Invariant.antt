-- ===== src/Inventory/Service/Invariant.antt =====
-- What holds of the tables after any calls, whatever statements fail.
use Prim.Native.String
use go_folio.Prelude.{
  ◌≡◌, ok, err, String, Result, some, Bool-cases, refl, inl, inr, ℤ, List, All, Option, pos, none,
  ◌≤ℤ◌, ◌∷◌, [], subst, sym, ap, ◌∙◌,
}
use go_folio.Inventory.Service.{
  in_tx, finish, respond, Status, Response, Call, get_stock, hold, adjusted, serve_all, released,
  serve, adjust, reserve, release, get, get_all, change, mutation_status, reserved_as, free,
  release_status, get_status, stock_levels, list, list_status, items,
}
use go_folio.Inventory.Repository.{
  list_stock, statement, Tx, Session, fault_now, later, proceed, or_not_found, query_stock,
  adjust_stock, reserve_stock, release_stock,
}
use go_folio.Inventory.Db.{Db, select_stock, find_stock}
use go_folio.Inventory.Domain.{Error, Stock, Reservation}
use go_folio.Inventory.Accounts.{
  IsBalanced, Adjusted-IsBalanced, Held-IsBalanced, Released-IsBalanced,
}
use go_folio.Inventory.Levels.{IsNonneg, Adjusted-IsNonneg, Held-IsNonneg, Released-IsNonneg}
use go_folio.Inventory.Repository.Exact.{Adjusted, Held, adjust_stock-Adjusted, reserve_stock-Held}
use go_folio.Inventory.Repository.Release.{Released, release_stock-Released}
use go_folio.Inventory.Repository.Steps.{statement_read-db}

-- A transaction keeps what its body keeps when it succeeds; one that does not commit is undone.
finish-keeps :
    {A : Type 0} (P : Db → Type 0) (before : Db) (r : Result Error A) (s : Session)
    → P before
    → ((a : A) → r ≡ ok a → P s.db)
    → P (finish before (r, s)).1.db
unfolding finish
finish-keeps P before (err e) s old new = old
finish-keeps P before (ok a) s old new = elim (Bool-cases (fault_now s.faults)) [
  | inl fault ↦ rw fault old
  | inr fine ↦ rw fine (new a refl)
]

pub in_tx-keeps :
    {A : Type 0} (P : Db → Type 0) (fn : Tx A) (s : Session)
    → P s.db
    → ((t : Session) (a : A) → t.db ≡ s.db → (fn t).0 ≡ ok a → P (fn t).1.db)
    → P (in_tx fn s).1.db
unfolding in_tx
in_tx-keeps P fn s old new = elim (Bool-cases (fault_now s.faults)) [
  | inl fault ↦ rw fault old
  | inr fine ↦
      let begun = record s { faults = later s.faults } in
      rw fine (finish-keeps P s.db (fn begun).0 (fn begun).1 old (λ a e. new begun a refl e))
]

pub respond-session :
    {A : Type 0} (refuse : Error → Status) (answer : A → Response) (r : Result Error A)
    (s : Session)
    → (respond refuse answer (r, s)).1 ≡ s
unfolding respond
respond-session refuse answer (ok a) s = refl
respond-session refuse answer (err e) s = refl

proceed-session :
    {A B : Type 0} (f : A → Tx B) (r : Result Error A) (s : Session)
    → ((a : A) → (f a s).1 ≡ s)
    → (proceed f r s).1 ≡ s
proceed-session f (ok a) s h = h a
proceed-session f (err e) s h = refl

or_not_found-session :
    {A : Type 0} (detail : String) (row : Option A) (s : Session)
    → (or_not_found detail row s).1 ≡ s
unfolding or_not_found
or_not_found-session detail none s = refl
or_not_found-session detail (some a) s = refl

-- A read leaves the tables, also where it fails.
pub get_stock-db : (sku : String) (s : Session) → (get_stock sku s).1.db ≡ s.db
unfolding get_stock query_stock select_stock
get_stock-db sku s =
    let get = statement "get stock" (select_stock sku) in
    let detail = String.◌++◌ "sku=" sku in
    ap (λ (t : Session). t.db)
      (respond-session (get_status sku) (λ r. stock_levels r.sku r.available r.reserved)
          (query_stock sku s).0 (query_stock sku s).1
        ∙ proceed-session (or_not_found detail) (get s).0 (get s).1
            (λ row. or_not_found-session detail row (get s).1))
    ∙ statement_read-db "get stock" (λ db. find_stock sku db.stock) s

pub list-db : (by_sku : List Stock → List Stock) (s : Session) → (list by_sku s).1.db ≡ s.db
unfolding list list_stock
list-db by_sku s =
    ap (λ (t : Session). t.db)
      (respond-session list_status (λ rows. items rows) (list_stock by_sku s).0
        (list_stock by_sku s).1)
    ∙ statement_read-db "list stock" (λ db. by_sku db.stock) s

-- The quantity of a reservation is as required; the other calls ask for nothing.
abbrev pub IsAllowed : (ℤ → Type 0) → Call → Type 0
IsAllowed Q (hold sku quantity order_id) = Q quantity
IsAllowed Q (get _) = Unit
IsAllowed Q (get_all _) = Unit
IsAllowed Q (change _ _) = Unit
IsAllowed Q (free _) = Unit

-- What every operation that succeeds keeps is kept by every call.
module _ (P : Db → Type 0) (Q : ℤ → Type 0)
    (adjusts : (sku : String) (delta : ℤ) (db db' : Db) (out : Stock)
      → Adjusted sku delta db db' out
      → P db
      → P db')
    (holds : (sku : String) (quantity : ℤ) (order_id : String) (db db' : Db) (r : Reservation)
      → Held sku quantity order_id db db' r
      → Q quantity
      → P db
      → P db')
    (releases : (id : String) (db db' : Db) → Released id db db' → P db → P db') where
  serve-keeps : (c : Call) (s : Session) → IsAllowed Q c → P s.db → P (serve c s).1.db
  unfolding serve adjust reserve release
  serve-keeps (get sku) s a p = subst P (sym (get_stock-db sku s)) p
  serve-keeps (get_all by_sku) s a p = subst P (sym (list-db by_sku s)) p
  serve-keeps (change sku delta) s a p =
      let run = in_tx (adjust_stock sku delta) s in
      subst (λ (t : Session). P t.db)
        (sym (respond-session (mutation_status sku) (λ r. adjusted r.sku r.available) run.0 run.1))
        (in_tx-keeps P (adjust_stock sku delta) s p (λ t out same e.
          adjusts sku delta t.db (adjust_stock sku delta t).1.db out
            (adjust_stock-Adjusted sku delta t out e) (subst P (sym same) p)))
  serve-keeps (hold sku quantity order_id) s a p =
      let run = in_tx (reserve_stock sku quantity order_id) s in
      subst (λ (t : Session). P t.db)
        (sym (respond-session (mutation_status sku) (λ r. reserved_as r.id) run.0 run.1))
        (in_tx-keeps P (reserve_stock sku quantity order_id) s p (λ t r same e.
          holds sku quantity order_id t.db (reserve_stock sku quantity order_id t).1.db r
            (reserve_stock-Held sku quantity order_id t r e) a (subst P (sym same) p)))
  serve-keeps (free id) s a p =
      let run = in_tx (release_stock id) s in
      subst (λ (t : Session). P t.db)
        (sym (respond-session (release_status id) (λ _. released) run.0 run.1))
        (in_tx-keeps P (release_stock id) s p (λ t out same e.
          releases id t.db (release_stock id t).1.db (release_stock-Released id t out e)
            (subst P (sym same) p)))

  pub serve_all-keeps :
      (cs : List Call) (s : Session) → All (IsAllowed Q) cs → P s.db → P (serve_all cs s).db
  unfolding serve_all
  serve_all-keeps [] s a p = p
  serve_all-keeps (c ∷ cs) s a p = serve_all-keeps cs (serve c s).1 a.1 (serve-keeps c s a.0 p)

abbrev Anything : ℤ → Type 0
Anything _ = Unit

All-IsAllowed : (cs : List Call) → All (IsAllowed Anything) cs
All-IsAllowed [] = tt
All-IsAllowed (get _ ∷ cs) = (tt, All-IsAllowed cs)
All-IsAllowed (get_all _ ∷ cs) = (tt, All-IsAllowed cs)
All-IsAllowed (change _ _ ∷ cs) = (tt, All-IsAllowed cs)
All-IsAllowed (hold _ _ _ ∷ cs) = (tt, All-IsAllowed cs)
All-IsAllowed (free _ ∷ cs) = (tt, All-IsAllowed cs)

abbrev pub IsOrderly : Call → Type 0
IsOrderly c = IsAllowed (λ quantity. pos 0 ≤ℤ quantity) c

-- After any sequence of calls, whatever statements fail and whatever the random bytes are, the
-- reserved count of every SKU is the sum of the quantities that its reservations hold, and no two
-- reservations have one id, if this held at the start.
pub serve_all-IsBalanced :
    (calls : List Call) (s : Session) → IsBalanced s.db → IsBalanced (serve_all calls s).db
serve_all-IsBalanced calls s b =
    serve_all-keeps IsBalanced Anything Adjusted-IsBalanced
      (λ sku q o db db' r x _. Held-IsBalanced sku q o db db' r x) Released-IsBalanced calls s
      (All-IsAllowed calls) b

-- After any sequence of calls in which no reservation asks for a negative quantity, whatever
-- statements fail, no available level is negative and no reservation holds a negative quantity, if
-- this held at the start.
pub serve_all-IsNonneg :
    (calls : List Call) (s : Session)
    → All IsOrderly calls
    → IsNonneg s.db
    → IsNonneg (serve_all calls s).db
serve_all-IsNonneg calls s a h =
    serve_all-keeps IsNonneg (λ quantity. pos 0 ≤ℤ quantity) Adjusted-IsNonneg Held-IsNonneg
      Released-IsNonneg calls s a h
