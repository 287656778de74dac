-- ===== src/Inventory/Accounts.antt =====
-- The books of the inventory: the reserved count of every SKU is what its reservations hold. An
-- operation of the repository that succeeds keeps them.
use go_folio.Inventory.Db.{Db, erase_reservation, find_reservation, find_stock, put_stock}
use go_folio.Prelude.{
  List, String, ℤ, ◌≡◌, none, some, arith, [], eq_iff, ◌≢◌, Bool-cases, ◌==◌, inl, ap, subst₂, pos,
  inr, ◌-ℤ◌, +ℤ_zero, sym, ◌∙◌, ◌∷◌, refl, ◌+ℤ◌, +ℤ_comm, -ℤ_of_sum, subst,
}
use go_folio.Inventory.Domain.{Stock, Reservation}
use go_folio.Inventory.Db.Laws.{
  held, find_stock-sku, find_stock-put_self, find_stock-put_ne, find_stock-own, held-cons_self,
  held-erase_self, held-cons_ne, held-erase_ne,
}
use go_folio.Inventory.Repository.Exact.{Adjusted, Held, moved}
use go_folio.Inventory.Repository.Release.{Released}

-- What holds of every row, by its key.
abbrev pub AllRows : (String → Stock → Type 0) → List Stock → Type 0
AllRows P rows = (k : String) (r : Stock) → find_stock k rows ≡ some r → P k r

-- Writing one row: the others carry over, and the new one is as stated.
pub put_stock-AllRows :
    (P Q : String → Stock → Type 0) (n row : Stock) (rows : List Stock)
    → find_stock n.sku rows ≡ some row
    → AllRows P rows
    → Q n.sku n
    → ((k : String) (r : Stock) → n.sku ≢ k → P k r → Q k r)
    → AllRows Q (put_stock n rows)
put_stock-AllRows P Q n row rows found old new other k r e = elim (Bool-cases (n.sku == k)) [
  | inl same ↦
      let key : n.sku ≡ k = (eq_iff n.sku k).0 same in
      let here = ap (λ (j : String). find_stock j (put_stock n rows)) key in
      let eq : n ≡ r = cc (find_stock-put_self n rows row found) in subst₂ Q key eq new
  | inr differs ↦
      let ne : n.sku ≢ k = λ p. cc ((eq_iff n.sku k).1 p) in
      other k r ne (old k r (sym (find_stock-put_ne k n rows ne) ∙ e))
]

abbrev pub HasUniqueIds : List Reservation → Type 0
HasUniqueIds [] = Unit
HasUniqueIds (r ∷ rs) = (find_reservation r.id rs ≡ none) × HasUniqueIds rs

pub record IsBalanced (db : Db) : Type 0 where
  pub accounts : AllRows (λ k r. r.reserved ≡ held k db.reservations) db.stock
  pub unique : HasUniqueIds db.reservations

pub find_reservation-erase_ne :
    (k id : String) (rs : List Reservation)
    → find_reservation k rs ≡ none
    → find_reservation k (erase_reservation id rs) ≡ none
unfolding find_reservation erase_reservation
find_reservation-erase_ne k id [] e = refl
find_reservation-erase_ne k id (x ∷ rs) e = ground (arith, find_reservation-erase_ne k id rs)

pub find_reservation-erase_self :
    (id : String) (rs : List Reservation)
    → HasUniqueIds rs
    → find_reservation id (erase_reservation id rs) ≡ none
unfolding find_reservation erase_reservation
find_reservation-erase_self id [] u = refl
find_reservation-erase_self id (x ∷ rs) u =
    ground (arith, eq_iff x.id id, find_reservation-erase_self id rs u.1)

erase_reservation-HasUniqueIds :
    (id : String) (rs : List Reservation) → HasUniqueIds rs → HasUniqueIds (erase_reservation id rs)
unfolding erase_reservation
erase_reservation-HasUniqueIds id [] u = tt
erase_reservation-HasUniqueIds id (x ∷ rs) u =
    ground (arith, erase_reservation-HasUniqueIds id rs u.1, find_reservation-erase_ne x.id id rs)

pub Adjusted-IsBalanced :
    (sku : String) (delta : ℤ) (db db' : Db) (out : Stock)
    → Adjusted sku delta db db' out
    → IsBalanced db
    → IsBalanced db'
Adjusted-IsBalanced sku delta db db' out a b =
    let n = moved delta (pos 0) a.row in
    let found : find_stock n.sku db.stock ≡ some a.row =
      find_stock-own sku db.stock a.row a.found in
    let kept : n.reserved ≡ held n.sku db.reservations =
      +ℤ_zero a.row.reserved ∙ b.accounts n.sku a.row found in
    rw (a.left, a.out_eq)
      (record {
        accounts =
            put_stock-AllRows (λ k r. r.reserved ≡ held k db.reservations)
              (λ k r. r.reserved ≡ held k db.reservations) n a.row db.stock found b.accounts kept
              (λ k r _ e. e);
        unique = b.unique;
      })

pub Held-IsBalanced :
    (sku : String) (quantity : ℤ) (order_id : String) (db db' : Db) (r : Reservation)
    → Held sku quantity order_id db db' r
    → IsBalanced db
    → IsBalanced db'
Held-IsBalanced sku quantity order_id db db' r h b =
    let n = moved (pos 0 -ℤ quantity) quantity h.row in
    let found : find_stock n.sku db.stock ≡ some h.row =
      find_stock-own sku db.stock h.row h.found in
    let r_sku : r.sku ≡ sku = cc (h.shape) in
    let same : r.sku ≡ n.sku = r_sku ∙ sym (find_stock-sku sku db.stock h.row h.found) in
    let r_quantity : r.quantity ≡ quantity = cc (h.shape) in
    rw (h.left) (record {
      accounts =
          put_stock-AllRows (λ k x. x.reserved ≡ held k db.reservations)
            (λ k x. x.reserved ≡ held k (r ∷ db.reservations)) n h.row db.stock found b.accounts
            (ap (λ (a : ℤ). a +ℤ quantity) (b.accounts n.sku h.row found)
              ∙ +ℤ_comm _ quantity
              ∙ ap (λ (a : ℤ). a +ℤ held n.sku db.reservations) (sym r_quantity)
              ∙ sym (held-cons_self n.sku r db.reservations same))
            (λ k x ne e. e ∙ sym (held-cons_ne k r db.reservations (λ p. ne (sym same ∙ p))));
      unique = (h.fresh, b.unique);
    })

pub Released-IsBalanced :
    (id : String) (db db' : Db) → Released id db db' → IsBalanced db → IsBalanced db'
Released-IsBalanced id db db' x b =
    let r = x.claimed in
    let own = find_stock-sku r.sku db.stock x.row x.stocked in
    let n = moved r.quantity (pos 0 -ℤ r.quantity) x.row in
    let found : find_stock n.sku db.stock ≡ some x.row =
      find_stock-own r.sku db.stock x.row x.stocked in
    rw (x.left) (record {
      accounts =
          put_stock-AllRows (λ k y. y.reserved ≡ held k db.reservations)
            (λ k y. y.reserved ≡ held k (erase_reservation id db.reservations)) n x.row db.stock
            found b.accounts
            (ap (λ (a : ℤ). a +ℤ (pos 0 -ℤ r.quantity)) (b.accounts n.sku x.row found)
              ∙ -ℤ_of_sum (held n.sku (erase_reservation id db.reservations)) r.quantity _ (
                  subst
                    (λ k.
                      held k (erase_reservation id db.reservations) +ℤ r.quantity
                      ≡ held k db.reservations)
                    (sym own) (held-erase_self id db.reservations r x.found)))
            (λ k y ne e.
              e ∙ sym (held-erase_ne k id db.reservations r x.found (λ p. ne (own ∙ p))));
      unique = erase_reservation-HasUniqueIds id db.reservations b.unique;
    })
