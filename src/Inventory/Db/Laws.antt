-- ===== src/Inventory/Db/Laws.antt =====
-- Finding a row after a row was replaced, and what the reservations of a SKU add up to.
use go_folio.Prelude.{
  ◌≡◌, ◌≢◌, refl, ℤ, pos, ◌+ℤ◌, int_laws, some, List, [], ◌∷◌, String, ◌==◌, arith, eq_iff, eq_refl,
  if◌then◌else◌, ap, ◌∙◌,
}
use go_folio.Inventory.Domain.{Stock, Reservation}
use go_folio.Inventory.Db.{find_stock, put_stock, find_reservation, erase_reservation}

pub find_stock-sku :
    (k : String) (rs : List Stock) (r : Stock) → find_stock k rs ≡ some r → r.sku ≡ k
unfolding find_stock
find_stock-sku k [] r e = cc
find_stock-sku k (x ∷ rs) r e = ground (arith, eq_iff x.sku k, find_stock-sku k rs r)

pub find_stock-own :
    (k : String) (rs : List Stock) (r : Stock)
    → find_stock k rs ≡ some r
    → find_stock r.sku rs ≡ some r
find_stock-own k rs r e = ap (λ (j : String). find_stock j rs) (find_stock-sku k rs r e) ∙ e

pub find_stock-put_self :
    (n : Stock) (rs : List Stock) (r : Stock)
    → find_stock n.sku rs ≡ some r
    → find_stock n.sku (put_stock n rs) ≡ some n
unfolding find_stock put_stock
find_stock-put_self n [] r e = cc
find_stock-put_self n (x ∷ rs) r e =
    ground (arith, eq_refl n.sku, eq_iff x.sku n.sku, find_stock-put_self n rs r)

pub find_stock-put_ne :
    (k : String) (n : Stock) (rs : List Stock)
    → n.sku ≢ k
    → find_stock k (put_stock n rs) ≡ find_stock k rs
unfolding find_stock put_stock
find_stock-put_ne k n [] ne = refl
find_stock-put_ne k n (x ∷ rs) ne =
    ground (arith, eq_iff n.sku k, eq_iff x.sku n.sku, eq_iff x.sku k, find_stock-put_ne k n rs ne)

-- A row put back where it was found changes nothing.
pub put_stock-put_stock :
    (n r : Stock) (rs : List Stock)
    → n.sku ≡ r.sku
    → find_stock r.sku rs ≡ some r
    → put_stock r (put_stock n rs) ≡ rs
unfolding find_stock put_stock
put_stock-put_stock n r [] s e = cc
put_stock-put_stock n r (x ∷ rs) s e = ground (
  arith,
  eq_iff x.sku n.sku,
  eq_iff n.sku r.sku,
  eq_iff x.sku r.sku,
  put_stock-put_stock n r rs s,
)

-- The quantities that reservations hold of a SKU.
abbrev pub held : String → List Reservation → ℤ
held sku [] = pos 0
held sku (r ∷ rs) = if r.sku == sku then r.quantity +ℤ held sku rs else held sku rs

pub held-cons_self :
    (k : String) (r : Reservation) (rs : List Reservation)
    → r.sku ≡ k
    → held k (r ∷ rs) ≡ r.quantity +ℤ held k rs
held-cons_self k r rs e = ground (arith, eq_iff r.sku k)

pub held-cons_ne :
    (k : String) (r : Reservation) (rs : List Reservation) → r.sku ≢ k → held k (r ∷ rs) ≡ held k rs
held-cons_ne k r rs ne = ground (arith, eq_iff r.sku k)

pub held-erase_self :
    (id : String) (rs : List Reservation) (r : Reservation)
    → find_reservation id rs ≡ some r
    → held r.sku (erase_reservation id rs) +ℤ r.quantity ≡ held r.sku rs
unfolding find_reservation erase_reservation
held-erase_self id [] r e = cc
held-erase_self id (x ∷ rs) r e =
    grind (int_laws, eq_refl r.sku, eq_iff x.sku r.sku, held-erase_self id rs r)

pub held-erase_ne :
    (k id : String) (rs : List Reservation) (r : Reservation)
    → find_reservation id rs ≡ some r
    → r.sku ≢ k
    → held k (erase_reservation id rs) ≡ held k rs
unfolding find_reservation erase_reservation
held-erase_ne k id [] r e ne = cc
held-erase_ne k id (x ∷ rs) r e ne =
    ground (arith, eq_iff r.sku k, eq_iff x.sku k, held-erase_ne k id rs r)
