-- ===== src/Catalog/Store/Transactions.antt =====
-- A transaction over PostgreSQL: it leaves what its body left, or the tables it found.
use go_folio.Prelude.{
  ◌≡◌, refl, sym, ◌∙◌, subst, Bool, true, false, Result, ok, err, Bool-cases, inl, inr, ◌⊎◌,
}
use go_folio.Catalog.Service.{ServiceErr, in_tx, begun, ended, committed}
use go_folio.Catalog.Store.{Session, postgres, begin, commit, rollback, fault_now, later}

-- The session in a transaction that was begun.
abbrev pub opened : Session → Session
opened s = record s { faults = later s.faults; saved = s.tables }

begin-cases :
    (s : Session)
    → (begin s ≡ (true, opened s)) ⊎ (begin s ≡ (false, record s { faults = later s.faults }))
unfolding begin
begin-cases s = elim (Bool-cases (fault_now s.faults)) [
  | inl fault ↦ inr (rw fault refl)
  | inr fine ↦ inl (rw fine refl)
]

commit-cases :
    (s : Session)
    → (commit s ≡ (true, record s { faults = later s.faults }))
      ⊎ (commit s ≡ (false, record s { faults = later s.faults; tables = s.saved }))
unfolding commit
commit-cases s = elim (Bool-cases (fault_now s.faults)) [
  | inl fault ↦ inr (rw fault refl)
  | inr fine ↦ inl (rw fine refl)
]

-- How a body `x` that ran in a transaction ends.
abbrev IsEnd : {A : Type 0} → Result ServiceErr A × Session → Result ServiceErr A × Session → Type 0
IsEnd x (ok a, t) = (x.0 ≡ ok a) × (t.tables ≡ x.1.tables)
IsEnd x (err e, t) = t.tables ≡ x.1.saved

committed-IsEnd :
    {A : Type 0} (a : A) (s : Session) (c : Bool × Session)
    → ((c ≡ (true, record s { faults = later s.faults }))
        ⊎ (c ≡ (false, record s { faults = later s.faults; tables = s.saved })))
    → IsEnd (ok a, s) (committed postgres a c)
unfolding committed
committed-IsEnd a s c (inl done) =
    subst (λ x. IsEnd (ok a, s) (committed postgres a x)) (sym done) (refl, refl)
committed-IsEnd a s c (inr undone) =
    subst (λ x. IsEnd (ok a, s) (committed postgres a x)) (sym undone) refl

ended-IsEnd : {A : Type 0} (x : Result ServiceErr A × Session) → IsEnd x (ended postgres x)
unfolding ended postgres rollback
ended-IsEnd (ok a, s) = committed-IsEnd a s (commit s) (commit-cases s)
ended-IsEnd (err e, s) = refl

-- What a transaction that was answered so has done to the tables.
abbrev pub IsAtomic :
    {A : Type 0}
    → (Session → Result ServiceErr A × Session)
    → Session
    → Result ServiceErr A × Session
    → Type 0
IsAtomic fn s (ok a, t) = ((fn (opened s)).0 ≡ ok a) × (t.tables ≡ (fn (opened s)).1.tables)
IsAtomic fn s (err e, t) = t.tables ≡ s.tables

end-IsAtomic :
    {A : Type 0} (fn : Session → Result ServiceErr A × Session) (s : Session)
    (y : Result ServiceErr A × Session)
    → (fn (opened s)).1.saved ≡ s.tables
    → IsEnd (fn (opened s)) y
    → IsAtomic fn s y
end-IsAtomic fn s (ok a, t) kept e = e
end-IsAtomic fn s (err x, t) kept e = e ∙ kept

pub in_tx-IsAtomic :
    {A : Type 0} (fn : Session → Result ServiceErr A × Session) (s : Session)
    → (fn (opened s)).1.saved ≡ s.tables
    → IsAtomic fn s (in_tx postgres fn s)
unfolding in_tx begun postgres
in_tx-IsAtomic fn s kept = elim (begin-cases s) [
  | inl done ↦
      rw done
        (end-IsAtomic fn s (ended postgres (fn (opened s))) kept (ended-IsEnd (fn (opened s))))
  | inr failed ↦ rw failed refl
]
