-- ===== src/Catalog/Store/Steps.antt =====
-- A session statement by statement: what a step that succeeds has done, and what every step keeps.
use go_folio.Prelude.{
  ◌≡◌, ◌≢◌, refl, sym, ap, ◌∙◌, ℕ, Option, none, some, Result, ok, err, Bool-cases, inl, inr,
}
use go_folio.Catalog.Service.{RepoErr}
use go_folio.Catalog.Db.{Db, Refusal}
use go_folio.Catalog.Store.{
  Session, Tx, statement, answered, query, or_missing, proceed, ◌>>=◌, fault_now, later, wrapped,
}

pub err-ne-ok : {A : Type 0} (e : RepoErr) (a : A) → err e ≢ ok a
err-ne-ok e a h = cc

answered-ok :
    {A : Type 0} (mapping : Refusal → RepoErr) (s : Session) (r : Result Refusal (A × Db)) (a : A)
    → (answered mapping s r).0 ≡ ok a
    → r ≡ ok (a, (answered mapping s r).1.tables)
unfolding answered
answered-ok mapping s (ok (b, db)) a e = let same : b ≡ a = cc in cc
answered-ok mapping s (err r) a e = absurd (cc)

-- A statement that succeeds ran on the tables and left its own.
pub statement-ok :
    {A : Type 0} (mapping : Refusal → RepoErr) (run : Db → Result Refusal (A × Db)) (s : Session)
    (a : A)
    → (statement mapping run s).0 ≡ ok a
    → run s.tables ≡ ok (a, (statement mapping run s).1.tables)
unfolding statement
statement-ok mapping run s a e = elim (Bool-cases (fault_now s.faults)) [
  | inl fault ↦ absurd (err-ne-ok _ a (rw fault at e))
  | inr fine ↦
      rw fine
        (answered-ok mapping (record s { faults = later s.faults }) (run s.tables) a (rw fine at e))
]

answered-keeps :
    {A : Type 0} (P : Db → Type 0) (mapping : Refusal → RepoErr) (s : Session)
    (r : Result Refusal (A × Db))
    → P s.tables
    → ((a : A) (db : Db) → r ≡ ok (a, db) → P db)
    → P (answered mapping s r).1.tables
unfolding answered
answered-keeps P mapping s (ok (b, db)) p f = f b db refl
answered-keeps P mapping s (err r) p f = p

pub statement-keeps :
    {A : Type 0} (P : Db → Type 0) (mapping : Refusal → RepoErr)
    (run : Db → Result Refusal (A × Db)) (s : Session)
    → P s.tables
    → ((a : A) (db : Db) → run s.tables ≡ ok (a, db) → P db)
    → P (statement mapping run s).1.tables
unfolding statement
statement-keeps P mapping run s p f = elim (Bool-cases (fault_now s.faults)) [
  | inl fault ↦ rw fault p
  | inr fine ↦
      rw fine (answered-keeps P mapping (record s { faults = later s.faults }) (run s.tables) p f)
]

-- What no statement changes: the snapshot and the clock.
abbrev pub frame : Session → Db × ℕ
frame s = (s.saved, s.now)

answered-frame :
    {A : Type 0} (mapping : Refusal → RepoErr) (s : Session) (r : Result Refusal (A × Db))
    → frame (answered mapping s r).1 ≡ frame s
unfolding answered
answered-frame mapping s (ok (b, db)) = refl
answered-frame mapping s (err r) = refl

statement-frame :
    {A : Type 0} (mapping : Refusal → RepoErr) (run : Db → Result Refusal (A × Db)) (s : Session)
    → frame (statement mapping run s).1 ≡ frame s
unfolding statement
statement-frame mapping run s = elim (Bool-cases (fault_now s.faults)) [
  | inl fault ↦ rw fault refl
  | inr fine ↦
      rw fine (answered-frame mapping (record s { faults = later s.faults }) (run s.tables))
]

pub statement-saved :
    {A : Type 0} (mapping : Refusal → RepoErr) (run : Db → Result Refusal (A × Db)) (s : Session)
    → (statement mapping run s).1.saved ≡ s.saved
statement-saved mapping run s = ap (λ x. x.0) (statement-frame mapping run s)

-- A SELECT leaves the tables, and answers what they hold.
pub query-tables : {A : Type 0} (read : Db → A) (s : Session) → (query read s).1.tables ≡ s.tables
unfolding query
query-tables read s =
    statement-keeps (λ db. db ≡ s.tables) wrapped (λ db. ok (read db, db)) s refl (λ a db e. cc)

pub query-ok :
    {A : Type 0} (read : Db → A) (s : Session) (a : A) → (query read s).0 ≡ ok a → a ≡ read s.tables
unfolding query
query-ok read s a e = let ran = statement-ok wrapped (λ db. ok (read db, db)) s a e in cc

-- Two steps that succeed: the first did, and the second from where it left.
pub proceed-ok :
    {A B : Type 0} (f : A → Tx B) (x : Result RepoErr A × Session) (b : B)
    → (proceed f x).0 ≡ ok b
    → (a : A) × (x.0 ≡ ok a) × (proceed f x ≡ f a x.1)
proceed-ok f (ok a, s) b e = (a, refl, refl)
proceed-ok f (err x, s) b e = cc

-- What the first step and then the second keep.
pub proceed-keeps :
    {A B : Type 0} (Q : Session → Type 0) (f : A → Tx B) (x : Result RepoErr A × Session)
    → Q x.1
    → ((a : A) (t : Session) → Q t → Q (f a t).1)
    → Q (proceed f x).1
proceed-keeps Q f (ok a, s) q g = g a s q
proceed-keeps Q f (err x, s) q g = q

pub or_missing-ok :
    {A : Type 0} (missing : RepoErr) (row : Option A) (s : Session) (a : A)
    → (or_missing missing row s).0 ≡ ok a
    → row ≡ some a
unfolding or_missing
or_missing-ok missing none s a e = absurd (cc)
or_missing-ok missing (some b) s a e = cc

pub or_missing-session :
    {A : Type 0} (missing : RepoErr) (row : Option A) (s : Session)
    → (or_missing missing row s).1 ≡ s
unfolding or_missing
or_missing-session missing none s = refl
or_missing-session missing (some a) s = refl

-- A row by a key: it is there, and the tables and the snapshot stay.
pub lookup-ok :
    {A : Type 0} (read : Db → Option A) (missing : RepoErr) (s : Session) (a : A)
    → ((query read >>= or_missing missing) s).0 ≡ ok a
    → read s.tables ≡ some a
lookup-ok read missing s a e =
    let (row, ran, rest) = proceed-ok (or_missing missing) (query read s) a e in
    let found = or_missing-ok missing row (query read s).1 a (ap (λ x. x.0) (sym rest) ∙ e) in
    sym (query-ok read s row ran) ∙ found

pub lookup-tables :
    {A : Type 0} (read : Db → Option A) (missing : RepoErr) (s : Session)
    → ((query read >>= or_missing missing) s).1.tables ≡ s.tables
lookup-tables read missing s =
    proceed-keeps (λ t. t.tables ≡ s.tables) (or_missing missing) (query read s)
      (query-tables read s)
      (λ a t q. ap (λ (u : Session). u.tables) (or_missing-session missing a t) ∙ q)

pub lookup-frame :
    {A : Type 0} (read : Db → Option A) (missing : RepoErr) (s : Session)
    → frame ((query read >>= or_missing missing) s).1 ≡ frame s
unfolding query
lookup-frame read missing s =
    proceed-keeps (λ t. frame t ≡ frame s) (or_missing missing) (query read s)
      (statement-frame wrapped (λ db. ok (read db, db)) s)
      (λ a t q. ap frame (or_missing-session missing a t) ∙ q)

pub lookup-saved :
    {A : Type 0} (read : Db → Option A) (missing : RepoErr) (s : Session)
    → ((query read >>= or_missing missing) s).1.saved ≡ s.saved
lookup-saved read missing s = ap (λ x. x.0) (lookup-frame read missing s)
