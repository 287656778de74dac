-- ===== src/Gateway/Composite.antt =====
-- internal/runtime/composite.go of server/gateway-service, which the other two services have as it is:
-- `none` is a nil closer, and a closer's error is its text.
use go_folio.Prelude.{ℕ, ◌≡◌, refl, Option, none, some, List, [], ◌∷◌, ◌++◌, String}

abbrev pub Closer : Type 0 → Type 0
Closer W = W → Option String × W

unfoldable pub noted : Option String → List String
noted none = []
noted (some e) = e ∷ []

unfoldable pub close_one : {W : Type 0} → Option (Closer W) → W → Option String × W
close_one none w = (none, w)
close_one (some close) w = close w

-- The loop runs down from the last closer, so those behind a closer are closed before it.
unfoldable pub close_all : {W : Type 0} → List (Option (Closer W)) → W → List String × W
unfolding noted close_one
close_all [] w = ([], w)
close_all (c ∷ cs) w =
    let (errs, w1) = close_all cs w in let (e, w2) = close_one c w1 in (errs ++ noted e, w2)

-- A closer that writes down its number.
abbrev numbered : ℕ → Option String → Option (Closer (List ℕ))
numbered n e = some (λ log. (e, n ∷ log))

reversed :
    close_all (numbered 1 (some "a") ∷ none ∷ numbered 2 none ∷ numbered 3 (some "c") ∷ []) []
    ≡ ("c" ∷ "a" ∷ [], 1 ∷ 2 ∷ 3 ∷ [])
unfolding close_all
reversed = refl
