-- ===== src/Prelude/Text.antt =====
-- Texts that differ.
use Prim.Native.String.{String}
use mathlib.Core.Path.{◌≡◌}
use mathlib.Core.Logic.{◌≢◌, inl, inr}
use mathlib.Core.Bool.{false}
use text.Mathlib.Text.{◌==◌}
use text.Mathlib.TextEquality.{eq_iff}
use go_folio.Prelude.Tests.{Bool-cases}

pub ==_of_ne : (s t : String) → s ≢ t → (s == t) ≡ false
==_of_ne s t ne = elim (Bool-cases (s == t)) [
  | inl same ↦ absurd (ne ((eq_iff s t).0 same))
  | inr differs ↦ differs
]

pub ne_of_== : (s t : String) → (s == t) ≡ false → s ≢ t
ne_of_== s t e p = cc ((eq_iff s t).1 p)
