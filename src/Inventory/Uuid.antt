-- ===== src/Inventory/Uuid.antt =====
-- `NewID` of internal/repository/repository.go: a random UUID v4 from 16 bytes.
pub mod Laws
use Prim.Native.Nat.{bit_and, bit_or}
use Prim.Native.String
use go_folio.Prelude.{ℕ, ◌/◌, ◌%◌, List, [], ◌∷◌, String, set, get_or, take, drop}

-- The version in the high half of byte 6, the variant in the top two bits of byte 8.
unfoldable pub stamp : List ℕ → List ℕ
stamp b =
    let b' = set b 6 (bit_or (bit_and (get_or b 6 0) 0x0f) 0x40) in
    set b' 8 (bit_or (bit_and (get_or b' 8 0) 0x3f) 0x80)

abbrev hex_digits : List String
hex_digits =
    "0" ∷ "1" ∷ "2" ∷ "3" ∷ "4" ∷ "5" ∷ "6" ∷ "7" ∷ "8" ∷ "9" ∷ "a" ∷ "b" ∷ "c" ∷ "d" ∷ "e" ∷ "f"
    ∷ []

unfoldable pub hex_digit : ℕ → String
hex_digit d = get_or hex_digits d "0"

-- `%x` of a byte slice
unfoldable pub hex : List ℕ → String
unfolding hex_digit
hex [] = ""
hex (b ∷ bs) = String.◌++◌ (hex_digit (b / 16)) (String.◌++◌ (hex_digit (b % 16)) (hex bs))

abbrev pub join : String → String → String
join s t = String.◌++◌ s (String.◌++◌ "-" t)

-- b[0:4], b[4:6], b[6:8], b[8:10] and b[10:], joined by dashes
unfoldable pub format_id : List ℕ → String
unfolding hex
format_id b = join (hex (take 4 b)) (
    join (hex (take 2 (drop 4 b)))
      (join (hex (take 2 (drop 6 b))) (join (hex (take 2 (drop 8 b))) (hex (drop 10 b)))))
