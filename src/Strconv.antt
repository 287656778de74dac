-- ===== src/Strconv.antt =====
-- The decimal conversions of Go's strconv that the services call: `ParseInt(s, 10, 64)`, which is
-- `Atoi` on a 64-bit machine, and `FormatInt(n, 10)`.
use Prim.Native.Char.{code}
use Prim.Native.String
use go_folio.Prelude.{
  ℕ, ◌+◌, ◌-◌, ◌*◌, ◌/◌, ◌%◌, ℤ, pos, negsuc, leb, ltb, eqb, ◌&&◌, Option, none, some, String,
  get_or, List, [], ◌∷◌, zero, suc, if◌then◌else◌, ◌≡◌, Bool, refl,
}

is_digit : ℕ → Bool
is_digit c = leb b'0' c && leb c b'9'

-- The value of a text of digits, behind the digits read.
unfoldable pub digits_from : ℕ → String → Option ℕ
unfolding is_digit
digits_from acc String.[] = some acc
digits_from acc (String.◌∷◌ c s) =
    let rest = digits_from (acc * 10 + (code c - b'0')) s in
    if is_digit (code c) then rest else none

unfoldable pub unsigned : String → Option ℕ
unfolding digits_from
unsigned String.[] = none
unsigned (String.◌∷◌ c s) = digits_from 0 (String.◌∷◌ c s)

abbrev pub max_int64 : ℕ
max_int64 = 9223372036854775807

unfoldable pub non_negative : Option ℕ → Option ℤ
non_negative none = none
non_negative (some n) = if leb n max_int64 then some (pos n) else none

unfoldable pub negated : Option ℕ → Option ℤ
negated none = none
negated (some zero) = some (pos 0)
negated (some (suc n)) = if leb n max_int64 then some (negsuc n) else none

-- A sign, then digits; out of the range of int64 is an error.
unfoldable pub parse_int64 : String → Option ℤ
unfolding unsigned non_negative negated
parse_int64 String.[] = none
parse_int64 (String.◌∷◌ c s) =
    if eqb (code c) b'-'
    then negated (unsigned s)
    else if eqb (code c) b'+'
    then non_negative (unsigned s)
    else non_negative (unsigned (String.◌∷◌ c s))

abbrev digit_texts : List String
digit_texts = "0" ∷ "1" ∷ "2" ∷ "3" ∷ "4" ∷ "5" ∷ "6" ∷ "7" ∷ "8" ∷ "9" ∷ []

abbrev digit_text : ℕ → String
digit_text d = get_or digit_texts d "0"

-- Twenty digits are enough for 64 bits.
decimal : ℕ → ℕ → String
decimal zero n = ""
decimal (suc fuel) n =
    let more = decimal fuel (n / 10) in
    let last = digit_text (n % 10) in if ltb n 10 then last else String.◌++◌ more last

unfoldable pub format_int : ℤ → String
unfolding decimal
format_int (pos n) = decimal 20 n
format_int (negsuc n) = String.◌++◌ "-" (decimal 20 (suc n))

parse_tests :
    (parse_int64 "42" ≡ some (pos 42))
    × (parse_int64 "-7" ≡ some (negsuc 6))
    × (parse_int64 "4x" ≡ none)
    × (parse_int64 "" ≡ none)
    × (parse_int64 "9223372036854775808" ≡ none)
    × (format_int (pos 120) ≡ "120")
unfolding parse_int64 format_int
parse_tests = (refl, refl, refl, refl, refl, refl)
