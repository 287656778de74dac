-- ===== src/Inventory/Uuid/Laws.antt =====
-- Every id is a UUID of version 4 and of the RFC's variant.
use Prim.Native.String
use text.Mathlib.TextLemmas
use Prim.Native.Nat.{bit_and, bit_or}
use go_folio.Prelude.{
  ◌≡◌, ◌∷◌, [], ℕ, eqb, ◌+◌, List, ◌<◌, Bool, ◌%◌, true, suc, eqb_iff, refl, ltb, arith, zero,
  String, ap, All, ◌∙◌, ◌/◌, if◌then◌else◌, false, sym, ◌==◌, eq_iff,
}
use go_folio.Inventory.Uuid.{stamp, format_id, hex_digit, hex, join}

-- A test passes on the numbers below `top`; `passes-at` reads one of them off.
passes : (ℕ → Bool) → ℕ → Bool
passes test zero = true
passes test (suc top) = if test top then passes test top else false

passes-at : (test : ℕ → Bool) (top k : ℕ) → k < top → passes test top ≡ true → test k ≡ true
unfolding passes
passes-at test zero k small all = absurd (omega arith)
passes-at test (suc top) k small all = ground (arith, passes-at test top k)

-- Both masks, tried on each byte.
is_version : ℕ → Bool
is_version x = eqb (bit_or (bit_and x 0x0f) 0x40) (0x40 + x % 16)

is_variant : ℕ → Bool
is_variant x = eqb (bit_or (bit_and x 0x3f) 0x80) (0x80 + x % 64)

version_byte : (x : ℕ) → x < 256 → bit_or (bit_and x 0x0f) 0x40 ≡ 0x40 + x % 16
unfolding passes is_version
version_byte x h = (eqb_iff _ _).0 (passes-at is_version 256 x h refl)

variant_byte : (x : ℕ) → x < 256 → bit_or (bit_and x 0x3f) 0x80 ≡ 0x80 + x % 64
unfolding passes is_variant
variant_byte x h = (eqb_iff _ _).0 (passes-at is_variant 256 x h refl)

-- The sixteen bytes of `rand.Read`.
abbrev pub bytes16 : (b0 b1 b2 b3 b4 b5 b6 b7 b8 b9 b10 b11 b12 b13 b14 b15 : ℕ) → List ℕ
bytes16 b0 b1 b2 b3 b4 b5 b6 b7 b8 b9 b10 b11 b12 b13 b14 b15 =
    b0 ∷ b1 ∷ b2 ∷ b3 ∷ b4 ∷ b5 ∷ b6 ∷ b7 ∷ b8 ∷ b9 ∷ b10 ∷ b11 ∷ b12 ∷ b13 ∷ b14 ∷ b15 ∷ []

abbrev pub IsByte : ℕ → Type 0
IsByte b = b < 256

abbrev pub are_bytes : List ℕ → Bool
are_bytes [] = true
are_bytes (b ∷ bs) = if ltb b 256 then are_bytes bs else false

pub are_bytes-All : (bs : List ℕ) → are_bytes bs ≡ true → All IsByte bs
are_bytes-All [] e = tt
are_bytes-All (b ∷ bs) e = ground (arith, are_bytes-All bs)

stamp-bytes16 :
    (b0 b1 b2 b3 b4 b5 b6 b7 b8 b9 b10 b11 b12 b13 b14 b15 : ℕ)
    → b6 < 256
    → b8 < 256
    → stamp (bytes16 b0 b1 b2 b3 b4 b5 b6 b7 b8 b9 b10 b11 b12 b13 b14 b15)
      ≡ bytes16 b0 b1 b2 b3 b4 b5 (0x40 + b6 % 16) b7 (0x80 + b8 % 64) b9 b10 b11 b12 b13 b14 b15
unfolding stamp
stamp-bytes16 b0 b1 b2 b3 b4 b5 b6 b7 b8 b9 b10 b11 b12 b13 b14 b15 h6 h8 =
    rw (version_byte b6 h6, variant_byte b8 h8) refl

-- The character at a place of a text.
abbrev pub char_at : ℕ → String → String
char_at n String.[] = ""
char_at zero (String.◌∷◌ c s) = String.◌∷◌ c String.[]
char_at (suc n) (String.◌∷◌ c s) = char_at n s

-- The lower-case hexadecimal digit of a number below 16.
abbrev pub digit : ℕ → String
digit d = char_at d "0123456789abcdef"

is_digit : ℕ → Bool
is_digit d = hex_digit d == digit d

hex_digit-digit : (d : ℕ) → d < 16 → hex_digit d ≡ digit d
unfolding passes is_digit hex_digit
hex_digit-digit d h = (eq_iff (hex_digit d) (digit d)).0 (passes-at is_digit 16 d h refl)

-- Texts one behind the other.
abbrev pub concat : List String → String
concat [] = ""
concat (t ∷ ts) = String.◌++◌ t (concat ts)

-- A byte as its two digits, the high one first.
abbrev pub two : ℕ → List String → List String
two b ts = digit (b / 16) ∷ digit (b % 16) ∷ ts

abbrev pub twos : List ℕ → List String → List String
twos [] ts = ts
twos (b ∷ bs) ts = two b (twos bs ts)

hex-twos :
    (bs : List ℕ) (ts : List String)
    → All IsByte bs
    → String.◌++◌ (hex bs) (concat ts) ≡ concat (twos bs ts)
unfolding hex
hex-twos [] ts h = TextLemmas.nil-append (concat ts)
hex-twos (b ∷ bs) ts h =
    let high = hex_digit (b / 16) in
    let low = hex_digit (b % 16) in
    TextLemmas.append_assoc high (String.◌++◌ low (hex bs)) (concat ts)
    ∙ ap (String.◌++◌ high) (
        TextLemmas.append_assoc low (hex bs) (concat ts)
        ∙ ap (String.◌++◌ low) (hex-twos bs ts h.1))
    ∙ ap (λ d. String.◌++◌ d (String.◌++◌ low (concat (twos bs ts))))
        (hex_digit-digit (b / 16) (let small : b < 256 = h.0 in omega arith))
    ∙ ap (λ d. String.◌++◌ (digit (b / 16)) (String.◌++◌ d (concat (twos bs ts))))
        (hex_digit-digit (b % 16) (omega arith))

join-twos :
    (bs : List ℕ) (t : String) (ts : List String)
    → All IsByte bs
    → t ≡ concat ts
    → join (hex bs) t ≡ concat (twos bs ("-" ∷ ts))
join-twos bs t ts h e =
    ap (λ u. String.◌++◌ (hex bs) (String.◌++◌ "-" u)) e ∙ hex-twos bs ("-" ∷ ts) h

format_id-bytes16 :
    (b0 b1 b2 b3 b4 b5 b6 b7 b8 b9 b10 b11 b12 b13 b14 b15 : ℕ)
    → All IsByte (bytes16 b0 b1 b2 b3 b4 b5 b6 b7 b8 b9 b10 b11 b12 b13 b14 b15)
    → format_id (bytes16 b0 b1 b2 b3 b4 b5 b6 b7 b8 b9 b10 b11 b12 b13 b14 b15)
      ≡ concat (
          twos (b0 ∷ b1 ∷ b2 ∷ b3 ∷ []) (
            "-"
            ∷ twos (b4 ∷ b5 ∷ []) (
                "-"
                ∷ twos (b6 ∷ b7 ∷ []) (
                    "-"
                    ∷ twos
                        (b8 ∷ b9 ∷ [])
                        ("-" ∷ twos (b10 ∷ b11 ∷ b12 ∷ b13 ∷ b14 ∷ b15 ∷ []) [])))))
unfolding format_id
format_id-bytes16 b0 b1 b2 b3 b4 b5 b6 b7 b8 b9 b10 b11 b12 b13 b14 b15
      (h0, (h1, (h2, (h3, (h4, (h5, (h6, (h7, (h8, (h9, rest)))))))))) =
    let last = b10 ∷ b11 ∷ b12 ∷ b13 ∷ b14 ∷ b15 ∷ [] in
    let from8 = twos (b8 ∷ b9 ∷ []) ("-" ∷ twos last []) in
    let from6 = twos (b6 ∷ b7 ∷ []) ("-" ∷ from8) in
    let from4 = twos (b4 ∷ b5 ∷ []) ("-" ∷ from6) in
    let end : hex last ≡ concat (twos last []) =
      sym (TextLemmas.append-nil (hex last)) ∙ hex-twos last [] rest in
    let e8 = join-twos (b8 ∷ b9 ∷ []) (hex last) (twos last []) (h8, (h9, tt)) end in
    let e6 = join-twos (b6 ∷ b7 ∷ []) _ from8 (h6, (h7, tt)) e8 in
    let e4 = join-twos (b4 ∷ b5 ∷ []) _ from6 (h4, (h5, tt)) e6 in
    join-twos (b0 ∷ b1 ∷ b2 ∷ b3 ∷ []) _ from4 (h0, (h1, (h2, (h3, tt)))) e4

-- Of 16 random bytes the id is the lower-case hexadecimal text, each byte as two digits with the high
-- one first, in groups of 4, 2, 2, 2 and 6 bytes with a dash between; but the first digit of byte 6
-- is the version 4, and the first of byte 8 is 8 and the two lower bits of its half: the variant.
pub format_id-stamp :
    (b0 b1 b2 b3 b4 b5 b6 b7 b8 b9 b10 b11 b12 b13 b14 b15 : ℕ)
    → All IsByte (bytes16 b0 b1 b2 b3 b4 b5 b6 b7 b8 b9 b10 b11 b12 b13 b14 b15)
    → format_id (stamp (bytes16 b0 b1 b2 b3 b4 b5 b6 b7 b8 b9 b10 b11 b12 b13 b14 b15))
      ≡ concat (
          twos (b0 ∷ b1 ∷ b2 ∷ b3 ∷ []) (
            "-"
            ∷ twos (b4 ∷ b5 ∷ []) (
                "-"
                ∷ "4"
                ∷ digit (b6 % 16)
                ∷ two b7 (
                    "-"
                    ∷ digit (8 + b8 / 16 % 4)
                    ∷ digit (b8 % 16)
                    ∷ two b9 ("-" ∷ twos (b10 ∷ b11 ∷ b12 ∷ b13 ∷ b14 ∷ b15 ∷ []) [])))))
format_id-stamp b0 b1 b2 b3 b4 b5 b6 b7 b8 b9 b10 b11 b12 b13 b14 b15
      (h0, (h1, (h2, (h3, (h4, (h5, (h6, (h7, (h8, (h9, rest)))))))))) =
    let six = 0x40 + b6 % 16 in
    let eight = 0x80 + b8 % 64 in
    let version : six / 16 ≡ 4 = omega arith in
    let low6 : six % 16 ≡ b6 % 16 = omega arith in
    let variant : eight / 16 ≡ 8 + b8 / 16 % 4 = omega arith in
    let low8 : eight % 16 ≡ b8 % 16 = omega arith in
    ap format_id (stamp-bytes16 b0 b1 b2 b3 b4 b5 b6 b7 b8 b9 b10 b11 b12 b13 b14 b15 h6 h8)
    ∙ format_id-bytes16 b0 b1 b2 b3 b4 b5 six b7 eight b9 b10 b11 b12 b13 b14 b15
        (h0, (h1, (h2, (h3, (h4, (h5, (omega arith, (h7, (omega arith, (h9, rest))))))))))
    ∙ rw (version, low6, variant, low8) refl
