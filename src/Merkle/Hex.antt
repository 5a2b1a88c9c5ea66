-- ===== src/Merkle/Hex.antt =====
-- toHex and fromHex of packages/claims/src/transparency/merkle.ts, with what they use of JavaScript:
-- `Number.parseInt(s, 16)` at a text of two units, `toString(16)` and `padStart` at a byte, and
-- `toLowerCase` (on ASCII letters: no other unit is lowered to a hexadecimal digit).
use ar_io_solana_attestor.Prelude.{
  ℕ, ◌+◌, ◌-◌, ◌*◌, ◌/◌, ◌%◌, ◌<◌, ◌≡◌, refl, ◌↔◌, Option, none, some, List, [], ◌∷◌, Bool, true,
  false, ◌&&◌, ◌||◌, arith, Option-cases, Bool-cases, inl, inr, All, ltb, leb, ◌==◌, if◌then◌else◌,
}
use mathlib.Core.Path.{subst}

abbrev pub Bytes : Type 0
Bytes = List ℕ

abbrev pub Text : Type 0
Text = List ℕ

abbrev pub IsBytes : Bytes → Type 0
IsBytes b = All (λ x. x < 256) b

-- A digit of `toString(16)`.
abbrev hex_digit : ℕ → ℕ
hex_digit d = if ltb d 10 then 48 + d else 87 + d

unfoldable pub to_hex : Bytes → Text
to_hex [] = []
to_hex (x ∷ rest) =
    if ltb x 16
    then 48 ∷ hex_digit x ∷ to_hex rest
    else hex_digit (x / 16) ∷ hex_digit (x % 16) ∷ to_hex rest

-- The value of a hexadecimal digit of either case.
digit_value : ℕ → Option ℕ
digit_value c =
    if leb 48 c && leb c 57
    then some (c - 48)
    else if leb 97 c && leb c 102
    then some (c - 87)
    else if leb 65 c && leb c 70
    then some (c - 55)
    else none

-- White space that `parseInt` skips.
is_space : ℕ → Bool
is_space c =
    (leb 9 c && leb c 13)
    || c == 32
    || c == 160
    || c == 0x1680
    || (leb 0x2000 c && leb c 0x200a)
    || c == 0x2028
    || c == 0x2029
    || c == 0x202f
    || c == 0x205f
    || c == 0x3000
    || c == 0xfeff

-- `Number.parseInt` of the units c d in radix 16, as stored in a Uint8Array; `none` is NaN.
unfoldable pub parse_byte : ℕ → ℕ → Option ℕ
unfolding digit_value is_space
parse_byte c d = elim (digit_value c) [
  | some high ↦ elim (digit_value d) [
    | some low ↦ some (high * 16 + low)
    | none ↦ if c == 48 && (d == 120 || d == 88) then none else some high
  ]
  | none ↦
      if is_space c || c == 43
      then digit_value d
      else if c == 45
      then (elim (digit_value d) [ some low ↦ some ((256 - low) % 256) | none ↦ none ])
      else none
]

-- An odd length and a pair that is no number throw.
unfoldable pub from_hex : Text → Option Bytes
from_hex [] = some []
from_hex (c ∷ []) = none
from_hex (c ∷ d ∷ rest) = elim (parse_byte c d) [
  | none ↦ none
  | some byte ↦ elim (from_hex rest) [ none ↦ none | some bytes ↦ some (byte ∷ bytes) ]
]

abbrev lower_unit : ℕ → ℕ
lower_unit c = if leb 65 c && leb c 90 then c + 32 else c

unfoldable pub to_lower_case : Text → Text
to_lower_case [] = []
to_lower_case (c ∷ rest) = lower_unit c ∷ to_lower_case rest

unfoldable pub text_eq : Text → Text → Bool
text_eq [] [] = true
text_eq (c ∷ s) (d ∷ t) = c == d && text_eq s t
text_eq _ _ = false

pub text_eq_iff : (s t : Text) → (text_eq s t ≡ true) ↔ (s ≡ t)
unfolding text_eq
text_eq_iff [] [] = ground arith
text_eq_iff [] (d ∷ t) = ground arith
text_eq_iff (c ∷ s) [] = ground arith
text_eq_iff (c ∷ s) (d ∷ t) = ground (arith, text_eq_iff s t)

digit_value-hex_digit : (d : ℕ) → d < 16 → digit_value (hex_digit d) ≡ some d
unfolding digit_value
digit_value-hex_digit d h = ground arith

-- Every byte list survives encoding and decoding.
pub from_hex-to_hex : (b : Bytes) → IsBytes b → from_hex (to_hex b) ≡ some b
unfolding to_hex from_hex parse_byte
from_hex-to_hex [] h = refl
from_hex-to_hex (x ∷ rest) h = ground (
  arith,
  digit_value-hex_digit x,
  digit_value-hex_digit 0 (omega arith),
  digit_value-hex_digit (x / 16),
  digit_value-hex_digit (x % 16),
  from_hex-to_hex rest h.1,
)

lower_unit-hex_digit : (d : ℕ) → d < 16 → lower_unit (hex_digit d) ≡ hex_digit d
lower_unit-hex_digit d h = ground arith

pub to_lower_case-to_hex : (b : Bytes) → IsBytes b → to_lower_case (to_hex b) ≡ to_hex b
unfolding to_hex to_lower_case
to_lower_case-to_hex [] h = refl
to_lower_case-to_hex (x ∷ rest) h = ground (arith, to_lower_case-to_hex rest h.1)

digit_value-lt : (c d : ℕ) → digit_value c ≡ some d → d < 16
unfolding digit_value
digit_value-lt c d e = ground arith

parse_byte-lt : (c d byte : ℕ) → parse_byte c d ≡ some byte → byte < 256
unfolding parse_byte
parse_byte-lt c d byte e = elim (Option-cases (digit_value c)) [
  | inr (high, h) ↦ elim (Option-cases (digit_value d)) [
    | inr (low, l) ↦ ground (arith, digit_value-lt c high h, digit_value-lt d low l)
    | inl missing ↦ ground (arith, digit_value-lt c high h)
  ]
  | inl none_high ↦ elim (Option-cases (digit_value d)) [
    | inl missing ↦ ground arith
    | inr (low, l) ↦ elim (Bool-cases (is_space c || c == 43)) [
      | inl skipped ↦ ground (arith, digit_value-lt d low l)
      | inr kept ↦ ground (arith, digit_value-lt d low l)
    ]
  ]
]

-- What from_hex returns is bytes.
pub from_hex-IsBytes : (t : Text) (b : Bytes) → from_hex t ≡ some b → IsBytes b
unfolding from_hex
from_hex-IsBytes [] b e = ground arith
from_hex-IsBytes (c ∷ []) b e = cc
from_hex-IsBytes (c ∷ d ∷ rest) b e = elim (Option-cases (parse_byte c d)) [
  | inl bad ↦ absurd (ground arith)
  | inr (x, first) ↦ elim (Option-cases (from_hex rest)) [
    | inl bad ↦ absurd (ground arith)
    | inr (xs, later) ↦
        let at : (x ∷ xs) ≡ b = ground arith in
        subst IsBytes at (parse_byte-lt c d x first, from_hex-IsBytes rest xs later)
  ]
]
