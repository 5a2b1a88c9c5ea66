-- ===== src/Verify/Canonical/Lines.antt =====
-- Lines and numerals of the canonical message can be read back.
use ar_io_solana_attestor.Prelude.{
  ℕ, zero, suc, ◌+◌, ◌*◌, ◌-◌, ◌/◌, ◌%◌, ◌<◌, ◌≡◌, ◌≢◌, refl, sym, ap, ◌∙◌, List, [], ◌∷◌, ◌++◌,
  arith, All, Bool-cases, inl, inr, ltb, length,
}
use ar_io_solana_attestor.Audit.{Bytes}
use ar_io_solana_attestor.Merkle.Hex.{IsBytes, to_hex, from_hex, from_hex-to_hex}
use ar_io_solana_attestor.Verify.Canonical.{digits_loop, digits, join_lines}

-- No unit of the text ends a line.
abbrev pub IsLine : Bytes → Type 0
IsLine = All (λ x. x ≢ 10)

pub append-inj_line :
    (a b r s : Bytes) → IsLine a → IsLine b → (a ++ 10 ∷ r) ≡ (b ++ 10 ∷ s) → (a ≡ b) × (r ≡ s)
append-inj_line [] [] r s h k e = ground arith
append-inj_line [] (y ∷ b) r s h k e = absurd (k.0 (ground arith))
append-inj_line (x ∷ a) [] r s h k e = absurd (h.0 (ground arith))
append-inj_line (x ∷ a) (y ∷ b) r s h k e = ground (arith, append-inj_line a b r s h.1 k.1)

-- Two blocks with as many lines and one text have the same lines.
pub join_lines-inj :
    (xs ys : List Bytes)
    → All IsLine xs
    → All IsLine ys
    → length xs ≡ length ys
    → join_lines xs ≡ join_lines ys
    → xs ≡ ys
unfolding join_lines
join_lines-inj [] [] h k l e = refl
join_lines-inj [] (y ∷ ys) h k l e = absurd (omega arith)
join_lines-inj (x ∷ xs) [] h k l e = absurd (omega arith)
join_lines-inj (x ∷ []) (y ∷ []) h k l e = ap (λ t. t ∷ []) e
join_lines-inj (x ∷ []) (y ∷ z ∷ ys) h k l e = absurd (omega arith)
join_lines-inj (x ∷ z ∷ xs) (y ∷ []) h k l e = absurd (omega arith)
join_lines-inj (x ∷ z ∷ xs) (y ∷ w ∷ ys) h k l e =
    let (first, later) =
      append-inj_line x y (join_lines (z ∷ xs)) (join_lines (w ∷ ys)) h.0 k.0 e in
    let rest = join_lines-inj (z ∷ xs) (w ∷ ys) h.1 k.1 (omega arith) later in cc (first, rest)

pub append-cancel_left : (p a b : Bytes) → (p ++ a) ≡ (p ++ b) → a ≡ b
append-cancel_left [] a b e = e
append-cancel_left (x ∷ p) a b e = append-cancel_left p a b (ground arith)

pub to_hex-IsLine : (b : Bytes) → IsLine (to_hex b)
unfolding to_hex
to_hex-IsLine [] = tt
to_hex-IsLine (x ∷ rest) = ground (arith, to_hex-IsLine rest)

pub to_hex-inj : (a b : Bytes) → IsBytes a → IsBytes b → to_hex a ≡ to_hex b → a ≡ b
to_hex-inj a b h k e = cc (from_hex-to_hex a h, ap from_hex e, from_hex-to_hex b k)

-- The number that a text of decimal digits continues.
read : ℕ → Bytes → ℕ
read a [] = a
read a (c ∷ rest) = read (a * 10 + (c - 48)) rest

read-digits_loop :
    (fuel n : ℕ) (acc : Bytes) → n < fuel → read 0 (digits_loop fuel n acc) ≡ read n acc
unfolding read digits_loop
read-digits_loop zero n acc h = absurd (omega arith)
read-digits_loop (suc fuel) n acc h = elim (Bool-cases (ltb n 10)) [
  | inl small ↦ ground arith
  | inr large ↦ ground (arith, read-digits_loop fuel (n / 10) ((48 + n % 10) ∷ acc) (ground arith))
]

pub digits-inj : (m n : ℕ) → digits m ≡ digits n → m ≡ n
unfolding digits read
digits-inj m n e =
    sym (read-digits_loop (suc m) m [] (omega arith))
    ∙ ap (read 0) e
    ∙ read-digits_loop (suc n) n [] (omega arith)

digits_loop-IsLine : (fuel n : ℕ) (acc : Bytes) → IsLine acc → IsLine (digits_loop fuel n acc)
unfolding digits_loop
digits_loop-IsLine zero n acc h = h
digits_loop-IsLine (suc fuel) n acc h =
    ground (arith, digits_loop-IsLine fuel (n / 10) ((48 + n % 10) ∷ acc) (omega arith, h))

pub digits-IsLine : (n : ℕ) → IsLine (digits n)
unfolding digits
digits-IsLine n = digits_loop-IsLine (suc n) n [] tt
