-- ===== src/Verify/Comparisons.antt =====
-- The comparisons of packages/claims/src/verify as equations: bytesEqual, addressesEqual, and the
-- tests of the guards.
use ar_io_solana_attestor.Prelude.{
  ℕ, zero, suc, ◌-◌, ◌≤◌, ◌≡◌, refl, [], ◌∷◌, Bool, true, false, not, ◌||◌, arith, Bool-cases, inl,
  inr, ◌==◌, length, ◌↔◌, ◌⊎◌, take, drop, ==_iff,
}
use ar_io_solana_attestor.Audit.{Bytes}
use ar_io_solana_attestor.Verify.Arweave.{differs, bytes_equal}
use ar_io_solana_attestor.Verify.Ethereum.{address_differs, addresses_equal, subarray}

differs-true : (a b : Bytes) → differs true a b ≡ true
unfolding differs
differs-true [] b = refl
differs-true (x ∷ a) [] = refl
differs-true (x ∷ a) (y ∷ b) = differs-true a b

differs_iff : (a b : Bytes) → length a ≡ length b → (differs false a b ≡ false) ↔ (a ≡ b)
unfolding differs
differs_iff [] [] e = ground arith
differs_iff [] (y ∷ b) e = absurd (omega arith)
differs_iff (x ∷ a) [] e = absurd (omega arith)
differs_iff (x ∷ a) (y ∷ b) e =
    ground (arith, differs-true a b, differs_iff a b (omega arith), ==_iff x y)

pub bytes_equal_iff : (a b : Bytes) → (bytes_equal a b ≡ true) ↔ (a ≡ b)
unfolding bytes_equal
bytes_equal_iff a b = elim (Bool-cases (length a == length b)) [
  | inl same ↦ ground (arith, differs_iff a b (ground arith))
  | inr other ↦ ground arith
]

address_differs_shift :
    (fuel i : ℕ) (diff : Bool) (x y : ℕ) (a b : Bytes)
    → address_differs fuel (suc i) diff (x ∷ a) (y ∷ b) ≡ address_differs fuel i diff a b
unfolding address_differs
address_differs_shift zero i diff x y a b = refl
address_differs_shift (suc fuel) i diff x y a b = address_differs_shift fuel (suc i) _ x y a b

address_differs-differs :
    (a b : Bytes) (diff : Bool)
    → length a ≡ length b
    → address_differs (length a) 0 diff a b ≡ differs diff a b
unfolding address_differs differs
address_differs-differs [] [] diff e = refl
address_differs-differs [] (y ∷ b) diff e = absurd (omega arith)
address_differs-differs (x ∷ a) [] diff e = absurd (omega arith)
address_differs-differs (x ∷ a) (y ∷ b) diff e = ground (
  arith,
  address_differs_shift (length a) 0 (diff || not (x == y)) x y a b,
  address_differs-differs a b (diff || not (x == y)) (omega arith),
)

pub addresses_equal_iff :
    (a b : Bytes) → length a ≡ 20 → length b ≡ 20 → (addresses_equal a b ≡ true) ↔ (a ≡ b)
unfolding addresses_equal
addresses_equal_iff a b e f =
    ground (arith, address_differs-differs a b false (omega arith), differs_iff a b (omega arith))

length-drop : (n : ℕ) (xs : Bytes) → length (drop n xs) ≡ length xs - n
length-drop zero xs = omega arith
length-drop (suc n) [] = omega arith
length-drop (suc n) (x ∷ xs) = omega (arith, length-drop n xs)

length-take : (n : ℕ) (xs : Bytes) → n ≤ length xs → length (take n xs) ≡ n
length-take zero xs h = refl
length-take (suc n) [] h = omega arith
length-take (suc n) (x ∷ xs) h = omega (arith, length-take n xs (omega arith))

pub length-subarray : (b : Bytes) → length b ≡ 32 → length (subarray 12 32 b) ≡ 20
length-subarray b e = length-take 20 (drop 12 b) (omega (arith, length-drop 12 b))

pub passed : (b : Bool) → not b ≡ false → b ≡ true
passed true e = refl
passed false e = cc

pub both_passed : (b c : Bool) → (not b || not c) ≡ false → (b ≡ true) × (c ≡ true)
both_passed true true e = (refl, refl)
both_passed true false e = cc
both_passed false c e = cc

pub same_number : (m n : ℕ) → not (m == n) ≡ false → m ≡ n
same_number m n e = (==_iff m n).0 (passed (m == n) e)

pub either_number : (n a b : ℕ) → not (n == a || n == b) ≡ false → (n ≡ a) ⊎ (n ≡ b)
either_number n a b e = ground arith
