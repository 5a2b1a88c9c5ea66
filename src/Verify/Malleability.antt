-- ===== src/Verify/Malleability.antt =====
-- The low-S rule of packages/claims/src/verify/ethereum.ts as a statement on numbers.
use ar_io_solana_attestor.Prelude.{
  ℕ, ◌+◌, ◌*◌, ◌<◌, ◌≤◌, ◌≡◌, refl, ◌∙◌, [], ◌∷◌, Bool, true, false, not, arith, Bool-cases, inl,
  inr, ltb, leb, length, ◌↔◌,
}
use mathlib.Core.Path.{subst}
use ar_io_solana_attestor.Audit.{Bytes}
use ar_io_solana_attestor.Merkle.Hex.{IsBytes}
use ar_io_solana_attestor.Verify.Ethereum.{s_low_loop, is_s_low, secp256k1_n_half}

-- The number that big-endian bytes continue.
unfoldable pub big_endian : ℕ → Bytes → ℕ
big_endian a [] = a
big_endian a (x ∷ rest) = big_endian (a * 256 + x) rest

-- The order of the group of secp256k1.
abbrev pub secp256k1_n : ℕ
secp256k1_n = 115792089237316195423570985008687907852837564279074904382605163141518161494337

less_continues :
    (a b : ℕ) (s t : Bytes)
    → IsBytes s
    → length s ≡ length t
    → a < b
    → big_endian a s < big_endian b t
unfolding big_endian
less_continues a b [] [] h e l = l
less_continues a b [] (y ∷ t) h e l = absurd (omega arith)
less_continues a b (x ∷ s) [] h e l = absurd (omega arith)
less_continues a b (x ∷ s) (y ∷ t) h e l =
    less_continues (a * 256 + x) (b * 256 + y) s t h.1 (omega arith) (omega (arith, h.0))

decided : (answer : Bool) (s t : Bytes) → s_low_loop true answer s t ≡ answer
unfolding s_low_loop
decided answer [] t = refl
decided answer (x ∷ s) [] = refl
decided answer (x ∷ s) (y ∷ t) = decided answer s t

same_continues :
    (x : ℕ) (s t : Bytes) → s_low_loop false true (x ∷ s) (x ∷ t) ≡ s_low_loop false true s t
unfolding s_low_loop
same_continues x s t = ground arith

not_apart : (x y : ℕ) → ltb x y ≡ false → ltb y x ≡ false → x ≡ y
not_apart x y h k = ground arith

loop_leb :
    (a : ℕ) (s t : Bytes)
    → IsBytes s
    → IsBytes t
    → length s ≡ length t
    → s_low_loop false true s t ≡ leb (big_endian a s) (big_endian a t)
unfolding s_low_loop big_endian
loop_leb a [] [] h k e = ground arith
loop_leb a [] (y ∷ t) h k e = absurd (omega arith)
loop_leb a (x ∷ s) [] h k e = absurd (omega arith)
loop_leb a (x ∷ s) (y ∷ t) h k e = elim (Bool-cases (ltb x y)) [
  | inl less ↦
      let below = less_continues (a * 256 + x) (a * 256 + y) s t h.1 (omega arith) (ground arith) in
      ground (arith, decided true s t)
  | inr more ↦ elim (Bool-cases (ltb y x)) [
    | inl less ↦
        let below =
          less_continues (a * 256 + y) (a * 256 + x) t s k.1 (omega arith) (ground arith) in
        ground (arith, decided false s t)
    | inr same ↦
        subst
          (λ z.
            s_low_loop false true (x ∷ s) (z ∷ t)
            ≡ leb (big_endian (a * 256 + x) s) (big_endian (a * 256 + z) t))
          (not_apart x y more same)
          (same_continues x s t ∙ loop_leb (a * 256 + x) s t h.1 k.1 (omega arith))
  ]
]

n_half-IsBytes : IsBytes secp256k1_n_half
n_half-IsBytes = ground arith

twice_half : 2 * big_endian 0 secp256k1_n_half + 1 ≡ secp256k1_n
unfolding big_endian
twice_half = refl

-- For 32 bytes, the comparison accepts exactly the numbers up to half of the order, rounded down.
pub is_s_low_iff :
    (s : Bytes)
    → IsBytes s
    → length s ≡ 32
    → (is_s_low s ≡ true) ↔ (2 * big_endian 0 s + 1 ≤ secp256k1_n)
unfolding is_s_low
is_s_low_iff s h e = ground (arith, loop_leb 0 s secp256k1_n_half h n_half-IsBytes e, twice_half)

-- Of the two signatures (r, s) and (r, n - s) that verify together, exactly one passes the low-S test.
is_s_low-twin :
    (s t : Bytes)
    → IsBytes s
    → IsBytes t
    → length s ≡ 32
    → length t ≡ 32
    → big_endian 0 s + big_endian 0 t ≡ secp256k1_n
    → is_s_low s ≡ not (is_s_low t)
is_s_low-twin s t h k e f sum = ground (arith, is_s_low_iff s h e, is_s_low_iff t k f)
