-- ===== src/Merkle/Roots.antt =====
-- The loops of merkle.ts end: the fuel given is enough, and a level of n nodes makes (n + 1) / 2.
use ar_io_solana_attestor.Prelude.{
  ℕ, zero, suc, ◌+◌, ◌/◌, ◌≤◌, ◌≡◌, refl, some, List, [], ◌∷◌, arith, length, All, replicate,
}
use ar_io_solana_attestor.Merkle.Hex.{Bytes, IsBytes}
use ar_io_solana_attestor.Merkle.{next_level, hash_node, root_loop, merkle_root}

module _ (sha256 : Bytes → Bytes) where
  pub length-next_level :
      (level : List Bytes) → length (next_level sha256 level) ≡ (length level + 1) / 2
  unfolding next_level
  length-next_level [] = omega arith
  length-next_level (a ∷ []) = omega arith
  length-next_level (a ∷ b ∷ rest) = omega (arith, length-next_level rest)

  pub root_loop_total :
      (fuel : ℕ) (a : Bytes) (rest : List Bytes)
      → length (a ∷ rest) ≤ fuel
      → (root : Bytes) × (root_loop sha256 fuel (a ∷ rest) ≡ some root)
  unfolding root_loop next_level
  root_loop_total zero a rest h = absurd (omega arith)
  root_loop_total (suc fuel) a [] h = (a, refl)
  root_loop_total (suc fuel) a (b ∷ rest) h =
      root_loop_total fuel (hash_node sha256 a b) (next_level sha256 rest)
        (omega (arith, length-next_level rest))

  -- The root loop ends for every list of leaves within its fuel: there is always a root.
  pub merkle_root_total :
      (leaves : List Bytes) → (root : Bytes) × (merkle_root sha256 leaves ≡ some root)
  unfolding merkle_root
  merkle_root_total [] = (replicate 32 0, refl)
  merkle_root_total (a ∷ rest) = root_loop_total (length (a ∷ rest)) a rest (omega arith)

  module _ (sha256-IsBytes : (b : Bytes) → IsBytes (sha256 b)) where
    pub next_level-IsBytes :
        (level : List Bytes) → All IsBytes level → All IsBytes (next_level sha256 level)
    unfolding next_level hash_node
    next_level-IsBytes [] h = tt
    next_level-IsBytes (a ∷ []) h = h
    next_level-IsBytes (a ∷ b ∷ rest) h = (sha256-IsBytes _, next_level-IsBytes rest h.1.1)

    pub root_loop-IsBytes :
        (fuel : ℕ) (level : List Bytes) (root : Bytes)
        → All IsBytes level
        → root_loop sha256 fuel level ≡ some root
        → IsBytes root
    unfolding root_loop
    root_loop-IsBytes zero level root h e = cc
    root_loop-IsBytes (suc fuel) [] root h e = cc
    root_loop-IsBytes (suc fuel) (a ∷ []) root h e = ground (arith)
    root_loop-IsBytes (suc fuel) (a ∷ b ∷ rest) root h e =
        root_loop-IsBytes fuel (next_level sha256 (a ∷ b ∷ rest)) root
          (next_level-IsBytes (a ∷ b ∷ rest) h) e
