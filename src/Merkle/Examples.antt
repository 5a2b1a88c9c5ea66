-- ===== src/Merkle/Examples.antt =====
-- The Merkle commitment at concrete leaves, over a stand-in for sha256.
use ar_io_solana_attestor.Prelude.{
  ℕ, zero, suc, ◌+◌, ◌%◌, ◌<◌, ◌≡◌, refl, some, List, [], ◌∷◌, true, arith, replicate,
}
use ar_io_solana_attestor.Merkle.Hex.{Bytes, IsBytes, to_hex, from_hex, from_hex-to_hex}
use ar_io_solana_attestor.Merkle.{ProofStep, merkle_proof, merkle_root, verify_merkle_proof}
use ar_io_solana_attestor.Merkle.Roots.{merkle_root_total}
use ar_io_solana_attestor.Merkle.Proofs.{verify_merkle_proof-merkle_proof}

mix : ℕ → Bytes → ℕ
mix acc [] = acc % 256
mix acc (x ∷ rest) = mix ((acc + acc + acc + x + 1) % 256) rest

mix-lt : (acc : ℕ) (b : Bytes) → mix acc b < 256
unfolding mix
mix-lt acc [] = omega arith
mix-lt acc (x ∷ rest) = mix-lt ((acc + acc + acc + x + 1) % 256) rest

toy : Bytes → Bytes
toy b = replicate 32 (mix 0 b)

replicate-IsBytes : (n x : ℕ) → x < 256 → IsBytes (replicate n x)
replicate-IsBytes zero x h = tt
replicate-IsBytes (suc n) x h = (h, replicate-IsBytes n x h)

toy-IsBytes : (b : Bytes) → IsBytes (toy b)
unfolding toy
toy-IsBytes b = replicate-IsBytes 32 (mix 0 b) (mix-lt 0 b)

abbrev entries : List Bytes
entries = (1 ∷ []) ∷ (2 ∷ []) ∷ (3 ∷ []) ∷ []

merkle_root_total_example : (root : Bytes) × (merkle_root toy entries ≡ some root)
merkle_root_total_example = merkle_root_total toy entries

verify_merkle_proof-merkle_proof_example :
    (proof : List ProofStep) × (root : Bytes) × (merkle_proof toy entries 2 ≡ some proof)
    × (merkle_root toy entries ≡ some root)
    × (verify_merkle_proof toy (3 ∷ []) proof (to_hex root) ≡ some true)
verify_merkle_proof-merkle_proof_example =
    verify_merkle_proof-merkle_proof toy toy-IsBytes entries 2 (3 ∷ []) (omega arith) refl

from_hex-to_hex_example : from_hex (to_hex (0 ∷ 171 ∷ 255 ∷ [])) ≡ some (0 ∷ 171 ∷ 255 ∷ [])
from_hex-to_hex_example =
    from_hex-to_hex (0 ∷ 171 ∷ 255 ∷ []) (omega arith, (omega arith, (omega arith, tt)))
