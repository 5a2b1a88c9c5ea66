-- ===== src/Merkle.antt =====
-- packages/claims/src/transparency/merkle.ts: the Merkle commitment of the published ledger.
-- Bytes and texts are lists of numbers (byte values, UTF-16 code units). `sha256` is the
-- third-party hash function. A thrown error is `none`.
pub mod Hex
pub mod Roots
pub mod Proofs
pub mod Binding
pub mod Examples
use ar_io_solana_attestor.Prelude.{
  ℕ, zero, suc, ◌+◌, ◌-◌, ◌/◌, ◌%◌, Option, none, some, List, [], ◌∷◌, ◌++◌, Bool, true, length,
  get_elem?, replicate, ltb, ◌==◌, if◌then◌else◌,
}
use Hex.{Bytes, Text, to_hex, from_hex, to_lower_case, text_eq}

abbrev leaf_prefix : ℕ
leaf_prefix = 0x00

abbrev node_prefix : ℕ
node_prefix = 0x01

pub data ProofSide : Type 0 where
  left right : ProofSide

pub record ProofStep : Type 0 where
  pub hash_hex : Text
  pub side : ProofSide

-- `none` of an Option stands for a thrown error, so a step that may throw binds.
infixl 5 ◌>>=◌
abbrev pub ◌>>=◌ {ℓ κ} : {A : Type ℓ} {B : Type κ} → Option A → (A → Option B) → Option B
none >>= f = none
some a >>= f = f a

module _ (sha256 : Bytes → Bytes) where
  pub hash_leaf : Bytes → Bytes
  hash_leaf content = sha256 (leaf_prefix ∷ content)

  pub hash_node : Bytes → Bytes → Bytes
  hash_node l r = sha256 (node_prefix ∷ (l ++ r))

  -- One round of the loops: the nodes in pairs, an odd tail promoted unchanged.
  pub next_level : List Bytes → List Bytes
  next_level (a ∷ b ∷ rest) = hash_node a b ∷ next_level rest
  next_level (a ∷ []) = a ∷ []
  next_level [] = []

  -- `while (level.length > 1)`, on fuel; `none` when the fuel runs out.
  pub root_loop : ℕ → List Bytes → Option Bytes
  root_loop zero level = none
  root_loop (suc fuel) [] = none
  root_loop (suc fuel) (a ∷ []) = some a
  root_loop (suc fuel) (a ∷ b ∷ rest) = root_loop fuel (next_level (a ∷ b ∷ rest))

  pub merkle_root : List Bytes → Option Bytes
  merkle_root [] = some (replicate 32 0)
  merkle_root (a ∷ rest) = root_loop (length (a ∷ rest)) (a ∷ rest)

  -- The step of one level: the sibling if there is one, none for the promoted tail.
  pub sibling : List Bytes → ℕ → List ProofStep
  sibling level idx =
      if idx % 2 == 1
      then (elim (get_elem? level (idx - 1)) [
        | none ↦ []
        | some s ↦ record { hash_hex = to_hex s; side = left } ∷ []
      ])
      else (elim (get_elem? level (idx + 1)) [
        | none ↦ []
        | some s ↦ record { hash_hex = to_hex s; side = right } ∷ []
      ])

  pub proof_loop : ℕ → List Bytes → ℕ → Option (List ProofStep)
  proof_loop zero level idx = none
  proof_loop (suc fuel) [] idx = some []
  proof_loop (suc fuel) (a ∷ []) idx = some []
  proof_loop (suc fuel) (a ∷ b ∷ rest) idx =
      proof_loop fuel (next_level (a ∷ b ∷ rest)) (idx / 2) >>= λ later.
      some (sibling (a ∷ b ∷ rest) idx ++ later)

  pub merkle_proof : List Bytes → ℕ → Option (List ProofStep)
  merkle_proof leaf_hashes index =
      if ltb index (length leaf_hashes)
      then proof_loop (suc (length leaf_hashes)) leaf_hashes index
      else none

  pub fold_step : Bytes → ProofStep → Option Bytes
  fold_step acc step = from_hex step.hash_hex >>= λ sib.
      some (elim step.side [ left ↦ hash_node sib acc | right ↦ hash_node acc sib ])

  pub fold_proof : Bytes → List ProofStep → Option Bytes
  fold_proof acc [] = some acc
  fold_proof acc (step ∷ rest) = fold_step acc step >>= λ next. fold_proof next rest

  pub verify_merkle_proof : Bytes → List ProofStep → Text → Option Bool
  verify_merkle_proof leaf_hash proof root_hex =
      fold_proof leaf_hash proof >>= λ acc. some (text_eq (to_hex acc) (to_lower_case root_hex))
