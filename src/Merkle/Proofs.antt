-- ===== src/Merkle/Proofs.antt =====
-- A membership proof made by merkle.ts verifies against the root that merkle.ts computes.
use ar_io_solana_attestor.Prelude.{
  ℕ, zero, suc, ◌+◌, ◌-◌, ◌/◌, ◌%◌, ◌≤◌, ◌<◌, ◌≡◌, refl, ap, some, List, [], ◌∷◌, ◌++◌, true, arith,
  length, All, get_elem?, lt→ltb, Option-cases, inl, inr, ◌∙◌,
}
use ar_io_solana_attestor.Merkle.Hex.{
  Bytes, IsBytes, to_hex, from_hex-to_hex, to_lower_case-to_hex, text_eq_iff,
}
use ar_io_solana_attestor.Merkle.{
  ProofStep, next_level, hash_node, root_loop, merkle_root, merkle_proof, proof_loop, sibling,
  fold_step, fold_proof, verify_merkle_proof,
}
use ar_io_solana_attestor.Merkle.Roots.{length-next_level, next_level-IsBytes, root_loop-IsBytes}

module _ (sha256 : Bytes → Bytes) (sha256-IsBytes : (b : Bytes) → IsBytes (sha256 b)) where
  sibling-shift :
      (a b : Bytes) (rest : List Bytes) (i : ℕ)
      → sibling sha256 (a ∷ b ∷ rest) (suc (suc i)) ≡ sibling sha256 rest i
  unfolding sibling
  sibling-shift a b rest zero = refl
  sibling-shift a b rest (suc i) =
      let odd : suc (suc (suc i)) % 2 ≡ suc i % 2 = omega arith in
      let same : suc (suc (suc i)) - 1 ≡ suc (suc i) = omega arith in
      let before : suc i - 1 ≡ i = omega arith in
      let up : suc (suc (suc i)) + 1 ≡ suc (suc (suc (suc i))) = omega arith in
      let after : suc i + 1 ≡ suc (suc i) = omega arith in rw (odd, same, before, up, after)

  -- One level: folding the sibling of a node gives its parent, at half the index.
  fold-sibling :
      (level : List Bytes) (i : ℕ) (node : Bytes)
      → All IsBytes level
      → get_elem? level i ≡ some node
      → (parent : Bytes) × (fold_proof sha256 node (sibling sha256 level i) ≡ some parent)
        × (get_elem? (next_level sha256 level) (i / 2) ≡ some parent)
  unfolding next_level sibling fold_proof fold_step
  fold-sibling [] i node h e = cc
  fold-sibling (a ∷ []) zero node h e = (a, ground (arith), refl)
  fold-sibling (a ∷ []) (suc i) node h e = cc
  fold-sibling (a ∷ b ∷ rest) zero node h e =
      (hash_node sha256 a b, ground (arith, from_hex-to_hex b h.1.0), refl)
  fold-sibling (a ∷ b ∷ rest) (suc zero) node h e =
      (hash_node sha256 a b, ground (arith, from_hex-to_hex a h.0), refl)
  fold-sibling (a ∷ b ∷ rest) (suc (suc i)) node h e =
      let (parent, folded, found) = fold-sibling rest i node h.1.1 e in
      (
        parent,
        rw (sibling-shift a b rest i) folded,
        let half : suc (suc i) / 2 ≡ suc (i / 2) = omega arith in rw half found,
      )

  fold_proof-append :
      (p q : List ProofStep) (acc next : Bytes)
      → fold_proof sha256 acc p ≡ some next
      → fold_proof sha256 acc (p ++ q) ≡ fold_proof sha256 next q
  unfolding fold_proof
  fold_proof-append [] q acc next e = ground arith
  fold_proof-append (step ∷ p) q acc next e = elim (Option-cases (fold_step sha256 acc step)) [
    | inl stuck ↦ cc (rw (stuck, fold_proof) at e)
    | inr (b, stepped) ↦
        rw (stepped, fold_proof) (fold_proof-append p q b next (rw (stepped, fold_proof) at e))
  ]

  -- The loops agree: within their fuels there is a proof, and it folds to the root.
  proof_loop-root_loop :
      (fuel fuel' : ℕ) (level : List Bytes) (i : ℕ) (node : Bytes)
      → length level ≤ fuel
      → length level ≤ fuel'
      → All IsBytes level
      → get_elem? level i ≡ some node
      → (proof : List ProofStep) × (root : Bytes) × (proof_loop sha256 fuel level i ≡ some proof)
        × (root_loop sha256 fuel' level ≡ some root)
        × (fold_proof sha256 node proof ≡ some root)
  unfolding proof_loop root_loop
  proof_loop-root_loop zero fuel' [] i node len len' h e = cc
  proof_loop-root_loop zero fuel' (a ∷ rest) i node len len' h e = absurd (omega arith)
  proof_loop-root_loop (suc fuel) zero [] i node len len' h e = cc
  proof_loop-root_loop (suc fuel) zero (a ∷ rest) i node len len' h e = absurd (omega arith)
  proof_loop-root_loop (suc fuel) (suc fuel') [] i node len len' h e = cc
  proof_loop-root_loop (suc fuel) (suc fuel') (a ∷ []) zero node len len' h e =
      ([], a, refl, refl, unfold fold_proof in ground arith)
  proof_loop-root_loop (suc fuel) (suc fuel') (a ∷ []) (suc i) node len len' h e = cc
  proof_loop-root_loop (suc fuel) (suc fuel') (a ∷ b ∷ rest) i node len len' h e =
      let level = a ∷ b ∷ rest in
      let shorter = length-next_level sha256 level in
      let (parent, folded, found) = fold-sibling level i node h e in
      let (later, root, proved, rooted, climbs) =
        proof_loop-root_loop fuel fuel' (next_level sha256 level) (i / 2) parent (omega arith)
          (omega arith) (next_level-IsBytes sha256 sha256-IsBytes level h) found in
      (
        sibling sha256 level i ++ later,
        root,
        rw proved refl,
        rooted,
        fold_proof-append (sibling sha256 level i) later node parent folded ∙ climbs,
      )

  get_elem?-lt :
      (level : List Bytes) (i : ℕ) (node : Bytes) → get_elem? level i ≡ some node → i < length level
  get_elem?-lt [] i node e = cc
  get_elem?-lt (a ∷ rest) zero node e = omega arith
  get_elem?-lt (a ∷ rest) (suc i) node e = omega (arith, get_elem?-lt rest i node e)

  -- For every leaf of a list of byte strings, merkle_proof at its index and merkle_root both
  -- return, and verify_merkle_proof accepts that proof for that leaf against the root in hex. The
  -- hash function is assumed to return byte strings.
  pub verify_merkle_proof-merkle_proof :
      (leaves : List Bytes) (index : ℕ) (leaf : Bytes)
      → All IsBytes leaves
      → get_elem? leaves index ≡ some leaf
      → (proof : List ProofStep) × (root : Bytes) × (merkle_proof sha256 leaves index ≡ some proof)
        × (merkle_root sha256 leaves ≡ some root)
        × (verify_merkle_proof sha256 leaf proof (to_hex root) ≡ some true)
  unfolding merkle_proof merkle_root verify_merkle_proof
  verify_merkle_proof-merkle_proof [] index leaf h e = cc
  verify_merkle_proof-merkle_proof (a ∷ rest) index leaf h e =
      let leaves = a ∷ rest in
      let (proof, root, proved, rooted, climbs) =
        proof_loop-root_loop (suc (length leaves)) (length leaves) leaves index leaf (omega arith)
          (omega arith) h e in
      let bytes = root_loop-IsBytes sha256 sha256-IsBytes (length leaves) leaves root h rooted in
      (
        proof,
        root,
        rw (lt→ltb index (length leaves) (get_elem?-lt leaves index leaf e)) proved,
        rooted,
        rw (climbs, to_lower_case-to_hex root bytes)
            (ap some ((text_eq_iff (to_hex root) (to_hex root)).1 refl)),
      )
