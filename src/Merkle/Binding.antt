-- ===== src/Merkle/Binding.antt =====
-- What an accepted membership proof commits to: two openings of one root at one position are of the
-- same leaf, or they exhibit two inputs of sha256 with one digest.
use native.Mathlib.Decide.{ℕ_discrete}
use ar_io_solana_attestor.Prelude.{
  ◌≡◌, ◌≢◌, refl, ap, sym, some, List, [], ◌∷◌, ◌++◌, map, true, arith, length, length-append, ◌⊎◌,
  inl, inr, Option-cases, ◌∙◌,
}
use ar_io_solana_attestor.Merkle.Hex.{
  Bytes, Text, IsBytes, from_hex-to_hex, to_hex, from_hex, to_lower_case, text_eq_iff,
}
use ar_io_solana_attestor.Merkle.{
  ProofStep, ProofSide, left, right, hash_leaf, hash_node, fold_step, fold_proof,
  verify_merkle_proof,
}

Bytes-discrete : Discrete Bytes
Bytes-discrete = hlevel ℕ_discrete

append-inj_left : (a b r s : Bytes) → length a ≡ length b → (a ++ r) ≡ (b ++ s) → a ≡ b
append-inj_left [] [] r s l e = refl
append-inj_left [] (y ∷ b) r s l e = absurd (omega arith)
append-inj_left (x ∷ a) [] r s l e = absurd (omega arith)
append-inj_left (x ∷ a) (y ∷ b) r s l e = ground (arith, append-inj_left a b r s)

append-inj_right : (a b r s : Bytes) → length r ≡ length s → (a ++ r) ≡ (b ++ s) → r ≡ s
append-inj_right [] [] r s l e = e
append-inj_right [] (y ∷ b) r s l e = absurd (omega (arith, ap length e, length-append b s))
append-inj_right (x ∷ a) [] r s l e = absurd (omega (arith, ap length e, length-append a r))
append-inj_right (x ∷ a) (y ∷ b) r s l e = append-inj_right a b r s l (ground arith)

module _ (sha256 : Bytes → Bytes) where
  abbrev pub Collision : Type 0
  Collision = (x : Bytes) × (y : Bytes) × (x ≢ y) × (sha256 x ≡ sha256 y)

  same_input : (x y : Bytes) → sha256 x ≡ sha256 y → (x ≡ y) ⊎ Collision
  same_input x y e = elim (Bytes-discrete x y) [ yes p ↦ inl p | no n ↦ inr (x, y, n, e) ]

  -- A leaf hash is never the hash of an inner node, short of a collision.
  leaf_ne_node : (d l r : Bytes) → hash_leaf sha256 d ≡ hash_node sha256 l r → Collision
  unfolding hash_leaf hash_node
  leaf_ne_node d l r e = (0 ∷ d, 1 ∷ (l ++ r), (λ p. ground arith), e)

  abbrev node_of : ProofSide → Bytes → Bytes → Bytes
  node_of left sib acc = hash_node sha256 sib acc
  node_of right sib acc = hash_node sha256 acc sib

  leaf_ne_node_of :
      (d : Bytes) (side : ProofSide) (s a : Bytes)
      → hash_leaf sha256 d ≡ node_of side s a
      → Collision
  leaf_ne_node_of d left s a e = leaf_ne_node d s a e
  leaf_ne_node_of d right s a e = leaf_ne_node d a s e

  fold_step_inv :
      (acc next : Bytes) (step : ProofStep)
      → fold_step sha256 acc step ≡ some next
      → (sib : Bytes) × (node_of step.side sib acc ≡ next)
  unfolding fold_step
  fold_step_inv acc next step e = elim (Option-cases (from_hex step.hash_hex)) [
    | inl bad ↦ cc (rw bad at e)
    | inr (sib, good) ↦ (sib, ground (arith))
  ]

  node_of_inj :
      (side : ProofSide) (s t a b : Bytes)
      → length a ≡ length b
      → node_of side s a ≡ node_of side t b
      → (a ≡ b) ⊎ Collision
  unfolding hash_node
  node_of_inj left s t a b l e = elim (same_input (1 ∷ (s ++ a)) (1 ∷ (t ++ b)) e) [
    | inl p ↦ inl (append-inj_right s t a b l (ground arith))
    | inr c ↦ inr c
  ]
  node_of_inj right s t a b l e = elim (same_input (1 ∷ (a ++ s)) (1 ∷ (b ++ t)) e) [
    | inl p ↦ inl (append-inj_left a b s t l (ground arith))
    | inr c ↦ inr c
  ]

  -- A fold of one step more goes through the parent that the step makes.
  fold_proof_cons :
      (t : ProofStep) (p : List ProofStep) (a root : Bytes)
      → fold_proof sha256 a (t ∷ p) ≡ some root
      → (sib : Bytes) × (fold_proof sha256 (node_of t.side sib a) p ≡ some root)
  unfolding fold_proof
  fold_proof_cons t p a root e = elim (Option-cases (fold_step sha256 a t)) [
    | inl bad ↦ cc (rw bad at e)
    | inr (next, good) ↦
        let (sib, made) = fold_step_inv a next t good in (sib, rw made (rw good at e))
  ]

  abbrev pub sides : List ProofStep → List ProofSide
  sides = map (λ (s : ProofStep). s.side)

  module _ (sha256-length : (b : Bytes) → length (sha256 b) ≡ 32) where
    length-node_of : (side : ProofSide) (s a : Bytes) → length (node_of side s a) ≡ 32
    unfolding hash_node
    length-node_of left s a = sha256-length _
    length-node_of right s a = sha256-length _

    -- Two folds along the same sides to one root start from one node, or collide.
    fold_proof_inj :
        (p q : List ProofStep) (a b root : Bytes)
        → sides p ≡ sides q
        → length a ≡ length b
        → fold_proof sha256 a p ≡ some root
        → fold_proof sha256 b q ≡ some root
        → (a ≡ b) ⊎ Collision
    unfolding fold_proof
    fold_proof_inj [] [] a b root s l e f = inl (ground arith)
    fold_proof_inj [] (t ∷ q) a b root s l e f = cc
    fold_proof_inj (t ∷ p) [] a b root s l e f = cc
    fold_proof_inj (t ∷ p) (u ∷ q) a b root s l e f =
        let (x, e') = fold_proof_cons t p a root e in
        let (y, f') = fold_proof_cons u q b root f in
        let same : u.side ≡ t.side = ground arith in
        elim (fold_proof_inj p q (node_of t.side x a) (node_of t.side y b) root (ground arith)
          (length-node_of t.side x a ∙ sym (length-node_of t.side y b)) e' (rw same at f')) [
            | inl parents ↦ node_of_inj t.side x y a b l parents
            | inr c ↦ inr c
          ]

    -- Folding one step or more ends in an inner node, whatever the rest of the path.
    fold_proof_extended :
        (t : ProofSide) (extra : List ProofSide) (p q : List ProofStep) (d a root : Bytes)
        → sides q ≡ (t ∷ extra) ++ sides p
        → length a ≡ 32
        → fold_proof sha256 (hash_leaf sha256 d) p ≡ some root
        → fold_proof sha256 a q ≡ some root
        → Collision
    fold_proof_extended t extra p [] d a root s l e f = cc
    fold_proof_extended t [] p (u ∷ q) d a root s l e f =
        let (y, f') = fold_proof_cons u q a root f in
        elim (fold_proof_inj p q (hash_leaf sha256 d) (node_of u.side y a) root (ground arith)
          (unfold hash_leaf in sha256-length _ ∙ sym (length-node_of u.side y a)) e f') [
            | inl same ↦ leaf_ne_node_of d u.side y a same
            | inr c ↦ c
          ]
    fold_proof_extended t (v ∷ extra) p (u ∷ q) d a root s l e f =
        let (y, f') = fold_proof_cons u q a root f in
        fold_proof_extended v extra p q d (node_of u.side y a) root (ground arith)
          (length-node_of u.side y a) e f'

    accepted :
        (leaf : Bytes) (p : List ProofStep) (root_hex : Text)
        → verify_merkle_proof sha256 leaf p root_hex ≡ some true
        → (root : Bytes) × (fold_proof sha256 leaf p ≡ some root)
          × (to_hex root ≡ to_lower_case root_hex)
    unfolding verify_merkle_proof
    accepted leaf p root_hex e = elim (Option-cases (fold_proof sha256 leaf p)) [
      | inl bad ↦ cc (rw bad at e)
      | inr (root, good) ↦
          (root, good, ground (arith, text_eq_iff (to_hex root) (to_lower_case root_hex)))
    ]

    module _ (sha256-IsBytes : (b : Bytes) → IsBytes (sha256 b)) where
      fold_proof-IsBytes :
          (p : List ProofStep) (a root : Bytes)
          → IsBytes a
          → fold_proof sha256 a p ≡ some root
          → IsBytes root
      unfolding fold_proof
      fold_proof-IsBytes [] a root h e = ground arith
      fold_proof-IsBytes (t ∷ p) a root h e =
          let (x, e') = fold_proof_cons t p a root e in
          fold_proof-IsBytes p (node_of t.side x a) root (node_of-IsBytes t.side x a) e'
        where
          node_of-IsBytes : (side : ProofSide) (s b : Bytes) → IsBytes (node_of side s b)
          node_of-IsBytes left s b = unfold hash_node in sha256-IsBytes _
          node_of-IsBytes right s b = unfold hash_node in sha256-IsBytes _

      to_hex-inj : (a b : Bytes) → IsBytes a → IsBytes b → to_hex a ≡ to_hex b → a ≡ b
      to_hex-inj a b h k e = cc (from_hex-to_hex a h, ap from_hex e, from_hex-to_hex b k)

      -- If a root accepts an entry d by the proof p and an entry d' by the proof q, and the path of q
      -- is that of p with further steps (extra) below it, then either there are no further steps and
      -- the entries are equal, or the two proofs give two different inputs with one digest. The
      -- digests are assumed to be byte strings of length 32.
      pub verify_merkle_proof_binds :
          (d d' : Bytes) (p q : List ProofStep) (extra : List ProofSide) (root_hex : Text)
          → sides q ≡ extra ++ sides p
          → verify_merkle_proof sha256 (hash_leaf sha256 d) p root_hex ≡ some true
          → verify_merkle_proof sha256 (hash_leaf sha256 d') q root_hex ≡ some true
          → ((extra ≡ []) × (d ≡ d')) ⊎ Collision
      verify_merkle_proof_binds d d' p q extra root_hex s e f =
          let (root, folds, hex) = accepted (hash_leaf sha256 d) p root_hex e in
          let (root', folds', hex') = accepted (hash_leaf sha256 d') q root_hex f in
          let leaf-IsBytes : (c : Bytes) → IsBytes (hash_leaf sha256 c) =
            (λ c. unfold hash_leaf in sha256-IsBytes _) in
          let same : root ≡ root' =
            to_hex-inj root root' (fold_proof-IsBytes p _ root (leaf-IsBytes d) folds)
              (fold_proof-IsBytes q _ root' (leaf-IsBytes d') folds') (hex ∙ sym hex') in
          binds extra s folds (rw (← same) at folds')
        where
          binds :
              {root : Bytes} (extra : List ProofSide)
              → sides q ≡ extra ++ sides p
              → fold_proof sha256 (hash_leaf sha256 d) p ≡ some root
              → fold_proof sha256 (hash_leaf sha256 d') q ≡ some root
              → ((extra ≡ []) × (d ≡ d')) ⊎ Collision
          binds {root} [] s e f =
              elim (fold_proof_inj p q (hash_leaf sha256 d) (hash_leaf sha256 d') root (sym s)
                (unfold hash_leaf in sha256-length _ ∙ sym (sha256-length _)) e f) [
                  | inl same ↦ elim (same_input (0 ∷ d) (0 ∷ d') (unfold hash_leaf in same)) [
                    | inl p ↦ inl (refl, ground arith)
                    | inr c ↦ inr c
                  ]
                  | inr c ↦ inr c
                ]
          binds {root} (t ∷ extra) s e f = inr (
              fold_proof_extended t extra p q d (hash_leaf sha256 d') root s
                (unfold hash_leaf in sha256-length _) e f)
