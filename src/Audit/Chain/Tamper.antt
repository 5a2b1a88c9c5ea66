-- ===== src/Audit/Chain/Tamper.antt =====
-- Tamper evidence: the head of a verified log fixes the whole log, short of a sha256 collision.
use native.Mathlib.Decide.{ℕ_discrete}
use ar_io_solana_attestor.Prelude.{
  ◌≡◌, ◌≢◌, refl, sym, ap, Option, none, some, List, [], ◌∷◌, ◌++◌, Bool, true, arith, Option-cases,
  inl, inr, ◌⊎◌, length, ◌∙◌,
}
use ar_io_solana_attestor.Audit.{
  Bytes, zero32, Context, AuditRow, hash_canonical, compute_entry_hash,
}
use ar_io_solana_attestor.Audit.Canonical.{canonical_json}
use ar_io_solana_attestor.Audit.Chain.{
  Scan, ChainHead, ChainVerification, recomputed, scan_row, scan_rows, verify_audit_chain, start,
}
use ar_io_solana_attestor.Audit.Chain.Links.{IsChain, last_from, verify_audit_chain_iff}

Bytes-discrete : Discrete Bytes
Bytes-discrete = hlevel ℕ_discrete

append-inj : (a b r s : Bytes) → length a ≡ length b → (a ++ r) ≡ (b ++ s) → (a ≡ b) × (r ≡ s)
append-inj [] [] r s l e = (refl, e)
append-inj [] (y ∷ b) r s l e = absurd (omega arith)
append-inj (x ∷ a) [] r s l e = absurd (omega arith)
append-inj (x ∷ a) (y ∷ b) r s l e = ground (arith, append-inj a b r s)

module _ (ctx : Context) (verify_ed25519 : Bytes → Bytes → Bytes → Bool) where
  -- The bytes of a row that its hash covers, besides the hash before it.
  abbrev pub content : AuditRow → Bytes
  content row = elim row.entry_canonical [
    | some text ↦ ctx.utf8 text
    | none ↦ ctx.utf8 (canonical_json row.entry)
  ]

  -- The rows agree, one by one, on the content and on both hashes.
  abbrev pub SameRows : List AuditRow → List AuditRow → Type 0
  SameRows [] [] = Unit
  SameRows (r ∷ rows) (s ∷ rows') =
      ((content r ≡ content s) × (r.prev_hash ≡ s.prev_hash) × (r.entry_hash ≡ s.entry_hash))
      × SameRows rows rows'
  SameRows _ _ = ⊥

  -- What the verification hashes at a row.
  abbrev pub hashed : AuditRow → Bytes
  hashed row = row.prev_hash ++ content row

  -- At some position the verifications of the two logs hash different bytes to one digest.
  abbrev pub Collision : List AuditRow → List AuditRow → Type 0
  Collision (r ∷ rows) (s ∷ rows') =
      ((hashed r ≢ hashed s) × (ctx.sha256 (hashed r) ≡ ctx.sha256 (hashed s)))
      ⊎ Collision rows rows'
  Collision _ _ = ⊥

  recomputed_lem :
      (row : AuditRow)
      → recomputed ctx verify_ed25519 row ≡ ctx.sha256 (row.prev_hash ++ content row)
  unfolding recomputed hash_canonical compute_entry_hash
  recomputed_lem row = elim (Option-cases row.entry_canonical) [
    | inl legacy ↦ rw legacy refl
    | inr (text, stored) ↦ rw stored refl
  ]

  same_hash :
      (p q c d : Bytes)
      → length p ≡ length q
      → ctx.sha256 (p ++ c) ≡ ctx.sha256 (q ++ d)
      → ((p ≡ q) × (c ≡ d)) ⊎ (((p ++ c) ≢ (q ++ d)) × (ctx.sha256 (p ++ c) ≡ ctx.sha256 (q ++ d)))
  same_hash p q c d l e = elim (Bytes-discrete (p ++ c) (q ++ d)) [
    | yes same ↦ inl (append-inj p q c d l same)
    | no differ ↦ inr (differ, e)
  ]

  module _ (sha256-length : (b : Bytes) → length (ctx.sha256 b) ≡ 32) where
    length-entry_hash :
        (key : Option Bytes) (prev : Bytes) (r : AuditRow) (rest : List AuditRow)
        → IsChain ctx verify_ed25519 key prev (r ∷ rest)
        → length r.entry_hash ≡ 32
    length-entry_hash key prev r rest h = rw (← h.0.1, recomputed_lem r) (sha256-length _)

    same_rows :
        (key : Option Bytes) (rows rows' : List AuditRow) (p q : Bytes)
        → length rows ≡ length rows'
        → length p ≡ length q
        → IsChain ctx verify_ed25519 key p rows
        → IsChain ctx verify_ed25519 key q rows'
        → last_from ctx verify_ed25519 p rows ≡ last_from ctx verify_ed25519 q rows'
        → ((p ≡ q) × SameRows rows rows') ⊎ Collision rows rows'
    same_rows key [] [] p q n l h k e = inl (e, tt)
    same_rows key [] (s ∷ rows') p q n l h k e = absurd (omega arith)
    same_rows key (r ∷ rows) [] p q n l h k e = absurd (omega arith)
    same_rows key (r ∷ rows) (s ∷ rows') p q n l h k e =
        elim (same_rows key rows rows' r.entry_hash s.entry_hash (omega arith)
          (length-entry_hash key p r rows h ∙ sym (length-entry_hash key q s rows' k)) h.1 k.1 e) [
            | inr c ↦ inr (inr c)
            | inl (hash, same) ↦
                elim (same_hash r.prev_hash s.prev_hash (content r) (content s)
                  (ap length h.0.0 ∙ l ∙ sym (ap length k.0.0))
                  (cc (h.0.1, k.0.1, hash, recomputed_lem r, recomputed_lem s))) [
                    | inr c ↦ inr (inl c)
                    | inl (prev, contents) ↦
                        inl (sym h.0.0 ∙ prev ∙ k.0.0, ((contents, prev, hash), same))
                  ]
          ]

    abbrev HeadIsPrev : Scan → Type 0
    HeadIsPrev s = (h : ChainHead) → s.head ≡ some h → h.entry_hash ≡ s.prev

    scan_rows-head :
        (key : Option Bytes) (rows : List AuditRow) (s : Scan)
        → HeadIsPrev s
        → HeadIsPrev (scan_rows ctx verify_ed25519 key s rows)
          × ((scan_rows ctx verify_ed25519 key s rows).prev
              ≡ last_from ctx verify_ed25519 s.prev rows)
    unfolding scan_rows scan_row
    scan_rows-head key [] s h = (h, refl)
    scan_rows-head key (row ∷ rest) s h =
        scan_rows-head key rest (scan_row ctx verify_ed25519 key s row) (λ h e. ground arith)

    -- The report on a log from genesis.
    abbrev pub report_of : Option Bytes → List AuditRow → ChainVerification
    report_of key rows =
        verify_audit_chain ctx verify_ed25519 rows
          (record { audit_pubkey = key; initial_prev_hash = none })

    -- Two logs that both verify from genesis, have as many rows and report heads with one entry hash
    -- agree row by row on the hashed content and on both hashes, unless at some position the two
    -- verifications hash different bytes to one digest. Digests are assumed to have 32 bytes.
    pub verify_audit_chain_binds :
        (rows rows' : List AuditRow) (key : Option Bytes) (head head' : ChainHead)
        → (report_of key rows).ok ≡ true
        → (report_of key rows').ok ≡ true
        → (report_of key rows).count ≡ (report_of key rows').count
        → (report_of key rows).head ≡ some head
        → (report_of key rows').head ≡ some head'
        → head.entry_hash ≡ head'.entry_hash
        → SameRows rows rows' ⊎ Collision rows rows'
    unfolding verify_audit_chain
    verify_audit_chain_binds rows rows' key head head' ok ok' count e e' same =
        let (at, last) = scan_rows-head key rows (start ctx verify_ed25519 none) (λ h e. cc) in
        let (at', last') = scan_rows-head key rows' (start ctx verify_ed25519 none) (λ h e. cc) in
        elim (same_rows key rows rows' zero32 zero32 count refl
          ((verify_audit_chain_iff ctx verify_ed25519 rows key none).0 ok)
          ((verify_audit_chain_iff ctx verify_ed25519 rows' key none).0 ok')
          (cc (at head e, at' head' e', last, last', same))) [
            | inl found ↦ inl found.1
            | inr c ↦ inr c
          ]
