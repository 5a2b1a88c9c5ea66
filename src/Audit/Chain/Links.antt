-- ===== src/Audit/Chain/Links.antt =====
-- verifyAuditChain accepts exactly the linked logs, and appendAudit keeps a log linked.
use mathlib.Core.Option.{get_or}
use ar_io_solana_attestor.Prelude.{
  ℕ, ◌≡◌, ◌↔◌, refl, Option, none, some, List, [], ◌∷◌, ◌++◌, Bool, true, ◌||◌, arith, Option-cases,
  inl, inr,
}
use ar_io_solana_attestor.Audit.{
  Bytes, zero32, Context, AuditEntry, AuditLog, AuditRow, last_hash, sign_entry, new_row,
  append_audit,
}
use ar_io_solana_attestor.Audit.Chain.{
  bytes_eq, is_placeholder, Scan, recomputed, signature_fine, scan_row, scan_rows, start,
  verify_audit_chain,
}

pub bytes_eq_iff : (a b : Bytes) → (bytes_eq a b ≡ true) ↔ (a ≡ b)
unfolding bytes_eq
bytes_eq_iff [] [] = ground arith
bytes_eq_iff [] (y ∷ b) = ground arith
bytes_eq_iff (x ∷ a) [] = ground arith
bytes_eq_iff (x ∷ a) (y ∷ b) = ground (arith, bytes_eq_iff a b)

module _ (ctx : Context) (verify_ed25519 : Bytes → Bytes → Bytes → Bool) where
  -- One row after a given hash: it names that hash, its own hash is that of its stored text (of its
  -- entry, where no text is stored), and a signature that is there verifies under the key.
  abbrev pub IsLink : Option Bytes → Bytes → AuditRow → Type 0
  IsLink key prev row =
      (row.prev_hash ≡ prev)
      × (recomputed ctx verify_ed25519 row ≡ row.entry_hash)
      × (signature_fine ctx verify_ed25519 key row ≡ true)

  abbrev pub IsChain : Option Bytes → Bytes → List AuditRow → Type 0
  IsChain key prev [] = Unit
  IsChain key prev (row ∷ rest) = IsLink key prev row × IsChain key row.entry_hash rest

  abbrev pub last_from : Bytes → List AuditRow → Bytes
  last_from prev [] = prev
  last_from prev (row ∷ rest) = last_from row.entry_hash rest

  -- The first bad row decides, whatever follows.
  scan_rows_bad :
      (key : Option Bytes) (s : Scan) (rows : List AuditRow) (seq : ℕ)
      → s.first_bad_seq ≡ some seq
      → (scan_rows ctx verify_ed25519 key s rows).first_bad_seq ≡ some seq
  unfolding scan_rows scan_row
  scan_rows_bad key s [] seq e = e
  scan_rows_bad key s (row ∷ rest) seq e =
      scan_rows_bad key (scan_row ctx verify_ed25519 key s row) rest seq (ground arith)

  scan_row_iff :
      (key : Option Bytes) (s : Scan) (row : AuditRow)
      → s.first_bad_seq ≡ none
      → ((scan_row ctx verify_ed25519 key s row).first_bad_seq ≡ none) ↔ IsLink key s.prev row
  unfolding scan_row
  scan_row_iff key s row e = ground (
    arith,
    bytes_eq_iff row.prev_hash s.prev,
    bytes_eq_iff (recomputed ctx verify_ed25519 row) row.entry_hash,
  )

  scan_rows_iff :
      (key : Option Bytes) (s : Scan) (rows : List AuditRow)
      → s.first_bad_seq ≡ none
      → ((scan_rows ctx verify_ed25519 key s rows).first_bad_seq ≡ none) ↔ IsChain key s.prev rows
  unfolding scan_rows scan_row
  scan_rows_iff key s [] e = ((λ _. tt), (λ _. e))
  scan_rows_iff key s (row ∷ rest) e =
      elim (Option-cases (scan_row ctx verify_ed25519 key s row).first_bad_seq) [
        | inl good ↦
            let (to, from) = scan_rows_iff key (scan_row ctx verify_ed25519 key s row) rest good in
            ((λ h. ((scan_row_iff key s row e).0 good, to h)), (λ h. from h.1))
        | inr (seq, bad) ↦ (
          (λ h. cc (scan_rows_bad key (scan_row ctx verify_ed25519 key s row) rest seq bad)),
          (λ h. cc ((scan_row_iff key s row e).1 h.0)),
        )
      ]

  -- verifyAuditChain reports ok exactly when the rows are a chain from the initial hash (32 zero
  -- bytes by default): each row names the hash of the row before it, carries the hash of its own
  -- text, and, if a key is given, is unsigned or signed validly.
  pub verify_audit_chain_iff :
      (rows : List AuditRow) (key initial : Option Bytes)
      → ((verify_audit_chain ctx verify_ed25519 rows
            (record { audit_pubkey = key; initial_prev_hash = initial })).ok
          ≡ true)
        ↔ IsChain key (get_or initial zero32) rows
  unfolding verify_audit_chain
  verify_audit_chain_iff rows key initial =
      ground (arith, scan_rows_iff key (start ctx verify_ed25519 initial) rows refl)

  IsChain-snoc :
      (key : Option Bytes) (prev : Bytes) (rows : List AuditRow) (row : AuditRow)
      → IsChain key prev rows
      → IsLink key (last_from prev rows) row
      → IsChain key prev (rows ++ row ∷ [])
  IsChain-snoc key prev [] row h l = (l, tt)
  IsChain-snoc key prev (r ∷ rest) row h l = (h.0, IsChain-snoc key r.entry_hash rest row h.1 l)

  last_hash-eq :
      (prev : Bytes) (r : AuditRow) (rest : List AuditRow)
      → last_hash ctx (r ∷ rest) ≡ last_from prev (r ∷ rest)
  unfolding last_hash
  last_hash-eq prev r [] = refl
  last_hash-eq prev r (s ∷ rest) = last_hash-eq r.entry_hash s rest

  last_hash-last_from : (rows : List AuditRow) → last_hash ctx rows ≡ last_from zero32 rows
  unfolding last_hash
  last_hash-last_from [] = refl
  last_hash-last_from (r ∷ rest) = last_hash-eq zero32 r rest

  signer_fine :
      (key hash : Bytes)
      → ((sign : Bytes → Bytes)
          → ctx.audit_signer ≡ some sign
          → verify_ed25519 hash (sign hash) key ≡ true)
      → is_placeholder (sign_entry ctx hash) || verify_ed25519 hash (sign_entry ctx hash) key ≡ true
  unfolding sign_entry is_placeholder bytes_eq
  signer_fine key hash signs = elim (Option-cases ctx.audit_signer) [
    | inl unset ↦ rw unset refl
    | inr (sign, registered) ↦ ground (arith, signs sign registered)
  ]

  new_row-IsLink :
      (log : AuditLog) (entry : AuditEntry) (key : Bytes)
      → ((hash : Bytes) (sign : Bytes → Bytes)
          → ctx.audit_signer ≡ some sign
          → verify_ed25519 hash (sign hash) key ≡ true)
      → IsLink (some key) (last_from zero32 log.rows) (new_row ctx log entry)
  unfolding new_row recomputed
  new_row-IsLink log entry key signs =
      (last_hash-last_from log.rows, refl, signer_fine key _ (signs _))

  -- A log that verifies from genesis under a key still does after appendAudit, whatever the entry,
  -- if a registered signer's signatures verify under that key.
  pub append_audit-verifies :
      (log : AuditLog) (entry : AuditEntry) (key : Bytes)
      → ((hash : Bytes) (sign : Bytes → Bytes)
          → ctx.audit_signer ≡ some sign
          → verify_ed25519 hash (sign hash) key ≡ true)
      → (verify_audit_chain ctx verify_ed25519 log.rows
          (record { audit_pubkey = some key; initial_prev_hash = none })).ok
        ≡ true
      → (verify_audit_chain ctx verify_ed25519
          (append_audit ctx log entry).rows
          (record { audit_pubkey = some key; initial_prev_hash = none })).ok
        ≡ true
  unfolding append_audit
  append_audit-verifies log entry key signs ok =
      (verify_audit_chain_iff (log.rows ++ new_row ctx log entry ∷ []) (some key) none).1 (
        IsChain-snoc (some key) zero32 log.rows (new_row ctx log entry)
          ((verify_audit_chain_iff log.rows (some key) none).0 ok)
          (new_row-IsLink log entry key signs))
