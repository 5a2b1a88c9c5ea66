-- ===== src/Audit/Chain.antt =====
-- packages/claims/src/transparency/audit-chain.ts: verification of the audit log's hash chain, and
-- the check that a log extends an anchored head. `verify_ed25519` is third-party code. A message of
-- `issues` is a constructor with what the message names; sequence numbers are numbers.
pub mod Links
pub mod Tamper
use mathlib.Core.Option.{get_or}
use ar_io_solana_attestor.Prelude.{
  ℕ, zero, suc, ◌+◌, ◌≡◌, Option, none, some, List, [], ◌∷◌, ◌++◌, Bool, true, false, not, ◌&&◌,
  ◌||◌, length, leb, ◌==◌, if◌then◌else◌,
}
use ar_io_solana_attestor.Audit.{
  Bytes, zero32, unsigned_placeholder, Context, AuditRow, hash_canonical, compute_entry_hash,
}

pub data Issue : Type 0 where
  prev_hash_broken entry_hash_mismatch signature_invalid : ℕ → Issue

pub record ChainHead : Type 0 where
  pub seq : ℕ
  pub entry_hash : Bytes

pub record ChainVerification : Type 0 where
  pub ok : Bool
  pub count : ℕ
  pub signed_count : ℕ
  pub signature_valid_count : ℕ
  pub head : Option ChainHead
  pub first_bad_seq : Option ℕ
  pub issues : List Issue

pub record VerifyChainOptions : Type 0 where
  pub audit_pubkey : Option Bytes
  pub initial_prev_hash : Option Bytes

-- `Buffer.equals`
unfoldable pub bytes_eq : Bytes → Bytes → Bool
bytes_eq [] [] = true
bytes_eq (x ∷ a) (y ∷ b) = x == y && bytes_eq a b
bytes_eq _ _ = false

unfoldable pub is_placeholder : Bytes → Bool
unfolding bytes_eq
is_placeholder sig = bytes_eq sig unsigned_placeholder

-- The variables of the loop.
pub record Scan : Type 0 where
  pub prev : Bytes
  pub signed_count : ℕ
  pub signature_valid_count : ℕ
  pub first_bad_seq : Option ℕ
  pub head : Option ChainHead
  pub issues : List Issue

abbrev pub is_some {ℓ} : {A : Type ℓ} → Option A → Bool
is_some none = false
is_some (some a) = true

module _ (ctx : Context) (verify_ed25519 : Bytes → Bytes → Bytes → Bool) where
  unfoldable pub recomputed : AuditRow → Bytes
  recomputed row = elim row.entry_canonical [
    | some text ↦ hash_canonical ctx row.prev_hash text
    | none ↦ compute_entry_hash ctx row.prev_hash row.entry
  ]

  abbrev pub links : Bytes → AuditRow → Bool
  links prev row = bytes_eq row.prev_hash prev

  abbrev pub hashes : AuditRow → Bool
  hashes row = bytes_eq (recomputed row) row.entry_hash

  -- A signature that is there and is checked is valid.
  abbrev pub signature_fine : Option Bytes → AuditRow → Bool
  signature_fine none row = true
  signature_fine (some key) row =
      is_placeholder row.signature || verify_ed25519 row.entry_hash row.signature key

  abbrev when_not : Bool → Issue → List Issue
  when_not b issue = if b then [] else issue ∷ []

  -- One round of the loop of verifyAuditChain.
  unfoldable pub scan_row : Option Bytes → Scan → AuditRow → Scan
  scan_row key s row =
      let linked = links s.prev row in
      let hashed = hashes row in
      let signed = not (is_placeholder row.signature) in
      let fine = signature_fine key row in
      record {
        prev = row.entry_hash;
        signed_count = if signed then s.signed_count + 1 else s.signed_count;
        signature_valid_count =
            if signed && is_some key && fine
            then s.signature_valid_count + 1
            else s.signature_valid_count;
        first_bad_seq = elim s.first_bad_seq [
          | some seq ↦ some seq
          | none ↦ if linked && hashed && fine then none else some row.seq
        ];
        head = some (record { seq = row.seq; entry_hash = row.entry_hash });
        issues =
            s.issues
            ++ (when_not linked (prev_hash_broken row.seq)
                ++ (when_not hashed (entry_hash_mismatch row.seq)
                    ++ when_not fine (signature_invalid row.seq)));
      }

  unfoldable pub scan_rows : Option Bytes → Scan → List AuditRow → Scan
  scan_rows key s [] = s
  scan_rows key s (row ∷ rest) = scan_rows key (scan_row key s row) rest

  abbrev start : Option Bytes → Scan
  start initial = record {
    prev = get_or initial zero32;
    signed_count = 0;
    signature_valid_count = 0;
    first_bad_seq = none;
    head = none;
    issues = [];
  }

  unfoldable pub verify_audit_chain : List AuditRow → VerifyChainOptions → ChainVerification
  verify_audit_chain rows opts =
      let s = scan_rows opts.audit_pubkey (start opts.initial_prev_hash) rows in
      record {
        ok = not (is_some s.first_bad_seq);
        count = length rows;
        signed_count = s.signed_count;
        signature_valid_count = s.signature_valid_count;
        head = s.head;
        first_bad_seq = s.first_bad_seq;
        issues = s.issues;
      }

  pub record ExtendsCheck : Type 0 where
    pub ok : Bool
    pub chain_ok : Bool
    pub anchored_seq_found : Bool
    pub hash_matches : Bool

  unfoldable pub rows_up_to : ℕ → List AuditRow → List AuditRow
  rows_up_to anchored_seq [] = []
  rows_up_to anchored_seq (row ∷ rest) =
      let kept = rows_up_to anchored_seq rest in
      if leb row.seq anchored_seq then row ∷ kept else kept

  unfoldable pub find_seq : ℕ → List AuditRow → Option AuditRow
  find_seq anchored_seq [] = none
  find_seq anchored_seq (row ∷ rest) =
      if row.seq == anchored_seq then some row else find_seq anchored_seq rest

  -- The anchored hash is compared as bytes, where the code compares the hexadecimal texts.
  unfoldable pub check_extends_anchor :
      List AuditRow → ℕ → Bytes → VerifyChainOptions → ExtendsCheck
  check_extends_anchor rows anchored_seq anchored_hash opts =
      let up_to = rows_up_to anchored_seq rows in
      let chain = verify_audit_chain up_to opts in
      let row = find_seq anchored_seq up_to in
      let matches : Bool = elim row [
        | none ↦ false
        | some r ↦ bytes_eq r.entry_hash anchored_hash
      ] in
      record {
        ok = chain.ok && is_some row && matches;
        chain_ok = chain.ok;
        anchored_seq_found = is_some row;
        hash_matches = matches;
      }
