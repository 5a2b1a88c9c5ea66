-- ===== src/Audit.antt =====
-- packages/claims/src/api/audit.ts: the append-only audit log with its hash chain.
-- sha256, the UTF-8 encoder and the Ed25519 signer are not code of the repository: a context carries
-- them, with the clock readings that a transaction makes. The advisory lock of the append is that a
-- transaction is one step of the model.
pub mod Canonical
pub mod Chain
use ar_io_solana_attestor.Prelude.{
  ℕ, zero, suc, ◌+◌, String, Option, none, some, List, [], ◌∷◌, ◌++◌, Bool, true, false, replicate,
}
use Canonical.{Json, string, number, object, Fields, end, field, undefined_field, canonical_json}

abbrev pub Bytes : Type 0
Bytes = List ℕ

abbrev pub zero32 : Bytes
zero32 = replicate 32 0

abbrev pub unsigned_placeholder : Bytes
unsigned_placeholder = replicate 64 0

-- What a transaction takes from its surroundings: `now` is the clock in milliseconds, `iso` its ISO
-- form, `audit_signer` the registered signer.
pub record Context : Type 0 where
  pub sha256 : Bytes → Bytes
  pub utf8 : String → Bytes
  pub audit_signer : Option (Bytes → Bytes)
  pub now : ℕ
  pub iso : ℕ → String

pub record AuditEntry : Type 0 where
  pub event : String
  pub claim_id : Option String
  pub asset_key : Option String
  pub claimant : Option String
  pub recipient_id : Option String
  pub protocol : Option ℕ
  pub status : Option String
  pub reason : Option String
  pub detail : Option Fields

pub record AuditRow : Type 0 where
  pub seq : ℕ
  pub prev_hash : Bytes
  pub entry : Json
  pub entry_canonical : Option String
  pub entry_hash : Bytes
  pub signature : Bytes

-- The table and its sequence; rows in the order of `seq`.
pub record AuditLog : Type 0 where
  pub rows : List AuditRow
  pub next_seq : ℕ

abbrev optional {ℓ} : {A : Type ℓ} → String → (A → Json) → Option A → Fields → Fields
optional key f none rest = undefined_field key rest
optional key f (some a) rest = field key (f a) rest

-- `{ ts, ...entry }`
unfoldable pub entry_json : String → AuditEntry → Json
entry_json ts e = object (
    field "ts" (string ts) (
      field "event" (string e.event) (
        optional "claimId" string e.claim_id (
          optional "assetKey" string e.asset_key (
            optional "claimant" string e.claimant (
              optional "recipientId" string e.recipient_id (
                optional "protocol" number e.protocol (
                  optional "status" string e.status (
                    optional "reason" string e.reason
                      (optional "detail" object e.detail end))))))))))

module _ (ctx : Context) where
  unfoldable pub hash_canonical : Bytes → String → Bytes
  hash_canonical prev_hash json = ctx.sha256 (prev_hash ++ ctx.utf8 json)

  unfoldable pub compute_entry_hash : Bytes → Json → Bytes
  unfolding hash_canonical
  compute_entry_hash prev_hash entry = hash_canonical prev_hash (canonical_json entry)

  -- `ORDER BY seq DESC LIMIT 1`, and the genesis hash of an empty log.
  unfoldable pub last_hash : List AuditRow → Bytes
  last_hash [] = zero32
  last_hash (row ∷ []) = row.entry_hash
  last_hash (row ∷ rest) = last_hash rest

  unfoldable pub sign_entry : Bytes → Bytes
  sign_entry entry_hash = elim ctx.audit_signer [
    | none ↦ unsigned_placeholder
    | some sign ↦ sign entry_hash
  ]

  unfoldable pub new_row : AuditLog → AuditEntry → AuditRow
  unfolding hash_canonical last_hash sign_entry entry_json
  new_row log entry =
      let prev_hash = last_hash log.rows in
      let json = entry_json (ctx.iso ctx.now) entry in
      let text = canonical_json json in
      let entry_hash = hash_canonical prev_hash text in
      record {
        seq = log.next_seq;
        prev_hash = prev_hash;
        entry = json;
        entry_canonical = some text;
        entry_hash = entry_hash;
        signature = sign_entry entry_hash;
      }

  unfoldable pub append_audit : AuditLog → AuditEntry → AuditLog
  unfolding new_row
  append_audit log entry = record {
    rows = log.rows ++ new_row log entry ∷ [];
    next_seq = suc log.next_seq;
  }
