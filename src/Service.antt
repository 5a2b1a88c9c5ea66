-- ===== src/Service.antt =====
-- packages/claims/src/api/service.ts and errors.ts: what the operations of the claims service share.
-- A transaction is one step: it commits a database or rolls back. Buffer's base64 forms are a
-- parameter, as are the tables of de-listed assets, which are data of the repository.
pub mod Proof
pub mod Initiate
pub mod Complete
pub mod Reaper
pub mod Sweep
pub mod Drained
pub mod Outcomes
pub mod Begun
pub mod Errors
pub mod History
pub mod Winner
pub mod Granted
pub mod Retry
pub mod Signed
use ar_io_solana_attestor.Prelude.{
  ℕ, ◌+◌, ◌/◌, String, Option, none, some, List, [], ◌∷◌, Bool, true, false, not, ◌&&◌, ◌||◌,
  str_eq, leb, ltb, ◌==◌, if◌then◌else◌, length,
}
use ar_io_solana_attestor.Prelude.Int.{ℤ, pos, ◌-ℤ◌, leb_ℤ}
use ar_io_solana_attestor.Audit.{Bytes, Context, AuditEntry, append_audit}
use ar_io_solana_attestor.Audit.Canonical.{decimal, ◌+s◌}
use ar_io_solana_attestor.Settlement.{vault_escrow_falls_back_to_liquid}
use ar_io_solana_attestor.Store.{
  ClaimStatus, AssetStatus, AssetType, ant, token, vault, Claim, Asset, Recipient, Db, update_claim,
}
use ar_io_solana_attestor.Dispatch.{entry_of, any_eq}
use ar_io_solana_attestor.Verify.{
  Crypto, VerificationErrorCode, protocol_mismatch, asset_type_mismatch, nonce_mismatch,
  rsa_signature_invalid, unsupported_salt_length, modulus_mismatch, recipient_id_mismatch,
  invalid_recovery_id, ecdsa_high_s, ethereum_address_mismatch, signature_verification_failed,
  lock_duration_too_long, invalid_input, VerificationError, RecipientView, AssetView, units,
}

pub record ApiError : Type 0 where
  pub status : ℕ
  pub code : String
  pub message : String

abbrev pub api_error : ℕ → String → String → ApiError
api_error status code message = record { status = status; code = code; message = message }

-- A check of the service: a value, or the ApiError that it throws.
pub data Checked {ℓ} (A : Type ℓ) : Type ℓ where
  passes : A → Checked A
  refuses : ApiError → Checked A

-- What an operation answers: a value, an ApiError, or any other error (an infrastructure fault).
pub data Response {ℓ} (A : Type ℓ) : Type ℓ where
  returns : A → Response A
  throws : ApiError → Response A
  fault : Response A

-- How a transaction ends.
pub data Exit {ℓ} (A : Type ℓ) : Type ℓ where
  commit : Db → Response A → Exit A
  rollback : Response A → Exit A

abbrev pub finish {ℓ} : {A : Type ℓ} → Db → Exit A → Db × Response A
finish db (commit db' r) = (db', r)
finish db (rollback r) = (db, r)

pub record Config : Type 0 where
  pub challenge_ttl_ms : ℕ
  pub network : Bytes
  pub big_claim_threshold_mario : ℕ

pub record Service : Type 0 where
  pub config : Config
  pub crypto : Crypto
  pub manually_delivered : List String
  pub retired_ants : List String
  pub from_base64url : String → Bytes
  pub to_base64 : Bytes → Bytes

abbrev pub is_delisted : Service → String → Bool
is_delisted s key = any_eq key s.manually_delivered || any_eq key s.retired_ants

-- A text that JavaScript takes as true: not missing and not empty.
abbrev pub truthy : Option String → Option String
truthy none = none
truthy (some t) = if str_eq t "" then none else some t

abbrev pub protocol_name : ℕ → Checked String
protocol_name n =
    if n == 0
    then passes "arweave"
    else if n == 1
    then passes "ethereum"
    else refuses (api_error 422 "PROTOCOL_MISMATCH" ("unknown protocol " +s decimal n))

abbrev pub protocol_num : String → Checked ℕ
protocol_num name =
    if str_eq name "arweave"
    then passes 0
    else if str_eq name "ethereum"
    then passes 1
    else refuses (api_error 400 "INVALID_REQUEST" ("unknown protocol \"" +s name +s "\""))

abbrev is_base58_unit : ℕ → Bool
is_base58_unit c =
    (leb 49 c && leb c 57)
    || (leb 65 c && leb c 72)
    || (leb 74 c && leb c 78)
    || (leb 80 c && leb c 90)
    || (leb 97 c && leb c 107)
    || (leb 109 c && leb c 122)

all_base58 : Bytes → Bool
all_base58 [] = true
all_base58 (c ∷ rest) = is_base58_unit c && all_base58 rest

unfoldable pub is_claimant : String → Bool
unfolding units all_base58
is_claimant s = leb 32 (length (units s)) && leb (length (units s)) 44 && all_base58 (units s)

abbrev pub to_asset_view : Asset → Bytes → AssetView
to_asset_view row nonce = record {
  asset_type = row.asset_type;
  asset_key = row.asset_key;
  ant_mint = row.ant_mint;
  amount = row.amount;
  nonce = nonce;
  vault_end_ts = row.vault_end_ts;
}

abbrev pub hidden_asset_error : ApiError
hidden_asset_error = api_error 404 "ASSET_NOT_FOUND" "no self-serve asset with that key"

abbrev pub view_with_key : Recipient → Option Bytes → Checked RecipientView
view_with_key row none = refuses hidden_asset_error
view_with_key row (some key) = passes (record {
  protocol = row.protocol;
  recipient_pubkey = key;
  recipient_id = units row.recipient_id;
  source_address = units row.source_address;
})

abbrev pub to_recipient_view : Recipient → Checked RecipientView
to_recipient_view row = view_with_key row row.recipient_pubkey

abbrev pub unavailable_error : AssetStatus → ApiError
unavailable_error AssetStatus.claiming =
    api_error 409 "ALREADY_CLAIMED" "asset has already been claimed"
unavailable_error AssetStatus.claimed =
    api_error 409 "ALREADY_CLAIMED" "asset has already been claimed"
unavailable_error AssetStatus.pending_review =
    api_error 409 "PENDING_REVIEW" "asset is awaiting operator review"
unavailable_error AssetStatus.manual_review = hidden_asset_error
unavailable_error AssetStatus.frozen = api_error 409 "ASSET_FROZEN" "asset is frozen"
unavailable_error AssetStatus.cancelled = api_error 409 "ASSET_CANCELLED" "asset was cancelled"
unavailable_error AssetStatus.available = api_error 409 "ASSET_UNAVAILABLE" "asset status available"

-- `text.startsWith(prefix)` on units.
starts_with : Bytes → Bytes → Bool
starts_with text [] = true
starts_with [] (p ∷ prefix) = false
starts_with (c ∷ text) (p ∷ prefix) = c == p && starts_with text prefix

unfoldable pub status_for_stored_code : String → ℕ
unfolding units starts_with
status_for_stored_code code =
    if str_eq code "ASSET_NOT_FOUND"
    then 404
    else if str_eq code "ALREADY_CLAIMED"
        || str_eq code "NONCE_MISMATCH"
        || str_eq code "CHALLENGE_EXPIRED"
    then 409
    else if str_eq code "MANUAL_REVIEW"
        || str_eq code "PENDING_REVIEW"
        || starts_with (units code) (units "ASSET_")
    then 409
    else if str_eq code "RSA_SIGNATURE_INVALID"
        || str_eq code "SIGNATURE_VERIFICATION_FAILED"
        || str_eq code "ETHEREUM_ADDRESS_MISMATCH"
    then 401
    else 422

abbrev pub code_text : VerificationErrorCode → String
code_text protocol_mismatch = "PROTOCOL_MISMATCH"
code_text asset_type_mismatch = "ASSET_TYPE_MISMATCH"
code_text nonce_mismatch = "NONCE_MISMATCH"
code_text rsa_signature_invalid = "RSA_SIGNATURE_INVALID"
code_text unsupported_salt_length = "UNSUPPORTED_SALT_LENGTH"
code_text modulus_mismatch = "MODULUS_MISMATCH"
code_text recipient_id_mismatch = "RECIPIENT_ID_MISMATCH"
code_text invalid_recovery_id = "INVALID_RECOVERY_ID"
code_text ecdsa_high_s = "ECDSA_HIGH_S"
code_text ethereum_address_mismatch = "ETHEREUM_ADDRESS_MISMATCH"
code_text signature_verification_failed = "SIGNATURE_VERIFICATION_FAILED"
code_text lock_duration_too_long = "LOCK_DURATION_TOO_LONG"
code_text invalid_input = "INVALID_INPUT"

abbrev pub verify_status : VerificationErrorCode → ℕ
verify_status rsa_signature_invalid = 401
verify_status signature_verification_failed = 401
verify_status ethereum_address_mismatch = 401
verify_status nonce_mismatch = 409
verify_status invalid_input = 400
verify_status _ = 422

abbrev pub from_verification_error : VerificationError → ApiError
from_verification_error e = api_error (verify_status e.code) (code_text e.code) e.message

-- SELECT ... FROM claims WHERE idempotency_key = $1
unfoldable pub find_by_idempotency_key : String → List Claim → Option Claim
find_by_idempotency_key key [] = none
find_by_idempotency_key key (c ∷ rest) = elim c.idempotency_key [
  | none ↦ find_by_idempotency_key key rest
  | some k ↦ if str_eq k key then some c else find_by_idempotency_key key rest
]

-- SELECT ... FROM recipients WHERE recipient_id = $1
unfoldable pub find_recipient : String → List Recipient → Option Recipient
find_recipient id [] = none
find_recipient id (r ∷ rest) = if str_eq r.recipient_id id then some r else find_recipient id rest

abbrev counts : AssetStatus → Bool
counts AssetStatus.available = true
counts AssetStatus.claiming = true
counts AssetStatus.claimed = true
counts AssetStatus.pending_review = true
counts _ = false

abbrev pub amount_or_zero : Option ℕ → ℕ
amount_or_zero none = 0
amount_or_zero (some n) = n

unfoldable pub sum_recipient_available : String → List Asset → ℕ
sum_recipient_available id [] = 0
sum_recipient_available id (a ∷ rest) =
    (if str_eq a.recipient_id id && counts a.status then amount_or_zero a.amount else 0)
    + sum_recipient_available id rest

abbrev pub vault_settlement : ℕ → AssetType → Option ℤ → Option ℕ → Option String
vault_settlement now vault (some end_ts) (some amount) =
    let remaining = end_ts -ℤ pos (now / 1000) in
    if leb_ℤ remaining (pos 0) || vault_escrow_falls_back_to_liquid (pos amount) remaining
    then some "liquid"
    else some "relock"
vault_settlement now _ _ _ = none

abbrev pub compute_settlement : Context → Asset → Option String
compute_settlement ctx asset =
    vault_settlement ctx.now asset.asset_type asset.vault_end_ts asset.amount

-- An entry about a claim, with the identity that the claim has bound.
abbrev pub claim_entry : String → Claim → String → AuditEntry
claim_entry event c status = record (entry_of event c.claim_id c.asset_key status) {
  recipient_id = c.recipient_id;
  protocol = c.protocol;
}

abbrev pub rejected_row : Context → String → Claim → Claim
rejected_row ctx code c = record c {
  status = ClaimStatus.rejected;
  error = some code;
  updated_at = ctx.now;
}

unfoldable pub reject_claim : Context → Claim → String → String → Db → Db
reject_claim ctx claim code reason db = record db {
  claims = update_claim claim.claim_id (rejected_row ctx code) db.claims;
  audit = append_audit ctx db.audit (record (claim_entry "claim.rejected" claim "rejected") {
    claimant = some claim.claimant;
    reason = some (code +s ": " +s reason);
  });
}

abbrev pub expired_row : Context → Claim → Claim
expired_row ctx c = record c { status = ClaimStatus.expired; updated_at = ctx.now }
