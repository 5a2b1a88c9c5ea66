-- ===== src/Store.antt =====
-- The tables of packages/claims/migrations that the claims service and the dispatch worker share
-- (row types of packages/claims/src/dispatch/dispatch-core.ts and packages/claims/src/api/service.ts),
-- and the SQL statements on them by primary key. Status columns are the values that the CHECK
-- constraints admit; the provenance column of the assets is left out. A transaction is one step: its
-- reads and writes are of one database.
pub mod Laws
use ar_io_solana_attestor.Prelude.{
  ℕ, String, Option, none, some, List, [], ◌∷◌, map, Bool, true, false, ◌&&◌, ◌||◌, str_eq,
  if◌then◌else◌,
}
use ar_io_solana_attestor.Prelude.Int.{ℤ}
use ar_io_solana_attestor.Audit.{Bytes, AuditLog}

pub data ClaimStatus : Type 0 where
  claiming verified pending_review dispatching confirmed rejected expired failed : ClaimStatus
  needs_operator awaiting_manual_vault_delivery : ClaimStatus

pub data AssetStatus : Type 0 where
  available claiming manual_review pending_review claimed cancelled frozen : AssetStatus

pub data AssetType : Type 0 where
  ant token vault : AssetType

pub record Claim : Type 0 where
  pub claim_id : String
  pub asset_key : String
  pub claimant : String
  pub canonical_message : Bytes
  pub user_signature : Option Bytes
  pub salt_length : Option ℕ
  pub settlement : Option String
  pub status : ClaimStatus
  pub tx_signatures : Option (List String)
  pub idempotency_key : Option String
  pub error : Option String
  pub created_at : ℕ
  pub verified_at : Option ℕ
  pub confirmed_at : Option ℕ
  pub updated_at : ℕ
  pub challenge_nonce : Option Bytes
  pub challenge_expires_at : Option ℕ
  pub recipient_id : Option String
  pub protocol : Option ℕ
  pub dispatch_signature : Option String
  pub dispatch_blockhash : Option String
  pub dispatch_last_valid_bh : Option ℕ
  pub dispatch_started_at : Option ℕ
  pub settlement_amount : Option ℕ
  pub approved_at : Option ℕ
  pub approved_by : Option String
  pub dispatch_resign_count : ℕ
  pub ant_batch_id : Option String
  pub ant_reserved_at : Option ℕ
  pub ant_reserved_txid : Option String
  pub ant_reserved_blockhash : Option String
  pub ant_reserved_last_valid_bh : Option ℕ
  pub ant_reserved_wire : Option String

pub record Asset : Type 0 where
  pub asset_key : String
  pub asset_type : AssetType
  pub recipient_id : String
  pub ant_mint : Option String
  pub ant_name : Option String
  pub amount : Option ℕ
  pub vault_end_ts : Option ℤ
  pub nonce : Bytes
  pub status : AssetStatus
  pub updated_at : ℕ

pub data RecipientStatus : Type 0 where
  open_recipient manual_review frozen closed : RecipientStatus

pub record Recipient : Type 0 where
  pub recipient_id : String
  pub protocol : ℕ
  pub source_address : String
  pub recipient_pubkey : Option Bytes
  pub status : RecipientStatus
  pub updated_at : ℕ

pub data BatchStatus : Type 0 where
  open_batch submitted expired_batch completed : BatchStatus

pub record AntBatch : Type 0 where
  pub batch_id : String
  pub created_at : ℕ
  pub created_by_pubkey : String
  pub claim_count : ℕ
  pub status : BatchStatus
  pub submitted_at : Option ℕ

pub record Db : Type 0 where
  pub claims : List Claim
  pub assets : List Asset
  pub recipients : List Recipient
  pub ant_batches : List AntBatch
  pub audit : AuditLog

-- SELECT ... FROM claims WHERE claim_id = $1
unfoldable pub find_claim : String → List Claim → Option Claim
find_claim id [] = none
find_claim id (c ∷ rest) = if str_eq c.claim_id id then some c else find_claim id rest

-- SELECT ... FROM assets WHERE asset_key = $1
unfoldable pub find_asset : String → List Asset → Option Asset
find_asset key [] = none
find_asset key (a ∷ rest) = if str_eq a.asset_key key then some a else find_asset key rest

-- UPDATE claims SET ... WHERE claim_id = $1
unfoldable pub update_claim : String → (Claim → Claim) → List Claim → List Claim
update_claim id f = map λ c. if str_eq c.claim_id id then f c else c

-- UPDATE assets SET ... WHERE asset_key = $1
unfoldable pub update_asset : String → (Asset → Asset) → List Asset → List Asset
update_asset key f = map λ a. if str_eq a.asset_key key then f a else a

-- The statuses that the partial index one_live_claim_per_asset covers.
abbrev pub is_live : ClaimStatus → Bool
is_live verified = true
is_live pending_review = true
is_live dispatching = true
is_live _ = false

-- A live claim on the asset.
unfoldable pub has_live : String → List Claim → Bool
has_live key [] = false
has_live key (c ∷ rest) = (is_live c.status && str_eq c.asset_key key) || has_live key rest

-- The unique index one_live_claim_per_asset.
unfoldable pub one_live_claim_per_asset : List Claim → Bool
one_live_claim_per_asset [] = true
one_live_claim_per_asset (c ∷ rest) =
    (if is_live c.status && has_live c.asset_key rest then false else true)
    && one_live_claim_per_asset rest
