-- ===== src/Ledger.antt =====
-- packages/claims/src/ledger/types.ts: the plan of the ledger. Each asset's provenance, which is for the
-- operator alone, and the fingerprints of the inputs are left out.
pub mod Write
pub mod Rebuild
pub mod Chunks
pub mod Normalize
pub mod Stakes
pub mod Plan
pub mod Phases
pub mod Owned
pub mod Balance
pub mod Placement
pub mod Classified
pub mod Kept
pub mod Totals
pub mod Rows
pub mod Accepted
pub mod Landed
pub mod Written
use ar_io_solana_attestor.Prelude.{ℕ, String, Option, List}
use ar_io_solana_attestor.Prelude.Int.{ℤ}
use ar_io_solana_attestor.Audit.{Bytes}
use ar_io_solana_attestor.Store.{AssetType}

pub data PlannedStatus : Type 0 where
  available manual_review : PlannedStatus

-- Of a recipient: `open`, or `manual_review`.
pub data RecipientPlan : Type 0 where
  open_recipient manual_review : RecipientPlan

pub record PlannedRecipient : Type 0 where
  pub source_address : String
  pub protocol : ℕ
  pub recipient_pubkey : Option Bytes
  pub recipient_id : String
  pub status : RecipientPlan

pub record PlannedAsset : Type 0 where
  pub asset_key : String
  pub asset_type : AssetType
  pub recipient_source : String
  pub ant_mint : Option String
  pub amount : Option ℕ
  pub vault_end_ts : Option ℤ
  pub status : PlannedStatus

pub record ManifestCounters : Type 0 where
  pub ant : ℕ
  pub token_escrowed : ℕ
  pub vault_escrowed : ℕ
  pub stake_escrowed : ℕ

pub record LedgerPlan : Type 0 where
  pub recipients : List PlannedRecipient
  pub assets : List PlannedAsset
  pub counters : ManifestCounters
  pub phase2_token_outflow_mario : ℕ
  pub phase3_vault_mario : ℕ
  pub phase4_stake_mario : ℕ
  pub at_risk_recipient_count : ℕ
