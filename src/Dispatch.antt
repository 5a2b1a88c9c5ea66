-- ===== src/Dispatch.antt =====
-- packages/claims/src/dispatch: what the transitions of dispatch-core.ts share.
pub mod Persist
pub mod Recovery
pub mod Core
pub mod Transitions
pub mod Confirmed
pub mod Claimed
pub mod Free
pub mod Logged
use ar_io_solana_attestor.Prelude.{
  ℕ, ◌+◌, String, Option, none, some, List, [], ◌∷◌, ◌++◌, Bool, true, false, ◌&&◌, ◌||◌, str_eq,
  if◌then◌else◌,
}
use mathlib.Core.Option.{get_or}
use ar_io_solana_attestor.Audit.{Context, AuditEntry, append_audit}
use ar_io_solana_attestor.Audit.Canonical.{
  Fields, end, field, undefined_field, string, decimal, ◌+s◌,
}
use ar_io_solana_attestor.Gateway.{SignedDispatch}
use ar_io_solana_attestor.Store.{
  ClaimStatus, verified, dispatching, confirmed, failed, needs_operator,
  awaiting_manual_vault_delivery, AssetStatus, claimed, Claim, Asset, Db, find_claim, find_asset,
  update_claim, update_asset, one_live_claim_per_asset,
}

pub record PersistDispatchingArgs : Type 0 where
  pub claim_id : String
  pub asset_key : String
  pub signed : SignedDispatch
  pub settlement_amount : Option ℕ
  pub settlement_label : Option String

-- An entry about a claim and its asset; what the code leaves out is undefined.
abbrev pub entry_of : String → String → String → String → AuditEntry
entry_of event claim_id asset_key status = record {
  event = event;
  claim_id = some claim_id;
  asset_key = some asset_key;
  claimant = none;
  recipient_id = none;
  protocol = none;
  status = some status;
  reason = none;
  detail = none;
}

abbrev pub optional_field : String → Option String → Fields → Fields
optional_field key none rest = undefined_field key rest
optional_field key (some s) rest = field key (string s) rest

-- `COALESCE(tx_signatures, ARRAY[])`
abbrev pub signatures : Claim → List String
signatures c = get_or c.tx_signatures []

unfoldable pub any_eq : String → List String → Bool
any_eq s [] = false
any_eq s (t ∷ rest) = str_eq s t || any_eq s rest

-- `c.status === "verified" || (c.status === "pending_review" && c.approved_at)`
abbrev pub can_dispatch : ClaimStatus → Option ℕ → Bool
can_dispatch verified _ = true
can_dispatch ClaimStatus.pending_review (some _) = true
can_dispatch _ _ = false

-- The asset is `claiming` or `pending_review`.
abbrev pub asset_eligible : AssetStatus → Bool
asset_eligible AssetStatus.claiming = true
asset_eligible AssetStatus.pending_review = true
asset_eligible _ = false

-- `UPDATE assets SET status = ... WHERE ... AND status <> 'claimed'`
abbrev pub unless_claimed : AssetStatus → ℕ → Asset → Asset
unless_claimed status now a = elim a.status [
  | claimed ↦ a
  | _ ↦ record a { status = status; updated_at = now }
]
