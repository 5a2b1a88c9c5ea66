-- ===== src/Float.antt =====
-- FloatManager of packages/claims/src/dispatch/float.ts: what the in-flight dispatches have already
-- committed of the hot account, and whether a dispatch may proceed. Amounts are numbers of mARIO.
pub mod Solvency
use ar_io_solana_attestor.Prelude.{
  ℕ, ◌+◌, ◌-◌, String, Option, none, some, List, [], ◌∷◌, Bool, true, false, not, ◌&&◌, str_eq, ltb,
  if◌then◌else◌,
}
use mathlib.Core.Option.{get_or}
use ar_io_solana_attestor.Gateway.{Gateway}
use ar_io_solana_attestor.Store.{
  ClaimStatus, verified, dispatching, AssetType, ant, token, vault, Claim, Asset, Db, find_asset,
}
use ar_io_solana_attestor.Dispatch.{any_eq}

pub record FloatPolicy : Type 0 where
  pub cap_mario : ℕ
  pub big_claim_threshold_mario : ℕ
  pub refill_threshold_mario : ℕ

pub record FloatStatus : Type 0 where
  pub balance_mario : ℕ
  pub reserved_mario : ℕ
  pub available_mario : ℕ
  pub cap_mario : ℕ
  pub refill_threshold_mario : ℕ
  pub refill_needed : Bool
  pub over_cap : Bool

pub data FloatDenial : Type 0 where
  insufficient_float : (need_mario available_mario : ℕ) → FloatDenial
  exceeds_brake : (amount_mario threshold_mario : ℕ) → FloatDenial

pub record FloatManager : Type 0 where
  pub policy : FloatPolicy
  pub reserved_asset_scope : Option (List String)

-- `c.status IN ('verified', 'dispatching')`
abbrev pub in_flight : ClaimStatus → Bool
in_flight verified = true
in_flight dispatching = true
in_flight _ = false

-- `a.asset_type IN ('token', 'vault')`
abbrev pub is_fungible : AssetType → Bool
is_fungible ant = false
is_fungible token = true
is_fungible vault = true

abbrev pub not_excluded : Option String → String → Bool
not_excluded none claim_id = true
not_excluded (some excluded) claim_id = not (str_eq claim_id excluded)

abbrev pub in_scope : Option (List String) → String → Bool
in_scope none key = true
in_scope (some keys) key = any_eq key keys

-- `COALESCE(c.settlement_amount, a.amount)`, where SUM passes over a null.
abbrev pub coalesced_amount : Claim → Asset → ℕ
coalesced_amount c a = elim c.settlement_amount [ some amount ↦ amount | none ↦ get_or a.amount 0 ]

module _ (manager : FloatManager) where
  -- What one claim adds to the sum; the key of an asset is unique, so the join finds at most one.
  unfoldable pub share : Option String → List Asset → Claim → ℕ
  share exclude_claim_id assets c = elim (find_asset c.asset_key assets) [
    | none ↦ 0
    | some a ↦
        if in_flight c.status
          && is_fungible a.asset_type
          && not_excluded exclude_claim_id c.claim_id
          && in_scope manager.reserved_asset_scope a.asset_key
        then coalesced_amount c a
        else 0
  ]

  unfoldable pub reserved_sum : Option String → List Asset → List Claim → ℕ
  reserved_sum exclude_claim_id assets [] = 0
  reserved_sum exclude_claim_id assets (c ∷ rest) =
      share exclude_claim_id assets c + reserved_sum exclude_claim_id assets rest

  abbrev pub reserved : Option String → Db → ℕ
  reserved exclude_claim_id db = reserved_sum exclude_claim_id db.assets db.claims

  -- `balance > reserved ? balance - reserved : 0`
  abbrev pub available_of : ℕ → ℕ → ℕ
  available_of balance committed = if ltb committed balance then balance - committed else 0

  unfoldable pub status : Gateway → String → Db → Option FloatStatus
  status gateway hot_ata db = elim (gateway.get_token_balance hot_ata) [
    | none ↦ none
    | some balance ↦
        let committed = reserved none db in
        let available = available_of balance committed in
        some (record {
          balance_mario = balance;
          reserved_mario = committed;
          available_mario = available;
          cap_mario = manager.policy.cap_mario;
          refill_threshold_mario = manager.policy.refill_threshold_mario;
          refill_needed = ltb available manager.policy.refill_threshold_mario;
          over_cap = ltb manager.policy.cap_mario balance;
        })
  ]

  unfoldable pub check : ℕ → ℕ → Bool → Option FloatDenial
  check amount available approved =
      if not approved
        && ltb 0 manager.policy.big_claim_threshold_mario
        && ltb manager.policy.big_claim_threshold_mario amount
      then some (exceeds_brake amount manager.policy.big_claim_threshold_mario)
      else if ltb available amount
      then some (insufficient_float amount available)
      else none
