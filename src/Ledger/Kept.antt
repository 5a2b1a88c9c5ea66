-- ===== src/Ledger/Kept.antt =====
-- The phases of buildLedgerPlan, packages/claims/src/ledger/plan.ts, on a builder that is balanced.
use ar_io_solana_attestor.Prelude.{
  ℕ, ◌+◌, ◌-◌, ◌/◌, String, Option, none, some, List, Bool, true, false, ◌||◌, if◌then◌else◌, leb,
}
use ar_io_solana_attestor.Prelude.Int.{ℤ, pos, ◌+ℤ◌, leb_ℤ, pos_part}
use ar_io_solana_attestor.Audit.{Bytes}
use ar_io_solana_attestor.Settlement.{vault_escrow_falls_back_to_liquid}
use ar_io_solana_attestor.Ledger.{PlannedStatus}
use ar_io_solana_attestor.Ledger.Normalize.{
  PlanKit, to_hex_text, normalize_source_address, derive_token_asset_id, derive_vault_asset_id,
  derive_stake_asset_id, derive_ant_mint_base58,
}
use ar_io_solana_attestor.Ledger.Stakes.{
  EscrowVaultDeposit, EscrowLiquidDeposit, EscrowDepositSet, are_unique_asset_seeds,
}
use ar_io_solana_attestor.Ledger.Plan.{
  AntSnapshot, AoVault, FrozenInputs, Builder, ◌>>=◌, push_asset, count_ant, count_token,
  count_expired, count_vault, count_stake, ant_asset, token_asset, vault_or_token, fold_option,
}
use ar_io_solana_attestor.Ledger.Phases.{
  place, is_mapped, plan_ant, plan_balance, plan_vault, plan_vaults, stake_lock, plan_stake_vault,
  plan_stake_liquid, load_modulus, stake_phase,
}
use ar_io_solana_attestor.Ledger.Balance.{
  IsBalanced, BalancedIf, bind-Balanced, fold_option-Balanced,
}
use ar_io_solana_attestor.Ledger.Placement.{
  count_ant-Adds, count_token-Adds, count_expired-Adds, count_vault-Adds, count_stake-Adds,
  ant_asset-Carries, token_asset-Carries, vault_or_token-Carries,
}
use ar_io_solana_attestor.Ledger.Classified.{upsert_recipient-Balanced, place-Balanced}

if-Balanced :
    (t : Bool) (o p : Option Builder)
    → BalancedIf o
    → BalancedIf p
    → BalancedIf (if t then o else p)
if-Balanced true o p h k = h
if-Balanced false o p h k = k

module _ (kit : PlanKit) (inputs : FrozenInputs) where
  abbrev place_in :
      String
      → (PlannedStatus → Builder → Option Builder)
      → (Builder → Builder)
      → Builder
      → Option Builder
  place_in = place kit inputs

  pub plan_ant-Balanced :
      (secret : Bytes) (a : AntSnapshot) (b : Builder)
      → IsBalanced b
      → BalancedIf (plan_ant kit inputs secret a b)
  unfolding plan_ant
  plan_ant-Balanced secret a b h =
      if-Balanced (is_mapped kit inputs a.owner) (some b)
        (derive_ant_mint_base58 kit a.process_id secret >>= minted) h
        (elim (derive_ant_mint_base58 kit a.process_id secret) as (λ o. BalancedIf (o >>= minted)) [
          | none ↦ tt
          | some mint ↦
              place-Balanced kit inputs a.owner (ant_asset mint source) count_ant 0
                (ant_asset-Carries mint source) count_ant-Adds b h
        ])
    where
      source : String
      source = normalize_source_address kit a.owner

      minted : String → Option Builder
      minted mint =
          place_in a.owner (λ status. push_asset (ant_asset mint source status)) count_ant b

  pub plan_balance-Balanced :
      (item : String × ℤ) (b : Builder) → IsBalanced b → BalancedIf (plan_balance kit inputs item b)
  unfolding plan_balance
  plan_balance-Balanced (addr, amount) b h =
      let key = to_hex_text (derive_token_asset_id kit addr) in
      let source = normalize_source_address kit addr in
      let n = pos_part amount in
      if-Balanced (is_mapped kit inputs addr || leb_ℤ amount (pos 0)) (some b)
        (place_in addr (λ status. push_asset (token_asset key source n status)) (count_token n) b) h
        (place-Balanced kit inputs addr (token_asset key source n) (count_token n) n
          (token_asset-Carries key source n) (count_token-Adds n) b h)

  pub plan_vault-Balanced :
      (now_ms : ℕ) (owner : String) (v : AoVault) (b : Builder)
      → IsBalanced b
      → BalancedIf (plan_vault kit inputs now_ms owner v b)
  unfolding plan_vault
  plan_vault-Balanced now_ms owner v b h =
      if-Balanced (leb_ℤ v.balance (pos 0)) (some b)
        (if leb v.end_timestamp now_ms then expired else active) h
        (if-Balanced (leb v.end_timestamp now_ms) expired active
          (place-Balanced kit inputs owner (token_asset key source n) (count_expired n) n
            (token_asset-Carries key source n) (count_expired-Adds n) b h)
          (place-Balanced kit inputs owner (vault_or_token is_liquid key source n end_ts)
            (count_vault n) n (vault_or_token-Carries is_liquid key source n end_ts)
            (count_vault-Adds n) b h))
    where
      key : String
      key = to_hex_text (derive_vault_asset_id kit owner v.vault_id)

      source : String
      source = normalize_source_address kit owner

      n : ℕ
      n = pos_part v.balance

      lock : ℕ
      lock = (v.end_timestamp - now_ms + 999) / 1000

      end_ts : ℤ
      end_ts = pos (now_ms / 1000 + lock)

      is_liquid : Bool
      is_liquid = vault_escrow_falls_back_to_liquid v.balance (pos lock)

      expired : Option Builder
      expired =
          place_in owner (λ status. push_asset (token_asset key source n status)) (count_expired n)
            b

      active : Option Builder
      active =
          place_in owner
            (λ status. push_asset (vault_or_token is_liquid key source n end_ts status))
            (count_vault n) b

  pub plan_vaults-Balanced :
      (now_ms : ℕ) (item : String × List AoVault) (b : Builder)
      → IsBalanced b
      → BalancedIf (plan_vaults kit inputs now_ms item b)
  unfolding plan_vaults
  plan_vaults-Balanced now_ms (owner, vaults) b h =
      if-Balanced (is_mapped kit inputs owner) (some b)
        (fold_option (plan_vault kit inputs now_ms owner) vaults b) h
        (fold_option-Balanced (plan_vault kit inputs now_ms owner)
          (plan_vault-Balanced now_ms owner) vaults b h)

  pub plan_stake_vault-Balanced :
      (now_ms : ℕ) (v : EscrowVaultDeposit) (b : Builder)
      → IsBalanced b
      → BalancedIf (plan_stake_vault kit inputs now_ms v b)
  unfolding plan_stake_vault
  plan_stake_vault-Balanced now_ms v b h =
      let lock = stake_lock kit inputs now_ms v in
      let is_liquid = vault_escrow_falls_back_to_liquid (pos v.amount_mario) lock in
      let key = to_hex_text (derive_stake_asset_id kit v.asset_id_seed) in
      let source = normalize_source_address kit v.arweave_addr in
      let end_ts = pos (now_ms / 1000) +ℤ lock in
      place-Balanced kit inputs v.arweave_addr
        (vault_or_token is_liquid key source v.amount_mario end_ts) (count_stake v.amount_mario)
        v.amount_mario (vault_or_token-Carries is_liquid key source v.amount_mario end_ts)
        (count_stake-Adds v.amount_mario) b h

  pub plan_stake_liquid-Balanced :
      (l : EscrowLiquidDeposit) (b : Builder)
      → IsBalanced b
      → BalancedIf (plan_stake_liquid kit inputs l b)
  unfolding plan_stake_liquid
  plan_stake_liquid-Balanced l b h =
      let key = to_hex_text (derive_stake_asset_id kit l.asset_id_seed) in
      let source = normalize_source_address kit l.arweave_addr in
      place-Balanced kit inputs l.arweave_addr (token_asset key source l.amount_mario)
        (count_stake l.amount_mario) l.amount_mario (token_asset-Carries key source l.amount_mario)
        (count_stake-Adds l.amount_mario) b h

  pub stake_phase-Balanced :
      (now_ms : ℕ) (set : EscrowDepositSet) (b : Builder)
      → IsBalanced b
      → BalancedIf (stake_phase kit inputs now_ms set b)
  stake_phase-Balanced now_ms set b h =
      if-Balanced (are_unique_asset_seeds kit set)
        (fold_option (plan_stake_vault kit inputs now_ms) set.vaults b >>= liquids) none
        (bind-Balanced (fold_option (plan_stake_vault kit inputs now_ms) set.vaults b) liquids
          (fold_option-Balanced (plan_stake_liquid kit inputs) plan_stake_liquid-Balanced
            set.liquid)
          (fold_option-Balanced (plan_stake_vault kit inputs now_ms)
            (plan_stake_vault-Balanced now_ms) set.vaults b h))
        tt
    where
      liquids : Builder → Option Builder
      liquids = fold_option (plan_stake_liquid kit inputs) set.liquid

  pub load_modulus-Balanced :
      (item : String × String) (b : Builder)
      → IsBalanced b
      → BalancedIf (load_modulus kit inputs item b)
  load_modulus-Balanced (addr, text) b h =
      upsert_recipient-Balanced kit addr (some (kit.base64url_decode text)) b h
