-- ===== src/Ledger/Stakes.antt =====
-- packages/claims/src/ledger/stake-extract.ts: the stake and withdrawal escrows of the delivery plan. The
-- amounts of the plan are natural numbers.
use ar_io_solana_attestor.Prelude.{
  ℕ, ◌+◌, String, Option, List, [], ◌∷◌, ◌++◌, map, Bool, true, false, not, ◌&&◌, ◌||◌, str_eq,
  if◌then◌else◌,
}
use mathlib.Core.Option.{get_or}
use ar_io_solana_attestor.Prelude.Int.{ℤ}
use ar_io_solana_attestor.Audit.Canonical.{◌+s◌}
use ar_io_solana_attestor.Dispatch.{any_eq}
use ar_io_solana_attestor.Ledger.Normalize.{PlanKit, normalize_source_address}

pub record EscrowVaultDeposit : Type 0 where
  pub arweave_addr : String
  pub asset_id_seed : String
  pub amount_mario : ℕ
  pub unlock_ts : ℤ
  pub kind : String

pub record EscrowLiquidDeposit : Type 0 where
  pub arweave_addr : String
  pub asset_id_seed : String
  pub amount_mario : ℕ
  pub kind : String

pub record EscrowDepositSet : Type 0 where
  pub vaults : List EscrowVaultDeposit
  pub liquid : List EscrowLiquidDeposit

pub record StakeVault : Type 0 where
  pub arweave_addr : String
  pub kind : String
  pub amount_mario : ℕ
  pub unlock_ts : ℤ

pub record StakeLiquid : Type 0 where
  pub arweave_addr : String
  pub kind : String
  pub amount_mario : ℕ

pub record WithdrawalVault : Type 0 where
  pub arweave_addr : String
  pub vault_key : String
  pub amount_mario : ℕ
  pub unlock_ts : ℤ
  pub source : Option String

pub record WithdrawalLiquid : Type 0 where
  pub arweave_addr : String
  pub vault_key : String
  pub amount_mario : ℕ
  pub source : Option String

pub record PlanArtifact : Type 0 where
  pub operator_escrow_vaults : List StakeVault
  pub operator_liquid_escrows : List StakeLiquid
  pub delegator_escrow_vaults : List StakeVault
  pub delegator_liquid_escrows : List StakeLiquid
  pub escrow_vaults : List WithdrawalVault
  pub liquid_escrows : List WithdrawalLiquid

module _ (kit : PlanKit) where
  abbrev seed_of : String → String → String → String
  seed_of namespace addr key = namespace +s ":" +s normalize_source_address kit addr +s ":" +s key

  abbrev withdrawal_kind : Option String → String → String
  withdrawal_kind source key = "withdrawal:" +s get_or source "unknown" +s ":" +s key

  abbrev stake_vault : StakeVault → EscrowVaultDeposit
  stake_vault v = record {
    arweave_addr = v.arweave_addr;
    asset_id_seed = seed_of "stake-escrow" v.arweave_addr v.kind;
    amount_mario = v.amount_mario;
    unlock_ts = v.unlock_ts;
    kind = v.kind;
  }

  abbrev withdrawal_vault : WithdrawalVault → EscrowVaultDeposit
  withdrawal_vault v = record {
    arweave_addr = v.arweave_addr;
    asset_id_seed = seed_of "withdrawal-escrow" v.arweave_addr v.vault_key;
    amount_mario = v.amount_mario;
    unlock_ts = v.unlock_ts;
    kind = withdrawal_kind v.source v.vault_key;
  }

  abbrev stake_liquid : StakeLiquid → EscrowLiquidDeposit
  stake_liquid v = record {
    arweave_addr = v.arweave_addr;
    asset_id_seed = seed_of "stake-escrow-liquid" v.arweave_addr v.kind;
    amount_mario = v.amount_mario;
    kind = v.kind;
  }

  abbrev withdrawal_liquid : WithdrawalLiquid → EscrowLiquidDeposit
  withdrawal_liquid v = record {
    arweave_addr = v.arweave_addr;
    asset_id_seed = seed_of "withdrawal-escrow-liquid" v.arweave_addr v.vault_key;
    amount_mario = v.amount_mario;
    kind = withdrawal_kind v.source v.vault_key;
  }

  unfoldable pub collect_stake_withdrawal_escrow : PlanArtifact → EscrowDepositSet
  collect_stake_withdrawal_escrow plan = record {
    vaults =
        map stake_vault plan.operator_escrow_vaults
        ++ map stake_vault plan.delegator_escrow_vaults
        ++ map withdrawal_vault plan.escrow_vaults;
    liquid =
        map stake_liquid plan.operator_liquid_escrows
        ++ map stake_liquid plan.delegator_liquid_escrows
        ++ map withdrawal_liquid plan.liquid_escrows;
  }

  abbrev seeds : EscrowDepositSet → List String
  seeds set =
      map (λ (v : EscrowVaultDeposit). v.asset_id_seed) set.vaults
      ++ map (λ (l : EscrowLiquidDeposit). l.asset_id_seed) set.liquid

  -- An earlier seed that differs from this one, and by case alone.
  unfoldable pub clashes : String → List String → Bool
  clashes seed [] = false
  clashes seed (earlier ∷ rest) =
      (str_eq (kit.to_lower_case earlier) (kit.to_lower_case seed) && not (str_eq earlier seed))
      || clashes seed rest

  -- Against the seeds before it, a seed is new, in exact form and in lower case.
  unfoldable pub unique_after : List String → List String → Bool
  unique_after seen [] = true
  unique_after seen (seed ∷ rest) =
      let later = unique_after (seed ∷ seen) rest in
      if any_eq seed seen || clashes seed seen then false else later

  -- `false` is a thrown error.
  unfoldable pub are_unique_asset_seeds : EscrowDepositSet → Bool
  are_unique_asset_seeds set = unique_after [] (seeds set)

abbrev total_vaults : List EscrowVaultDeposit → ℕ
total_vaults [] = 0
total_vaults (v ∷ rest) = v.amount_mario + total_vaults rest

abbrev total_liquid : List EscrowLiquidDeposit → ℕ
total_liquid [] = 0
total_liquid (l ∷ rest) = l.amount_mario + total_liquid rest

unfoldable pub total_escrow_mario : EscrowDepositSet → ℕ
total_escrow_mario set = total_vaults set.vaults + total_liquid set.liquid
