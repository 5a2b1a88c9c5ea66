-- ===== src/Examples/Plans.antt =====
-- A plan with a balance of an Ethereum owner, one of an owner without a key, an expired vault, a locked
-- operator exit and a liquid stake.
use ar_io_solana_attestor.Prelude.{◌≡◌, ℕ, suc, refl, String, none, some, [], ◌∷◌, replicate}
use ar_io_solana_attestor.Prelude.Int.{pos, ◌-ℤ◌, ◌+ℤ◌}
use ar_io_solana_attestor.Audit.{Bytes}
use ar_io_solana_attestor.Audit.Canonical.{hex_unit}
use ar_io_solana_attestor.Dispatch.{any_eq}
use ar_io_solana_attestor.Ledger.{RecipientPlan, PlannedStatus, LedgerPlan}
use ar_io_solana_attestor.Ledger.Normalize.{
  PlanKit, is_ethereum_address, normalize_source_address, normalized_lookup, to_hex_text,
  derive_token_asset_id, derive_vault_asset_id, derive_stake_asset_id, derive_ant_mint_base58,
}
use ar_io_solana_attestor.Ledger.Plan.{
  FrozenInputs, ant_asset, token_asset, vault_asset, push_asset, lookup, fold_option,
}
use ar_io_solana_attestor.Ledger.Balance.{AreCounted}
use ar_io_solana_attestor.Ledger.Phases.{
  build_ledger_plan, build_all, upsert_recipient, classify_owner, resolve_recipient_pubkey,
  plan_ant, plan_balance, plan_vault, plan_vaults, plan_stake_vault, plan_stake_liquid, stake_lock,
}
use ar_io_solana_attestor.Ledger.Stakes.{
  collect_stake_withdrawal_escrow, are_unique_asset_seeds, clashes, unique_after,
}
use ar_io_solana_attestor.Settlement.{vault_escrow_falls_back_to_liquid}
use ar_io_solana_attestor.Store.{Db}
use ar_io_solana_attestor.Examples.Fixtures.{sample_claim, sample_asset, db_of}
use ar_io_solana_attestor.Ledger.Totals.{build_ledger_plan-AreCounted}

size : String → ℕ
size String.[] = 0
size (String.◌∷◌ c s) = suc (size s)

abbrev plan_kit : PlanKit
plan_kit = record {
  sha256 = λ (b : Bytes). b;
  utf8 = λ (s : String). size s ∷ [];
  base64url_encode = λ (b : Bytes). "id";
  base64url_decode = λ (s : String). 1 ∷ [];
  hex_decode = λ (s : String). 9 ∷ [];
  base58_encode = λ (b : Bytes). "mint";
  ed25519_public_key = λ (b : Bytes). b;
  to_lower_case = λ (s : String). s;
}

abbrev eth_owner : String
eth_owner = "0xaaaaaaaaaaaaaaaaaaaaaaaaaaaaaaaaaaaaaaaa"

abbrev frozen_inputs : FrozenInputs
frozen_inputs = record {
  address_map = ("mapped", "delivered") ∷ [];
  modulus = [];
  at_risk = "gone" ∷ [];
  balances = (eth_owner, pos 60) ∷ ("gone", pos 5) ∷ ("mapped", pos 8) ∷ ("empty", pos 0) ∷ [];
  vaults = (eth_owner, record { vault_id = "v"; balance = pos 7; end_timestamp = 1000 } ∷ []) ∷ [];
  ants = record { process_id = "p"; owner = eth_owner } ∷ [];
  plan = record {
    operator_escrow_vaults = [];
    operator_liquid_escrows =
        record { arweave_addr = eth_owner; kind = "operator"; amount_mario = 11 } ∷ [];
    delegator_escrow_vaults = [];
    delegator_liquid_escrows = [];
    escrow_vaults =
        record {
          arweave_addr = eth_owner;
          vault_key = "k";
          amount_mario = 900000000;
          unlock_ts = pos 10;
          source = some "operator-exit";
        }
        ∷ [];
    liquid_escrows = [];
  };
}

abbrev expected_plan : LedgerPlan
expected_plan = record {
  recipients =
      record {
        source_address = "gone";
        protocol = 0;
        recipient_pubkey = none;
        recipient_id = "gone";
        status = RecipientPlan.manual_review;
      }
      ∷ record {
        source_address = eth_owner;
        protocol = 1;
        recipient_pubkey = some (9 ∷ []);
        recipient_id = "id";
        status = RecipientPlan.open_recipient;
      }
      ∷ [];
  assets =
      ant_asset "mint" eth_owner PlannedStatus.available
      ∷ token_asset "37" eth_owner 60 PlannedStatus.available
      ∷ token_asset "11" "gone" 5 PlannedStatus.manual_review
      ∷ token_asset "39" eth_owner 7 PlannedStatus.available
      ∷ vault_asset "3e" eth_owner 900000000 (pos 1209602) PlannedStatus.available
      ∷ token_asset "47" eth_owner 11 PlannedStatus.available
      ∷ [];
  counters = record { ant = 1; token_escrowed = 2; vault_escrowed = 0; stake_escrowed = 2 };
  phase2_token_outflow_mario = 60;
  phase3_vault_mario = 7;
  phase4_stake_mario = 900000011;
  at_risk_recipient_count = 1;
}

sample_run : build_ledger_plan plan_kit frozen_inputs (replicate 32 0) 2500 ≡ some expected_plan
unfolding build_ledger_plan build_all fold_option upsert_recipient classify_owner
    resolve_recipient_pubkey plan_ant plan_balance plan_vault plan_vaults plan_stake_vault
    plan_stake_liquid stake_lock push_asset lookup normalized_lookup normalize_source_address
    is_ethereum_address to_hex_text hex_unit any_eq derive_token_asset_id derive_vault_asset_id
    derive_stake_asset_id derive_ant_mint_base58 collect_stake_withdrawal_escrow
    are_unique_asset_seeds clashes unique_after vault_escrow_falls_back_to_liquid size ◌-ℤ◌ ◌+ℤ◌
sample_run = refl

build_ledger_plan-AreCounted_example : AreCounted expected_plan.assets 5 900000078
build_ledger_plan-AreCounted_example =
    build_ledger_plan-AreCounted plan_kit frozen_inputs (replicate 32 0) 2500 expected_plan
      sample_run

abbrev idle_db : Db
idle_db = db_of sample_claim sample_asset
