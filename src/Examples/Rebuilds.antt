-- ===== src/Examples/Rebuilds.antt =====
-- A forced rebuild of a ledger whose only asset is paid, and the one that is refused.
use ar_io_solana_attestor.Prelude.{
  ◌≡◌, refl, String, none, some, [], ◌∷◌, true, false, map, replicate,
}
use ar_io_solana_attestor.Audit.{Bytes}
use ar_io_solana_attestor.Store.{Asset, AssetStatus, token, Db, find_asset}
use ar_io_solana_attestor.Dispatch.{any_eq}
use ar_io_solana_attestor.Ledger.{
  PlannedRecipient, RecipientPlan, PlannedAsset, PlannedStatus, LedgerPlan,
}
use ar_io_solana_attestor.Ledger.Write.{
  is_buildable, BuildResult, write_ledger, new_recipient, build_result, insert_chunked, upsert_all,
  source_taken, all_fit, has_repeats, upsert_recipient, upsert_asset, refreshed_asset,
  has_live_asset, asset_rows, source_id,
}
use ar_io_solana_attestor.Ledger.Rebuild.{Stays, write_ledger-Stays}
use ar_io_solana_attestor.Examples.Fixtures.{sample_claim, sample_asset, db_of}

abbrev planned_recipient : PlannedRecipient
planned_recipient = record {
  source_address = "addr1";
  protocol = 0;
  recipient_pubkey = some (3 ∷ []);
  recipient_id = "addr1";
  status = RecipientPlan.open_recipient;
}

abbrev planned_asset : PlannedAsset
planned_asset = record {
  asset_key = "a1";
  asset_type = token;
  recipient_source = "addr1";
  ant_mint = none;
  amount = some 60;
  vault_end_ts = none;
  status = PlannedStatus.available;
}

abbrev sample_plan : LedgerPlan
sample_plan = record {
  recipients = planned_recipient ∷ [];
  assets = planned_asset ∷ [];
  counters = record { ant = 0; token_escrowed = 1; vault_escrowed = 0; stake_escrowed = 0 };
  phase2_token_outflow_mario = 60;
  phase3_vault_mario = 0;
  phase4_stake_mario = 0;
  at_risk_recipient_count = 0;
}

abbrev fresh_nonce : String → Bytes
fresh_nonce key = replicate 32 7

abbrev claimed_asset : Asset
claimed_asset = record sample_asset { status = AssetStatus.claimed }

abbrev live_db : Db
live_db = db_of sample_claim claimed_asset

abbrev rebuilt_db : Db
rebuilt_db = record live_db { recipients = new_recipient 2000 planned_recipient ∷ [] }

abbrev rebuilt : BuildResult
rebuilt = build_result 2000 sample_plan

write_ledger-Stays_example :
    Stays "a1" claimed_asset rebuilt_db.assets
    × (true ≡ false
        → is_buildable claimed_asset.status ≡ false
        → any_eq "a1" (map (λ (p : PlannedAsset). p.asset_key) sample_plan.assets) ≡ false)
unfolding write_ledger insert_chunked upsert_all has_repeats upsert_recipient upsert_asset
    refreshed_asset has_live_asset asset_rows source_id any_eq find_asset source_taken all_fit
write_ledger-Stays_example =
    write_ledger-Stays 2000 sample_plan fresh_nonce true "a1" claimed_asset live_db rebuilt_db
      rebuilt refl refl

unforced_rebuild : write_ledger 2000 sample_plan fresh_nonce false live_db ≡ none
unfolding write_ledger has_live_asset any_eq
unforced_rebuild = refl
