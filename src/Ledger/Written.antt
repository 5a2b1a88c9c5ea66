-- ===== src/Ledger/Written.antt =====
-- A plan of buildLedgerPlan, packages/claims/src/ledger/plan.ts, goes through writeLedger of build.ts.
use ar_io_solana_attestor.Prelude.{ℕ, ◌≡◌, String, some, List, false}
use ar_io_solana_attestor.Audit.{Bytes}
use ar_io_solana_attestor.Store.{Db}
use ar_io_solana_attestor.Ledger.{PlannedRecipient, LedgerPlan}
use ar_io_solana_attestor.Ledger.Write.{
  AssetRow, upsert_all, upsert_recipient, upsert_asset, build_result, write_ledger,
}
use ar_io_solana_attestor.Ledger.Balance.{total_count}
use ar_io_solana_attestor.Prelude.{All}
use ar_io_solana_attestor.Ledger.Rows.{AreRowsOf}
use ar_io_solana_attestor.Ledger.Landed.{Holds}

module _ (now : ℕ) (plan : LedgerPlan) (db : Db) where
  -- The database after a write of these rows.
  abbrev written_db : List AssetRow → Db
  written_db rows = record db {
    recipients =
        upsert_all (λ (r : PlannedRecipient). r.recipient_id) (upsert_recipient now) plan.recipients
          db.recipients;
    assets = upsert_all (λ (r : AssetRow). r.planned.asset_key) (upsert_asset now) rows db.assets;
  }

  -- writeLedger commits one upsert for each recipient and for each asset, the table then holds each
  -- asset with its planned columns, and the number of available assets is the manifest's.
  pub record IsWritten (nonces : String → Bytes) : Type 0 where
    pub rows : List AssetRow
    pub are_rows : AreRowsOf nonces plan.recipients plan.assets rows
    pub written :
        write_ledger now plan nonces false db ≡ some (written_db rows, build_result now plan)
    pub are_held : All (λ (r : AssetRow). Holds r (written_db rows).assets) rows
    pub same_available : (build_result now plan).available_assets ≡ total_count plan.counters
