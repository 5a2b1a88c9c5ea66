-- ===== src/Examples/Reconciliations.antt =====
-- The report on a ledger whose only claim is paid.
use ar_io_solana_attestor.Prelude.{some, [], ◌∷◌}
use ar_io_solana_attestor.Audit.{append_audit}
use ar_io_solana_attestor.Store.{Claim, Asset, AssetStatus, confirmed, Db}
use ar_io_solana_attestor.Dispatch.{entry_of}
use ar_io_solana_attestor.Examples.Fixtures.{sample_ctx, sample_claim, sample_asset}

abbrev paid_claim : Claim
paid_claim = record sample_claim {
  status = confirmed;
  dispatch_signature = some "sig1";
  settlement_amount = some 50;
}

abbrev paid_asset : Asset
paid_asset = record sample_asset { status = AssetStatus.claimed }

abbrev paid_db : Db
paid_db = record {
  claims = paid_claim ∷ [];
  assets = paid_asset ∷ [];
  recipients = [];
  ant_batches = [];
  audit =
      append_audit sample_ctx
        (append_audit sample_ctx (record { rows = []; next_seq = 1 })
          (entry_of "claim.dispatching" "c1" "a1" "dispatching"))
        (entry_of "claim.confirmed" "c1" "a1" "confirmed");
}
