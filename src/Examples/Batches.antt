-- ===== src/Examples/Batches.antt =====
-- An operator's batch with one ANT, from its reservation to a submission.
use ar_io_solana_attestor.Prelude.{
  ◌+◌, ◌≡◌, List, length, ◌≤◌, refl, String, none, some, [], true, false, ◌≢◌, eq_iff, ◌∷◌, str_eq,
  if◌then◌else◌, arith,
}
use ar_io_solana_attestor.Store.{
  Claim, Asset, ant, dispatching, Db, find_claim, find_asset, update_claim,
}
use ar_io_solana_attestor.Dispatch.Core.{World}
use ar_io_solana_attestor.Gateway.{Gateway, ConfirmState}
use ar_io_solana_attestor.Operator.{AntKit, Decoded}
use ar_io_solana_attestor.Dispatch.{any_eq}
use ar_io_solana_attestor.Worker.Queue.{order_by, insert_row, select}
use ar_io_solana_attestor.Operator.{update_where, ant_rows}
use ar_io_solana_attestor.Operator.Recover.{
  AntSubmitResult, recover_reserved_ant_claim, release_reservation_for_rebuild,
}
use ar_io_solana_attestor.Operator.Reserve.{
  ReserveAntBatchOpts, reserve_rows, reservable_rows, reserve_loop, expire_stale_reservations,
  reserve_ant_batch, release_ant_batch,
}
use ar_io_solana_attestor.Operator.Submit.{
  SubmitAntBatchOpts, find_reservation, submit_all, closed, finalize_batch_status,
  write_submit_audit, submit_one_ant_tx, submit_ant_batch,
}
use ar_io_solana_attestor.Operator.Submitted.{submitted_rows}
use ar_io_solana_attestor.Operator.Steps.{done, then_step, reserve, release, BatchSteps-submitted}
use ar_io_solana_attestor.Operator.Rebuilds.{rebuilds, releases}
use ar_io_solana_attestor.Operator.Rebuilds.Batch.{submit_ant_batch-releases}
use ar_io_solana_attestor.Float.Solvency.{UniqueIds}
use ar_io_solana_attestor.Examples.Fixtures.{
  sample_ctx, sample_kit, sample_claim, sample_asset, sample_gateway, db_of,
}

abbrev ant_asset : Asset
ant_asset = record sample_asset { asset_type = ant; ant_mint = some "mint1"; amount = none }

abbrev ant_claim : Claim
ant_claim = record sample_claim {
  ant_batch_id = some "b1";
  ant_reserved_at = some 900;
  ant_reserved_txid = some "tx1";
  ant_reserved_blockhash = some "hash1";
  ant_reserved_last_valid_bh = some 500;
  ant_reserved_wire = some "wire1";
}

-- A decoded transaction with the operator's signature at "cold".
abbrev signed_tx : Decoded
signed_tx = record {
  message_bytes = 1 ∷ [];
  signatures = λ a. if str_eq a "cold" then some (9 ∷ []) else none;
}

abbrev sample_ant_kit : AntKit
sample_ant_kit = record {
  kit = sample_kit;
  partially_sign = λ ixs payer hash height. some signed_tx;
  get_signature = λ d. some "tx1";
  encode_wire = λ d. "wire1";
  decode_wire = λ s. some signed_tx;
  base58_decode = λ s. some (5 ∷ []);
  ed25519_verify = λ sig message key. some true;
}

abbrev submit_opts : SubmitAntBatchOpts
submit_opts = record {
  batch_id = "b1";
  signed_txs = "wire1" ∷ [];
  ant_cold_address = "cold";
  treasury_address = "treasury";
}

abbrev reserved_world : World
reserved_world = record { db = db_of ant_claim ant_asset; broadcasts = [] }

-- A submitted transaction that has expired and not landed.
abbrev submitted_claim : Claim
submitted_claim = record ant_claim { status = dispatching; dispatch_signature = some "tx1" }

abbrev expired_gateway : Gateway
expired_gateway = record sample_gateway {
  confirm_signature = λ sig height. some ConfirmState.expired;
}

abbrev submitted_world : World
submitted_world = record { db = db_of submitted_claim ant_asset; broadcasts = [] }

abbrev submission : World × List AntSubmitResult
submission = closed sample_ant_kit expired_gateway sample_ctx submit_opts (
    submit_all sample_ant_kit expired_gateway sample_ctx submit_opts (5 ∷ []) submit_opts.signed_txs
      submitted_world)

submit_ant_batch-releases_example :
    (rebuilds "c1" submitted_world.db + releases "c1" submission.1 ≤ 1)
    × (rebuilds "c1" submission.0.db
        ≡ rebuilds "c1" submitted_world.db + releases "c1" submission.1)
unfolding submit_ant_batch find_claim
submit_ant_batch-releases_example =
    submit_ant_batch-releases sample_ant_kit expired_gateway sample_ctx submit_opts "c1"
      submitted_world submission.0 submission.1 (omega arith) refl

-- The submission above releases the claim for its one rebuild.
released_once : releases "c1" submission.1 ≡ 1
unfolding submit_all submit_one_ant_tx find_reservation find_claim recover_reserved_ant_claim
    release_reservation_for_rebuild finalize_batch_status write_submit_audit update_claim
released_once = refl

abbrev reserve_opts : ReserveAntBatchOpts
reserve_opts = record {
  ant_cold_address = "cold";
  max = 10;
  reservation_ttl_ms = none;
  require_approval = none;
  asset_key_scope = none;
}

abbrev two_claims : Db
two_claims = record (db_of sample_claim ant_asset) {
  claims = sample_claim ∷ record submitted_claim { claim_id = "c2" } ∷ [];
}

abbrev after_cancel : Db
after_cancel =
    (release_ant_batch sample_ctx "b2"
      (reserve_ant_batch sample_ctx "b2" [] reserve_opts two_claims).0).0

-- One claim is eligible, and it is reserved.
one_reserved : (length (reserve_ant_batch sample_ctx "b2" [] reserve_opts two_claims).1.items) ≡ 1
unfolding reserve_ant_batch reserve_rows reservable_rows reserve_loop expire_stale_reservations
    ant_rows find_asset order_by insert_row select update_where any_eq
one_reserved = refl

differ : (s t : String) → str_eq s t ≡ false → s ≢ t
differ s t h = λ e. ground (arith, eq_iff s t)

BatchSteps-submitted_example : submitted_rows after_cancel.claims ≡ submitted_rows two_claims.claims
unfolding UniqueIds
BatchSteps-submitted_example =
    BatchSteps-submitted two_claims after_cancel ((differ "c2" "c1" refl, tt), (tt, tt))
      (then_step (then_step done (reserve sample_ctx "b2" [] reserve_opts two_claims))
        (release sample_ctx "b2" (reserve_ant_batch sample_ctx "b2" [] reserve_opts two_claims).0))
