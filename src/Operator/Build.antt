-- ===== src/Operator/Build.antt =====
-- packages/claims/src/dispatch/ant-operator.ts: buildReservedBatch. The blockhash and the height are the
-- chain's answer, taken before the transaction; `none` is a thrown error, which rolls back.
use ar_io_solana_attestor.Prelude.{
  ℕ, String, Option, none, some, List, [], ◌∷◌, Bool, true, false, ◌&&◌, if◌then◌else◌, map, length,
}
use mathlib.Core.Option.{get_or}
use ar_io_solana_attestor.Audit.{Context, append_audit}
use ar_io_solana_attestor.Audit.Canonical.{string, number, array, end, field}
use ar_io_solana_attestor.Store.{Claim, Asset, Db, update_claim}
use ar_io_solana_attestor.Dispatch.{can_dispatch, asset_eligible}
use ar_io_solana_attestor.Worker.Queue.{select, order_by}
use ar_io_solana_attestor.Operator.{
  AntKit, AntBatchItem, SkipReason, no_ant_mint, no_longer_eligible, AntBatchSkipped,
  AntBatchResult, BuiltAntTx, build_ant_transfer_tx, present, AntRow, ant_rows, is_ant, batch_entry,
  texts,
}
use ar_io_solana_attestor.Operator.Reserve.{unsubmitted_in}

pub record BuildReservedBatchOpts : Type 0 where
  pub batch_id : String
  pub ant_cold_address : String
  pub include_memo : Option Bool

-- What the loop has after its rows: the table, what was built and what was skipped.
pub record Built : Type 0 where
  pub claims : List Claim
  pub items : List AntBatchItem
  pub skipped : List AntBatchSkipped

abbrev pub is_buildable : Claim → Asset → Bool
is_buildable c a =
    can_dispatch c.status c.approved_at && (is_ant a.asset_type && asset_eligible a.status)

abbrev pub skip : Claim → SkipReason → Option Built → Option Built
skip c reason none = none
skip c reason (some b) = some (record b {
  skipped = record { claim_id = c.claim_id; asset_key = c.asset_key; reason = reason } ∷ b.skipped;
})

abbrev pub item_of : Claim → Asset → String → BuiltAntTx → AntBatchItem
item_of c a mint tx = record {
  claim_id = c.claim_id;
  asset_key = c.asset_key;
  ant_mint = mint;
  ant_name = a.ant_name;
  claimant = c.claimant;
  tx_base64 = tx.tx_base64;
  txid = tx.txid;
  last_valid_block_height = tx.last_valid_block_height;
}

abbrev pub add_item : AntBatchItem → Option Built → Option Built
add_item i none = none
add_item i (some b) = some (record b { items = i ∷ b.items })

module _ (k : AntKit) (ctx : Context) (treasury : String) where
  abbrev pub built_row : BuiltAntTx → Claim → Claim
  built_row tx c = record c {
    ant_reserved_txid = some tx.txid;
    ant_reserved_blockhash = some tx.blockhash;
    ant_reserved_last_valid_bh = some tx.last_valid_block_height;
    ant_reserved_wire = some tx.tx_base64;
    updated_at = ctx.now;
  }

  -- `address(...)` throws at a text that is no address, and so may the signing.
  unfoldable pub build_row :
      String × ℕ → BuildReservedBatchOpts → Claim → String → Option BuiltAntTx
  build_row latest opts c mint =
      if k.kit.is_address mint && k.kit.is_address c.claimant
      then build_ant_transfer_tx k treasury (record {
        claim_id = c.claim_id;
        ant_mint = mint;
        claimant = c.claimant;
        ant_cold_address = opts.ant_cold_address;
        blockhash = latest.0;
        last_valid_block_height = latest.1;
        include_memo = get_or opts.include_memo true;
      })
      else none

  -- The loop's body, with the rest of the loop: on the transaction, by the test of eligibility and on
  -- the mint.
  module _ (opts : BuildReservedBatchOpts) (r : AntRow) (next : List Claim → Option Built) where
    abbrev pub on_tx : String → List Claim → Option BuiltAntTx → Option Built
    on_tx mint claims none = none
    on_tx mint claims (some tx) =
        add_item (item_of r.claim r.asset mint tx)
          (next (update_claim r.claim.claim_id (built_row tx) claims))

    abbrev pub if_buildable : String × ℕ → String → List Claim → Bool → Option Built
    if_buildable latest mint claims false =
        skip r.claim (no_longer_eligible r.claim.status r.asset.status) (next claims)
    if_buildable latest mint claims true = on_tx mint claims (build_row latest opts r.claim mint)

    abbrev pub on_mint : String × ℕ → List Claim → Option String → Option Built
    on_mint latest claims none = skip r.claim no_ant_mint (next claims)
    on_mint latest claims (some mint) =
        if_buildable latest mint claims (is_buildable r.claim r.asset)

  unfoldable pub build_loop :
      String × ℕ → BuildReservedBatchOpts → List AntRow → List Claim → Option Built
  build_loop latest opts [] claims = some (record { claims = claims; items = []; skipped = [] })
  build_loop latest opts (r ∷ rest) claims =
      on_mint opts r (build_loop latest opts rest) latest claims (present r.asset.ant_mint)

  abbrev pub built_db : String → String → Db → Built → Db
  built_db batch_id cold db b = record db {
    claims = b.claims;
    audit = append_audit ctx db.audit (
        batch_entry "ant.batch.build" "open" (
          field "batchId" (string batch_id) (
            field "createdBy" (string cold) (
              field "claimCount" (number (length b.items)) (
                field "claimIds" (array (texts (map (λ (i : AntBatchItem). i.claim_id) b.items))) (
                  field "txids" (array (texts (map (λ (i : AntBatchItem). i.txid) b.items))) (
                    field "skipped"
                      (array (texts (map (λ (s : AntBatchSkipped). s.claim_id) b.skipped)))
                      end)))))));
  }

  abbrev pub commit_build :
      BuildReservedBatchOpts → Db → Option Built → Option (Db × AntBatchResult)
  commit_build opts db none = none
  commit_build opts db (some b) = some (
    built_db opts.batch_id opts.ant_cold_address db b,
    record { batch_id = opts.batch_id; items = b.items; skipped = b.skipped },
  )

  abbrev pub with_blockhash :
      BuildReservedBatchOpts → Db → Option (String × ℕ) → Option (Db × AntBatchResult)
  with_blockhash opts db none = none
  with_blockhash opts db (some latest) = commit_build opts db (
      build_loop latest opts
        (ant_rows db.assets (
          order_by (λ (c : Claim). c.approved_at)
            (select (unsubmitted_in opts.batch_id) db.claims)))
        db.claims)

  unfoldable pub build_reserved_batch :
      Option (String × ℕ) → BuildReservedBatchOpts → Db → Option (Db × AntBatchResult)
  build_reserved_batch latest opts db = with_blockhash opts db latest
