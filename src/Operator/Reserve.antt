-- ===== src/Operator/Reserve.antt =====
-- packages/claims/src/dispatch/ant-operator.ts: expireStaleReservations, reserveAntBatch and
-- releaseAntBatch. A transaction is one step; `locked` are the claims that another session's transaction
-- holds, which SKIP LOCKED passes over. The new batch's id is an argument.
use ar_io_solana_attestor.Prelude.{
  ℕ, ◌-◌, String, Option, none, some, List, [], ◌∷◌, ◌++◌, Bool, true, false, not, ◌&&◌, str_eq,
  ltb, map, length, take,
}
use mathlib.Core.Option.{get_or}
use ar_io_solana_attestor.Audit.{Context, append_audit}
use ar_io_solana_attestor.Audit.Canonical.{string, number, array, end, field}
use ar_io_solana_attestor.Store.{
  Claim, Asset, BatchStatus, open_batch, submitted, expired_batch, AntBatch, Db, find_asset,
  update_claim,
}
use ar_io_solana_attestor.Dispatch.{any_eq, can_dispatch, asset_eligible}
use ar_io_solana_attestor.Dispatch.Recovery.{revert_status}
use ar_io_solana_attestor.Worker.Queue.{select, order_by}
use ar_io_solana_attestor.Operator.{
  AntReviewItem, AntReserveResult, AntRow, present, ant_rows, is_ant, is_null, in_batch,
  awaits_dispatch, batch_entry, texts, unreserved, update_where, set_batch_status, exists_claim,
}

pub record ReserveAntBatchOpts : Type 0 where
  pub ant_cold_address : String
  pub max : ℕ
  pub reservation_ttl_ms : Option ℕ
  pub require_approval : Option Bool
  pub asset_key_scope : Option (List String)

abbrev pub before : ℕ → Option ℕ → Bool
before cutoff none = false
before cutoff (some t) = ltb t cutoff

-- The condition of the UPDATE in expireStaleReservations.
abbrev pub is_stale : ℕ → Claim → Bool
is_stale cutoff c =
    before cutoff c.ant_reserved_at && is_null c.dispatch_signature && awaits_dispatch c.status

abbrev pub is_open : BatchStatus → Bool
is_open open_batch = true
is_open _ = false

abbrev pub is_unfinished : BatchStatus → Bool
is_unfinished open_batch = true
is_unfinished submitted = true
is_unfinished _ = false

-- `c.ant_batch_id = $1 AND c.dispatch_signature IS NULL`
abbrev pub unsubmitted_in : String → Claim → Bool
unsubmitted_in batch_id c = in_batch batch_id c && is_null c.dispatch_signature

-- The condition of the UPDATE in releaseAntBatch.
abbrev pub is_releasable : String → Claim → Bool
is_releasable batch_id c = unsubmitted_in batch_id c && awaits_dispatch c.status

module _ (ctx : Context) where
  abbrev pub released : Claim → Claim
  released c = record (unreserved ctx.now c) { status = revert_status ctx c.approved_at }

  -- The cutoff stops at 0, before which no claim is reserved. The second component counts the claims
  -- that are freed.
  unfoldable pub expire_stale_reservations : ℕ → Db → Db × ℕ
  expire_stale_reservations ttl_ms db =
      let cutoff = ctx.now - ttl_ms in
      let claims = update_where (is_stale cutoff) (unreserved ctx.now) db.claims in
      let is_abandoned = λ (b : AntBatch).
        is_open b.status
        && ltb b.created_at cutoff
        && not (exists_claim (in_batch b.batch_id) claims) in
      (
        record db {
          claims = claims;
          ant_batches = set_batch_status is_abandoned expired_batch db.ant_batches;
        },
        length (select (is_stale cutoff) db.claims),
      )

  abbrev pub reserved_row : String → Claim → Claim
  reserved_row batch_id c = record c {
    ant_batch_id = some batch_id;
    ant_reserved_at = some ctx.now;
    updated_at = ctx.now;
  }

  abbrev pub status_allows : Option Bool → Claim → Bool
  status_allows (some true) c = awaits_dispatch c.status && not (is_null c.approved_at)
  status_allows _ c = can_dispatch c.status c.approved_at

  abbrev pub key_in_scope : Option (List String) → String → Bool
  key_in_scope none key = true
  key_in_scope (some keys) key = any_eq key keys

  -- The WHERE clause of the query in reserveAntBatch, on a claim and its asset.
  abbrev pub is_reservable : ReserveAntBatchOpts → Claim → Option Asset → Bool
  is_reservable opts c none = false
  is_reservable opts c (some a) =
      is_ant a.asset_type
      && asset_eligible a.status
      && is_null c.dispatch_signature
      && is_null c.ant_batch_id
      && key_in_scope opts.asset_key_scope c.asset_key
      && status_allows opts.require_approval c

  unfoldable pub reservable_rows : List String → ReserveAntBatchOpts → Db → List AntRow
  reservable_rows locked opts db =
      let is_selected = λ (c : Claim).
        is_reservable opts c (find_asset c.asset_key db.assets) && not (any_eq c.claim_id locked) in
      ant_rows db.assets
        (take opts.max (order_by (λ (c : Claim). c.approved_at) (select is_selected db.claims)))

  -- The loop's body, with the rest of the loop: an ANT without a mint is passed over.
  abbrev pub reserve_one :
      String
      → AntRow
      → (List Claim → List Claim × List AntReviewItem)
      → List Claim
      → Option String
      → List Claim × List AntReviewItem
  reserve_one batch_id r next claims none = next claims
  reserve_one batch_id r next claims (some mint) =
      let reserved = next (update_claim r.claim.claim_id (reserved_row batch_id) claims) in
      (
        reserved.0,
        record {
          claim_id = r.claim.claim_id;
          asset_key = r.claim.asset_key;
          ant_mint = mint;
          ant_name = r.asset.ant_name;
          claimant = r.claim.claimant;
        }
            ∷ reserved.1,
      )

  unfoldable pub reserve_loop : String → List AntRow → List Claim → List Claim × List AntReviewItem
  reserve_loop batch_id [] claims = (claims, [])
  reserve_loop batch_id (r ∷ rest) claims =
      reserve_one batch_id r (reserve_loop batch_id rest) claims (present r.asset.ant_mint)

  -- The transaction of reserveAntBatch.
  unfoldable pub reserve_rows :
      String → List String → ReserveAntBatchOpts → Db → Db × List AntReviewItem
  reserve_rows batch_id locked opts db =
      let reserved = reserve_loop batch_id (reservable_rows locked opts db) db.claims in
      let items = reserved.1 in
      (
        record db {
          claims = reserved.0;
          ant_batches =
              db.ant_batches
              ++ record {
                batch_id = batch_id;
                created_at = ctx.now;
                created_by_pubkey = opts.ant_cold_address;
                claim_count = length items;
                status = open_batch;
                submitted_at = none;
              }
                ∷ [];
          audit = append_audit ctx db.audit (
              batch_entry "ant.batch.reserve" "open" (
                field "batchId" (string batch_id) (
                  field "createdBy" (string opts.ant_cold_address) (
                    field "claimCount" (number (length items)) (
                      field "claimIds"
                        (array (texts (map (λ (i : AntReviewItem). i.claim_id) items))) end)))));
        },
        items,
      )

  unfoldable pub reserve_ant_batch :
      String → List String → ReserveAntBatchOpts → Db → Db × AntReserveResult
  reserve_ant_batch batch_id locked opts db =
      let fresh = (expire_stale_reservations (get_or opts.reservation_ttl_ms 600_000) db).0 in
      let reserved = reserve_rows batch_id locked opts fresh in
      (reserved.0, record { batch_id = batch_id; items = reserved.1 })

  unfoldable pub release_ant_batch : String → Db → Db × ℕ
  release_ant_batch batch_id db =
      let freed = select (is_releasable batch_id) db.claims in
      let claims = update_where (is_releasable batch_id) released db.claims in
      let has_submitted =
        exists_claim (λ (c : Claim). in_batch batch_id c && not (is_null c.dispatch_signature))
          claims in
      let is_cancelled = λ (b : AntBatch).
        str_eq b.batch_id batch_id && is_unfinished b.status && not has_submitted in
      (
        record db {
          claims = claims;
          ant_batches = set_batch_status is_cancelled expired_batch db.ant_batches;
          audit = append_audit ctx db.audit (
              batch_entry "ant.batch.cancel" "expired" (
                field "batchId" (string batch_id) (
                  field "freed" (number (length freed)) (
                    field "claimIds" (array (texts (map (λ (c : Claim). c.claim_id) freed)))
                      end))));
        },
        length freed,
      )
