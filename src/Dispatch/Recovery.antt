-- ===== src/Dispatch/Recovery.antt =====
-- packages/claims/src/dispatch/dispatch-core.ts: markNeedsOperator, clearDeadSignature, routeToReview
-- and routeToManualVaultDelivery; and approveClaim of packages/claims/src/dispatch/worker.ts.
use ar_io_solana_attestor.Prelude.{
  not, ◌&&◌, ℕ, ◌+◌, String, Option, none, some, Bool, true, false, if◌then◌else◌,
}
use ar_io_solana_attestor.Audit.{Context, append_audit}
use ar_io_solana_attestor.Audit.Canonical.{end, field, string}
use ar_io_solana_attestor.Store.{
  ClaimStatus, verified, dispatching, confirmed, needs_operator, awaiting_manual_vault_delivery,
  AssetStatus, Claim, Db, find_claim, update_claim, update_asset, one_live_claim_per_asset,
}
use ar_io_solana_attestor.Dispatch.{entry_of, optional_field, unless_claimed}

module _ (ctx : Context) where
  abbrev pub frozen_row : String → Claim → Claim
  frozen_row reason c = record c {
    status = needs_operator;
    error = some reason;
    updated_at = ctx.now;
  }

  -- Freezes a claim for an operator; `true` if it flipped.
  unfoldable pub mark_needs_operator : String → String → Db → Db × Bool
  mark_needs_operator claim_id reason db = elim (find_claim claim_id db.claims) [
    | none ↦ (db, false)
    | some c ↦ elim c.status [
      | confirmed ↦ (db, false)
      | needs_operator ↦ (db, false)
      | _ ↦ (
        record db {
          claims = update_claim claim_id (frozen_row reason) db.claims;
          audit =
              append_audit ctx db.audit
                (record (entry_of "claim.needs_operator" claim_id c.asset_key "needs_operator") {
                  reason = some reason;
                  detail = some (
                      field "severity" (string "critical")
                        (optional_field "deadSignature" c.dispatch_signature end));
                });
        },
        true,
      )
    ]
  ]

  abbrev pub revert_status : Option ℕ → ClaimStatus
  revert_status none = verified
  revert_status (some _) = ClaimStatus.pending_review

  abbrev pub revert_text : Option ℕ → String
  revert_text none = "verified"
  revert_text (some _) = "pending_review"

  abbrev pub cleared_row : ClaimStatus → Claim → Claim
  cleared_row revert_to c = record c {
    status = revert_to;
    dispatch_signature = none;
    dispatch_blockhash = none;
    dispatch_last_valid_bh = none;
    dispatch_resign_count = c.dispatch_resign_count + 1;
    updated_at = ctx.now;
  }

  -- Clears an expired signature, so that a fresh dispatch can sign again. A claim that is reserved
  -- into an operator's batch is refused.
  unfoldable pub clear_dead_signature : String → Db → Db
  clear_dead_signature claim_id db = elim (find_claim claim_id db.claims) [
    | none ↦ db
    | some c ↦ elim c.status [
      | dispatching ↦ elim c.ant_batch_id [
        | some _ ↦ db
        | none ↦ record db {
          claims = update_claim claim_id (cleared_row (revert_status c.approved_at)) db.claims;
          audit =
              append_audit ctx db.audit
                (record (entry_of "claim.dispatch_expired" claim_id c.asset_key
                  (revert_text c.approved_at)) {
                    detail = some (optional_field "deadSignature" c.dispatch_signature end);
                  });
        }
      ]
      | _ ↦ db
    ]
  ]

  abbrev pub set_status : ClaimStatus → Claim → Claim
  set_status status c = record c { status = status; updated_at = ctx.now }

  -- The statuses at which routeToReview and routeToManualVaultDelivery roll back.
  abbrev pub is_settled : ClaimStatus → Bool
  is_settled confirmed = true
  is_settled dispatching = true
  is_settled _ = false

  -- To pending_review, with the asset. A database in which the unique index would fail raises an
  -- error instead of committing.
  -- Whether the statements violate the index one_live_claim_per_asset, so that the call throws.
  unfoldable pub review_throws : String → Db → Bool
  review_throws claim_id db = elim (find_claim claim_id db.claims) [
    | none ↦ false
    | some c ↦
        not (is_settled c.status)
        && not (
            one_live_claim_per_asset
              (update_claim claim_id (set_status ClaimStatus.pending_review) db.claims))
  ]

  unfoldable pub route_to_review : String → String → String → Db → Db
  route_to_review claim_id asset_key reason db = elim (find_claim claim_id db.claims) [
    | none ↦ db
    | some c ↦
        let claims = update_claim claim_id (set_status ClaimStatus.pending_review) db.claims in
        if is_settled c.status
        then db
        else if one_live_claim_per_asset claims
        then record db {
          claims = claims;
          assets =
              update_asset asset_key (unless_claimed AssetStatus.pending_review ctx.now) db.assets;
          audit =
              append_audit ctx db.audit
                (record (entry_of "claim.pending_review" claim_id asset_key "pending_review") {
                  reason = some reason;
                });
        }
        else db
  ]

  abbrev pub manual_row : Claim → Claim
  manual_row c = record (set_status awaiting_manual_vault_delivery c) {
    settlement = some "manual_vault_relock";
  }

  -- A locked vault's claim to the operator's manual queue. The two times are the decimal texts that
  -- the code writes to the log.
  unfoldable pub route_to_manual_vault_delivery : String → String → String → String → Db → Db
  route_to_manual_vault_delivery claim_id asset_key unlock_ts lock_duration db =
      elim (find_claim claim_id db.claims) [
        | none ↦ db
        | some c ↦ if is_settled c.status then db else record db {
          claims = update_claim claim_id manual_row db.claims;
          assets =
              update_asset asset_key (unless_claimed AssetStatus.pending_review ctx.now) db.assets;
          audit =
              append_audit ctx db.audit
                (record (entry_of "claim.awaiting_manual_vault_delivery" claim_id asset_key
                  "awaiting_manual_vault_delivery") {
                    detail = some (
                        field "unlockTimestamp" (string unlock_ts)
                          (field "lockDurationSeconds" (string lock_duration) end));
                  });
        }
      ]

  abbrev pub is_approvable : ClaimStatus → Bool
  is_approvable ClaimStatus.pending_review = true
  is_approvable verified = true
  is_approvable _ = false

  abbrev pub status_text : ClaimStatus → String
  status_text verified = "verified"
  status_text _ = "pending_review"

  abbrev pub approved_row : String → Claim → Claim
  approved_row approved_by c = record c {
    approved_at = some ctx.now;
    approved_by = some approved_by;
    updated_at = ctx.now;
  }

  -- DispatchWorker.approveClaim of worker.ts; `none` is a thrown error, which rolls back.
  unfoldable pub approve_claim : String → String → Db → Option Db
  approve_claim claim_id approved_by db = elim (find_claim claim_id db.claims) [
    | none ↦ none
    | some c ↦
        if is_approvable c.status
        then some (record db {
          claims = update_claim claim_id (approved_row approved_by) db.claims;
          audit =
              append_audit ctx db.audit
                (record (entry_of "claim.approved" claim_id c.asset_key (status_text c.status)) {
                  detail = some (field "approvedBy" (string approved_by) end);
                });
        })
        else none
  ]
