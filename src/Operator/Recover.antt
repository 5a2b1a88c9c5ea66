-- ===== src/Operator/Recover.antt =====
-- packages/claims/src/dispatch/ant-operator.ts: releaseReservationForRebuild and
-- recoverReservedAntClaim.
use ar_io_solana_attestor.Prelude.{◌+◌, String, Option, none, some, [], ◌∷◌, leb, if◌then◌else◌}
use mathlib.Core.Option.{get_or}
use ar_io_solana_attestor.Audit.{Context, append_audit}
use ar_io_solana_attestor.Audit.Canonical.{end, ◌+s◌}
use ar_io_solana_attestor.Gateway.{Gateway, ConfirmState}
use ar_io_solana_attestor.Gateway.Status.{without_empty}
use ar_io_solana_attestor.Store.{ClaimStatus, dispatching, Claim, Db, find_claim, update_claim}
use ar_io_solana_attestor.Dispatch.{entry_of, optional_field, signatures}
use ar_io_solana_attestor.Dispatch.Persist.{finalize_confirmed, mark_failed}
use ar_io_solana_attestor.Dispatch.Recovery.{mark_needs_operator, revert_status, revert_text}
use ar_io_solana_attestor.Dispatch.Core.{World}
use ar_io_solana_attestor.Operator.{AntKit, max_ant_rebuild_attempts, present, unreserved}

pub data AntSubmitOutcome : Type 0 where
  confirmed already_confirmed recovered_confirmed failed awaiting_confirmation : AntSubmitOutcome
  skipped needs_operator released_for_rebuild : AntSubmitOutcome
  rejected_no_authority_sig rejected_bad_authority_sig rejected_unknown_tx : AntSubmitOutcome
  rejected_undecodable : AntSubmitOutcome

pub record AntSubmitResult : Type 0 where
  pub txid : Option String
  pub claim_id : Option String
  pub asset_key : Option String
  pub outcome : AntSubmitOutcome
  pub signature : Option String

abbrev pub rebuild_cap_reason : String
rebuild_cap_reason =
    "ANT re-build cap (1) exceeded after repeated `expired` with no landed outflow — possible lagging/pooled confirm-RPC. Frozen for an operator; verify on-chain before any manual re-drive."

abbrev pub result_for : String → Option String → AntSubmitOutcome → Option String → AntSubmitResult
result_for claim_id asset_key outcome signature = record {
  txid = none;
  claim_id = some claim_id;
  asset_key = asset_key;
  outcome = outcome;
  signature = signature;
}

module _ (ctx : Context) where
  abbrev pub rebuild_row : Claim → Claim
  rebuild_row c = record (unreserved ctx.now c) {
    status = revert_status ctx c.approved_at;
    dispatch_signature = none;
    dispatch_blockhash = none;
    dispatch_last_valid_bh = none;
    dispatch_resign_count = c.dispatch_resign_count + 1;
  }

  abbrev pub rebuild_db : String → Claim → Db → Db
  rebuild_db claim_id c db = record db {
    claims = update_claim claim_id rebuild_row db.claims;
    audit =
        append_audit ctx db.audit
          (record (entry_of "ant.reservation_released" claim_id c.asset_key
            (revert_text ctx c.approved_at)) {
              detail = some (optional_field "deadSignature" c.dispatch_signature end);
            });
  }

  unfoldable pub release_reservation_for_rebuild : String → Db → Db
  release_reservation_for_rebuild claim_id db = elim (find_claim claim_id db.claims) [
    | none ↦ db
    | some c ↦ elim c.status [ dispatching ↦ rebuild_db claim_id c db | _ ↦ db ]
  ]

module _ (k : AntKit) (gateway : Gateway) (ctx : Context) (treasury : String)
    (claim_id : String) where
  abbrev finalizes : Claim → String → World → World × Option AntSubmitResult
  finalizes c sig w = (
    record w { db = finalize_confirmed ctx claim_id sig w.db },
    some (result_for claim_id (some c.asset_key) recovered_confirmed (some sig)),
  )

  -- The scan has answered, or throws: finalize, or freeze at the cap, or free the reservation.
  abbrev pub resolve_outflow :
      Claim → String → World → Option (Option String) → World × Option AntSubmitResult
  resolve_outflow c sig w none = (w, none)
  resolve_outflow c sig w (some (some landed)) = finalizes c landed w
  resolve_outflow c sig w (some none) =
      if leb max_ant_rebuild_attempts c.dispatch_resign_count
      then (
        record w { db = (mark_needs_operator ctx claim_id rebuild_cap_reason w.db).0 },
        some (result_for claim_id (some c.asset_key) needs_operator (some sig)),
      )
      else (
        record w { db = release_reservation_for_rebuild ctx claim_id w.db },
        some (result_for claim_id (some c.asset_key) released_for_rebuild (some sig)),
      )

  abbrev pub recover_expired : Claim → String → World → World × Option AntSubmitResult
  recover_expired c sig w =
      if k.kit.is_address c.claimant
      then resolve_outflow c sig w (
          gateway.find_confirmed_outflow (treasury ∷ c.claimant ∷ [])
            (without_empty (sig ∷ signatures c)))
      else (w, none)

  abbrev pub recover_as :
      Claim → String → World → Option ConfirmState → World × Option AntSubmitResult
  recover_as c sig w none = (w, none)
  recover_as c sig w (some ConfirmState.confirmed) = finalizes c sig w
  recover_as c sig w (some ConfirmState.failed) = (
    record w { db = mark_failed ctx claim_id ("on-chain tx " +s sig +s " failed") w.db },
    some (result_for claim_id (some c.asset_key) failed (some sig)),
  )
  recover_as c sig w (some ConfirmState.expired) = recover_expired c sig w
  recover_as c sig w (some ConfirmState.pending) =
      (w, some (result_for claim_id (some c.asset_key) awaiting_confirmation (some sig)))

  -- A dispatching claim, by its signature.
  abbrev pub recover_dispatching : Claim → World → Option String → World × Option AntSubmitResult
  recover_dispatching c w none = (w, some (result_for claim_id (some c.asset_key) skipped none))
  recover_dispatching c w (some sig) =
      recover_as c sig w (gateway.confirm_signature sig (get_or c.dispatch_last_valid_bh 0))

  abbrev pub recover_status : Claim → World → ClaimStatus → World × Option AntSubmitResult
  recover_status c w ClaimStatus.confirmed =
      (w, some (result_for claim_id (some c.asset_key) already_confirmed c.dispatch_signature))
  recover_status c w dispatching = recover_dispatching c w (present c.dispatch_signature)
  recover_status c w _ = (w, some (result_for claim_id (some c.asset_key) skipped none))

  abbrev pub recover_claim : World → Option Claim → World × Option AntSubmitResult
  recover_claim w none = (w, some (result_for claim_id none skipped none))
  recover_claim w (some c) = recover_status c w c.status

  -- The second component is `none` where the call throws.
  unfoldable pub recover_reserved_ant_claim : World → World × Option AntSubmitResult
  recover_reserved_ant_claim w = recover_claim w (find_claim claim_id w.db.claims)
