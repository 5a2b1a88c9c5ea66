-- ===== src/Worker/Process.antt =====
-- DispatchWorker of packages/claims/src/dispatch/worker.ts: processClaim, #recover and
-- #markNeedsOperator. A call is the sole writer while it runs; dispatch-core.ts checks each
-- transaction against the rows that it locks.
use ar_io_solana_attestor.Prelude.{
  String, Option, none, some, List, [], ◌∷◌, Bool, false, not, str_eq, leb, if◌then◌else◌,
}
use mathlib.Core.Option.{get_or}
use ar_io_solana_attestor.Audit.{Context}
use ar_io_solana_attestor.Audit.Canonical.{◌+s◌}
use ar_io_solana_attestor.Gateway.{Gateway, ConfirmState}
use ar_io_solana_attestor.Gateway.Status.{without_empty}
use ar_io_solana_attestor.Instructions.{Kit}
use ar_io_solana_attestor.Store.{
  Claim, ClaimStatus, verified, dispatching, pending_review, confirmed, find_claim,
}
use ar_io_solana_attestor.Dispatch.{signatures}
use ar_io_solana_attestor.Dispatch.Persist.{finalize_confirmed, mark_failed}
use ar_io_solana_attestor.Dispatch.Recovery.{mark_needs_operator, clear_dead_signature}
use ar_io_solana_attestor.Dispatch.Core.{
  World, already_confirmed, recovered_confirmed, failed, awaiting_confirmation, awaiting_approval,
  needs_operator, skipped, Reply, returns, throws,
}
use ar_io_solana_attestor.Worker.{DispenserSigner, Deps, max_resign_attempts}
use ar_io_solana_attestor.Worker.Fresh.{is_approved, dispatch_fresh}

abbrev pub resign_cap_reason : String
resign_cap_reason =
    "dispatch re-sign cap (1) exceeded after repeated `expired` classifications with no landed outflow — possible lagging/pooled confirm-RPC. Frozen for an operator; do NOT auto-retry. Verify on-chain before any manual re-drive."

-- `!!s` of a text that may be null: the empty text is false.
abbrev pub truthy : Option String → Bool
truthy none = false
truthy (some s) = not (str_eq s "")

module _ (kit : Kit) (deps : Deps) (gateway : Gateway) (ctx : Context) where
  abbrev finalizes : String → String → World → World × Reply
  finalizes claim_id sig w = (
    record w { db = finalize_confirmed ctx claim_id sig w.db },
    returns recovered_confirmed (some sig),
  )

  -- The scan for a landed transaction has answered, or throws: finalize, or sign again once, or
  -- freeze.
  abbrev pub resolve_outflow :
      Option DispenserSigner → Claim → String → World → Option (Option String) → World × Reply
  resolve_outflow override snap sig w none = (w, throws)
  resolve_outflow override snap sig w (some (some landed)) = finalizes snap.claim_id landed w
  resolve_outflow override snap sig w (some none) =
      if leb max_resign_attempts snap.dispatch_resign_count
      then (
        record w { db = (mark_needs_operator ctx snap.claim_id resign_cap_reason w.db).0 },
        returns needs_operator (some sig),
      )
      else dispatch_fresh kit deps gateway ctx override snap.claim_id
          (record w { db = clear_dead_signature ctx snap.claim_id w.db })

  abbrev pub scan_addresses : Claim → List String
  scan_addresses snap = deps.token_signer.address ∷ snap.claimant ∷ []

  abbrev pub known_signatures : Claim → String → List String
  known_signatures snap sig = without_empty (sig ∷ signatures snap)

  abbrev pub resolve_expired : Option DispenserSigner → Claim → String → World → World × Reply
  resolve_expired override snap sig w =
      if kit.is_address snap.claimant
      then resolve_outflow override snap sig w
          (gateway.find_confirmed_outflow (scan_addresses snap) (known_signatures snap sig))
      else (w, throws)

  abbrev pub recover_as :
      Option DispenserSigner → Claim → String → World → Option ConfirmState → World × Reply
  recover_as override snap sig w none = (w, throws)
  recover_as override snap sig w (some ConfirmState.confirmed) = finalizes snap.claim_id sig w
  recover_as override snap sig w (some ConfirmState.failed) = (
    record w { db = mark_failed ctx snap.claim_id ("on-chain tx " +s sig +s " failed") w.db },
    returns failed (some sig),
  )
  recover_as override snap sig w (some ConfirmState.expired) = resolve_expired override snap sig w
  recover_as override snap sig w (some ConfirmState.pending) =
      (w, returns awaiting_confirmation (some sig))

  unfoldable pub recover : Option DispenserSigner → Claim → World → World × Reply
  recover override snap w =
      let sig = get_or snap.dispatch_signature "" in
      if truthy snap.ant_batch_id
      then (w, returns skipped none)
      else recover_as override snap sig w
          (gateway.confirm_signature sig (get_or snap.dispatch_last_valid_bh 0))

  -- The claim is not reserved into an operator's batch; by its status.
  abbrev pub process_open : Option DispenserSigner → Claim → World → ClaimStatus → World × Reply
  process_open override snap w dispatching =
      if truthy snap.dispatch_signature then recover override snap w else (w, returns skipped none)
  process_open override snap w verified =
      if truthy snap.dispatch_signature
      then recover override snap w
      else dispatch_fresh kit deps gateway ctx override snap.claim_id w
  process_open override snap w pending_review =
      if is_approved snap
      then dispatch_fresh kit deps gateway ctx override snap.claim_id w
      else (w, returns awaiting_approval none)
  process_open override snap w _ = (w, returns skipped none)

  abbrev pub process_at : Option DispenserSigner → Claim → World → ClaimStatus → World × Reply
  process_at override snap w confirmed = (w, returns already_confirmed snap.dispatch_signature)
  process_at override snap w status =
      if truthy snap.ant_batch_id
      then (w, returns skipped none)
      else process_open override snap w status

  abbrev pub process_row : Option DispenserSigner → World → Option Claim → World × Reply
  process_row override w none = (w, returns skipped none)
  process_row override w (some snap) = process_at override snap w snap.status

  unfoldable pub process_claim : Option DispenserSigner → String → World → World × Reply
  process_claim override claim_id w = process_row override w (find_claim claim_id w.db.claims)
