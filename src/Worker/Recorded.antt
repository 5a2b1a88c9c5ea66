-- ===== src/Worker/Recorded.antt =====
-- processClaim and runOnce of packages/claims/src/dispatch/worker.ts: a send is recorded before it
-- is broadcast.
use ar_io_solana_attestor.Prelude.{◌≡◌, refl, String, Option, none, some, arith}
use mathlib.Core.Path.{subst}
use mathlib.Core.Option.{get_or}
use ar_io_solana_attestor.Audit.{Context}
use ar_io_solana_attestor.Audit.Canonical.{◌+s◌}
use ar_io_solana_attestor.Gateway.{Gateway, ConfirmState}
use ar_io_solana_attestor.Instructions.{Kit}
use ar_io_solana_attestor.Store.{Claim, ClaimStatus, confirmed, find_claim}
use ar_io_solana_attestor.Store.Laws.{find_claim-id}
use ar_io_solana_attestor.Dispatch.Recovery.{mark_needs_operator, clear_dead_signature}
use ar_io_solana_attestor.Dispatch.Transitions.{finalize, fail, freeze, clear, apply}
use ar_io_solana_attestor.Dispatch.Core.{
  World, Reply, returns, skipped, needs_operator, awaiting_approval,
}
use ar_io_solana_attestor.Worker.{DispenserSigner, Deps}
use ar_io_solana_attestor.Worker.Fresh.{dispatch_fresh}
use ar_io_solana_attestor.Worker.Process.{
  resign_cap_reason, resolve_outflow, recover_as, recover, process_open, process_at, process_row,
  process_claim, scan_addresses, known_signatures,
}
use ar_io_solana_attestor.Worker.Sends.{Effect}
use ar_io_solana_attestor.Worker.Effects.{
  Acts, Acts-Effect, Acts-same, Acts-throws, Acts-apply, Acts-after, dispatch_fresh-Acts,
}

module _ (kit : Kit) (deps : Deps) (gateway : Gateway) (ctx : Context) where
  module _ (override : Option DispenserSigner) (snap : Claim) where
    freezes-Acts :
        (w : World) (reply : Reply)
        → Acts snap.claim_id w (
          record w { db = (mark_needs_operator ctx snap.claim_id resign_cap_reason w.db).0 },
          reply,
        )
    unfolding apply
    freezes-Acts w reply = Acts-apply ctx (freeze snap.claim_id resign_cap_reason) w

    again-Acts :
        (w : World)
        → Acts snap.claim_id w (
            dispatch_fresh kit deps gateway ctx override snap.claim_id
              (record w { db = clear_dead_signature ctx snap.claim_id w.db }))
    unfolding apply
    again-Acts w = Acts-after ctx (clear snap.claim_id) w _ (
        dispatch_fresh-Acts kit deps gateway ctx override snap.claim_id
          (record w { db = clear_dead_signature ctx snap.claim_id w.db }))

    resolve_outflow-Acts :
        (sig : String) (w : World) (outflow : Option (Option String))
        → Acts snap.claim_id w (resolve_outflow kit deps gateway ctx override snap sig w outflow)
    unfolding apply
    resolve_outflow-Acts sig w none = Acts-same
    resolve_outflow-Acts sig w (some (some landed)) =
        Acts-apply ctx (finalize snap.claim_id landed) w
    resolve_outflow-Acts sig w (some none) =
        ground (arith, freezes-Acts w (returns needs_operator (some sig)), again-Acts w)

    recover_as-Acts :
        (sig : String) (w : World) (state : Option ConfirmState)
        → Acts snap.claim_id w (recover_as kit deps gateway ctx override snap sig w state)
    unfolding apply
    recover_as-Acts sig w none = Acts-same
    recover_as-Acts sig w (some ConfirmState.confirmed) =
        Acts-apply ctx (finalize snap.claim_id sig) w
    recover_as-Acts sig w (some ConfirmState.failed) =
        Acts-apply ctx (fail snap.claim_id ("on-chain tx " +s sig +s " failed")) w
    recover_as-Acts sig w (some ConfirmState.expired) = ground (
      arith,
      resolve_outflow-Acts sig w (
          gateway.find_confirmed_outflow (scan_addresses kit deps gateway ctx snap)
            (known_signatures kit deps gateway ctx snap sig)),
      Acts-throws snap.claim_id w,
    )
    recover_as-Acts sig w (some ConfirmState.pending) = Acts-same

    skips-Acts : (w : World) (reply : Reply) → Acts snap.claim_id w (w, reply)
    skips-Acts w reply = Acts-same

    recover-Acts : (w : World) → Acts snap.claim_id w (recover kit deps gateway ctx override snap w)
    unfolding recover
    recover-Acts w = ground (
      arith,
      skips-Acts w (returns skipped none),
      recover_as-Acts (get_or snap.dispatch_signature "") w (
          gateway.confirm_signature (get_or snap.dispatch_signature "")
            (get_or snap.dispatch_last_valid_bh 0)),
    )

    process_open-Acts :
        (w : World) (status : ClaimStatus)
        → Acts snap.claim_id w (process_open kit deps gateway ctx override snap w status)
    process_open-Acts w status = ground (
      arith,
      skips-Acts w (returns skipped none),
      skips-Acts w (returns awaiting_approval none),
      recover-Acts w,
      dispatch_fresh-Acts kit deps gateway ctx override snap.claim_id w,
    )

    process_at-Acts :
        (w : World) (status : ClaimStatus)
        → Acts snap.claim_id w (process_at kit deps gateway ctx override snap w status)
    process_at-Acts w confirmed = Acts-same
    process_at-Acts w status =
        ground (arith, skips-Acts w (returns skipped none), process_open-Acts w status)

  process_row-Acts :
      (override : Option DispenserSigner) (id : String) (w : World) (row : Option Claim)
      → find_claim id w.db.claims ≡ row
      → Acts id w (process_row kit deps gateway ctx override w row)
  process_row-Acts override id w none e = Acts-same
  process_row-Acts override id w (some snap) e =
      subst (λ x. Acts x w (process_row kit deps gateway ctx override w (some snap)))
        (find_claim-id id w.db.claims snap e) (process_at-Acts override snap w snap.status)

-- A call of processClaim changes the database by transactions of the dispatch and approval code
-- only, and broadcasts nothing or one transaction, whose signature the claim's row lists when the
-- call ends.
pub process_claim-Effect :
    (kit : Kit) (deps : Deps) (gateway : Gateway) (ctx : Context)
    (override : Option DispenserSigner) (id : String) (w : World)
    → Effect id w (process_claim kit deps gateway ctx override id w).0
unfolding process_claim
process_claim-Effect kit deps gateway ctx override id w =
    Acts-Effect id w _
      (process_row-Acts kit deps gateway ctx override id w (find_claim id w.db.claims) refl)
