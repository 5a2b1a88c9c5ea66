-- ===== src/Dispatch/Confirmed.antt =====
-- A confirmed claim stays as it is through the transactions of the dispatch.
use ar_io_solana_attestor.Prelude.{String, ◌≡◌, refl, some, List, [], ◌∷◌, arith, eq_iff}
use mathlib.Core.Option.{get_or}
use ar_io_solana_attestor.Audit.{Context}
use ar_io_solana_attestor.Store.{ClaimStatus, verified, confirmed, Claim, Db, find_claim}
use ar_io_solana_attestor.Store.Laws.{find_claim-update_claim}
use ar_io_solana_attestor.Dispatch.{PersistDispatchingArgs}
use ar_io_solana_attestor.Dispatch.Persist.{
  persist_dispatching, finalize_confirmed, mark_failed, dispatching_row, confirmed_row, failed_row,
}
use ar_io_solana_attestor.Dispatch.Recovery.{
  mark_needs_operator, clear_dead_signature, route_to_review, route_to_manual_vault_delivery,
  approve_claim, frozen_row, cleared_row, set_status, manual_row, approved_row,
}
use ar_io_solana_attestor.Dispatch.Transitions.{
  Transition, persist, finalize, fail, freeze, clear, review, deliver_manually, approve, apply, run,
}

-- A confirmed claim's row, through each transaction.
module _ (ctx : Context) (id : String) (c : Claim) (settled : c.status ≡ confirmed) where
  finalize-confirmed :
      (j sig : String) (db : Db)
      → find_claim id db.claims ≡ some c
      → find_claim id (finalize_confirmed ctx j sig db).claims ≡ some c
  unfolding finalize_confirmed
  finalize-confirmed j sig db found = ground (
    arith,
    find_claim-update_claim (confirmed_row ctx sig) (λ d. refl) j id db.claims,
    eq_iff j id,
  )

  fail-confirmed :
      (j reason : String) (db : Db)
      → find_claim id db.claims ≡ some c
      → find_claim id (mark_failed ctx j reason db).claims ≡ some c
  unfolding mark_failed
  fail-confirmed j reason db found = ground (
    arith,
    find_claim-update_claim (failed_row ctx reason) (λ d. refl) j id db.claims,
    eq_iff j id,
  )

  freeze-confirmed :
      (j reason : String) (db : Db)
      → find_claim id db.claims ≡ some c
      → find_claim id (mark_needs_operator ctx j reason db).0.claims ≡ some c
  unfolding mark_needs_operator
  freeze-confirmed j reason db found = ground (
    arith,
    find_claim-update_claim (frozen_row ctx reason) (λ d. refl) j id db.claims,
    eq_iff j id,
  )

  review-confirmed :
      (j key reason : String) (db : Db)
      → find_claim id db.claims ≡ some c
      → find_claim id (route_to_review ctx j key reason db).claims ≡ some c
  unfolding route_to_review
  review-confirmed j key reason db found = ground (
    arith,
    find_claim-update_claim (set_status ctx ClaimStatus.pending_review) (λ d. refl) j id db.claims,
    eq_iff j id,
  )

  deliver_manually-confirmed :
      (j key unlock lock : String) (db : Db)
      → find_claim id db.claims ≡ some c
      → find_claim id (route_to_manual_vault_delivery ctx j key unlock lock db).claims ≡ some c
  unfolding route_to_manual_vault_delivery
  deliver_manually-confirmed j key unlock lock db found =
      ground
        (arith, find_claim-update_claim (manual_row ctx) (λ d. refl) j id db.claims, eq_iff j id)

  approve-confirmed :
      (j approver : String) (db : Db)
      → find_claim id db.claims ≡ some c
      → find_claim id (get_or (approve_claim ctx j approver db) db).claims ≡ some c
  unfolding approve_claim
  approve-confirmed j approver db found = ground (
    arith,
    find_claim-update_claim (approved_row ctx approver) (λ d. refl) j id db.claims,
    eq_iff j id,
  )

  persist-confirmed :
      (args : PersistDispatchingArgs) (db : Db)
      → find_claim id db.claims ≡ some c
      → find_claim id (get_or (persist_dispatching ctx args db) db).claims ≡ some c
  unfolding persist_dispatching
  persist-confirmed args db found = ground (
    arith,
    find_claim-update_claim (dispatching_row ctx args) (λ d. refl) args.claim_id id db.claims,
    eq_iff args.claim_id id,
  )

  clear-confirmed :
      (j : String) (db : Db)
      → find_claim id db.claims ≡ some c
      → find_claim id (clear_dead_signature ctx j db).claims ≡ some c
  unfolding clear_dead_signature
  clear-confirmed j db found = ground (
    arith,
    find_claim-update_claim (cleared_row ctx verified) (λ d. refl) j id db.claims,
    find_claim-update_claim (cleared_row ctx ClaimStatus.pending_review) (λ d. refl) j id db.claims,
    eq_iff j id,
  )

  apply-confirmed :
      (t : Transition) (db : Db)
      → find_claim id db.claims ≡ some c
      → find_claim id (apply ctx t db).claims ≡ some c
  unfolding apply
  apply-confirmed (persist args) db found = persist-confirmed args db found
  apply-confirmed (finalize j sig) db found = finalize-confirmed j sig db found
  apply-confirmed (fail j reason) db found = fail-confirmed j reason db found
  apply-confirmed (freeze j reason) db found = freeze-confirmed j reason db found
  apply-confirmed (clear j) db found = clear-confirmed j db found
  apply-confirmed (review j key reason) db found = review-confirmed j key reason db found
  apply-confirmed (deliver_manually j key unlock lock) db found =
      deliver_manually-confirmed j key unlock lock db found
  apply-confirmed (approve j approver) db found = approve-confirmed j approver db found

-- No sequence of these transactions changes any column of the row of a confirmed claim.
pub run-confirmed :
    (ts : List (Context × Transition)) (db : Db) (id : String) (c : Claim)
    → find_claim id db.claims ≡ some c
    → c.status ≡ confirmed
    → find_claim id (run ts db).claims ≡ some c
unfolding run
run-confirmed [] db id c found settled = found
run-confirmed ((ctx, t) ∷ rest) db id c found settled =
    run-confirmed rest (apply ctx t db) id c (apply-confirmed ctx id c settled t db found) settled
