-- ===== src/Operator/Rebuilds/Batch.antt =====
-- The rebuilds that submitAntBatch reports, and their counter: submitAntBatch of
-- packages/claims/src/dispatch/ant-operator.ts.
use ar_io_solana_attestor.Prelude.{
  ◌+◌, ◌∙◌, ◌≤◌, ◌≡◌, refl, String, Option, none, some, List, [], ◌∷◌, Bool, true, false, arith,
}
use mathlib.Core.Path.{subst}
use mathlib.Core.Option.{get_or}
use ar_io_solana_attestor.Audit.{Context, Bytes}
use ar_io_solana_attestor.Gateway.{Gateway}
use ar_io_solana_attestor.Store.{ClaimStatus, Claim, find_claim}
use ar_io_solana_attestor.Dispatch.Core.{
  World, DispatchOutcome, Reply, returns, throws, dispatch_signed_tx,
}
use ar_io_solana_attestor.Operator.{AntKit, Decoded, present}
use ar_io_solana_attestor.Operator.Recover.{AntSubmitOutcome, AntSubmitResult}
use ar_io_solana_attestor.Operator.Submit.{
  SubmitAntBatchOpts, present_sig, find_reservation, reserved_args, core_reply, core_outcome,
  matched, rejected, map_result, with_txid, dispatches, by_signature, by_state, with_row,
  with_stored_txid, with_verdict, with_stored, with_wire, with_match, with_authority,
  with_submitted_txid, with_submitted, submit_one_ant_tx, submit_all, closed, with_authority_key,
  submit_ant_batch, finalize_batch_status, write_submit_audit,
}
use ar_io_solana_attestor.Operator.Rebuilds.{
  rebuilds, release_in, releases, Counts, still, recover-Counts, dispatch-rebuilds,
}

module _ (k : AntKit) (gateway : Gateway) (ctx : Context) (opts : SubmitAntBatchOpts)
    (pubkey : Bytes) (j : String) where
  -- What a step leaves and reports.
  abbrev CountsFor : World → World × Option AntSubmitResult → Type 0
  CountsFor w r = Counts j w r.0 (release_in j r.1)

  core_outcome-silent :
      (txid : String) (c : Claim) (outcome : DispatchOutcome) (signature : Option String)
      → release_in j (some (matched txid c (core_outcome outcome) signature)) ≡ 0
  core_outcome-silent txid c DispatchOutcome.confirmed signature = refl
  core_outcome-silent txid c DispatchOutcome.failed signature = refl
  core_outcome-silent txid c DispatchOutcome.awaiting_confirmation signature = refl
  core_outcome-silent txid c _ signature = refl

  module _ (w : World) (h : rebuilds j w.db ≤ 1) where
    unchanged : Counts j w w 0
    unchanged = still j w w h refl

    core_reply-Counts :
        (txid : String) (c : Claim) (r : World × Reply)
        → rebuilds j r.0.db ≡ rebuilds j w.db
        → CountsFor w (core_reply k gateway ctx opts pubkey txid c r)
    core_reply-Counts txid c (v, returns outcome signature) e =
        rw (core_outcome-silent txid c outcome signature) (still j w v h e)
    core_reply-Counts txid c (v, throws) e = still j w v h e

    dispatches-Counts :
        (txid wire : String) (c : Claim)
        → CountsFor w (dispatches k gateway ctx opts pubkey txid wire c w)
    dispatches-Counts txid wire c =
        let args = reserved_args txid wire c in
        core_reply-Counts txid c (dispatch_signed_tx ctx gateway args w)
          (dispatch-rebuilds j gateway ctx args w)

    -- The recovery's result, with the transaction's identifier put in.
    recovers-Counts :
        (txid : String) (v : World) (o : Option AntSubmitResult)
        → Counts j w v (release_in j o)
        → Counts j w v (release_in j (map_result (with_txid txid) o))
    recovers-Counts txid v none e = e
    recovers-Counts txid v (some r) e = e

    by_signature-Counts :
        (txid wire : String) (c : Claim) (o : Option String)
        → CountsFor w (by_signature k gateway ctx opts pubkey txid wire c w o)
    by_signature-Counts txid wire c none = dispatches-Counts txid wire c
    by_signature-Counts txid wire c (some s) =
        recovers-Counts txid _ _
          (recover-Counts j k gateway ctx opts.treasury_address c.claim_id w h)

    by_state-Counts :
        (txid wire : String) (c now : Claim) (s : ClaimStatus)
        → CountsFor w (by_state k gateway ctx opts pubkey txid wire c now w s)
    by_state-Counts txid wire c now ClaimStatus.confirmed = unchanged
    by_state-Counts txid wire c now ClaimStatus.dispatching =
        by_signature-Counts txid wire c (present now.dispatch_signature)
    by_state-Counts txid wire c now _ = dispatches-Counts txid wire c

    with_row-Counts :
        (txid wire : String) (c : Claim) (o : Option Claim)
        → CountsFor w (with_row k gateway ctx opts pubkey txid wire c w o)
    with_row-Counts txid wire c none = unchanged
    with_row-Counts txid wire c (some now) = by_state-Counts txid wire c now now.status

    with_stored_txid-Counts :
        (sig : Bytes) (c : Claim) (stored : Decoded) (o : Option String)
        → CountsFor w (with_stored_txid k gateway ctx opts pubkey sig c stored w o)
    with_stored_txid-Counts sig c stored none = unchanged
    with_stored_txid-Counts sig c stored (some txid) =
        with_row-Counts txid _ c (find_claim c.claim_id w.db.claims)

    module _ (txid : String) (sig : Bytes) where
      with_verdict-Counts :
          (c : Claim) (stored : Decoded) (o : Option Bool)
          → CountsFor w (with_verdict k gateway ctx opts pubkey txid sig c stored w o)
      with_verdict-Counts c stored none = unchanged
      with_verdict-Counts c stored (some false) = unchanged
      with_verdict-Counts c stored (some true) =
          with_stored_txid-Counts sig c stored (k.get_signature stored)

      with_stored-Counts :
          (c : Claim) (o : Option Decoded)
          → CountsFor w (with_stored k gateway ctx opts pubkey txid sig c w o)
      with_stored-Counts c none = unchanged
      with_stored-Counts c (some stored) = with_verdict-Counts c stored _

      with_wire-Counts :
          (c : Claim) (o : Option String)
          → CountsFor w (with_wire k gateway ctx opts pubkey txid sig c w o)
      with_wire-Counts c none = unchanged
      with_wire-Counts c (some wire) = with_stored-Counts c (k.decode_wire wire)

      with_match-Counts :
          (o : Option Claim) → CountsFor w (with_match k gateway ctx opts pubkey txid sig w o)
      with_match-Counts none = unchanged
      with_match-Counts (some c) = with_wire-Counts c (present c.ant_reserved_wire)

    with_authority-Counts :
        (txid : String) (o : Option Bytes)
        → CountsFor w (with_authority k gateway ctx opts pubkey txid w o)
    with_authority-Counts txid none = unchanged
    with_authority-Counts txid (some sig) =
        with_match-Counts txid sig (find_reservation txid opts.batch_id w.db.claims)

    with_submitted_txid-Counts :
        (d : Decoded) (o : Option String)
        → CountsFor w (with_submitted_txid k gateway ctx opts pubkey d w o)
    with_submitted_txid-Counts d none = unchanged
    with_submitted_txid-Counts d (some txid) =
        with_authority-Counts txid (present_sig (d.signatures opts.ant_cold_address))

    with_submitted-Counts :
        (o : Option Decoded) → CountsFor w (with_submitted k gateway ctx opts pubkey w o)
    with_submitted-Counts none = unchanged
    with_submitted-Counts (some d) = with_submitted_txid-Counts d (k.get_signature d)

    submit_one-Counts :
        (wire : String) → CountsFor w (submit_one_ant_tx k gateway ctx opts pubkey wire w)
    unfolding submit_one_ant_tx
    submit_one-Counts wire = with_submitted-Counts (k.decode_wire wire)

  result-Counts :
      (o : Option AntSubmitResult)
      → release_in j (some (get_or o (rejected none AntSubmitOutcome.skipped))) ≡ release_in j o
  result-Counts none = refl
  result-Counts (some r) = refl

  submit_all-Counts :
      (wires : List String) (w : World)
      → rebuilds j w.db ≤ 1
      → Counts j w
          (submit_all k gateway ctx opts pubkey wires w).0
          (releases j (submit_all k gateway ctx opts pubkey wires w).1)
  unfolding submit_all
  submit_all-Counts [] w h = still j w w h refl
  submit_all-Counts (wire ∷ rest) w h =
      let one = submit_one_ant_tx k gateway ctx opts pubkey wire w in
      let here = submit_one-Counts w h wire in
      let there = submit_all-Counts rest one.0 here.capped in
      record {
        rises = omega (arith, here.rises, there.rises, result-Counts one.1);
        capped = there.capped;
      }

closed-rebuilds :
    (k : AntKit) (gateway : Gateway) (ctx : Context) (opts : SubmitAntBatchOpts) (j : String)
    (r : World × List AntSubmitResult)
    → (rebuilds j (closed k gateway ctx opts r).0.db ≡ rebuilds j r.0.db)
      × ((closed k gateway ctx opts r).1 ≡ r.1)
unfolding finalize_batch_status write_submit_audit
closed-rebuilds k gateway ctx opts j (w, results) = (refl, refl)

with_authority_key-Counts :
    (k : AntKit) (gateway : Gateway) (ctx : Context) (opts : SubmitAntBatchOpts) (j : String)
    (w after : World) (results : List AntSubmitResult) (o : Option Bytes)
    → rebuilds j w.db ≤ 1
    → with_authority_key k gateway ctx opts w o ≡ some (after, results)
    → Counts j w after (releases j results)
with_authority_key-Counts k gateway ctx opts j w after results none h e = cc
with_authority_key-Counts k gateway ctx opts j w after results (some pubkey) h e =
    let all = submit_all k gateway ctx opts pubkey opts.signed_txs w in
    let counts = submit_all-Counts k gateway ctx opts pubkey j opts.signed_txs w h in
    let same = closed-rebuilds k gateway ctx opts j all in
    subst (λ (r : World × List AntSubmitResult). Counts j w r.0 (releases j r.1)) (some-inj _ _ e)
      (rw (same.1)
        (record { rises = same.0 ∙ counts.rises; capped = omega (arith, same.0, counts.capped) }))
  where
    some-inj : (x y : World × List AntSubmitResult) → some x ≡ some y → x ≡ y
    some-inj x y e = cc

-- Whatever transactions an operator submits and whatever the chain answers: if the counter of a claim's
-- rebuilds is at most 1, that counter and the releases of the claim for a rebuild which the results of
-- the submission report come to at most 1 together, and to the counter afterwards.
pub submit_ant_batch-releases :
    (k : AntKit) (gateway : Gateway) (ctx : Context) (opts : SubmitAntBatchOpts) (j : String)
    (w after : World) (results : List AntSubmitResult)
    → rebuilds j w.db ≤ 1
    → submit_ant_batch k gateway ctx opts w ≡ some (after, results)
    → (rebuilds j w.db + releases j results ≤ 1)
      × (rebuilds j after.db ≡ rebuilds j w.db + releases j results)
unfolding submit_ant_batch
submit_ant_batch-releases k gateway ctx opts j w after results h e =
    let counts =
      with_authority_key-Counts k gateway ctx opts j w after results
        (k.base58_decode opts.ant_cold_address) h e in
    (omega (arith, counts.rises, counts.capped), counts.rises)
