-- ===== src/Operator/Submit.antt =====
-- packages/claims/src/dispatch/ant-operator.ts: submitAntBatch with submitOneAntTx, finalizeBatchStatus
-- and writeSubmitAudit.
use ar_io_solana_attestor.Prelude.{
  ℕ, zero, suc, String, Option, none, some, List, [], ◌∷◌, Bool, true, false, ◌&&◌, str_eq, ◌==◌,
  if◌then◌else◌, map,
}
use mathlib.Core.Option.{get_or}
use ar_io_solana_attestor.Audit.{Context, Bytes, append_audit}
use ar_io_solana_attestor.Audit.Canonical.{
  string, object, array, Items, nil, item, Fields, end, field,
}
use ar_io_solana_attestor.Gateway.{Gateway}
use ar_io_solana_attestor.Store.{
  ClaimStatus, Claim, BatchStatus, submitted, completed, AntBatch, Db, find_claim,
}
use ar_io_solana_attestor.Dispatch.{PersistDispatchingArgs, optional_field}
use ar_io_solana_attestor.Dispatch.Core.{
  DispatchOutcome, World, Reply, returns, throws, dispatch_signed_tx,
}
use ar_io_solana_attestor.Operator.{Decoded, AntKit, present, in_batch, batch_entry, exists_claim}
use ar_io_solana_attestor.Operator.Reserve.{is_unfinished}
use ar_io_solana_attestor.Operator.Recover.{
  AntSubmitOutcome, AntSubmitResult, recover_reserved_ant_claim,
}

pub record SubmitAntBatchOpts : Type 0 where
  pub batch_id : String
  pub signed_txs : List String
  pub ant_cold_address : String
  pub treasury_address : String

-- Every byte is the zero of the same place in ZERO64, which has 64.
abbrev pub is_zero : ℕ → Bytes → Bool
is_zero n [] = true
is_zero zero (b ∷ rest) = false
is_zero (suc n) (b ∷ rest) = b == 0 && is_zero n rest

abbrev pub present_sig : Option Bytes → Option Bytes
present_sig none = none
present_sig (some sig) = if is_zero 64 sig then none else some sig

-- `WHERE ant_reserved_txid = $1 AND ant_batch_id = $2`
abbrev pub is_reservation : String → String → Claim → Bool
is_reservation txid batch_id c =
    (elim c.ant_reserved_txid [ none ↦ false | some id ↦ str_eq id txid ]) && in_batch batch_id c

unfoldable pub find_reservation : String → String → List Claim → Option Claim
find_reservation txid batch_id [] = none
find_reservation txid batch_id (c ∷ rest) =
    if is_reservation txid batch_id c then some c else find_reservation txid batch_id rest

abbrev pub with_signature : String → Bytes → Decoded → Decoded
with_signature cold sig d = record d {
  signatures = λ a. if str_eq a cold then some sig else d.signatures a;
}

-- The outcomes that dispatchSignedTx returns; it returns no other.
abbrev pub core_outcome : DispatchOutcome → AntSubmitOutcome
core_outcome DispatchOutcome.confirmed = AntSubmitOutcome.confirmed
core_outcome DispatchOutcome.failed = AntSubmitOutcome.failed
core_outcome DispatchOutcome.awaiting_confirmation = AntSubmitOutcome.awaiting_confirmation
core_outcome _ = AntSubmitOutcome.skipped

-- A result before the reservation is known, and after.
abbrev pub rejected : Option String → AntSubmitOutcome → AntSubmitResult
rejected txid outcome = record {
  txid = txid;
  claim_id = none;
  asset_key = none;
  outcome = outcome;
  signature = none;
}

abbrev pub matched : String → Claim → AntSubmitOutcome → Option String → AntSubmitResult
matched txid c outcome signature = record {
  txid = some txid;
  claim_id = some c.claim_id;
  asset_key = some c.asset_key;
  outcome = outcome;
  signature = signature;
}

abbrev pub reserved_args : String → String → Claim → PersistDispatchingArgs
reserved_args txid wire c = record {
  claim_id = c.claim_id;
  asset_key = c.asset_key;
  signed = record {
    signature = txid;
    blockhash = get_or c.ant_reserved_blockhash "";
    last_valid_block_height = get_or c.ant_reserved_last_valid_bh 0;
    wire_base64 = wire;
  };
  settlement_amount = none;
  settlement_label = some "ant-operator";
}

abbrev pub with_txid : String → AntSubmitResult → AntSubmitResult
with_txid txid r = record r { txid = some txid }

abbrev pub map_result {ℓ κ} : {A : Type ℓ} {B : Type κ} → (A → B) → Option A → Option B
map_result f none = none
map_result f (some a) = some (f a)

-- `none` of the second component is a thrown error.
module _ (k : AntKit) (gateway : Gateway) (ctx : Context) (opts : SubmitAntBatchOpts)
    (pubkey : Bytes) where
  abbrev pub core_reply : String → Claim → World × Reply → World × Option AntSubmitResult
  core_reply txid c (w, returns outcome signature) =
      (w, some (matched txid c (core_outcome outcome) signature))
  core_reply txid c (w, throws) = (w, none)

  abbrev pub dispatches : String → String → Claim → World → World × Option AntSubmitResult
  dispatches txid wire c w =
      core_reply txid c (dispatch_signed_tx ctx gateway (reserved_args txid wire c) w)

  abbrev pub recovers : String → Claim → World → World × Option AntSubmitResult
  recovers txid c w =
      let (after, result) =
        recover_reserved_ant_claim k gateway ctx opts.treasury_address c.claim_id w in
      (after, map_result (with_txid txid) result)

  -- A dispatching row, by its recorded signature.
  abbrev pub by_signature :
      String → String → Claim → World → Option String → World × Option AntSubmitResult
  by_signature txid wire c w none = dispatches txid wire c w
  by_signature txid wire c w (some _) = recovers txid c w

  -- The row that is read again, by its status.
  abbrev pub by_state :
      String → String → Claim → Claim → World → ClaimStatus → World × Option AntSubmitResult
  by_state txid wire c now w ClaimStatus.confirmed = (
    w,
    some (
        matched txid c AntSubmitOutcome.already_confirmed
          (some (get_or now.dispatch_signature txid))),
  )
  by_state txid wire c now w ClaimStatus.dispatching =
      by_signature txid wire c w (present now.dispatch_signature)
  by_state txid wire c now w _ = dispatches txid wire c w

  abbrev pub with_row :
      String → String → Claim → World → Option Claim → World × Option AntSubmitResult
  with_row txid wire c w none = (w, some (matched txid c AntSubmitOutcome.skipped none))
  with_row txid wire c w (some now) = by_state txid wire c now w now.status

  -- The transaction that is sent is the stored one with the operator's signature put in.
  abbrev pub with_stored_txid :
      Bytes → Claim → Decoded → World → Option String → World × Option AntSubmitResult
  with_stored_txid sig c stored w none = (w, none)
  with_stored_txid sig c stored w (some txid) =
      with_row txid (k.encode_wire (with_signature opts.ant_cold_address sig stored)) c w
        (find_claim c.claim_id w.db.claims)

  abbrev pub with_verdict :
      String → Bytes → Claim → Decoded → World → Option Bool → World × Option AntSubmitResult
  with_verdict txid sig c stored w none = (w, none)
  with_verdict txid sig c stored w (some false) =
      (w, some (matched txid c AntSubmitOutcome.rejected_bad_authority_sig none))
  with_verdict txid sig c stored w (some true) =
      with_stored_txid sig c stored w (k.get_signature stored)

  abbrev pub with_stored :
      String → Bytes → Claim → World → Option Decoded → World × Option AntSubmitResult
  with_stored txid sig c w none = (w, none)
  with_stored txid sig c w (some stored) =
      with_verdict txid sig c stored w (k.ed25519_verify sig stored.message_bytes pubkey)

  abbrev unknown_tx : String → World → World × Option AntSubmitResult
  unknown_tx txid w = (w, some (rejected (some txid) AntSubmitOutcome.rejected_unknown_tx))

  abbrev pub with_wire :
      String → Bytes → Claim → World → Option String → World × Option AntSubmitResult
  with_wire txid sig c w none = unknown_tx txid w
  with_wire txid sig c w (some wire) = with_stored txid sig c w (k.decode_wire wire)

  abbrev pub with_match : String → Bytes → World → Option Claim → World × Option AntSubmitResult
  with_match txid sig w none = unknown_tx txid w
  with_match txid sig w (some c) = with_wire txid sig c w (present c.ant_reserved_wire)

  abbrev pub with_authority : String → World → Option Bytes → World × Option AntSubmitResult
  with_authority txid w none =
      (w, some (rejected (some txid) AntSubmitOutcome.rejected_no_authority_sig))
  with_authority txid w (some sig) =
      with_match txid sig w (find_reservation txid opts.batch_id w.db.claims)

  abbrev undecodable : World → World × Option AntSubmitResult
  undecodable w = (w, some (rejected none AntSubmitOutcome.rejected_undecodable))

  abbrev pub with_submitted_txid : Decoded → World → Option String → World × Option AntSubmitResult
  with_submitted_txid d w none = undecodable w
  with_submitted_txid d w (some txid) =
      with_authority txid w (present_sig (d.signatures opts.ant_cold_address))

  abbrev pub with_submitted : World → Option Decoded → World × Option AntSubmitResult
  with_submitted w none = undecodable w
  with_submitted w (some d) = with_submitted_txid d w (k.get_signature d)

  unfoldable pub submit_one_ant_tx : String → World → World × Option AntSubmitResult
  submit_one_ant_tx wire w = with_submitted w (k.decode_wire wire)

  -- A transaction that throws is reported as skipped, and the next one is taken.
  unfoldable pub submit_all : List String → World → World × List AntSubmitResult
  submit_all [] w = (w, [])
  submit_all (wire ∷ rest) w =
      let one = submit_one_ant_tx wire w in
      let others = submit_all rest one.0 in
      (others.0, get_or one.1 (rejected none AntSubmitOutcome.skipped) ∷ others.1)

abbrev pub is_unconfirmed : ClaimStatus → Bool
is_unconfirmed ClaimStatus.confirmed = false
is_unconfirmed _ = true

abbrev pub submitted_batch : BatchStatus → ℕ → AntBatch → AntBatch
submitted_batch status now b = record b {
  status = status;
  submitted_at = some (get_or b.submitted_at now);
}

abbrev pub outcome_text : AntSubmitOutcome → String
outcome_text AntSubmitOutcome.confirmed = "confirmed"
outcome_text AntSubmitOutcome.already_confirmed = "already_confirmed"
outcome_text AntSubmitOutcome.recovered_confirmed = "recovered_confirmed"
outcome_text AntSubmitOutcome.failed = "failed"
outcome_text AntSubmitOutcome.awaiting_confirmation = "awaiting_confirmation"
outcome_text AntSubmitOutcome.skipped = "skipped"
outcome_text AntSubmitOutcome.needs_operator = "needs_operator"
outcome_text AntSubmitOutcome.released_for_rebuild = "released_for_rebuild"
outcome_text AntSubmitOutcome.rejected_no_authority_sig = "rejected_no_authority_sig"
outcome_text AntSubmitOutcome.rejected_bad_authority_sig = "rejected_bad_authority_sig"
outcome_text AntSubmitOutcome.rejected_unknown_tx = "rejected_unknown_tx"
outcome_text AntSubmitOutcome.rejected_undecodable = "rejected_undecodable"

abbrev pub result_fields : AntSubmitResult → Fields
result_fields r = optional_field "claimId" r.claim_id (
    optional_field "txid" r.txid (
      field "outcome" (string (outcome_text r.outcome))
        (optional_field "signature" r.signature end)))

pub result_items : List AntSubmitResult → Items
result_items [] = nil
result_items (r ∷ rest) = item (object (result_fields r)) (result_items rest)

module _ (ctx : Context) where
  unfoldable pub finalize_batch_status : String → Db → Db
  finalize_batch_status batch_id db =
      let still_open =
        exists_claim (λ (c : Claim). in_batch batch_id c && is_unconfirmed c.status) db.claims in
      let status = if still_open then submitted else completed in
      record db {
        ant_batches =
            map
              (λ (b : AntBatch).
                if str_eq b.batch_id batch_id && is_unfinished b.status
                then submitted_batch status ctx.now b
                else b)
              db.ant_batches;
      }

  unfoldable pub write_submit_audit : String → String → List AntSubmitResult → Db → Db
  write_submit_audit batch_id cold results db = record db {
    audit = append_audit ctx db.audit (
        batch_entry "ant.batch.submit" "submitted" (
          field "batchId" (string batch_id) (
            field "submittedBy" (string cold)
              (field "results" (array (result_items results)) end))));
  }

module _ (k : AntKit) (gateway : Gateway) (ctx : Context) where
  abbrev pub closed :
      SubmitAntBatchOpts → World × List AntSubmitResult → World × List AntSubmitResult
  closed opts (w, results) = (
    record w {
      db =
          write_submit_audit ctx opts.batch_id opts.ant_cold_address results
            (finalize_batch_status ctx opts.batch_id w.db);
    },
    results,
  )

  abbrev pub with_authority_key :
      SubmitAntBatchOpts → World → Option Bytes → Option (World × List AntSubmitResult)
  with_authority_key opts w none = none
  with_authority_key opts w (some pubkey) =
      some (closed opts (submit_all k gateway ctx opts pubkey opts.signed_txs w))

  -- `none` is a thrown error, before any transaction is looked at.
  unfoldable pub submit_ant_batch :
      SubmitAntBatchOpts → World → Option (World × List AntSubmitResult)
  submit_ant_batch opts w = with_authority_key opts w (k.base58_decode opts.ant_cold_address)
