-- ===== src/Operator/Sends.antt =====
-- What submitOneAntTx of packages/claims/src/dispatch/ant-operator.ts hands to the chain.
use ar_io_solana_attestor.Prelude.{◌≡◌, refl, String, Option, none, some, ◌∷◌, true, arith}
use ar_io_solana_attestor.Audit.{Context, Bytes}
use ar_io_solana_attestor.Gateway.{Gateway, ConfirmState, SignedDispatch}
use ar_io_solana_attestor.Store.{ClaimStatus, dispatching, Claim, Db, find_claim}
use ar_io_solana_attestor.Dispatch.Persist.{persist_dispatching, finalize_confirmed, mark_failed}
use ar_io_solana_attestor.Worker.Sends.{Sends, Recorded}
use ar_io_solana_attestor.Dispatch.Core.{World}
use ar_io_solana_attestor.Operator.{AntKit, Decoded, present}
use ar_io_solana_attestor.Operator.Recover.{
  resolve_outflow, recover_expired, recover_as, recover_dispatching, recover_status, recover_claim,
  recover_reserved_ant_claim,
}
use ar_io_solana_attestor.Operator.Submit.{
  SubmitAntBatchOpts, find_reservation, with_signature, reserved_args,
}

-- A recovery sends nothing.
module _ (k : AntKit) (gateway : Gateway) (ctx : Context) (treasury id : String) (w : World) where
  resolve_outflow-quiet :
      (c : Claim) (sig : String) (o : Option (Option String))
      → (resolve_outflow k gateway ctx treasury id c sig w o).0.broadcasts ≡ w.broadcasts
  resolve_outflow-quiet c sig none = refl
  resolve_outflow-quiet c sig (some (some landed)) = refl
  resolve_outflow-quiet c sig (some none) = ground arith

  recover_expired-quiet :
      (c : Claim) (sig : String)
      → (recover_expired k gateway ctx treasury id c sig w).0.broadcasts ≡ w.broadcasts
  recover_expired-quiet c sig = ground (arith, resolve_outflow-quiet c sig)

  recover_as-quiet :
      (c : Claim) (sig : String) (o : Option ConfirmState)
      → (recover_as k gateway ctx treasury id c sig w o).0.broadcasts ≡ w.broadcasts
  recover_as-quiet c sig none = refl
  recover_as-quiet c sig (some ConfirmState.confirmed) = refl
  recover_as-quiet c sig (some ConfirmState.failed) = refl
  recover_as-quiet c sig (some ConfirmState.expired) = recover_expired-quiet c sig
  recover_as-quiet c sig (some ConfirmState.pending) = refl

  recover_dispatching-quiet :
      (c : Claim) (o : Option String)
      → (recover_dispatching k gateway ctx treasury id c w o).0.broadcasts ≡ w.broadcasts
  recover_dispatching-quiet c none = refl
  recover_dispatching-quiet c (some sig) = recover_as-quiet c sig _

  recover_status-quiet :
      (c : Claim) (s : ClaimStatus)
      → (recover_status k gateway ctx treasury id c w s).0.broadcasts ≡ w.broadcasts
  recover_status-quiet c dispatching = recover_dispatching-quiet c (present c.dispatch_signature)
  recover_status-quiet c _ = refl

  recover_claim-quiet :
      (o : Option Claim) → (recover_claim k gateway ctx treasury id w o).0.broadcasts ≡ w.broadcasts
  recover_claim-quiet none = refl
  recover_claim-quiet (some c) = recover_status-quiet c c.status

  pub recover_reserved_ant_claim-quiet :
      (recover_reserved_ant_claim k gateway ctx treasury id w).0.broadcasts ≡ w.broadcasts
  unfolding recover_reserved_ant_claim
  recover_reserved_ant_claim-quiet = recover_claim-quiet (find_claim id w.db.claims)

module _ (k : AntKit) (gateway : Gateway) (ctx : Context) (opts : SubmitAntBatchOpts)
    (pubkey : Bytes) (w : World) where
  -- A claim reserved into this batch has a stored transaction, over whose own message the operator's
  -- signature verifies; what is sent is that transaction with the signature put in, and the database has
  -- recorded it under the row's guards.
  pub record IsAuthorized (s : SignedDispatch) : Type 0 where
    pub submitted_txid : String
    pub row : Claim
    pub wire : String
    pub stored : Decoded
    pub sig : Bytes
    pub recorded_db : Db
    pub reserved : find_reservation submitted_txid opts.batch_id w.db.claims ≡ some row
    pub built : present row.ant_reserved_wire ≡ some wire
    pub decoded : k.decode_wire wire ≡ some stored
    pub verified : k.ed25519_verify sig stored.message_bytes pubkey ≡ some true
    pub named : k.get_signature stored ≡ some s.signature
    pub sends_stored :
        s.wire_base64 ≡ k.encode_wire (with_signature opts.ant_cold_address sig stored)
    pub recorded :
        persist_dispatching ctx (reserved_args s.signature s.wire_base64 row) w.db
        ≡ some recorded_db

  -- The database of the recording, or that with the confirmation or the failure of what was sent.
  pub data Concluded (id sig : String) (recorded : Db) : Db → Type 0 where
    unsettled : Concluded id sig recorded recorded
    settled_as_confirmed : Concluded id sig recorded (finalize_confirmed ctx id sig recorded)
    settled_as_failed :
        (reason : String) → Concluded id sig recorded (mark_failed ctx id reason recorded)

  pub data Effect : World → Type 0 where
    quiet : (v : World) → v.broadcasts ≡ w.broadcasts → Effect v
    sends :
        (v : World) (s : SignedDispatch)
        → (a : IsAuthorized s) → v.broadcasts ≡ s ∷ w.broadcasts
        → Concluded a.row.claim_id s.signature a.recorded_db v.db
        → Recorded a.row.claim_id s.signature v.db.claims
        → Effect v

  -- What has been established when a transaction is about to be recorded.
  module _ (submitted_txid : String) (sig : Bytes) (c : Claim) (wire : String) (stored : Decoded)
      (reserved : find_reservation submitted_txid opts.batch_id w.db.claims ≡ some c)
      (built : present c.ant_reserved_wire ≡ some wire) (decoded : k.decode_wire wire ≡ some stored)
      (verified : k.ed25519_verify sig stored.message_bytes pubkey ≡ some true) where
    abbrev sent_wire : String
    sent_wire = k.encode_wire (with_signature opts.ant_cold_address sig stored)
