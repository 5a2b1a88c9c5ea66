-- ===== src/Dispatch/Core.antt =====
-- packages/claims/src/dispatch/dispatch-core.ts: dispatchSignedTx, the persist, broadcast, confirm
-- core. The world is the database and the transactions handed to the chain so far, latest first.
use ar_io_solana_attestor.Prelude.{String, Option, none, some, List, ◌∷◌}
use ar_io_solana_attestor.Audit.{Context}
use ar_io_solana_attestor.Audit.Canonical.{◌+s◌}
use ar_io_solana_attestor.Gateway.{ConfirmState, SignedDispatch, Gateway}
use ar_io_solana_attestor.Store.{Db}
use ar_io_solana_attestor.Dispatch.{PersistDispatchingArgs}
use ar_io_solana_attestor.Dispatch.Persist.{persist_dispatching, finalize_confirmed, mark_failed}

pub record World : Type 0 where
  pub db : Db
  pub broadcasts : List SignedDispatch

pub data DispatchOutcome : Type 0 where
  confirmed already_confirmed recovered_confirmed failed awaiting_confirmation : DispatchOutcome
  deferred_refill routed_to_review awaiting_approval awaiting_ant_signer : DispatchOutcome
  needs_operator awaiting_manual_vault_delivery skipped error : DispatchOutcome

-- What a call returns, or that it throws.
pub data Reply : Type 0 where
  returns : (outcome : DispatchOutcome) (signature : Option String) → Reply
  throws : Reply

module _ (ctx : Context) where
  -- What follows the confirmation poll, which may throw.
  abbrev pub settle : PersistDispatchingArgs → World → Option ConfirmState → World × Reply
  settle args w none = (w, throws)
  settle args w (some ConfirmState.confirmed) = (
    record w { db = finalize_confirmed ctx args.claim_id args.signed.signature w.db },
    returns DispatchOutcome.confirmed (some args.signed.signature),
  )
  settle args w (some ConfirmState.failed) = (
    record w {
      db =
          mark_failed ctx args.claim_id ("on-chain tx " +s args.signed.signature +s " failed") w.db;
    },
    returns DispatchOutcome.failed (some args.signed.signature),
  )
  settle args w (some _) = (w, returns awaiting_confirmation (some args.signed.signature))

module _ (ctx : Context) (gateway : Gateway) where
  -- What follows the transaction: a committed one is broadcast, and a broadcast that throws is
  -- logged and no more.
  abbrev pub after_persist : PersistDispatchingArgs → World → Option Db → World × Reply
  after_persist args w none = (w, returns skipped none)
  after_persist args w (some db) =
      settle ctx args (record { db = db; broadcasts = args.signed ∷ w.broadcasts })
        (gateway.confirm_signature args.signed.signature args.signed.last_valid_block_height)

  unfoldable pub dispatch_signed_tx : PersistDispatchingArgs → World → World × Reply
  dispatch_signed_tx args w = after_persist args w (persist_dispatching ctx args w.db)
