-- ===== src/Worker/Effects.antt =====
-- processClaim and runOnce of packages/claims/src/dispatch/worker.ts: each send is recorded first, and
-- the tables are changed by the transactions of dispatch-core.ts only.
use ar_io_solana_attestor.Prelude.{
  ℕ, ◌≡◌, refl, inl, String, Option, none, some, List, [], ◌∷◌, arith,
}
use mathlib.Core.Path.{subst}
use mathlib.Core.Option.{get_or}
use ar_io_solana_attestor.Audit.{Context}
use ar_io_solana_attestor.Audit.Canonical.{decimal, ◌+s◌}
use ar_io_solana_attestor.Gateway.{Gateway, SignedDispatch}
use ar_io_solana_attestor.Instructions.{Kit, Instruction}
use ar_io_solana_attestor.Store.{
  Claim, Asset, AssetType, AssetStatus, claimed, cancelled, find_claim, find_asset,
}
use ar_io_solana_attestor.Store.Laws.{find_claim-id}
use ar_io_solana_attestor.Float.{FloatDenial, insufficient_float, exceeds_brake}
use ar_io_solana_attestor.Dispatch.Persist.{mark_failed}
use ar_io_solana_attestor.Dispatch.Recovery.{route_to_review}
use ar_io_solana_attestor.Dispatch.Transitions.{
  Transition, fail, review, deliver_manually, apply, run,
}
use ar_io_solana_attestor.Dispatch.Core.{World, Reply, returns, throws, failed, awaiting_approval}
use ar_io_solana_attestor.Worker.{DispenserSigner, Deps, decimal_ℤ, build_ant_ixs}
use ar_io_solana_attestor.Worker.Fresh.{
  Delivery, build, manual, error, send_signed, sign_persist_broadcast_confirm, send_ant, custody_of,
  with_custody, dispatch_ant, carry_out, deliver, unless_denied, with_balance, dispatch_fungible,
  by_type, unless_terminal, with_asset, with_claim, dispatch_fresh,
}
use ar_io_solana_attestor.Worker.Sends.{Effect, dispatch_signed_tx-Effect}

-- The effect of a call, as a type of its own for the rules below to fit.
pub data Acts (id : String) (w : World) (r : World × Reply) : Type 0 where
  acts : Effect id w r.0 → Acts id w r

pub Acts-Effect : (id : String) (w : World) (r : World × Reply) → Acts id w r → Effect id w r.0
Acts-Effect id w r (acts e) = e

pub Acts-same : {id : String} {w : World} {reply : Reply} → Acts id w (w, reply)
unfolding run
Acts-same {id} {w} {reply} = acts (([], refl), inl refl)

pub Acts-throws : (id : String) (w : World) → Acts id w (w, throws)
Acts-throws id w = Acts-same

-- One transaction, and nothing broadcast.
pub Acts-apply :
    (ctx : Context) (t : Transition) {id : String} (w : World) {reply : Reply}
    → Acts id w (record w { db = apply ctx t w.db }, reply)
unfolding run
Acts-apply ctx t {id} w {reply} = acts (((ctx, t) ∷ [], refl), inl refl)

-- One transaction before the rest of a call.
pub Acts-after :
    (ctx : Context) (t : Transition) {id : String} (w : World) (r : World × Reply)
    → Acts id (record w { db = apply ctx t w.db }) r
    → Acts id w r
unfolding run
Acts-after ctx t {id} w r (acts ((ts, reached), sends)) = acts (((ctx, t) ∷ ts, reached), sends)

module _ (kit : Kit) (deps : Deps) (gateway : Gateway) (ctx : Context) where
  module _ (snap : Claim) (asset : Asset) where
    send_signed-Acts :
        (amount : Option ℕ) (label : Option String) (w : World) (signed : Option SignedDispatch)
        → Acts snap.claim_id w (send_signed kit deps gateway ctx snap asset amount label w signed)
    send_signed-Acts amount label w none = Acts-same
    send_signed-Acts amount label w (some signed) = acts (
        dispatch_signed_tx-Effect ctx gateway
          (record {
            claim_id = snap.claim_id;
            asset_key = asset.asset_key;
            signed = signed;
            settlement_amount = amount;
            settlement_label = label;
          })
          w)

    sign-Acts :
        (signer : String) (ixs : List Instruction) (amount : Option ℕ) (label : Option String)
        (w : World)
        → Acts snap.claim_id w (
            sign_persist_broadcast_confirm kit deps gateway ctx snap asset signer ixs amount label
              w)
    unfolding sign_persist_broadcast_confirm
    sign-Acts signer ixs amount label w =
        send_signed-Acts amount label w (gateway.sign_transaction ixs signer)

    fails-Acts :
        (reason : String) (w : World) (reply : Reply)
        → Acts snap.claim_id w (record w { db = mark_failed ctx snap.claim_id reason w.db }, reply)
    unfolding apply
    fails-Acts reason w reply = Acts-apply ctx (fail snap.claim_id reason) w

    reviews-Acts :
        (reason : String) (w : World) (reply : Reply)
        → Acts snap.claim_id w
            (record w { db = route_to_review ctx snap.claim_id asset.asset_key reason w.db }, reply)
    unfolding apply
    reviews-Acts reason w reply = Acts-apply ctx (review snap.claim_id asset.asset_key reason) w

    send_ant-Acts :
        (mint : String) (w : World) (signer : Option String)
        → Acts snap.claim_id w (send_ant kit deps gateway ctx snap asset mint w signer)
    send_ant-Acts mint w none = Acts-same
    send_ant-Acts mint w (some signer) = ground (
      arith,
      sign-Acts signer (build_ant_ixs kit deps snap.claim_id signer mint snap.claimant) none none w,
      Acts-throws snap.claim_id w,
    )

    with_custody-Acts :
        (w : World) (custody : Option DispenserSigner)
        → Acts snap.claim_id w (with_custody kit deps gateway ctx snap asset w custody)
    with_custody-Acts w none = Acts-same
    with_custody-Acts w (some custody) = ground (
      arith,
      fails-Acts "ANT signer must not be the hot dispenser" w (returns failed none),
      fails-Acts "ant asset has no mint" w (returns failed none),
      send_ant-Acts (get_or asset.ant_mint "") w custody.get_signer,
    )

    dispatch_ant-Acts :
        (override : Option DispenserSigner) (w : World)
        → Acts snap.claim_id w (dispatch_ant kit deps gateway ctx override snap asset w)
    unfolding dispatch_ant
    dispatch_ant-Acts override w = ground (
      arith,
      reviews-Acts "ant dispatch requires operator approval" w (returns awaiting_approval none),
      with_custody-Acts w (custody_of kit deps gateway ctx override),
    )

    carry_out-Acts :
        (amount : ℕ) (signer : String) (w : World) (d : Delivery)
        → Acts snap.claim_id w (carry_out kit deps gateway ctx snap asset amount signer w d)
    unfolding apply
    carry_out-Acts amount signer w error = Acts-same
    carry_out-Acts amount signer w (manual unlock lock) =
        Acts-apply ctx
          (deliver_manually snap.claim_id asset.asset_key (decimal_ℤ unlock) (decimal_ℤ lock)) w
    carry_out-Acts amount signer w (build ixs label) =
        sign-Acts signer ixs (some amount) (some label) w

    deliver-Acts :
        (amount : ℕ) (w : World) (signer : Option String)
        → Acts snap.claim_id w (deliver kit deps gateway ctx snap asset amount w signer)
    deliver-Acts amount w none = Acts-same
    deliver-Acts amount w (some signer) = carry_out-Acts amount signer w _

    unless_denied-Acts :
        (amount : ℕ) (w : World) (denial : Option FloatDenial)
        → Acts snap.claim_id w (unless_denied kit deps gateway ctx snap asset amount w denial)
    unless_denied-Acts amount w none = deliver-Acts amount w deps.token_signer.get_signer
    unless_denied-Acts amount w (some (insufficient_float _ _)) = Acts-same
    unless_denied-Acts amount w (some (exceeds_brake _ threshold)) =
        reviews-Acts ("amount " +s decimal amount +s " over brake " +s decimal threshold) w _

    with_balance-Acts :
        (w : World) (balance : Option ℕ)
        → Acts snap.claim_id w (with_balance kit deps gateway ctx snap asset w balance)
    with_balance-Acts w none = Acts-same
    with_balance-Acts w (some balance) = unless_denied-Acts _ w _

    dispatch_fungible-Acts :
        (w : World) → Acts snap.claim_id w (dispatch_fungible kit deps gateway ctx snap asset w)
    unfolding dispatch_fungible
    dispatch_fungible-Acts w = with_balance-Acts w _

    by_type-Acts :
        (override : Option DispenserSigner) (w : World) (type : AssetType)
        → Acts snap.claim_id w (by_type kit deps gateway ctx override snap asset w type)
    by_type-Acts override w AssetType.ant = dispatch_ant-Acts override w
    by_type-Acts override w _ = dispatch_fungible-Acts w

    unless_terminal-Acts :
        (override : Option DispenserSigner) (w : World) (status : AssetStatus)
        → Acts snap.claim_id w (unless_terminal kit deps gateway ctx override snap asset w status)
    unless_terminal-Acts override w claimed = Acts-same
    unless_terminal-Acts override w cancelled = Acts-same
    unless_terminal-Acts override w _ =
        ground (arith, by_type-Acts override w asset.asset_type, Acts-throws snap.claim_id w)

  with_asset-Acts :
      (override : Option DispenserSigner) (snap : Claim) (w : World) (asset : Option Asset)
      → Acts snap.claim_id w (with_asset kit deps gateway ctx override snap w asset)
  with_asset-Acts override snap w none = Acts-same
  with_asset-Acts override snap w (some asset) =
      unless_terminal-Acts snap asset override w asset.status

  with_claim-Acts :
      (override : Option DispenserSigner) (id : String) (w : World) (row : Option Claim)
      → find_claim id w.db.claims ≡ row
      → Acts id w (with_claim kit deps gateway ctx override w row)
  with_claim-Acts override id w none e = Acts-same
  with_claim-Acts override id w (some snap) e =
      subst (λ x. Acts x w (with_claim kit deps gateway ctx override w (some snap)))
        (find_claim-id id w.db.claims snap e)
        (with_asset-Acts override snap w (find_asset snap.asset_key w.db.assets))

  pub dispatch_fresh-Acts :
      (override : Option DispenserSigner) (id : String) (w : World)
      → Acts id w (dispatch_fresh kit deps gateway ctx override id w)
  unfolding dispatch_fresh
  dispatch_fresh-Acts override id w = with_claim-Acts override id w (find_claim id w.db.claims) refl
