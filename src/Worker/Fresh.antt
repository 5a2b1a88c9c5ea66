-- ===== src/Worker/Fresh.antt =====
-- DispatchWorker of packages/claims/src/dispatch/worker.ts: #dispatchFresh and
-- #signPersistBroadcastConfirm.
use ar_io_solana_attestor.Prelude.{
  ℕ, String, Option, none, some, List, Bool, true, false, not, ◌&&◌, str_eq, if◌then◌else◌,
}
use mathlib.Core.Option.{get_or}
use ar_io_solana_attestor.Prelude.Int.{ℤ, pos, ◌-ℤ◌, ltb_ℤ}
use ar_io_solana_attestor.Audit.{Context}
use ar_io_solana_attestor.Audit.Canonical.{decimal, ◌+s◌}
use ar_io_solana_attestor.Gateway.{Gateway, SignedDispatch}
use ar_io_solana_attestor.Instructions.{Kit, Instruction, get_associated_token_address}
use ar_io_solana_attestor.Instructions.Relock.{VaultRelockArgs, build_vault_relock_ixs}
use ar_io_solana_attestor.Store.{
  Claim, Asset, AssetType, AssetStatus, claimed, cancelled, find_claim, find_asset,
}
use ar_io_solana_attestor.Settlement.{liquid, relock, settled, compute_vault_settlement}
use ar_io_solana_attestor.Float.{
  reserved, available_of, check, FloatDenial, insufficient_float, exceeds_brake,
}
use ar_io_solana_attestor.Dispatch.Persist.{mark_failed}
use ar_io_solana_attestor.Dispatch.Recovery.{
  review_throws, route_to_review, route_to_manual_vault_delivery,
}
use ar_io_solana_attestor.Dispatch.Core.{
  World, DispatchOutcome, failed, deferred_refill, routed_to_review, awaiting_approval,
  awaiting_ant_signer, skipped, Reply, returns, throws, dispatch_signed_tx,
}
use ar_io_solana_attestor.Worker.{
  DispenserSigner, Deps, decimal_ℤ, reason_text, memo_ixs, build_token_ixs, build_ant_ixs,
}

-- The instructions of a delivery with the label of its settlement; or a vault that goes to the
-- operator's manual queue; or an error.
pub data Delivery : Type 0 where
  build : (ixs : List Instruction) (label : String) → Delivery
  manual : (unlock lock : ℤ) → Delivery
  error : Delivery

-- `!!snap.approved_at`
abbrev pub is_approved : Claim → Bool
is_approved c = elim c.approved_at [ none ↦ false | some _ ↦ true ]

module _ (kit : Kit) (deps : Deps) (gateway : Gateway) (ctx : Context) where
  abbrev pub send_signed :
      Claim → Asset → Option ℕ → Option String → World → Option SignedDispatch → World × Reply
  send_signed snap asset amount label w none = (w, throws)
  send_signed snap asset amount label w (some signed) =
      dispatch_signed_tx ctx gateway
        (record {
          claim_id = snap.claim_id;
          asset_key = asset.asset_key;
          signed = signed;
          settlement_amount = amount;
          settlement_label = label;
        })
        w

  unfoldable pub sign_persist_broadcast_confirm :
      Claim → Asset → String → List Instruction → Option ℕ → Option String → World → World × Reply
  sign_persist_broadcast_confirm snap asset signer ixs amount label w =
      send_signed snap asset amount label w (gateway.sign_transaction ixs signer)

  -- `antSignerOverride ?? signers.ant`
  abbrev pub custody_of : Option DispenserSigner → Option DispenserSigner
  custody_of none = deps.ant_signer
  custody_of (some s) = some s

  abbrev fails : Claim → String → World → World × Reply
  fails snap reason w =
      (record w { db = mark_failed ctx snap.claim_id reason w.db }, returns failed none)

  abbrev reviews : Claim → Asset → String → DispatchOutcome → World → World × Reply
  reviews snap asset reason outcome w = (
    record w { db = route_to_review ctx snap.claim_id asset.asset_key reason w.db },
    if review_throws ctx snap.claim_id w.db then throws else returns outcome none,
  )

  -- The custody signer has been unlocked, or throws.
  abbrev pub send_ant : Claim → Asset → String → World → Option String → World × Reply
  send_ant snap asset mint w none = (w, throws)
  send_ant snap asset mint w (some signer) =
      if kit.is_address mint
      then sign_persist_broadcast_confirm snap asset signer
          (build_ant_ixs kit deps snap.claim_id signer mint snap.claimant) none none w
      else (w, throws)

  -- `!asset.ant_mint` holds of the empty text too.
  abbrev pub with_custody : Claim → Asset → World → Option DispenserSigner → World × Reply
  with_custody snap asset w none = (w, returns awaiting_ant_signer none)
  with_custody snap asset w (some custody) =
      let mint = get_or asset.ant_mint "" in
      if str_eq custody.address deps.token_signer.address
      then fails snap "ANT signer must not be the hot dispenser" w
      else if str_eq mint ""
      then fails snap "ant asset has no mint" w
      else send_ant snap asset mint w custody.get_signer

  unfoldable pub dispatch_ant : Option DispenserSigner → Claim → Asset → World → World × Reply
  dispatch_ant override snap asset w =
      if get_or deps.ant_requires_approval true && not (is_approved snap)
      then reviews snap asset "ant dispatch requires operator approval" awaiting_approval w
      else with_custody snap asset w (custody_of override)

  abbrev built : Option (List Instruction) → String → Delivery
  built none label = error
  built (some ixs) label = build ixs label

  abbrev lock_again : Claim → String → ℕ → ℤ → ℤ → Delivery
  lock_again snap signer amount lock unlock = elim deps.ario_core_program [
    | none ↦ manual unlock lock
    | some program ↦
        let args : VaultRelockArgs = record {
          read_account = gateway.get_account_data;
          ario_core_program = program;
          mint = deps.mint;
          sender = signer;
          claimant = snap.claimant;
          amount = amount;
          lock_duration_seconds = lock;
          memo_ixs = memo_ixs kit deps snap.claim_id;
        } in
        elim (build_vault_relock_ixs kit args) [
          | none ↦ error
          | some b ↦ build b.ixs ("relock:" +s decimal_ℤ lock +s "s")
        ]
  ]

  -- `remaining > 0n ? remaining : 0n`
  abbrev remaining_of : ℤ → ℤ
  remaining_of unlock =
      let remaining = unlock -ℤ deps.now in if ltb_ℤ (pos 0) remaining then remaining else pos 0

  -- What is built for a token or a vault, by the signer's address.
  unfoldable pub delivery_of : Claim → Asset → String → ℕ → Delivery
  delivery_of snap asset signer amount = elim asset.asset_type [
    | AssetType.vault ↦
        let unlock = get_or asset.vault_end_ts (pos 0) in
        elim (compute_vault_settlement (record {
          vault_end_ts = unlock;
          amount = pos amount;
          min_vault_duration = deps.min_vault_duration;
          max_vault_duration = deps.max_vault_duration;
          now = deps.now;
        })) [
          | settled (relock lock at remaining) ↦ lock_again snap signer amount lock at
          | settled (liquid reason remaining) ↦
              built (build_token_ixs kit deps snap.claim_id signer snap.claimant amount)
                ("liquid:" +s reason_text reason)
          | _ ↦ manual unlock (remaining_of unlock)
        ]
    | _ ↦ built (build_token_ixs kit deps snap.claim_id signer snap.claimant amount) "token"
  ]

  abbrev pub carry_out : Claim → Asset → ℕ → String → World → Delivery → World × Reply
  carry_out snap asset amount signer w error = (w, throws)
  carry_out snap asset amount signer w (manual unlock lock) = (
    record w {
      db =
          route_to_manual_vault_delivery ctx snap.claim_id asset.asset_key (decimal_ℤ unlock)
            (decimal_ℤ lock) w.db;
    },
    returns DispatchOutcome.awaiting_manual_vault_delivery none,
  )
  carry_out snap asset amount signer w (build ixs label) =
      sign_persist_broadcast_confirm snap asset signer ixs (some amount) (some label) w

  -- The hot signer has been unlocked, or throws.
  abbrev pub deliver : Claim → Asset → ℕ → World → Option String → World × Reply
  deliver snap asset amount w none = (w, throws)
  deliver snap asset amount w (some signer) =
      carry_out snap asset amount signer w (delivery_of snap asset signer amount)

  abbrev pub unless_denied : Claim → Asset → ℕ → World → Option FloatDenial → World × Reply
  unless_denied snap asset amount w none = deliver snap asset amount w deps.token_signer.get_signer
  unless_denied snap asset amount w (some (insufficient_float _ _)) =
      (w, returns deferred_refill none)
  unless_denied snap asset amount w (some (exceeds_brake _ threshold)) =
      reviews snap asset ("amount " +s decimal amount +s " over brake " +s decimal threshold)
        routed_to_review w

  -- The balance of the hot account has been read, or throws.
  abbrev pub with_balance : Claim → Asset → World → Option ℕ → World × Reply
  with_balance snap asset w none = (w, throws)
  with_balance snap asset w (some balance) =
      let amount = get_or asset.amount 0 in
      let committed = reserved deps.float (some snap.claim_id) w.db in
      unless_denied snap asset amount w
        (check deps.float amount (available_of deps.float balance committed) (is_approved snap))

  abbrev pub hot_ata : String
  hot_ata = get_associated_token_address kit deps.token_signer.address deps.mint

  unfoldable pub dispatch_fungible : Claim → Asset → World → World × Reply
  dispatch_fungible snap asset w = with_balance snap asset w (gateway.get_token_balance hot_ata)

  abbrev pub by_type : Option DispenserSigner → Claim → Asset → World → AssetType → World × Reply
  by_type override snap asset w AssetType.ant = dispatch_ant override snap asset w
  by_type override snap asset w _ = dispatch_fungible snap asset w

  abbrev pub unless_terminal :
      Option DispenserSigner → Claim → Asset → World → AssetStatus → World × Reply
  unless_terminal override snap asset w claimed = (w, returns skipped none)
  unless_terminal override snap asset w cancelled = (w, returns skipped none)
  unless_terminal override snap asset w _ =
      if kit.is_address snap.claimant
      then by_type override snap asset w asset.asset_type
      else (w, throws)

  abbrev pub with_asset : Option DispenserSigner → Claim → World → Option Asset → World × Reply
  with_asset override snap w none = (w, returns skipped none)
  with_asset override snap w (some asset) = unless_terminal override snap asset w asset.status

  abbrev pub with_claim : Option DispenserSigner → World → Option Claim → World × Reply
  with_claim override w none = (w, returns skipped none)
  with_claim override w (some snap) =
      with_asset override snap w (find_asset snap.asset_key w.db.assets)

  unfoldable pub dispatch_fresh : Option DispenserSigner → String → World → World × Reply
  dispatch_fresh override claim_id w = with_claim override w (find_claim claim_id w.db.claims)
