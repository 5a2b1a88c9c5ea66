-- ===== src/Worker/Guards.antt =====
-- processClaim of packages/claims/src/dispatch/worker.ts: the calls that broadcast nothing.
use ar_io_solana_attestor.Prelude.{
  ℕ, Bool, none, not, ◌&&◌, ◌≢◌, refl, str_eq, Bool-cases, if◌then◌else◌, ◌≤◌, ◌≡◌, ◌⊎◌, eq_iff,
  String, Option, some, true, false, arith, inl, inr,
}
use mathlib.Core.Option.{get_or}
use ar_io_solana_attestor.Audit.{Context}
use ar_io_solana_attestor.Gateway.{Gateway, ConfirmState}
use ar_io_solana_attestor.Instructions.{Kit}
use ar_io_solana_attestor.Store.{
  Claim, ClaimStatus, dispatching, find_claim, find_asset, Asset, AssetStatus, AssetType, token,
  vault,
}
use ar_io_solana_attestor.Dispatch.Core.{World, Reply, throws}
use ar_io_solana_attestor.Worker.{DispenserSigner, Deps, max_resign_attempts}
use ar_io_solana_attestor.Worker.Fresh.{
  dispatch_ant, dispatch_fresh, custody_of, is_approved, with_custody, by_type, unless_terminal,
}
use ar_io_solana_attestor.Worker.Process.{
  recover_as, recover, process_at, process_row, process_claim, truthy,
}

-- The call leaves the chain as it was.
abbrev pub Silent : World → World × Reply → Type 0
Silent w r = r.0.broadcasts ≡ w.broadcasts

module _ (kit : Kit) (deps : Deps) (gateway : Gateway) (ctx : Context) where
  module _ (override : Option DispenserSigner) (snap : Claim) where
    recover_as-Silent :
        (sig : String) (w : World) (state : Option ConfirmState)
        → max_resign_attempts ≤ snap.dispatch_resign_count
        → Silent w (recover_as kit deps gateway ctx override snap sig w state)
    recover_as-Silent sig w state capped = ground arith

    recover-Silent :
        (w : World)
        → max_resign_attempts ≤ snap.dispatch_resign_count
        → Silent w (recover kit deps gateway ctx override snap w)
    unfolding recover
    recover-Silent w capped = ground arith

    process_at-Silent :
        (w : World) (status : ClaimStatus)
        → truthy snap.dispatch_signature ≡ true
        → status ≡ dispatching
        → max_resign_attempts ≤ snap.dispatch_resign_count
        → Silent w (process_at kit deps gateway ctx override snap w status)
    process_at-Silent w status held at capped = ground (arith, recover-Silent w capped)

-- A claim that is dispatching with a signature and that has been signed again once already is never
-- signed a third time: whatever the chain answers, the call broadcasts nothing.
pub process_claim-Silent_at_cap :
    (kit : Kit) (deps : Deps) (gateway : Gateway) (ctx : Context)
    (override : Option DispenserSigner) (id : String) (w : World) (snap : Claim)
    → find_claim id w.db.claims ≡ some snap
    → snap.status ≡ dispatching
    → truthy snap.dispatch_signature ≡ true
    → max_resign_attempts ≤ snap.dispatch_resign_count
    → (process_claim kit deps gateway ctx override id w).0.broadcasts ≡ w.broadcasts
unfolding process_claim
process_claim-Silent_at_cap kit deps gateway ctx override id w snap found at held capped =
    rw (found, process_row)
      (process_at-Silent kit deps gateway ctx override snap w snap.status held at capped)

-- What an ANT is sent under: its claim is approved, unless approvals are switched off, and its custody
-- signer is not the hot dispenser.
pub record MaySend (deps : Deps) (override : Option DispenserSigner) (snap : Claim) : Type 0 where
  pub permitted : (deps.ant_requires_approval ≡ some false) ⊎ (snap.approved_at ≢ none)
  pub custody : DispenserSigner
  pub chosen : (override ≡ some custody) ⊎ ((override ≡ none) × (deps.ant_signer ≡ some custody))
  pub is_cold : custody.address ≢ deps.token_signer.address

module _ (kit : Kit) (deps : Deps) (gateway : Gateway) (ctx : Context)
    (override : Option DispenserSigner) (snap : Claim) (asset : Asset) (w : World) where
  -- The call broadcasts nothing, or may send.
  abbrev Guarded : World × Reply → Type 0
  Guarded r = Silent w r ⊎ MaySend deps override snap

  custody_choice :
      (o : Option DispenserSigner) (custody : DispenserSigner)
      → custody_of kit deps gateway ctx o ≡ some custody
      → (o ≡ some custody) ⊎ ((o ≡ none) × (deps.ant_signer ≡ some custody))
  custody_choice none custody e = inr (refl, e)
  custody_choice (some s) custody e = inl e

  with_custody-Guarded :
      (o : Option DispenserSigner)
      → custody_of kit deps gateway ctx override ≡ o
      → (deps.ant_requires_approval ≡ some false) ⊎ (snap.approved_at ≢ none)
      → Guarded (with_custody kit deps gateway ctx snap asset w o)
  with_custody-Guarded none e permitted = inl refl
  with_custody-Guarded (some custody) e permitted =
      elim (Bool-cases (str_eq custody.address deps.token_signer.address)) [
        | inl hot ↦ inl (rw hot refl)
        | inr cold ↦ inr (record {
          permitted = permitted;
          custody = custody;
          chosen = custody_choice override custody e;
          is_cold = λ same.
              let clash = (eq_iff custody.address deps.token_signer.address).1 same in
              absurd (ground arith);
        })
      ]

  permission :
      (o : Option Bool) (approved : Option ℕ)
      → (get_or o true && not (elim approved [ none ↦ false | some _ ↦ true ])) ≡ false
      → (o ≡ some false) ⊎ (approved ≢ none)
  permission none none e = absurd (ground arith)
  permission (some true) none e = absurd (ground arith)
  permission (some false) none e = inl refl
  permission o (some at) e = inr (λ missing. cc)

  dispatch_ant-Guarded : Guarded (dispatch_ant kit deps gateway ctx override snap asset w)
  unfolding dispatch_ant
  dispatch_ant-Guarded =
      elim (Bool-cases (get_or deps.ant_requires_approval true && not (is_approved snap))) [
        | inl held ↦ inl (rw held refl)
        | inr free ↦ rw free (
            with_custody-Guarded _ refl
              (permission deps.ant_requires_approval snap.approved_at free))
      ]

  by_type-Guarded :
      (t : AssetType)
      → t ≡ AssetType.ant
      → Guarded (by_type kit deps gateway ctx override snap asset w t)
  by_type-Guarded AssetType.ant e = dispatch_ant-Guarded
  by_type-Guarded token e = cc
  by_type-Guarded vault e = cc

  addressed-Guarded :
      asset.asset_type ≡ AssetType.ant
      → Guarded (
          if kit.is_address snap.claimant
          then by_type kit deps gateway ctx override snap asset w asset.asset_type
          else (w, throws))
  addressed-Guarded e = elim (Bool-cases (kit.is_address snap.claimant)) [
    | inl named ↦ rw named (by_type-Guarded asset.asset_type e)
    | inr unnamed ↦ inl (rw unnamed refl)
  ]

  unless_terminal-Guarded :
      (s : AssetStatus)
      → asset.asset_type ≡ AssetType.ant
      → Guarded (unless_terminal kit deps gateway ctx override snap asset w s)
  unless_terminal-Guarded AssetStatus.claimed e = inl refl
  unless_terminal-Guarded AssetStatus.cancelled e = inl refl
  unless_terminal-Guarded _ e = addressed-Guarded e

-- A fresh dispatch of a claim on an ANT broadcasts nothing, whatever the chain answers, unless the claim
-- is approved or the approval of ANTs is switched off, and unless its custody signer, the one that the
-- call names or else the configured one, is there and is not the hot dispenser.
pub dispatch_fresh-MaySend :
    (kit : Kit) (deps : Deps) (gateway : Gateway) (ctx : Context)
    (override : Option DispenserSigner) (id : String) (w : World) (snap : Claim) (asset : Asset)
    → find_claim id w.db.claims ≡ some snap
    → find_asset snap.asset_key w.db.assets ≡ some asset
    → asset.asset_type ≡ AssetType.ant
    → ((dispatch_fresh kit deps gateway ctx override id w).0.broadcasts ≡ w.broadcasts)
      ⊎ MaySend deps override snap
unfolding dispatch_fresh
dispatch_fresh-MaySend kit deps gateway ctx override id w snap asset found held is_ant =
    rw (found, held)
      (unless_terminal-Guarded kit deps gateway ctx override snap asset w asset.status is_ant)
