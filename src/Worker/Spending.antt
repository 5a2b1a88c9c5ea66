-- ===== src/Worker/Spending.antt =====
-- #dispatchFresh of packages/claims/src/dispatch/worker.ts for tokens and vaults: what the float lets
-- through.
use ar_io_solana_attestor.Prelude.{ℕ, ◌≤◌, ◌≡◌, ◌⊎◌, refl, Option, none, some, true, inl, inr}
use mathlib.Core.Option.{get_or}
use ar_io_solana_attestor.Audit.{Context}
use ar_io_solana_attestor.Gateway.{Gateway}
use ar_io_solana_attestor.Instructions.{Kit}
use ar_io_solana_attestor.Store.{Claim, Asset}
use ar_io_solana_attestor.Float.{
  FloatDenial, insufficient_float, exceeds_brake, reserved, available_of, check,
}
use ar_io_solana_attestor.Float.Solvency.{check-none_iff}
use ar_io_solana_attestor.Dispatch.Core.{World}
use ar_io_solana_attestor.Worker.{Deps}
use ar_io_solana_attestor.Worker.Fresh.{
  is_approved, unless_denied, with_balance, hot_ata, dispatch_fungible,
}

module _ (kit : Kit) (deps : Deps) (gateway : Gateway) (ctx : Context) where
  -- The balance read covers the amount besides what other claims have reserved, and the amount is
  -- approved, or the brake is off, or the amount is within it.
  abbrev pub Covered : Claim → Asset → World → ℕ → Type 0
  Covered snap asset w balance =
      (get_or asset.amount 0
        ≤ available_of deps.float balance (reserved deps.float (some snap.claim_id) w.db))
      × ((is_approved snap ≡ true)
          ⊎ ((deps.float.policy.big_claim_threshold_mario ≡ 0)
              ⊎ (get_or asset.amount 0 ≤ deps.float.policy.big_claim_threshold_mario)))

  unless_denied-Silent :
      (snap : Claim) (asset : Asset) (amount : ℕ) (w : World) (d : FloatDenial)
      → (unless_denied kit deps gateway ctx snap asset amount w (some d)).0.broadcasts
        ≡ w.broadcasts
  unless_denied-Silent snap asset amount w (insufficient_float need available) = refl
  unless_denied-Silent snap asset amount w (exceeds_brake over threshold) = refl

  decided :
      (snap : Claim) (asset : Asset) (w : World) (balance : ℕ) (d : Option FloatDenial)
      → check deps.float
          (get_or asset.amount 0)
          (available_of deps.float balance (reserved deps.float (some snap.claim_id) w.db))
          (is_approved snap)
        ≡ d
      → ((unless_denied kit deps gateway ctx snap asset (get_or asset.amount 0) w d).0.broadcasts
          ≡ w.broadcasts)
        ⊎ Covered snap asset w balance
  decided snap asset w balance none e = inr ((check-none_iff deps.float _ _ (is_approved snap)).0 e)
  decided snap asset w balance (some d) e =
      inl (unless_denied-Silent snap asset (get_or asset.amount 0) w d)

  balanced :
      (snap : Claim) (asset : Asset) (w : World) (o : Option ℕ)
      → ((with_balance kit deps gateway ctx snap asset w o).0.broadcasts ≡ w.broadcasts)
        ⊎ ((balance : ℕ) × (o ≡ some balance) × Covered snap asset w balance)
  balanced snap asset w none = inl refl
  balanced snap asset w (some balance) = elim (decided snap asset w balance _ refl) [
    | inl silent ↦ inl silent
    | inr covered ↦ inr (balance, refl, covered)
  ]

-- The dispatch of a token or a vault broadcasts nothing, unless the balance that it reads of the hot
-- account covers the amount besides what the other claims have reserved, and the amount is approved,
-- or the brake is off, or the amount is within the brake.
pub dispatch_fungible-Covered :
    (kit : Kit) (deps : Deps) (gateway : Gateway) (ctx : Context) (snap : Claim) (asset : Asset)
    (w : World)
    → ((dispatch_fungible kit deps gateway ctx snap asset w).0.broadcasts ≡ w.broadcasts)
      ⊎ ((balance : ℕ) × (gateway.get_token_balance (hot_ata kit deps gateway ctx) ≡ some balance)
          × Covered kit deps gateway ctx snap asset w balance)
unfolding dispatch_fungible
dispatch_fungible-Covered kit deps gateway ctx snap asset w =
    balanced kit deps gateway ctx snap asset w
      (gateway.get_token_balance (hot_ata kit deps gateway ctx))
