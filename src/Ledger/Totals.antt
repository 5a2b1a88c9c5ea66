-- ===== src/Ledger/Totals.antt =====
-- buildLedgerPlan, packages/claims/src/ledger/plan.ts: the counters and totals of a plan against its assets.
use ar_io_solana_attestor.Prelude.{ℕ, ◌+◌, ◌≡◌, refl, Option, none, some, true}
use mathlib.Core.Path.{subst}
use ar_io_solana_attestor.Audit.{Bytes}
use ar_io_solana_attestor.Ledger.{LedgerPlan}
use ar_io_solana_attestor.Ledger.Normalize.{PlanKit}
use ar_io_solana_attestor.Ledger.Stakes.{collect_stake_withdrawal_escrow}
use ar_io_solana_attestor.Ledger.Plan.{FrozenInputs, Builder, ◌>>=◌, start, fold_option}
use ar_io_solana_attestor.Ledger.Phases.{
  plan_ant, plan_balance, plan_vaults, load_modulus, load_at_risk, stake_phase, build_all, plan_of,
  build_ledger_plan,
}
use ar_io_solana_attestor.Ledger.Balance.{
  has_repeated, AreCounted, total_count, IsBalanced, BalancedIf, bind-Balanced,
  fold_option-Balanced,
}
use ar_io_solana_attestor.Ledger.Owned.{all_owned}
use ar_io_solana_attestor.Ledger.Classified.{upsert_recipient-Balanced}
use ar_io_solana_attestor.Ledger.Kept.{
  plan_ant-Balanced, plan_balance-Balanced, plan_vaults-Balanced, stake_phase-Balanced,
  load_modulus-Balanced,
}

module _ (kit : PlanKit) (inputs : FrozenInputs) where
  start-Balanced : IsBalanced start
  unfolding has_repeated
  start-Balanced = record {
    are_counted = record { same_number = refl; same_mario = refl; are_distinct = refl };
    are_owned = refl;
  }

  build_all-Balanced :
      (secret : Bytes) (now_ms : ℕ) → BalancedIf (build_all kit inputs secret now_ms)
  unfolding build_all
  build_all-Balanced secret now_ms =
      let set = collect_stake_withdrawal_escrow kit inputs.plan in
      let moduli = fold_option (load_modulus kit inputs) inputs.modulus start in
      let at_risk = moduli >>= fold_option (load_at_risk kit inputs) inputs.at_risk in
      let ants = at_risk >>= fold_option (plan_ant kit inputs secret) inputs.ants in
      let balances = ants >>= fold_option (plan_balance kit inputs) inputs.balances in
      let vaults = balances >>= fold_option (plan_vaults kit inputs now_ms) inputs.vaults in
      bind-Balanced vaults (stake_phase kit inputs now_ms set)
        (stake_phase-Balanced kit inputs now_ms set)
        (bind-Balanced balances (fold_option (plan_vaults kit inputs now_ms) inputs.vaults)
          (fold_option-Balanced (plan_vaults kit inputs now_ms)
            (plan_vaults-Balanced kit inputs now_ms) inputs.vaults)
          (bind-Balanced ants (fold_option (plan_balance kit inputs) inputs.balances)
            (fold_option-Balanced (plan_balance kit inputs) (plan_balance-Balanced kit inputs)
              inputs.balances)
            (bind-Balanced at_risk (fold_option (plan_ant kit inputs secret) inputs.ants)
              (fold_option-Balanced (plan_ant kit inputs secret)
                (plan_ant-Balanced kit inputs secret) inputs.ants)
              (bind-Balanced moduli (fold_option (load_at_risk kit inputs) inputs.at_risk)
                (fold_option-Balanced (load_at_risk kit inputs)
                  (λ addr. upsert_recipient-Balanced kit addr none) inputs.at_risk)
                (fold_option-Balanced (load_modulus kit inputs) (load_modulus-Balanced kit inputs)
                  inputs.modulus start start-Balanced)))))

-- What the builder's invariant says of a plan.
abbrev IsPlanned : LedgerPlan → Type 0
IsPlanned plan =
    AreCounted plan.assets (total_count plan.counters)
      (plan.phase2_token_outflow_mario + plan.phase3_vault_mario + plan.phase4_stake_mario)
    × (all_owned plan.recipients plan.assets ≡ true)

build_ledger_plan-IsPlanned :
    (kit : PlanKit) (inputs : FrozenInputs) (secret : Bytes) (now_ms : ℕ) (plan : LedgerPlan)
    → build_ledger_plan kit inputs secret now_ms ≡ some plan
    → IsPlanned plan
unfolding build_ledger_plan
build_ledger_plan-IsPlanned kit inputs secret now_ms plan e =
    subst PlannedIf e
      (planned (build_all kit inputs secret now_ms) (build_all-Balanced kit inputs secret now_ms))
  where
    PlannedIf : Option LedgerPlan → Type 0
    PlannedIf none = Unit
    PlannedIf (some p) = IsPlanned p

    planned :
        (o : Option Builder) → BalancedIf o → PlannedIf (o >>= λ (b : Builder). some (plan_of b))
    planned none h = tt
    planned (some b) h = (h.are_counted, h.are_owned)

-- In a plan that buildLedgerPlan returns the keys of the assets differ, the four manifest counters add
-- up to the number of available assets, and the totals of phases 2 to 4 to the sum of their amounts, an
-- ANT counting as 0.
pub build_ledger_plan-AreCounted :
    (kit : PlanKit) (inputs : FrozenInputs) (secret : Bytes) (now_ms : ℕ) (plan : LedgerPlan)
    → build_ledger_plan kit inputs secret now_ms ≡ some plan
    → AreCounted plan.assets
        (total_count plan.counters)
        (plan.phase2_token_outflow_mario + plan.phase3_vault_mario + plan.phase4_stake_mario)
build_ledger_plan-AreCounted kit inputs secret now_ms plan e =
    (build_ledger_plan-IsPlanned kit inputs secret now_ms plan e).0

pub build_ledger_plan-owned :
    (kit : PlanKit) (inputs : FrozenInputs) (secret : Bytes) (now_ms : ℕ) (plan : LedgerPlan)
    → build_ledger_plan kit inputs secret now_ms ≡ some plan
    → all_owned plan.recipients plan.assets ≡ true
build_ledger_plan-owned kit inputs secret now_ms plan e =
    (build_ledger_plan-IsPlanned kit inputs secret now_ms plan e).1
