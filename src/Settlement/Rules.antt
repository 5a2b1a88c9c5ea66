-- ===== src/Settlement/Rules.antt =====
-- When a vault claim is locked again, and for how long.
use ar_io_solana_attestor.Prelude.{◌≡◌, ◌↔◌, true, arith, Bool-cases, inl, inr}
use ar_io_solana_attestor.Prelude.Int.{
  ℤ, pos, ◌-ℤ◌, ◌+ℤ◌, ltb_ℤ, leb_ℤ, ◌≤ℤ◌, +ℤ_parts, -ℤ_parts, eq_of_parts,
}
use ar_io_solana_attestor.Settlement.{
  LiquidReason, expired, below_min_amount, below_min_duration, liquid, relock, settled,
  SettlementArgs, compute_vault_settlement, vault_escrow_falls_back_to_liquid, min_vault_size_mario,
  min_vault_lock_seconds,
}

relock_to :
    (args : SettlementArgs) (lock unlock remaining : ℤ)
    → compute_vault_settlement args ≡ settled (relock lock unlock remaining)
    → (min_vault_size_mario ≤ℤ args.amount)
      × (pos 1 ≤ℤ lock)
      × (args.min_vault_duration ≤ℤ lock)
      × (lock ≤ℤ args.max_vault_duration)
      × (args.now +ℤ lock ≡ args.vault_end_ts)
      × (unlock ≡ args.vault_end_ts)
      × (remaining ≡ lock)
unfolding compute_vault_settlement
relock_to args lock unlock remaining e = ground (
  arith,
  -ℤ_parts args.vault_end_ts args.now,
  +ℤ_parts args.now lock,
  eq_of_parts (args.now +ℤ lock) args.vault_end_ts,
)

relock_from :
    (args : SettlementArgs) (lock unlock remaining : ℤ)
    → min_vault_size_mario ≤ℤ args.amount
    → pos 1 ≤ℤ lock
    → args.min_vault_duration ≤ℤ lock
    → lock ≤ℤ args.max_vault_duration
    → args.now +ℤ lock ≡ args.vault_end_ts
    → unlock ≡ args.vault_end_ts
    → remaining ≡ lock
    → compute_vault_settlement args ≡ settled (relock lock unlock remaining)
unfolding compute_vault_settlement
relock_from args lock unlock remaining size more least most sum end same =
    let parts = +ℤ_parts args.now lock in
    let rest = -ℤ_parts args.vault_end_ts args.now in
    let e : args.vault_end_ts -ℤ args.now ≡ lock =
      eq_of_parts (args.vault_end_ts -ℤ args.now) lock (ground (arith, parts, rest)) in
    rw e (ground arith)

falls_back_to :
    (args : SettlementArgs)
    → args.min_vault_duration ≡ min_vault_lock_seconds
    → pos 0 ≤ℤ args.amount
    → args.vault_end_ts -ℤ args.now ≤ℤ args.max_vault_duration
    → vault_escrow_falls_back_to_liquid args.amount (args.vault_end_ts -ℤ args.now) ≡ true
    → (reason : LiquidReason) × (compute_vault_settlement args
        ≡ settled (liquid reason (args.vault_end_ts -ℤ args.now)))
unfolding compute_vault_settlement vault_escrow_falls_back_to_liquid
falls_back_to args least fits short h =
    elim (Bool-cases (leb_ℤ (args.vault_end_ts -ℤ args.now) (pos 0))) [
      | inl over ↦ (expired, ground arith)
      | inr locked ↦ elim (Bool-cases (ltb_ℤ args.amount min_vault_size_mario)) [
        | inl small ↦ (below_min_amount, ground arith)
        | inr large ↦ (below_min_duration, ground arith)
      ]
    ]

falls_back_from :
    (args : SettlementArgs)
    → args.min_vault_duration ≡ min_vault_lock_seconds
    → pos 0 ≤ℤ args.amount
    → args.vault_end_ts -ℤ args.now ≤ℤ args.max_vault_duration
    → ((reason : LiquidReason) × (compute_vault_settlement args
          ≡ settled (liquid reason (args.vault_end_ts -ℤ args.now))))
    → vault_escrow_falls_back_to_liquid args.amount (args.vault_end_ts -ℤ args.now) ≡ true
unfolding compute_vault_settlement vault_escrow_falls_back_to_liquid
falls_back_from args least fits short (reason, e) = ground arith

-- A vault is locked again exactly when it holds the minimum size and the time that remains is
-- positive and between the two durations. The lock is then the time that remains, so that counted
-- from now it ends at the original unlock time.
pub relock_iff :
    (args : SettlementArgs) (lock unlock remaining : ℤ)
    → (compute_vault_settlement args ≡ settled (relock lock unlock remaining)) ↔ (
        (min_vault_size_mario ≤ℤ args.amount)
        × (pos 1 ≤ℤ lock)
        × (args.min_vault_duration ≤ℤ lock)
        × (lock ≤ℤ args.max_vault_duration)
        × (args.now +ℤ lock ≡ args.vault_end_ts)
        × (unlock ≡ args.vault_end_ts)
        × (remaining ≡ lock))
relock_iff args lock unlock remaining = (
  (λ e. relock_to args lock unlock remaining e),
  (λ h. relock_from args lock unlock remaining h.0 h.1 h.2 h.3 h.4 h.5 h.6),
)

-- At the deposit rule's minimum duration and with a lock that is not too long, a claim of a
-- non-negative amount is settled liquid exactly when the deposit rule would fall back to liquid.
pub compute_vault_settlement-liquid_iff :
    (args : SettlementArgs)
    → args.min_vault_duration ≡ min_vault_lock_seconds
    → pos 0 ≤ℤ args.amount
    → args.vault_end_ts -ℤ args.now ≤ℤ args.max_vault_duration
    → (vault_escrow_falls_back_to_liquid args.amount (args.vault_end_ts -ℤ args.now) ≡ true) ↔ (
        (reason : LiquidReason) × (compute_vault_settlement args
          ≡ settled (liquid reason (args.vault_end_ts -ℤ args.now))))
compute_vault_settlement-liquid_iff args least fits short =
    (falls_back_to args least fits short, falls_back_from args least fits short)
