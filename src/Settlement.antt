-- ===== src/Settlement.antt =====
-- packages/claims/src/ledger/vault-rules.ts and packages/claims/src/verify/vault-settlement.ts: is a
-- vault still worth locking, at deposit time and at claim time. Amounts and times are integers
-- (`bigint`; a `number` that is no integer, which the second throws at, is left out).
pub mod Rules
use ar_io_solana_attestor.Prelude.{ℕ, ◌*◌, Bool, true, false, ◌||◌, if◌then◌else◌}
use ar_io_solana_attestor.Prelude.Int.{ℤ, pos, ◌-ℤ◌, ltb_ℤ, leb_ℤ}

-- 100 ARIO.
abbrev pub min_vault_size_mario : ℤ
min_vault_size_mario = pos 100_000_000

-- 14 days.
abbrev pub min_vault_lock_seconds : ℤ
min_vault_lock_seconds = pos (14 * 86_400)

unfoldable pub vault_escrow_falls_back_to_liquid : ℤ → ℤ → Bool
vault_escrow_falls_back_to_liquid amount_mario remaining =
    ltb_ℤ remaining min_vault_lock_seconds || ltb_ℤ amount_mario min_vault_size_mario

pub data LiquidReason : Type 0 where
  expired below_min_amount below_min_duration : LiquidReason

-- A re-locked vault is never revocable, so the constant field `revocable` is left out.
pub data VaultSettlement : Type 0 where
  liquid : (reason : LiquidReason) (remaining_seconds : ℤ) → VaultSettlement
  relock : (lock_duration_seconds unlock_timestamp remaining_seconds : ℤ) → VaultSettlement

pub data SettlementResult : Type 0 where
  settled : VaultSettlement → SettlementResult
  invalid_input lock_duration_too_long : SettlementResult

pub record SettlementArgs : Type 0 where
  pub vault_end_ts : ℤ
  pub amount : ℤ
  pub min_vault_duration : ℤ
  pub max_vault_duration : ℤ
  pub now : ℤ

unfoldable pub compute_vault_settlement : SettlementArgs → SettlementResult
compute_vault_settlement args =
    let remaining = args.vault_end_ts -ℤ args.now in
    if ltb_ℤ args.amount (pos 0)
    then invalid_input
    else if leb_ℤ remaining (pos 0)
    then settled (liquid expired remaining)
    else if ltb_ℤ args.amount min_vault_size_mario
    then settled (liquid below_min_amount remaining)
    else if ltb_ℤ remaining args.min_vault_duration
    then settled (liquid below_min_duration remaining)
    else if ltb_ℤ args.max_vault_duration remaining
    then lock_duration_too_long
    else settled (relock remaining args.vault_end_ts remaining)
