-- ===== src/Examples/Dispatches.antt =====
-- The dispatch transactions, the float, the settlement and the chain's answers at concrete inputs.
use ar_io_solana_attestor.Prelude.{
  ◌*◌, ◌≤◌, ◌≡◌, ◌↔◌, refl, Option, none, some, List, [], ◌∷◌, true, false, arith,
}
use ar_io_solana_attestor.Prelude.Int.{pos, ◌-ℤ◌, ◌+ℤ◌, ◌≤ℤ◌}
use ar_io_solana_attestor.Audit.{Context}
use ar_io_solana_attestor.Gateway.{expired}
use ar_io_solana_attestor.Gateway.Status.{
  Poll, Node, IsChain, finalized, confirm_signature, status_once, Seen, Means,
  confirm_signature-Means, HistoryEntry, find_confirmed_outflow, scan_pages, scan_page, any_known,
  without_empty,
}
use ar_io_solana_attestor.Gateway.Outflow.{Landed, IsOurs, find_confirmed_outflow-Landed}
use ar_io_solana_attestor.Settlement.{
  SettlementArgs, LiquidReason, settled, relock, liquid, compute_vault_settlement,
  min_vault_size_mario, vault_escrow_falls_back_to_liquid, min_vault_lock_seconds,
}
use ar_io_solana_attestor.Settlement.Rules.{relock_iff, compute_vault_settlement-liquid_iff}
use ar_io_solana_attestor.Store.{Asset, claimed, Db, find_claim, find_asset}
use ar_io_solana_attestor.Float.{check, reserved_sum, share}
use ar_io_solana_attestor.Float.Solvency.{UniqueIds, pending_total, persist_dispatching-solvent}
use ar_io_solana_attestor.Dispatch.Persist.{persist_dispatching, dispatching_db}
use ar_io_solana_attestor.Dispatch.Transitions.{Transition, fail, clear, finalize, approve, run}
use ar_io_solana_attestor.Dispatch.Confirmed.{run-confirmed}
use ar_io_solana_attestor.Dispatch.Claimed.{asset_status, run-claimed}
use ar_io_solana_attestor.Examples.Fixtures.{
  sample_ctx, sample_claim, confirmed_claim, sample_asset, db_of, sample_args, sample_manager,
}

abbrev attempts : List (Context × Transition)
attempts =
    (sample_ctx, fail "c1" "late")
    ∷ (sample_ctx, clear "c1")
    ∷ (sample_ctx, finalize "c1" "sig2")
    ∷ (sample_ctx, approve "c1" "operator")
    ∷ []

abbrev claimed_asset : Asset
claimed_asset = record sample_asset { status = claimed }

run-confirmed_example :
    find_claim "c1" (run attempts (db_of confirmed_claim claimed_asset)).claims
    ≡ some confirmed_claim
unfolding find_claim
run-confirmed_example =
    run-confirmed attempts (db_of confirmed_claim claimed_asset) "c1" confirmed_claim refl refl

run-claimed_example :
    asset_status "a1" (run attempts (db_of confirmed_claim claimed_asset)).assets ≡ some claimed
unfolding find_asset
run-claimed_example = run-claimed attempts (db_of confirmed_claim claimed_asset) "a1" refl

abbrev db : Db
db = db_of sample_claim sample_asset

abbrev db_after : Db
db_after = dispatching_db sample_ctx sample_args db

persist_dispatching-solvent_example : pending_total db_after.assets db_after.claims ≤ 1000
unfolding persist_dispatching find_claim find_asset check reserved_sum share UniqueIds
persist_dispatching-solvent_example =
    persist_dispatching-solvent sample_manager sample_ctx sample_args 50 1000 false db db_after refl
      (tt, tt) (omega arith) refl refl refl

abbrev locked : SettlementArgs
locked = record {
  vault_end_ts = pos 3_000_000;
  amount = pos 200_000_000;
  min_vault_duration = min_vault_lock_seconds;
  max_vault_duration = pos (365 * 86_400);
  now = pos 1_000_000;
}

relock_iff_example :
    (compute_vault_settlement locked
      ≡ settled (relock (pos 2_000_000) (pos 3_000_000) (pos 2_000_000)))
    ↔ ((min_vault_size_mario ≤ℤ pos 200_000_000)
        × (pos 1 ≤ℤ pos 2_000_000)
        × (min_vault_lock_seconds ≤ℤ pos 2_000_000)
        × (pos 2_000_000 ≤ℤ pos (365 * 86_400))
        × (pos 1_000_000 +ℤ pos 2_000_000 ≡ pos 3_000_000)
        × (pos 3_000_000 ≡ pos 3_000_000)
        × (pos 2_000_000 ≡ pos 2_000_000))
relock_iff_example = relock_iff locked (pos 2_000_000) (pos 3_000_000) (pos 2_000_000)

compute_vault_settlement-liquid_iff_example :
    (vault_escrow_falls_back_to_liquid locked.amount (locked.vault_end_ts -ℤ locked.now) ≡ true) ↔ (
      (reason : LiquidReason) × (compute_vault_settlement locked
        ≡ settled (liquid reason (locked.vault_end_ts -ℤ locked.now))))
unfolding ◌-ℤ◌
compute_vault_settlement-liquid_iff_example =
    compute_vault_settlement-liquid_iff locked refl (omega arith) (omega arith)

-- The transaction never lands, and the height passes 100.
abbrev node : Node
node = record { block_height = λ t. t; signature_status = λ t. none }

abbrev polls : List Poll
polls = record { begins = 90; latency = 3 } ∷ record { begins = 110; latency = 2 } ∷ []

node-IsChain : IsChain node 100
node-IsChain = record { never_falls = λ s t h. h; landing = λ u there. absurd (there refl) }

confirm_signature-Means_example : Seen (Means node expired) polls
unfolding confirm_signature status_once
confirm_signature-Means_example =
    confirm_signature-Means node 100 polls expired node-IsChain refl (λ e. cc)

abbrev pages : List (Option (List HistoryEntry))
pages =
    none
    ∷ some (
        record { signature = "other"; err = false; confirmation_status = finalized }
        ∷ record { signature = "sig1"; err = false; confirmation_status = finalized }
        ∷ [])
    ∷ []

find_confirmed_outflow-Landed_example : Landed (IsOurs ("sig1" ∷ "" ∷ []) "sig1") pages
unfolding find_confirmed_outflow scan_pages scan_page any_known without_empty
find_confirmed_outflow-Landed_example =
    find_confirmed_outflow-Landed ("sig1" ∷ "" ∷ []) pages "sig1" refl
