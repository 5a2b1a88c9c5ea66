-- ===== src/Examples/Liabilities.antt =====
-- The liabilities of a ledger with one token, before and after its payment.
use ar_io_solana_attestor.Prelude.{◌≡◌, refl, ◌+◌, none, inl, inr}
use ar_io_solana_attestor.Store.{Db, find_claim, find_asset}
use ar_io_solana_attestor.Dispatch.Persist.{finalize_confirmed}
use ar_io_solana_attestor.Reserves.{read_liabilities}
use ar_io_solana_attestor.Reserves.Partition.{UniqueKeys, finalize_confirmed-liabilities}
use ar_io_solana_attestor.Examples.Fixtures.{sample_ctx, sample_claim, sample_asset, db_of}

abbrev unpaid : Db
unpaid = db_of sample_claim sample_asset

abbrev paid : Db
paid = finalize_confirmed sample_ctx "c1" "sig1" unpaid

finalize_confirmed-liabilities_example :
    ((read_liabilities none paid.assets).outstanding_mario + 50
      ≡ (read_liabilities none unpaid.assets).outstanding_mario)
    × ((read_liabilities none paid.assets).claimed_mario
        ≡ (read_liabilities none unpaid.assets).claimed_mario + 50)
    × ((read_liabilities none paid.assets).total_mario
        ≡ (read_liabilities none unpaid.assets).total_mario)
unfolding find_claim find_asset UniqueKeys
finalize_confirmed-liabilities_example =
    finalize_confirmed-liabilities sample_ctx "c1" "sig1" unpaid none sample_claim sample_asset 50
      (tt, tt) refl (λ e. cc) refl
      (record { is_fungible = inl refl; is_due = inr (inl refl); owes = refl }) refl
