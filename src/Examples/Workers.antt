-- ===== src/Examples/Workers.antt =====
-- The worker at one claim.
use ar_io_solana_attestor.Prelude.{
  ℕ, ◌≤◌, ◌≡◌, ◌⊎◌, refl, none, some, List, [], ◌++◌, arith, length,
}
use ar_io_solana_attestor.Gateway.{SignedDispatch}
use ar_io_solana_attestor.Store.{Asset, AssetType, find_claim, find_asset}
use ar_io_solana_attestor.Dispatch.Core.{World}
use ar_io_solana_attestor.Worker.Fresh.{dispatch_fresh, dispatch_fungible, hot_ata}
use ar_io_solana_attestor.Worker.Process.{process_claim}
use ar_io_solana_attestor.Worker.Queue.{run_once}
use ar_io_solana_attestor.Worker.Sends.{Effect}
use ar_io_solana_attestor.Worker.Recorded.{process_claim-Effect}
use ar_io_solana_attestor.Worker.Guards.{
  process_claim-Silent_at_cap, MaySend, dispatch_fresh-MaySend,
}
use ar_io_solana_attestor.Worker.Spending.{Covered, dispatch_fungible-Covered}
use ar_io_solana_attestor.Worker.Ticks.{queue_of, run_once-length, run_once-confirmed}
use ar_io_solana_attestor.Examples.Fixtures.{
  sample_ctx, sample_kit, sample_gateway, sample_deps, sample_claim, confirmed_claim, capped_claim,
  sample_asset, hot_signer, world_of,
}

abbrev w : World
w = world_of sample_claim sample_asset

abbrev capped : World
capped = world_of capped_claim sample_asset

abbrev settled_world : World
settled_world = world_of confirmed_claim sample_asset

process_claim-Effect_example :
    Effect "c1" w (process_claim sample_kit sample_deps sample_gateway sample_ctx none "c1" w).0
process_claim-Effect_example =
    process_claim-Effect sample_kit sample_deps sample_gateway sample_ctx none "c1" w

process_claim-Silent_at_cap_example :
    (process_claim sample_kit sample_deps sample_gateway sample_ctx none "c1" capped).0.broadcasts
    ≡ []
unfolding find_claim
process_claim-Silent_at_cap_example =
    process_claim-Silent_at_cap sample_kit sample_deps sample_gateway sample_ctx none "c1" capped
      capped_claim refl refl refl (omega arith)

abbrev ant_asset : Asset
ant_asset = record sample_asset { asset_type = AssetType.ant; ant_mint = some "mint1" }

abbrev ant_world : World
ant_world = world_of sample_claim ant_asset

dispatch_fresh-MaySend_example :
    ((dispatch_fresh sample_kit sample_deps sample_gateway sample_ctx
        (some hot_signer)
        "c1"
        ant_world).0.broadcasts
      ≡ [])
    ⊎ MaySend sample_deps (some hot_signer) sample_claim
unfolding find_claim find_asset
dispatch_fresh-MaySend_example =
    dispatch_fresh-MaySend sample_kit sample_deps sample_gateway sample_ctx (some hot_signer) "c1"
      ant_world sample_claim ant_asset refl refl refl

run_once-length_example :
    (length (run_once sample_kit sample_deps sample_gateway sample_ctx w).1
      ≡ length (queue_of sample_deps w))
    × ((new : List SignedDispatch) × ((run_once sample_kit sample_deps sample_gateway sample_ctx
            w).0.broadcasts
          ≡ new ++ [])
        × (length new ≤ length (queue_of sample_deps w)))
run_once-length_example = run_once-length sample_kit sample_deps sample_gateway sample_ctx w

run_once-confirmed_example :
    find_claim "c1"
      (run_once sample_kit sample_deps sample_gateway sample_ctx settled_world).0.db.claims
    ≡ some confirmed_claim
unfolding find_claim
run_once-confirmed_example =
    run_once-confirmed sample_kit sample_deps sample_gateway sample_ctx settled_world "c1"
      confirmed_claim refl refl

dispatch_fungible-Covered_example :
    ((dispatch_fungible sample_kit sample_deps sample_gateway sample_ctx sample_claim sample_asset
        w).0.broadcasts
      ≡ [])
    ⊎ ((balance : ℕ) × (sample_gateway.get_token_balance
            (hot_ata sample_kit sample_deps sample_gateway sample_ctx)
          ≡ some balance)
        × Covered sample_kit sample_deps sample_gateway sample_ctx sample_claim sample_asset w
            balance)
dispatch_fungible-Covered_example =
    dispatch_fungible-Covered sample_kit sample_deps sample_gateway sample_ctx sample_claim
      sample_asset w
