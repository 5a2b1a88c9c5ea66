-- ===== src/Dispatch/Claimed.antt =====
-- A claimed asset stays claimed through the transactions of the dispatch.
use ar_io_solana_attestor.Prelude.{
  String, ◌≡◌, refl, Option, some, List, [], ◌∷◌, arith, Option-cases, inl, inr,
}
use mathlib.Core.Option
use mathlib.Core.Option.{get_or}
use ar_io_solana_attestor.Audit.{Context}
use ar_io_solana_attestor.Store.{
  AssetStatus, claimed, Asset, Db, find_claim, find_asset, update_asset,
}
use ar_io_solana_attestor.Store.Laws.{find_asset-update_asset}
use ar_io_solana_attestor.Dispatch.{PersistDispatchingArgs, unless_claimed}
use ar_io_solana_attestor.Dispatch.Persist.{
  persist_dispatching, finalize_confirmed, mark_failed, claimed_row,
}
use ar_io_solana_attestor.Dispatch.Recovery.{
  mark_needs_operator, clear_dead_signature, route_to_review, route_to_manual_vault_delivery,
  approve_claim,
}
use ar_io_solana_attestor.Dispatch.Transitions.{
  Transition, persist, finalize, review, deliver_manually, apply, run,
}

-- The status of the asset with a key, if there is one.
abbrev pub asset_status : String → List Asset → Option AssetStatus
asset_status key assets = Option.map (λ (a : Asset). a.status) (find_asset key assets)

module _ (ctx : Context) (key : String) where
  unless_claimed-key :
      (status : AssetStatus) (a : Asset) → (unless_claimed status ctx.now a).asset_key ≡ a.asset_key
  unless_claimed-key status a = ground arith

  claimed_row-claimed :
      (k : String) (assets : List Asset)
      → asset_status key assets ≡ some claimed
      → asset_status key (update_asset k (claimed_row ctx) assets) ≡ some claimed
  claimed_row-claimed k assets same =
      ground (arith, find_asset-update_asset (claimed_row ctx) (λ d. refl) k key assets)

  unless_claimed-claimed :
      (status : AssetStatus) (k : String) (assets : List Asset)
      → asset_status key assets ≡ some claimed
      → asset_status key (update_asset k (unless_claimed status ctx.now) assets) ≡ some claimed
  unless_claimed-claimed status k assets same = ground (
    arith,
    find_asset-update_asset (unless_claimed status ctx.now) (unless_claimed-key status) k key
        assets,
  )

  finalize-claimed :
      (j sig : String) (db : Db)
      → asset_status key db.assets ≡ some claimed
      → asset_status key (finalize_confirmed ctx j sig db).assets ≡ some claimed
  unfolding finalize_confirmed
  finalize-claimed j sig db same = elim (Option-cases (find_claim j db.claims)) [
    | inl missing ↦ ground arith
    | inr (c, found) ↦ ground (arith, claimed_row-claimed c.asset_key db.assets same)
  ]

  persist-claimed :
      (args : PersistDispatchingArgs) (db : Db)
      → asset_status key db.assets ≡ some claimed
      → asset_status key (get_or (persist_dispatching ctx args db) db).assets ≡ some claimed
  unfolding persist_dispatching
  persist-claimed args db same =
      ground (arith, unless_claimed-claimed AssetStatus.claiming args.asset_key db.assets same)

  apply-claimed :
      (t : Transition) (db : Db)
      → asset_status key db.assets ≡ some claimed
      → asset_status key (apply ctx t db).assets ≡ some claimed
  unfolding apply mark_failed mark_needs_operator clear_dead_signature route_to_review
      route_to_manual_vault_delivery approve_claim
  apply-claimed (persist args) db same = persist-claimed args db same
  apply-claimed (finalize j sig) db same = finalize-claimed j sig db same
  apply-claimed (review j k reason) db same =
      ground (arith, unless_claimed-claimed AssetStatus.pending_review k db.assets same)
  apply-claimed (deliver_manually j k unlock lock) db same =
      ground (arith, unless_claimed-claimed AssetStatus.pending_review k db.assets same)
  apply-claimed _ db same = ground arith

-- An asset that is claimed is claimed after any sequence of these transactions.
pub run-claimed :
    (ts : List (Context × Transition)) (db : Db) (key : String)
    → asset_status key db.assets ≡ some claimed
    → asset_status key (run ts db).assets ≡ some claimed
unfolding run
run-claimed [] db key same = same
run-claimed ((ctx, t) ∷ rest) db key same =
    run-claimed rest (apply ctx t db) key (apply-claimed ctx key t db same)
