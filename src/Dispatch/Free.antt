-- ===== src/Dispatch/Free.antt =====
-- No transaction of the dispatch makes an asset available again: packages/claims/src/dispatch/dispatch-core.ts.
use ar_io_solana_attestor.Prelude.{
  ◌≡◌, refl, String, Option, some, List, [], ◌∷◌, Bool, true, false, arith, Option-cases, inl, inr,
}
use ar_io_solana_attestor.Audit.{Context}
use ar_io_solana_attestor.Store.{AssetStatus, Asset, Db, find_asset, find_claim, update_asset}
use ar_io_solana_attestor.Dispatch.{unless_claimed}
use ar_io_solana_attestor.Dispatch.Claimed.{asset_status}
use ar_io_solana_attestor.Dispatch.Persist.{
  persist_dispatching, finalize_confirmed, mark_failed, claimed_row,
}
use ar_io_solana_attestor.Dispatch.Recovery.{
  mark_needs_operator, clear_dead_signature, route_to_review, route_to_manual_vault_delivery,
  approve_claim,
}
use ar_io_solana_attestor.Dispatch.Transitions.{
  Transition, persist, finalize, review, deliver_manually, apply,
}

-- The asset is `available`.
abbrev pub is_free : Option AssetStatus → Bool
is_free (some AssetStatus.available) = true
is_free _ = false

abbrev pub free : String → Db → Bool
free key db = is_free (asset_status key db.assets)

-- A write that makes no asset available.
abbrev pub Shuts : (Asset → Asset) → Type 0
Shuts f =
    (a : Asset)
    → ((f a).asset_key ≡ a.asset_key)
      × (is_free (some (f a).status) ≡ true → is_free (some a.status) ≡ true)

pub update_asset-free :
    (f : Asset → Asset) (k key : String) (assets : List Asset)
    → Shuts f
    → is_free (asset_status key (update_asset k f assets)) ≡ true
    → is_free (asset_status key assets) ≡ true
unfolding update_asset find_asset
update_asset-free f k key [] shuts e = e
update_asset-free f k key (a ∷ rest) shuts e =
    let (same, keeps) = shuts a in ground (arith, update_asset-free f k key rest shuts)

module _ (ctx : Context) (key : String) where
  unless_claimed-Shuts :
      (status : AssetStatus) → is_free (some status) ≡ false → Shuts (unless_claimed status ctx.now)
  unless_claimed-Shuts status shut a = ground arith

  claimed_row-Shuts : Shuts (claimed_row ctx)
  claimed_row-Shuts a = ground arith

  finalize-free :
      (j sig : String) (db : Db)
      → free key (finalize_confirmed ctx j sig db) ≡ true
      → free key db ≡ true
  unfolding finalize_confirmed
  finalize-free j sig db e = elim (Option-cases (find_claim j db.claims)) [
    | inl missing ↦ ground arith
    | inr (c, found) ↦
        ground
          (arith, update_asset-free (claimed_row ctx) c.asset_key key db.assets claimed_row-Shuts)
  ]

  pub apply-free :
      (t : Transition) (db : Db) → free key (apply ctx t db) ≡ true → free key db ≡ true
  unfolding apply persist_dispatching mark_failed mark_needs_operator clear_dead_signature
      route_to_review route_to_manual_vault_delivery approve_claim
  apply-free (persist args) db e = ground (
    arith,
    update_asset-free (unless_claimed AssetStatus.claiming ctx.now) args.asset_key key db.assets
        (unless_claimed-Shuts AssetStatus.claiming refl),
  )
  apply-free (finalize j sig) db e = finalize-free j sig db e
  apply-free (review j k reason) db e = ground (
    arith,
    update_asset-free (unless_claimed AssetStatus.pending_review ctx.now) k key db.assets
        (unless_claimed-Shuts AssetStatus.pending_review refl),
  )
  apply-free (deliver_manually j k unlock lock) db e = ground (
    arith,
    update_asset-free (unless_claimed AssetStatus.pending_review ctx.now) k key db.assets
        (unless_claimed-Shuts AssetStatus.pending_review refl),
  )
  apply-free _ db e = ground arith
