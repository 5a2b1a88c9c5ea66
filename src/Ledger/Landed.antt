-- ===== src/Ledger/Landed.antt =====
-- The assets of writeLedger, packages/claims/src/ledger/build.ts: what the table holds afterwards.
use ar_io_solana_attestor.Prelude.{
  ℕ, ◌≡◌, refl, String, some, List, [], ◌∷◌, true, false, str_eq, eq_iff, arith, map, All,
  Bool-cases, inl, inr,
}
use ar_io_solana_attestor.Store.{Asset, find_asset}
use ar_io_solana_attestor.Dispatch.{any_eq}
use ar_io_solana_attestor.Ledger.{PlannedStatus}
use ar_io_solana_attestor.Ledger.Write.{
  AssetRow, upsert_all, upsert_asset, refreshed_asset, new_asset, has_live_asset, is_buildable,
  asset_status_of,
}
use ar_io_solana_attestor.Ledger.Rebuild.{after_upsert, find_asset-upsert_asset}
use ar_io_solana_attestor.Ledger.Balance.{has_repeated}

abbrev row_keys : List AssetRow → List String
row_keys rows = map (λ (r : AssetRow). r.planned.asset_key) rows

-- The table has this row's asset, with every planned column.
pub record Holds (row : AssetRow) (assets : List Asset) : Type 0 where
  pub asset : Asset
  pub found : find_asset row.planned.asset_key assets ≡ some asset
  pub same_type : asset.asset_type ≡ row.planned.asset_type
  pub same_recipient : asset.recipient_id ≡ row.recipient_id
  pub same_mint : asset.ant_mint ≡ row.planned.ant_mint
  pub same_amount : asset.amount ≡ row.planned.amount
  pub same_end : asset.vault_end_ts ≡ row.planned.vault_end_ts
  pub same_status : asset.status ≡ asset_status_of row.planned.status

module _ (now : ℕ) where
  planned_buildable : (s : PlannedStatus) → is_buildable (asset_status_of s) ≡ true
  planned_buildable PlannedStatus.available = refl
  planned_buildable PlannedStatus.manual_review = refl

  refreshed-buildable :
      (row : AssetRow) (a : Asset)
      → is_buildable a.status ≡ true
      → is_buildable (refreshed_asset now row a).status ≡ true
  unfolding refreshed_asset
  refreshed-buildable row a h = rw h (planned_buildable row.planned.status)

  refreshed-key : (row : AssetRow) (a : Asset) → (refreshed_asset now row a).asset_key ≡ a.asset_key
  unfolding refreshed_asset
  refreshed-key row a = ground arith

  refreshed-live :
      (row : AssetRow) (b : Asset) → is_buildable b.status ≡ false → refreshed_asset now row b ≡ b
  unfolding refreshed_asset
  refreshed-live row b h = rw h refl

  upsert_asset-idle :
      (keys : List String) (row : AssetRow) (assets : List Asset)
      → has_live_asset keys assets ≡ false
      → has_live_asset keys (upsert_asset now row assets) ≡ false
  unfolding has_live_asset upsert_asset
  upsert_asset-idle keys row [] h = ground (arith, planned_buildable row.planned.status)
  upsert_asset-idle keys row (b ∷ rest) h = elim (Bool-cases (is_buildable b.status)) [
    | inl buildable ↦ ground (
      arith,
      refreshed-buildable row b buildable,
      refreshed-key row b,
      upsert_asset-idle keys row rest,
    )
    | inr live ↦ ground (
      arith,
      eq_iff b.asset_key row.planned.asset_key,
      refreshed-key row b,
      upsert_asset-idle keys row rest,
      refreshed-live row b live,
    )
  ]

  upsert_asset-Holds :
      (keys : List String) (row : AssetRow) (assets : List Asset)
      → has_live_asset keys assets ≡ false
      → any_eq row.planned.asset_key keys ≡ true
      → Holds row (upsert_asset now row assets)
  unfolding has_live_asset upsert_asset find_asset refreshed_asset
  upsert_asset-Holds keys row [] idle named = record {
    asset = new_asset now row;
    found = ground (arith, eq_iff row.planned.asset_key row.planned.asset_key);
    same_type = refl;
    same_recipient = refl;
    same_mint = refl;
    same_amount = refl;
    same_end = refl;
    same_status = refl;
  }
  upsert_asset-Holds keys row (b ∷ rest) idle named =
      elim (Bool-cases (str_eq b.asset_key row.planned.asset_key)) [
        | inl same ↦
            let at : b.asset_key ≡ row.planned.asset_key =
              (eq_iff b.asset_key row.planned.asset_key).0 same in
            let open_row : is_buildable b.status ≡ true = ground arith in
            rw (same, open_row)
              (record {
                asset = record b {
                  asset_type = row.planned.asset_type;
                  recipient_id = row.recipient_id;
                  ant_mint = row.planned.ant_mint;
                  amount = row.planned.amount;
                  vault_end_ts = row.planned.vault_end_ts;
                  status = asset_status_of row.planned.status;
                  updated_at = now;
                };
                found = rw same refl;
                same_type = refl;
                same_recipient = refl;
                same_mint = refl;
                same_amount = refl;
                same_end = refl;
                same_status = refl;
              })
        | inr other ↦
            let there = upsert_asset-Holds keys row rest (ground arith) named in
            rw other (record {
              asset = there.asset;
              found = rw other there.found;
              same_type = there.same_type;
              same_recipient = there.same_recipient;
              same_mint = there.same_mint;
              same_amount = there.same_amount;
              same_end = there.same_end;
              same_status = there.same_status;
            })
      ]

  Holds-upsert_asset :
      (row next : AssetRow) (assets : List Asset)
      → str_eq next.planned.asset_key row.planned.asset_key ≡ false
      → Holds row assets
      → Holds row (upsert_asset now next assets)
  unfolding after_upsert
  Holds-upsert_asset row next assets other h = record {
    asset = h.asset;
    found =
        rw other at (find_asset-upsert_asset now next row.planned.asset_key h.asset assets h.found);
    same_type = h.same_type;
    same_recipient = h.same_recipient;
    same_mint = h.same_mint;
    same_amount = h.same_amount;
    same_end = h.same_end;
    same_status = h.same_status;
  }

  Holds-upsert_all :
      (row : AssetRow) (rows : List AssetRow) (assets : List Asset)
      → any_eq row.planned.asset_key (row_keys rows) ≡ false
      → Holds row assets
      → Holds row
          (upsert_all (λ (r : AssetRow). r.planned.asset_key) (upsert_asset now) rows assets)
  unfolding upsert_all any_eq
  Holds-upsert_all row [] assets absent h = h
  Holds-upsert_all row (next ∷ rest) assets absent h =
      Holds-upsert_all row rest (upsert_asset now next assets) (ground arith) (
        Holds-upsert_asset row next assets
          (ground (
            arith,
            eq_iff next.planned.asset_key row.planned.asset_key,
            eq_iff row.planned.asset_key next.planned.asset_key,
          ))
          h)

  -- Rows of distinct keys, none of whose assets is live, are all in the table afterwards.
  pub upsert_all-Holds :
      (keys : List String) (rows : List AssetRow) (assets : List Asset)
      → has_repeated (row_keys rows) ≡ false
      → has_live_asset keys assets ≡ false
      → All (λ (r : AssetRow). any_eq r.planned.asset_key keys ≡ true) rows
      → All
          (λ (r : AssetRow).
            Holds r
              (upsert_all (λ (r : AssetRow). r.planned.asset_key) (upsert_asset now) rows assets))
          rows
  unfolding upsert_all has_repeated
  upsert_all-Holds keys [] assets distinct idle named = tt
  upsert_all-Holds keys (r ∷ rest) assets distinct idle (here, there) = (
    Holds-upsert_all r rest (upsert_asset now r assets) (ground arith)
        (upsert_asset-Holds keys r assets idle here),
    upsert_all-Holds keys rest (upsert_asset now r assets) (ground arith)
        (upsert_asset-idle keys r assets idle) there,
  )

any_eq-later :
    (key : String) (keys : List String) (rows : List AssetRow)
    → All (λ (r : AssetRow). any_eq r.planned.asset_key keys ≡ true) rows
    → All (λ (r : AssetRow). any_eq r.planned.asset_key (key ∷ keys) ≡ true) rows
unfolding any_eq
any_eq-later key keys [] h = tt
any_eq-later key keys (r ∷ rest) (here, there) = (ground arith, any_eq-later key keys rest there)

pub any_eq-row_keys :
    (rows : List AssetRow)
    → All (λ (r : AssetRow). any_eq r.planned.asset_key (row_keys rows) ≡ true) rows
unfolding any_eq
any_eq-row_keys [] = tt
any_eq-row_keys (r ∷ rest) = (
  ground (arith, eq_iff r.planned.asset_key r.planned.asset_key),
  any_eq-later r.planned.asset_key (row_keys rest) rest (any_eq-row_keys rest),
)
