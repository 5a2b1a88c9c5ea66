-- ===== src/Ledger/Rebuild.antt =====
-- A rebuild of the ledger, writeLedger of packages/claims/src/ledger/build.ts, on the assets that are
-- there already.
use ar_io_solana_attestor.Prelude.{
  ℕ, zero, suc, ◌≡◌, refl, sym, ◌∙◌, String, Option, none, some, List, [], ◌∷◌, Bool, true, false,
  not, ◌&&◌, arith, str_eq, eq_iff, if◌then◌else◌, take, drop, map, length, Bool-cases, inl, inr,
}
use mathlib.Core.Path.{subst}
use ar_io_solana_attestor.Audit.{Bytes}
use ar_io_solana_attestor.Store.{Asset, Recipient, Db, find_asset}
use ar_io_solana_attestor.Dispatch.{any_eq}
use ar_io_solana_attestor.Ledger.{PlannedRecipient, PlannedAsset, LedgerPlan}
use ar_io_solana_attestor.Ledger.Write.{
  is_buildable, AssetRow, BuildResult, upsert_all, has_repeats, insert_chunk, then_insert,
  insert_chunked, chunk_size, asset_rows, upsert_asset, refreshed_asset, has_live_asset, accepted,
  insert_recipient, all_fit, with_assets, with_rows, with_recipients, write_ledger,
}

-- What a rebuild leaves of an asset: its nonce, and all of it where it is not buildable.
pub record Keeps (a a' : Asset) : Type 0 where
  pub same_nonce : a'.nonce ≡ a.nonce
  pub same_live : is_buildable a.status ≡ false → a' ≡ a

-- The asset of this key is still there, and kept.
pub record Stays (key : String) (a : Asset) (assets : List Asset) : Type 0 where
  pub row : Asset
  pub found : find_asset key assets ≡ some row
  pub kept : Keeps a row

Keeps-refl : (a : Asset) → Keeps a a
Keeps-refl a = record { same_nonce = refl; same_live = λ e. refl }

Keeps-trans : (a b c : Asset) → Keeps a b → Keeps b c → Keeps a c
Keeps-trans a b c p q = record {
  same_nonce = q.same_nonce ∙ p.same_nonce;
  same_live = λ e. ground (arith, p.same_live e, q.same_live);
}

module _ (now : ℕ) (row : AssetRow) where
  refreshed-Keeps : (a : Asset) → Keeps a (refreshed_asset now row a)
  unfolding refreshed_asset
  refreshed-Keeps a = elim (Bool-cases (is_buildable a.status)) [
    | inl buildable ↦ record { same_nonce = ground arith; same_live = λ e. ground arith }
    | inr live ↦ record { same_nonce = ground arith; same_live = λ e. ground arith }
  ]

  refreshed-key : (a : Asset) → (refreshed_asset now row a).asset_key ≡ a.asset_key
  unfolding refreshed_asset
  refreshed-key a = ground arith

  unfoldable pub after_upsert : String → Asset → Asset
  after_upsert key a = if str_eq row.planned.asset_key key then refreshed_asset now row a else a

  pub find_asset-upsert_asset :
      (key : String) (a : Asset) (assets : List Asset)
      → find_asset key assets ≡ some a
      → find_asset key (upsert_asset now row assets) ≡ some (after_upsert key a)
  unfolding upsert_asset find_asset after_upsert
  find_asset-upsert_asset key a [] e = cc
  find_asset-upsert_asset key a (b ∷ rest) e = ground (
    arith,
    refreshed-key b,
    eq_iff b.asset_key key,
    eq_iff b.asset_key row.planned.asset_key,
    eq_iff row.planned.asset_key key,
    find_asset-upsert_asset key a rest,
  )

  after_upsert-Keeps : (key : String) (a : Asset) → Keeps a (after_upsert key a)
  unfolding after_upsert
  after_upsert-Keeps key a = elim (Bool-cases (str_eq row.planned.asset_key key)) [
    | inl named ↦ rw named (refreshed-Keeps a)
    | inr other ↦ rw other (Keeps-refl a)
  ]

  upsert_asset-Stays :
      (key : String) (a : Asset) (assets : List Asset)
      → find_asset key assets ≡ some a
      → Stays key a (upsert_asset now row assets)
  upsert_asset-Stays key a assets e = record {
    row = after_upsert key a;
    found = find_asset-upsert_asset key a assets e;
    kept = after_upsert-Keeps key a;
  }

-- The same through a loop, a chunk and all the chunks.
module _ (now : ℕ) (key : String) where
  upsert_all-Stays :
      (rows : List AssetRow) (a : Asset) (assets : List Asset)
      → find_asset key assets ≡ some a
      → Stays key a
          (upsert_all (λ (r : AssetRow). r.planned.asset_key) (upsert_asset now) rows assets)
  unfolding upsert_all
  upsert_all-Stays [] a assets e = record { row = a; found = e; kept = Keeps-refl a }
  upsert_all-Stays (r ∷ rest) a assets e =
      let first = upsert_asset-Stays now r key a assets e in
      let later = upsert_all-Stays rest first.row (upsert_asset now r assets) first.found in
      record {
        row = later.row;
        found = later.found;
        kept = Keeps-trans a first.row later.row first.kept later.kept;
      }

  -- The table, if the statements do not throw.
  abbrev StaysIf : Asset → Option (List Asset) → Type 0
  StaysIf a none = Unit
  StaysIf a (some after) = Stays key a after

  insert_chunk-Stays :
      (rows : List AssetRow) (a : Asset) (assets : List Asset)
      → find_asset key assets ≡ some a
      → StaysIf a
          (insert_chunk (λ (r : AssetRow). r.planned.asset_key) (upsert_asset now) rows assets)
  insert_chunk-Stays rows a assets e =
      elim (has_repeats (λ (r : AssetRow). r.planned.asset_key) (upsert_asset now) rows)
        as (λ b. StaysIf a (
          if b
          then none
          else some (
              upsert_all (λ (r : AssetRow). r.planned.asset_key) (upsert_asset now) rows assets))) [
                | true ↦ tt
                | false ↦ upsert_all-Stays rows a assets e
              ]

  then_insert-Stays :
      (next : List Asset → Option (List Asset)) (a : Asset) (o : Option (List Asset))
      → ((b : Asset) (mid : List Asset) → find_asset key mid ≡ some b → StaysIf b (next mid))
      → StaysIf a o
      → StaysIf a (then_insert (λ (r : AssetRow). r.planned.asset_key) (upsert_asset now) next o)
  then_insert-Stays next a none later h = tt
  then_insert-Stays next a (some mid) later h =
      trans_if a h.row (next mid) h.kept (later h.row mid h.found)
    where
      trans_if : (a b : Asset) (o : Option (List Asset)) → Keeps a b → StaysIf b o → StaysIf a o
      trans_if a b none k h = tt
      trans_if a b (some after) k h = record {
        row = h.row;
        found = h.found;
        kept = Keeps-trans a b h.row k h.kept;
      }

  insert_chunked-Stays :
      (fuel size : ℕ) (rows : List AssetRow) (a : Asset) (assets : List Asset)
      → find_asset key assets ≡ some a
      → StaysIf a (
          insert_chunked
            (λ (r : AssetRow). r.planned.asset_key)
            (upsert_asset now)
            fuel
            size
            rows
            assets)
  unfolding insert_chunked
  insert_chunked-Stays fuel size [] a assets e = record { row = a; found = e; kept = Keeps-refl a }
  insert_chunked-Stays zero size (r ∷ rows) a assets e = tt
  insert_chunked-Stays (suc fuel) size (r ∷ rows) a assets e =
      then_insert-Stays _ a _
        (λ b mid found. insert_chunked-Stays fuel size (drop size (r ∷ rows)) b mid found)
        (insert_chunk-Stays (take size (r ∷ rows)) a assets e)

  module _ (plan : LedgerPlan) (a : Asset) where
    -- The database, if the transaction commits.
    abbrev WrittenIf : Option (Db × BuildResult) → Type 0
    WrittenIf none = Unit
    WrittenIf (some (after, result)) = Stays key a after.assets

    with_assets-Stays :
        (db : Db) (recipients : List Recipient) (o : Option (List Asset))
        → StaysIf a o
        → WrittenIf (with_assets now plan db recipients o)
    with_assets-Stays db recipients none h = tt
    with_assets-Stays db recipients (some assets) h = h

    with_rows-Stays :
        (db : Db) (recipients : List Recipient) (o : Option (List AssetRow))
        → find_asset key db.assets ≡ some a
        → WrittenIf (with_rows now plan db recipients o)
    with_rows-Stays db recipients none e = tt
    with_rows-Stays db recipients (some rows) e =
        with_assets-Stays db recipients _ (elim (Bool-cases (all_fit rows)) [
          | inl fits ↦ rw fits (insert_chunked-Stays (length rows) chunk_size rows a db.assets e)
          | inr misfit ↦ rw misfit tt
        ])

    with_recipients-Stays :
        (nonces : String → Bytes) (db : Db) (o : Option (List Recipient))
        → find_asset key db.assets ≡ some a
        → WrittenIf (with_recipients now plan nonces db o)
    with_recipients-Stays nonces db none e = tt
    with_recipients-Stays nonces db (some recipients) e =
        with_rows-Stays db recipients (asset_rows nonces plan.recipients plan.assets) e

-- With a live asset of the plan, a rebuild that is not forced throws.
live_refused :
    (key : String) (a : Asset) (keys : List String) (assets : List Asset)
    → find_asset key assets ≡ some a
    → is_buildable a.status ≡ false
    → any_eq key keys ≡ true
    → has_live_asset keys assets ≡ true
unfolding find_asset has_live_asset
live_refused key a keys [] e live named = cc
live_refused key a keys (b ∷ rest) e live named = elim (Bool-cases (str_eq b.asset_key key)) [
  | inl same ↦ ground (arith, eq_iff b.asset_key key)
  | inr other ↦ ground (arith, live_refused key a keys rest)
]

module _ (now : ℕ) (plan : LedgerPlan) (nonces : String → Bytes) (key : String) (a : Asset) where
  open_guard-Stays :
      (allow : Bool) (db : Db)
      → find_asset key db.assets ≡ some a
      → WrittenIf now key plan a (write_ledger now plan nonces allow db)
  unfolding write_ledger
  open_guard-Stays allow db e =
      elim (not allow
          && has_live_asset (map (λ (p : PlannedAsset). p.asset_key) plan.assets) db.assets)
        as (λ b. WrittenIf now key plan a (
          if b
          then none
          else with_recipients now plan nonces db (
              accepted (
                insert_chunked (λ (r : PlannedRecipient). r.recipient_id) (insert_recipient now)
                  (length plan.recipients) chunk_size plan.recipients (some db.recipients))))) [
                    | true ↦ tt
                    | false ↦ with_recipients-Stays now key plan a nonces db _ e
                  ]

  write_ledger-refused :
      (db : Db)
      → has_live_asset (map (λ (p : PlannedAsset). p.asset_key) plan.assets) db.assets ≡ true
      → write_ledger now plan nonces false db ≡ none
  unfolding write_ledger
  write_ledger-refused db live = rw live refl

  unforced_live :
      (db after : Db) (result : BuildResult)
      → find_asset key db.assets ≡ some a
      → write_ledger now plan nonces false db ≡ some (after, result)
      → is_buildable a.status ≡ false
      → any_eq key (map (λ (p : PlannedAsset). p.asset_key) plan.assets) ≡ false
  unforced_live db after result e h live =
      elim (Bool-cases (any_eq key (map (λ (p : PlannedAsset). p.asset_key) plan.assets))) [
        | inl named ↦
            let refused = write_ledger-refused db (live_refused key a _ db.assets e live named) in
            let clash = sym refused ∙ h in cc
        | inr unnamed ↦ unnamed
      ]

-- An asset that is there when a rebuild commits is there afterwards with its nonce, and is the same in
-- every column if a claim is live on it or it is settled; unless the rebuild is forced, the plan does not
-- name such an asset.
pub write_ledger-Stays :
    (now : ℕ) (plan : LedgerPlan) (nonces : String → Bytes) (allow_live_rebuild : Bool)
    (key : String) (a : Asset) (db after : Db) (result : BuildResult)
    → find_asset key db.assets ≡ some a
    → write_ledger now plan nonces allow_live_rebuild db ≡ some (after, result)
    → Stays key a after.assets
      × (allow_live_rebuild ≡ false
          → is_buildable a.status ≡ false
          → any_eq key (map (λ (p : PlannedAsset). p.asset_key) plan.assets) ≡ false)
write_ledger-Stays now plan nonces allow key a db after result e h = (
  subst (WrittenIf now key plan a) h (open_guard-Stays now plan nonces key a allow db e),
  λ unforced.
      unforced_live now plan nonces key a db after result e
        (subst (λ b. write_ledger now plan nonces b db ≡ some (after, result)) unforced h),
)
