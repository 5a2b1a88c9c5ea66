-- ===== src/Ledger/Write.antt =====
-- packages/claims/src/ledger/build.ts: writeLedger, one transaction. `none` is a thrown error, which rolls
-- back. The fresh nonces are an argument, by asset. Of the tables' constraints the primary keys, the index
-- recipients_source and the CHECKs are there; the range of NUMERIC(20,0) and BIGINT is left out.
use ar_io_solana_attestor.Prelude.{
  ◌==◌, leb, ℕ, zero, suc, String, Option, none, some, List, [], ◌∷◌, Bool, true, false, not, ◌&&◌,
  ◌||◌, str_eq, if◌then◌else◌, length, take, drop, map,
}
use ar_io_solana_attestor.Audit.{Bytes}
use ar_io_solana_attestor.Store.{ant, AssetStatus, Asset, Recipient, RecipientStatus, Db}
use ar_io_solana_attestor.Dispatch.{any_eq}
use ar_io_solana_attestor.Ledger.{
  PlannedStatus, available, manual_review, RecipientPlan, PlannedRecipient, PlannedAsset,
  LedgerPlan,
}

-- BUILDABLE_ASSET_STATUSES
abbrev pub is_buildable : AssetStatus → Bool
is_buildable AssetStatus.available = true
is_buildable AssetStatus.manual_review = true
is_buildable _ = false

abbrev pub asset_status_of : PlannedStatus → AssetStatus
asset_status_of available = AssetStatus.available
asset_status_of manual_review = AssetStatus.manual_review

abbrev pub recipient_status_of : RecipientPlan → RecipientStatus
recipient_status_of RecipientPlan.open_recipient = RecipientStatus.open_recipient
recipient_status_of RecipientPlan.manual_review = RecipientStatus.manual_review

abbrev is_some {ℓ} : {A : Type ℓ} → Option A → Bool
is_some none = false
is_some (some a) = true

-- insertChunked with one upsert for each row: the rows go in chunks of one statement each, which the
-- database refuses where it would touch a row twice. The fuel is the number of rows.
module _ {ℓ κ} {R : Type ℓ} {T : Type κ} (key_of : R → String) (upsert : R → T → T) where
  unfoldable pub upsert_all : List R → T → T
  upsert_all [] table = table
  upsert_all (r ∷ rest) table = upsert_all rest (upsert r table)

  unfoldable pub has_repeats : List R → Bool
  has_repeats [] = false
  has_repeats (r ∷ rest) = any_eq (key_of r) (map key_of rest) || has_repeats rest

  abbrev pub insert_chunk : List R → T → Option T
  insert_chunk rows table = if has_repeats rows then none else some (upsert_all rows table)

  abbrev pub then_insert : (T → Option T) → Option T → Option T
  then_insert next none = none
  then_insert next (some table) = next table

  unfoldable pub insert_chunked : ℕ → ℕ → List R → T → Option T
  insert_chunked fuel size [] table = some table
  insert_chunked zero size (r ∷ rows) table = none
  insert_chunked (suc fuel) size (r ∷ rows) table =
      then_insert (insert_chunked fuel size (drop size (r ∷ rows)))
        (insert_chunk (take size (r ∷ rows)) table)

abbrev pub chunk_size : ℕ
chunk_size = 500

pub record BuildResult : Type 0 where
  pub recipients_written : ℕ
  pub assets_written : ℕ
  pub available_assets : ℕ
  pub manual_review_assets : ℕ

-- A row of the INSERT into assets.
pub record AssetRow : Type 0 where
  pub planned : PlannedAsset
  pub recipient_id : String
  pub nonce : Bytes

-- A Map's `set` overwrites: the last recipient of a source counts.
abbrev pub last_of : String → PlannedRecipient → Option String → Option String
last_of source r (some id) = some id
last_of source r none = if str_eq r.source_address source then some r.recipient_id else none

unfoldable pub source_id : String → List PlannedRecipient → Option String
source_id source [] = none
source_id source (r ∷ rest) = last_of source r (source_id source rest)

-- `!recipientId` holds of the empty text too.
abbrev pub known_id : Option String → Option String
known_id none = none
known_id (some id) = if str_eq id "" then none else some id

abbrev pub add_row : AssetRow → Option (List AssetRow) → Option (List AssetRow)
add_row row none = none
add_row row (some rows) = some (row ∷ rows)

abbrev pub with_id :
    PlannedAsset → Bytes → Option (List AssetRow) → Option String → Option (List AssetRow)
with_id a nonce rest none = none
with_id a nonce rest (some id) =
    add_row (record { planned = a; recipient_id = id; nonce = nonce }) rest

unfoldable pub asset_rows :
    (String → Bytes) → List PlannedRecipient → List PlannedAsset → Option (List AssetRow)
asset_rows nonces recipients [] = some []
asset_rows nonces recipients (a ∷ rest) =
    with_id a (nonces a.asset_key) (asset_rows nonces recipients rest)
      (known_id (source_id a.recipient_source recipients))

-- The CHECK constraints of the table recipients.
abbrev pub fits_recipient : PlannedRecipient → Bool
fits_recipient p = leb p.protocol 1 && (elim p.status [
  | RecipientPlan.manual_review ↦ true
  | RecipientPlan.open_recipient ↦ is_some p.recipient_pubkey
])

-- assets_ant_shape_ck: an ANT has a mint and no amount, any other asset an amount.
abbrev pub fits_shape : PlannedAsset → Bool
fits_shape a = elim a.asset_type [
  | ant ↦ is_some a.ant_mint && not (is_some a.amount)
  | _ ↦ is_some a.amount
]

-- The CHECK constraints of the table assets. They are on the rows alone, and a row that breaks one aborts
-- the transaction wherever it stands.
unfoldable pub all_fit : List AssetRow → Bool
all_fit [] = true
all_fit (r ∷ rest) = fits_shape r.planned && length r.nonce == 32 && all_fit rest

-- The UNIQUE index recipients_source, which a row of another identifier can hold.
unfoldable pub source_taken : PlannedRecipient → List Recipient → Bool
source_taken p [] = false
source_taken p (r ∷ rest) =
    (str_eq r.source_address p.source_address && not (str_eq r.recipient_id p.recipient_id))
    || source_taken p rest

abbrev pub accepted : Option (Option (List Recipient)) → Option (List Recipient)
accepted none = none
accepted (some table) = table

module _ (now : ℕ) where
  abbrev pub new_recipient : PlannedRecipient → Recipient
  new_recipient p = record {
    recipient_id = p.recipient_id;
    protocol = p.protocol;
    source_address = p.source_address;
    recipient_pubkey = p.recipient_pubkey;
    status = recipient_status_of p.status;
    updated_at = now;
  }

  unfoldable pub upsert_recipient : PlannedRecipient → List Recipient → List Recipient
  upsert_recipient p [] = new_recipient p ∷ []
  upsert_recipient p (r ∷ rest) =
      let upserted = upsert_recipient p rest in
      if str_eq r.recipient_id p.recipient_id then new_recipient p ∷ rest else r ∷ upserted

  -- `none` is a table whose transaction has been aborted.
  abbrev pub insert_recipient : PlannedRecipient → Option (List Recipient) → Option (List Recipient)
  insert_recipient p none = none
  insert_recipient p (some table) =
      if fits_recipient p && not (source_taken p table)
      then some (upsert_recipient p table)
      else none

  abbrev pub new_asset : AssetRow → Asset
  new_asset row = record {
    asset_key = row.planned.asset_key;
    asset_type = row.planned.asset_type;
    recipient_id = row.recipient_id;
    ant_mint = row.planned.ant_mint;
    ant_name = none;
    amount = row.planned.amount;
    vault_end_ts = row.planned.vault_end_ts;
    nonce = row.nonce;
    status = asset_status_of row.planned.status;
    updated_at = now;
  }

  -- DO UPDATE SET ... WHERE assets.status IN ('available', 'manual_review')
  unfoldable pub refreshed_asset : AssetRow → Asset → Asset
  refreshed_asset row a =
      if is_buildable a.status
      then (record a {
        asset_type = row.planned.asset_type;
        recipient_id = row.recipient_id;
        ant_mint = row.planned.ant_mint;
        amount = row.planned.amount;
        vault_end_ts = row.planned.vault_end_ts;
        status = asset_status_of row.planned.status;
        updated_at = now;
      })
      else a

  unfoldable pub upsert_asset : AssetRow → List Asset → List Asset
  upsert_asset row [] = new_asset row ∷ []
  upsert_asset row (a ∷ rest) =
      let upserted = upsert_asset row rest in
      if str_eq a.asset_key row.planned.asset_key
      then refreshed_asset row a ∷ rest
      else a ∷ upserted

-- An asset of the plan that has left the buildable set.
unfoldable pub has_live_asset : List String → List Asset → Bool
has_live_asset keys [] = false
has_live_asset keys (a ∷ rest) =
    (any_eq a.asset_key keys && not (is_buildable a.status)) || has_live_asset keys rest

abbrev pub is_available : PlannedAsset → Bool
is_available a = elim a.status [ available ↦ true | manual_review ↦ false ]

unfoldable pub count_assets : (PlannedAsset → Bool) → List PlannedAsset → ℕ
count_assets test [] = 0
count_assets test (a ∷ rest) = let n = count_assets test rest in if test a then suc n else n

module _ (now : ℕ) (plan : LedgerPlan) where
  abbrev pub build_result : BuildResult
  build_result = record {
    recipients_written = length plan.recipients;
    assets_written = length plan.assets;
    available_assets = count_assets is_available plan.assets;
    manual_review_assets = count_assets (λ a. not (is_available a)) plan.assets;
  }

  abbrev pub with_assets : Db → List Recipient → Option (List Asset) → Option (Db × BuildResult)
  with_assets db recipients none = none
  with_assets db recipients (some assets) =
      some (record db { recipients = recipients; assets = assets }, build_result)

  abbrev pub with_rows : Db → List Recipient → Option (List AssetRow) → Option (Db × BuildResult)
  with_rows db recipients none = none
  with_rows db recipients (some rows) = with_assets db recipients (
      if all_fit rows
      then insert_chunked (λ (r : AssetRow). r.planned.asset_key) (upsert_asset now) (length rows)
          chunk_size rows db.assets
      else none)

  abbrev pub with_recipients :
      (String → Bytes) → Db → Option (List Recipient) → Option (Db × BuildResult)
  with_recipients nonces db none = none
  with_recipients nonces db (some recipients) =
      with_rows db recipients (asset_rows nonces plan.recipients plan.assets)

  -- The second argument is `allowLiveRebuild`.
  unfoldable pub write_ledger : (String → Bytes) → Bool → Db → Option (Db × BuildResult)
  write_ledger nonces allow_live_rebuild db =
      if not allow_live_rebuild
        && has_live_asset (map (λ (a : PlannedAsset). a.asset_key) plan.assets) db.assets
      then none
      else with_recipients nonces db (
          accepted (
            insert_chunked (λ (r : PlannedRecipient). r.recipient_id) (insert_recipient now)
              (length plan.recipients) chunk_size plan.recipients (some db.recipients)))
