-- ===== src/Ledger/Rows.antt =====
-- The rows of writeLedger, packages/claims/src/ledger/build.ts, for the assets of a plan.
use ar_io_solana_attestor.Prelude.{
  ◌≡◌, refl, String, Option, none, some, List, [], ◌∷◌, Bool, true, false, not, ◌&&◌, ◌||◌, str_eq,
  arith, map, length,
}
use mathlib.Core.Path.{subst}
use ar_io_solana_attestor.Audit.{Bytes}
use ar_io_solana_attestor.Ledger.{PlannedRecipient, PlannedAsset}
use ar_io_solana_attestor.Ledger.Write.{AssetRow, source_id, last_of, known_id, asset_rows, with_id}
use ar_io_solana_attestor.Ledger.Plan.{has_source}
use ar_io_solana_attestor.Ledger.Owned.{all_owned}
use ar_io_solana_attestor.Ledger.Balance.{keys}
use ar_io_solana_attestor.Prelude.{◌⊎◌, inl, inr, Bool-cases, eq_iff, ◌==◌}
use ar_io_solana_attestor.Ledger.Write.{all_fit, fits_shape}

abbrev pub all_named : List PlannedRecipient → Bool
all_named [] = true
all_named (r ∷ rest) = not (str_eq r.recipient_id "") && all_named rest

-- The recipient of a source, with this identifier.
abbrev pub IsRecipient : List PlannedRecipient → String → String → Type 0
IsRecipient [] src id = ⊥
IsRecipient (r ∷ rest) src id =
    ((r.source_address ≡ src) × (r.recipient_id ≡ id)) ⊎ IsRecipient rest src id

-- An identifier is a recipient's and not empty, and is there if the source is known.
abbrev FoundIf : List PlannedRecipient → String → Bool → Option String → Type 0
FoundIf recipients src known (some id) = (str_eq id "" ≡ false) × IsRecipient recipients src id
FoundIf recipients src true none = ⊥
FoundIf recipients src false none = Unit

last_of-Found :
    (src : String) (r : PlannedRecipient) (rest : List PlannedRecipient) (known : Bool)
    (o : Option String)
    → str_eq r.recipient_id "" ≡ false
    → FoundIf rest src known o
    → FoundIf (r ∷ rest) src (str_eq r.source_address src || known) (last_of src r o)
last_of-Found src r rest known (some id) named (h, is) = (h, inr is)
last_of-Found src r rest true none named h = absurd h
last_of-Found src r rest false none named h = elim (Bool-cases (str_eq r.source_address src)) [
  | inl same ↦ rw same (named, inl ((eq_iff r.source_address src).0 same, refl))
  | inr other ↦ rw other tt
]

source_id-Found :
    (src : String) (recipients : List PlannedRecipient)
    → all_named recipients ≡ true
    → FoundIf recipients src (has_source src recipients) (source_id src recipients)
unfolding source_id
source_id-Found src [] h = tt
source_id-Found src (r ∷ rest) h =
    last_of-Found src r rest (has_source src rest) (source_id src rest) (ground arith)
      (source_id-Found src rest (ground arith))

-- The row of an asset: the planned asset itself, its fresh nonce, and the identifier of the recipient of
-- its source.
pub record IsRowOf (nonces : String → Bytes) (recipients : List PlannedRecipient) (a : PlannedAsset)
    (r : AssetRow) : Type 0 where
  pub same_asset : r.planned ≡ a
  pub same_nonce : r.nonce ≡ nonces a.asset_key
  pub is_recipient : IsRecipient recipients a.recipient_source r.recipient_id

abbrev pub AreRowsOf :
    (String → Bytes) → List PlannedRecipient → List PlannedAsset → List AssetRow → Type 0
AreRowsOf nonces recipients [] [] = Unit
AreRowsOf nonces recipients (a ∷ assets) (r ∷ rows) =
    IsRowOf nonces recipients a r × AreRowsOf nonces recipients assets rows
AreRowsOf nonces recipients _ _ = ⊥

pub AreRowsOf-keys :
    (nonces : String → Bytes) (recipients : List PlannedRecipient) (assets : List PlannedAsset)
    (rows : List AssetRow)
    → AreRowsOf nonces recipients assets rows
    → map (λ (r : AssetRow). r.planned.asset_key) rows ≡ keys assets
AreRowsOf-keys nonces recipients [] [] h = refl
AreRowsOf-keys nonces recipients [] (r ∷ rows) h = absurd h
AreRowsOf-keys nonces recipients (a ∷ assets) [] h = absurd h
AreRowsOf-keys nonces recipients (a ∷ assets) (r ∷ rows) (one, rest) =
    cc (one.same_asset, AreRowsOf-keys nonces recipients assets rows rest)

pub AreRowsOf-all_fit :
    (nonces : String → Bytes) (recipients all : List PlannedRecipient) (assets : List PlannedAsset)
    (rows : List AssetRow)
    → ((key : String) → length (nonces key) ≡ 32)
    → all_owned all assets ≡ true
    → AreRowsOf nonces recipients assets rows
    → all_fit rows ≡ true
unfolding all_fit
AreRowsOf-all_fit nonces recipients all [] [] size owned h = refl
AreRowsOf-all_fit nonces recipients all [] (r ∷ rows) size owned h = absurd h
AreRowsOf-all_fit nonces recipients all (a ∷ assets) [] size owned h = absurd h
AreRowsOf-all_fit nonces recipients all (a ∷ assets) (r ∷ rows) size owned (one, rest) =
    let shape : fits_shape r.planned ≡ true =
      rw one.same_asset (and_left (fits_shape a) _ (and_left _ (all_owned all assets) owned)) in
    let wide : (length r.nonce == 32) ≡ true = rw (one.same_nonce, size a.asset_key) refl in
    let later =
      AreRowsOf-all_fit nonces recipients all assets rows size
        (and_right _ (all_owned all assets) owned) rest in
    rw (shape, wide, later) refl
  where
    and_left : (s t : Bool) → (s && t) ≡ true → s ≡ true
    and_left true t h = refl
    and_left false t h = h

    and_right : (s t : Bool) → (s && t) ≡ true → t ≡ true
    and_right true t h = h
    and_right false t h = absurd (ground arith)

pub record HasRows (nonces : String → Bytes) (recipients : List PlannedRecipient)
    (assets : List PlannedAsset) (o : Option (List AssetRow)) : Type 0 where
  pub rows : List AssetRow
  pub found : o ≡ some rows
  pub are_rows : AreRowsOf nonces recipients assets rows

module _ (nonces : String → Bytes) (recipients : List PlannedRecipient) where
  with_id-HasRows :
      (a : PlannedAsset) (assets : List PlannedAsset) (rest : Option (List AssetRow))
      (o : Option String)
      → HasRows nonces recipients assets rest
      → FoundIf recipients a.recipient_source true o
      → HasRows nonces recipients (a ∷ assets) (with_id a (nonces a.asset_key) rest (known_id o))
  with_id-HasRows a assets rest none h found = absurd found
  with_id-HasRows a assets rest (some id) h (named, is) =
      rw (named, h.found)
        (record {
          rows = record { planned = a; recipient_id = id; nonce = nonces a.asset_key } ∷ h.rows;
          found = refl;
          are_rows =
              (record { same_asset = refl; same_nonce = refl; is_recipient = is }, h.are_rows);
        })

  pub asset_rows-HasRows :
      (assets : List PlannedAsset)
      → all_named recipients ≡ true
      → all_owned recipients assets ≡ true
      → HasRows nonces recipients assets (asset_rows nonces recipients assets)
  unfolding asset_rows
  asset_rows-HasRows [] named owned = record { rows = []; found = refl; are_rows = tt }
  asset_rows-HasRows (a ∷ rest) named owned =
      with_id-HasRows a rest (asset_rows nonces recipients rest)
        (source_id a.recipient_source recipients) (asset_rows-HasRows rest named (ground arith))
        (subst
          (λ t. FoundIf recipients a.recipient_source t (source_id a.recipient_source recipients))
          {y = true} (ground arith) (source_id-Found a.recipient_source recipients named))
