-- ===== src/Reconcile/Conserved.antt =====
-- A report of packages/claims/src/dispatch/reconcile-dispatch.ts without an issue: what it says of the
-- confirmed claims.
use ar_io_solana_attestor.Prelude.{
  ℕ, ◌≡◌, String, Option, none, some, List, [], ◌∷◌, ◌⊎◌, ◌≢◌, str_eq, ◌+◌, if◌then◌else◌,
}
use ar_io_solana_attestor.Store.{AssetType, ant, AssetStatus}
use ar_io_solana_attestor.Service.{amount_or_zero}
use ar_io_solana_attestor.Reconcile.{ConfirmedRow, Seen}

-- What a confirmed claim must have settled for: an ANT for nothing or 0, any other asset for its amount.
abbrev pub PaidFor : AssetType → Option ℕ → Option ℕ → Type 0
PaidFor ant settlement amount = (settlement ≡ none) ⊎ (settlement ≡ some 0)
PaidFor _ settlement amount = settlement ≡ some (amount_or_zero amount)

-- A confirmed claim with a recorded signature, whose asset is claimed and paid for.
pub record IsSettled (r : ConfirmedRow) : Type 0 where
  pub signed : (signature : String) × (r.dispatch_signature ≡ some signature) × (signature ≢ "")
  pub closed : r.asset_status ≡ AssetStatus.claimed
  pub paid : PaidFor r.asset_type r.settlement_amount r.amount

-- How many rows are of an asset, and how many the map has counted for it.
abbrev pub rows_of : String → List ConfirmedRow → ℕ
rows_of key [] = 0
rows_of key (r ∷ rest) = (if str_eq r.asset_key key then 1 else 0) + rows_of key rest

abbrev count_of : String → List Seen → ℕ
count_of key [] = 0
count_of key (s ∷ rest) =
    let later = count_of key rest in if str_eq s.key key then s.count else later
