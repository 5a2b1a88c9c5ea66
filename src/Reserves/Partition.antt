-- ===== src/Reserves/Partition.antt =====
-- The liabilities of packages/claims/src/transparency/reserves.ts against the payments that lower them.
use ar_io_solana_attestor.Prelude.{
  ℕ, none, some, not, ◌&&◌, ◌⊎◌, ◌≢◌, ◌∙◌, All, sym, str_eq, eq_iff, Bool-cases, if◌then◌else◌, ◌+◌,
  ◌≡◌, refl, String, Option, List, [], ◌∷◌, Bool, true, false, arith, inl, inr,
}
use ar_io_solana_attestor.Audit.{Context}
use mathlib.Core.Path.{subst}
use ar_io_solana_attestor.Service.{amount_or_zero}
use ar_io_solana_attestor.Store.{
  AssetStatus, token, vault, Asset, Claim, ClaimStatus, Db, update_asset, find_asset, find_claim,
}
use ar_io_solana_attestor.Dispatch.Persist.{finalize_confirmed, claimed_row}
use ar_io_solana_attestor.Reserves.{
  in_scope, is_ant, is_outstanding, is_claimed, is_kept, sum_amounts, read_liabilities,
}

-- The status that the totals count and neither of their parts does.
abbrev pub is_at_risk : AssetStatus → Bool
is_at_risk AssetStatus.manual_review = true
is_at_risk _ = false

-- The total splits into what is outstanding, what is claimed and what is at risk.
sum_amounts-parts :
    (scope : Option (List String)) (assets : List Asset)
    → sum_amounts is_kept scope assets
      ≡ sum_amounts is_outstanding scope assets
        + sum_amounts is_claimed scope assets
        + sum_amounts is_at_risk scope assets
unfolding sum_amounts
sum_amounts-parts scope [] = refl
sum_amounts-parts scope (a ∷ rest) = ground (arith, sum_amounts-parts scope rest)

-- An asset of a kind and status whose amount is owed.
pub record IsOwed (a : Asset) (n : ℕ) : Type 0 where
  pub is_fungible : (a.asset_type ≡ token) ⊎ (a.asset_type ≡ vault)
  pub is_due :
      (a.status ≡ AssetStatus.available)
      ⊎ ((a.status ≡ AssetStatus.claiming) ⊎ (a.status ≡ AssetStatus.pending_review))
  pub owes : a.amount ≡ some n

-- The primary key of assets: no two rows share a key.
unfoldable pub UniqueKeys : List Asset → Type 0
UniqueKeys [] = Unit
UniqueKeys (a ∷ rest) = All (λ (b : Asset). b.asset_key ≢ a.asset_key) rest × UniqueKeys rest

-- How a sum of the liabilities moves when the owed asset is marked as claimed.
module _ (ctx : Context) (key : String) (scope : Option (List String)) where
  untouched :
      (p : AssetStatus → Bool) (assets : List Asset)
      → All (λ (b : Asset). b.asset_key ≢ key) assets
      → sum_amounts p scope (update_asset key (claimed_row ctx) assets) ≡ sum_amounts p scope assets
  unfolding sum_amounts update_asset
  untouched p [] h = refl
  untouched p (b ∷ rest) (here, there) =
      ground (arith, eq_iff b.asset_key key, untouched p rest there)

  row_amount : (AssetStatus → Bool) → Asset → ℕ
  row_amount p a =
      if in_scope scope a && not (is_ant a.asset_type) && p a.status
      then amount_or_zero a.amount
      else 0

  in_scope-claimed :
      (o : Option (List String)) (a : Asset) → in_scope o (claimed_row ctx a) ≡ in_scope o a
  in_scope-claimed none a = refl
  in_scope-claimed (some keys) a = refl

  -- What a row of a token or vault in scope adds to a sum.
  row_amount-inside :
      (p : AssetStatus → Bool) (a : Asset) (n : ℕ)
      → in_scope scope a ≡ true
      → (a.asset_type ≡ token) ⊎ (a.asset_type ≡ vault)
      → a.amount ≡ some n
      → row_amount p a ≡ (if p a.status then n else 0)
  unfolding row_amount
  row_amount-inside p a n inside (inl at) owes = ground arith
  row_amount-inside p a n inside (inr at) owes = ground arith

  -- What the row adds to the three sums, before and after.
  amounts_of :
      (a : Asset) (n : ℕ)
      → IsOwed a n
      → in_scope scope a ≡ true
      → (row_amount is_outstanding a ≡ row_amount is_outstanding (claimed_row ctx a) + n)
        × (row_amount is_claimed a + n ≡ row_amount is_claimed (claimed_row ctx a))
        × (row_amount is_kept a ≡ row_amount is_kept (claimed_row ctx a))
  amounts_of a n h inside =
      let kept = in_scope-claimed scope a ∙ inside in
      let before =
        λ (p : AssetStatus → Bool). row_amount-inside p a n inside h.is_fungible h.owes in
      let after = λ (p : AssetStatus → Bool).
        row_amount-inside p (claimed_row ctx a) n kept h.is_fungible h.owes in
      by_status before after h.is_due
    where
      by_status :
          ((p : AssetStatus → Bool) → row_amount p a ≡ (if p a.status then n else 0))
          → ((p : AssetStatus → Bool)
              → row_amount p (claimed_row ctx a) ≡ (if p AssetStatus.claimed then n else 0))
          → (a.status ≡ AssetStatus.available)
            ⊎ ((a.status ≡ AssetStatus.claiming) ⊎ (a.status ≡ AssetStatus.pending_review))
          → (row_amount is_outstanding a ≡ row_amount is_outstanding (claimed_row ctx a) + n)
            × (row_amount is_claimed a + n ≡ row_amount is_claimed (claimed_row ctx a))
            × (row_amount is_kept a ≡ row_amount is_kept (claimed_row ctx a))
      by_status before after (inl s) = (
        ground (arith, before is_outstanding, after is_outstanding),
        ground (arith, before is_claimed, after is_claimed),
        ground (arith, before is_kept, after is_kept),
      )
      by_status before after (inr (inl s)) = (
        ground (arith, before is_outstanding, after is_outstanding),
        ground (arith, before is_claimed, after is_claimed),
        ground (arith, before is_kept, after is_kept),
      )
      by_status before after (inr (inr s)) = (
        ground (arith, before is_outstanding, after is_outstanding),
        ground (arith, before is_claimed, after is_claimed),
        ground (arith, before is_kept, after is_kept),
      )

  moved :
      (p : AssetStatus → Bool) (assets : List Asset) (a : Asset)
      → UniqueKeys assets
      → find_asset key assets ≡ some a
      → sum_amounts p scope (update_asset key (claimed_row ctx) assets) + row_amount p a
        ≡ sum_amounts p scope assets + row_amount p (claimed_row ctx a)
  unfolding sum_amounts update_asset find_asset UniqueKeys row_amount
  moved p [] a u e = cc
  moved p (b ∷ rest) a (first, others) e = elim (Bool-cases (str_eq b.asset_key key)) [
    | inl same ↦
        let at : b.asset_key ≡ key = (eq_iff b.asset_key key).0 same in
        let row : b ≡ a = ground arith in
        let rest_same =
          untouched p rest (subst (λ k. All (λ (c : Asset). c.asset_key ≢ k) rest) at first) in
        rw (same, sym row) (omega (arith, rest_same))
    | inr differs ↦ ground (arith, moved p rest a others)
  ]

-- The total of token and vault amounts is what is outstanding, what is claimed and what is at risk.
read_liabilities-total :
    (scope : Option (List String)) (assets : List Asset)
    → (read_liabilities scope assets).total_mario
      ≡ (read_liabilities scope assets).outstanding_mario
        + (read_liabilities scope assets).claimed_mario
        + sum_amounts is_at_risk scope assets
unfolding read_liabilities
read_liabilities-total scope assets = sum_amounts-parts scope assets

finalize-assets :
    (ctx : Context) (claim_id signature : String) (db : Db) (c : Claim)
    → find_claim claim_id db.claims ≡ some c
    → c.status ≢ ClaimStatus.confirmed
    → (finalize_confirmed ctx claim_id signature db).assets
      ≡ update_asset c.asset_key (claimed_row ctx) db.assets
unfolding finalize_confirmed
finalize-assets ctx claim_id signature db c found live = ground arith

-- The confirmation of a payment moves the amount of its asset, a token or vault in scope that is
-- available, claiming or in review, from what is outstanding to what is claimed, and keeps the total. The
-- claim is not confirmed yet, and no two assets share a key.
pub finalize_confirmed-liabilities :
    (ctx : Context) (claim_id signature : String) (db : Db) (scope : Option (List String))
    (c : Claim) (a : Asset) (n : ℕ)
    → UniqueKeys db.assets
    → find_claim claim_id db.claims ≡ some c
    → c.status ≢ ClaimStatus.confirmed
    → find_asset c.asset_key db.assets ≡ some a
    → IsOwed a n
    → in_scope scope a ≡ true
    → let paid = finalize_confirmed ctx claim_id signature db in
      ((read_liabilities scope paid.assets).outstanding_mario + n
        ≡ (read_liabilities scope db.assets).outstanding_mario)
      × ((read_liabilities scope paid.assets).claimed_mario
          ≡ (read_liabilities scope db.assets).claimed_mario + n)
      × ((read_liabilities scope paid.assets).total_mario
          ≡ (read_liabilities scope db.assets).total_mario)
unfolding read_liabilities
finalize_confirmed-liabilities ctx claim_id signature db scope c a n unique found live held owed
      inside =
    let written = finalize-assets ctx claim_id signature db c found live in
    let after = amounts_of ctx c.asset_key scope a n owed inside in
    rw written (
      omega (arith, moved ctx c.asset_key scope is_outstanding db.assets a unique held, after.0),
      omega (arith, moved ctx c.asset_key scope is_claimed db.assets a unique held, after.1),
      omega (arith, moved ctx c.asset_key scope is_kept db.assets a unique held, after.2),
    )
