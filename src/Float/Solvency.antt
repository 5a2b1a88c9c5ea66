-- ===== src/Float/Solvency.antt =====
-- FloatManager of packages/claims/src/dispatch/float.ts with the dispatch transaction: what is
-- committed of the hot account stays within its balance.
use ar_io_solana_attestor.Prelude.{
  ℕ, ◌+◌, ◌≤◌, ◌≡◌, ◌↔◌, ◌⊎◌, refl, String, Option, none, some, List, [], ◌∷◌, Bool, true, arith,
  str_eq, eq_iff, Bool-cases, Option-cases, inl, inr, All, ◌≢◌, if◌then◌else◌,
}
use mathlib.Core.Path.{subst}
use mathlib.Core.Option.{get_or}
use ar_io_solana_attestor.Audit.{Context}
use ar_io_solana_attestor.Store.{
  Claim, ClaimStatus, Asset, AssetStatus, ant, Db, find_claim, find_asset, update_claim,
  update_asset,
}
use ar_io_solana_attestor.Store.Laws.{find_asset-update_asset}
use ar_io_solana_attestor.Dispatch.{PersistDispatchingArgs, unless_claimed}
use ar_io_solana_attestor.Dispatch.Persist.{persist_dispatching, dispatching_row}
use ar_io_solana_attestor.Float.{FloatManager, share, reserved_sum, reserved, available_of, check}

-- The primary key of claims: no two rows share an identifier.
unfoldable pub UniqueIds : List Claim → Type 0
UniqueIds [] = Unit
UniqueIds (c ∷ rest) = All (λ (d : Claim). d.claim_id ≢ c.claim_id) rest × UniqueIds rest

module _ (manager : FloatManager) where
  -- The join reads of an asset only what the update of its status keeps.
  share-unless_claimed :
      (status : AssetStatus) (now : ℕ) (key : String) (excluded : Option String)
      (assets : List Asset) (c : Claim)
      → share manager excluded (update_asset key (unless_claimed status now) assets) c
        ≡ share manager excluded assets c
  unfolding share
  share-unless_claimed status now key excluded assets c = ground (
    arith,
    find_asset-update_asset (unless_claimed status now) (λ a. ground arith) key c.asset_key assets,
  )

  share-excluded :
      (id : String) (assets : List Asset) (c : Claim)
      → share manager (some id) assets c
        ≡ (if str_eq c.claim_id id then 0 else share manager none assets c)
  unfolding share
  share-excluded id assets c = ground arith

  reserved_sum-absent :
      (id : String) (f : Claim → Claim) (assets : List Asset) (claims : List Claim)
      → All (λ (d : Claim). d.claim_id ≢ id) claims
      → reserved_sum manager none assets (update_claim id f claims)
        ≡ reserved_sum manager (some id) assets claims
  unfolding reserved_sum update_claim
  reserved_sum-absent id f assets [] h = refl
  reserved_sum-absent id f assets (c ∷ rest) h = ground (
    arith,
    share-excluded id assets c,
    eq_iff c.claim_id id,
    reserved_sum-absent id f assets rest h.1,
  )

  reserved_sum-update_claim :
      (id : String) (f : Claim → Claim) (assets : List Asset) (claims : List Claim) (c : Claim)
      → UniqueIds claims
      → find_claim id claims ≡ some c
      → reserved_sum manager none assets (update_claim id f claims)
        ≡ reserved_sum manager (some id) assets claims + share manager none assets (f c)
  unfolding reserved_sum update_claim find_claim UniqueIds
  reserved_sum-update_claim id f assets [] c u found = cc
  reserved_sum-update_claim id f assets (d ∷ rest) c u found =
      elim (Bool-cases (str_eq d.claim_id id)) [
        | inl same ↦
            let at : d.claim_id ≡ id = (eq_iff d.claim_id id).0 same in
            ground (
              arith,
              share-excluded id assets d,
              reserved_sum-absent id f assets rest
                  (subst (λ x. All (λ (e : Claim). e.claim_id ≢ x) rest) at u.0),
            )
        | inr differs ↦
            ground
              (arith, share-excluded id assets d, reserved_sum-update_claim id f assets rest c u.1)
      ]

  reserved_sum-unless_claimed :
      (status : AssetStatus) (now : ℕ) (key : String) (excluded : Option String)
      (assets : List Asset) (claims : List Claim)
      → reserved_sum manager excluded (update_asset key (unless_claimed status now) assets) claims
        ≡ reserved_sum manager excluded assets claims
  unfolding reserved_sum
  reserved_sum-unless_claimed status now key excluded assets [] = refl
  reserved_sum-unless_claimed status now key excluded assets (c ∷ rest) = ground (
    arith,
    share-unless_claimed status now key excluded assets c,
    reserved_sum-unless_claimed status now key excluded assets rest,
  )

  dispatching_row-share :
      (ctx : Context) (args : PersistDispatchingArgs) (n : ℕ) (assets : List Asset) (c : Claim)
      → args.settlement_amount ≡ some n
      → share manager none assets (dispatching_row ctx args c) ≤ n
  unfolding share
  dispatching_row-share ctx args n assets c e = ground arith

  persist_dispatching-reserved :
      (ctx : Context) (args : PersistDispatchingArgs) (n : ℕ) (db db' : Db)
      → UniqueIds db.claims
      → args.settlement_amount ≡ some n
      → persist_dispatching ctx args db ≡ some db'
      → reserved manager none db' ≤ reserved manager (some args.claim_id) db + n
  unfolding persist_dispatching
  persist_dispatching-reserved ctx args n db db' u amount e =
      elim (Option-cases (find_claim args.claim_id db.claims)) [
        | inl missing ↦ ground arith
        | inr (c, found) ↦ ground (
          arith,
          reserved_sum-unless_claimed AssetStatus.claiming ctx.now args.asset_key none db.assets
              (update_claim args.claim_id (dispatching_row ctx args) db.claims),
          reserved_sum-update_claim args.claim_id (dispatching_row ctx args) db.assets db.claims c u
              found,
          dispatching_row-share ctx args n db.assets c amount,
        )
      ]

-- The amount that a claim takes from the hot account once its transaction lands: what it settles for,
-- or the asset's amount; an ANT takes none.
abbrev pub payable : Claim → Asset → ℕ
payable c a = elim a.asset_type [
  | ant ↦ 0
  | _ ↦ elim c.settlement_amount [ some amount ↦ amount | none ↦ get_or a.amount 0 ]
]

-- What a claim may still take: a verified one is yet to be sent, a dispatching one may yet land.
abbrev pub pending_payment : Claim → Asset → ℕ
pending_payment c a = elim c.status [
  | ClaimStatus.verified ↦ payable c a
  | ClaimStatus.dispatching ↦ payable c a
  | _ ↦ 0
]

abbrev pub payment_of : Claim → Option Asset → ℕ
payment_of c none = 0
payment_of c (some a) = pending_payment c a

unfoldable pub pending_total : List Asset → List Claim → ℕ
pending_total assets [] = 0
pending_total assets (c ∷ rest) =
    payment_of c (find_asset c.asset_key assets) + pending_total assets rest

share-payment :
    (manager : FloatManager) (assets : List Asset) (c : Claim)
    → manager.reserved_asset_scope ≡ none
    → payment_of c (find_asset c.asset_key assets) ≡ share manager none assets c
unfolding share
share-payment manager assets c whole = ground arith

reserved_sum-pending_total :
    (manager : FloatManager) (assets : List Asset) (claims : List Claim)
    → manager.reserved_asset_scope ≡ none
    → pending_total assets claims ≡ reserved_sum manager none assets claims
unfolding pending_total reserved_sum
reserved_sum-pending_total manager assets [] whole = refl
reserved_sum-pending_total manager assets (c ∷ rest) whole = omega (
  arith,
  share-payment manager assets c whole,
  reserved_sum-pending_total manager assets rest whole,
)

-- Where the check against the balance permits a positive amount and the dispatch transaction then
-- commits it as the claim's settlement, all that verified and dispatching claims may still take from
-- the hot account stays within the balance. The manager's sum is not restricted to a scope, and no two
-- claims are assumed to share an identifier.
pub persist_dispatching-solvent :
    (manager : FloatManager) (ctx : Context) (args : PersistDispatchingArgs) (n balance : ℕ)
    (approved : Bool) (db db' : Db)
    → manager.reserved_asset_scope ≡ none
    → UniqueIds db.claims
    → 1 ≤ n
    → args.settlement_amount ≡ some n
    → check manager n
        (available_of manager balance (reserved manager (some args.claim_id) db))
        approved
      ≡ none
    → persist_dispatching ctx args db ≡ some db'
    → pending_total db'.assets db'.claims ≤ balance
unfolding check
persist_dispatching-solvent manager ctx args n balance approved db db' whole u positive amount
      permitted e =
    let total = reserved_sum-pending_total manager db'.assets db'.claims whole in
    ground (arith, persist_dispatching-reserved manager ctx args n db db' u amount e, total)

-- The check permits an amount exactly when the float covers it and it is approved, or the brake is
-- off, or it is within the brake.
pub check-none_iff :
    (manager : FloatManager) (n available : ℕ) (approved : Bool)
    → (check manager n available approved ≡ none) ↔ (
        (n ≤ available)
        × ((approved ≡ true)
            ⊎ ((manager.policy.big_claim_threshold_mario ≡ 0)
                ⊎ (n ≤ manager.policy.big_claim_threshold_mario))))
unfolding check
check-none_iff manager n available approved = (λ e. ground arith, λ h. ground arith)
