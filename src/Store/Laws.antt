-- ===== src/Store/Laws.antt =====
-- Reads after writes on the tables.
use ar_io_solana_attestor.Prelude.{
  String, ◌≡◌, some, List, [], ◌∷◌, arith, str_eq, eq_iff, if◌then◌else◌,
}
use mathlib.Core.Option
use ar_io_solana_attestor.Store.{Claim, Asset, find_claim, find_asset, update_claim, update_asset}

pub find_claim-id :
    (id : String) (claims : List Claim) (c : Claim)
    → find_claim id claims ≡ some c
    → c.claim_id ≡ id
unfolding find_claim
find_claim-id id [] c e = cc
find_claim-id id (d ∷ rest) c e = ground (arith, eq_iff d.claim_id id, find_claim-id id rest c)

pub find_asset-key :
    (key : String) (assets : List Asset) (a : Asset)
    → find_asset key assets ≡ some a
    → a.asset_key ≡ key
unfolding find_asset
find_asset-key key [] a e = cc
find_asset-key key (b ∷ rest) a e =
    ground (arith, eq_iff b.asset_key key, find_asset-key key rest a)

module _ (f : Claim → Claim) (keeps : (c : Claim) → (f c).claim_id ≡ c.claim_id) where
  pub find_claim-update_claim :
      (id j : String) (claims : List Claim)
      → find_claim j (update_claim id f claims)
        ≡ (if str_eq id j then Option.map f (find_claim j claims) else find_claim j claims)
  unfolding find_claim update_claim
  find_claim-update_claim id j [] = ground arith
  find_claim-update_claim id j (c ∷ rest) = ground (
    arith,
    keeps c,
    eq_iff c.claim_id id,
    eq_iff c.claim_id j,
    eq_iff id j,
    find_claim-update_claim id j rest,
  )

  pub find_claim-update_same :
      (id : String) (claims : List Claim) (c : Claim)
      → find_claim id claims ≡ some c
      → find_claim id (update_claim id f claims) ≡ some (f c)
  find_claim-update_same id claims c found =
      ground (arith, find_claim-update_claim id id claims, eq_iff id id)

module _ (f : Asset → Asset) (keeps : (a : Asset) → (f a).asset_key ≡ a.asset_key) where
  pub find_asset-update_asset :
      (key j : String) (assets : List Asset)
      → find_asset j (update_asset key f assets)
        ≡ (if str_eq key j then Option.map f (find_asset j assets) else find_asset j assets)
  unfolding find_asset update_asset
  find_asset-update_asset key j [] = ground arith
  find_asset-update_asset key j (a ∷ rest) = ground (
    arith,
    keeps a,
    eq_iff a.asset_key key,
    eq_iff a.asset_key j,
    eq_iff key j,
    find_asset-update_asset key j rest,
  )
