-- ===== src/Ledger/Plan.antt =====
-- packages/claims/src/ledger/plan.ts: buildLedgerPlan. `none` is a thrown error. Objects are lists of
-- their entries, in order; times of the inputs are whole milliseconds, balances whole numbers.
use ar_io_solana_attestor.Prelude.{
  ℕ, suc, ◌+◌, String, Option, none, some, List, [], ◌∷◌, ◌++◌, map, Bool, true, false, ◌||◌,
  str_eq, if◌then◌else◌,
}
use ar_io_solana_attestor.Prelude.Int.{ℤ}
use ar_io_solana_attestor.Store.{ant, token, vault}
use ar_io_solana_attestor.Dispatch.{any_eq}
use ar_io_solana_attestor.Ledger.{PlannedStatus, PlannedRecipient, PlannedAsset, ManifestCounters}
use ar_io_solana_attestor.Ledger.Stakes.{PlanArtifact}

pub record AntSnapshot : Type 0 where
  pub process_id : String
  pub owner : String

pub record AoVault : Type 0 where
  pub vault_id : String
  pub balance : ℤ
  pub end_timestamp : ℕ

pub record FrozenInputs : Type 0 where
  pub address_map : List (String × String)
  pub modulus : List (String × String)
  pub at_risk : List String
  pub balances : List (String × ℤ)
  pub vaults : List (String × List AoVault)
  pub ants : List AntSnapshot
  pub plan : PlanArtifact

-- What the builder's closures share: the map of recipients, in the order of insertion, the assets and
-- the counters.
pub record Builder : Type 0 where
  pub recipients : List PlannedRecipient
  pub assets : List PlannedAsset
  pub counters : ManifestCounters
  pub phase2_token_outflow_mario : ℕ
  pub phase3_vault_mario : ℕ
  pub phase4_stake_mario : ℕ

infixl 5 ◌>>=◌
abbrev pub ◌>>=◌ {ℓ κ} : {A : Type ℓ} {B : Type κ} → Option A → (A → Option B) → Option B
none >>= f = none
some a >>= f = f a

unfoldable pub lookup : String → List (String × String) → Option String
lookup key [] = none
lookup key ((k, v) ∷ rest) = if str_eq k key then some v else lookup key rest

-- A text that JavaScript takes as true.
abbrev pub truthy : Option String → Option String
truthy none = none
truthy (some s) = if str_eq s "" then none else some s

abbrev pub is_some {ℓ} : {A : Type ℓ} → Option A → Bool
is_some none = false
is_some (some a) = true

abbrev pub has_source : String → List PlannedRecipient → Bool
has_source src [] = false
has_source src (r ∷ rest) = str_eq r.source_address src || has_source src rest

abbrev pub start : Builder
start = record {
  recipients = [];
  assets = [];
  counters = record { ant = 0; token_escrowed = 0; vault_escrowed = 0; stake_escrowed = 0 };
  phase2_token_outflow_mario = 0;
  phase3_vault_mario = 0;
  phase4_stake_mario = 0;
}

abbrev pub add_recipient : PlannedRecipient → Builder → Builder
add_recipient r b = record b { recipients = b.recipients ++ r ∷ [] }

-- pushAsset
unfoldable pub push_asset : PlannedAsset → Builder → Option Builder
push_asset a b =
    if any_eq a.asset_key (map (λ (p : PlannedAsset). p.asset_key) b.assets)
    then none
    else some (record b { assets = b.assets ++ a ∷ [] })

-- `if (status === "available")`
abbrev pub count_if : PlannedStatus → (Builder → Builder) → Builder → Builder
count_if PlannedStatus.available f b = f b
count_if PlannedStatus.manual_review f b = b

abbrev pub count_ant : Builder → Builder
count_ant b = record b { counters = record b.counters { ant = suc b.counters.ant } }

abbrev pub count_token : ℕ → Builder → Builder
count_token amount b = record b {
  counters = record b.counters { token_escrowed = suc b.counters.token_escrowed };
  phase2_token_outflow_mario = b.phase2_token_outflow_mario + amount;
}

abbrev pub count_expired : ℕ → Builder → Builder
count_expired amount b = record b {
  counters = record b.counters { token_escrowed = suc b.counters.token_escrowed };
  phase3_vault_mario = b.phase3_vault_mario + amount;
}

abbrev pub count_vault : ℕ → Builder → Builder
count_vault amount b = record b {
  counters = record b.counters { vault_escrowed = suc b.counters.vault_escrowed };
  phase3_vault_mario = b.phase3_vault_mario + amount;
}

abbrev pub count_stake : ℕ → Builder → Builder
count_stake amount b = record b {
  counters = record b.counters { stake_escrowed = suc b.counters.stake_escrowed };
  phase4_stake_mario = b.phase4_stake_mario + amount;
}

abbrev pub ant_asset : String → String → PlannedStatus → PlannedAsset
ant_asset mint source status = record {
  asset_key = mint;
  asset_type = ant;
  recipient_source = source;
  ant_mint = some mint;
  amount = none;
  vault_end_ts = none;
  status = status;
}

abbrev pub token_asset : String → String → ℕ → PlannedStatus → PlannedAsset
token_asset key source amount status = record {
  asset_key = key;
  asset_type = token;
  recipient_source = source;
  ant_mint = none;
  amount = some amount;
  vault_end_ts = none;
  status = status;
}

abbrev pub vault_asset : String → String → ℕ → ℤ → PlannedStatus → PlannedAsset
vault_asset key source amount end_ts status = record {
  asset_key = key;
  asset_type = vault;
  recipient_source = source;
  ant_mint = none;
  amount = some amount;
  vault_end_ts = some end_ts;
  status = status;
}

-- A vault, or the liquid escrow that it falls back to.
abbrev pub vault_or_token : Bool → String → String → ℕ → ℤ → PlannedStatus → PlannedAsset
vault_or_token true key source amount end_ts status = token_asset key source amount status
vault_or_token false key source amount end_ts status = vault_asset key source amount end_ts status

unfoldable pub fold_option {ℓ} :
    {A : Type ℓ} → (A → Builder → Option Builder) → List A → Builder → Option Builder
fold_option f [] b = some b
fold_option f (a ∷ rest) b = f a b >>= fold_option f rest
