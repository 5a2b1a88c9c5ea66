-- ===== src/Reserves.antt =====
-- packages/claims/src/transparency/reserves.ts: the liabilities of the ledger and their coverage. The
-- balances and the full count of ANTs are the answers of the chain; an ANT sample is not modelled.
pub mod Partition
use ar_io_solana_attestor.Prelude.{
  ℕ, zero, suc, ◌+◌, String, Option, none, some, List, [], ◌∷◌, Bool, true, false, not, ◌&&◌, ◌||◌,
  str_eq, leb, if◌then◌else◌,
}
use ar_io_solana_attestor.Prelude.Int.{ℤ, pos, ◌-ℤ◌}
use ar_io_solana_attestor.Store.{AssetStatus, AssetType, ant, token, vault, Asset}
use ar_io_solana_attestor.Dispatch.{any_eq}
use ar_io_solana_attestor.Service.{amount_or_zero}

pub record LedgerLiabilities : Type 0 where
  pub outstanding_mario : ℕ
  pub claimed_mario : ℕ
  pub total_mario : ℕ
  pub outstanding_ants : ℕ
  pub claimed_ants : ℕ
  pub total_ants : ℕ

-- `$1 IS NULL OR asset_key = ANY($1)`
abbrev pub in_scope : Option (List String) → Asset → Bool
in_scope none a = true
in_scope (some keys) a = any_eq a.asset_key keys

abbrev pub is_outstanding : AssetStatus → Bool
is_outstanding AssetStatus.claimed = false
is_outstanding AssetStatus.cancelled = false
is_outstanding AssetStatus.manual_review = false
is_outstanding _ = true

abbrev pub is_claimed : AssetStatus → Bool
is_claimed AssetStatus.claimed = true
is_claimed _ = false

abbrev pub is_kept : AssetStatus → Bool
is_kept AssetStatus.cancelled = false
is_kept _ = true

abbrev pub is_ant : AssetType → Bool
is_ant ant = true
is_ant _ = false

-- SUM(amount) FILTER (WHERE asset_type IN ('token','vault') AND ...), within the scope
unfoldable pub sum_amounts : (AssetStatus → Bool) → Option (List String) → List Asset → ℕ
sum_amounts p scope [] = 0
sum_amounts p scope (a ∷ rest) =
    (if in_scope scope a && not (is_ant a.asset_type) && p a.status
      then amount_or_zero a.amount
      else 0)
    + sum_amounts p scope rest

-- count(*) FILTER (WHERE asset_type = 'ant' AND ...), within the scope
unfoldable pub count_ants : (AssetStatus → Bool) → Option (List String) → List Asset → ℕ
count_ants p scope [] = 0
count_ants p scope (a ∷ rest) =
    (if in_scope scope a && is_ant a.asset_type && p a.status then 1 else 0)
    + count_ants p scope rest

unfoldable pub read_liabilities : Option (List String) → List Asset → LedgerLiabilities
read_liabilities scope assets = record {
  outstanding_mario = sum_amounts is_outstanding scope assets;
  claimed_mario = sum_amounts is_claimed scope assets;
  total_mario = sum_amounts is_kept scope assets;
  outstanding_ants = count_ants is_outstanding scope assets;
  claimed_ants = count_ants is_claimed scope assets;
  total_ants = count_ants is_kept scope assets;
}

-- What the chain answers: the hot float's and the cold reserve's accounts with their balances, and the
-- full count of ANTs, where it is asked for.
pub record Holdings : Type 0 where
  pub hot_dispenser : String
  pub hot_ata : String
  pub hot_float_mario : ℕ
  pub cold_reserve : Option String
  pub cold_ata : String
  pub cold_balance : ℕ
  pub ant_count : Option ℕ

pub record Coverage : Type 0 where
  pub total_reserve_mario : ℕ
  pub token_vault_covered : Bool
  pub surplus_mario : ℤ
  pub ant_covered : Option Bool

abbrev pub cold_mario : Holdings → Option String → ℕ
cold_mario h none = 0
cold_mario h (some owner) = if str_eq h.cold_ata h.hot_ata then 0 else h.cold_balance

abbrev pub ant_coverage : LedgerLiabilities → Option ℕ → Option Bool
ant_coverage l none = none
ant_coverage l (some count) = some (leb l.outstanding_ants count)

-- The misconfiguration that computeReserves throws at.
abbrev pub is_same_custody : Holdings → Option String → Bool
is_same_custody h none = false
is_same_custody h (some owner) = str_eq owner h.hot_dispenser

abbrev pub coverage_of : Holdings → LedgerLiabilities → Coverage
coverage_of h l =
    let total = h.hot_float_mario + cold_mario h h.cold_reserve in
    record {
      total_reserve_mario = total;
      token_vault_covered = leb l.outstanding_mario total;
      surplus_mario = pos total -ℤ pos l.outstanding_mario;
      ant_covered = ant_coverage l h.ant_count;
    }

-- `none` is the thrown error.
unfoldable pub compute_reserves : Holdings → Option (List String) → List Asset → Option Coverage
compute_reserves h scope assets =
    if is_same_custody h h.cold_reserve
    then none
    else some (coverage_of h (read_liabilities scope assets))
