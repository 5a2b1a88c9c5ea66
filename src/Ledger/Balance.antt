-- ===== src/Ledger/Balance.antt =====
-- The counters and totals of buildLedgerPlan, packages/claims/src/ledger/plan.ts, against its assets.
use ar_io_solana_attestor.Prelude.{
  ℕ, ◌+◌, ◌≡◌, refl, String, Option, none, some, List, [], ◌∷◌, ◌++◌, map, Bool, true, false, ◌||◌,
  str_eq, arith, eq_iff,
}
use mathlib.Core.Option.{get_or}
use ar_io_solana_attestor.Dispatch.{any_eq}
use ar_io_solana_attestor.Ledger.{PlannedStatus, PlannedAsset, ManifestCounters}
use ar_io_solana_attestor.Ledger.Owned.{all_owned}
use ar_io_solana_attestor.Ledger.Plan.{Builder, ◌>>=◌, fold_option}

-- What an asset adds, if it is available.
abbrev pub counted : PlannedStatus → ℕ → ℕ
counted PlannedStatus.available n = n
counted PlannedStatus.manual_review n = 0

abbrev pub available_count : List PlannedAsset → ℕ
available_count [] = 0
available_count (a ∷ rest) = counted a.status 1 + available_count rest

abbrev pub available_mario : List PlannedAsset → ℕ
available_mario [] = 0
available_mario (a ∷ rest) = counted a.status (get_or a.amount 0) + available_mario rest

abbrev pub keys : List PlannedAsset → List String
keys assets = map (λ (a : PlannedAsset). a.asset_key) assets

unfoldable pub has_repeated : List String → Bool
has_repeated [] = false
has_repeated (s ∷ rest) = any_eq s rest || has_repeated rest

abbrev pub total_count : ManifestCounters → ℕ
total_count c = c.ant + c.token_escrowed + c.vault_escrowed + c.stake_escrowed

-- Assets whose keys differ, with their number and their sum.
pub record AreCounted (assets : List PlannedAsset) (number mario : ℕ) : Type 0 where
  pub same_number : available_count assets ≡ number
  pub same_mario : available_mario assets ≡ mario
  pub are_distinct : has_repeated (keys assets) ≡ false

abbrev pub phases : Builder → ℕ
phases b = b.phase2_token_outflow_mario + b.phase3_vault_mario + b.phase4_stake_mario

pub record IsBalanced (b : Builder) : Type 0 where
  pub are_counted : AreCounted b.assets (total_count b.counters) (phases b)
  pub are_owned : all_owned b.recipients b.assets ≡ true

-- The builder, if nothing is thrown.
abbrev pub BalancedIf : Option Builder → Type 0
BalancedIf none = Unit
BalancedIf (some b) = IsBalanced b

pub bind-Balanced :
    (o : Option Builder) (f : Builder → Option Builder)
    → ((b : Builder) → IsBalanced b → BalancedIf (f b))
    → BalancedIf o
    → BalancedIf (o >>= f)
bind-Balanced none f h k = tt
bind-Balanced (some b) f h k = h b k

pub fold_option-Balanced {ℓ} :
    {A : Type ℓ} (f : A → Builder → Option Builder)
    → ((a : A) (b : Builder) → IsBalanced b → BalancedIf (f a b))
    → (items : List A) (b : Builder) → IsBalanced b
    → BalancedIf (fold_option f items b)
unfolding fold_option
fold_option-Balanced f h [] b k = k
fold_option-Balanced f h (a ∷ rest) b k =
    bind-Balanced (f a b) (fold_option f rest) (fold_option-Balanced f h rest) (h a b k)

-- An asset at the end.
available_count-append :
    (assets : List PlannedAsset) (a : PlannedAsset)
    → available_count (assets ++ a ∷ []) ≡ available_count assets + counted a.status 1
available_count-append [] a = omega arith
available_count-append (x ∷ rest) a = omega (arith, available_count-append rest a)

available_mario-append :
    (assets : List PlannedAsset) (a : PlannedAsset)
    → available_mario (assets ++ a ∷ [])
      ≡ available_mario assets + counted a.status (get_or a.amount 0)
available_mario-append [] a = omega arith
available_mario-append (x ∷ rest) a = omega (arith, available_mario-append rest a)

any_eq-append :
    (s : String) (assets : List PlannedAsset) (a : PlannedAsset)
    → any_eq s (keys assets) ≡ false
    → str_eq s a.asset_key ≡ false
    → any_eq s (keys (assets ++ a ∷ [])) ≡ false
unfolding any_eq
any_eq-append s [] a h k = ground arith
any_eq-append s (x ∷ rest) a h k = ground (arith, any_eq-append s rest a)

has_repeated-append :
    (assets : List PlannedAsset) (a : PlannedAsset)
    → has_repeated (keys assets) ≡ false
    → any_eq a.asset_key (keys assets) ≡ false
    → has_repeated (keys (assets ++ a ∷ [])) ≡ false
unfolding any_eq has_repeated
has_repeated-append [] a h k = refl
has_repeated-append (x ∷ rest) a h k = ground (
  arith,
  eq_iff a.asset_key x.asset_key,
  eq_iff x.asset_key a.asset_key,
  any_eq-append x.asset_key rest a,
  has_repeated-append rest a,
)

pub append-AreCounted :
    (assets : List PlannedAsset) (a : PlannedAsset) (number mario : ℕ)
    → AreCounted assets number mario
    → any_eq a.asset_key (keys assets) ≡ false
    → AreCounted
        (assets ++ a ∷ [])
        (number + counted a.status 1)
        (mario + counted a.status (get_or a.amount 0))
append-AreCounted assets a number mario h k = record {
  same_number = omega (arith, available_count-append assets a, h.same_number);
  same_mario = omega (arith, available_mario-append assets a, h.same_mario);
  are_distinct = has_repeated-append assets a h.are_distinct k;
}
