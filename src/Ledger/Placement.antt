-- ===== src/Ledger/Placement.antt =====
-- The assets that the phases of buildLedgerPlan, packages/claims/src/ledger/plan.ts, put in the plan.
use ar_io_solana_attestor.Prelude.{
  ℕ, ◌+◌, ◌≡◌, refl, ap, ◌∙◌, String, some, [], ◌∷◌, ◌++◌, Bool, true, false, arith, Bool-cases,
  inl, inr,
}
use mathlib.Core.Option.{get_or}
use ar_io_solana_attestor.Prelude.Int.{ℤ}
use ar_io_solana_attestor.Dispatch.{any_eq}
use ar_io_solana_attestor.Ledger.{PlannedStatus, PlannedAsset}
use ar_io_solana_attestor.Ledger.Plan.{
  Builder, ◌>>=◌, has_source, push_asset, count_if, count_ant, count_token, count_expired,
  count_vault, count_stake, ant_asset, token_asset, vault_or_token,
}
use ar_io_solana_attestor.Ledger.Write.{fits_shape}
use ar_io_solana_attestor.Ledger.Owned.{all_owned, all_owned-append}
use ar_io_solana_attestor.Ledger.Balance.{
  counted, keys, total_count, phases, AreCounted, IsBalanced, BalancedIf, append-AreCounted,
}

-- A counting step for one available asset of an amount.
pub record Adds (count : Builder → Builder) (amount : ℕ) : Type 0 where
  pub same_assets : (b : Builder) → (count b).assets ≡ b.assets
  pub same_recipients : (b : Builder) → (count b).recipients ≡ b.recipients
  pub one_more : (b : Builder) → total_count (count b).counters ≡ total_count b.counters + 1
  pub amount_more : (b : Builder) → phases (count b) ≡ phases b + amount

pub count_ant-Adds : Adds count_ant 0
count_ant-Adds = record {
  same_assets = λ b. refl;
  same_recipients = λ b. refl;
  one_more = λ b. omega arith;
  amount_more = λ b. omega arith;
}

pub count_token-Adds : (n : ℕ) → Adds (count_token n) n
count_token-Adds n = record {
  same_assets = λ b. refl;
  same_recipients = λ b. refl;
  one_more = λ b. omega arith;
  amount_more = λ b. omega arith;
}

pub count_expired-Adds : (n : ℕ) → Adds (count_expired n) n
count_expired-Adds n = record {
  same_assets = λ b. refl;
  same_recipients = λ b. refl;
  one_more = λ b. omega arith;
  amount_more = λ b. omega arith;
}

pub count_vault-Adds : (n : ℕ) → Adds (count_vault n) n
count_vault-Adds n = record {
  same_assets = λ b. refl;
  same_recipients = λ b. refl;
  one_more = λ b. omega arith;
  amount_more = λ b. omega arith;
}

pub count_stake-Adds : (n : ℕ) → Adds (count_stake n) n
count_stake-Adds n = record {
  same_assets = λ b. refl;
  same_recipients = λ b. refl;
  one_more = λ b. omega arith;
  amount_more = λ b. omega arith;
}

-- An asset of this source that carries the status and the amount that are counted.
pub record Carries (asset : PlannedStatus → PlannedAsset) (source : String) (amount : ℕ)
    : Type 0 where
  pub same_status : (s : PlannedStatus) → (asset s).status ≡ s
  pub same_amount : (s : PlannedStatus) → get_or (asset s).amount 0 ≡ amount
  pub same_source : (s : PlannedStatus) → (asset s).recipient_source ≡ source
  pub is_shaped : (s : PlannedStatus) → fits_shape (asset s) ≡ true

pub ant_asset-Carries : (mint source : String) → Carries (ant_asset mint source) source 0
ant_asset-Carries mint source = record {
  same_status = λ s. refl;
  same_amount = λ s. refl;
  same_source = λ s. refl;
  is_shaped = λ s. refl;
}

pub token_asset-Carries :
    (key source : String) (n : ℕ) → Carries (token_asset key source n) source n
token_asset-Carries key source n = record {
  same_status = λ s. refl;
  same_amount = λ s. refl;
  same_source = λ s. refl;
  is_shaped = λ s. refl;
}

pub vault_or_token-Carries :
    (is_liquid : Bool) (key source : String) (n : ℕ) (end_ts : ℤ)
    → Carries (vault_or_token is_liquid key source n end_ts) source n
vault_or_token-Carries true key source n end_ts = record {
  same_status = λ s. refl;
  same_amount = λ s. refl;
  same_source = λ s. refl;
  is_shaped = λ s. refl;
}
vault_or_token-Carries false key source n end_ts = record {
  same_status = λ s. refl;
  same_amount = λ s. refl;
  same_source = λ s. refl;
  is_shaped = λ s. refl;
}

module _ (count : Builder → Builder) (n : ℕ) (c : Adds count n) where
  count_if-Balanced :
      (status : PlannedStatus) (pushed : Builder)
      → AreCounted pushed.assets
          (total_count pushed.counters + counted status 1)
          (phases pushed + counted status n)
      → all_owned pushed.recipients pushed.assets ≡ true
      → IsBalanced (count_if status count pushed)
  count_if-Balanced PlannedStatus.available pushed h owned = record {
    are_counted = rw (c.same_assets pushed, c.one_more pushed, c.amount_more pushed) h;
    are_owned = rw (c.same_assets pushed, c.same_recipients pushed) owned;
  }
  count_if-Balanced PlannedStatus.manual_review pushed h owned = record {
    are_counted = record {
      same_number = omega (arith, h.same_number);
      same_mario = omega (arith, h.same_mario);
      are_distinct = h.are_distinct;
    };
    are_owned = owned;
  }

  module _ (asset : PlannedStatus → PlannedAsset) (source : String)
      (carries : Carries asset source n) where
    pub push_asset-Balanced :
        (status : PlannedStatus) (b : Builder)
        → IsBalanced b
        → has_source source b.recipients ≡ true
        → BalancedIf (
            push_asset (asset status) b >>= λ (pushed : Builder).
            some (count_if status count pushed))
    unfolding push_asset
    push_asset-Balanced status b h known =
        elim (Bool-cases (any_eq (asset status).asset_key (keys b.assets))) [
          | inl seen ↦ rw seen tt
          | inr fresh ↦ rw fresh (
              let grown =
                append-AreCounted b.assets (asset status) (total_count b.counters) (phases b)
                  h.are_counted fresh in
              count_if-Balanced status (record b { assets = b.assets ++ asset status ∷ [] })
                (record {
                  same_number =
                      grown.same_number
                      ∙ ap (λ s. total_count b.counters + counted s 1) (carries.same_status status);
                  same_mario =
                      grown.same_mario
                      ∙ ap (λ s. phases b + counted s (get_or (asset status).amount 0))
                          (carries.same_status status)
                      ∙ ap (λ m. phases b + counted status m) (carries.same_amount status);
                  are_distinct = grown.are_distinct;
                })
                (all_owned-append b.recipients b.assets (asset status) h.are_owned
                  (carries.is_shaped status) (rw (carries.same_source status) known)))
        ]
