-- ===== src/Ledger/Classified.antt =====
-- upsertRecipient, classifyOwner and pushAsset of buildLedgerPlan, packages/claims/src/ledger/plan.ts, on a
-- builder that is balanced.
use ar_io_solana_attestor.Prelude.{
  ℕ, ◌≡◌, refl, String, Option, none, some, true, false, str_eq, if◌then◌else◌, Bool-cases, inl,
  inr, not, ◌&&◌,
}
use ar_io_solana_attestor.Audit.{Bytes}
use ar_io_solana_attestor.Dispatch.{any_eq}
use ar_io_solana_attestor.Ledger.{PlannedStatus, PlannedAsset, PlannedRecipient}
use ar_io_solana_attestor.Ledger.Normalize.{PlanKit, is_ethereum_address, normalize_source_address}
use ar_io_solana_attestor.Ledger.Plan.{
  FrozenInputs, Builder, ◌>>=◌, has_source, add_recipient, push_asset, count_if,
}
use ar_io_solana_attestor.Ledger.Phases.{
  new_recipient, upsert_recipient, with_status, resolve_recipient_pubkey, by_pubkey, classify_owner,
  place,
}
use ar_io_solana_attestor.Ledger.Owned.{has_source-last, all_owned-recipient}
use ar_io_solana_attestor.Ledger.Balance.{IsBalanced, BalancedIf}
use ar_io_solana_attestor.Ledger.Placement.{Adds, Carries, push_asset-Balanced}

-- The builder, with a recipient of this source, if nothing is thrown.
abbrev HasRecipientIf : String → Option Builder → Type 0
HasRecipientIf src none = Unit
HasRecipientIf src (some b) = IsBalanced b × (has_source src b.recipients ≡ true)

add_recipient-Balanced :
    (r : PlannedRecipient) (src : String) (b : Builder)
    → IsBalanced b
    → r.source_address ≡ src
    → HasRecipientIf src (some (add_recipient r b))
add_recipient-Balanced r src b h e = (
  record {
    are_counted = h.are_counted;
    are_owned = all_owned-recipient b.recipients r b.assets h.are_owned;
  },
  has_source-last src b.recipients r e,
)

module _ (kit : PlanKit) where
  new_recipient-Balanced :
      (owner src : String) (pubkey : Option Bytes) (b : Builder)
      → IsBalanced b
      → HasRecipientIf src (new_recipient kit owner src pubkey b)
  new_recipient-Balanced owner src none b h = add_recipient-Balanced _ src b h refl
  new_recipient-Balanced owner src (some pubkey) b h =
      elim (Bool-cases (
        not (is_ethereum_address owner)
        && not (str_eq (kit.base64url_encode (kit.sha256 pubkey)) owner))) [
          | inl mismatch ↦ rw mismatch tt
          | inr agrees ↦ rw agrees (add_recipient-Balanced _ src b h refl)
        ]

  upsert_recipient-HasRecipient :
      (owner : String) (pubkey : Option Bytes) (b : Builder)
      → IsBalanced b
      → HasRecipientIf (normalize_source_address kit owner) (upsert_recipient kit owner pubkey b)
  unfolding upsert_recipient
  upsert_recipient-HasRecipient owner pubkey b h =
      elim (Bool-cases (has_source (normalize_source_address kit owner) b.recipients)) [
        | inl known ↦ rw known (h, known)
        | inr new ↦ rw new (new_recipient-Balanced owner _ pubkey b h)
      ]

  pub upsert_recipient-Balanced :
      (owner : String) (pubkey : Option Bytes) (b : Builder)
      → IsBalanced b
      → BalancedIf (upsert_recipient kit owner pubkey b)
  upsert_recipient-Balanced owner pubkey b h =
      forget (upsert_recipient kit owner pubkey b) (upsert_recipient-HasRecipient owner pubkey b h)
    where
      forget :
          (o : Option Builder)
          → HasRecipientIf (normalize_source_address kit owner) o
          → BalancedIf o
      forget none k = tt
      forget (some c) k = k.0

  module _ (inputs : FrozenInputs) where
    -- The builder that classifyOwner leaves, if it does not throw.
    abbrev ClassifiedIf : String → Option (Builder × PlannedStatus) → Type 0
    ClassifiedIf src none = Unit
    ClassifiedIf src (some c) = IsBalanced c.0 × (has_source src c.0.recipients ≡ true)

    with_status-Classified :
        (src : String) (status : PlannedStatus) (o : Option Builder)
        → HasRecipientIf src o
        → ClassifiedIf src (with_status kit inputs status o)
    with_status-Classified src status none h = tt
    with_status-Classified src status (some b) h = h

    by_pubkey-Classified :
        (owner : String) (b : Builder) (pubkey : Option Bytes)
        → IsBalanced b
        → ClassifiedIf (normalize_source_address kit owner) (by_pubkey kit inputs owner b pubkey)
    by_pubkey-Classified owner b (some pubkey) h =
        with_status-Classified _ PlannedStatus.available
          (upsert_recipient kit owner (some pubkey) b)
          (upsert_recipient-HasRecipient owner (some pubkey) b h)
    by_pubkey-Classified owner b none h =
        elim (any_eq owner inputs.at_risk)
          as (λ t. ClassifiedIf (normalize_source_address kit owner) (
            if t
            then with_status kit inputs PlannedStatus.manual_review
                (upsert_recipient kit owner none b)
            else none)) [
              | true ↦
                  with_status-Classified _ PlannedStatus.manual_review
                    (upsert_recipient kit owner none b)
                    (upsert_recipient-HasRecipient owner none b h)
              | false ↦ tt
            ]

    classify_owner-Classified :
        (owner : String) (b : Builder)
        → IsBalanced b
        → ClassifiedIf (normalize_source_address kit owner) (classify_owner kit inputs owner b)
    unfolding classify_owner
    classify_owner-Classified owner b h =
        elim (resolve_recipient_pubkey kit inputs owner)
          as (λ o.
            ClassifiedIf (normalize_source_address kit owner)
              (o >>= by_pubkey kit inputs owner b)) [
                | none ↦ tt
                | some pubkey ↦ by_pubkey-Classified owner b pubkey h
              ]

    pub place-Balanced :
        (owner : String) (asset : PlannedStatus → PlannedAsset) (count : Builder → Builder) (n : ℕ)
        → Carries asset (normalize_source_address kit owner) n
        → Adds count n
        → (b : Builder) → IsBalanced b
        → BalancedIf (place kit inputs owner (λ status. push_asset (asset status)) count b)
    place-Balanced owner asset count n carries c b h =
        by_class (classify_owner kit inputs owner b) (classify_owner-Classified owner b h)
      where
        by_class :
            (o : Option (Builder × PlannedStatus))
            → ClassifiedIf (normalize_source_address kit owner) o
            → BalancedIf (
                o >>= λ (d : Builder × PlannedStatus).
                push_asset (asset d.1) d.0 >>= λ (pushed : Builder).
                some (count_if d.1 count pushed))
        by_class none k = tt
        by_class (some d) k =
            push_asset-Balanced count n c asset (normalize_source_address kit owner) carries d.1 d.0
              k.0 k.1
