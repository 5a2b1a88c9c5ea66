-- ===== src/Ledger/Owned.antt =====
-- buildLedgerPlan, packages/claims/src/ledger/plan.ts: the recipients of its assets.
use ar_io_solana_attestor.Prelude.{
  ◌≡◌, refl, String, List, [], ◌∷◌, ◌++◌, Bool, true, ◌&&◌, arith, eq_iff,
}
use ar_io_solana_attestor.Ledger.{PlannedRecipient, PlannedAsset}
use ar_io_solana_attestor.Ledger.Write.{fits_shape}
use ar_io_solana_attestor.Ledger.Plan.{has_source}

-- Each asset has the shape of its type, and its source is the source of a recipient.
abbrev pub all_owned : List PlannedRecipient → List PlannedAsset → Bool
all_owned recipients [] = true
all_owned recipients (a ∷ rest) =
    fits_shape a && has_source a.recipient_source recipients && all_owned recipients rest

has_source-append :
    (src : String) (recipients : List PlannedRecipient) (r : PlannedRecipient)
    → has_source src recipients ≡ true
    → has_source src (recipients ++ r ∷ []) ≡ true
has_source-append src [] r h = ground arith
has_source-append src (q ∷ rest) r h = ground (arith, has_source-append src rest r)

pub has_source-last :
    (src : String) (recipients : List PlannedRecipient) (r : PlannedRecipient)
    → r.source_address ≡ src
    → has_source src (recipients ++ r ∷ []) ≡ true
has_source-last src [] r e = ground (arith, eq_iff r.source_address src)
has_source-last src (q ∷ rest) r e = ground (arith, has_source-last src rest r e)

pub all_owned-recipient :
    (recipients : List PlannedRecipient) (r : PlannedRecipient) (assets : List PlannedAsset)
    → all_owned recipients assets ≡ true
    → all_owned (recipients ++ r ∷ []) assets ≡ true
all_owned-recipient recipients r [] h = refl
all_owned-recipient recipients r (a ∷ rest) h = ground (
  arith,
  has_source-append a.recipient_source recipients r,
  all_owned-recipient recipients r rest,
)

pub all_owned-append :
    (recipients : List PlannedRecipient) (assets : List PlannedAsset) (a : PlannedAsset)
    → all_owned recipients assets ≡ true
    → fits_shape a ≡ true
    → has_source a.recipient_source recipients ≡ true
    → all_owned recipients (assets ++ a ∷ []) ≡ true
all_owned-append recipients [] a h shape k = ground arith
all_owned-append recipients (x ∷ rest) a h shape k =
    ground (arith, all_owned-append recipients rest a)
