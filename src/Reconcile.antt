-- ===== src/Reconcile.antt =====
-- packages/claims/src/dispatch/reconcile-dispatch.ts: the report that compares the confirmed claims with
-- their assets and with the audit log. An issue carries the figures that its message shows, and the rows
-- of a query come in the order of the table.
pub mod Conserved
use ar_io_solana_attestor.Prelude.{
  ℕ, suc, ◌+◌, String, Option, none, some, List, [], ◌∷◌, ◌++◌, map, Bool, true, false, not, ◌&&◌,
  str_eq, ◌==◌, ltb, if◌then◌else◌, length,
}
use ar_io_solana_attestor.Audit.{AuditRow}
use ar_io_solana_attestor.Audit.Canonical.{
  Json, string, object, Fields, end, field, undefined_field,
}
use ar_io_solana_attestor.Store.{
  ClaimStatus, AssetStatus, AssetType, ant, token, vault, Claim, Asset, Db, find_asset,
}
use ar_io_solana_attestor.Dispatch.{any_eq}
use ar_io_solana_attestor.Service.{amount_or_zero}
use ar_io_solana_attestor.Worker.Process.{truthy}
use ar_io_solana_attestor.Reserves.{in_scope, is_ant, is_claimed}

pub data Issue : Type 0 where
  no_signature : String → Issue
  asset_not_claimed : String → String → AssetStatus → Issue
  ant_with_amount : String → ℕ → Issue
  no_settlement_amount : String → Issue
  amounts_differ : String → ℕ → ℕ → Issue
  double_dispense : String → ℕ → Issue
  orphan_asset : String → Issue
  no_dispatching_entry : String → Issue
  no_confirmed_entry : String → Issue

pub record ConfirmedRow : Type 0 where
  pub claim_id : String
  pub asset_key : String
  pub asset_type : AssetType
  pub settlement_amount : Option ℕ
  pub amount : Option ℕ
  pub dispatch_signature : Option String
  pub asset_status : AssetStatus

abbrev pub claim_in_scope : Option (List String) → Claim → Bool
claim_in_scope none c = true
claim_in_scope (some keys) c = any_eq c.asset_key keys

abbrev pub is_confirmed : ClaimStatus → Bool
is_confirmed ClaimStatus.confirmed = true
is_confirmed _ = false

-- The join of a claim with its asset; a claim without one has no row.
abbrev pub joined : Claim → Option Asset → List ConfirmedRow → List ConfirmedRow
joined c none rest = rest
joined c (some a) rest =
    record {
      claim_id = c.claim_id;
      asset_key = c.asset_key;
      asset_type = a.asset_type;
      settlement_amount = c.settlement_amount;
      amount = a.amount;
      dispatch_signature = c.dispatch_signature;
      asset_status = a.status;
    }
    ∷ rest

unfoldable pub confirmed_rows : Option (List String) → List Asset → List Claim → List ConfirmedRow
confirmed_rows scope assets [] = []
confirmed_rows scope assets (c ∷ claims) =
    let rest = confirmed_rows scope assets claims in
    if is_confirmed c.status && claim_in_scope scope c
    then joined c (find_asset c.asset_key assets) rest
    else rest

abbrev pub ant_issues : String → Option ℕ → List Issue
ant_issues id none = []
ant_issues id (some n) = if n == 0 then [] else ant_with_amount id n ∷ []

abbrev pub amount_issues : String → Option ℕ → ℕ → List Issue
amount_issues id none claimed = no_settlement_amount id ∷ []
amount_issues id (some dispatched) claimed =
    if dispatched == claimed then [] else amounts_differ id dispatched claimed ∷ []

abbrev pub signature_issues : ConfirmedRow → List Issue
signature_issues r = if truthy r.dispatch_signature then [] else no_signature r.claim_id ∷ []

abbrev pub status_issues : ConfirmedRow → List Issue
status_issues r =
    if is_claimed r.asset_status
    then []
    else asset_not_claimed r.claim_id r.asset_key r.asset_status ∷ []

abbrev pub figure_issues : ConfirmedRow → List Issue
figure_issues r =
    if is_ant r.asset_type
    then ant_issues r.claim_id r.settlement_amount
    else amount_issues r.claim_id r.settlement_amount (amount_or_zero r.amount)

-- What the loop's body pushes for a row.
unfoldable pub row_issues : ConfirmedRow → List Issue
row_issues r = signature_issues r ++ status_issues r ++ figure_issues r

unfoldable pub rows_issues : List ConfirmedRow → List Issue
rows_issues [] = []
rows_issues (r ∷ rest) = row_issues r ++ rows_issues rest

-- What the loop's body adds to the two totals for a row.
abbrev pub row_dispatched : ConfirmedRow → ℕ
row_dispatched r = if is_ant r.asset_type then 0 else amount_or_zero r.settlement_amount

abbrev pub claimed_with : Option ℕ → ℕ → ℕ
claimed_with none claimed = 0
claimed_with (some dispatched) claimed = claimed

abbrev pub row_claimed : ConfirmedRow → ℕ
row_claimed r =
    if is_ant r.asset_type then 0 else claimed_with r.settlement_amount (amount_or_zero r.amount)

unfoldable pub sum_of : (ConfirmedRow → ℕ) → List ConfirmedRow → ℕ
sum_of f [] = 0
sum_of f (r ∷ rest) = f r + sum_of f rest

-- The map from an asset's key to its number of confirmed claims, in the order of its keys.
pub record Seen : Type 0 where
  pub key : String
  pub count : ℕ

unfoldable pub bump : String → List Seen → List Seen
bump key [] = record { key = key; count = 1 } ∷ []
bump key (s ∷ rest) =
    let bumped = bump key rest in
    if str_eq s.key key then record s { count = suc s.count } ∷ rest else s ∷ bumped

unfoldable pub keys_seen : List ConfirmedRow → List Seen → List Seen
keys_seen [] seen = seen
keys_seen (r ∷ rest) seen = keys_seen rest (bump r.asset_key seen)

unfoldable pub double_issues : List Seen → List Issue
double_issues [] = []
double_issues (s ∷ rest) =
    (if ltb 1 s.count then double_dispense s.key s.count ∷ [] else []) ++ double_issues rest

unfoldable pub claimed_assets : Option (List String) → List Asset → List Asset
claimed_assets scope [] = []
claimed_assets scope (a ∷ assets) =
    let rest = claimed_assets scope assets in
    if is_claimed a.status && in_scope scope a then a ∷ rest else rest

unfoldable pub orphan_issues : List Seen → List Asset → List Issue
orphan_issues seen [] = []
orphan_issues seen (a ∷ rest) =
    (if any_eq a.asset_key (map (λ s. s.key) seen) then [] else orphan_asset a.asset_key ∷ [])
    ++ orphan_issues seen rest

-- `entry->>'key' = text`
abbrev pub has_text : String → String → Fields → Bool
has_text key text end = false
has_text key text (field name (string s) rest) =
    if str_eq name key then str_eq s text else has_text key text rest
has_text key text (field name other rest) =
    if str_eq name key then false else has_text key text rest
has_text key text (undefined_field name rest) = has_text key text rest

abbrev pub is_event : String → String → Json → Bool
is_event event id (object fields) = has_text "claimId" id fields && has_text "event" event fields
is_event event id _ = false

unfoldable pub count_events : String → String → List AuditRow → ℕ
count_events event id [] = 0
count_events event id (r ∷ rest) =
    (if is_event event id r.entry then 1 else 0) + count_events event id rest

unfoldable pub audit_issues : Option (List String) → List AuditRow → List Claim → List Issue
audit_issues scope rows [] = []
audit_issues scope rows (c ∷ claims) =
    (if is_confirmed c.status && claim_in_scope scope c
      then (if ltb (count_events "claim.dispatching" c.claim_id rows) 1
          then no_dispatching_entry c.claim_id ∷ []
          else [])
        ++ (if ltb (count_events "claim.confirmed" c.claim_id rows) 1
            then no_confirmed_entry c.claim_id ∷ []
            else [])
      else [])
    ++ audit_issues scope rows claims

pub record DispatchReconcileReport : Type 0 where
  pub ok : Bool
  pub confirmed_claims : ℕ
  pub claimed_asset_count : ℕ
  pub dispatched_total_mario : ℕ
  pub claimed_total_mario : ℕ
  pub ant_confirmed : ℕ
  pub issues : List Issue

unfoldable pub reconcile_dispatch : Option (List String) → Db → DispatchReconcileReport
reconcile_dispatch scope db =
    let rows = confirmed_rows scope db.assets db.claims in
    let seen = keys_seen rows [] in
    let claimed = claimed_assets scope db.assets in
    let issues =
      rows_issues rows
      ++ double_issues seen
      ++ orphan_issues seen claimed
      ++ audit_issues scope db.audit.rows db.claims in
    record {
      ok = length issues == 0;
      confirmed_claims = length rows;
      claimed_asset_count = length claimed;
      dispatched_total_mario = sum_of row_dispatched rows;
      claimed_total_mario = sum_of row_claimed rows;
      ant_confirmed = sum_of (λ r. if is_ant r.asset_type then 1 else 0) rows;
      issues = issues;
    }
