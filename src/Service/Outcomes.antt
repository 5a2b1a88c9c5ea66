-- ===== src/Service/Outcomes.antt =====
-- How completeClaim of packages/claims/src/api/service.ts ends, and what an error leaves.
use ar_io_solana_attestor.Prelude.{
  ◌≡◌, refl, String, Option, none, some, Bool, true, false, if◌then◌else◌,
}
use ar_io_solana_attestor.Audit.{Context, AuditEntry}
use ar_io_solana_attestor.Store.{
  ClaimStatus, AssetStatus, Claim, Asset, Recipient, Db, find_asset, update_claim,
  one_live_claim_per_asset,
}
use ar_io_solana_attestor.Verify.{Outcome, ok, rejected, RecipientView, ClaimProof, VerifiedProof}
use ar_io_solana_attestor.Service.{
  ApiError, Checked, passes, refuses, Response, returns, throws, fault, Exit, commit, rollback,
  finish, Service, truthy, to_recipient_view, find_recipient, compute_settlement, reject_claim,
  amount_or_zero, sum_recipient_available,
}
use ar_io_solana_attestor.Service.Proof.{
  ProofInput, CompleteInput, build_proof, verify_with, verify_replay_proof,
}
use ar_io_solana_attestor.Service.Complete.{
  CompleteStatus, verified, pending_review, CompleteResult, result_of, stored_salt, won_db, won_row,
  is_big_claim, win_as, pending_review_entry, verified_entry, reject, on_verdict,
  challenge_nonce_of, on_proof, on_view, on_recipient, on_asset_status, on_asset, is_past,
  echoes_other, expire, complete_claiming, replay_exit, by_claim_status, lookup_claim, with_proof,
  complete_claim,
}

-- The statuses that a win writes, of the claim and of the asset.
-- What a claim answers once it is completed, by its status.
pub data CompletedAs : CompleteStatus → ClaimStatus → Type 0 where
  is_verified : CompletedAs verified ClaimStatus.verified
  is_dispatching : CompletedAs verified ClaimStatus.dispatching
  is_confirmed : CompletedAs verified ClaimStatus.confirmed
  is_pending_review : CompletedAs pending_review ClaimStatus.pending_review

pub data WinStatuses : CompleteStatus → ClaimStatus → AssetStatus → Type 0 where
  verifies : WinStatuses verified ClaimStatus.verified AssetStatus.claiming
  waits : WinStatuses pending_review ClaimStatus.pending_review AssetStatus.pending_review

module _ (ctx : Context) (service : Service) (input : CompleteInput) (db : Db) where
  abbrev pub Found : Claim → Type 0
  Found c =
      lookup_claim ctx service (truthy input.claim_id) (truthy input.idempotency_key) db
      ≡ some (some c)

  -- What a win rests on: a claim whose challenge runs, an available asset of a recipient with a key,
  -- and a proof that the verifier accepts under the claim's own challenge.
  pub record Proven (c : Claim) (a : Asset) (r : Recipient) (view : RecipientView) (p : ProofInput)
      (proof : ClaimProof) (v : VerifiedProof) : Type 0 where
    pub found : Found c
    pub given : input.proof ≡ some p
    pub is_claiming : c.status ≡ ClaimStatus.claiming
    pub is_running : is_past ctx service c.challenge_expires_at ≡ false
    pub asset : find_asset c.asset_key db.assets ≡ some a
    pub is_available : a.status ≡ AssetStatus.available
    pub row : find_recipient a.recipient_id db.recipients ≡ some r
    pub key : to_recipient_view r ≡ passes view
    pub built : build_proof service p c.claimant view.protocol input.nonce_hex ≡ passes proof
    pub accepted : verify_with service view a (challenge_nonce_of ctx service c) proof ≡ ok v

  pub data Ends : Exit CompleteResult → Type 0 where
    faults : Ends (rollback fault)
    fails : (e : ApiError) → Ends (rollback (throws e))
    keeps : (e : ApiError) → Ends (commit db (throws e))
    turns_away :
        (c : Claim) (code reason : String) (e : ApiError)
        → Found c
        → c.status ≡ ClaimStatus.claiming
        → Ends (commit (reject_claim ctx c code reason db) (throws e))
    expires :
        (c : Claim) → Found c → c.status ≡ ClaimStatus.claiming → Ends (expire ctx service c db)
    replays :
        (c : Claim) (p : ProofInput) (status : CompleteStatus)
        → Found c
        → CompletedAs status c.status
        → input.proof ≡ some p
        → verify_replay_proof service c p input.nonce_hex db ≡ returns tt
        → Ends (commit db (returns (result_of c status c.settlement true)))
    wins :
        (c : Claim) (a : Asset) (r : Recipient) (view : RecipientView) (p : ProofInput)
        (proof : ClaimProof) (v : VerifiedProof) (cs : CompleteStatus) (claim_status : ClaimStatus)
        (asset_status : AssetStatus) (entry : AuditEntry)
        → WinStatuses cs claim_status asset_status
        → Proven c a r view p proof v
        → one_live_claim_per_asset (
            update_claim c.claim_id
              (won_row ctx service claim_status proof.signature
                (stored_salt view.protocol proof.salt_length)
                (compute_settlement ctx a))
              db.claims)
          ≡ true
        → Ends (
            commit
              (won_db ctx service claim_status asset_status c a proof
                (stored_salt view.protocol proof.salt_length)
                (compute_settlement ctx a)
                entry
                db)
              (returns (result_of c cs (compute_settlement ctx a) false)))

pub if-split {ℓ κ} :
    {A : Type ℓ} (P : A → Type κ) (b : Bool) {x y : A}
    → (b ≡ true → P x)
    → (b ≡ false → P y)
    → P (if b then x else y)
if-split P true f g = f refl
if-split P false f g = g refl

module _ (ctx : Context) (service : Service) (input : CompleteInput) (p : ProofInput) (db : Db)
    (given : input.proof ≡ some p) (c : Claim) (found : Found ctx service input db c) where
  module _ (claiming : c.status ≡ ClaimStatus.claiming)
      (running : is_past ctx service c.challenge_expires_at ≡ false) (a : Asset)
      (asset : find_asset c.asset_key db.assets ≡ some a) where
    reject_ends :
        (code reason : String) (e : ApiError)
        → Ends ctx service input db (reject ctx service c code reason e db)
    reject_ends code reason e = turns_away c code reason e found claiming

    module _ (available : a.status ≡ AssetStatus.available) (r : Recipient)
        (row : find_recipient a.recipient_id db.recipients ≡ some r) (view : RecipientView)
        (key : to_recipient_view r ≡ passes view) where
      unique_ends :
          (proof : ClaimProof) (v : VerifiedProof) (cs : CompleteStatus)
          (claim_status : ClaimStatus) (asset_status : AssetStatus) (entry : AuditEntry)
          → build_proof service p c.claimant view.protocol input.nonce_hex ≡ passes proof
          → verify_with service view a (challenge_nonce_of ctx service c) proof ≡ ok v
          → WinStatuses cs claim_status asset_status
          → Ends ctx service input db
              (win_as ctx service cs claim_status asset_status c a view proof entry db)
      unique_ends proof v cs claim_status asset_status entry built accepted statuses =
          if-split (Ends ctx service input db) _
            (wins c a r view p proof v cs claim_status asset_status entry statuses (record {
              found = found;
              given = given;
              is_claiming = claiming;
              is_running = running;
              asset = asset;
              is_available = available;
              row = row;
              key = key;
              built = built;
              accepted = accepted;
            }))
            (λ full. fails _)

      verdict_ends :
          (proof : ClaimProof) (o : Outcome VerifiedProof)
          → build_proof service p c.claimant view.protocol input.nonce_hex ≡ passes proof
          → verify_with service view a (challenge_nonce_of ctx service c) proof ≡ o
          → Ends ctx service input db (on_verdict ctx service c a view proof db o)
      verdict_ends proof (ok v) built accepted =
          let waiting = pending_review_entry ctx service c a view db in
          let won = verified_entry ctx service c a view in
          if-split (Ends ctx service input db)
            (is_big_claim ctx service (amount_or_zero a.amount)
              (sum_recipient_available a.recipient_id db.assets))
            {x = win_as ctx service pending_review ClaimStatus.pending_review
              AssetStatus.pending_review c a view proof waiting db}
            {y = win_as ctx service verified ClaimStatus.verified AssetStatus.claiming c a view
              proof won db}
            (λ big. unique_ends proof v pending_review _ _ waiting built accepted waits)
            (λ small. unique_ends proof v verified _ _ won built accepted verifies)
      verdict_ends proof (rejected e) built accepted = reject_ends _ _ _
      verdict_ends proof Outcome.fault built accepted = faults

      proof_ends :
          (o : Checked ClaimProof)
          → build_proof service p c.claimant view.protocol input.nonce_hex ≡ o
          → Ends ctx service input db (on_proof ctx service c a view db o)
      proof_ends (refuses e) built = reject_ends _ _ _
      proof_ends (passes proof) built = verdict_ends proof _ built refl

    module _ (available : a.status ≡ AssetStatus.available) where
      view_ends :
          (r : Recipient) (o : Checked RecipientView)
          → find_recipient a.recipient_id db.recipients ≡ some r
          → to_recipient_view r ≡ o
          → Ends ctx service input db (on_view ctx service c p input.nonce_hex a db o)
      view_ends r (refuses e) row key = fails e
      view_ends r (passes view) row key = proof_ends available r row view key _ refl

      recipient_ends :
          (o : Option Recipient)
          → find_recipient a.recipient_id db.recipients ≡ o
          → Ends ctx service input db (on_recipient ctx service c p input.nonce_hex a db o)
      recipient_ends none row = reject_ends _ _ _
      recipient_ends (some r) row = view_ends r _ row refl

    asset_status_ends :
        (status : AssetStatus)
        → a.status ≡ status
        → Ends ctx service input db (on_asset_status ctx service c p input.nonce_hex a db status)
    asset_status_ends AssetStatus.available e = recipient_ends e _ refl
    asset_status_ends AssetStatus.claiming e = reject_ends _ _ _
    asset_status_ends AssetStatus.manual_review e = reject_ends _ _ _
    asset_status_ends AssetStatus.pending_review e = reject_ends _ _ _
    asset_status_ends AssetStatus.claimed e = reject_ends _ _ _
    asset_status_ends AssetStatus.cancelled e = reject_ends _ _ _
    asset_status_ends AssetStatus.frozen e = reject_ends _ _ _

  module _ (claiming : c.status ≡ ClaimStatus.claiming) where
    asset_ends :
        (o : Option Asset)
        → is_past ctx service c.challenge_expires_at ≡ false
        → find_asset c.asset_key db.assets ≡ o
        → Ends ctx service input db (on_asset ctx service c p input.nonce_hex db o)
    asset_ends none running asset = turns_away c _ _ _ found claiming
    asset_ends (some a) running asset = asset_status_ends claiming running a asset a.status refl

    claiming_ends : Ends ctx service input db (complete_claiming ctx service input p c db)
    unfolding complete_claiming
    claiming_ends =
        if-split (Ends ctx service input db)
          (echoes_other ctx service (truthy input.claimant) c.claimant)
          (λ other. turns_away c _ _ _ found claiming)
          (λ same.
            if-split (Ends ctx service input db) (is_past ctx service c.challenge_expires_at)
              (λ past. expires c found claiming) (λ running. asset_ends _ running refl))

  replay_ends :
      (status : CompleteStatus) (o : Response (Unit {0}))
      → CompletedAs status c.status
      → verify_replay_proof service c p input.nonce_hex db ≡ o
      → Ends ctx service input db (replay_exit ctx service c status db o)
  replay_ends status (returns done) as_status shown = replays c p status found as_status given shown
  replay_ends status (throws e) as_status shown = fails e
  replay_ends status fault as_status shown = faults

  status_ends :
      (status : ClaimStatus)
      → c.status ≡ status
      → Ends ctx service input db (by_claim_status ctx service input p c db status)
  status_ends ClaimStatus.verified e = replay_ends verified _ (rw e is_verified) refl
  status_ends ClaimStatus.dispatching e = replay_ends verified _ (rw e is_dispatching) refl
  status_ends ClaimStatus.confirmed e = replay_ends verified _ (rw e is_confirmed) refl
  status_ends ClaimStatus.pending_review e =
      replay_ends pending_review _ (rw e is_pending_review) refl
  status_ends ClaimStatus.rejected e = keeps _
  status_ends ClaimStatus.expired e = keeps _
  status_ends ClaimStatus.failed e = keeps _
  status_ends ClaimStatus.needs_operator e = keeps _
  status_ends ClaimStatus.awaiting_manual_vault_delivery e = keeps _
  status_ends ClaimStatus.claiming e = claiming_ends e

module _ (ctx : Context) (service : Service) (input : CompleteInput) (db : Db) where
  with_proof_ends :
      (o : Option (Option Claim)) (p : Option ProofInput)
      → lookup_claim ctx service (truthy input.claim_id) (truthy input.idempotency_key) db ≡ o
      → input.proof ≡ p
      → Ends ctx service input db (with_proof ctx service input db o p)
  with_proof_ends none p found given = fails _
  with_proof_ends (some o) none found given = fails _
  with_proof_ends (some none) (some p) found given = fails _
  with_proof_ends (some (some c)) (some p) found given =
      status_ends ctx service input p db given c found c.status refl

  -- Every run of completeClaim is one of these.
  pub complete_claim-Ends :
      (x : Exit CompleteResult) × ((complete_claim ctx service input db ≡ finish db x)
        × Ends ctx service input db x)
  unfolding complete_claim
  complete_claim-Ends = (_, (refl, with_proof_ends _ _ refl refl))
