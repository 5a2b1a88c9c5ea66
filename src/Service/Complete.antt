-- ===== src/Service/Complete.antt =====
-- packages/claims/src/api/service.ts: completeClaim, in one transaction, and getClaim.
use ar_io_solana_attestor.Prelude.{
  ℕ, String, Option, none, some, [], Bool, true, false, not, ◌&&◌, ◌||◌, str_eq, leb, ltb, ◌==◌,
  if◌then◌else◌,
}
use mathlib.Core.Option.{get_or}
use ar_io_solana_attestor.Audit.{Bytes, Context, AuditEntry, append_audit}
use ar_io_solana_attestor.Audit.Canonical.{Json, Fields, end, field, string, null, decimal, ◌+s◌}
use ar_io_solana_attestor.Store.{
  ClaimStatus, AssetStatus, Claim, Asset, Recipient, Db, find_claim, find_asset, update_claim,
  update_asset, one_live_claim_per_asset,
}
use ar_io_solana_attestor.Verify.{
  Outcome, ok, rejected, RecipientView, ClaimProof, VerifiedProof, protocol_arweave,
}
use ar_io_solana_attestor.Verify.Canonical.{type_text}
use ar_io_solana_attestor.Service.{
  ApiError, api_error, Checked, passes, refuses, Response, returns, throws, fault, Exit, commit,
  rollback, finish, Service, truthy, to_recipient_view, unavailable_error, status_for_stored_code,
  code_text, from_verification_error, find_by_idempotency_key, find_recipient, amount_or_zero,
  sum_recipient_available, compute_settlement, claim_entry, reject_claim, expired_row,
}
use ar_io_solana_attestor.Service.Proof.{
  ProofInput, CompleteInput, build_proof, verify_with, verify_replay_proof,
}

pub data CompleteStatus : Type 0 where
  verified pending_review : CompleteStatus

pub record CompleteResult : Type 0 where
  pub claim_id : String
  pub status : CompleteStatus
  pub asset_key : String
  pub claimant : String
  pub settlement : Option String
  pub idempotent_replay : Bool

abbrev pub result_of : Claim → CompleteStatus → Option String → Bool → CompleteResult
result_of c status settlement replay = record {
  claim_id = c.claim_id;
  status = status;
  asset_key = c.asset_key;
  claimant = c.claimant;
  settlement = settlement;
  idempotent_replay = replay;
}

abbrev pub optional_json : Option String → Json
optional_json none = null
optional_json (some t) = string t

-- `recipient.protocol === ARWEAVE ? proof.saltLength ?? 32 : null`
abbrev pub stored_salt : ℕ → Option ℕ → Option ℕ
stored_salt protocol salt = if protocol == protocol_arweave then some (get_or salt 32) else none

module _ (ctx : Context) (service : Service) where
  abbrev pub won_row : ClaimStatus → Bytes → Option ℕ → Option String → Claim → Claim
  won_row status signature salt settlement c = record c {
    status = status;
    user_signature = some signature;
    salt_length = salt;
    settlement = settlement;
    verified_at = some ctx.now;
    error = none;
    updated_at = ctx.now;
  }

  abbrev pub taken_row : AssetStatus → Asset → Asset
  taken_row status a = record a { status = status; updated_at = ctx.now }

  -- `config.bigClaimThresholdMario > 0n && (amount > ... || recipientTotal > ...)`
  abbrev pub is_big_claim : ℕ → ℕ → Bool
  is_big_claim amount total =
      let threshold = service.config.big_claim_threshold_mario in
      ltb 0 threshold && (ltb threshold amount || ltb threshold total)

  abbrev pub won_entry : String → String → Claim → Asset → ℕ → Fields → AuditEntry
  won_entry event status c a protocol detail = record (claim_entry event c status) {
    claimant = some c.claimant;
    recipient_id = some a.recipient_id;
    protocol = some protocol;
    detail = some detail;
  }

  -- The asset and the claim after a win, with the audit entry.
  abbrev pub won_db :
      ClaimStatus
      → AssetStatus
      → Claim
      → Asset
      → ClaimProof
      → Option ℕ
      → Option String
      → AuditEntry
      → Db
      → Db
  won_db status asset_status c a proof salt settlement entry db = record db {
    claims = update_claim c.claim_id (won_row status proof.signature salt settlement) db.claims;
    assets = update_asset a.asset_key (taken_row asset_status) db.assets;
    audit = append_audit ctx db.audit entry;
  }

  -- The unique index refuses a second live claim: 23505, and the handler maps it.
  abbrev pub commit_unique : Db → CompleteResult → Exit CompleteResult
  commit_unique db result =
      if one_live_claim_per_asset db.claims
      then commit db (returns result)
      else rollback (throws (api_error 409 "ALREADY_CLAIMED" "asset has already been claimed"))

  abbrev pub pending_review_entry : Claim → Asset → RecipientView → Db → AuditEntry
  pending_review_entry c a recipient db =
      won_entry "claim.pending_review" "pending_review" c a recipient.protocol (
        field "amount" (string (decimal (amount_or_zero a.amount))) (
          field "recipientTotal"
            (string (decimal (sum_recipient_available a.recipient_id db.assets)))
            (field "reason" (string "big-claim brake") end)))

  abbrev pub verified_entry : Claim → Asset → RecipientView → AuditEntry
  verified_entry c a recipient = won_entry "claim.verified" "verified" c a recipient.protocol (
      field "assetType" (string (type_text a.asset_type)) (
        field "amount" (string (decimal (amount_or_zero a.amount)))
          (field "settlement" (optional_json (compute_settlement ctx a)) end)))

  abbrev pub win_as :
      CompleteStatus
      → ClaimStatus
      → AssetStatus
      → Claim
      → Asset
      → RecipientView
      → ClaimProof
      → AuditEntry
      → Db
      → Exit CompleteResult
  win_as status claim_status asset_status c a recipient proof entry db =
      commit_unique
        (won_db claim_status asset_status c a proof
          (stored_salt recipient.protocol proof.salt_length) (compute_settlement ctx a) entry db)
        (result_of c status (compute_settlement ctx a) false)

  abbrev pub win : Claim → Asset → RecipientView → ClaimProof → Db → Exit CompleteResult
  win c a recipient proof db =
      if is_big_claim (amount_or_zero a.amount) (sum_recipient_available a.recipient_id db.assets)
      then win_as pending_review ClaimStatus.pending_review AssetStatus.pending_review c a recipient
          proof (pending_review_entry c a recipient db) db
      else win_as verified ClaimStatus.verified AssetStatus.claiming c a recipient proof
          (verified_entry c a recipient) db

  -- rejectClaim, COMMIT and the error.
  abbrev pub reject : Claim → String → String → ApiError → Db → Exit CompleteResult
  reject c code reason e db = commit (reject_claim ctx c code reason db) (throws e)

  abbrev pub on_verdict :
      Claim → Asset → RecipientView → ClaimProof → Db → Outcome VerifiedProof → Exit CompleteResult
  on_verdict c a recipient proof db (ok v) = win c a recipient proof db
  on_verdict c a recipient proof db (rejected e) =
      reject c (code_text e.code) e.message (from_verification_error e) db
  on_verdict c a recipient proof db Outcome.fault = rollback fault

  abbrev pub challenge_nonce_of : Claim → Bytes
  challenge_nonce_of c = get_or c.challenge_nonce []

  abbrev pub on_proof :
      Claim → Asset → RecipientView → Db → Checked ClaimProof → Exit CompleteResult
  on_proof c a recipient db (refuses e) = reject c e.code e.message e db
  on_proof c a recipient db (passes proof) =
      on_verdict c a recipient proof db
        (verify_with service recipient a (challenge_nonce_of c) proof)

  abbrev pub on_view :
      Claim → ProofInput → Option String → Asset → Db → Checked RecipientView → Exit CompleteResult
  on_view c p nonce_hex a db (refuses e) = rollback (throws e)
  on_view c p nonce_hex a db (passes recipient) =
      on_proof c a recipient db (build_proof service p c.claimant recipient.protocol nonce_hex)

  abbrev pub on_recipient :
      Claim → ProofInput → Option String → Asset → Db → Option Recipient → Exit CompleteResult
  on_recipient c p nonce_hex a db none =
      reject c "RECIPIENT_NOT_FOUND" "asset references unknown recipient"
        (api_error 404 "RECIPIENT_NOT_FOUND" "recipient missing") db
  on_recipient c p nonce_hex a db (some row) = on_view c p nonce_hex a db (to_recipient_view row)

  abbrev pub on_asset_status :
      Claim → ProofInput → Option String → Asset → Db → AssetStatus → Exit CompleteResult
  on_asset_status c p nonce_hex a db AssetStatus.available =
      on_recipient c p nonce_hex a db (find_recipient a.recipient_id db.recipients)
  on_asset_status c p nonce_hex a db status =
      let e = unavailable_error status in reject c e.code e.message e db

  abbrev pub on_asset : Claim → ProofInput → Option String → Db → Option Asset → Exit CompleteResult
  on_asset c p nonce_hex db none =
      reject c "ASSET_NOT_FOUND" "asset vanished"
        (api_error 404 "ASSET_NOT_FOUND" "asset no longer exists") db
  on_asset c p nonce_hex db (some a) = on_asset_status c p nonce_hex a db a.status

  -- A challenge without an expiry, or past it.
  abbrev pub is_past : Option ℕ → Bool
  is_past none = true
  is_past (some at) = leb at ctx.now

  -- `input.claimant && input.claimant !== claim.claimant`
  abbrev pub echoes_other : Option String → String → Bool
  echoes_other none claimant = false
  echoes_other (some echoed) claimant = not (str_eq echoed claimant)

  abbrev pub expire : Claim → Db → Exit CompleteResult
  expire c db =
      commit
        (record db {
          claims = update_claim c.claim_id (expired_row ctx) db.claims;
          audit =
              append_audit ctx db.audit
                (record (claim_entry "claim.expired" c "expired") { claimant = some c.claimant });
        })
        (throws (api_error 409 "CHALLENGE_EXPIRED" "claim challenge expired"))

  unfoldable pub complete_claiming : CompleteInput → ProofInput → Claim → Db → Exit CompleteResult
  complete_claiming input p c db =
      if echoes_other (truthy input.claimant) c.claimant
      then reject c "INVALID_FIELD_VALUE" "claimant echo != bound claimant"
          (api_error 422 "INVALID_FIELD_VALUE" "claimant does not match the initiated claim") db
      else if is_past c.challenge_expires_at
      then expire c db
      else on_asset c p input.nonce_hex db (find_asset c.asset_key db.assets)

  abbrev pub replay_exit : Claim → CompleteStatus → Db → Response (Unit {0}) → Exit CompleteResult
  replay_exit c status db (returns done) =
      commit db (returns (result_of c status c.settlement true))
  replay_exit c status db (throws e) = rollback (throws e)
  replay_exit c status db fault = rollback fault

  abbrev pub replay : CompleteInput → ProofInput → Claim → CompleteStatus → Db → Exit CompleteResult
  replay input p c status db =
      replay_exit c status db (verify_replay_proof service c p input.nonce_hex db)

  abbrev pub not_completable : String → Db → Exit CompleteResult
  not_completable status db =
      commit db (throws (api_error 409 "CLAIM_STATE" ("claim not completable from " +s status)))

  abbrev pub by_claim_status :
      CompleteInput → ProofInput → Claim → Db → ClaimStatus → Exit CompleteResult
  by_claim_status input p c db ClaimStatus.verified = replay input p c verified db
  by_claim_status input p c db ClaimStatus.dispatching = replay input p c verified db
  by_claim_status input p c db ClaimStatus.confirmed = replay input p c verified db
  by_claim_status input p c db ClaimStatus.pending_review = replay input p c pending_review db
  by_claim_status input p c db ClaimStatus.rejected =
      let code = get_or c.error "REJECTED" in
      commit db
        (throws (api_error (status_for_stored_code code) code "claim was previously rejected"))
  by_claim_status input p c db ClaimStatus.expired =
      commit db (throws (api_error 409 "CHALLENGE_EXPIRED" "claim challenge expired"))
  by_claim_status input p c db ClaimStatus.failed = not_completable "failed" db
  by_claim_status input p c db ClaimStatus.needs_operator = not_completable "needs_operator" db
  by_claim_status input p c db ClaimStatus.awaiting_manual_vault_delivery =
      not_completable "awaiting_manual_vault_delivery" db
  by_claim_status input p c db ClaimStatus.claiming = complete_claiming input p c db

  abbrev pub on_claim : CompleteInput → ProofInput → Db → Option Claim → Exit CompleteResult
  on_claim input p db none = rollback (throws (api_error 404 "CLAIM_NOT_FOUND" "no such claim"))
  on_claim input p db (some c) = by_claim_status input p c db c.status

  -- `none` where the request names neither.
  abbrev pub lookup_claim : Option String → Option String → Db → Option (Option Claim)
  lookup_claim (some id) key db = some (find_claim id db.claims)
  lookup_claim none (some key) db = some (find_by_idempotency_key key db.claims)
  lookup_claim none none db = none

  abbrev pub with_proof :
      CompleteInput → Db → Option (Option Claim) → Option ProofInput → Exit CompleteResult
  with_proof input db none proof =
      rollback (throws (api_error 400 "INVALID_REQUEST" "provide claimId or idempotencyKey"))
  with_proof input db (some found) none =
      rollback (throws (api_error 400 "INVALID_REQUEST" "proof required"))
  with_proof input db (some found) (some p) = on_claim input p db found

  unfoldable pub complete_claim : CompleteInput → Db → Db × Response CompleteResult
  complete_claim input db = finish db (
      with_proof input db (lookup_claim (truthy input.claim_id) (truthy input.idempotency_key) db)
        input.proof)
