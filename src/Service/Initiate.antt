-- ===== src/Service/Initiate.antt =====
-- packages/claims/src/api/service.ts: initiateClaim, in one transaction. The random challenge and the
-- claim's generated key are arguments. What is thrown is as toApiError of errors.ts maps it.
use ar_io_solana_attestor.Prelude.{
  ℕ, ◌+◌, String, Option, none, some, [], ◌∷◌, ◌++◌, Bool, true, false, not, ◌||◌, str_eq,
  if◌then◌else◌,
}
use mathlib.Core.Option.{get_or}
use ar_io_solana_attestor.Audit.{Bytes, Context, AuditEntry, append_audit}
use ar_io_solana_attestor.Audit.Canonical.{end, field, string}
use ar_io_solana_attestor.Merkle.Hex.{to_hex}
use ar_io_solana_attestor.Store.{
  ClaimStatus, AssetStatus, Claim, Asset, Recipient, Db, find_claim, find_asset,
}
use ar_io_solana_attestor.Verify.{Outcome, ok, rejected, RecipientView}
use ar_io_solana_attestor.Verify.Canonical.{build_canonical_from_ledger}
use ar_io_solana_attestor.Dispatch.{entry_of}
use ar_io_solana_attestor.Service.{
  api_error, Checked, passes, refuses, Response, returns, throws, fault, Exit, commit, rollback,
  finish, Service, is_delisted, truthy, protocol_name, is_claimant, to_asset_view,
  to_recipient_view, hidden_asset_error, unavailable_error, from_verification_error,
  find_by_idempotency_key, find_recipient,
}

pub record InitiateInput : Type 0 where
  pub asset_key : String
  pub claimant : String
  pub idempotency_key : Option String

-- The constant field `status` is left out.
pub record InitiateResult : Type 0 where
  pub claim_id : String
  pub asset_key : String
  pub claimant : String
  pub protocol : String
  pub recipient_id : String
  pub network : Bytes
  pub nonce_hex : Bytes
  pub canonical_message_hex : Bytes
  pub canonical_message_base64 : Bytes
  pub expires_at : String

module _ (ctx : Context) (service : Service) where
  abbrev pub result_named : Claim → String → Bytes → ℕ → Checked String → Response InitiateResult
  result_named c recipient_id challenge expires (refuses e) = throws e
  result_named c recipient_id challenge expires (passes name) = returns (record {
    claim_id = c.claim_id;
    asset_key = c.asset_key;
    claimant = c.claimant;
    protocol = name;
    recipient_id = recipient_id;
    network = service.config.network;
    nonce_hex = to_hex challenge;
    canonical_message_hex = to_hex c.canonical_message;
    canonical_message_base64 = service.to_base64 c.canonical_message;
    expires_at = ctx.iso expires;
  })

  abbrev pub result_with : Claim → Option Bytes → Option ℕ → Response InitiateResult
  result_with c (some challenge) (some expires) =
      result_named c (get_or c.recipient_id "") challenge expires
        (protocol_name (get_or c.protocol 0))
  result_with c _ _ =
      throws (api_error 409 "CLAIM_NOT_INITIATABLE" "existing claim has no challenge")

  unfoldable pub initiate_result_from_row : Claim → Response InitiateResult
  initiate_result_from_row c = result_with c c.challenge_nonce c.challenge_expires_at

  module _ (challenge_nonce : Bytes) (claim_id : String) (input : InitiateInput) where
    abbrev pub new_claim : Asset → Recipient → Bytes → Claim
    new_claim asset recipient canonical = record {
      claim_id = claim_id;
      asset_key = asset.asset_key;
      claimant = input.claimant;
      canonical_message = canonical;
      user_signature = none;
      salt_length = none;
      settlement = none;
      status = ClaimStatus.claiming;
      tx_signatures = none;
      idempotency_key = input.idempotency_key;
      error = none;
      created_at = ctx.now;
      verified_at = none;
      confirmed_at = none;
      updated_at = ctx.now;
      challenge_nonce = some challenge_nonce;
      challenge_expires_at = some (ctx.now + service.config.challenge_ttl_ms);
      recipient_id = some recipient.recipient_id;
      protocol = some recipient.protocol;
      dispatch_signature = none;
      dispatch_blockhash = none;
      dispatch_last_valid_bh = none;
      dispatch_started_at = none;
      settlement_amount = none;
      approved_at = none;
      approved_by = none;
      dispatch_resign_count = 0;
      ant_batch_id = none;
      ant_reserved_at = none;
      ant_reserved_txid = none;
      ant_reserved_blockhash = none;
      ant_reserved_last_valid_bh = none;
      ant_reserved_wire = none;
    }

    abbrev pub initiate_entry : Claim → Recipient → AuditEntry
    initiate_entry c recipient =
        record (entry_of "claim.initiate" c.claim_id c.asset_key "claiming") {
          claimant = some c.claimant;
          recipient_id = some recipient.recipient_id;
          protocol = some recipient.protocol;
          detail = some (
              field "expiresAt" (string (ctx.iso (ctx.now + service.config.challenge_ttl_ms))) end);
        }

    abbrev pub inserted : Claim → Recipient → Db → Db
    inserted c recipient db = record db {
      claims = db.claims ++ c ∷ [];
      audit = append_audit ctx db.audit (initiate_entry c recipient);
    }

    abbrev pub taken : {A : Type 0} → Option A → Bool
    taken none = false
    taken (some a) = true

    -- The primary key, and the unique column `idempotency_key`, refuse the row: 23505.
    abbrev pub conflicts : Option String → Db → Bool
    conflicts none db = taken (find_claim claim_id db.claims)
    conflicts (some key) db =
        taken (find_claim claim_id db.claims) || taken (find_by_idempotency_key key db.claims)

    -- The handler of 23505, after the rollback.
    abbrev pub existing : Option Claim → Response InitiateResult
    existing none =
        throws (api_error 409 "IDEMPOTENCY_KEY_REUSED" "idempotency key is already in use")
    existing (some c) = initiate_result_from_row c

    abbrev pub on_conflict : Option String → Db → Response InitiateResult
    on_conflict none db = fault
    on_conflict (some key) db = existing (find_by_idempotency_key key db.claims)

    abbrev pub insert : Asset → Recipient → Db → Outcome Bytes → Exit InitiateResult
    insert asset recipient db (rejected e) = rollback (throws (from_verification_error e))
    insert asset recipient db Outcome.fault = rollback fault
    insert asset recipient db (ok canonical) =
        let c = new_claim asset recipient canonical in
        if conflicts input.idempotency_key db
        then rollback (on_conflict (truthy input.idempotency_key) db)
        else commit (inserted c recipient db) (
            result_named c recipient.recipient_id challenge_nonce
              (ctx.now + service.config.challenge_ttl_ms) (protocol_name recipient.protocol))

    abbrev pub with_view : Asset → Recipient → Db → Checked RecipientView → Exit InitiateResult
    with_view asset recipient db (refuses e) = rollback (throws e)
    with_view asset recipient db (passes view) = insert asset recipient db (
        build_canonical_from_ledger service.crypto (record {
          recipient = view;
          asset = to_asset_view asset challenge_nonce;
          claimant = input.claimant;
          nonce = challenge_nonce;
          network = service.config.network;
        }))

    abbrev pub with_recipient : Asset → Db → Option Recipient → Exit InitiateResult
    with_recipient asset db none =
        rollback
          (throws (api_error 404 "RECIPIENT_NOT_FOUND" "asset references an unknown recipient"))
    with_recipient asset db (some row) = with_view asset row db (to_recipient_view row)

    abbrev pub by_status : Asset → Db → AssetStatus → Exit InitiateResult
    by_status asset db AssetStatus.available =
        with_recipient asset db (find_recipient asset.recipient_id db.recipients)
    by_status asset db status = rollback (throws (unavailable_error status))

    abbrev pub with_asset : Db → Option Asset → Exit InitiateResult
    with_asset db none =
        rollback (throws (api_error 404 "ASSET_NOT_FOUND" "no asset with that key"))
    with_asset db (some asset) =
        if is_delisted service input.asset_key
        then rollback (throws hidden_asset_error)
        else by_status asset db asset.status

    abbrev pub fresh : Db → Exit InitiateResult
    fresh db = with_asset db (find_asset input.asset_key db.assets)

    -- The claim that the idempotency key already names.
    abbrev pub reuse : Db → Option Claim → Exit InitiateResult
    reuse db none = fresh db
    reuse db (some c) =
        if not (str_eq c.asset_key input.asset_key)
        then rollback (
            throws (
              api_error 409 "IDEMPOTENCY_KEY_REUSED"
                "idempotency key already used for a different asset"))
        else commit db (initiate_result_from_row c)

    abbrev pub by_key : Db → Option String → Exit InitiateResult
    by_key db none = fresh db
    by_key db (some key) = reuse db (find_by_idempotency_key key db.claims)

    unfoldable pub initiate_claim : Db → Db × Response InitiateResult
    initiate_claim db =
        if not (is_claimant input.claimant)
        then (
          db,
          throws (api_error 400 "INVALID_REQUEST" "claimant must be a base58 Solana address"),
        )
        else if str_eq input.asset_key ""
        then (db, throws (api_error 400 "INVALID_REQUEST" "assetKey required"))
        else finish db (by_key db (truthy input.idempotency_key))
