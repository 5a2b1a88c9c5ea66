-- ===== src/Examples/Services.antt =====
-- The claims service at one recipient with one token.
use ar_io_solana_attestor.Prelude.{
  true, ℕ, suc, ◌≤◌, ◌≡◌, refl, none, some, List, [], ◌∷◌, false, length, replicate,
}
use ar_io_solana_attestor.Audit.{Bytes, Context}
use ar_io_solana_attestor.Merkle.Hex.{to_hex, from_hex, parse_byte}
use ar_io_solana_attestor.Store.{
  token, ClaimStatus, AssetStatus, Claim, Asset, Recipient, RecipientStatus, Db, find_claim,
  find_asset, update_claim, has_live, one_live_claim_per_asset,
}
use ar_io_solana_attestor.Examples.Fixtures.{sample_ctx, sample_claim, sample_asset}
use ar_io_solana_attestor.Examples.Verifications.{stand_in, token_key}
use ar_io_solana_attestor.Verify.{units, when◌throw◌with◌else◌}
use ar_io_solana_attestor.Verify.Canonical.{
  EscrowClaim, escrow_lines, join_lines, all_hex, decode_base58_checked, decode_hex_checked,
  escrow_canonical, build_escrow_claim_message, build_canonical_from_ledger,
}
use ar_io_solana_attestor.Verify.Ethereum.{
  s_low_loop, is_s_low, address_differs, addresses_equal, eip191_hash, derive_ethereum_address,
  verify_personal_sign, verify_ethereum_proof,
}
use ar_io_solana_attestor.Verify.Claim.{verify_claim}
use ar_io_solana_attestor.Dispatch.{any_eq}
use ar_io_solana_attestor.Dispatch.Transitions.{finalize}
use ar_io_solana_attestor.Service.{
  is_claimant, Service, returns, api_error, find_recipient, sum_recipient_available,
}
use ar_io_solana_attestor.Service.Proof.{CompleteInput, build_proof}
use ar_io_solana_attestor.Service.Complete.{
  CompleteResult, verified, complete_claiming, complete_claim,
}
use ar_io_solana_attestor.Service.Errors.{Untouched, complete_claim-throws}
use ar_io_solana_attestor.Service.Granted.{Granted}
use ar_io_solana_attestor.Service.Retry.{complete_claim_retry}
use ar_io_solana_attestor.Service.Initiate.{InitiateInput, InitiateResult, initiate_claim}
use ar_io_solana_attestor.Service.Signed.{SignedAsOffered, initiate_claim-SignedAsOffered}
use ar_io_solana_attestor.Service.Reaper.{due, reap_loop}
use ar_io_solana_attestor.Service.Drained.{Swept, reap_loop-Swept}
use ar_io_solana_attestor.Service.History.{
  Action, complete, reap, dispatch, run_actions, count_wins,
}
use ar_io_solana_attestor.Service.Winner.{count_wins-le}

abbrev sample_service : Service
sample_service = record {
  config = record { challenge_ttl_ms = 600_000; network = 115 ∷ []; big_claim_threshold_mario = 0 };
  crypto = stand_in;
  manually_delivered = [];
  retired_ants = [];
  from_base64url = λ s. [];
  to_base64 = λ b. b;
}

-- A claim whose challenge runs until 2000.
abbrev open_claim : Claim
open_claim = record sample_claim {
  asset_key = token_key;
  status = ClaimStatus.claiming;
  challenge_nonce = some (replicate 32 5);
  challenge_expires_at = some 2000;
}

abbrev open_asset : Asset
open_asset = record sample_asset { asset_key = token_key; status = AssetStatus.available }

abbrev sample_recipient : Recipient
sample_recipient = record {
  recipient_id = "r1";
  protocol = 1;
  source_address = "0x40";
  recipient_pubkey = some (replicate 20 64);
  status = RecipientStatus.open_recipient;
  updated_at = 10;
}

abbrev open_db : Db
open_db = record {
  claims = open_claim ∷ [];
  assets = open_asset ∷ [];
  recipients = sample_recipient ∷ [];
  ant_batches = [];
  audit = record { rows = []; next_seq = 1 };
}

abbrev signed_input : CompleteInput
signed_input = record {
  claim_id = some "c1";
  idempotency_key = none;
  nonce_hex = none;
  claimant = none;
  proof = some (record {
    protocol = "ethereum";
    rsa_signature = none;
    rsa_modulus = none;
    salt_length = none;
    signature_hex =
        some
          "0x010101010101010101010101010101010101010101010101010101010101010101010101010101010101010101010101010101010101010101010101010101011b";
  });
}

abbrev won_result : CompleteResult
won_result = record {
  claim_id = "c1";
  status = verified;
  asset_key = token_key;
  claimant = "wallet1";
  settlement = none;
  idempotent_replay = false;
}

-- At 3000 the challenge is over.
abbrev late_ctx : Context
late_ctx = record sample_ctx { now = 3000 }

complete_claim-throws_example :
    Untouched late_ctx sample_service signed_input open_db
      (complete_claim late_ctx sample_service signed_input open_db).0
unfolding complete_claim complete_claiming find_claim
complete_claim-throws_example =
    complete_claim-throws late_ctx sample_service signed_input open_db
      (api_error 409 "CHALLENGE_EXPIRED" "claim challenge expired") refl

reap_loop-Swept_example :
    (end : Db × ℕ) × ((reap_loop late_ctx
          (suc (length (due 3000 open_db.claims)))
          3000
          none
          0
          open_db
        ≡ some end)
      × Swept late_ctx 3000 open_db end.0)
reap_loop-Swept_example = reap_loop-Swept late_ctx 3000 none open_db

-- The claim is completed twice, and swept in between.
abbrev busy_history : List (Context × Action)
busy_history =
    (sample_ctx, complete signed_input)
    ∷ (late_ctx, reap 3000 none)
    ∷ (late_ctx, complete signed_input)
    ∷ (late_ctx, dispatch (finalize "c1" "sig1"))
    ∷ []

count_wins-le_example : count_wins token_key (run_actions sample_service busy_history open_db).1 ≤ 1
count_wins-le_example = count_wins-le sample_service token_key busy_history open_db

complete_claim_retry_example :
    complete_claim late_ctx sample_service signed_input
      (complete_claim sample_ctx sample_service signed_input open_db).0
    ≡ (
      (complete_claim sample_ctx sample_service signed_input open_db).0,
      returns (record won_result { idempotent_replay = true }),
    )
unfolding complete_claim complete_claiming find_claim find_asset find_recipient build_proof
    update_claim one_live_claim_per_asset has_live sum_recipient_available verify_claim
    verify_ethereum_proof verify_personal_sign when◌throw◌with◌else◌ is_s_low s_low_loop
    addresses_equal address_differs derive_ethereum_address eip191_hash build_canonical_from_ledger
    decode_base58_checked decode_hex_checked escrow_canonical build_escrow_claim_message units
    all_hex from_hex parse_byte
complete_claim_retry_example =
    complete_claim_retry sample_ctx late_ctx sample_service signed_input open_db won_result
      (λ b. refl) refl refl

abbrev offer_input : InitiateInput
offer_input = record {
  asset_key = token_key;
  claimant = "22222222222222222222222222222222222222222222";
  idempotency_key = none;
}

abbrev empty_db : Db
empty_db = record open_db { claims = [] }

abbrev challenge : Bytes
challenge = replicate 32 5

abbrev offered_message : EscrowClaim
offered_message = record {
  asset_type = token;
  asset_id = replicate 32 0;
  amount = 50;
  claimant = replicate 32 9;
  nonce = challenge;
  network = 115 ∷ [];
  recipient_pubkey = replicate 20 64;
}

abbrev offered_result : InitiateResult
offered_result = record {
  claim_id = "c1";
  asset_key = token_key;
  claimant = offer_input.claimant;
  protocol = "ethereum";
  recipient_id = "r1";
  network = 115 ∷ [];
  nonce_hex = to_hex challenge;
  canonical_message_hex = to_hex (join_lines (escrow_lines stand_in offered_message));
  canonical_message_base64 = join_lines (escrow_lines stand_in offered_message);
  expires_at = sample_ctx.iso 601_000;
}

initiate_claim-SignedAsOffered_example :
    SignedAsOffered sample_ctx sample_service challenge "c1" offer_input offered_result
unfolding any_eq initiate_claim is_claimant complete_claim complete_claiming find_claim find_asset
    find_recipient build_proof update_claim one_live_claim_per_asset has_live
    sum_recipient_available verify_claim verify_ethereum_proof verify_personal_sign
    when◌throw◌with◌else◌ is_s_low s_low_loop addresses_equal address_differs
    derive_ethereum_address eip191_hash build_canonical_from_ledger decode_base58_checked
    decode_hex_checked escrow_canonical build_escrow_claim_message units all_hex from_hex parse_byte
initiate_claim-SignedAsOffered_example =
    initiate_claim-SignedAsOffered sample_ctx late_ctx sample_service challenge "c1" offer_input
      signed_input empty_db offered_result (record won_result { claimant = offer_input.claimant })
      (λ b. refl) refl refl refl refl refl
