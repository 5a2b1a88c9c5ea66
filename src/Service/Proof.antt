-- ===== src/Service/Proof.antt =====
-- packages/claims/src/api/service.ts: buildProof, the request's proof as the verifier's, and
-- verifyReplayProof. A field of the request that is not a text is missing.
use ar_io_solana_attestor.Prelude.{
  ℕ, ◌*◌, String, Option, none, some, [], ◌∷◌, Bool, not, ◌&&◌, str_eq, ◌==◌, if◌then◌else◌, length,
}
use mathlib.Core.Option.{get_or}
use ar_io_solana_attestor.Audit.{Bytes}
use ar_io_solana_attestor.Audit.Canonical.{◌+s◌}
use ar_io_solana_attestor.Merkle.Hex.{from_hex}
use ar_io_solana_attestor.Store.{Claim, Asset, Recipient, Db, find_asset}
use ar_io_solana_attestor.Verify.{
  Outcome, ok, rejected, RecipientView, ClaimProof, VerifiedProof, units,
}
use ar_io_solana_attestor.Verify.Canonical.{all_hex}
use ar_io_solana_attestor.Verify.Claim.{verify_claim}
use ar_io_solana_attestor.Service.{
  api_error, Checked, passes, refuses, Response, returns, throws, fault, Service, truthy,
  protocol_num, to_asset_view, to_recipient_view, from_verification_error, find_recipient,
}

pub record ProofInput : Type 0 where
  pub protocol : String
  pub rsa_signature : Option String
  pub rsa_modulus : Option String
  pub salt_length : Option ℕ
  pub signature_hex : Option String

pub record CompleteInput : Type 0 where
  pub claim_id : Option String
  pub idempotency_key : Option String
  pub nonce_hex : Option String
  pub claimant : Option String
  pub proof : Option ProofInput

-- `replace(/^0x/, "")`
abbrev pub strip_0x : Bytes → Bytes
strip_0x (a ∷ b ∷ rest) = if a == 48 && b == 120 then rest else a ∷ b ∷ rest
strip_0x text = text

-- `text.length === 2 * bytes && /^[0-9a-fA-F]+$/.test(text)`
abbrev is_hex_of : ℕ → Bytes → Bool
is_hex_of bytes text = length text == bytes * 2 && all_hex text

-- Buffer.from(text, "hex") at a text that the test has admitted.
abbrev from_hex_checked : Bytes → Bytes
from_hex_checked text = get_or (from_hex text) []

-- The client's echo of the nonce.
abbrev pub echoed_nonce : Option String → Checked (Option Bytes)
echoed_nonce none = passes none
echoed_nonce (some nonce_hex) =
    let clean = strip_0x (units nonce_hex) in
    if is_hex_of 32 clean
    then passes (some (from_hex_checked clean))
    else refuses (api_error 422 "INVALID_FIELD_VALUE" "nonceHex must be 32 bytes hex")

module _ (service : Service) where
  abbrev provided : Option String → Option Bytes
  provided none = none
  provided (some modulus) = some (service.from_base64url modulus)

  abbrev default_salt : Option ℕ → ℕ
  default_salt none = 32
  default_salt (some n) = n

  abbrev pub arweave_proof : ProofInput → String → Option Bytes → Option String → Checked ClaimProof
  arweave_proof p claimant echoed none =
      refuses (api_error 400 "INVALID_REQUEST" "rsaSignatureBase64Url required")
  arweave_proof p claimant echoed (some text) =
      let signature = service.from_base64url text in
      if not (length signature == 512)
      then refuses (api_error 422 "INVALID_FIELD_VALUE" "rsa signature must be 512 bytes")
      else passes (record {
        claimant = claimant;
        signature = signature;
        salt_length = some (default_salt p.salt_length);
        provided_modulus = provided (truthy p.rsa_modulus);
        nonce = echoed;
      })

  abbrev pub ethereum_proof : String → Option Bytes → Option String → Checked ClaimProof
  ethereum_proof claimant echoed none =
      refuses (api_error 400 "INVALID_REQUEST" "signatureHex required")
  ethereum_proof claimant echoed (some text) =
      let hex = strip_0x (units text) in
      if is_hex_of 65 hex
      then passes (record {
        claimant = claimant;
        signature = from_hex_checked hex;
        salt_length = none;
        provided_modulus = none;
        nonce = echoed;
      })
      else refuses (api_error 422 "INVALID_FIELD_VALUE" "eth signature must be 65 bytes hex")

  abbrev pub proof_with_nonce : ProofInput → String → Checked (Option Bytes) → Checked ClaimProof
  proof_with_nonce p claimant (refuses e) = refuses e
  proof_with_nonce p claimant (passes echoed) =
      if str_eq p.protocol "arweave"
      then arweave_proof p claimant echoed p.rsa_signature
      else ethereum_proof claimant echoed p.signature_hex

  abbrev pub proof_of_protocol :
      ProofInput → String → ℕ → Option String → Checked ℕ → Checked ClaimProof
  proof_of_protocol p claimant recipient_protocol nonce_hex (refuses e) = refuses e
  proof_of_protocol p claimant recipient_protocol nonce_hex (passes n) =
      if not (n == recipient_protocol)
      then refuses (
          api_error 422 "PROTOCOL_MISMATCH"
            ("proof protocol " +s p.protocol +s " != recipient protocol"))
      else proof_with_nonce p claimant (echoed_nonce nonce_hex)

  unfoldable pub build_proof : ProofInput → String → ℕ → Option String → Checked ClaimProof
  unfolding units
  build_proof p bound_claimant recipient_protocol echoed_nonce_hex =
      proof_of_protocol p bound_claimant recipient_protocol echoed_nonce_hex
        (protocol_num p.protocol)

  -- verifyClaim with the challenge nonce in place of the ledger's.
  abbrev pub verify_with : RecipientView → Asset → Bytes → ClaimProof → Outcome VerifiedProof
  verify_with recipient asset nonce proof = verify_claim service.crypto (record {
    recipient = recipient;
    asset = to_asset_view asset nonce;
    proof = proof;
    network = service.config.network;
  })

  abbrev pub replay_verdict : Outcome VerifiedProof → Response (Unit {0})
  replay_verdict (ok v) = returns tt
  replay_verdict (rejected e) = throws (from_verification_error e)
  replay_verdict Outcome.fault = fault

  abbrev pub replay_proof : RecipientView → Asset → Bytes → Checked ClaimProof → Response (Unit {0})
  replay_proof recipient asset challenge (refuses e) = throws e
  replay_proof recipient asset challenge (passes proof) =
      replay_verdict (verify_with recipient asset challenge proof)

  abbrev pub replay_recipient :
      Claim
      → ProofInput
      → Option String
      → Asset
      → Bytes
      → Checked RecipientView
      → Response (Unit {0})
  replay_recipient claim p nonce_hex asset challenge (refuses e) = throws e
  replay_recipient claim p nonce_hex asset challenge (passes recipient) =
      replay_proof recipient asset challenge
        (build_proof p claim.claimant recipient.protocol nonce_hex)

  abbrev pub replay_row :
      Claim → ProofInput → Option String → Asset → Bytes → Option Recipient → Response (Unit {0})
  replay_row claim p nonce_hex asset challenge none =
      throws (api_error 404 "RECIPIENT_NOT_FOUND" "recipient missing")
  replay_row claim p nonce_hex asset challenge (some row) =
      replay_recipient claim p nonce_hex asset challenge (to_recipient_view row)

  abbrev pub replay_asset :
      Claim → ProofInput → Option String → Db → Bytes → Option Asset → Response (Unit {0})
  replay_asset claim p nonce_hex db challenge none =
      throws (api_error 404 "ASSET_NOT_FOUND" "asset no longer exists")
  replay_asset claim p nonce_hex db challenge (some asset) =
      replay_row claim p nonce_hex asset challenge (find_recipient asset.recipient_id db.recipients)

  abbrev pub replay_nonce :
      Claim → ProofInput → Option String → Db → Option Bytes → Response (Unit {0})
  replay_nonce claim p nonce_hex db none =
      throws (api_error 422 "INVALID_INPUT" "claim has no challenge to verify against")
  replay_nonce claim p nonce_hex db (some challenge) =
      replay_asset claim p nonce_hex db challenge (find_asset claim.asset_key db.assets)

  unfoldable pub verify_replay_proof : Claim → ProofInput → Option String → Db → Response (Unit {0})
  verify_replay_proof claim p nonce_hex db = replay_nonce claim p nonce_hex db claim.challenge_nonce
