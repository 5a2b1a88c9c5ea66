-- ===== src/Verify/Arweave.antt =====
-- packages/claims/src/verify/arweave.ts and packages/canonical/src/verify-rsa-pss.ts: the proof of an
-- Arweave recipient, an RSA-PSS signature over the rebuilt message under the stored modulus.
use ar_io_solana_attestor.Prelude.{
  ℕ, String, Option, none, some, ◌∷◌, Bool, true, false, not, ◌||◌, ltb, ◌==◌, if◌then◌else◌,
  length,
}
use ar_io_solana_attestor.Audit.{Bytes}
use ar_io_solana_attestor.Audit.Canonical.{decimal, ◌+s◌}
use ar_io_solana_attestor.Verify.{
  Crypto, Outcome, ok, ◌>>=◌, fail_with, when◌throw◌with◌else◌, protocol_mismatch, nonce_mismatch,
  rsa_signature_invalid, unsupported_salt_length, modulus_mismatch, recipient_id_mismatch,
  signature_verification_failed, VerifiedProof, VerifyArgs, protocol_arweave,
}
use ar_io_solana_attestor.Verify.Canonical.{
  LedgerClaim, derive_recipient_id_b64url, build_canonical_from_ledger,
}

abbrev pub rsa_4096_bytes : ℕ
rsa_4096_bytes = 512

-- The accumulator `diff |= a[i] ^ b[i]`: has a difference been seen?
unfoldable pub differs : Bool → Bytes → Bytes → Bool
differs diff (x ∷ a) (y ∷ b) = differs (diff || not (x == y)) a b
differs diff _ _ = diff

unfoldable pub bytes_equal : Bytes → Bytes → Bool
bytes_equal a b = if length a == length b then not (differs false a b) else false

pub data RsaPssErrorCode : Type 0 where
  modulus_wrong_length signature_wrong_length invalid_salt_length : RsaPssErrorCode
  invalid_modulus : RsaPssErrorCode

pub data RsaPssResult : Type 0 where
  valid : Bool → RsaPssResult
  rsa_pss_error : (code : RsaPssErrorCode) (message : String) → RsaPssResult

module _ (crypto : Crypto) where
  abbrev pub checked_key : Bytes → Option Bool → RsaPssResult
  checked_key modulus none =
      rsa_pss_error invalid_modulus ("JWK import failed: " +s crypto.import_error modulus)
  checked_key modulus (some answer) = valid answer

  unfoldable pub verify_rsa_pss : Bytes → Bytes → Bytes → ℕ → RsaPssResult
  verify_rsa_pss message signature modulus salt_length =
      if not (length signature == rsa_4096_bytes)
      then rsa_pss_error signature_wrong_length
          ("expected 512 bytes, got " +s decimal (length signature))
      else if ltb 32 salt_length
      then rsa_pss_error invalid_salt_length ("salt must be 0..=32, got " +s decimal salt_length)
      else if not (length modulus == rsa_4096_bytes)
      then rsa_pss_error modulus_wrong_length
          ("expected 512 bytes, got " +s decimal (length modulus))
      else checked_key modulus (crypto.rsa_pss message signature modulus salt_length)

  -- What is left of verifyArweaveProof once the message is rebuilt and its signature tested.
  abbrev pub rsa_verdict : VerifyArgs → Bytes → RsaPssResult → Outcome VerifiedProof
  rsa_verdict args message (rsa_pss_error invalid_salt_length why) =
      fail_with unsupported_salt_length why
  rsa_verdict args message (rsa_pss_error _ why) = fail_with signature_verification_failed why
  rsa_verdict args message (valid false) =
      fail_with rsa_signature_invalid
        "RSA-PSS signature does not verify under the recipient modulus"
  rsa_verdict args message (valid true) = ok (record {
    canonical_message = message;
    protocol = protocol_arweave;
    recipient_id = args.recipient.recipient_id;
    claimant = args.proof.claimant;
  })

-- The arguments of the rebuild: the claim's wallet and the asset's nonce.
abbrev pub ledger_claim : VerifyArgs → LedgerClaim
ledger_claim args = record {
  recipient = args.recipient;
  asset = args.asset;
  claimant = args.proof.claimant;
  nonce = args.asset.nonce;
  network = args.network;
}

-- `proof.saltLength ?? 32`
abbrev pub salt_or_default : Option ℕ → ℕ
salt_or_default none = 32
salt_or_default (some n) = n

-- An echoed value, where there is one, is the expected one.
abbrev pub echo_differs : Option Bytes → Bytes → Bool
echo_differs none expected = false
echo_differs (some echoed) expected = not (bytes_equal echoed expected)

module _ (crypto : Crypto) where
  abbrev pub rsa_checked : VerifyArgs → Bytes → Outcome VerifiedProof
  rsa_checked args message = rsa_verdict crypto args message (
      verify_rsa_pss crypto message args.proof.signature args.recipient.recipient_pubkey
        (salt_or_default args.proof.salt_length))

  unfoldable pub verify_arweave_proof : VerifyArgs → Outcome VerifiedProof
  verify_arweave_proof args =
      let modulus = args.recipient.recipient_pubkey in
      let derived_id = derive_recipient_id_b64url crypto modulus in
      let salt = salt_or_default args.proof.salt_length in
      when not (args.recipient.protocol == protocol_arweave)
      throw protocol_mismatch
      with ("recipient protocol " +s decimal args.recipient.protocol +s " != arweave (0)")
      else when not (length modulus == rsa_4096_bytes)
      throw signature_verification_failed
      with ("arweave recipient modulus must be 512 bytes, got " +s decimal (length modulus))
      else when not (bytes_equal derived_id args.recipient.recipient_id)
          || not (bytes_equal derived_id args.recipient.source_address)
      throw recipient_id_mismatch
      with "b64url(sha256(modulus)) != stored recipient_id / source_address"
      else when echo_differs args.proof.provided_modulus modulus
      throw modulus_mismatch
      with "client-supplied modulus != stored recipient modulus"
      else when not (salt == 0 || salt == 32)
      throw unsupported_salt_length
      with ("salt length must be 0 or 32, got " +s decimal salt)
      else when not (length args.proof.signature == rsa_4096_bytes)
      throw signature_verification_failed
      with ("signature must be 512 bytes, got " +s decimal (length args.proof.signature))
      else when echo_differs args.proof.nonce args.asset.nonce
      throw nonce_mismatch
      with "supplied nonce != asset current nonce"
      else (build_canonical_from_ledger crypto (ledger_claim args) >>= rsa_checked args)
