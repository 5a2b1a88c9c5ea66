-- ===== src/Verify/Ethereum.antt =====
-- packages/claims/src/verify/ethereum.ts: the proof of an Ethereum recipient, a personal_sign
-- signature over the rebuilt message from which the stored address is recovered.
use ar_io_solana_attestor.Prelude.{
  ℕ, zero, suc, ◌-◌, Option, none, some, [], ◌∷◌, ◌++◌, Bool, true, false, not, ◌||◌, ltb, ◌==◌,
  if◌then◌else◌, length, get_elem?, take, drop,
}
use mathlib.Core.Option.{get_or}
use ar_io_solana_attestor.Audit.{Bytes}
use ar_io_solana_attestor.Audit.Canonical.{decimal, ◌+s◌}
use ar_io_solana_attestor.Verify.{
  Crypto, Outcome, ok, ◌>>=◌, fail_with, when◌throw◌with◌else◌, protocol_mismatch, nonce_mismatch,
  invalid_recovery_id, ecdsa_high_s, ethereum_address_mismatch, signature_verification_failed,
  VerifiedProof, VerifyArgs, protocol_ethereum, units,
}
use ar_io_solana_attestor.Verify.Canonical.{digits, build_canonical_from_ledger}
use ar_io_solana_attestor.Verify.Arweave.{ledger_claim, echo_differs}

abbrev pub ethereum_pubkey_len : ℕ
ethereum_pubkey_len = 20

abbrev pub ethereum_sig_len : ℕ
ethereum_sig_len = 65

-- "\x19Ethereum Signed Message:\n"
abbrev pub eip191_prefix : Bytes
eip191_prefix = 25 ∷ units "Ethereum Signed Message:" ++ 10 ∷ []

abbrev pub secp256k1_n_half : Bytes
secp256k1_n_half =
    127 ∷ 255 ∷ 255 ∷ 255 ∷ 255 ∷ 255 ∷ 255 ∷ 255 ∷ 255 ∷ 255 ∷ 255 ∷ 255 ∷ 255 ∷ 255 ∷ 255 ∷ 255
    ∷ 93 ∷ 87 ∷ 110 ∷ 115 ∷ 87 ∷ 164 ∷ 80 ∷ 29 ∷ 223 ∷ 233 ∷ 47 ∷ 70 ∷ 104 ∷ 27 ∷ 32 ∷ 160 ∷ []

-- The loop of isSLow over the bytes of s and of the half order: `decided` and `answer`.
unfoldable pub s_low_loop : Bool → Bool → Bytes → Bytes → Bool
s_low_loop true answer (x ∷ s) (y ∷ half) = s_low_loop true answer s half
s_low_loop false answer (x ∷ s) (y ∷ half) =
    if ltb x y
    then s_low_loop true true s half
    else if ltb y x
    then s_low_loop true false s half
    else s_low_loop false answer s half
s_low_loop _ answer _ _ = answer

unfoldable pub is_s_low : Bytes → Bool
is_s_low s = s_low_loop false true s secp256k1_n_half

-- The accumulator of addressesEqual over the bytes from i on; a byte past the end reads as 0.
unfoldable pub address_differs : ℕ → ℕ → Bool → Bytes → Bytes → Bool
address_differs zero i diff a b = diff
address_differs (suc fuel) i diff a b =
    address_differs fuel (suc i)
      (diff || not (get_or (get_elem? a i) 0 == get_or (get_elem? b i) 0)) a b

unfoldable pub addresses_equal : Bytes → Bytes → Bool
addresses_equal a b = not (address_differs ethereum_pubkey_len 0 false a b)

-- Legacy 27 and 28, and 0 and 1.
abbrev pub recovery_id : ℕ → Option ℕ
recovery_id v =
    if v == 0 || v == 1 then some v else if v == 27 || v == 28 then some (v - 27) else none

abbrev pub subarray : ℕ → ℕ → Bytes → Bytes
subarray start stop b = take (stop - start) (drop start b)

module _ (crypto : Crypto) where
  unfoldable pub eip191_hash : Bytes → Bytes
  eip191_hash message = crypto.keccak_256 (eip191_prefix ++ digits (length message) ++ message)

  unfoldable pub derive_ethereum_address : Bytes → Outcome Bytes
  derive_ethereum_address pubkey =
      when not (length pubkey == 65) || not (get_or (get_elem? pubkey 0) 0 == 4)
      throw signature_verification_failed
      with "recovered pubkey malformed"
      else ok (subarray 12 32 (crypto.keccak_256 (drop 1 pubkey)))

  abbrev pub compare_address : Bytes → Bytes → Outcome (Unit {0})
  compare_address expected derived =
      if addresses_equal derived expected
      then ok tt
      else fail_with ethereum_address_mismatch
          "recovered address does not match the stored recipient"

  abbrev pub compare_recovered : Bytes → Bytes → Bytes → ℕ → Option Bytes → Outcome (Unit {0})
  compare_recovered expected hash compact bit none =
      fail_with signature_verification_failed
        ("secp256k1 recover failed: " +s crypto.recover_error hash compact bit)
  compare_recovered expected hash compact bit (some pubkey) =
      derive_ethereum_address pubkey >>= compare_address expected

  abbrev pub with_recovery_id : Bytes → Bytes → Bytes → Option ℕ → Outcome (Unit {0})
  with_recovery_id hash signature expected none =
      fail_with invalid_recovery_id
        ("recovery id v=" +s decimal (get_or (get_elem? signature 64) 0) +s " not in {0,1,27,28}")
  with_recovery_id hash signature expected (some bit) =
      when not (is_s_low (subarray 32 64 signature))
      throw ecdsa_high_s
      with "signature s > secp256k1_n/2 (malleable)"
      else compare_recovered expected hash (subarray 0 64 signature) bit
          (crypto.recover hash (subarray 0 64 signature) bit)

  unfoldable pub verify_personal_sign : Bytes → Bytes → Bytes → Outcome (Unit {0})
  verify_personal_sign canonical_message signature expected =
      when not (length signature == ethereum_sig_len)
      throw signature_verification_failed
      with ("signature must be 65 bytes, got " +s decimal (length signature))
      else when not (length expected == ethereum_pubkey_len)
      throw signature_verification_failed
      with ("expected address must be 20 bytes, got " +s decimal (length expected))
      else with_recovery_id (eip191_hash canonical_message) signature expected
          (recovery_id (get_or (get_elem? signature 64) 0))

  abbrev pub ethereum_verified : VerifyArgs → Bytes → Unit {0} → Outcome VerifiedProof
  ethereum_verified args message done = ok (record {
    canonical_message = message;
    protocol = protocol_ethereum;
    recipient_id = args.recipient.recipient_id;
    claimant = args.proof.claimant;
  })

  abbrev pub ethereum_checked : VerifyArgs → Bytes → Outcome VerifiedProof
  ethereum_checked args message =
      verify_personal_sign message args.proof.signature args.recipient.recipient_pubkey
      >>= ethereum_verified args message

  unfoldable pub verify_ethereum_proof : VerifyArgs → Outcome VerifiedProof
  verify_ethereum_proof args =
      let expected = args.recipient.recipient_pubkey in
      when not (args.recipient.protocol == protocol_ethereum)
      throw protocol_mismatch
      with ("recipient protocol " +s decimal args.recipient.protocol +s " != ethereum (1)")
      else when not (length expected == ethereum_pubkey_len)
      throw signature_verification_failed
      with ("stored ethereum recipient must be 20 bytes, got " +s decimal (length expected))
      else when echo_differs args.proof.nonce args.asset.nonce
      throw nonce_mismatch
      with "supplied nonce != asset current nonce"
      else (build_canonical_from_ledger crypto (ledger_claim args) >>= ethereum_checked args)
