-- ===== src/Verify/Authorized.antt =====
-- What an accepted proof proves: verifyClaim of packages/claims/src/verify.
use ar_io_solana_attestor.Prelude.{
  ℕ, ◌∙◌, ◌≡◌, refl, sym, ap, Option, none, some, true, false, arith, Bool-cases, Option-cases, inl,
  inr, ◌==◌, length, ◌↔◌, ◌⊎◌, get_elem?, take, drop, ==_iff,
}
use mathlib.Core.Path.{subst}
use mathlib.Core.Option.{get_or}
use ar_io_solana_attestor.Audit.{Bytes}
use ar_io_solana_attestor.Verify.{
  Crypto, ok, bind-ok, guard-ok, VerifiedProof, VerifyArgs, protocol_arweave, protocol_ethereum,
}
use ar_io_solana_attestor.Verify.Canonical.{build_canonical_from_ledger}
use ar_io_solana_attestor.Verify.Arweave.{
  ledger_claim, salt_or_default, echo_differs, verify_rsa_pss, rsa_checked, rsa_verdict,
  verify_arweave_proof, valid, rsa_pss_error, RsaPssResult, modulus_wrong_length,
  signature_wrong_length, invalid_salt_length, invalid_modulus,
}
use ar_io_solana_attestor.Verify.Ethereum.{
  addresses_equal, is_s_low, recovery_id, subarray, eip191_hash, derive_ethereum_address,
  verify_personal_sign, with_recovery_id, ethereum_checked, ethereum_verified,
  verify_ethereum_proof, compare_address, compare_recovered,
}
use ar_io_solana_attestor.Verify.Claim.{verify_claim}
use ar_io_solana_attestor.Verify.Comparisons.{
  bytes_equal_iff, addresses_equal_iff, length-subarray, passed, both_passed, same_number,
  either_number,
}

-- An echoed value is absent or the expected one.
abbrev pub EchoOk : Option Bytes → Bytes → Type 0
EchoOk echoed expected = (echoed ≡ none) ⊎ (echoed ≡ some expected)

echo_differs_iff : (e : Option Bytes) (x : Bytes) → (echo_differs e x ≡ false) ↔ EchoOk e x
echo_differs_iff none x = ground arith
echo_differs_iff (some y) x = ground (arith, bytes_equal_iff y x)

ok-inj : (a b : VerifiedProof) → ok a ≡ ok b → a ≡ b
ok-inj a b e = cc

module _ (crypto : Crypto) where
  -- The stored modulus is the recipient's, and the signature over the message verifies under it.
  abbrev pub ArweaveSigned : VerifyArgs → Bytes → Type 0
  ArweaveSigned args message =
      let modulus = args.recipient.recipient_pubkey in
      let salt = salt_or_default args.proof.salt_length in
      (args.recipient.protocol ≡ protocol_arweave)
      × (length modulus ≡ 512)
      × (crypto.base64url (crypto.sha256 modulus) ≡ args.recipient.recipient_id)
      × (crypto.base64url (crypto.sha256 modulus) ≡ args.recipient.source_address)
      × EchoOk args.proof.provided_modulus modulus
      × ((salt ≡ 0) ⊎ (salt ≡ 32))
      × (length args.proof.signature ≡ 512)
      × (crypto.rsa_pss message args.proof.signature modulus salt ≡ some true)

  -- The stored address is recovered from a low-S signature over the EIP-191 hash of the message.
  abbrev pub EthereumSigned : VerifyArgs → Bytes → Type 0
  EthereumSigned args message =
      let signature = args.proof.signature in
      (args.recipient.protocol ≡ protocol_ethereum)
      × (length args.recipient.recipient_pubkey ≡ 20)
      × (length signature ≡ 65)
      × (is_s_low (subarray 32 64 signature) ≡ true)
      × ((bit : ℕ) × ((pubkey : Bytes) × ((recovery_id (get_or (get_elem? signature 64) 0)
                ≡ some bit)
              × (crypto.recover (eip191_hash crypto message) (take 64 signature) bit ≡ some pubkey)
              × (length pubkey ≡ 65)
              × (get_or (get_elem? pubkey 0) 0 ≡ 4)
              × (subarray 12 32 (crypto.keccak_256 (drop 1 pubkey))
                  ≡ args.recipient.recipient_pubkey))))

  abbrev pub Authorized : VerifyArgs → VerifiedProof → Type 0
  Authorized args v =
      (build_canonical_from_ledger crypto (ledger_claim args) ≡ ok v.canonical_message)
      × (v.protocol ≡ args.recipient.protocol)
      × (v.recipient_id ≡ args.recipient.recipient_id)
      × (v.claimant ≡ args.proof.claimant)
      × EchoOk args.proof.nonce args.asset.nonce
      × (ArweaveSigned args v.canonical_message ⊎ EthereumSigned args v.canonical_message)

  verify_rsa_pss-valid :
      (m s n : Bytes) (salt : ℕ)
      → verify_rsa_pss crypto m s n salt ≡ valid true
      → crypto.rsa_pss m s n salt ≡ some true
  unfolding verify_rsa_pss
  verify_rsa_pss-valid m s n salt e = elim (Option-cases (crypto.rsa_pss m s n salt)) [
    | inl missing ↦ absurd (ground arith)
    | inr (answer, found) ↦ ground arith
  ]

  rsa_verdict-ok :
      (args : VerifyArgs) (m : Bytes) (r : RsaPssResult) (v : VerifiedProof)
      → rsa_verdict crypto args m r ≡ ok v
      → (r ≡ valid true)
        × (v.canonical_message ≡ m)
        × (v.protocol ≡ protocol_arweave)
        × (v.recipient_id ≡ args.recipient.recipient_id)
        × (v.claimant ≡ args.proof.claimant)
  rsa_verdict-ok args m (valid true) v e = ground arith
  rsa_verdict-ok args m (valid false) v e = absurd (ground arith)
  rsa_verdict-ok args m (rsa_pss_error modulus_wrong_length why) v e = absurd (ground arith)
  rsa_verdict-ok args m (rsa_pss_error signature_wrong_length why) v e = absurd (ground arith)
  rsa_verdict-ok args m (rsa_pss_error invalid_salt_length why) v e = absurd (ground arith)
  rsa_verdict-ok args m (rsa_pss_error invalid_modulus why) v e = absurd (ground arith)

  arweave_ok :
      (args : VerifyArgs) (v : VerifiedProof)
      → verify_arweave_proof crypto args ≡ ok v
      → Authorized args v
  unfolding verify_arweave_proof
  arweave_ok args v e =
      let modulus = args.recipient.recipient_pubkey in
      let salt = salt_or_default args.proof.salt_length in
      let derived_id = crypto.base64url (crypto.sha256 modulus) in
      let (is_protocol, e1) = guard-ok _ _ e in
      let (is_modulus, e2) = guard-ok _ _ e1 in
      let (is_id, e3) = guard-ok _ _ e2 in
      let (is_provided, e4) = guard-ok _ _ e3 in
      let (is_salt, e5) = guard-ok _ _ e4 in
      let (is_size, e6) = guard-ok _ _ e5 in
      let (is_nonce, bound) = guard-ok _ _ e6 in
      let (m, built, checked) =
        bind-ok (build_canonical_from_ledger crypto (ledger_claim args)) (rsa_checked crypto args) v
          bound in
      let (accepted, same, protocol, id, claimant) =
        rsa_verdict-ok args m (verify_rsa_pss crypto m args.proof.signature modulus salt) v
          checked in
      let signed = verify_rsa_pss-valid m args.proof.signature modulus salt accepted in
      let (is_recipient, is_source) = both_passed _ _ is_id in
      (
        built ∙ ap ok (sym same),
        protocol ∙ sym (same_number _ _ is_protocol),
        id,
        claimant,
        (echo_differs_iff args.proof.nonce args.asset.nonce).0 is_nonce,
        inl (
          same_number _ _ is_protocol,
          same_number _ _ is_modulus,
          (bytes_equal_iff derived_id args.recipient.recipient_id).0 is_recipient,
          (bytes_equal_iff derived_id args.recipient.source_address).0 is_source,
          (echo_differs_iff args.proof.provided_modulus modulus).0 is_provided,
          either_number salt 0 32 is_salt,
          same_number _ _ is_size,
          ap (λ t. crypto.rsa_pss t args.proof.signature modulus salt) same ∙ signed,
        ),
      )

  compare-ok :
      (expected a : Bytes)
      → compare_address crypto expected a ≡ ok tt
      → addresses_equal a expected ≡ true
  compare-ok expected a e = ground arith

  module _ (hash_length : (b : Bytes) → length (crypto.keccak_256 b) ≡ 32) where
    derive-ok :
        (pubkey a : Bytes)
        → derive_ethereum_address crypto pubkey ≡ ok a
        → (length pubkey ≡ 65)
          × (get_or (get_elem? pubkey 0) 0 ≡ 4)
          × (a ≡ subarray 12 32 (crypto.keccak_256 (drop 1 pubkey)))
    unfolding derive_ethereum_address
    derive-ok pubkey a e =
        let (tests, found) = guard-ok _ _ e in
        let (size, head) = both_passed _ _ tests in
        ((==_iff _ _).0 size, (==_iff _ _).0 head, ground arith)

    recovered-ok :
        (expected hash compact : Bytes) (bit : ℕ) (found : Option Bytes)
        → length expected ≡ 20
        → compare_recovered crypto expected hash compact bit found ≡ ok tt
        → (pubkey : Bytes) × ((found ≡ some pubkey)
            × (length pubkey ≡ 65)
            × (get_or (get_elem? pubkey 0) 0 ≡ 4)
            × (subarray 12 32 (crypto.keccak_256 (drop 1 pubkey)) ≡ expected))
    recovered-ok expected hash compact bit none n e = absurd (ground arith)
    recovered-ok expected hash compact bit (some pubkey) n e =
        let (a, derived, compared) =
          bind-ok (derive_ethereum_address crypto pubkey) (compare_address crypto expected) tt e in
        let (size, head, address) = derive-ok pubkey a derived in
        let short =
          length-subarray (crypto.keccak_256 (drop 1 pubkey)) (hash_length (drop 1 pubkey)) in
        let same = addresses_equal_iff a expected (ground arith) n in
        (pubkey, (refl, size, head, sym address ∙ same.0 (compare-ok expected a compared)))

    with_recovery_id-ok :
        (hash signature expected : Bytes) (id : Option ℕ)
        → length expected ≡ 20
        → with_recovery_id crypto hash signature expected id ≡ ok tt
        → (is_s_low (subarray 32 64 signature) ≡ true)
          × ((bit : ℕ) × ((pubkey : Bytes) × ((id ≡ some bit)
                  × (crypto.recover hash (take 64 signature) bit ≡ some pubkey)
                  × (length pubkey ≡ 65)
                  × (get_or (get_elem? pubkey 0) 0 ≡ 4)
                  × (subarray 12 32 (crypto.keccak_256 (drop 1 pubkey)) ≡ expected))))
    with_recovery_id-ok hash signature expected none n e = absurd (ground arith)
    with_recovery_id-ok hash signature expected (some bit) n e =
        let (low, compared) = guard-ok _ _ e in
        let (pubkey, (found, size, head, address)) =
          recovered-ok expected hash (take 64 signature) bit
            (crypto.recover hash (take 64 signature) bit) n compared in
        (passed _ low, (bit, (pubkey, (refl, found, size, head, address))))

    ethereum_ok :
        (args : VerifyArgs) (v : VerifiedProof)
        → verify_ethereum_proof crypto args ≡ ok v
        → Authorized args v
    unfolding verify_ethereum_proof verify_personal_sign
    ethereum_ok args v e =
        let signature = args.proof.signature in
        let expected = args.recipient.recipient_pubkey in
        let (is_protocol, e1) = guard-ok _ _ e in
        let (is_address, e2) = guard-ok _ _ e1 in
        let (is_nonce, bound) = guard-ok _ _ e2 in
        let (m, built, checked) =
          bind-ok (build_canonical_from_ledger crypto (ledger_claim args))
            (ethereum_checked crypto args) v bound in
        let (done, signed, returned) =
          bind-ok (verify_personal_sign crypto m signature expected)
            (ethereum_verified crypto args m) v checked in
        let (is_size, e3) = guard-ok _ _ signed in
        let (is_expected, e4) = guard-ok _ _ e3 in
        let (low, (bit, (pubkey, (id, found, size, head, address)))) =
          with_recovery_id-ok (eip191_hash crypto m) signature expected
            (recovery_id (get_or (get_elem? signature 64) 0)) (same_number _ _ is_expected) e4 in
        subst (Authorized args) (ok-inj _ _ returned) (
          built,
          sym (same_number _ _ is_protocol),
          refl,
          refl,
          (echo_differs_iff args.proof.nonce args.asset.nonce).0 is_nonce,
          inr (
            same_number _ _ is_protocol,
            same_number _ _ is_address,
            same_number _ _ is_size,
            low,
            (bit, (pubkey, (id, found, size, head, address))),
          ),
        )

    verify_claim-ok :
        (args : VerifyArgs) (v : VerifiedProof)
        → verify_claim crypto args ≡ ok v
        → Authorized args v
    unfolding verify_claim
    verify_claim-ok args v e = elim (Bool-cases (args.recipient.protocol == protocol_arweave)) [
      | inl arweave ↦ arweave_ok args v (ground arith)
      | inr other ↦ elim (Bool-cases (args.recipient.protocol == protocol_ethereum)) [
        | inl ethereum ↦ ethereum_ok args v (ground arith)
        | inr unknown ↦ absurd (ground arith)
      ]
    ]

-- A proof that verifyClaim accepts is over the message rebuilt from the stored recipient and asset,
-- for the wallet that the proof names, with no nonce echoed but the current one. For an Arweave
-- recipient the stored modulus has 512 bytes and hashes to the stored identity, and the RSA-PSS test of
-- the message passes under that modulus at salt length 0 or 32. For an Ethereum recipient s is low, and
-- the stored address of 20 bytes derives from the public key recovered from the EIP-191 hash of the
-- message. Keccak-256 is assumed to give 32 bytes.
pub verify_claim-Authorized :
    (crypto : Crypto) (args : VerifyArgs) (v : VerifiedProof)
    → ((b : Bytes) → length (crypto.keccak_256 b) ≡ 32)
    → verify_claim crypto args ≡ ok v
    → Authorized crypto args v
verify_claim-Authorized crypto args v hash_length e = verify_claim-ok crypto hash_length args v e
