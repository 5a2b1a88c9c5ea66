-- ===== src/Examples/Verifications.antt =====
-- The verifier at a claim of an Ethereum recipient, with stand-ins for the cryptography.
use ar_io_solana_attestor.Prelude.{
  ◌+◌, ◌*◌, ◌≤◌, ◌≡◌, ◌↔◌, refl, String, none, some, [], ◌∷◌, ◌++◌, map, true, arith, replicate,
}
use ar_io_solana_attestor.Prelude.Int.{pos}
use ar_io_solana_attestor.Audit.{Bytes}
use ar_io_solana_attestor.Store.{token}
use ar_io_solana_attestor.Examples.Fixtures.{digest}
use ar_io_solana_attestor.Merkle.Hex.{from_hex, parse_byte}
use ar_io_solana_attestor.Verify.{
  Crypto, ok, RecipientView, AssetView, ClaimProof, VerifiedProof, VerifyArgs, units,
  when◌throw◌with◌else◌,
}
use ar_io_solana_attestor.Verify.Canonical.{
  LedgerClaim, EscrowClaim, escrow_lines, join_lines, all_hex, decode_base58_checked,
  decode_hex_checked, escrow_canonical, build_escrow_claim_message, build_canonical_from_ledger,
}
use ar_io_solana_attestor.Verify.Canonical.Lines.{IsLine}
use ar_io_solana_attestor.Verify.Binding.{IsTextEncoding}
use ar_io_solana_attestor.Verify.Replay.{SameClaim, build_canonical_from_ledger_binds}
use ar_io_solana_attestor.Verify.Arweave.{ledger_claim}
use ar_io_solana_attestor.Verify.Ethereum.{
  s_low_loop, is_s_low, address_differs, addresses_equal, eip191_hash, derive_ethereum_address,
  verify_personal_sign, verify_ethereum_proof,
}
use ar_io_solana_attestor.Verify.Claim.{verify_claim}
use ar_io_solana_attestor.Verify.Authorized.{Authorized, verify_claim-Authorized}
use ar_io_solana_attestor.Verify.Malleability.{big_endian, secp256k1_n, is_s_low_iff}

-- An injective encoding without a line break.
abbrev pub shifted : Bytes → Bytes
shifted b = map (λ x. x + 11) b

abbrev pub stand_in : Crypto
stand_in = record {
  sha256 = digest;
  keccak_256 = digest;
  base64url = shifted;
  base58_encode = shifted;
  base58_decode = λ s. some (replicate 32 9);
  rsa_pss = λ m s n salt. some true;
  recover = λ hash compact bit. some (4 ∷ replicate 64 7);
  import_error = λ n. "";
  recover_error = λ h c b. "";
}

abbrev pub ethereum_recipient : RecipientView
ethereum_recipient = record {
  protocol = 1;
  recipient_pubkey = replicate 20 64;
  recipient_id = units "r1";
  source_address = units "0x40";
}

abbrev pub token_key : String
token_key = "0000000000000000000000000000000000000000000000000000000000000000"

abbrev pub token_view : AssetView
token_view = record {
  asset_type = token;
  asset_key = token_key;
  ant_mint = none;
  amount = some 50;
  nonce = replicate 32 5;
  vault_end_ts = none;
}

abbrev low_signature : Bytes
low_signature = replicate 64 1 ++ 27 ∷ []

abbrev sample_proof : ClaimProof
sample_proof = record {
  claimant = "wallet1";
  signature = low_signature;
  salt_length = none;
  provided_modulus = none;
  nonce = none;
}

abbrev ethereum_args : VerifyArgs
ethereum_args = record {
  recipient = ethereum_recipient;
  asset = token_view;
  proof = sample_proof;
  network = 115 ∷ [];
}

abbrev signed_claim : EscrowClaim
signed_claim = record {
  asset_type = token;
  asset_id = replicate 32 0;
  amount = 50;
  claimant = replicate 32 9;
  nonce = replicate 32 5;
  network = 115 ∷ [];
  recipient_pubkey = replicate 20 64;
}

abbrev sample_verified : VerifiedProof
sample_verified = record {
  canonical_message = join_lines (escrow_lines stand_in signed_claim);
  protocol = 1;
  recipient_id = units "r1";
  claimant = "wallet1";
}

message_is :
    build_canonical_from_ledger stand_in (ledger_claim ethereum_args)
    ≡ ok (join_lines (escrow_lines stand_in signed_claim))
unfolding build_canonical_from_ledger decode_base58_checked decode_hex_checked escrow_canonical
    build_escrow_claim_message units all_hex from_hex parse_byte
message_is = refl

verify_claim-Authorized_example : Authorized stand_in ethereum_args sample_verified
unfolding verify_claim verify_ethereum_proof verify_personal_sign when◌throw◌with◌else◌ is_s_low
    s_low_loop addresses_equal address_differs derive_ethereum_address eip191_hash
    build_canonical_from_ledger decode_base58_checked decode_hex_checked escrow_canonical
    build_escrow_claim_message units all_hex from_hex parse_byte
verify_claim-Authorized_example =
    verify_claim-Authorized stand_in ethereum_args sample_verified (λ b. refl) refl

shifted-IsLine : (b : Bytes) → IsLine (shifted b)
shifted-IsLine [] = tt
shifted-IsLine (x ∷ rest) = ((λ e. absurd (omega arith)), shifted-IsLine rest)

shifted-inj : (a b : Bytes) → shifted a ≡ shifted b → a ≡ b
shifted-inj [] [] e = refl
shifted-inj [] (y ∷ b) e = absurd (ground arith)
shifted-inj (x ∷ a) [] e = absurd (ground arith)
shifted-inj (x ∷ a) (y ∷ b) e = ground (arith, shifted-inj a b)

shifted-IsTextEncoding : IsTextEncoding shifted
shifted-IsTextEncoding = record { line = shifted-IsLine; inj = shifted-inj }

-- The same claim of an asset whose row has since gained a vault's end.
abbrev later_claim : LedgerClaim
later_claim = record (ledger_claim ethereum_args) {
  asset = record token_view { vault_end_ts = some (pos 7) };
}

build_canonical_from_ledger_binds_example :
    SameClaim stand_in (ledger_claim ethereum_args) later_claim
unfolding build_canonical_from_ledger decode_base58_checked decode_hex_checked escrow_canonical
    build_escrow_claim_message units all_hex from_hex parse_byte
build_canonical_from_ledger_binds_example =
    build_canonical_from_ledger_binds stand_in (ledger_claim ethereum_args) later_claim
      (join_lines (escrow_lines stand_in signed_claim)) shifted-IsTextEncoding
      shifted-IsTextEncoding (ground arith) (ground arith) (ground arith) (ground arith) refl refl

abbrev one_s : Bytes
one_s = replicate 31 0 ++ 1 ∷ []

is_s_low_iff_example : (is_s_low one_s ≡ true) ↔ (2 * big_endian 0 one_s + 1 ≤ secp256k1_n)
is_s_low_iff_example = is_s_low_iff one_s (ground arith) refl
