-- ===== src/Verify.antt =====
-- packages/claims/src/verify: types.ts, errors.ts and what its modules share. The cryptography, base58
-- and base64url are third-party: a Crypto carries them. Addresses and keys are texts; the messages
-- that are signed are lists of bytes, and their texts are ASCII, so that a unit is its own UTF-8.
pub mod Canonical
pub mod Binding
pub mod Replay
pub mod Arweave
pub mod Ethereum
pub mod Claim
pub mod Comparisons
pub mod Authorized
pub mod Malleability
use Prim.Native.Char.{Char, code}
use Prim.Native.String
use Prim.Native.String.{[], ◌∷◌}
use ar_io_solana_attestor.Prelude.{
  ℕ, String, Option, List, [] as empty, ◌∷◌ as cons, Bool, true, false, ◌&&◌, ◌==◌, ◌≡◌, refl,
  if◌then◌else◌,
}
use ar_io_solana_attestor.Prelude.Int.{ℤ}
use ar_io_solana_attestor.Audit.{Bytes}
use ar_io_solana_attestor.Store.{AssetType}

pub data VerificationErrorCode : Type 0 where
  protocol_mismatch asset_type_mismatch nonce_mismatch : VerificationErrorCode
  rsa_signature_invalid unsupported_salt_length modulus_mismatch : VerificationErrorCode
  recipient_id_mismatch invalid_recovery_id ecdsa_high_s : VerificationErrorCode
  ethereum_address_mismatch signature_verification_failed : VerificationErrorCode
  lock_duration_too_long invalid_input : VerificationErrorCode

pub record VerificationError : Type 0 where
  pub code : VerificationErrorCode
  pub message : String

-- What a call returns: a value, a VerificationError, or any other error.
pub data Outcome {ℓ} (A : Type ℓ) : Type ℓ where
  ok : A → Outcome A
  rejected : VerificationError → Outcome A
  fault : Outcome A

infixl 5 ◌>>=◌
abbrev pub ◌>>=◌ {ℓ κ} : {A : Type ℓ} {B : Type κ} → Outcome A → (A → Outcome B) → Outcome B
ok a >>= f = f a
rejected e >>= f = rejected e
fault >>= f = fault

-- A step that returns has had its argument returned.
pub bind-ok {ℓ κ} :
    {A : Type ℓ} {B : Type κ} (o : Outcome A) (f : A → Outcome B) (b : B)
    → (o >>= f) ≡ ok b
    → (a : A) × (o ≡ ok a) × (f a ≡ ok b)
bind-ok (ok a) f b e = (a, refl, e)
bind-ok (rejected r) f b e = cc
bind-ok fault f b e = cc

abbrev pub fail_with {ℓ} : {A : Type ℓ} → VerificationErrorCode → String → Outcome A
fail_with code message = rejected (record { code = code; message = message })

-- `if (test) throw new VerificationError(code, message);` and what follows it.
infix 1 when◌throw◌with◌else◌
unfoldable pub when◌throw◌with◌else◌ {ℓ} :
    {A : Type ℓ} → Bool → VerificationErrorCode → String → Outcome A → Outcome A
when test throw code with message else rest = if test then fail_with code message else rest

-- A check that lets the rest return did not fire.
pub guard-ok {ℓ} :
    {A : Type ℓ} {test : Bool} {rest : Outcome A} {a : A} (code : VerificationErrorCode)
    (message : String)
    → (when test throw code with message else rest) ≡ ok a
    → (test ≡ false) × (rest ≡ ok a)
unfolding when◌throw◌with◌else◌
guard-ok {test = true} code message h = cc
guard-ok {test = false} code message h = (refl, h)

-- `rsa_pss` is createPublicKey of the JWK and `verify`, with SHA-256 and the public exponent 65537;
-- it is given the message, the signature, the modulus and the salt length, and has no answer where
-- the import throws. `recover` is the public key, uncompressed, from the hash, r || s and the
-- recovery bit. The texts are those of the errors that the two throw.
pub record Crypto : Type 0 where
  pub sha256 : Bytes → Bytes
  pub keccak_256 : Bytes → Bytes
  pub base64url : Bytes → Bytes
  pub base58_encode : Bytes → Bytes
  pub base58_decode : String → Option Bytes
  pub rsa_pss : Bytes → Bytes → Bytes → ℕ → Option Bool
  pub recover : Bytes → Bytes → ℕ → Option Bytes
  pub import_error : Bytes → String
  pub recover_error : Bytes → Bytes → ℕ → String

pub record RecipientView : Type 0 where
  pub protocol : ℕ
  pub recipient_pubkey : Bytes
  pub recipient_id : Bytes
  pub source_address : Bytes

pub record AssetView : Type 0 where
  pub asset_type : AssetType
  pub asset_key : String
  pub ant_mint : Option String
  pub amount : Option ℕ
  pub nonce : Bytes
  pub vault_end_ts : Option ℤ

pub record ClaimProof : Type 0 where
  pub claimant : String
  pub signature : Bytes
  pub salt_length : Option ℕ
  pub provided_modulus : Option Bytes
  pub nonce : Option Bytes

pub record VerifiedProof : Type 0 where
  pub canonical_message : Bytes
  pub protocol : ℕ
  pub recipient_id : Bytes
  pub claimant : String

-- The arguments of verifyClaim.
pub record VerifyArgs : Type 0 where
  pub recipient : RecipientView
  pub asset : AssetView
  pub proof : ClaimProof
  pub network : Bytes

abbrev pub protocol_arweave : ℕ
protocol_arweave = 0

abbrev pub protocol_ethereum : ℕ
protocol_ethereum = 1

-- The units of an ASCII text.
unfoldable pub units : String → Bytes
units [] = empty
units (c ∷ s) = cons (code c) (units s)
