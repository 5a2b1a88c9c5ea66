-- ===== src/Ledger/Normalize.antt =====
-- packages/claims/src/ledger/normalize.ts and asset-id.ts, with the derivation of ant-mint.ts. The codecs,
-- sha256, the Ed25519 public key and toLowerCase are third-party: a PlanKit carries them.
use ar_io_solana_attestor.Prelude.{
  ℕ, ◌/◌, ◌%◌, String, Option, none, some, List, [], ◌∷◌, ◌++◌, Bool, true, false, ◌&&◌, ◌||◌,
  str_eq, ◌==◌, leb, if◌then◌else◌, length,
}
use Prim.Native.Char.{code}
use ar_io_solana_attestor.Audit.{Bytes}
use ar_io_solana_attestor.Audit.Canonical.{◌+s◌, hex_unit}

pub record PlanKit : Type 0 where
  pub sha256 : Bytes → Bytes
  pub utf8 : String → Bytes
  pub base64url_encode : Bytes → String
  pub base64url_decode : String → Bytes
  pub hex_decode : String → Bytes
  pub base58_encode : Bytes → String
  pub ed25519_public_key : Bytes → Bytes
  pub to_lower_case : String → String

abbrev is_hex_code : ℕ → Bool
is_hex_code c =
    (leb b'0' c && leb c b'9') || (leb b'a' c && leb c b'f') || (leb b'A' c && leb c b'F')

-- Exactly n hexadecimal digits.
abbrev is_hex_text : ℕ → String → Bool
is_hex_text ℕ.zero String.[] = true
is_hex_text (ℕ.suc n) (String.◌∷◌ c s) = is_hex_code (code c) && is_hex_text n s
is_hex_text _ _ = false

abbrev has_prefix : String → Bool
has_prefix (String.◌∷◌ c (String.◌∷◌ d s)) = code c == b'0' && code d == b'x' && is_hex_text 40 s
has_prefix _ = false

-- ETH_ADDRESS_RE.test(addr)
unfoldable pub is_ethereum_address : String → Bool
is_ethereum_address addr = has_prefix addr

abbrev pub slice_2 : String → String
slice_2 (String.◌∷◌ c (String.◌∷◌ d s)) = s
slice_2 _ = ""

unfoldable pub to_hex_text : Bytes → String
unfolding hex_unit
to_hex_text [] = ""
to_hex_text (b ∷ rest) = hex_unit (b / 16) +s hex_unit (b % 16) +s to_hex_text rest

module _ (kit : PlanKit) where
  unfoldable pub normalize_source_address : String → String
  normalize_source_address addr = if is_ethereum_address addr then kit.to_lower_case addr else addr

  -- The last entry whose normalized key is the normalized probe: a later entry overwrites an earlier.
  unfoldable pub normalized_lookup : String → List (String × String) → Option String
  normalized_lookup probe [] = none
  normalized_lookup probe ((key, value) ∷ rest) = elim (normalized_lookup probe rest) [
    | some found ↦ some found
    | none ↦
        if str_eq (normalize_source_address key) (normalize_source_address probe)
        then some value
        else none
  ]

  abbrev pub sha256_utf8 : String → Bytes
  sha256_utf8 seed = kit.sha256 (kit.utf8 seed)

  unfoldable pub derive_token_asset_id : String → Bytes
  derive_token_asset_id address = sha256_utf8 ("token-escrow:" +s normalize_source_address address)

  unfoldable pub derive_vault_asset_id : String → String → Bytes
  derive_vault_asset_id address vault_id =
      sha256_utf8 ("vault-escrow:" +s normalize_source_address address +s ":" +s vault_id)

  unfoldable pub derive_stake_asset_id : String → Bytes
  derive_stake_asset_id seed = sha256_utf8 seed

  abbrev pub ant_mint_seed : String → Bytes → Bytes
  ant_mint_seed ao_process_id secret =
      kit.sha256 (kit.utf8 ("ant-mint:" +s ao_process_id) ++ secret)

  -- `none` is the error at a secret of another length than 32.
  unfoldable pub derive_ant_mint_base58 : String → Bytes → Option String
  derive_ant_mint_base58 ao_process_id secret =
      if length secret == 32
      then some (kit.base58_encode (kit.ed25519_public_key (ant_mint_seed ao_process_id secret)))
      else none
