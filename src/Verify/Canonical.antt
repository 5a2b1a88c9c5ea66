-- ===== src/Verify/Canonical.antt =====
-- The message that a claimant signs: packages/canonical/src/canonical.ts, and its reconstruction from
-- the ledger, packages/claims/src/verify/canonical-message.ts.
pub mod Lines
use ar_io_solana_attestor.Prelude.{
  ℕ, zero, suc, ◌+◌, ◌*◌, ◌/◌, ◌%◌, String, Option, none, some, List, [], ◌∷◌, ◌++◌, Bool, true,
  false, not, ◌&&◌, ◌||◌, ltb, leb, ◌==◌, if◌then◌else◌, length,
}
use ar_io_solana_attestor.Audit.{Bytes}
use ar_io_solana_attestor.Audit.Canonical.{decimal, ◌+s◌}
use ar_io_solana_attestor.Merkle.Hex.{to_hex, from_hex}
use ar_io_solana_attestor.Instructions.{u64_max}
use ar_io_solana_attestor.Store.{AssetType, ant, token, vault}
use ar_io_solana_attestor.Verify.{
  Crypto, Outcome, ok, fault, ◌>>=◌, fail_with, invalid_input, RecipientView, AssetView, units,
}

-- `amount.toString()`: the decimal digits, on fuel; n + 1 rounds are more than it has digits.
unfoldable pub digits_loop : ℕ → ℕ → Bytes → Bytes
digits_loop zero n acc = acc
digits_loop (suc fuel) n acc = elim (ltb n 10) [
  | true ↦ (48 + n % 10) ∷ acc
  | false ↦ digits_loop fuel (n / 10) ((48 + n % 10) ∷ acc)
]

unfoldable pub digits : ℕ → Bytes
digits n = digits_loop (suc n) n []

-- `lines.join("\n")`
unfoldable pub join_lines : List Bytes → Bytes
join_lines [] = []
join_lines (line ∷ []) = line
join_lines (line ∷ rest) = line ++ 10 ∷ join_lines rest

abbrev pub type_text : AssetType → String
type_text ant = "ant"
type_text token = "token"
type_text vault = "vault"

pub record AntClaim : Type 0 where
  pub ant_mint : Bytes
  pub claimant : Bytes
  pub nonce : Bytes
  pub network : Bytes
  pub recipient_pubkey : Bytes

pub record EscrowClaim : Type 0 where
  pub asset_type : AssetType
  pub asset_id : Bytes
  pub amount : ℕ
  pub claimant : Bytes
  pub nonce : Bytes
  pub network : Bytes
  pub recipient_pubkey : Bytes

-- The arguments of buildCanonicalFromLedger.
pub record LedgerClaim : Type 0 where
  pub recipient : RecipientView
  pub asset : AssetView
  pub claimant : String
  pub nonce : Bytes
  pub network : Bytes

abbrev is_hex_unit : ℕ → Bool
is_hex_unit c = (leb 48 c && leb c 57) || (leb 97 c && leb c 102) || (leb 65 c && leb c 70)

unfoldable pub all_hex : Bytes → Bool
all_hex [] = true
all_hex (c ∷ rest) = is_hex_unit c && all_hex rest

module _ (crypto : Crypto) where
  abbrev pub derive_recipient_id_b64url : Bytes → Bytes
  derive_recipient_id_b64url recipient_pubkey = crypto.base64url (crypto.sha256 recipient_pubkey)

  abbrev pub ant_lines : AntClaim → List Bytes
  unfolding units
  ant_lines c =
      units "ar.io ant-escrow claim"
      ∷ (units "network: " ++ c.network)
      ∷ (units "recipient: " ++ derive_recipient_id_b64url c.recipient_pubkey)
      ∷ (units "ant: " ++ crypto.base58_encode c.ant_mint)
      ∷ (units "claimant: " ++ crypto.base58_encode c.claimant)
      ∷ (units "nonce: " ++ to_hex c.nonce)
      ∷ []

  unfoldable pub build_ant_escrow_claim_message : AntClaim → Outcome Bytes
  build_ant_escrow_claim_message c =
      if length c.ant_mint == 32
        && length c.claimant == 32
        && length c.nonce == 32
        && ltb 0 (length c.recipient_pubkey)
      then ok (join_lines (ant_lines c))
      else fault

  abbrev pub escrow_lines : EscrowClaim → List Bytes
  unfolding units
  escrow_lines c =
      units "ar.io escrow claim"
      ∷ (units "network: " ++ c.network)
      ∷ (units "recipient: " ++ derive_recipient_id_b64url c.recipient_pubkey)
      ∷ (units "type: " ++ units (type_text c.asset_type))
      ∷ (units "asset: " ++ to_hex c.asset_id)
      ∷ (units "amount: " ++ digits c.amount)
      ∷ (units "claimant: " ++ crypto.base58_encode c.claimant)
      ∷ (units "nonce: " ++ to_hex c.nonce)
      ∷ []

  unfoldable pub build_escrow_claim_message : EscrowClaim → Outcome Bytes
  build_escrow_claim_message c =
      if length c.asset_id == 32
        && length c.claimant == 32
        && length c.nonce == 32
        && leb c.amount u64_max
        && ltb 0 (length c.recipient_pubkey)
      then ok (join_lines (escrow_lines c))
      else fault

  unfoldable pub decode_base58_checked : String → String → ℕ → Outcome Bytes
  decode_base58_checked s label expected_len = elim (crypto.base58_decode s) [
    | none ↦ fail_with invalid_input (label +s " is not valid base58")
    | some bytes ↦
        if length bytes == expected_len
        then ok bytes
        else fail_with invalid_input (
            label
            +s " must decode to "
            +s decimal expected_len
            +s " bytes, got "
            +s decimal (length bytes))
  ]

  -- The loop parses pairs that the test admits, so that each is a byte.
  unfoldable pub decode_hex_checked : String → String → ℕ → Outcome Bytes
  decode_hex_checked s label expected_len =
      if length (units s) == expected_len * 2 && all_hex (units s)
      then (elim (from_hex (units s)) [ some bytes ↦ ok bytes | none ↦ fault ])
      else fail_with invalid_input
          (label +s " must be " +s decimal (expected_len * 2) +s " lowercase hex chars")

  abbrev pub with_mint : LedgerClaim → Bytes → Bytes → Outcome Bytes
  with_mint args claimant ant_mint = build_ant_escrow_claim_message (record {
    ant_mint = ant_mint;
    claimant = claimant;
    nonce = args.nonce;
    network = args.network;
    recipient_pubkey = args.recipient.recipient_pubkey;
  })

  unfoldable pub ant_canonical : LedgerClaim → Bytes → Option String → Outcome Bytes
  ant_canonical args claimant none = fail_with invalid_input "ant asset missing antMint"
  ant_canonical args claimant (some mint) =
      if ltb 0 (length (units mint))
      then (decode_base58_checked mint "antMint" 32 >>= with_mint args claimant)
      else fail_with invalid_input "ant asset missing antMint"

  unfoldable pub escrow_canonical : LedgerClaim → Bytes → Bytes → Option ℕ → Outcome Bytes
  escrow_canonical args claimant asset_id none =
      fail_with invalid_input (type_text args.asset.asset_type +s " asset missing amount")
  escrow_canonical args claimant asset_id (some amount) =
      if leb amount u64_max
      then build_escrow_claim_message (record {
        asset_type = args.asset.asset_type;
        asset_id = asset_id;
        amount = amount;
        claimant = claimant;
        nonce = args.nonce;
        network = args.network;
        recipient_pubkey = args.recipient.recipient_pubkey;
      })
      else fail_with invalid_input ("amount out of u64 range: " +s decimal amount)

  abbrev pub with_asset_id : LedgerClaim → Bytes → Bytes → Outcome Bytes
  with_asset_id args claimant asset_id = escrow_canonical args claimant asset_id args.asset.amount

  abbrev pub by_asset_type : LedgerClaim → Bytes → AssetType → Outcome Bytes
  by_asset_type args claimant ant = ant_canonical args claimant args.asset.ant_mint
  by_asset_type args claimant _ =
      decode_hex_checked args.asset.asset_key "assetKey" 32 >>= with_asset_id args claimant

  abbrev pub with_claimant : LedgerClaim → Bytes → Outcome Bytes
  with_claimant args claimant = by_asset_type args claimant args.asset.asset_type

  unfoldable pub build_canonical_from_ledger : LedgerClaim → Outcome Bytes
  build_canonical_from_ledger args =
      if length args.nonce == 32
      then if ltb 0 (length args.recipient.recipient_pubkey)
        then (decode_base58_checked args.claimant "claimant" 32 >>= with_claimant args)
        else fail_with invalid_input "recipient pubkey must be non-empty"
      else fail_with invalid_input ("nonce must be 32 bytes, got " +s decimal (length args.nonce))
