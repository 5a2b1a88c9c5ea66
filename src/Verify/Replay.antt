-- ===== src/Verify/Replay.antt =====
-- A signature over the message of one claim says nothing about another: buildCanonicalFromLedger of
-- packages/claims/src/verify/canonical-message.ts never builds one message for two claims.
use ar_io_solana_attestor.Prelude.{ℕ, ◌≡◌, ◌≢◌, refl, sym, ◌∙◌, String, Option, none, some, arith}
use ar_io_solana_attestor.Audit.{Bytes}
use ar_io_solana_attestor.Merkle.Hex.{IsBytes, from_hex, from_hex-IsBytes}
use ar_io_solana_attestor.Store.{AssetType, ant, token, vault}
use ar_io_solana_attestor.Verify.{Crypto, ok, AssetView, units, ◌>>=◌, bind-ok}
use ar_io_solana_attestor.Verify.Canonical.{
  join_lines, AntClaim, EscrowClaim, LedgerClaim, ant_lines, escrow_lines,
  build_ant_escrow_claim_message, build_escrow_claim_message, decode_base58_checked,
  decode_hex_checked, ant_canonical, escrow_canonical, by_asset_type, with_mint, with_asset_id,
  with_claimant, build_canonical_from_ledger,
}
use ar_io_solana_attestor.Verify.Canonical.Lines.{IsLine, join_lines-inj}
use ar_io_solana_attestor.Verify.Binding.{
  IsTextEncoding, escrow_lines-IsLine, ant_lines-IsLine, escrow_lines-inj, ant_lines-inj,
  headers_differ,
}

module _ (crypto : Crypto) where
  -- The 32 bytes that identify the asset: the mint's, or those that the key names.
  abbrev pub asset_id_of : AssetView → Option Bytes
  asset_id_of a = elim a.asset_type [
    | ant ↦ elim a.ant_mint [ none ↦ none | some mint ↦ crypto.base58_decode mint ]
    | _ ↦ from_hex (units a.asset_key)
  ]

  -- The amount, where the message has one.
  abbrev pub bound_amount : AssetView → Option ℕ
  bound_amount a = elim a.asset_type [ ant ↦ none | _ ↦ a.amount ]

  -- The two claims are by one recipient, to one wallet, of one asset, under one nonce.
  abbrev pub SameClaim : LedgerClaim → LedgerClaim → Type 0
  SameClaim a b =
      (crypto.sha256 a.recipient.recipient_pubkey ≡ crypto.sha256 b.recipient.recipient_pubkey)
      × (crypto.base58_decode a.claimant ≡ crypto.base58_decode b.claimant)
      × (a.nonce ≡ b.nonce)
      × (a.asset.asset_type ≡ b.asset.asset_type)
      × (asset_id_of a.asset ≡ asset_id_of b.asset)
      × (bound_amount a.asset ≡ bound_amount b.asset)

  abbrev escrow_of : LedgerClaim → Bytes → Bytes → ℕ → EscrowClaim
  escrow_of args claimant asset_id amount = record {
    asset_type = args.asset.asset_type;
    asset_id = asset_id;
    amount = amount;
    claimant = claimant;
    nonce = args.nonce;
    network = args.network;
    recipient_pubkey = args.recipient.recipient_pubkey;
  }

  abbrev ant_of : LedgerClaim → Bytes → Bytes → AntClaim
  ant_of args claimant mint = record {
    ant_mint = mint;
    claimant = claimant;
    nonce = args.nonce;
    network = args.network;
    recipient_pubkey = args.recipient.recipient_pubkey;
  }

  -- How the message of a claim came about.
  data Built (args : LedgerClaim) (m : Bytes) : Type 0 where
    of_ant :
        (claimant mint : Bytes)
        → args.asset.asset_type ≡ ant
        → crypto.base58_decode args.claimant ≡ some claimant
        → asset_id_of args.asset ≡ some mint
        → m ≡ join_lines (ant_lines crypto (ant_of args claimant mint))
        → Built args m
    of_escrow :
        (claimant asset_id : Bytes) (amount : ℕ)
        → args.asset.asset_type ≢ ant
        → crypto.base58_decode args.claimant ≡ some claimant
        → asset_id_of args.asset ≡ some asset_id
        → args.asset.amount ≡ some amount
        → m ≡ join_lines (escrow_lines crypto (escrow_of args claimant asset_id amount))
        → Built args m

  decode_base58_checked-ok :
      (s label : String) (n : ℕ) (b : Bytes)
      → decode_base58_checked crypto s label n ≡ ok b
      → crypto.base58_decode s ≡ some b
  unfolding decode_base58_checked
  decode_base58_checked-ok s label n b e = ground arith

  decode_hex_checked-ok :
      (s label : String) (n : ℕ) (b : Bytes)
      → decode_hex_checked crypto s label n ≡ ok b
      → from_hex (units s) ≡ some b
  unfolding decode_hex_checked
  decode_hex_checked-ok s label n b e = ground arith

  ant_canonical-Built :
      (args : LedgerClaim) (claimant m : Bytes) (mint : Option String)
      → args.asset.asset_type ≡ ant
      → args.asset.ant_mint ≡ mint
      → crypto.base58_decode args.claimant ≡ some claimant
      → ant_canonical crypto args claimant mint ≡ ok m
      → Built args m
  unfolding ant_canonical build_ant_escrow_claim_message
  ant_canonical-Built args claimant m none t i d e = absurd (ground arith)
  ant_canonical-Built args claimant m (some mint) t i d e =
      let bound : (decode_base58_checked crypto mint "antMint" 32
            >>= with_mint crypto args claimant)
          ≡ ok m =
        ground arith in
      let (bytes, decoded, built) =
        bind-ok (decode_base58_checked crypto mint "antMint" 32) (with_mint crypto args claimant) m
          bound in
      let read = decode_base58_checked-ok mint "antMint" 32 bytes decoded in
      of_ant claimant bytes t d (ground arith) (ground arith)

  escrow_canonical-Built :
      (args : LedgerClaim) (claimant asset_id m : Bytes) (amount : Option ℕ)
      → args.asset.asset_type ≢ ant
      → args.asset.amount ≡ amount
      → crypto.base58_decode args.claimant ≡ some claimant
      → asset_id_of args.asset ≡ some asset_id
      → escrow_canonical crypto args claimant asset_id amount ≡ ok m
      → Built args m
  unfolding escrow_canonical build_escrow_claim_message
  escrow_canonical-Built args claimant asset_id m none t i d a e = absurd (ground arith)
  escrow_canonical-Built args claimant asset_id m (some amount) t i d a e =
      of_escrow claimant asset_id amount t d a i (ground arith)

  by_asset_type-Built :
      (args : LedgerClaim) (claimant m : Bytes) (type : AssetType)
      → args.asset.asset_type ≡ type
      → crypto.base58_decode args.claimant ≡ some claimant
      → by_asset_type crypto args claimant type ≡ ok m
      → Built args m
  by_asset_type-Built args claimant m ant t d e =
      ant_canonical-Built args claimant m args.asset.ant_mint t refl d e
  by_asset_type-Built args claimant m token t d e =
      let (asset_id, decoded, built) =
        bind-ok (decode_hex_checked crypto args.asset.asset_key "assetKey" 32)
          (with_asset_id crypto args claimant) m e in
      let read = decode_hex_checked-ok args.asset.asset_key "assetKey" 32 asset_id decoded in
      escrow_canonical-Built args claimant asset_id m args.asset.amount (λ a. cc) refl d
        (ground arith) built
  by_asset_type-Built args claimant m vault t d e =
      let (asset_id, decoded, built) =
        bind-ok (decode_hex_checked crypto args.asset.asset_key "assetKey" 32)
          (with_asset_id crypto args claimant) m e in
      let read = decode_hex_checked-ok args.asset.asset_key "assetKey" 32 asset_id decoded in
      escrow_canonical-Built args claimant asset_id m args.asset.amount (λ a. cc) refl d
        (ground arith) built

  build_canonical_from_ledger-Built :
      (args : LedgerClaim) (m : Bytes)
      → build_canonical_from_ledger crypto args ≡ ok m
      → Built args m
  unfolding build_canonical_from_ledger
  build_canonical_from_ledger-Built args m e =
      let bound : (decode_base58_checked crypto args.claimant "claimant" 32
            >>= with_claimant crypto args)
          ≡ ok m =
        ground arith in
      let (claimant, decoded, built) =
        bind-ok (decode_base58_checked crypto args.claimant "claimant" 32)
          (with_claimant crypto args) m bound in
      by_asset_type-Built args claimant m args.asset.asset_type refl
        (decode_base58_checked-ok args.claimant "claimant" 32 claimant decoded) built

  module _ (base58 : IsTextEncoding crypto.base58_encode)
      (base64 : IsTextEncoding crypto.base64url) where
    escrow_id-IsBytes :
        (a : AssetView) (id : Bytes) → a.asset_type ≢ ant → asset_id_of a ≡ some id → IsBytes id
    escrow_id-IsBytes a id t e = from_hex-IsBytes (units a.asset_key) id (ground arith)

    one_message :
        (a b : LedgerClaim) (m : Bytes)
        → IsLine a.network
        → IsLine b.network
        → IsBytes a.nonce
        → IsBytes b.nonce
        → Built a m
        → Built b m
        → SameClaim a b
    unfolding units
    one_message a b m na nb ca cb (of_ant c mint t d i e) (of_ant c' mint' t' d' i' e') =
        let x = ant_of a c mint in
        let y = ant_of b c' mint' in
        let same = ant_lines-inj crypto base58 base64 x y ca cb (
          join_lines-inj (ant_lines crypto x) (ant_lines crypto y)
            (ant_lines-IsLine crypto base58 base64 x na)
            (ant_lines-IsLine crypto base58 base64 y nb) refl (sym e ∙ e')) in
        ground (arith, same)
    one_message a b m na nb ca cb (of_ant c mint t d i e) (of_escrow c' id n t' d' i' p e') =
        absurd
          (headers_differ crypto base58 base64 (escrow_of b c' id n) (ant_of a c mint) (sym e' ∙ e))
    one_message a b m na nb ca cb (of_escrow c id n t d i p e) (of_ant c' mint t' d' i' e') =
        absurd
          (headers_differ crypto base58 base64 (escrow_of a c id n) (ant_of b c' mint) (sym e ∙ e'))
    one_message a b m na nb ca cb (of_escrow c id n t d i p e)
          (of_escrow c' id' n' t' d' i' p' e') =
        let x = escrow_of a c id n in
        let y = escrow_of b c' id' n' in
        let same =
          escrow_lines-inj crypto base58 base64 x y (escrow_id-IsBytes a.asset id t i)
            (escrow_id-IsBytes b.asset id' t' i') ca cb
            (join_lines-inj (escrow_lines crypto x) (escrow_lines crypto y)
              (escrow_lines-IsLine crypto base58 base64 x na)
              (escrow_lines-IsLine crypto base58 base64 y nb) refl (sym e ∙ e')) in
        ground (arith, same)

-- Two claims whose canonical messages are one are by recipients with one digest, to one wallet, of one
-- asset and amount, under one nonce. Their networks hold no line break and their nonces are bytes;
-- base58 and base64url are assumed to write no line break and to be injective.
pub build_canonical_from_ledger_binds :
    (crypto : Crypto) (a b : LedgerClaim) (m : Bytes)
    → IsTextEncoding crypto.base58_encode
    → IsTextEncoding crypto.base64url
    → IsLine a.network
    → IsLine b.network
    → IsBytes a.nonce
    → IsBytes b.nonce
    → build_canonical_from_ledger crypto a ≡ ok m
    → build_canonical_from_ledger crypto b ≡ ok m
    → SameClaim crypto a b
build_canonical_from_ledger_binds crypto a b m base58 base64 na nb ca cb ea eb =
    one_message crypto base58 base64 a b m na nb ca cb
      (build_canonical_from_ledger-Built crypto a m ea)
      (build_canonical_from_ledger-Built crypto b m eb)
