-- ===== src/Operator.antt =====
-- packages/claims/src/dispatch/ant-operator.ts: the ANT batches that an operator's wallet signs. This
-- file has the types, the transaction of one hand-off and the rows that the queries join. The codecs of
-- transactions, base58 and Ed25519 are third-party: an AntKit carries them. Texts in `detail`, logs and
-- alerts are left out.
pub mod Reserve
pub mod Build
pub mod Recover
pub mod Submit
pub mod Views
pub mod Submitted
pub mod Steps
pub mod Rebuilds
pub mod Sends
use ar_io_solana_attestor.Prelude.{
  ℕ, String, Option, none, some, List, [], ◌∷◌, ◌++◌, Bool, true, false, not, ◌&&◌, ◌||◌, str_eq,
  if◌then◌else◌, map,
}
use ar_io_solana_attestor.Audit.{Context, Bytes, AuditEntry}
use ar_io_solana_attestor.Audit.Canonical.{Json, string, Items, nil, item, Fields}
use ar_io_solana_attestor.Instructions.{
  Kit, Instruction, claim_memo_ix, mpl_core_transfer_v1_ix, mpl_core_update_authority_ix,
}
use ar_io_solana_attestor.Store.{
  ClaimStatus, verified, AssetStatus, AssetType, ant, Claim, Asset, BatchStatus, AntBatch, Db,
  find_asset,
}

-- A decoded transaction: the bytes of its message, and the signature at each address.
pub record Decoded : Type 0 where
  pub message_bytes : Bytes
  pub signatures : String → Option Bytes

-- `none` is a thrown error.
pub record AntKit : Type 0 where
  pub kit : Kit
  -- The message of these instructions with this fee payer, blockhash and height, signed by the fee
  -- payer alone.
  pub partially_sign : List Instruction → String → String → ℕ → Option Decoded
  pub get_signature : Decoded → Option String
  pub encode_wire : Decoded → String
  pub decode_wire : String → Option Decoded
  pub base58_decode : String → Option Bytes
  pub ed25519_verify : Bytes → Bytes → Bytes → Option Bool

abbrev pub max_ant_rebuild_attempts : ℕ
max_ant_rebuild_attempts = 1

pub record AntBatchItem : Type 0 where
  pub claim_id : String
  pub asset_key : String
  pub ant_mint : String
  pub ant_name : Option String
  pub claimant : String
  pub tx_base64 : String
  pub txid : String
  pub last_valid_block_height : ℕ

pub data SkipReason : Type 0 where
  no_ant_mint : SkipReason
  no_longer_eligible : ClaimStatus → AssetStatus → SkipReason

pub record AntBatchSkipped : Type 0 where
  pub claim_id : String
  pub asset_key : String
  pub reason : SkipReason

pub record AntBatchResult : Type 0 where
  pub batch_id : String
  pub items : List AntBatchItem
  pub skipped : List AntBatchSkipped

pub record AntReviewItem : Type 0 where
  pub claim_id : String
  pub asset_key : String
  pub ant_mint : String
  pub ant_name : Option String
  pub claimant : String

pub record AntReserveResult : Type 0 where
  pub batch_id : String
  pub items : List AntReviewItem

pub record BuildAntTxArgs : Type 0 where
  pub claim_id : String
  pub ant_mint : String
  pub claimant : String
  pub ant_cold_address : String
  pub blockhash : String
  pub last_valid_block_height : ℕ
  pub include_memo : Bool

pub record BuiltAntTx : Type 0 where
  pub txid : String
  pub tx_base64 : String
  pub blockhash : String
  pub last_valid_block_height : ℕ

module _ (k : AntKit) (treasury : String) where
  abbrev pub ant_transfer_ixs : BuildAntTxArgs → List Instruction
  ant_transfer_ixs args =
      mpl_core_transfer_v1_ix k.kit args.ant_mint treasury args.ant_cold_address args.claimant
      ∷ mpl_core_update_authority_ix k.kit args.ant_mint treasury args.ant_cold_address
          args.claimant
      ∷ (if args.include_memo then claim_memo_ix k.kit args.claim_id ∷ [] else [])

  abbrev pub with_txid : BuildAntTxArgs → Decoded → Option String → Option BuiltAntTx
  with_txid args partial none = none
  with_txid args partial (some txid) = some (record {
    txid = txid;
    tx_base64 = k.encode_wire partial;
    blockhash = args.blockhash;
    last_valid_block_height = args.last_valid_block_height;
  })

  abbrev pub with_partial : BuildAntTxArgs → Option Decoded → Option BuiltAntTx
  with_partial args none = none
  with_partial args (some partial) = with_txid args partial (k.get_signature partial)

  unfoldable pub build_ant_transfer_tx : BuildAntTxArgs → Option BuiltAntTx
  build_ant_transfer_tx args = with_partial args (
      k.partially_sign (ant_transfer_ixs args) treasury args.blockhash args.last_valid_block_height)

-- A text that is not missing and not empty.
abbrev pub present : Option String → Option String
present none = none
present (some s) = if str_eq s "" then none else some s

-- A row of the join of a claim with its asset.
pub record AntRow : Type 0 where
  pub claim : Claim
  pub asset : Asset

-- The rows that a join selects, in the order of the claims given; a claim whose asset is missing has
-- none.
abbrev pub joined_row : Claim → Option Asset → List AntRow → List AntRow
joined_row c none rows = rows
joined_row c (some a) rows = record { claim = c; asset = a } ∷ rows

unfoldable pub ant_rows : List Asset → List Claim → List AntRow
ant_rows assets [] = []
ant_rows assets (c ∷ claims) = joined_row c (find_asset c.asset_key assets) (ant_rows assets claims)

abbrev pub is_ant : AssetType → Bool
is_ant ant = true
is_ant _ = false

abbrev pub is_null {ℓ} : {A : Type ℓ} → Option A → Bool
is_null none = true
is_null (some a) = false

-- `c.ant_batch_id = $1`
abbrev pub in_batch : String → Claim → Bool
in_batch batch_id c = elim c.ant_batch_id [ none ↦ false | some id ↦ str_eq id batch_id ]

-- `c.status IN ('verified', 'pending_review')`
abbrev pub awaits_dispatch : ClaimStatus → Bool
awaits_dispatch verified = true
awaits_dispatch ClaimStatus.pending_review = true
awaits_dispatch _ = false

-- An entry about a batch.
abbrev pub batch_entry : String → String → Fields → AuditEntry
batch_entry event status detail = record {
  event = event;
  claim_id = none;
  asset_key = none;
  claimant = none;
  recipient_id = none;
  protocol = none;
  status = some status;
  reason = none;
  detail = some detail;
}

pub texts : List String → Items
texts [] = nil
texts (s ∷ rest) = item (string s) (texts rest)

-- What the three updates that free a reservation set to NULL.
abbrev pub unreserved : ℕ → Claim → Claim
unreserved now c = record c {
  ant_batch_id = none;
  ant_reserved_at = none;
  ant_reserved_txid = none;
  ant_reserved_blockhash = none;
  ant_reserved_last_valid_bh = none;
  ant_reserved_wire = none;
  updated_at = now;
}

-- UPDATE claims SET ... WHERE ..., on every row that meets the condition.
unfoldable pub update_where : (Claim → Bool) → (Claim → Claim) → List Claim → List Claim
update_where test f = map λ c. if test c then f c else c

unfoldable pub set_batch_status : (AntBatch → Bool) → BatchStatus → List AntBatch → List AntBatch
set_batch_status test s = map λ b. if test b then record b { status = s } else b

-- EXISTS (SELECT 1 FROM claims c WHERE ...)
unfoldable pub exists_claim : (Claim → Bool) → List Claim → Bool
exists_claim test [] = false
exists_claim test (c ∷ rest) = test c || exists_claim test rest
