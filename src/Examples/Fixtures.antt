-- ===== src/Examples/Fixtures.antt =====
-- A claim, its asset, a chain and a worker, with stand-ins for the third-party code.
use ar_io_solana_attestor.Prelude.{
  ◌%◌, ◌*◌, String, none, some, [], ◌∷◌, true, str_eq, if◌then◌else◌, length, replicate,
}
use ar_io_solana_attestor.Prelude.Int.{pos}
use ar_io_solana_attestor.Audit.{Bytes, Context}
use ar_io_solana_attestor.Gateway.{Gateway, ConfirmState, SignedDispatch}
use ar_io_solana_attestor.Instructions.{Kit, little_endian}
use ar_io_solana_attestor.Store.{
  Claim, verified, dispatching, confirmed, Asset, AssetStatus, token, Db,
}
use ar_io_solana_attestor.Float.{FloatManager}
use ar_io_solana_attestor.Dispatch.{PersistDispatchingArgs}
use ar_io_solana_attestor.Dispatch.Core.{World}
use ar_io_solana_attestor.Worker.{Deps, DispenserSigner, SignerRole}

abbrev pub digest : Bytes → Bytes
digest b = replicate 32 (length b % 256)

abbrev pub encode_text : String → Bytes
encode_text s = if str_eq s "" then [] else 65 ∷ []

abbrev pub sample_ctx : Context
sample_ctx = record {
  sha256 = digest;
  utf8 = encode_text;
  audit_signer = some (λ hash. 7 ∷ hash);
  now = 1000;
  iso = λ n. "2026-01-01T00:00:00.000Z";
}

abbrev pub sample_kit : Kit
sample_kit = record {
  is_address = λ s. true;
  encode_address = encode_text;
  encode_u64 = little_endian 8;
  decode_u64 = λ b. 0;
  program_derived_address = λ program seeds. "pda";
  sha256 = digest;
  utf8 = encode_text;
}

abbrev pub sample_signed : SignedDispatch
sample_signed = record {
  signature = "sig1";
  blockhash = "hash1";
  last_valid_block_height = 500;
  wire_base64 = "AQID";
}

abbrev pub sample_gateway : Gateway
sample_gateway = record {
  get_token_balance = λ ata. some 1000;
  get_account_data = λ a. some none;
  sign_transaction = λ ixs signer. some sample_signed;
  broadcast = λ wire. some tt;
  confirm_signature = λ sig height. some ConfirmState.confirmed;
  find_confirmed_outflow = λ addresses known. some none;
}

abbrev pub sample_claim : Claim
sample_claim = record {
  claim_id = "c1";
  asset_key = "a1";
  claimant = "wallet1";
  canonical_message = [];
  user_signature = none;
  salt_length = none;
  settlement = none;
  status = verified;
  tx_signatures = none;
  idempotency_key = none;
  error = none;
  created_at = 10;
  verified_at = some 20;
  confirmed_at = none;
  updated_at = 20;
  challenge_nonce = none;
  challenge_expires_at = none;
  recipient_id = some "r1";
  protocol = some 1;
  dispatch_signature = none;
  dispatch_blockhash = none;
  dispatch_last_valid_bh = none;
  dispatch_started_at = none;
  settlement_amount = none;
  approved_at = none;
  approved_by = none;
  dispatch_resign_count = 0;
  ant_batch_id = none;
  ant_reserved_at = none;
  ant_reserved_txid = none;
  ant_reserved_blockhash = none;
  ant_reserved_last_valid_bh = none;
  ant_reserved_wire = none;
}

abbrev pub confirmed_claim : Claim
confirmed_claim = record sample_claim { status = confirmed; tx_signatures = some ("sig0" ∷ []) }

-- In flight, and signed again once already.
abbrev pub capped_claim : Claim
capped_claim = record sample_claim {
  status = dispatching;
  dispatch_signature = some "sig0";
  dispatch_last_valid_bh = some 400;
  dispatch_resign_count = 1;
}

abbrev pub sample_asset : Asset
sample_asset = record {
  asset_key = "a1";
  asset_type = token;
  recipient_id = "r1";
  ant_mint = none;
  ant_name = none;
  amount = some 50;
  vault_end_ts = none;
  nonce = [];
  status = AssetStatus.claiming;
  updated_at = 10;
}

abbrev pub db_of : Claim → Asset → Db
db_of c a = record {
  claims = c ∷ [];
  assets = a ∷ [];
  recipients = [];
  ant_batches = [];
  audit = record { rows = []; next_seq = 1 };
}

abbrev pub world_of : Claim → Asset → World
world_of c a = record { db = db_of c a; broadcasts = [] }

abbrev pub sample_args : PersistDispatchingArgs
sample_args = record {
  claim_id = "c1";
  asset_key = "a1";
  signed = sample_signed;
  settlement_amount = some 50;
  settlement_label = some "token";
}

abbrev pub sample_manager : FloatManager
sample_manager = record {
  policy = record {
    cap_mario = 5000;
    big_claim_threshold_mario = 100;
    refill_threshold_mario = 10;
  };
  reserved_asset_scope = none;
}

abbrev pub hot_signer : DispenserSigner
hot_signer = record { address = "hot"; role = SignerRole.token; get_signer = some "hot" }

abbrev pub sample_deps : Deps
sample_deps = record {
  token_signer = hot_signer;
  ant_signer = none;
  float = sample_manager;
  mint = "mint";
  min_vault_duration = pos (14 * 86_400);
  max_vault_duration = pos (365 * 86_400);
  ario_core_program = none;
  ant_requires_approval = none;
  ant_dispatch_mode = none;
  include_memo = none;
  now = pos 1;
}
