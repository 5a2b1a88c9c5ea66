-- ===== src/Instructions.antt =====
-- packages/claims/src/dispatch/instructions.ts and vault-relock.ts: the on-chain instructions that a
-- dispatch is made of, to the byte. The kit's codecs and address derivation, sha256 and the UTF-8
-- encoder are third-party: a Kit carries them. `none` is a thrown error; addresses are texts.
pub mod Relock
use ar_io_solana_attestor.Prelude.{
  ℕ, zero, suc, ◌-◌, ◌/◌, ◌%◌, ◌^◌, String, Option, none, some, List, [], ◌∷◌, ◌++◌, Bool, true,
  false, ltb, leb, if◌then◌else◌, length,
}
use ar_io_solana_attestor.Prelude.Int.{ℤ, pos, negsuc}
use ar_io_solana_attestor.Audit.{Bytes}
use ar_io_solana_attestor.Audit.Canonical.{◌+s◌}

pub record Kit : Type 0 where
  -- `address(s)` returns at this text and does not throw.
  pub is_address : String → Bool
  pub encode_address : String → Bytes
  pub encode_u64 : ℕ → Bytes
  pub decode_u64 : Bytes → ℕ
  -- The program's address and the seeds.
  pub program_derived_address : String → List Bytes → String
  pub sha256 : Bytes → Bytes
  pub utf8 : String → Bytes

pub data AccountRole : Type 0 where
  readonly writable readonly_signer writable_signer : AccountRole

pub record AccountMeta : Type 0 where
  pub address : String
  pub role : AccountRole

pub record Instruction : Type 0 where
  pub program_address : String
  pub accounts : List AccountMeta
  pub data_bytes : Bytes

abbrev pub system_program : String
system_program = "11111111111111111111111111111111"

abbrev pub token_program : String
token_program = "TokenkegQfeZyiNwAJbNbGKPFXCWuBvf9Ss623VQ5DA"

abbrev pub associated_token_program : String
associated_token_program = "ATokenGPvbdGVxr1b2hvZbsiqW5xWH25efTNsLJA8knL"

abbrev pub mpl_core_program : String
mpl_core_program = "CoREENxT6tW1HoK8ypY1SxRMZTcVPm7R94rH4PZNhX7d"

abbrev pub memo_program : String
memo_program = "Memo1UhkJRfHyvLMcVucJwxXeuD728EqVDDwQDxFMNo"

abbrev pub u64_max : ℕ
u64_max = 18_446_744_073_709_551_615

abbrev pub account : String → AccountRole → AccountMeta
account a r = record { address = a; role = r }

abbrev pub take : ℕ → Bytes → Bytes
take zero b = []
take (suc n) [] = []
take (suc n) (x ∷ rest) = x ∷ take n rest

abbrev pub drop : ℕ → Bytes → Bytes
drop zero b = b
drop (suc n) [] = []
drop (suc n) (x ∷ rest) = drop n rest

-- The low bytes of a number, the least first.
pub little_endian : ℕ → ℕ → Bytes
little_endian zero n = []
little_endian (suc k) n = n % 256 ∷ little_endian k (n / 256)

-- DataView.setBigInt64 at a little-endian view: the two's complement of the value modulo 2 ^ 64.
abbrev pub int64_bytes : ℤ → Bytes
int64_bytes (pos n) = little_endian 8 (n % 2 ^ 64)
int64_bytes (negsuc n) = little_endian 8 (u64_max - n % 2 ^ 64)

module _ (kit : Kit) where
  unfoldable pub anchor_discriminator : String → Bytes
  anchor_discriminator name = take 8 (kit.sha256 (kit.utf8 ("global:" +s name)))

  unfoldable pub get_associated_token_address : String → String → String
  get_associated_token_address owner mint =
      kit.program_derived_address associated_token_program
        (kit.encode_address owner ∷ kit.encode_address token_program ∷ kit.encode_address mint ∷ [])

  unfoldable pub create_ata_idempotent_ix : String → String → String → String → Instruction
  create_ata_idempotent_ix payer ata owner mint = record {
    program_address = associated_token_program;
    accounts =
        account payer writable_signer
        ∷ account ata writable
        ∷ account owner readonly
        ∷ account mint readonly
        ∷ account system_program readonly
        ∷ account token_program readonly
        ∷ [];
    data_bytes = 1 ∷ [];
  }

  unfoldable pub transfer_tokens_ix : String → String → String → ℕ → Option Instruction
  transfer_tokens_ix source destination authority amount =
      if ltb u64_max amount
      then none
      else some (record {
        program_address = token_program;
        accounts =
            account source writable
            ∷ account destination writable
            ∷ account authority readonly_signer
            ∷ [];
        data_bytes = 3 ∷ kit.encode_u64 amount;
      })

  unfoldable pub mpl_core_transfer_v1_ix : String → String → String → String → Instruction
  mpl_core_transfer_v1_ix asset payer authority new_owner = record {
    program_address = mpl_core_program;
    accounts =
        account asset writable
        ∷ account mpl_core_program readonly
        ∷ account payer writable_signer
        ∷ account authority readonly_signer
        ∷ account new_owner readonly
        ∷ account system_program readonly
        ∷ account mpl_core_program readonly
        ∷ [];
    data_bytes = 14 ∷ 0 ∷ [];
  }

  unfoldable pub mpl_core_update_authority_ix : String → String → String → String → Instruction
  mpl_core_update_authority_ix asset payer authority new_authority = record {
    program_address = mpl_core_program;
    accounts =
        account asset writable
        ∷ account mpl_core_program readonly
        ∷ account payer writable_signer
        ∷ account authority readonly_signer
        ∷ account system_program readonly
        ∷ account mpl_core_program readonly
        ∷ [];
    data_bytes = 15 ∷ 0 ∷ 0 ∷ 1 ∷ 1 ∷ kit.encode_address new_authority;
  }

  unfoldable pub derive_ario_config : String → String
  derive_ario_config program = kit.program_derived_address program (kit.utf8 "ario_config" ∷ [])

  unfoldable pub derive_vault_counter : String → String → String
  derive_vault_counter program recipient =
      kit.program_derived_address program
        (kit.utf8 "vault_counter" ∷ kit.encode_address recipient ∷ [])

  unfoldable pub derive_vault : String → String → ℕ → String
  derive_vault program recipient next_id =
      kit.program_derived_address program
        (kit.utf8 "vault" ∷ kit.encode_address recipient ∷ kit.encode_u64 next_id ∷ [])

  -- The discriminator and the two encoded numbers take eight bytes each.
  unfoldable pub encode_vaulted_transfer_data : ℕ → ℤ → Bool → Option Bytes
  encode_vaulted_transfer_data amount lock_duration_seconds revocable =
      if ltb 0 amount
      then if ltb u64_max amount
        then none
        else some (
            anchor_discriminator "vaulted_transfer"
            ++ kit.encode_u64 amount
            ++ int64_bytes lock_duration_seconds
            ++ (if revocable then 1 else 0) ∷ [])
      else none

  unfoldable pub claim_memo_ix : String → Instruction
  claim_memo_ix claim_id = record {
    program_address = memo_program;
    accounts = [];
    data_bytes = kit.utf8 ("ar.io-claim:" +s claim_id);
  }

  unfoldable pub decode_vault_counter_next_id : Option Bytes → ℕ
  decode_vault_counter_next_id none = 0
  decode_vault_counter_next_id (some data_bytes) =
      if ltb (length data_bytes) 48 then 0 else kit.decode_u64 (take 8 (drop 40 data_bytes))
