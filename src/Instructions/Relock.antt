-- ===== src/Instructions/Relock.antt =====
-- packages/claims/src/dispatch/vault-relock.ts with vaultedTransferIx of instructions.ts: the
-- delivery of a locked vault.
use ar_io_solana_attestor.Prelude.{ℕ, String, Option, none, some, List, [], ◌∷◌, false}
use ar_io_solana_attestor.Prelude.Int.{ℤ}
use ar_io_solana_attestor.Audit.{Bytes}
use ar_io_solana_attestor.Instructions.{
  Kit, account, readonly, writable, writable_signer, Instruction, token_program, system_program,
  create_ata_idempotent_ix, derive_ario_config, derive_vault_counter, derive_vault,
  decode_vault_counter_next_id, get_associated_token_address, encode_vaulted_transfer_data,
}

pub record VaultedTransferArgs : Type 0 where
  pub ario_core_program : String
  pub config : String
  pub recipient_vault_counter : String
  pub vault : String
  pub sender_token_account : String
  pub vault_token_account : String
  pub recipient : String
  pub sender : String
  pub amount : ℕ
  pub lock_duration_seconds : ℤ

pub record VaultRelockArgs : Type 0 where
  pub read_account : String → Option (Option Bytes)
  pub ario_core_program : String
  pub mint : String
  pub sender : String
  pub claimant : String
  pub amount : ℕ
  pub lock_duration_seconds : ℤ
  pub memo_ixs : List Instruction

pub record VaultRelockBuild : Type 0 where
  pub ixs : List Instruction
  pub vault : String
  pub vault_ata : String
  pub next_id : ℕ

module _ (kit : Kit) where
  unfoldable pub vaulted_transfer_ix : VaultedTransferArgs → Option Instruction
  vaulted_transfer_ix args =
      elim (encode_vaulted_transfer_data kit args.amount args.lock_duration_seconds false) [
        | none ↦ none
        | some encoded ↦ some (record {
          program_address = args.ario_core_program;
          accounts =
              account args.config writable
              ∷ account args.recipient_vault_counter writable
              ∷ account args.vault writable
              ∷ account args.sender_token_account writable
              ∷ account args.vault_token_account writable
              ∷ account args.recipient readonly
              ∷ account args.sender writable_signer
              ∷ account token_program readonly
              ∷ account system_program readonly
              ∷ [];
          data_bytes = encoded;
        })
      ]

  -- The delivery, once the recipient's counter has been read.
  abbrev relock_delivery : VaultRelockArgs → ℕ → Option VaultRelockBuild
  relock_delivery args next_id =
      let vault = derive_vault kit args.ario_core_program args.claimant next_id in
      let vault_ata = get_associated_token_address kit vault args.mint in
      let transfer : VaultedTransferArgs = record {
        ario_core_program = args.ario_core_program;
        config = derive_ario_config kit args.ario_core_program;
        recipient_vault_counter = derive_vault_counter kit args.ario_core_program args.claimant;
        vault = vault;
        sender_token_account = get_associated_token_address kit args.sender args.mint;
        vault_token_account = vault_ata;
        recipient = args.claimant;
        sender = args.sender;
        amount = args.amount;
        lock_duration_seconds = args.lock_duration_seconds;
      } in
      elim (vaulted_transfer_ix transfer) [
        | none ↦ none
        | some ix ↦ some (record {
          ixs =
              create_ata_idempotent_ix kit args.sender vault_ata vault args.mint
              ∷ ix
              ∷ args.memo_ixs;
          vault = vault;
          vault_ata = vault_ata;
          next_id = next_id;
        })
      ]

  unfoldable pub build_vault_relock_ixs : VaultRelockArgs → Option VaultRelockBuild
  build_vault_relock_ixs args =
      elim (args.read_account (derive_vault_counter kit args.ario_core_program args.claimant)) [
        | none ↦ none
        | some counter ↦ relock_delivery args (decode_vault_counter_next_id kit counter)
      ]
