-- ===== src/Worker.antt =====
-- DispatchWorker of packages/claims/src/dispatch/worker.ts: what the worker is made of, and the
-- instructions that it builds.
pub mod Fresh
pub mod Process
pub mod Queue
pub mod Sends
pub mod Effects
pub mod Ticks
pub mod Spending
pub mod Guards
pub mod Recorded
use ar_io_solana_attestor.Prelude.{
  ℕ, suc, String, Option, none, some, List, [], ◌∷◌, ◌++◌, Bool, true, if◌then◌else◌,
}
use mathlib.Core.Option.{get_or}
use ar_io_solana_attestor.Prelude.Int.{ℤ, pos, negsuc}
use ar_io_solana_attestor.Audit.Canonical.{decimal, ◌+s◌}
use ar_io_solana_attestor.Instructions.{
  Kit, Instruction, claim_memo_ix, create_ata_idempotent_ix, transfer_tokens_ix,
  get_associated_token_address, mpl_core_transfer_v1_ix, mpl_core_update_authority_ix,
}
use ar_io_solana_attestor.Settlement.{LiquidReason, expired, below_min_amount, below_min_duration}
use ar_io_solana_attestor.Float.{FloatManager}

pub data SignerRole : Type 0 where
  token ant : SignerRole

-- `get_signer` is the address that the unlocked signer signs for; `none` where it throws.
pub record DispenserSigner : Type 0 where
  pub address : String
  pub role : SignerRole
  pub get_signer : Option String

pub data AntDispatchMode : Type 0 where
  cli_cold operator_wallet : AntDispatchMode

-- The members of DispatchWorkerDeps besides the pool and the gateway, with the registry's two
-- signers. `now` is the clock in seconds.
pub record Deps : Type 0 where
  pub token_signer : DispenserSigner
  pub ant_signer : Option DispenserSigner
  pub float : FloatManager
  pub mint : String
  pub min_vault_duration : ℤ
  pub max_vault_duration : ℤ
  pub ario_core_program : Option String
  pub ant_requires_approval : Option Bool
  pub ant_dispatch_mode : Option AntDispatchMode
  pub include_memo : Option Bool
  pub now : ℤ

abbrev pub max_resign_attempts : ℕ
max_resign_attempts = 1

abbrev pub decimal_ℤ : ℤ → String
decimal_ℤ (pos n) = decimal n
decimal_ℤ (negsuc n) = "-" +s decimal (suc n)

abbrev pub reason_text : LiquidReason → String
reason_text expired = "expired"
reason_text below_min_amount = "below_min_amount"
reason_text below_min_duration = "below_min_duration"

module _ (kit : Kit) (deps : Deps) where
  abbrev pub memo_ixs : String → List Instruction
  memo_ixs claim_id = if get_or deps.include_memo true then claim_memo_ix kit claim_id ∷ [] else []

  -- The signer's address, the claimant and the amount; `none` where the transfer throws.
  unfoldable pub build_token_ixs : String → String → String → ℕ → Option (List Instruction)
  build_token_ixs claim_id hot_signer claimant amount =
      let hot_ata = get_associated_token_address kit hot_signer deps.mint in
      let recipient_ata = get_associated_token_address kit claimant deps.mint in
      elim (transfer_tokens_ix kit hot_ata recipient_ata hot_signer amount) [
        | none ↦ none
        | some transfer ↦ some (
            create_ata_idempotent_ix kit hot_signer recipient_ata claimant deps.mint
            ∷ transfer
            ∷ memo_ixs claim_id)
      ]

  unfoldable pub build_ant_ixs : String → String → String → String → List Instruction
  build_ant_ixs claim_id ant_signer ant_mint new_owner =
      mpl_core_transfer_v1_ix kit ant_mint ant_signer ant_signer new_owner
      ∷ mpl_core_update_authority_ix kit ant_mint ant_signer ant_signer new_owner
      ∷ memo_ixs claim_id
