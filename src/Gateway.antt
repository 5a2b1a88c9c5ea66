-- ===== src/Gateway.antt =====
-- The chain as the dispatch sees it: the interface ChainGateway of
-- packages/claims/src/dispatch/chain.ts, as the answers of one run. `none` of an Option is a thrown
-- error. Addresses, signatures and wire bytes are texts.
pub mod Status
pub mod Outflow
use ar_io_solana_attestor.Prelude.{ℕ, String, Option, List, Bool}
use ar_io_solana_attestor.Audit.{Bytes}
use ar_io_solana_attestor.Instructions.{Instruction}

pub data ConfirmState : Type 0 where
  confirmed failed pending expired : ConfirmState

pub record SignedDispatch : Type 0 where
  pub signature : String
  pub blockhash : String
  pub last_valid_block_height : ℕ
  pub wire_base64 : String

pub record Gateway : Type 0 where
  pub get_token_balance : String → Option ℕ
  pub get_account_data : String → Option (Option Bytes)
  pub sign_transaction : List Instruction → String → Option SignedDispatch
  pub broadcast : String → Option (Unit {0})
  pub confirm_signature : String → ℕ → Option ConfirmState
  -- The scan for one of the known signatures over the addresses' histories.
  pub find_confirmed_outflow : List String → List String → Option (Option String)
