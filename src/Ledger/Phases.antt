-- ===== src/Ledger/Phases.antt =====
-- packages/claims/src/ledger/plan.ts: the recipients and the four phases of buildLedgerPlan.
use ar_io_solana_attestor.Prelude.{
  ℕ, ◌+◌, ◌-◌, ◌/◌, String, Option, none, some, List, [], ◌∷◌, Bool, true, false, not, ◌&&◌, ◌||◌,
  str_eq, ◌==◌, leb, if◌then◌else◌, length,
}
use ar_io_solana_attestor.Prelude.Int.{ℤ, pos, ◌+ℤ◌, ◌-ℤ◌, ltb_ℤ, leb_ℤ, pos_part}
use ar_io_solana_attestor.Audit.{Bytes}
use ar_io_solana_attestor.Dispatch.{any_eq}
use ar_io_solana_attestor.Settlement.{
  min_vault_size_mario, min_vault_lock_seconds, vault_escrow_falls_back_to_liquid,
}
use ar_io_solana_attestor.Ledger.{PlannedStatus, RecipientPlan, PlannedRecipient, LedgerPlan}
use ar_io_solana_attestor.Ledger.Normalize.{
  PlanKit, is_ethereum_address, slice_2, to_hex_text, normalize_source_address, normalized_lookup,
  derive_token_asset_id, derive_vault_asset_id, derive_stake_asset_id, derive_ant_mint_base58,
}
use ar_io_solana_attestor.Ledger.Stakes.{
  EscrowVaultDeposit, EscrowLiquidDeposit, EscrowDepositSet, collect_stake_withdrawal_escrow,
  are_unique_asset_seeds,
}
use ar_io_solana_attestor.Ledger.Plan.{
  AntSnapshot, AoVault, FrozenInputs, Builder, ◌>>=◌, lookup, truthy, is_some, has_source, start,
  add_recipient, push_asset, count_if, count_ant, count_token, count_expired, count_vault,
  count_stake, ant_asset, token_asset, vault_or_token, fold_option,
}

module _ (kit : PlanKit) where
  -- upsertRecipient, for a source that is new.
  abbrev pub new_recipient : String → String → Option Bytes → Builder → Option Builder
  new_recipient owner src none b = some (
      add_recipient
        (record {
          source_address = src;
          protocol = if is_ethereum_address owner then 1 else 0;
          recipient_pubkey = none;
          recipient_id = src;
          status = RecipientPlan.manual_review;
        })
        b)
  new_recipient owner src (some pubkey) b =
      let recipient_id = kit.base64url_encode (kit.sha256 pubkey) in
      if not (is_ethereum_address owner) && not (str_eq recipient_id owner)
      then none
      else some (
          add_recipient
            (record {
              source_address = src;
              protocol = if is_ethereum_address owner then 1 else 0;
              recipient_pubkey = some pubkey;
              recipient_id = recipient_id;
              status = RecipientPlan.open_recipient;
            })
            b)

  unfoldable pub upsert_recipient : String → Option Bytes → Builder → Option Builder
  upsert_recipient owner pubkey b =
      let src = normalize_source_address kit owner in
      if has_source src b.recipients then some b else new_recipient owner src pubkey b

  module _ (inputs : FrozenInputs) where
    abbrev modulus_bytes : Option String → Option (Option Bytes)
    modulus_bytes none = some none
    modulus_bytes (some text) =
        let bytes = kit.base64url_decode text in
        if length bytes == 512 then some (some bytes) else none

    -- The outer `none` is a thrown error.
    unfoldable pub resolve_recipient_pubkey : String → Option (Option Bytes)
    resolve_recipient_pubkey owner =
        if is_ethereum_address owner
        then some (some (kit.hex_decode (slice_2 (normalize_source_address kit owner))))
        else modulus_bytes (truthy (lookup owner inputs.modulus))

    abbrev pub with_status : PlannedStatus → Option Builder → Option (Builder × PlannedStatus)
    with_status status none = none
    with_status status (some b) = some (b, status)

    abbrev pub by_pubkey : String → Builder → Option Bytes → Option (Builder × PlannedStatus)
    by_pubkey owner b (some pubkey) =
        with_status PlannedStatus.available (upsert_recipient owner (some pubkey) b)
    by_pubkey owner b none =
        if any_eq owner inputs.at_risk
        then with_status PlannedStatus.manual_review (upsert_recipient owner none b)
        else none

    unfoldable pub classify_owner : String → Builder → Option (Builder × PlannedStatus)
    classify_owner owner b = resolve_recipient_pubkey owner >>= by_pubkey owner b

    abbrev pub is_mapped : String → Bool
    is_mapped owner = is_some (truthy (normalized_lookup kit owner inputs.address_map))

    abbrev pub source_of : String → String
    source_of owner = normalize_source_address kit owner

    -- What follows classifyOwner in each phase: the asset, and what an available one counts for.
    abbrev pub place :
        String
        → (PlannedStatus → Builder → Option Builder)
        → (Builder → Builder)
        → Builder
        → Option Builder
    place owner push count b = classify_owner owner b >>= λ (c : Builder × PlannedStatus).
        push c.1 c.0 >>= λ (pushed : Builder). some (count_if c.1 count pushed)

    -- Phase 1.
    unfoldable pub plan_ant : Bytes → AntSnapshot → Builder → Option Builder
    plan_ant secret a b =
        if is_mapped a.owner
        then some b
        else derive_ant_mint_base58 kit a.process_id secret >>= λ (mint : String).
            place a.owner (λ status. push_asset (ant_asset mint (source_of a.owner) status))
              count_ant b

    -- Phase 2.
    unfoldable pub plan_balance : String × ℤ → Builder → Option Builder
    plan_balance (addr, amount) b =
        if is_mapped addr || leb_ℤ amount (pos 0)
        then some b
        else place addr
            (λ status. push_asset (
              token_asset (to_hex_text (derive_token_asset_id kit addr)) (source_of addr)
                (pos_part amount) status))
            (count_token (pos_part amount)) b

    -- Phase 3, at a time in milliseconds. The remaining lock is rounded up to whole seconds.
    unfoldable pub plan_vault : ℕ → String → AoVault → Builder → Option Builder
    plan_vault now_ms owner v b =
        let amount = pos_part v.balance in
        let key = to_hex_text (derive_vault_asset_id kit owner v.vault_id) in
        let lock = (v.end_timestamp - now_ms + 999) / 1000 in
        let is_liquid = vault_escrow_falls_back_to_liquid v.balance (pos lock) in
        if leb_ℤ v.balance (pos 0)
        then some b
        else if leb v.end_timestamp now_ms
        then place owner (λ status. push_asset (token_asset key (source_of owner) amount status))
            (count_expired amount) b
        else place owner
            (λ status. push_asset (
              vault_or_token is_liquid key (source_of owner) amount (pos (now_ms / 1000 + lock))
                status))
            (count_vault amount) b

    unfoldable pub plan_vaults : ℕ → String × List AoVault → Builder → Option Builder
    plan_vaults now_ms (owner, vaults) b =
        if is_mapped owner then some b else fold_option (plan_vault now_ms owner) vaults b

    -- Phase 4. A locked exit of an operator is never shorter than the minimum.
    abbrev starts_with : String → String → Bool
    starts_with String.[] s = true
    starts_with (String.◌∷◌ c p) (String.◌∷◌ d s) =
        str_eq (String.◌∷◌ c String.[]) (String.◌∷◌ d String.[]) && starts_with p s
    starts_with _ _ = false

    unfoldable pub stake_lock : ℕ → EscrowVaultDeposit → ℤ
    stake_lock now_ms v =
        let lock = v.unlock_ts -ℤ pos (now_ms / 1000) in
        if starts_with "withdrawal:operator-exit:" v.kind
          && leb_ℤ min_vault_size_mario (pos v.amount_mario)
          && ltb_ℤ (pos 0) lock
          && ltb_ℤ lock min_vault_lock_seconds
        then min_vault_lock_seconds
        else lock

    unfoldable pub plan_stake_vault : ℕ → EscrowVaultDeposit → Builder → Option Builder
    plan_stake_vault now_ms v b =
        let lock = stake_lock now_ms v in
        place v.arweave_addr
          (λ status. push_asset (
            vault_or_token (vault_escrow_falls_back_to_liquid (pos v.amount_mario) lock)
              (to_hex_text (derive_stake_asset_id kit v.asset_id_seed)) (source_of v.arweave_addr)
              v.amount_mario (pos (now_ms / 1000) +ℤ lock) status))
          (count_stake v.amount_mario) b

    unfoldable pub plan_stake_liquid : EscrowLiquidDeposit → Builder → Option Builder
    plan_stake_liquid l b =
        place l.arweave_addr
          (λ status. push_asset (
            token_asset (to_hex_text (derive_stake_asset_id kit l.asset_id_seed))
              (source_of l.arweave_addr) l.amount_mario status))
          (count_stake l.amount_mario) b

    abbrev pub load_modulus : String × String → Builder → Option Builder
    load_modulus (addr, text) = upsert_recipient addr (some (kit.base64url_decode text))

    abbrev pub load_at_risk : String → Builder → Option Builder
    load_at_risk addr = upsert_recipient addr none

    abbrev pub stake_phase : ℕ → EscrowDepositSet → Builder → Option Builder
    stake_phase now_ms set b =
        if are_unique_asset_seeds kit set
        then (fold_option (plan_stake_vault now_ms) set.vaults b
            >>= fold_option plan_stake_liquid set.liquid)
        else none

    unfoldable pub build_all : Bytes → ℕ → Option Builder
    build_all secret now_ms =
        fold_option load_modulus inputs.modulus start
        >>= fold_option load_at_risk inputs.at_risk
        >>= fold_option (plan_ant secret) inputs.ants
        >>= fold_option plan_balance inputs.balances
        >>= fold_option (plan_vaults now_ms) inputs.vaults
        >>= stake_phase now_ms (collect_stake_withdrawal_escrow kit inputs.plan)

abbrev count_manual : List PlannedRecipient → ℕ
count_manual [] = 0
count_manual (r ∷ rest) =
    (elim r.status [ RecipientPlan.manual_review ↦ 1 | RecipientPlan.open_recipient ↦ 0 ])
    + count_manual rest

abbrev pub plan_of : Builder → LedgerPlan
plan_of b = record {
  recipients = b.recipients;
  assets = b.assets;
  counters = b.counters;
  phase2_token_outflow_mario = b.phase2_token_outflow_mario;
  phase3_vault_mario = b.phase3_vault_mario;
  phase4_stake_mario = b.phase4_stake_mario;
  at_risk_recipient_count = count_manual b.recipients;
}

unfoldable pub build_ledger_plan : PlanKit → FrozenInputs → Bytes → ℕ → Option LedgerPlan
build_ledger_plan kit inputs secret now_ms =
    build_all kit inputs secret now_ms >>= λ (b : Builder). some (plan_of b)
