-- ===== src/Dispatch/Persist.antt =====
-- packages/claims/src/dispatch/dispatch-core.ts: persistDispatching, finalizeConfirmed and markFailed.
-- A transaction that rolls back leaves the database as it was.
use ar_io_solana_attestor.Prelude.{String, Option, none, some, [], ◌∷◌, ◌++◌, if◌then◌else◌}
use mathlib.Core.Option
use ar_io_solana_attestor.Audit.{Context, AuditEntry, append_audit}
use ar_io_solana_attestor.Audit.Canonical.{end, field, string, decimal}
use ar_io_solana_attestor.Store.{
  dispatching, confirmed, failed, AssetStatus, claimed, Claim, Asset, Db, find_claim, find_asset,
  update_claim, update_asset,
}
use ar_io_solana_attestor.Dispatch.{
  PersistDispatchingArgs, entry_of, optional_field, signatures, any_eq, can_dispatch,
  asset_eligible, unless_claimed,
}

module _ (ctx : Context) where
  abbrev pub dispatching_row : PersistDispatchingArgs → Claim → Claim
  dispatching_row args c = record c {
    status = dispatching;
    dispatch_signature = some args.signed.signature;
    dispatch_blockhash = some args.signed.blockhash;
    dispatch_last_valid_bh = some args.signed.last_valid_block_height;
    dispatch_started_at = some ctx.now;
    settlement_amount = args.settlement_amount;
    settlement = elim args.settlement_label [ none ↦ c.settlement | some label ↦ some label ];
    tx_signatures = some (signatures c ++ args.signed.signature ∷ []);
    error = none;
    updated_at = ctx.now;
  }

  abbrev pub dispatching_entry : PersistDispatchingArgs → AuditEntry
  dispatching_entry args =
      record (entry_of "claim.dispatching" args.claim_id args.asset_key "dispatching") {
        detail = some (
            field "signature" (string args.signed.signature) (
              field "blockhash" (string args.signed.blockhash) (
                field "lastValidBlockHeight" (string (decimal args.signed.last_valid_block_height))
                  (optional_field "settlement" args.settlement_label
                    (optional_field "amount" (Option.map decimal args.settlement_amount) end)))));
      }

  abbrev pub dispatching_db : PersistDispatchingArgs → Db → Db
  dispatching_db args db = record db {
    claims = update_claim args.claim_id (dispatching_row args) db.claims;
    assets = update_asset args.asset_key (unless_claimed AssetStatus.claiming ctx.now) db.assets;
    audit = append_audit ctx db.audit (dispatching_entry args);
  }

  -- The committed database, if the transaction commits; `none` where it rolls back.
  unfoldable pub persist_dispatching : PersistDispatchingArgs → Db → Option Db
  persist_dispatching args db = elim (find_claim args.claim_id db.claims) [
    | none ↦ none
    | some c ↦
        if can_dispatch c.status c.approved_at
        then (elim (find_asset args.asset_key db.assets) [
          | none ↦ none
          | some a ↦ if asset_eligible a.status then some (dispatching_db args db) else none
        ])
        else none
  ]

  abbrev pub confirmed_row : String → Claim → Claim
  confirmed_row signature c = record c {
    status = confirmed;
    confirmed_at = some ctx.now;
    tx_signatures =
        if any_eq signature (signatures c)
        then c.tx_signatures
        else some (signatures c ++ signature ∷ []);
    error = none;
    updated_at = ctx.now;
  }

  abbrev pub claimed_row : Asset → Asset
  claimed_row a = record a { status = claimed; updated_at = ctx.now }

  -- dispatching to confirmed, and the asset to claimed.
  unfoldable pub finalize_confirmed : String → String → Db → Db
  finalize_confirmed claim_id signature db = elim (find_claim claim_id db.claims) [
    | none ↦ db
    | some c ↦ elim c.status [
      | confirmed ↦ db
      | _ ↦ record db {
        claims = update_claim claim_id (confirmed_row signature) db.claims;
        assets = update_asset c.asset_key claimed_row db.assets;
        audit =
            append_audit ctx db.audit
              (record (entry_of "claim.confirmed" claim_id c.asset_key "confirmed") {
                detail = some (
                    field "signature" (string signature) (
                      optional_field "settlementAmount" (Option.map decimal c.settlement_amount)
                        end));
              });
      }
    ]
  ]

  abbrev pub failed_row : String → Claim → Claim
  failed_row reason c = record c { status = failed; error = some reason; updated_at = ctx.now }

  -- dispatching to failed; the asset stays claiming.
  unfoldable pub mark_failed : String → String → Db → Db
  mark_failed claim_id reason db = elim (find_claim claim_id db.claims) [
    | none ↦ db
    | some c ↦ elim c.status [
      | confirmed ↦ db
      | _ ↦ record db {
        claims = update_claim claim_id (failed_row reason) db.claims;
        audit =
            append_audit ctx db.audit
              (record (entry_of "claim.failed" claim_id c.asset_key "failed") {
                reason = some reason;
              });
      }
    ]
  ]
