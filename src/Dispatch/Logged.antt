-- ===== src/Dispatch/Logged.antt =====
-- The audit log through the transactions of packages/claims/src/dispatch/dispatch-core.ts.
use ar_io_solana_attestor.Prelude.{
  ◌≡◌, String, none, some, List, [], ◌∷◌, Bool, true, arith, Option-cases, inl, inr, map,
}
use mathlib.Core.Option
use mathlib.Core.Option.{get_or}
use ar_io_solana_attestor.Audit.{Bytes, Context, AuditEntry, AuditLog, append_audit}
use ar_io_solana_attestor.Audit.Canonical.{end, field, string, decimal}
use ar_io_solana_attestor.Audit.Chain.{verify_audit_chain}
use ar_io_solana_attestor.Audit.Chain.Links.{append_audit-verifies}
use ar_io_solana_attestor.Store.{Db, find_claim}
use ar_io_solana_attestor.Dispatch.{PersistDispatchingArgs, entry_of, optional_field}
use ar_io_solana_attestor.Dispatch.Persist.{
  persist_dispatching, dispatching_entry, finalize_confirmed, mark_failed,
}
use ar_io_solana_attestor.Dispatch.Recovery.{
  mark_needs_operator, clear_dead_signature, revert_text, route_to_review,
  route_to_manual_vault_delivery, approve_claim, status_text,
}
use ar_io_solana_attestor.Dispatch.Transitions.{
  Transition, persist, finalize, fail, freeze, clear, review, deliver_manually, approve, apply, run,
}

-- What an audit log has to keep: the property that a Boolean function of it tests.
module _ (ctx : Context) (sound : AuditLog → Bool)
    (stays : (log : AuditLog) (entry : AuditEntry)
      → sound log ≡ true
      → sound (append_audit ctx log entry) ≡ true) where
  finalize_sound :
      (id sig : String) (db : Db)
      → sound db.audit ≡ true
      → sound (finalize_confirmed ctx id sig db).audit ≡ true
  unfolding finalize_confirmed
  finalize_sound id sig db h = elim (Option-cases (find_claim id db.claims)) [
    | inl missing ↦ ground arith
    | inr (c, found) ↦ ground (
      arith,
      stays db.audit (record (entry_of "claim.confirmed" id c.asset_key "confirmed") {
        detail = some (
            field "signature" (string sig)
              (optional_field "settlementAmount" (Option.map decimal c.settlement_amount) end));
      }),
    )
  ]

  fail_sound :
      (id reason : String) (db : Db)
      → sound db.audit ≡ true
      → sound (mark_failed ctx id reason db).audit ≡ true
  unfolding mark_failed
  fail_sound id reason db h = elim (Option-cases (find_claim id db.claims)) [
    | inl missing ↦ ground arith
    | inr (c, found) ↦ ground (
      arith,
      stays db.audit
          (record (entry_of "claim.failed" id c.asset_key "failed") { reason = some reason }),
    )
  ]

  freeze_sound :
      (id reason : String) (db : Db)
      → sound db.audit ≡ true
      → sound (mark_needs_operator ctx id reason db).0.audit ≡ true
  unfolding mark_needs_operator
  freeze_sound id reason db h = elim (Option-cases (find_claim id db.claims)) [
    | inl missing ↦ ground arith
    | inr (c, found) ↦ ground (
      arith,
      stays db.audit (record (entry_of "claim.needs_operator" id c.asset_key "needs_operator") {
        reason = some reason;
        detail = some (
            field "severity" (string "critical")
              (optional_field "deadSignature" c.dispatch_signature end));
      }),
    )
  ]

  clear_sound :
      (id : String) (db : Db)
      → sound db.audit ≡ true
      → sound (clear_dead_signature ctx id db).audit ≡ true
  unfolding clear_dead_signature
  clear_sound id db h = elim (Option-cases (find_claim id db.claims)) [
    | inl missing ↦ ground arith
    | inr (c, found) ↦ ground (
      arith,
      stays db.audit
          (record (entry_of "claim.dispatch_expired" id c.asset_key
            (revert_text ctx c.approved_at)) {
              detail = some (optional_field "deadSignature" c.dispatch_signature end);
            }),
    )
  ]

  review_sound :
      (id key reason : String) (db : Db)
      → sound db.audit ≡ true
      → sound (route_to_review ctx id key reason db).audit ≡ true
  unfolding route_to_review
  review_sound id key reason db h = ground (
    arith,
    stays db.audit
        (record (entry_of "claim.pending_review" id key "pending_review") { reason = some reason }),
  )

  deliver_sound :
      (id key unlock lock : String) (db : Db)
      → sound db.audit ≡ true
      → sound (route_to_manual_vault_delivery ctx id key unlock lock db).audit ≡ true
  unfolding route_to_manual_vault_delivery
  deliver_sound id key unlock lock db h = ground (
    arith,
    stays db.audit
        (record (entry_of "claim.awaiting_manual_vault_delivery" id key
          "awaiting_manual_vault_delivery") {
            detail = some (
                field "unlockTimestamp" (string unlock)
                  (field "lockDurationSeconds" (string lock) end));
          }),
  )

  approve_sound :
      (id approver : String) (db : Db)
      → sound db.audit ≡ true
      → sound (get_or (approve_claim ctx id approver db) db).audit ≡ true
  unfolding approve_claim
  approve_sound id approver db h = elim (Option-cases (find_claim id db.claims)) [
    | inl missing ↦ ground arith
    | inr (c, found) ↦ ground (
      arith,
      stays db.audit (record (entry_of "claim.approved" id c.asset_key (status_text ctx c.status)) {
        detail = some (field "approvedBy" (string approver) end);
      }),
    )
  ]

  persist_sound :
      (args : PersistDispatchingArgs) (db : Db)
      → sound db.audit ≡ true
      → sound (get_or (persist_dispatching ctx args db) db).audit ≡ true
  unfolding persist_dispatching
  persist_sound args db h = ground (arith, stays db.audit (dispatching_entry ctx args))

  apply_sound :
      (t : Transition) (db : Db) → sound db.audit ≡ true → sound (apply ctx t db).audit ≡ true
  unfolding apply
  apply_sound (persist args) db h = persist_sound args db h
  apply_sound (finalize id sig) db h = finalize_sound id sig db h
  apply_sound (fail id reason) db h = fail_sound id reason db h
  apply_sound (freeze id reason) db h = freeze_sound id reason db h
  apply_sound (clear id) db h = clear_sound id db h
  apply_sound (review id key reason) db h = review_sound id key reason db h
  apply_sound (deliver_manually id key unlock lock) db h = deliver_sound id key unlock lock db h
  apply_sound (approve id approver) db h = approve_sound id approver db h

-- A log that verifies from genesis under a key still does after any sequence of these transactions
-- in one context, if a registered signer's signatures verify under that key.
pub run-verifies :
    (ctx : Context) (verify_ed25519 : Bytes → Bytes → Bytes → Bool) (key : Bytes)
    (ts : List Transition) (db : Db)
    → ((hash : Bytes) (sign : Bytes → Bytes)
        → ctx.audit_signer ≡ some sign
        → verify_ed25519 hash (sign hash) key ≡ true)
    → (verify_audit_chain ctx verify_ed25519 db.audit.rows
        (record { audit_pubkey = some key; initial_prev_hash = none })).ok
      ≡ true
    → (verify_audit_chain ctx verify_ed25519
        (run (map (λ t. (ctx, t)) ts) db).audit.rows
        (record { audit_pubkey = some key; initial_prev_hash = none })).ok
      ≡ true
unfolding run
run-verifies ctx verify_ed25519 key [] db signs ok = ok
run-verifies ctx verify_ed25519 key (t ∷ rest) db signs ok =
    run-verifies ctx verify_ed25519 key rest (apply ctx t db) signs (
      apply_sound ctx
        (λ log.
          (verify_audit_chain ctx verify_ed25519 log.rows
            (record { audit_pubkey = some key; initial_prev_hash = none })).ok)
        (λ log entry ok'. append_audit-verifies ctx verify_ed25519 log entry key signs ok') t db ok)
