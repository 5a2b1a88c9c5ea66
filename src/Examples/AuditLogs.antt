-- ===== src/Examples/AuditLogs.antt =====
-- The audit chain at a log of two entries.
use ar_io_solana_attestor.Prelude.{
  ◌≡◌, ◌↔◌, ◌⊎◌, refl, sym, Option, none, some, List, [], ◌∷◌, Bool, true, length, ap,
}
use ar_io_solana_attestor.Audit.{
  Bytes, zero32, AuditLog, AuditRow, append_audit, last_hash, new_row,
}
use ar_io_solana_attestor.Audit.Chain.{
  ChainHead, VerifyChainOptions, bytes_eq, verify_audit_chain, scan_row, scan_rows,
}
use ar_io_solana_attestor.Audit.Chain.Links.{
  bytes_eq_iff, IsChain, verify_audit_chain_iff, append_audit-verifies,
}
use ar_io_solana_attestor.Audit.Chain.Tamper.{SameRows, Collision, verify_audit_chain_binds}
use ar_io_solana_attestor.Dispatch.{entry_of}
use ar_io_solana_attestor.Dispatch.Transitions.{Transition, persist, finalize, run}
use ar_io_solana_attestor.Dispatch.Logged.{run-verifies}
use ar_io_solana_attestor.Store.{Db}
use mathlib.Core.List.{map}
use ar_io_solana_attestor.Examples.Fixtures.{
  digest, sample_ctx, sample_claim, sample_asset, sample_args, db_of,
}

unfoldable check_signature : Bytes → Bytes → Bytes → Bool
check_signature hash sig key = bytes_eq sig (7 ∷ hash)

abbrev log_of_one : AuditLog
log_of_one =
    append_audit sample_ctx (record { rows = []; next_seq = 1 })
      (entry_of "claim.verified" "c1" "a1" "verified")

abbrev log_of_two : AuditLog
log_of_two = append_audit sample_ctx log_of_one (entry_of "claim.confirmed" "c1" "a1" "confirmed")

abbrev key : Bytes
key = 1 ∷ []

abbrev opts : VerifyChainOptions
opts = record { audit_pubkey = some key; initial_prev_hash = none }

signs :
    (hash : Bytes) (sign : Bytes → Bytes)
    → sample_ctx.audit_signer ≡ some sign
    → check_signature hash (sign hash) key ≡ true
unfolding check_signature
signs hash sign e =
    let at : (7 ∷ hash) ≡ sign hash =
      ap (λ (o : Option (Bytes → Bytes)). elim o [ none ↦ [] | some f ↦ f hash ]) e in
    (bytes_eq_iff (sign hash) (7 ∷ hash)).1 (sym at)

abbrev Verifies : AuditLog → Type 0
Verifies log = (verify_audit_chain sample_ctx check_signature log.rows opts).ok ≡ true

none_ok : Verifies (record { rows = []; next_seq = 1 })
none_ok = (verify_audit_chain_iff sample_ctx check_signature [] (some key) none).1 tt

one_ok : Verifies log_of_one
one_ok = append_audit-verifies sample_ctx check_signature _ _ key signs none_ok

append_audit-verifies_example : Verifies log_of_two
append_audit-verifies_example =
    append_audit-verifies sample_ctx check_signature log_of_one
      (entry_of "claim.confirmed" "c1" "a1" "confirmed") key signs one_ok

verify_audit_chain_iff_example :
    ((verify_audit_chain sample_ctx check_signature log_of_two.rows opts).ok ≡ true)
    ↔ IsChain sample_ctx check_signature (some key) zero32 log_of_two.rows
verify_audit_chain_iff_example =
    verify_audit_chain_iff sample_ctx check_signature log_of_two.rows (some key) none

length-digest : (b : Bytes) → length (digest b) ≡ 32
length-digest b = refl

abbrev rows_of_one : List AuditRow
rows_of_one = log_of_one.rows

-- The head of the log of one entry.
abbrev head_of_one : ChainHead
head_of_one = record { seq = 1; entry_hash = last_hash sample_ctx rows_of_one }

verify_audit_chain_binds_example :
    SameRows sample_ctx check_signature rows_of_one rows_of_one
    ⊎ Collision sample_ctx check_signature rows_of_one rows_of_one
unfolding verify_audit_chain scan_rows scan_row append_audit new_row last_hash
verify_audit_chain_binds_example =
    verify_audit_chain_binds sample_ctx check_signature length-digest rows_of_one rows_of_one
      (some key) head_of_one head_of_one one_ok one_ok refl refl refl refl

abbrev logged : Db
logged = record (db_of sample_claim sample_asset) { audit = log_of_one }

abbrev payment : List Transition
payment = persist sample_args ∷ finalize "c1" "sig1" ∷ []

run-verifies_example : Verifies (run (map (λ t. (sample_ctx, t)) payment) logged).audit
run-verifies_example = run-verifies sample_ctx check_signature key payment logged signs one_ok
