-- ===== src/Ledger/Accepted.antt =====
-- The recipients of writeLedger, packages/claims/src/ledger/build.ts, against the table's constraints.
use ar_io_solana_attestor.Prelude.{
  ℕ, ◌≡◌, refl, String, some, List, [], ◌∷◌, Bool, true, false, ◌&&◌, ◌||◌, str_eq, arith, map,
}
use ar_io_solana_attestor.Store.{Recipient}
use ar_io_solana_attestor.Dispatch.{any_eq}
use ar_io_solana_attestor.Ledger.{PlannedRecipient}
use ar_io_solana_attestor.Ledger.Write.{
  upsert_all, upsert_recipient, fits_recipient, source_taken, insert_recipient,
}
use ar_io_solana_attestor.Ledger.Balance.{has_repeated}

abbrev pub all_acceptable : List PlannedRecipient → Bool
all_acceptable [] = true
all_acceptable (r ∷ rest) = fits_recipient r && all_acceptable rest

-- Some recipient's source is another identifier's in the table.
abbrev pub any_taken : List PlannedRecipient → List Recipient → Bool
any_taken [] table = false
any_taken (r ∷ rest) table = source_taken r table || any_taken rest table

abbrev pub sources : List PlannedRecipient → List String
sources rows = map (λ (r : PlannedRecipient). r.source_address) rows

module _ (now : ℕ) where
  source_taken-upsert_recipient :
      (p q : PlannedRecipient) (table : List Recipient)
      → str_eq p.source_address q.source_address ≡ false
      → source_taken q table ≡ false
      → source_taken q (upsert_recipient now p table) ≡ false
  unfolding source_taken upsert_recipient
  source_taken-upsert_recipient p q [] h k = ground arith
  source_taken-upsert_recipient p q (r ∷ rest) h k =
      ground (arith, source_taken-upsert_recipient p q rest h)

  any_taken-upsert_recipient :
      (p : PlannedRecipient) (rows : List PlannedRecipient) (table : List Recipient)
      → any_eq p.source_address (sources rows) ≡ false
      → any_taken rows table ≡ false
      → any_taken rows (upsert_recipient now p table) ≡ false
  unfolding any_eq
  any_taken-upsert_recipient p [] table h k = refl
  any_taken-upsert_recipient p (q ∷ rest) table h k =
      ground
        (arith, source_taken-upsert_recipient p q table, any_taken-upsert_recipient p rest table)

  insert_recipient-accepted :
      (r : PlannedRecipient) (table : List Recipient)
      → fits_recipient r ≡ true
      → source_taken r table ≡ false
      → insert_recipient now r (some table) ≡ some (upsert_recipient now r table)
  insert_recipient-accepted r table fits free = rw (fits, free) refl

  -- Acceptable recipients of distinct and free sources are all upserted.
  pub upsert_all-insert_recipient :
      (rows : List PlannedRecipient) (table : List Recipient)
      → all_acceptable rows ≡ true
      → has_repeated (sources rows) ≡ false
      → any_taken rows table ≡ false
      → upsert_all
          (λ (r : PlannedRecipient). r.recipient_id)
          (insert_recipient now)
          rows
          (some table)
        ≡ some (
            upsert_all (λ (r : PlannedRecipient). r.recipient_id) (upsert_recipient now) rows table)
  unfolding upsert_all has_repeated
  upsert_all-insert_recipient [] table fits distinct free = refl
  upsert_all-insert_recipient (r ∷ rest) table fits distinct free =
      rw (insert_recipient-accepted r table (ground arith) (ground arith)) (
        upsert_all-insert_recipient rest (upsert_recipient now r table) (ground arith)
          (ground arith) (any_taken-upsert_recipient r rest table (ground arith) (ground arith)))
