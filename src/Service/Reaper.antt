-- ===== src/Service/Reaper.antt =====
-- packages/claims/src/api/reaper.ts: the sweep of expired challenges, at a given time.
use ar_io_solana_attestor.Prelude.{
  ℕ, zero, suc, ◌+◌, Option, none, some, List, [], ◌∷◌, Bool, true, false, ◌&&◌, leb, ltb, ◌==◌,
  if◌then◌else◌, length, take,
}
use ar_io_solana_attestor.Audit.{Context, AuditEntry, append_audit}
use ar_io_solana_attestor.Store.{ClaimStatus, Claim, Db, update_claim}
use ar_io_solana_attestor.Service.{claim_entry, expired_row}

abbrev pub is_claiming : ClaimStatus → Bool
is_claiming ClaimStatus.claiming = true
is_claiming _ = false

abbrev pub is_by : ℕ → Option ℕ → Bool
is_by now none = false
is_by now (some at) = leb at now

-- `status = 'claiming' AND challenge_expires_at IS NOT NULL AND challenge_expires_at <= $1`
unfoldable pub is_due : ℕ → Claim → Bool
is_due now c = is_claiming c.status && is_by now c.challenge_expires_at

unfoldable pub due : ℕ → List Claim → List Claim
due now [] = []
due now (c ∷ rest) = let later = due now rest in if is_due now c then c ∷ later else later

abbrev pub expires_before : Option ℕ → Option ℕ → Bool
expires_before (some a) (some b) = leb a b
expires_before (some a) none = true
expires_before none b = false

-- ORDER BY challenge_expires_at
unfoldable pub insert_by_expiry : Claim → List Claim → List Claim
insert_by_expiry c [] = c ∷ []
insert_by_expiry c (d ∷ rest) =
    let later = insert_by_expiry c rest in
    if expires_before c.challenge_expires_at d.challenge_expires_at then c ∷ d ∷ rest else d ∷ later

unfoldable pub by_expiry : List Claim → List Claim
by_expiry [] = []
by_expiry (c ∷ rest) = insert_by_expiry c (by_expiry rest)

-- `Math.min(Math.max(opts.limit ?? 500, 1), 5000)`
abbrev pub clamp : ℕ → ℕ
clamp n = if ltb n 1 then 1 else if ltb 5000 n then 5000 else n

abbrev pub batch_limit : Option ℕ → ℕ
batch_limit none = 500
batch_limit (some n) = clamp n

module _ (ctx : Context) where
  -- `UPDATE claims SET status = 'expired' ... WHERE claim_id = $1 AND status = 'claiming'`
  abbrev pub expire_claiming : Claim → Claim
  expire_claiming c = if is_claiming c.status then expired_row ctx c else c

  abbrev pub reaped_entry : Claim → AuditEntry
  reaped_entry c = record (claim_entry "claim.expired" c "expired") {
    reason = some "challenge expired (reaped)";
  }

  abbrev pub reaped_db : Claim → Db → Db
  reaped_db row db = record db {
    claims = update_claim row.claim_id expire_claiming db.claims;
    audit = append_audit ctx db.audit (reaped_entry row);
  }

  unfoldable pub reap_rows : List Claim → Db → Db
  reap_rows [] db = db
  reap_rows (row ∷ rest) db = reap_rows rest (reaped_db row db)

  abbrev pub batch : ℕ → Option ℕ → Db → List Claim
  batch now limit db = take (batch_limit limit) (by_expiry (due now db.claims))

  -- The number reaped, and the database.
  unfoldable pub reap_expired_challenges : ℕ → Option ℕ → Db → Db × ℕ
  reap_expired_challenges now limit db =
      (reap_rows (batch now limit db) db, length (batch now limit db))

  -- The loop of reapAllExpiredChallenges on fuel; `none` where the fuel ends.
  unfoldable pub reap_loop : ℕ → ℕ → Option ℕ → ℕ → Db → Option (Db × ℕ)
  reap_loop zero now limit total db = none
  reap_loop (suc fuel) now limit total db =
      let (db', n) = reap_expired_challenges now limit db in
      let rest = reap_loop fuel now limit (total + n) db' in
      if n == 0 then some (db', total + n) else rest
