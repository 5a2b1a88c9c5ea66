-- ===== src/Service/Retry.antt =====
-- A retry of the request that won: the idempotent replay of completeClaim in
-- packages/claims/src/api/service.ts.
use ar_io_solana_attestor.Prelude.{
  ◌≡◌, refl, sym, ap, ◌∙◌, String, Option, none, some, List, [], ◌∷◌, true, false, arith, eq_iff,
  length,
}
use mathlib.Core.Path.{subst}
use mathlib.Core.Option.{get_or}
use ar_io_solana_attestor.Audit.{Bytes, Context}
use ar_io_solana_attestor.Store.{
  ClaimStatus, AssetStatus, Claim, Asset, Recipient, Db, find_asset, find_claim, update_asset,
  update_claim,
}
use ar_io_solana_attestor.Store.Laws.{
  find_asset-update_asset, find_asset-key, find_claim-id, find_claim-update_same,
}
use ar_io_solana_attestor.Verify.{Crypto, ok, RecipientView, ClaimProof, VerifiedProof}
use ar_io_solana_attestor.Verify.Canonical.{LedgerClaim, build_canonical_from_ledger}
use ar_io_solana_attestor.Verify.Authorized.{verify_claim-Authorized}
use ar_io_solana_attestor.Service.{
  passes, returns, Exit, commit, finish, Service, truthy, to_recipient_view, find_recipient,
  find_by_idempotency_key, compute_settlement,
}
use ar_io_solana_attestor.Service.Proof.{
  ProofInput, CompleteInput, verify_replay_proof, replay_nonce, replay_asset, replay_row,
  replay_recipient, replay_proof, replay_verdict, build_proof, verify_with,
}
use ar_io_solana_attestor.Service.Complete.{
  CompleteStatus, CompleteResult, complete_claim, taken_row, won_row, challenge_nonce_of, result_of,
  lookup_claim, with_proof, by_claim_status, replay_exit, stored_salt,
}
use ar_io_solana_attestor.Service.Granted.{args_of, returns-inj}
use ar_io_solana_attestor.Service.Outcomes.{
  Ends, faults, fails, keeps, turns_away, expires, replays, wins, complete_claim-Ends, WinStatuses,
  verifies, waits,
}

module _ (f : Claim → Claim)
    (keeps_key : (c : Claim) → (f c).idempotency_key ≡ c.idempotency_key) where
  find_by_idempotency_key-update_claim :
      (key : String) (claims : List Claim) (c : Claim)
      → find_by_idempotency_key key claims ≡ some c
      → find_by_idempotency_key key (update_claim c.claim_id f claims) ≡ some (f c)
  unfolding find_by_idempotency_key update_claim
  find_by_idempotency_key-update_claim key [] c e = cc
  find_by_idempotency_key-update_claim key (d ∷ rest) c e = ground (
    arith,
    keeps_key d,
    eq_iff d.claim_id c.claim_id,
    find_by_idempotency_key-update_claim key rest c,
  )

some-inj : (a b : Option Claim) → some a ≡ some b → a ≡ b
some-inj a b e = cc

-- The challenge that a rebuilt message holds has 32 bytes, so that there is one.
built_nonce-length :
    (crypto : Crypto) (args : LedgerClaim) (m : Bytes)
    → build_canonical_from_ledger crypto args ≡ ok m
    → length args.nonce ≡ 32
unfolding build_canonical_from_ledger
built_nonce-length crypto args m e = ground arith

challenge_given : (o : Option Bytes) → length (get_or o []) ≡ 32 → o ≡ some (get_or o [])
challenge_given none e = absurd (ground arith)
challenge_given (some b) e = refl

module _ (ctx ctx' : Context) (service : Service) where
  lookup_claim-update :
      (id key : Option String) (f : Claim → Claim) (db db' : Db) (c : Claim)
      → ((d : Claim) → (f d).claim_id ≡ d.claim_id)
      → ((d : Claim) → (f d).idempotency_key ≡ d.idempotency_key)
      → lookup_claim ctx service id key db ≡ some (some c)
      → db'.claims ≡ update_claim c.claim_id f db.claims
      → lookup_claim ctx' service id key db' ≡ some (some (f c))
  lookup_claim-update (some id) key f db db' c ids keys found written =
      let here = some-inj _ _ found in
      let at = find_claim-id id db.claims c here in
      ap (λ cs. some (find_claim id cs)) written
      ∙ ap (λ k. some (find_claim id (update_claim k f db.claims))) at
      ∙ ap some (find_claim-update_same f ids id db.claims c here)
  lookup_claim-update none (some key) f db db' c ids keys found written =
      ap (λ cs. some (find_by_idempotency_key key cs)) written
      ∙ ap some (find_by_idempotency_key-update_claim f keys key db.claims c (some-inj _ _ found))
  lookup_claim-update none none f db db' c ids keys found written = cc

  replayed_proof :
      (c : Claim) (p : ProofInput) (nonce_hex : Option String) (db : Db) (challenge : Bytes)
      (a : Asset) (r : Recipient) (view : RecipientView) (proof : ClaimProof) (v : VerifiedProof)
      → c.challenge_nonce ≡ some challenge
      → find_asset c.asset_key db.assets ≡ some a
      → find_recipient a.recipient_id db.recipients ≡ some r
      → to_recipient_view r ≡ passes view
      → build_proof service p c.claimant view.protocol nonce_hex ≡ passes proof
      → verify_with service view a challenge proof ≡ ok v
      → verify_replay_proof service c p nonce_hex db ≡ returns tt
  unfolding verify_replay_proof
  replayed_proof c p nonce_hex db challenge a r view proof v e1 e2 e3 e4 e5 e6 =
      ap (replay_nonce service c p nonce_hex db) e1
      ∙ ap (replay_asset service c p nonce_hex db challenge) e2
      ∙ ap (replay_row service c p nonce_hex a challenge) e3
      ∙ ap (replay_recipient service c p nonce_hex a challenge) e4
      ∙ ap (replay_proof service view a challenge) e5
      ∙ ap (replay_verdict service) e6

module _ (ctx ctx' : Context) (service : Service)
    (size : (b : Bytes) → length (service.crypto.keccak_256 b) ≡ 32) (input : CompleteInput)
    (db : Db) where
  -- The replay of a claim that has its status from a win.
  status_replay :
      (c : Claim) (p : ProofInput) (cs : CompleteStatus) (s : ClaimStatus) (t : AssetStatus)
      (db' : Db)
      → WinStatuses cs s t
      → verify_replay_proof service c p input.nonce_hex db' ≡ returns tt
      → by_claim_status ctx' service input p c db' s
        ≡ commit db' (returns (result_of c cs c.settlement true))
  status_replay c p _ _ _ db' verifies e = ap (replay_exit ctx' service c _ db') e
  status_replay c p _ _ _ db' waits e = ap (replay_exit ctx' service c _ db') e

  won_asset :
      (t : AssetStatus) (k : String) (a : Asset)
      → find_asset k db.assets ≡ some a
      → find_asset k (update_asset a.asset_key (taken_row ctx service t) db.assets)
        ≡ some (taken_row ctx service t a)
  won_asset t k a found =
      let same = find_asset-key k db.assets a found in
      let after =
        find_asset-update_asset (taken_row ctx service t) (λ b. refl) a.asset_key k db.assets in
      ground (arith, after, eq_iff a.asset_key k)

  abbrev Retries : Db → CompleteResult → Type 0
  Retries db' r =
      complete_claim ctx' service input db' ≡ (db', returns (record r { idempotent_replay = true }))

  retry_of :
      (x : Exit CompleteResult) (r : CompleteResult)
      → Ends ctx service input db x
      → (finish db x).1 ≡ returns r
      → r.idempotent_replay ≡ false
      → Retries (finish db x).0 r
  unfolding complete_claim
  retry_of x r faults e new = absurd (ground arith)
  retry_of x r (fails e') e new = absurd (ground arith)
  retry_of x r (keeps e') e new = absurd (ground arith)
  retry_of x r (turns_away c code reason e' found claiming) e new = absurd (ground arith)
  retry_of x r (expires c found claiming) e new = absurd (ground arith)
  retry_of x r (replays c p status found completed given shown) e new = absurd (ground arith)
  retry_of x r (wins c a row view p proof v cs s t entry statuses proven unique) e new =
      let f =
        won_row ctx service s proof.signature (stored_salt view.protocol proof.salt_length)
          (compute_settlement ctx a) in
      let db' = (finish db x).0 in
      let authorized =
        verify_claim-Authorized service.crypto (args_of ctx service input db c a view proof) v size
          proven.accepted in
      let challenge = challenge_nonce_of ctx service c in
      let given =
        challenge_given c.challenge_nonce (built_nonce-length service.crypto _ _ authorized.0) in
      let found =
        lookup_claim-update ctx ctx' service (truthy input.claim_id) (truthy input.idempotency_key)
          f db db' c (λ d. refl) (λ d. refl) proven.found refl in
      let shown =
        replayed_proof ctx ctx' service (f c) p input.nonce_hex db' challenge
          (taken_row ctx service t a) row view proof v given
          (won_asset t c.asset_key a proven.asset) proven.row proven.key proven.built
          proven.accepted in
      ap (λ o. finish db' (with_proof ctx' service input db' o input.proof)) found
      ∙ ap (λ o. finish db' (with_proof ctx' service input db' (some (some (f c))) o)) proven.given
      ∙ ap (finish db') (status_replay (f c) p cs s t db' statuses shown)
      ∙ ap (λ q. (db', returns (record q { idempotent_replay = true }))) (returns-inj _ _ e)

-- After a first success, the same request on the database that it left, at any later reading of the
-- clock, is answered with the same result, marked as a replay, and writes nothing. Keccak-256 is assumed to give 32 bytes.
pub complete_claim_retry :
    (ctx ctx' : Context) (service : Service) (input : CompleteInput) (db : Db) (r : CompleteResult)
    → ((b : Bytes) → length (service.crypto.keccak_256 b) ≡ 32)
    → (complete_claim ctx service input db).1 ≡ returns r
    → r.idempotent_replay ≡ false
    → complete_claim ctx' service input (complete_claim ctx service input db).0
      ≡ ((complete_claim ctx service input db).0, returns (record r { idempotent_replay = true }))
complete_claim_retry ctx ctx' service input db r size e new =
    let (x, (run, ends)) = complete_claim-Ends ctx service input db in
    subst (λ db'. Retries ctx ctx' service size input db db' r) (ap (λ o. o.0) (sym run))
      (retry_of ctx ctx' service size input db x r ends (ap (λ o. o.1) (sym run) ∙ e) new)
