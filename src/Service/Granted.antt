-- ===== src/Service/Granted.antt =====
-- What a success of completeClaim rests on: packages/claims/src/api/service.ts over the verifier.
use ar_io_solana_attestor.Prelude.{
  ◌≡◌, refl, sym, ap, ◌∙◌, String, some, true, false, arith, length, eq_iff,
}
use mathlib.Core.Path.{subst}
use ar_io_solana_attestor.Audit.{Bytes, Context}
use ar_io_solana_attestor.Store.{
  ClaimStatus, AssetStatus, Claim, Asset, Recipient, Db, find_asset, update_asset,
}
use ar_io_solana_attestor.Store.Laws.{find_asset-update_asset, find_asset-key}
use ar_io_solana_attestor.Dispatch.Claimed.{asset_status}
use ar_io_solana_attestor.Verify.{RecipientView, ClaimProof, VerifiedProof, VerifyArgs}
use ar_io_solana_attestor.Verify.Authorized.{Authorized, verify_claim-Authorized}
use ar_io_solana_attestor.Service.{
  returns, Exit, finish, Service, to_asset_view, compute_settlement,
}
use ar_io_solana_attestor.Service.Proof.{ProofInput, CompleteInput, verify_replay_proof}
use ar_io_solana_attestor.Service.Complete.{
  CompleteStatus, verified, pending_review, CompleteResult, complete_claim, taken_row,
  challenge_nonce_of, result_of,
}
use ar_io_solana_attestor.Service.Outcomes.{
  Ends, faults, fails, keeps, turns_away, expires, replays, wins, complete_claim-Ends, WinStatuses,
  CompletedAs, verifies, waits, Proven, Found,
}

-- The status of the asset that goes with the status of a success.
abbrev pub asset_status_of : CompleteStatus → AssetStatus
asset_status_of verified = AssetStatus.claiming
asset_status_of pending_review = AssetStatus.pending_review

pub returns-inj : (q r : CompleteResult) → returns q ≡ returns r → q ≡ r
returns-inj q r e = cc

module _ (ctx : Context) (service : Service) (input : CompleteInput) (db : Db) where
  abbrev pub args_of : Claim → Asset → RecipientView → ClaimProof → VerifyArgs
  args_of c a view proof = record {
    recipient = view;
    asset = to_asset_view a (challenge_nonce_of ctx service c);
    proof = proof;
    network = service.config.network;
  }

  -- A success: either the claim has just won its asset by an authorized proof, or it had won before,
  -- the proof is accepted again, and nothing is written.
  pub data Granted (r : CompleteResult) (db' : Db) : Type 0 where
    won :
        (c : Claim) (a : Asset) (row : Recipient) (view : RecipientView) (p : ProofInput)
        (proof : ClaimProof) (v : VerifiedProof)
        → Proven ctx service input db c a row view p proof v
        → Authorized service.crypto (args_of c a view proof) v
        → r.claim_id ≡ c.claim_id
        → r.claimant ≡ c.claimant
        → r.idempotent_replay ≡ false
        → asset_status c.asset_key db'.assets ≡ some (asset_status_of r.status)
        → Granted r db'
    replayed :
        (c : Claim) (p : ProofInput)
        → Found ctx service input db c
        → CompletedAs r.status c.status
        → input.proof ≡ some p
        → verify_replay_proof service c p input.nonce_hex db ≡ returns tt
        → r.claim_id ≡ c.claim_id
        → r.claimant ≡ c.claimant
        → r.idempotent_replay ≡ true
        → db' ≡ db
        → Granted r db'

  statuses_agree :
      (cs : CompleteStatus) (s : ClaimStatus) (t : AssetStatus)
      → WinStatuses cs s t
      → t ≡ asset_status_of cs
  statuses_agree _ _ _ verifies = refl
  statuses_agree _ _ _ waits = refl

  taken_after :
      (t : AssetStatus) (k : String) (a : Asset)
      → find_asset k db.assets ≡ some a
      → asset_status k (update_asset a.asset_key (taken_row ctx service t) db.assets) ≡ some t
  taken_after t k a found =
      let same = find_asset-key k db.assets a found in
      let after =
        find_asset-update_asset (taken_row ctx service t) (λ b. refl) a.asset_key k db.assets in
      ground (arith, after, eq_iff a.asset_key k)

  Ends-Granted :
      (x : Exit CompleteResult) (r : CompleteResult)
      → ((b : Bytes) → length (service.crypto.keccak_256 b) ≡ 32)
      → Ends ctx service input db x
      → (finish db x).1 ≡ returns r
      → Granted r (finish db x).0
  Ends-Granted x r size faults e = absurd (ground arith)
  Ends-Granted x r size (fails e') e = absurd (ground arith)
  Ends-Granted x r size (keeps e') e = absurd (ground arith)
  Ends-Granted x r size (turns_away c code reason e' found claiming) e = absurd (ground arith)
  Ends-Granted x r size (expires c found claiming) e = absurd (ground arith)
  Ends-Granted x r size (replays c p status found completed given shown) e =
      let same = returns-inj (result_of c status c.settlement true) r e in
      replayed c p found (subst (λ q. CompletedAs q.status c.status) same completed) given shown
        (ap (λ q. q.claim_id) (sym same)) (ap (λ q. q.claimant) (sym same))
        (ap (λ q. q.idempotent_replay) (sym same)) refl
  Ends-Granted x r size (wins c a row view p proof v cs s t entry statuses proven unique) e =
      let same = returns-inj (result_of c cs (compute_settlement ctx a) false) r e in
      won c a row view p proof v proven
        (verify_claim-Authorized service.crypto (args_of c a view proof) v size proven.accepted)
        (ap (λ q. q.claim_id) (sym same)) (ap (λ q. q.claimant) (sym same))
        (ap (λ q. q.idempotent_replay) (sym same))
        (taken_after t c.asset_key a proven.asset
          ∙ ap some (statuses_agree cs s t statuses ∙ ap (λ q. asset_status_of q.status) same))

pub complete_claim-Granted :
    (ctx : Context) (service : Service) (input : CompleteInput) (db : Db) (r : CompleteResult)
    → ((b : Bytes) → length (service.crypto.keccak_256 b) ≡ 32)
    → (complete_claim ctx service input db).1 ≡ returns r
    → Granted ctx service input db r (complete_claim ctx service input db).0
complete_claim-Granted ctx service input db r size e =
    let (x, (run, ends)) = complete_claim-Ends ctx service input db in
    subst (Granted ctx service input db r) (ap (λ o. o.0) (sym run))
      (Ends-Granted ctx service input db x r size ends (ap (λ o. o.1) (sym run) ∙ e))
