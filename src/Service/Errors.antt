-- ===== src/Service/Errors.antt =====
-- What an error of completeClaim leaves: packages/claims/src/api/service.ts.
use ar_io_solana_attestor.Prelude.{
  ◌≡◌, refl, sym, ap, ◌∙◌, String, List, [], ◌∷◌, true, false, arith,
}
use mathlib.Core.Path.{subst}
use ar_io_solana_attestor.Audit.{Context}
use ar_io_solana_attestor.Store.{Claim, Db, is_live, has_live, update_claim}
use ar_io_solana_attestor.Service.{
  ApiError, throws, Exit, finish, Service, reject_claim, rejected_row, expired_row,
}
use ar_io_solana_attestor.Service.Proof.{CompleteInput}
use ar_io_solana_attestor.Service.Complete.{CompleteResult, complete_claim}
use ar_io_solana_attestor.Service.Outcomes.{
  Ends, faults, fails, keeps, turns_away, expires, replays, wins, complete_claim-Ends,
}

-- Closing a claim makes no asset's live claim.
abbrev Closes : (Claim → Claim) → Type 0
Closes f = (c : Claim) → (is_live (f c).status ≡ false) × ((f c).asset_key ≡ c.asset_key)

has_live-close :
    (f : Claim → Claim) (id key : String) (claims : List Claim)
    → Closes f
    → has_live key (update_claim id f claims) ≡ true
    → has_live key claims ≡ true
unfolding has_live update_claim
has_live-close f id key [] closes e = e
has_live-close f id key (c ∷ rest) closes e =
    let (dead, same) = closes c in ground (arith, has_live-close f id key rest closes)

module _ (ctx : Context) (service : Service) (input : CompleteInput) (db : Db) where
  -- The assets are as they were, and no asset has gained a live claim.
  abbrev pub Untouched : Db → Type 0
  Untouched db' =
      (db'.assets ≡ db.assets)
      × ((key : String) → has_live key db'.claims ≡ true → has_live key db.claims ≡ true)

  Ends-Untouched :
      (x : Exit CompleteResult) (e : ApiError)
      → Ends ctx service input db x
      → (finish db x).1 ≡ throws e
      → Untouched (finish db x).0
  unfolding reject_claim
  Ends-Untouched x e faults same = cc
  Ends-Untouched x e (fails e') same = (refl, λ key h. h)
  Ends-Untouched x e (keeps e') same = (refl, λ key h. h)
  Ends-Untouched x e (turns_away c code reason e' found claiming) same = (
    refl,
    λ key h. has_live-close (rejected_row ctx code) c.claim_id key db.claims (λ d. (refl, refl)) h,
  )
  Ends-Untouched x e (expires c found claiming) same = (
    refl,
    λ key h. has_live-close (expired_row ctx) c.claim_id key db.claims (λ d. (refl, refl)) h,
  )
  Ends-Untouched x e (replays c p status found completed given shown) same = cc
  Ends-Untouched x e (wins c a r view p proof v cs s t entry statuses proven unique) same = cc

-- A completion that answers with an ApiError leaves every asset as it was, and no asset gains a live
-- claim.
pub complete_claim-throws :
    (ctx : Context) (service : Service) (input : CompleteInput) (db : Db) (e : ApiError)
    → (complete_claim ctx service input db).1 ≡ throws e
    → Untouched ctx service input db (complete_claim ctx service input db).0
complete_claim-throws ctx service input db e failed =
    let (x, (run, ends)) = complete_claim-Ends ctx service input db in
    subst (Untouched ctx service input db) (ap (λ o. o.0) (sym run))
      (Ends-Untouched ctx service input db x e ends (ap (λ o. o.1) (sym run) ∙ failed))
