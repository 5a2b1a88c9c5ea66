-- ===== src/Service/Winner.antt =====
-- An asset has one winner: completeClaim of packages/claims/src/api/service.ts, whatever else runs.
use ar_io_solana_attestor.Prelude.{
  ℕ, zero, suc, ◌+◌, ◌≤◌, ◌≡◌, refl, sym, ap, ◌∙◌, String, some, List, [], ◌∷◌, Bool, true, false,
  arith, str_eq, eq_iff, Bool-cases, inl, inr, if◌then◌else◌,
}
use mathlib.Core.Path.{subst}
use ar_io_solana_attestor.Audit.{Bytes, Context}
use ar_io_solana_attestor.Store.{ClaimStatus, AssetStatus, Asset, Db, find_asset, update_asset}
use ar_io_solana_attestor.Store.Laws.{find_asset-update_asset, find_asset-key}
use ar_io_solana_attestor.Dispatch.Claimed.{asset_status}
use ar_io_solana_attestor.Dispatch.Free.{is_free, free, update_asset-free, apply-free}
use ar_io_solana_attestor.Service.{Response, Exit, finish, Service, reject_claim}
use ar_io_solana_attestor.Service.Proof.{CompleteInput}
use ar_io_solana_attestor.Service.Complete.{CompleteStatus, CompleteResult, taken_row}
use ar_io_solana_attestor.Service.Initiate.{InitiateInput, initiate_claim}
use ar_io_solana_attestor.Service.Begun.{initiate_claim-Begins, Begins-assets}
use ar_io_solana_attestor.Service.Reaper.{reap_expired_challenges, batch}
use ar_io_solana_attestor.Service.Sweep.{reap_rows-Keeps}
use ar_io_solana_attestor.Service.Outcomes.{
  Ends, faults, fails, keeps, turns_away, expires, replays, wins, complete_claim-Ends, WinStatuses,
  verifies, waits,
}
use ar_io_solana_attestor.Service.History.{
  Action, complete, initiate, reap, dispatch, act, run_actions, win_of, count_wins,
}

module _ (ctx : Context) (service : Service) (key : String) where
  -- A first success takes the asset from `available`; any other answer opens no asset.
  abbrev OneStep : Db → Db → ℕ → Type 0
  OneStep db db' n =
      (free key db' ≡ true → free key db ≡ true)
      × (n ≤ 1)
      × (n ≡ 1 → free key db ≡ true)
      × (n ≡ 1 → free key db' ≡ false)

  kept : (db : Db) → OneStep db db 0
  kept db = ((λ e. e), omega arith, (λ n. absurd (omega arith)), (λ n. absurd (omega arith)))

  abbrev taken_assets : AssetStatus → String → Db → List Asset
  taken_assets status k db = update_asset k (taken_row ctx service status) db.assets

  won_status :
      (cs : CompleteStatus) (claim_status : ClaimStatus) (asset_status : AssetStatus)
      → WinStatuses cs claim_status asset_status
      → is_free (some asset_status) ≡ false
  won_status _ _ _ verifies = refl
  won_status _ _ _ waits = refl

  won_step :
      (status : AssetStatus) (k : String) (a : Asset) (db : Db)
      → is_free (some status) ≡ false
      → find_asset k db.assets ≡ some a
      → a.status ≡ AssetStatus.available
      → (is_free (asset_status key (taken_assets status a.asset_key db)) ≡ true
          → free key db ≡ true)
        × (str_eq k key ≡ true → free key db ≡ true)
        × (str_eq k key ≡ true
            → is_free (asset_status key (taken_assets status a.asset_key db)) ≡ false)
  won_step status k a db shut found available =
      let same = find_asset-key k db.assets a found in
      let after =
        find_asset-update_asset (taken_row ctx service status) (λ b. refl) a.asset_key key
          db.assets in
      let equal = eq_iff k key in
      (
        update_asset-free (taken_row ctx service status) a.asset_key key db.assets
            (λ b. (refl, λ e. cc)),
        (λ e. ground arith),
        (λ e. ground arith),
      )

  as_count :
      (b : Bool) (db db' : Db)
      → (free key db' ≡ true → free key db ≡ true)
      → (b ≡ true → free key db ≡ true)
      → (b ≡ true → free key db' ≡ false)
      → OneStep db db' (if b then 1 else 0)
  as_count true db db' shuts before after =
      (shuts, omega arith, (λ n. before refl), (λ n. after refl))
  as_count false db db' shuts before after =
      (shuts, omega arith, (λ n. absurd (omega arith)), (λ n. absurd (omega arith)))

  complete_step :
      (input : CompleteInput) (db : Db) (x : Exit CompleteResult)
      → Ends ctx service input db x
      → OneStep db (finish db x).0 (win_of key (some (finish db x).1))
  unfolding win_of reject_claim
  complete_step input db x faults = kept db
  complete_step input db x (fails e) = kept db
  complete_step input db x (keeps e) = kept db
  complete_step input db x (turns_away c code reason e found claiming) = kept db
  complete_step input db x (expires c found claiming) = kept db
  complete_step input db x (replays c p status found completed given shown) = kept db
  complete_step input db x (wins c a r view p proof v cs s t entry statuses proven unique) =
      let (shuts, before, after) =
        won_step t c.asset_key a db (won_status cs s t statuses) proven.asset proven.is_available in
      as_count (str_eq c.asset_key key) db (finish db x).0 shuts before after

no_more : (n : ℕ) (b : Bool) → n ≤ 1 → (n ≡ 1 → b ≡ true) → b ≡ false → n ≡ 0
no_more zero b few before shut = refl
no_more (suc zero) b few before shut = cc (before refl)
no_more (suc (suc n)) b few before shut = absurd (omega arith)

at_most : (n m : ℕ) → n ≤ 1 → (n ≡ 1 → m ≡ 0) → m ≤ 1 → n + m ≤ 1
at_most zero m few none_left later = omega arith
at_most (suc zero) m few none_left later = omega (arith, none_left refl)
at_most (suc (suc n)) m few none_left later = absurd (omega arith)

module _ (service : Service) (key : String) where
  initiate-assets :
      (ctx : Context) (challenge : Bytes) (claim_id : String) (input : InitiateInput) (db : Db)
      → (initiate_claim ctx service challenge claim_id input db).0.assets ≡ db.assets
  initiate-assets ctx challenge claim_id input db =
      let (x, (run, begun)) = initiate_claim-Begins ctx service challenge claim_id input db in
      ap (λ o. o.0.assets) run ∙ Begins-assets ctx service challenge claim_id input db x begun

  unmoved :
      (ctx : Context) (db db' : Db) → db'.assets ≡ db.assets → OneStep ctx service key db db' 0
  unmoved ctx db db' e = (
    (λ h. ap (λ t. is_free (asset_status key t)) (sym e) ∙ h),
    omega arith,
    (λ n. absurd (omega arith)),
    (λ n. absurd (omega arith)),
  )

  act_step :
      (ctx : Context) (action : Action) (db : Db)
      → OneStep ctx service key db
          (act service ctx action db).0
          (win_of key (act service ctx action db).1)
  unfolding act win_of reap_expired_challenges
  act_step ctx (complete input) db =
      let (x, (run, ends)) = complete_claim-Ends ctx service input db in
      subst
        (λ (o : Db × Response CompleteResult).
          OneStep ctx service key db o.0 (win_of key (some o.1)))
        (sym run) (complete_step ctx service key input db x ends)
  act_step ctx (initiate challenge claim_id input) db =
      unmoved ctx db (initiate_claim ctx service challenge claim_id input db).0
        (initiate-assets ctx challenge claim_id input db)
  act_step ctx (reap now limit) db =
      let (assets, claims) = reap_rows-Keeps ctx now (batch ctx now limit db) db in
      unmoved ctx db (reap_expired_challenges ctx now limit db).0 assets
  act_step ctx (dispatch t) db = (
    apply-free ctx key t db,
    omega arith,
    (λ n. absurd (omega arith)),
    (λ n. absurd (omega arith)),
  )

  still_shut :
      (db next : Db)
      → (free key next ≡ true → free key db ≡ true)
      → free key db ≡ false
      → free key next ≡ false
  still_shut db next shuts shut = elim (Bool-cases (free key next)) [
    | inl opened ↦ cc (shuts opened)
    | inr e ↦ e
  ]

  no_win :
      (actions : List (Context × Action)) (db : Db)
      → free key db ≡ false
      → count_wins key (run_actions service actions db).1 ≡ 0
  unfolding run_actions count_wins
  no_win [] db shut = refl
  no_win ((ctx, action) ∷ rest) db shut =
      let (shuts, few, before, after) = act_step ctx action db in
      let next = (act service ctx action db).0 in
      let first =
        no_more (win_of key (act service ctx action db).1) (free key db) few before shut in
      omega (arith, first, no_win rest next (still_shut db next shuts shut))

  one_win :
      (actions : List (Context × Action)) (db : Db)
      → count_wins key (run_actions service actions db).1 ≤ 1
  unfolding run_actions count_wins
  one_win [] db = omega arith
  one_win ((ctx, action) ∷ rest) db =
      let (shuts, few, before, after) = act_step ctx action db in
      let next = (act service ctx action db).0 in
      at_most (win_of key (act service ctx action db).1)
        (count_wins key (run_actions service rest next).1) few (λ n. no_win rest next (after n))
        (one_win rest next)

-- In any history of completions, initiations, sweeps and transactions of the dispatch, an asset is won
-- at most once: at most one completion answers a first success on it.
pub count_wins-le :
    (service : Service) (key : String) (actions : List (Context × Action)) (db : Db)
    → count_wins key (run_actions service actions db).1 ≤ 1
count_wins-le service key actions db = one_win service key actions db
