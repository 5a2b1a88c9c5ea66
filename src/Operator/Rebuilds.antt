-- ===== src/Operator/Rebuilds.antt =====
-- How often a claim's transaction is rebuilt: the counter of
-- packages/claims/src/dispatch/ant-operator.ts through submitAntBatch.
pub mod Batch
use ar_io_solana_attestor.Prelude.{
  ◌&&◌, ℕ, ◌+◌, ◌≤◌, ◌<◌, ◌≡◌, refl, sym, ap, ◌∙◌, String, Option, none, some, List, [], ◌∷◌, Bool,
  true, false, arith, str_eq, eq_iff, if◌then◌else◌, Option-cases, Bool-cases, leb, inl, inr,
}
use mathlib.Core.Option
use mathlib.Core.Path.{subst}
use ar_io_solana_attestor.Audit.{Context, Bytes}
use ar_io_solana_attestor.Gateway.{Gateway, ConfirmState}
use ar_io_solana_attestor.Store.{
  ClaimStatus, dispatching, Claim, Db, find_claim, update_claim, find_asset,
}
use ar_io_solana_attestor.Store.Laws.{find_claim-update_claim}
use ar_io_solana_attestor.Dispatch.{PersistDispatchingArgs, can_dispatch, asset_eligible}
use ar_io_solana_attestor.Dispatch.Persist.{
  persist_dispatching, dispatching_row, finalize_confirmed, confirmed_row, mark_failed, failed_row,
}
use ar_io_solana_attestor.Dispatch.Recovery.{mark_needs_operator, frozen_row}
use ar_io_solana_attestor.Dispatch.Core.{
  World, Reply, returns, throws, settle, after_persist, dispatch_signed_tx,
}
use ar_io_solana_attestor.Operator.{AntKit, Decoded, present, max_ant_rebuild_attempts}
use ar_io_solana_attestor.Operator.Recover.{
  AntSubmitOutcome, AntSubmitResult, rebuild_row, rebuild_db, release_reservation_for_rebuild,
  resolve_outflow, recover_expired, recover_as, recover_dispatching, recover_status, recover_claim,
  recover_reserved_ant_claim,
}

abbrev pub count_of : Option Claim → ℕ
count_of none = 0
count_of (some c) = c.dispatch_resign_count

-- The counter of the claim's rebuilds.
abbrev pub rebuilds : String → Db → ℕ
rebuilds j db = count_of (find_claim j db.claims)

abbrev is_release : AntSubmitOutcome → Bool
is_release AntSubmitOutcome.released_for_rebuild = true
is_release _ = false

-- Whether a result reports the release of the claim for a rebuild, and how many of some results do.
abbrev pub release_in : String → Option AntSubmitResult → ℕ
release_in j none = 0
release_in j (some r) = elim r.claim_id [
  | none ↦ 0
  | some id ↦ if is_release r.outcome && str_eq id j then 1 else 0
]

abbrev pub releases : String → List AntSubmitResult → ℕ
releases j [] = 0
releases j (r ∷ rest) = release_in j (some r) + releases j rest

module _ (j : String) where
  -- The counter rises by the releases that are reported, and stays within the cap.
  pub record Counts (w after : World) (released : ℕ) : Type 0 where
    pub rises : rebuilds j after.db ≡ rebuilds j w.db + released
    pub capped : rebuilds j after.db ≤ 1

  pub still :
      (w after : World)
      → rebuilds j w.db ≤ 1
      → rebuilds j after.db ≡ rebuilds j w.db
      → Counts w after 0
  still w after h e = record { rises = omega (arith, e); capped = omega (arith, h, e) }

  rebuilds-update :
      (f : Claim → Claim)
      → ((c : Claim) → (f c).claim_id ≡ c.claim_id)
      → ((c : Claim) → (f c).dispatch_resign_count ≡ c.dispatch_resign_count)
      → (id : String) (claims : List Claim)
      → count_of (find_claim j (update_claim id f claims)) ≡ count_of (find_claim j claims)
  rebuilds-update f keeps same id claims = elim (Option-cases (find_claim j claims)) [
    | inl missing ↦ ground (arith, find_claim-update_claim f keeps id j claims)
    | inr (c, found) ↦ ground (arith, same c, find_claim-update_claim f keeps id j claims)
  ]

  module _ (ctx : Context) where
    finalize-rebuilds :
        (id sig : String) (db : Db) → rebuilds j (finalize_confirmed ctx id sig db) ≡ rebuilds j db
    unfolding finalize_confirmed
    finalize-rebuilds id sig db =
        ground (arith, rebuilds-update (confirmed_row ctx sig) (λ c. refl) (λ c. refl) id db.claims)

    fail-rebuilds :
        (id reason : String) (db : Db) → rebuilds j (mark_failed ctx id reason db) ≡ rebuilds j db
    unfolding mark_failed
    fail-rebuilds id reason db =
        ground (arith, rebuilds-update (failed_row ctx reason) (λ c. refl) (λ c. refl) id db.claims)

    freeze-rebuilds :
        (id reason : String) (db : Db)
        → rebuilds j (mark_needs_operator ctx id reason db).0 ≡ rebuilds j db
    unfolding mark_needs_operator
    freeze-rebuilds id reason db =
        ground (arith, rebuilds-update (frozen_row ctx reason) (λ c. refl) (λ c. refl) id db.claims)

    persist-rebuilds :
        (args : PersistDispatchingArgs) (db after : Db)
        → persist_dispatching ctx args db ≡ some after
        → rebuilds j after ≡ rebuilds j db
    unfolding persist_dispatching
    persist-rebuilds args db after e = ground (
      arith,
      rebuilds-update (dispatching_row ctx args) (λ c. refl) (λ c. refl) args.claim_id db.claims,
    )

    release-rebuild_db :
        (id : String) (c : Claim) (db : Db)
        → find_claim id db.claims ≡ some c
        → c.status ≡ dispatching
        → release_reservation_for_rebuild ctx id db ≡ rebuild_db ctx id c db
    unfolding release_reservation_for_rebuild
    release-rebuild_db id c db found at = ground arith

    -- The counter moves by one, at a claim that is below the cap.
    release-Counts :
        (id : String) (c : Claim) (w : World)
        → find_claim id w.db.claims ≡ some c
        → c.status ≡ dispatching
        → c.dispatch_resign_count < 1
        → rebuilds j w.db ≤ 1
        → Counts w
            (record w { db = release_reservation_for_rebuild ctx id w.db })
            (if str_eq id j then 1 else 0)
    release-Counts id c w found at below h =
        let moved = find_claim-update_claim (rebuild_row ctx) (λ d. refl) id j w.db.claims in
        subst (λ db. Counts w (record w { db = db }) (if str_eq id j then 1 else 0))
          (sym (release-rebuild_db id c w.db found at))
          (elim (Bool-cases (str_eq id j)) [
            | inl same ↦
                let here : id ≡ j = (eq_iff id j).0 same in
                let row : find_claim j w.db.claims ≡ some c =
                  subst (λ k. find_claim k w.db.claims ≡ some c) here found in
                record { rises = ground arith; capped = ground arith }
            | inr other ↦ record { rises = ground arith; capped = ground arith }
          ])

  -- A recovery of the claim that is read from this database.
  module _ (k : AntKit) (gateway : Gateway) (ctx : Context) (treasury id : String) (w : World) where
    -- What a recovery leaves and reports.
    abbrev CountsFor : World × Option AntSubmitResult → Type 0
    CountsFor r = Counts w r.0 (release_in j r.1)

    module _ (c : Claim) (found : find_claim id w.db.claims ≡ some c)
        (h : rebuilds j w.db ≤ 1) where
      resolve_outflow-Counts :
          (sig : String) (o : Option (Option String))
          → c.status ≡ dispatching
          → CountsFor (resolve_outflow k gateway ctx treasury id c sig w o)
      resolve_outflow-Counts sig none at = still w _ h refl
      resolve_outflow-Counts sig (some (some landed)) at =
          still w _ h (finalize-rebuilds ctx id landed w.db)
      resolve_outflow-Counts sig (some none) at =
          elim (Bool-cases (leb max_ant_rebuild_attempts c.dispatch_resign_count)) [
            | inl capped ↦ rw capped (still w _ h (freeze-rebuilds ctx id _ w.db))
            | inr below ↦ rw below (release-Counts ctx id c w found at (ground arith) h)
          ]

      recover_expired-Counts :
          (sig : String)
          → c.status ≡ dispatching
          → CountsFor (recover_expired k gateway ctx treasury id c sig w)
      recover_expired-Counts sig at = elim (Bool-cases (k.kit.is_address c.claimant)) [
        | inl named ↦ rw named (resolve_outflow-Counts sig _ at)
        | inr unnamed ↦ rw unnamed (still w w h refl)
      ]

      recover_as-Counts :
          (sig : String) (o : Option ConfirmState)
          → c.status ≡ dispatching
          → CountsFor (recover_as k gateway ctx treasury id c sig w o)
      recover_as-Counts sig none at = still w w h refl
      recover_as-Counts sig (some ConfirmState.confirmed) at =
          still w _ h (finalize-rebuilds ctx id sig w.db)
      recover_as-Counts sig (some ConfirmState.failed) at =
          still w _ h (fail-rebuilds ctx id _ w.db)
      recover_as-Counts sig (some ConfirmState.expired) at = recover_expired-Counts sig at
      recover_as-Counts sig (some ConfirmState.pending) at = still w w h refl

      recover_dispatching-Counts :
          (o : Option String)
          → c.status ≡ dispatching
          → CountsFor (recover_dispatching k gateway ctx treasury id c w o)
      recover_dispatching-Counts none at = still w w h refl
      recover_dispatching-Counts (some sig) at = recover_as-Counts sig _ at

      recover_status-Counts :
          (s : ClaimStatus)
          → c.status ≡ s
          → CountsFor (recover_status k gateway ctx treasury id c w s)
      recover_status-Counts ClaimStatus.confirmed at = still w w h refl
      recover_status-Counts dispatching at =
          recover_dispatching-Counts (present c.dispatch_signature) at
      recover_status-Counts _ at = still w w h refl

    recover_claim-Counts :
        (o : Option Claim)
        → find_claim id w.db.claims ≡ o
        → rebuilds j w.db ≤ 1
        → CountsFor (recover_claim k gateway ctx treasury id w o)
    recover_claim-Counts none e h = still w w h refl
    recover_claim-Counts (some c) e h = recover_status-Counts c e h c.status refl

    pub recover-Counts :
        rebuilds j w.db ≤ 1 → CountsFor (recover_reserved_ant_claim k gateway ctx treasury id w)
    unfolding recover_reserved_ant_claim
    recover-Counts h = recover_claim-Counts _ refl h

  module _ (gateway : Gateway) (ctx : Context) (args : PersistDispatchingArgs) where
    settle-rebuilds :
        (w : World) (o : Option ConfirmState)
        → rebuilds j (settle ctx args w o).0.db ≡ rebuilds j w.db
    settle-rebuilds w none = refl
    settle-rebuilds w (some ConfirmState.confirmed) = finalize-rebuilds ctx _ _ w.db
    settle-rebuilds w (some ConfirmState.failed) = fail-rebuilds ctx _ _ w.db
    settle-rebuilds w (some ConfirmState.pending) = refl
    settle-rebuilds w (some ConfirmState.expired) = refl

    after_persist-rebuilds :
        (w : World) (o : Option Db)
        → persist_dispatching ctx args w.db ≡ o
        → rebuilds j (after_persist ctx gateway args w o).0.db ≡ rebuilds j w.db
    after_persist-rebuilds w none e = refl
    after_persist-rebuilds w (some db) e = settle-rebuilds _ _ ∙ persist-rebuilds ctx args w.db db e

    pub dispatch-rebuilds :
        (w : World) → rebuilds j (dispatch_signed_tx ctx gateway args w).0.db ≡ rebuilds j w.db
    unfolding dispatch_signed_tx
    dispatch-rebuilds w = after_persist-rebuilds w _ refl
