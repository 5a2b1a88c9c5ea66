-- ===== src/Operator/Steps.antt =====
-- What the steps of a batch before its submission do to the claims: reserveAntBatch, buildReservedBatch,
-- releaseAntBatch and expireStaleReservations of packages/claims/src/dispatch/ant-operator.ts.
use ar_io_solana_attestor.Prelude.{
  ℕ, ◌-◌, ◌≡◌, refl, String, Option, none, some, List, [], ◌∷◌, Bool, true, false, arith, All, not,
  ◌&&◌,
}
use mathlib.Core.Option.{get_or}
use ar_io_solana_attestor.Audit.{Context}
use ar_io_solana_attestor.Store.{Claim, Asset, Db, update_claim, find_asset}
use ar_io_solana_attestor.Dispatch.{any_eq}
use ar_io_solana_attestor.Float.Solvency.{UniqueIds}
use ar_io_solana_attestor.Worker.Queue.{select}
use ar_io_solana_attestor.Operator.{
  AntKit, BuiltAntTx, AntBatchResult, AntBatchItem, SkipReason, no_ant_mint, no_longer_eligible,
  AntRow, present, unreserved,
}
use ar_io_solana_attestor.Operator.Reserve.{
  ReserveAntBatchOpts, is_stale, is_reservable, is_releasable, released, reserved_row,
  reservable_rows, reserve_one, reserve_loop, reserve_rows, expire_stale_reservations,
  reserve_ant_batch, release_ant_batch,
}
use ar_io_solana_attestor.Operator.Build.{
  BuildReservedBatchOpts, Built, add_item, skip, item_of, is_buildable, build_row, built_row, on_tx,
  if_buildable, on_mint, build_loop, commit_build, build_reserved_batch,
}
use ar_io_solana_attestor.Operator.Submitted.{
  is_submitted, submitted_rows, IsUnsubmitted, IsAlone, UniqueIds-IsAlone, select-All, order_by-All,
  take-All, ant_rows-All, update_claim-IsUnsubmitted, Keeps, Keeps-refl, Keeps-trans,
  update_claim-Keeps, update_where-Keeps,
}

-- A row of each selected claim's id has no recorded signature.
abbrev IsOpen : List Claim → Claim → Type 0
IsOpen claims c = IsUnsubmitted claims c.claim_id

abbrev RowIsOpen : List Claim → AntRow → Type 0
RowIsOpen claims r = IsOpen claims r.claim

module _ (f : Claim → Claim) (keeps : (c : Claim) → (f c).claim_id ≡ c.claim_id)
    (same : (c : Claim) → (f c).dispatch_signature ≡ c.dispatch_signature) where
  rows-RowIsOpen :
      (id : String) (claims : List Claim) (rows : List AntRow)
      → All (RowIsOpen claims) rows
      → All (RowIsOpen (update_claim id f claims)) rows
  rows-RowIsOpen id claims [] h = tt
  rows-RowIsOpen id claims (r ∷ rest) (p, ps) = (
    update_claim-IsUnsubmitted f keeps same id r.claim.claim_id claims p,
    rows-RowIsOpen id claims rest ps,
  )

selected-IsOpen :
    (test : Claim → Bool) (claims : List Claim)
    → ((c : Claim) → test c ≡ true → is_submitted c ≡ false)
    → UniqueIds claims
    → All (IsOpen claims) (select test claims)
selected-IsOpen test claims only u =
    select-All (IsOpen claims) (IsAlone claims) test (λ c alone e. alone (only c e)) claims
      (UniqueIds-IsAlone claims u)

module _ (ctx : Context) where
  reserve_loop-Keeps :
      (batch_id : String) (rows : List AntRow) (claims : List Claim)
      → All (RowIsOpen claims) rows
      → Keeps claims (reserve_loop ctx batch_id rows claims).0
  unfolding reserve_loop
  reserve_loop-Keeps batch_id [] claims h = Keeps-refl claims
  reserve_loop-Keeps batch_id (r ∷ rest) claims (p, ps) =
      elim (present r.asset.ant_mint)
        as (λ o.
          Keeps claims (reserve_one ctx batch_id r (reserve_loop ctx batch_id rest) claims o).0) [
            | none ↦ reserve_loop-Keeps batch_id rest claims ps
            | some mint ↦
                let f = reserved_row ctx batch_id in
                let id = r.claim.claim_id in
                Keeps-trans (update_claim-Keeps f (λ c. refl) (λ c. refl) id claims p) (
                  reserve_loop-Keeps batch_id rest (update_claim id f claims)
                    (rows-RowIsOpen f (λ c. refl) (λ c. refl) id claims rest ps))
          ]

  reservable_unsubmitted :
      (opts : ReserveAntBatchOpts) (locked : List String) (assets : List Asset) (c : Claim)
      → (is_reservable ctx opts c (find_asset c.asset_key assets) && not (any_eq c.claim_id locked))
        ≡ true
      → is_submitted c ≡ false
  reservable_unsubmitted opts locked assets c e = ground arith

  reserve_rows-Keeps :
      (batch_id : String) (locked : List String) (opts : ReserveAntBatchOpts) (db : Db)
      → UniqueIds db.claims
      → Keeps db.claims (reserve_rows ctx batch_id locked opts db).0.claims
  unfolding reserve_rows reservable_rows
  reserve_rows-Keeps batch_id locked opts db u = reserve_loop-Keeps batch_id _ db.claims (
      ant_rows-All (IsOpen db.claims) db.assets _ (
        take-All (IsOpen db.claims) opts.max _ (
          order_by-All (IsOpen db.claims) (λ c. c.approved_at) _
            (selected-IsOpen _ db.claims (reservable_unsubmitted opts locked db.assets) u))))

  expire-Keeps :
      (ttl : ℕ) (db : Db) → Keeps db.claims (expire_stale_reservations ctx ttl db).0.claims
  unfolding expire_stale_reservations
  expire-Keeps ttl db =
      update_where-Keeps (is_stale (ctx.now - ttl)) (unreserved ctx.now) (λ c e. ground arith)
        (λ c. refl) (λ c. refl) db.claims

  release-Keeps :
      (batch_id : String) (db : Db) → Keeps db.claims (release_ant_batch ctx batch_id db).0.claims
  unfolding release_ant_batch
  release-Keeps batch_id db =
      update_where-Keeps (is_releasable batch_id) (released ctx) (λ c e. ground arith) (λ c. refl)
        (λ c. refl) db.claims

  reserve-Keeps :
      (batch_id : String) (locked : List String) (opts : ReserveAntBatchOpts) (db : Db)
      → UniqueIds db.claims
      → Keeps db.claims (reserve_ant_batch ctx batch_id locked opts db).0.claims
  unfolding reserve_ant_batch
  reserve-Keeps batch_id locked opts db u =
      let ttl = get_or opts.reservation_ttl_ms 600_000 in
      let expired = expire-Keeps ttl db in
      Keeps-trans expired (
        reserve_rows-Keeps batch_id locked opts (expire_stale_reservations ctx ttl db).0
          (expired.unique u))

-- What a build's loop has, if it does not throw.
abbrev BuiltKeeps : List Claim → Option Built → Type 0
BuiltKeeps claims none = Unit
BuiltKeeps claims (some b) = Keeps claims b.claims

skip-Keeps :
    (c : Claim) (reason : SkipReason) (claims : List Claim) (o : Option Built)
    → BuiltKeeps claims o
    → BuiltKeeps claims (skip c reason o)
skip-Keeps c reason claims none h = tt
skip-Keeps c reason claims (some b) h = h

add_item-Keeps :
    (i : AntBatchItem) (a b : List Claim) (o : Option Built)
    → Keeps a b
    → BuiltKeeps b o
    → BuiltKeeps a (add_item i o)
add_item-Keeps i a b none k h = tt
add_item-Keeps i a b (some built) k h = Keeps-trans k h

module _ (k : AntKit) (ctx : Context) (treasury : String) (opts : BuildReservedBatchOpts) where
  module _ (r : AntRow) (next : List Claim → Option Built) (claims : List Claim) where
    abbrev updated : BuiltAntTx → List Claim
    updated tx = update_claim r.claim.claim_id (built_row k ctx treasury tx) claims

    on_mint-Keeps :
        (latest : String × ℕ) (o : Option String)
        → RowIsOpen claims r
        → BuiltKeeps claims (next claims)
        → ((tx : BuiltAntTx) → BuiltKeeps (updated tx) (next (updated tx)))
        → BuiltKeeps claims (on_mint k ctx treasury opts r next latest claims o)
    on_mint-Keeps latest none h here there =
        skip-Keeps r.claim no_ant_mint claims (next claims) here
    on_mint-Keeps latest (some mint) h here there =
        elim (is_buildable r.claim r.asset)
          as (λ b.
            BuiltKeeps claims (if_buildable k ctx treasury opts r next latest mint claims b)) [
              | false ↦
                  skip-Keeps r.claim (no_longer_eligible r.claim.status r.asset.status) claims
                    (next claims) here
              | true ↦
                  elim (build_row k ctx treasury latest opts r.claim mint)
                    as (λ o. BuiltKeeps claims (on_tx k ctx treasury opts r next mint claims o)) [
                      | none ↦ tt
                      | some tx ↦
                          add_item-Keeps (item_of r.claim r.asset mint tx) claims (updated tx)
                            (next (updated tx))
                            (update_claim-Keeps (built_row k ctx treasury tx) (λ c. refl)
                              (λ c. refl) r.claim.claim_id claims h)
                            (there tx)
                    ]
            ]

  build_loop-Keeps :
      (latest : String × ℕ) (rows : List AntRow) (claims : List Claim)
      → All (RowIsOpen claims) rows
      → BuiltKeeps claims (build_loop k ctx treasury latest opts rows claims)
  unfolding build_loop
  build_loop-Keeps latest [] claims h = Keeps-refl claims
  build_loop-Keeps latest (r ∷ rest) claims (p, ps) =
      on_mint-Keeps r (build_loop k ctx treasury latest opts rest) claims latest
        (present r.asset.ant_mint) p (build_loop-Keeps latest rest claims ps)
        (λ tx.
          build_loop-Keeps latest rest
            (updated r (build_loop k ctx treasury latest opts rest) claims tx)
            (rows-RowIsOpen (built_row k ctx treasury tx) (λ c. refl) (λ c. refl) r.claim.claim_id
              claims rest ps))

  commit_build-Keeps :
      (db after : Db) (result : AntBatchResult) (o : Option Built)
      → BuiltKeeps db.claims o
      → commit_build k ctx treasury opts db o ≡ some (after, result)
      → Keeps db.claims after.claims
  commit_build-Keeps db after result none h e = cc
  commit_build-Keeps db after result (some b) h e = ground arith

  build-Keeps :
      (latest : Option (String × ℕ)) (db after : Db) (result : AntBatchResult)
      → UniqueIds db.claims
      → build_reserved_batch k ctx treasury latest opts db ≡ some (after, result)
      → Keeps db.claims after.claims
  unfolding build_reserved_batch
  build-Keeps none db after result u e = cc
  build-Keeps (some latest) db after result u e =
      commit_build-Keeps db after result _
        (build_loop-Keeps latest _ db.claims (
          ant_rows-All (IsOpen db.claims) db.assets _ (
            order_by-All (IsOpen db.claims) (λ c. c.approved_at) _
              (selected-IsOpen _ db.claims (λ c t. ground arith) u))))
        e

-- What an operator's session does before it submits, each step at a time of its own, and the sweep of
-- abandoned reservations.
pub data BatchStep : Db → Db → Type 0 where
  reserve :
      (ctx : Context) (batch_id : String) (locked : List String) (opts : ReserveAntBatchOpts)
      (db : Db)
      → BatchStep db (reserve_ant_batch ctx batch_id locked opts db).0
  build :
      (k : AntKit) (ctx : Context) (treasury : String) (opts : BuildReservedBatchOpts)
      (latest : Option (String × ℕ)) (db after : Db) (result : AntBatchResult)
      → build_reserved_batch k ctx treasury latest opts db ≡ some (after, result)
      → BatchStep db after
  release :
      (ctx : Context) (batch_id : String) (db : Db)
      → BatchStep db (release_ant_batch ctx batch_id db).0
  expire :
      (ctx : Context) (ttl_ms : ℕ) (db : Db)
      → BatchStep db (expire_stale_reservations ctx ttl_ms db).0

pub data BatchSteps (db : Db) : Db → Type 0 where
  done : BatchSteps db db
  then_step : {mid after : Db} → BatchSteps db mid → BatchStep mid after → BatchSteps db after

BatchStep-Keeps :
    {db after : Db} → BatchStep db after → UniqueIds db.claims → Keeps db.claims after.claims
BatchStep-Keeps (reserve ctx batch_id locked opts db) u =
    reserve-Keeps ctx batch_id locked opts db u
BatchStep-Keeps (build k ctx treasury opts latest db after result e) u =
    build-Keeps k ctx treasury opts latest db after result u e
BatchStep-Keeps (release ctx batch_id db) u = release-Keeps ctx batch_id db
BatchStep-Keeps (expire ctx ttl_ms db) u = expire-Keeps ctx ttl_ms db

BatchSteps-Keeps :
    {db after : Db} → BatchSteps db after → UniqueIds db.claims → Keeps db.claims after.claims
BatchSteps-Keeps {db} done u = Keeps-refl db.claims
BatchSteps-Keeps (then_step before step) u =
    let kept = BatchSteps-Keeps before u in Keeps-trans kept (BatchStep-Keeps step (kept.unique u))

-- Where the claims have distinct ids, no sequence of reservations, builds, cancellations and expiries
-- changes a claim that has a recorded signature, or gives one a signature.
pub BatchSteps-submitted :
    (db after : Db)
    → UniqueIds db.claims
    → BatchSteps db after
    → submitted_rows after.claims ≡ submitted_rows db.claims
BatchSteps-submitted db after u steps = (BatchSteps-Keeps steps u).same_submitted
