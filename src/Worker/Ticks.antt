-- ===== src/Worker/Ticks.antt =====
-- runOnce of packages/claims/src/dispatch/worker.ts: one tick over the queue.
use ar_io_solana_attestor.Prelude.{
  ℕ, ◌≤◌, ◌≡◌, refl, ◌∙◌, ap, String, none, some, List, [], ◌∷◌, ◌++◌, arith, length, length-append,
  inl, inr, suc,
}
use mathlib.Core.Option.{get_or}
use ar_io_solana_attestor.Audit.{Context}
use ar_io_solana_attestor.Gateway.{Gateway, SignedDispatch}
use ar_io_solana_attestor.Instructions.{Kit}
use ar_io_solana_attestor.Store.{Claim, Db, confirmed, find_claim}
use ar_io_solana_attestor.Dispatch.Transitions.{Transition, apply, run}
use ar_io_solana_attestor.Dispatch.Confirmed.{run-confirmed}
use ar_io_solana_attestor.Dispatch.Core.{World}
use ar_io_solana_attestor.Worker.{Deps, cli_cold}
use ar_io_solana_attestor.Worker.Process.{process_claim}
use ar_io_solana_attestor.Worker.Queue.{eligible_claim_ids, process_all, run_once}
use ar_io_solana_attestor.Worker.Recorded.{process_claim-Effect}

run-append :
    (ts us : List (Context × Transition)) (db : Db) → run us (run ts db) ≡ run (ts ++ us) db
unfolding run
run-append [] us db = refl
run-append ((ctx, t) ∷ rest) us db = run-append rest us (apply ctx t db)

-- The tables moved by transactions of the dispatch, and at most n sends before the earlier ones.
Ticked : ℕ → World → World → Type 0
Ticked n w w' =
    ((ts : List (Context × Transition)) × (w'.db ≡ run ts w.db))
    × ((new : List SignedDispatch) × (w'.broadcasts ≡ new ++ w.broadcasts) × (length new ≤ n))

append_assoc : (xs ys zs : List SignedDispatch) → xs ++ (ys ++ zs) ≡ (xs ++ ys) ++ zs
append_assoc [] ys zs = refl
append_assoc (x ∷ xs) ys zs = ap (λ l. x ∷ l) (append_assoc xs ys zs)

Ticked-trans : (n : ℕ) (u v w : World) → Ticked 1 u v → Ticked n v w → Ticked (suc n) u w
unfolding Ticked
Ticked-trans n u v w ((ts, d), (xs, b, lx)) ((us, e), (ys, c, ly)) = (
  (ts ++ us, e ∙ ap (run us) d ∙ run-append ts us u.db),
  (
    ys ++ xs,
    c ∙ ap (λ l. ys ++ l) b ∙ append_assoc ys xs u.broadcasts,
    omega (arith, length-append ys xs),
  ),
)

module _ (kit : Kit) (deps : Deps) (gateway : Gateway) (ctx : Context) where
  process_claim-Ticked :
      (id : String) (w : World) → Ticked 1 w (process_claim kit deps gateway ctx none id w).0
  unfolding Ticked
  process_claim-Ticked id w =
      let e = process_claim-Effect kit deps gateway ctx none id w in
      (
        e.0,
        elim e.1 [
          | inl same ↦ ([], same, omega arith)
          | inr (signed, sent, row) ↦ (signed ∷ [], sent, omega arith)
        ],
      )

  process_all-Ticked :
      (ids : List String) (w : World)
      → Ticked (length ids) w (process_all kit deps gateway ctx ids w).0
  unfolding process_all Ticked run
  process_all-Ticked [] w = (([], refl), ([], refl, omega arith))
  process_all-Ticked (id ∷ rest) w =
      let r = process_claim kit deps gateway ctx none id w in
      Ticked-trans (length rest) w r.0 _ (process_claim-Ticked id w) (process_all-Ticked rest r.0)

  process_all-length :
      (ids : List String) (w : World)
      → length (process_all kit deps gateway ctx ids w).1 ≡ length ids
  unfolding process_all
  process_all-length [] w = refl
  process_all-length (id ∷ rest) w =
      omega (arith, process_all-length rest (process_claim kit deps gateway ctx none id w).0)

abbrev pub queue_of : Deps → World → List String
queue_of deps w = eligible_claim_ids (get_or deps.ant_dispatch_mode cli_cold) w.db

-- A tick returns one reply for each claim of the queue, also where a claim throws, and puts at most
-- one transaction for each claim of the queue before those sent earlier.
pub run_once-length :
    (kit : Kit) (deps : Deps) (gateway : Gateway) (ctx : Context) (w : World)
    → (length (run_once kit deps gateway ctx w).1 ≡ length (queue_of deps w))
      × ((new : List SignedDispatch) × ((run_once kit deps gateway ctx w).0.broadcasts
            ≡ new ++ w.broadcasts)
          × (length new ≤ length (queue_of deps w)))
unfolding run_once Ticked
run_once-length kit deps gateway ctx w = (
  process_all-length kit deps gateway ctx (queue_of deps w) w,
  (process_all-Ticked kit deps gateway ctx (queue_of deps w) w).1,
)

-- A tick leaves every column of the row of a confirmed claim as it was.
pub run_once-confirmed :
    (kit : Kit) (deps : Deps) (gateway : Gateway) (ctx : Context) (w : World) (id : String)
    (c : Claim)
    → find_claim id w.db.claims ≡ some c
    → c.status ≡ confirmed
    → find_claim id (run_once kit deps gateway ctx w).0.db.claims ≡ some c
unfolding run_once Ticked
run_once-confirmed kit deps gateway ctx w id c found settled =
    let ticked = process_all-Ticked kit deps gateway ctx (queue_of deps w) w in
    rw ticked.0.1 (run-confirmed ticked.0.0 w.db id c found settled)
