-- ===== src/Service/Drained.antt =====
-- The sweep of packages/claims/src/api/reaper.ts ends, and takes only challenges that are over.
use ar_io_solana_attestor.Prelude.{
  ℕ, zero, suc, ◌+◌, ◌<◌, ◌≡◌, ◌∙◌, String, Option, some, List, true, false, arith, ◌==◌,
  if◌then◌else◌, length, Bool-cases, inl, inr,
}
use ar_io_solana_attestor.Audit.{Context}
use ar_io_solana_attestor.Store.{Claim, Db, find_claim}
use ar_io_solana_attestor.Service.Reaper.{
  is_claiming, due, reap_rows, batch, reap_expired_challenges, reap_loop,
}
use ar_io_solana_attestor.Service.Sweep.{
  left, batch-empty, batch-Present, reap_rows-le, reap_rows-less, reap_rows-Keeps,
}

module _ (ctx : Context) (now : ℕ) where
  -- Nothing is due, and only claims that were `claiming` have changed.
  abbrev pub Swept : Db → Db → Type 0
  Swept db db' =
      (length (due now db'.claims) ≡ 0)
      × (db'.assets ≡ db.assets)
      × ((id : String) (c : Claim)
          → find_claim id db.claims ≡ some c
          → is_claiming c.status ≡ false
          → find_claim id db'.claims ≡ some c)

  nothing : (rows : List Claim) → (length rows == 0) ≡ true → length rows ≡ 0
  nothing rows e = ground arith

  something : (rows : List Claim) → (length rows == 0) ≡ false → 0 < length rows
  something rows e = ground arith

  once_more :
      (rows : List Claim) (fuel : ℕ) (limit : Option ℕ) (total : ℕ) (next : Db) (end : Db × ℕ)
      → (length rows == 0) ≡ false
      → reap_loop ctx fuel now limit (total + length rows) next ≡ some end
      → (if length rows == 0
          then some (next, total + length rows)
          else reap_loop ctx fuel now limit (total + length rows) next)
        ≡ some end
  once_more rows fuel limit total next end more run = ground arith

  loop_ends :
      (fuel : ℕ) (limit : Option ℕ) (total : ℕ) (db : Db)
      → left ctx now db.claims < fuel
      → (end : Db × ℕ) × ((reap_loop ctx fuel now limit total db ≡ some end) × Swept db end.0)
  unfolding reap_loop reap_expired_challenges
  loop_ends zero limit total db h = absurd (omega arith)
  loop_ends (suc fuel) limit total db h =
      let rows = batch ctx now limit db in
      let next = reap_rows ctx rows db in
      let (assets, claims) = reap_rows-Keeps ctx now rows db in
      elim (Bool-cases (length rows == 0)) [
        | inl done ↦ (
          (next, total + length rows),
          (
            ground arith,
            (
              omega (
                arith,
                reap_rows-le ctx now rows db,
                batch-empty ctx now limit db (nothing rows done),
              ),
              assets,
              claims,
            ),
          ),
        )
        | inr more ↦
            let less =
              reap_rows-less ctx now rows db (batch-Present ctx now limit db)
                (something rows more) in
            let (end, (run, (empty, assets', claims'))) =
              loop_ends fuel limit (total + length rows) next (omega (arith, less)) in
            (
              end,
              (
                once_more rows fuel limit total next end more run,
                (
                  empty,
                  assets' ∙ assets,
                  λ id c found other. claims' id c (claims id c found other) other,
                ),
              ),
            )
      ]

-- The sweep ends, within one round more than there are challenges that are over, and then no challenge
-- is over: it has changed no asset, and no claim that was not `claiming`.
pub reap_loop-Swept :
    (ctx : Context) (now : ℕ) (limit : Option ℕ) (db : Db)
    → (end : Db × ℕ) × ((reap_loop ctx (suc (length (due now db.claims))) now limit 0 db ≡ some end)
        × Swept ctx now db end.0)
reap_loop-Swept ctx now limit db =
    loop_ends ctx now (suc (length (due now db.claims))) limit 0 db (omega arith)
