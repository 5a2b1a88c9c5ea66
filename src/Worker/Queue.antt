-- ===== src/Worker/Queue.antt =====
-- DispatchWorker of packages/claims/src/dispatch/worker.ts: #eligibleClaimIds, runOnce and
-- runAntBatch.
use ar_io_solana_attestor.Prelude.{
  ℕ, String, Option, none, some, List, [], ◌∷◌, Bool, true, false, not, ◌&&◌, ◌||◌, str_eq, ltb,
  leb, map, if◌then◌else◌,
}
use mathlib.Core.Option.{get_or}
use ar_io_solana_attestor.Audit.{Context}
use ar_io_solana_attestor.Gateway.{Gateway}
use ar_io_solana_attestor.Instructions.{Kit}
use ar_io_solana_attestor.Store.{
  Claim, verified, dispatching, pending_review, Asset, AssetType, ant, Db, find_asset,
}
use ar_io_solana_attestor.Dispatch.Core.{World, Reply, throws}
use ar_io_solana_attestor.Worker.{
  SignerRole, DispenserSigner, Deps, AntDispatchMode, cli_cold, operator_wallet,
}
use ar_io_solana_attestor.Worker.Fresh.{is_approved}
use ar_io_solana_attestor.Worker.Process.{process_claim}

-- The order of two claims by a nullable time, NULLS FIRST, and then by created_at.
abbrev pub at_or_before : Option ℕ → ℕ → Option ℕ → ℕ → Bool
at_or_before none c none d = leb c d
at_or_before none c (some t) d = true
at_or_before (some s) c none d = false
at_or_before (some s) c (some t) d = ltb s t || (leb s t && leb c d)

-- Rows that tie keep the table's order; the database leaves it open.
unfoldable pub insert_row : (Claim → Option ℕ) → Claim → List Claim → List Claim
insert_row key c [] = c ∷ []
insert_row key c (d ∷ rest) =
    let inserted = insert_row key c rest in
    if at_or_before (key c) c.created_at (key d) d.created_at then c ∷ d ∷ rest else d ∷ inserted

unfoldable pub order_by : (Claim → Option ℕ) → List Claim → List Claim
order_by key [] = []
order_by key (c ∷ rest) = insert_row key c (order_by key rest)

unfoldable pub select : (Claim → Bool) → List Claim → List Claim
select test [] = []
select test (c ∷ rest) = let kept = select test rest in if test c then c ∷ kept else kept

-- The condition of both queries on the claim alone.
abbrev pub is_eligible : Claim → Bool
is_eligible c = elim c.status [
  | verified ↦ true
  | dispatching ↦ true
  | pending_review ↦ is_approved c
  | _ ↦ false
]

abbrev is_ant : AssetType → Bool
is_ant ant = true
is_ant _ = false

-- The join with the assets on a test of the type; a claim whose asset is missing is not joined.
abbrev pub joined : (AssetType → Bool) → List Asset → Claim → Bool
joined test assets c = elim (find_asset c.asset_key assets) [
  | none ↦ false
  | some a ↦ test a.asset_type
]

abbrev in_queue : AntDispatchMode → List Asset → Claim → Bool
in_queue cli_cold assets c = is_eligible c
in_queue operator_wallet assets c = joined (λ t. not (is_ant t)) assets c && is_eligible c

unfoldable pub eligible_claim_ids : AntDispatchMode → Db → List String
eligible_claim_ids mode db =
    map (λ (c : Claim). c.claim_id)
      (order_by (λ (c : Claim). c.verified_at) (select (in_queue mode db.assets) db.claims))

-- `status = 'dispatching' OR (status = 'pending_review' AND approved_at IS NOT NULL)`
abbrev is_due : Claim → Bool
is_due c = elim c.status [ dispatching ↦ true | pending_review ↦ is_approved c | _ ↦ false ]

-- `c.ant_batch_id IS NULL`
abbrev is_unreserved : Claim → Bool
is_unreserved c = elim c.ant_batch_id [ none ↦ true | some _ ↦ false ]

abbrev in_ant_batch : List Asset → Claim → Bool
in_ant_batch assets c = joined is_ant assets c && is_unreserved c && is_due c

unfoldable pub ant_batch_ids : Db → List String
ant_batch_ids db =
    map (λ (c : Claim). c.claim_id)
      (order_by (λ (c : Claim). c.approved_at) (select (in_ant_batch db.assets) db.claims))

module _ (kit : Kit) (deps : Deps) (gateway : Gateway) (ctx : Context) where
  -- The loop of runOnce: a claim that throws is a result of its own.
  unfoldable pub process_all : List String → World → World × List Reply
  process_all [] w = (w, [])
  process_all (id ∷ rest) w =
      let r = process_claim kit deps gateway ctx none id w in
      let s = process_all rest r.0 in (s.0, r.1 ∷ s.1)

  unfoldable pub run_once : World → World × List Reply
  run_once w = process_all (eligible_claim_ids (get_or deps.ant_dispatch_mode cli_cold) w.db) w

  -- The loop of runAntBatch, which a claim that throws ends.
  unfoldable pub process_batch : DispenserSigner → List String → World → World × Option (List Reply)
  process_batch cold [] w = (w, some [])
  process_batch cold (id ∷ rest) w =
      let r = process_claim kit deps gateway ctx (some cold) id w in
      let s = process_batch cold rest r.0 in
      elim r.1 [
        | throws ↦ (r.0, none)
        | reply ↦ (s.0, elim s.1 [ none ↦ none | some replies ↦ some (reply ∷ replies) ])
      ]

  unfoldable pub run_ant_batch : DispenserSigner → World → World × Option (List Reply)
  run_ant_batch cold w = elim cold.role [
    | SignerRole.token ↦ (w, none)
    | SignerRole.ant ↦
        if str_eq cold.address deps.token_signer.address
        then (w, none)
        else process_batch cold (ant_batch_ids w.db) w
  ]
