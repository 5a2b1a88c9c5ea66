-- ===== src/Service/History.antt =====
-- The transactions of the claims service, the sweep and the dispatch, in any order on one database:
-- packages/claims/src/api/service.ts, reaper.ts and packages/claims/src/dispatch/dispatch-core.ts.
use ar_io_solana_attestor.Prelude.{
  ℕ, ◌+◌, String, Option, none, some, List, [], ◌∷◌, str_eq, if◌then◌else◌,
}
use ar_io_solana_attestor.Audit.{Bytes, Context}
use ar_io_solana_attestor.Store.{Db}
use ar_io_solana_attestor.Dispatch.Transitions.{Transition, apply}
use ar_io_solana_attestor.Service.{Response, returns, Service}
use ar_io_solana_attestor.Service.Proof.{CompleteInput}
use ar_io_solana_attestor.Service.Complete.{CompleteResult, complete_claim}
use ar_io_solana_attestor.Service.Initiate.{InitiateInput, initiate_claim}
use ar_io_solana_attestor.Service.Reaper.{reap_expired_challenges}

pub data Action : Type 0 where
  complete : CompleteInput → Action
  initiate : (challenge : Bytes) (claim_id : String) → InitiateInput → Action
  reap : (now : ℕ) (limit : Option ℕ) → Action
  dispatch : Transition → Action

module _ (service : Service) where
  -- The database after an action, and what a completion answers.
  unfoldable pub act : Context → Action → Db → Db × Option (Response CompleteResult)
  act ctx (complete input) db =
      let (db', answer) = complete_claim ctx service input db in (db', some answer)
  act ctx (initiate challenge claim_id input) db =
      ((initiate_claim ctx service challenge claim_id input db).0, none)
  act ctx (reap now limit) db = ((reap_expired_challenges ctx now limit db).0, none)
  act ctx (dispatch t) db = (apply ctx t db, none)

  unfoldable pub run_actions :
      List (Context × Action) → Db → Db × List (Option (Response CompleteResult))
  run_actions [] db = (db, [])
  run_actions ((ctx, action) ∷ rest) db =
      let (next, answer) = act ctx action db in
      let (end, answers) = run_actions rest next in (end, answer ∷ answers)

-- One where the answer is a first success on the asset: a result that replays none.
unfoldable pub win_of : String → Option (Response CompleteResult) → ℕ
win_of key (some (returns r)) =
    if r.idempotent_replay then 0 else if str_eq r.asset_key key then 1 else 0
win_of key _ = 0

unfoldable pub count_wins : String → List (Option (Response CompleteResult)) → ℕ
count_wins key [] = 0
count_wins key (answer ∷ rest) = win_of key answer + count_wins key rest
