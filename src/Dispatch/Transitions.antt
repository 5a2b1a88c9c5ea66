-- ===== src/Dispatch/Transitions.antt =====
-- The transactions of dispatch-core.ts and approveClaim as the moves of one database.
use ar_io_solana_attestor.Prelude.{String, List, [], ◌∷◌}
use mathlib.Core.Option.{get_or}
use ar_io_solana_attestor.Audit.{Context}
use ar_io_solana_attestor.Store.{Db}
use ar_io_solana_attestor.Dispatch.{PersistDispatchingArgs}
use ar_io_solana_attestor.Dispatch.Persist.{persist_dispatching, finalize_confirmed, mark_failed}
use ar_io_solana_attestor.Dispatch.Recovery.{
  mark_needs_operator, clear_dead_signature, route_to_review, route_to_manual_vault_delivery,
  approve_claim,
}

pub data Transition : Type 0 where
  persist : PersistDispatchingArgs → Transition
  finalize : (claim_id signature : String) → Transition
  fail : (claim_id reason : String) → Transition
  freeze : (claim_id reason : String) → Transition
  clear : (claim_id : String) → Transition
  review : (claim_id asset_key reason : String) → Transition
  deliver_manually : (claim_id asset_key unlock_ts lock_duration : String) → Transition
  approve : (claim_id approved_by : String) → Transition

unfoldable pub apply : Context → Transition → Db → Db
apply ctx (persist args) db = get_or (persist_dispatching ctx args db) db
apply ctx (finalize claim_id signature) db = finalize_confirmed ctx claim_id signature db
apply ctx (fail claim_id reason) db = mark_failed ctx claim_id reason db
apply ctx (freeze claim_id reason) db = (mark_needs_operator ctx claim_id reason db).0
apply ctx (clear claim_id) db = clear_dead_signature ctx claim_id db
apply ctx (review claim_id asset_key reason) db = route_to_review ctx claim_id asset_key reason db
apply ctx (deliver_manually claim_id asset_key unlock_ts lock_duration) db =
    route_to_manual_vault_delivery ctx claim_id asset_key unlock_ts lock_duration db
apply ctx (approve claim_id approved_by) db = get_or (approve_claim ctx claim_id approved_by db) db

-- Transactions one after the other, each with its own clock reading.
unfoldable pub run : List (Context × Transition) → Db → Db
run [] db = db
run ((ctx, t) ∷ rest) db = run rest (apply ctx t db)
