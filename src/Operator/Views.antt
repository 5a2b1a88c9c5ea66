-- ===== src/Operator/Views.antt =====
-- packages/claims/src/dispatch/ant-operator.ts: getAntPending and getAntBatchStatus. An age is in whole
-- seconds, rounded to the nearest, and 0 for a time that is still to come. The ISO forms of times are the
-- context's.
use ar_io_solana_attestor.Prelude.{
  ℕ, ◌+◌, ◌-◌, ◌/◌, String, Option, none, some, List, [], ◌∷◌, Bool, false, not, ◌&&◌, str_eq, ltb,
  length, take, map, if◌then◌else◌,
}
use mathlib.Core.Option
use mathlib.Core.Option.{get_or}
use ar_io_solana_attestor.Audit.{Context}
use ar_io_solana_attestor.Store.{ClaimStatus, Claim, Asset, BatchStatus, AntBatch, Db, find_asset}
use ar_io_solana_attestor.Dispatch.{asset_eligible}
use ar_io_solana_attestor.Worker.Queue.{select, order_by}
use ar_io_solana_attestor.Operator.{AntRow, ant_rows, is_ant, is_null, in_batch}
use ar_io_solana_attestor.Operator.Reserve.{status_allows}

pub record PendingAnt : Type 0 where
  pub claim_id : String
  pub asset_key : String
  pub ant_mint : Option String
  pub ant_name : Option String
  pub status : ClaimStatus
  pub reserved : Bool
  pub age_seconds : ℕ

pub record AntPending : Type 0 where
  pub count : ℕ
  pub reserved : ℕ
  pub oldest_age_seconds : Option ℕ
  pub claims : List PendingAnt

abbrev max_age : ℕ → List PendingAnt → ℕ
max_age m [] = m
max_age m (p ∷ rest) = max_age (if ltb m p.age_seconds then p.age_seconds else m) rest

abbrev oldest : List PendingAnt → Option ℕ
oldest [] = none
oldest (p ∷ rest) = some (max_age p.age_seconds rest)

count_reserved : List PendingAnt → ℕ
count_reserved [] = 0
count_reserved (p ∷ rest) = (if p.reserved then 1 else 0) + count_reserved rest

module _ (ctx : Context) where
  abbrev is_pending : Option Bool → Claim → Option Asset → Bool
  is_pending require_approval c none = false
  is_pending require_approval c (some a) =
      is_ant a.asset_type
      && asset_eligible a.status
      && is_null c.dispatch_signature
      && status_allows ctx require_approval c

  abbrev pending_of : AntRow → PendingAnt
  pending_of r = record {
    claim_id = r.claim.claim_id;
    asset_key = r.claim.asset_key;
    ant_mint = r.asset.ant_mint;
    ant_name = r.asset.ant_name;
    status = r.claim.status;
    reserved = not (is_null r.claim.ant_batch_id);
    age_seconds = (ctx.now - get_or r.claim.verified_at r.claim.created_at + 500) / 1000;
  }

  get_ant_pending : Option Bool → Option ℕ → Db → AntPending
  get_ant_pending require_approval limit db =
      let is_selected =
        λ (c : Claim). is_pending require_approval c (find_asset c.asset_key db.assets) in
      let rows = ant_rows db.assets (
        take (get_or limit 200)
          (order_by (λ (c : Claim). c.verified_at) (select is_selected db.claims))) in
      let claims = map pending_of rows in
      record {
        count = length claims;
        reserved = count_reserved claims;
        oldest_age_seconds = oldest claims;
        claims = claims;
      }

pub record BatchClaim : Type 0 where
  pub claim_id : String
  pub asset_key : String
  pub status : ClaimStatus
  pub dispatch_signature : Option String
  pub reserved_txid : Option String
  pub ant_mint : Option String
  pub ant_name : Option String
  pub claimant : String

pub record AntBatchStatus : Type 0 where
  pub batch_id : String
  pub status : BatchStatus
  pub created_by : String
  pub created_at : String
  pub submitted_at : Option String
  pub claim_count : ℕ
  pub claims : List BatchClaim

find_batch : String → List AntBatch → Option AntBatch
find_batch id [] = none
find_batch id (b ∷ rest) = if str_eq b.batch_id id then some b else find_batch id rest

abbrev batch_claim : AntRow → BatchClaim
batch_claim r = record {
  claim_id = r.claim.claim_id;
  asset_key = r.claim.asset_key;
  status = r.claim.status;
  dispatch_signature = r.claim.dispatch_signature;
  reserved_txid = r.claim.ant_reserved_txid;
  ant_mint = r.asset.ant_mint;
  ant_name = r.asset.ant_name;
  claimant = r.claim.claimant;
}

-- `sort` is the database's ORDER BY claim_id, which is by its collation.
get_ant_batch_status : Context → (List Claim → List Claim) → String → Db → Option AntBatchStatus
get_ant_batch_status ctx sort batch_id db =
    Option.map
      (λ (b : AntBatch). record {
        batch_id = b.batch_id;
        status = b.status;
        created_by = b.created_by_pubkey;
        created_at = ctx.iso b.created_at;
        submitted_at = Option.map ctx.iso b.submitted_at;
        claim_count = b.claim_count;
        claims = map batch_claim (ant_rows db.assets (sort (select (in_batch batch_id) db.claims)));
      })
      (find_batch batch_id db.ant_batches)
