-- ===== src/RateLimit.antt =====
-- packages/claims/src/api/rate-limit.ts: the fixed-window limiter. The map is a list in the order of
-- insertion; times are numbers of milliseconds. `t - windowStart >= windowMs` is written with a sum, so
-- that a clock that steps back is read as the source reads it.
pub mod Bounds
pub mod Window
use ar_io_solana_attestor.Prelude.{
  ℕ, zero, suc, ◌+◌, ◌-◌, ◌*◌, String, Option, none, some, List, [], ◌∷◌, ◌++◌, Bool, true, false,
  not, str_eq, leb, ltb, ◌==◌, if◌then◌else◌, length, drop,
}

-- `remaining` is missing where the limiter is off and the source answers MAX_SAFE_INTEGER.
pub record RateLimitDecision : Type 0 where
  pub allowed : Bool
  pub retry_after_ms : ℕ
  pub remaining : Option ℕ

pub record Bucket : Type 0 where
  pub key : String
  pub count : ℕ
  pub window_start : ℕ

pub record RateLimiter : Type 0 where
  pub window_ms : ℕ
  pub limit : ℕ
  pub max_keys : ℕ
  pub buckets : List Bucket

unfoldable pub get_bucket : String → List Bucket → Option Bucket
get_bucket key [] = none
get_bucket key (b ∷ rest) = if str_eq b.key key then some b else get_bucket key rest

-- Map.set: in place where the key is present, else at the end.
unfoldable pub set_bucket : Bucket → List Bucket → List Bucket
set_bucket b [] = b ∷ []
set_bucket b (c ∷ rest) =
    let later = set_bucket b rest in if str_eq c.key b.key then b ∷ rest else c ∷ later

-- `b.count += 1` on the bucket, if the map still holds it.
unfoldable pub count_hit : String → List Bucket → List Bucket
count_hit key [] = []
count_hit key (b ∷ rest) =
    let later = count_hit key rest in
    if str_eq b.key key then record b { count = b.count + 1 } ∷ rest else b ∷ later

module _ (limiter : RateLimiter) (t : ℕ) where
  abbrev pub is_over : Bucket → Bool
  is_over b = leb (b.window_start + limiter.window_ms) t

  unfoldable pub unexpired : List Bucket → List Bucket
  unexpired [] = []
  unexpired (b ∷ rest) = let later = unexpired rest in if is_over b then later else b ∷ later

  unfoldable pub gc : List Bucket → List Bucket
  gc buckets =
      if leb (length buckets) limiter.max_keys
      then if ltb limiter.max_keys (2 * length buckets) then unexpired buckets else buckets
      else drop (length buckets - limiter.max_keys) buckets

  abbrev pub fresh_bucket : String → Bucket
  fresh_bucket key = record { key = key; count = 0; window_start = t }

  -- The decision at a bucket that counts the hit already.
  abbrev pub decide : Bucket → RateLimitDecision
  decide b =
      let retry_after = (limiter.window_ms + b.window_start) - t in
      if ltb limiter.limit (b.count + 1)
      then record { allowed = false; retry_after_ms = retry_after; remaining = some 0 }
      else record {
        allowed = true;
        retry_after_ms = retry_after;
        remaining = some (limiter.limit - (b.count + 1));
      }

  -- The bucket that the hit counts in, and the map after the collection.
  abbrev pub open_window : String → Option Bucket → Bucket × List Bucket
  open_window key none = (fresh_bucket key, gc (set_bucket (fresh_bucket key) limiter.buckets))
  open_window key (some b) =
      if is_over b
      then (fresh_bucket key, gc (set_bucket (fresh_bucket key) limiter.buckets))
      else (b, limiter.buckets)

  abbrev pub count_in : String → Bucket × List Bucket → RateLimiter × RateLimitDecision
  count_in key (b, buckets) = (record limiter { buckets = count_hit key buckets }, decide b)

  unfoldable pub check_hit : String → RateLimiter × RateLimitDecision
  check_hit key =
      if limiter.limit == 0
      then (limiter, record { allowed = true; retry_after_ms = 0; remaining = none })
      else count_in key (open_window key (get_bucket key limiter.buckets))

-- Checks one after the other, each with its time and its key.
unfoldable pub check_all : List (ℕ × String) → RateLimiter → RateLimiter × List RateLimitDecision
check_all [] limiter = (limiter, [])
check_all ((t, key) ∷ rest) limiter =
    let (next, decision) = check_hit limiter t key in
    let (end, decisions) = check_all rest next in (end, decision ∷ decisions)

abbrev pub reset : RateLimiter → RateLimiter
reset limiter = record limiter { buckets = [] }
