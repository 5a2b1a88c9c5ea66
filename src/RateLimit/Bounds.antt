-- ===== src/RateLimit/Bounds.antt =====
-- What the limiter of packages/claims/src/api/rate-limit.ts bounds: its memory, and the hits of a
-- window.
use ar_io_solana_attestor.Prelude.{
  ℕ, zero, suc, ◌-◌, ◌≤◌, ◌≡◌, refl, String, Option, none, some, List, [], ◌∷◌, arith, ◌==◌, length,
  drop, Bool-cases, inl, inr,
}
use ar_io_solana_attestor.RateLimit.{
  RateLimiter, Bucket, get_bucket, set_bucket, count_hit, unexpired, gc, fresh_bucket, open_window,
  check_hit, check_all,
}

pub set_bucket-length : (b : Bucket) (xs : List Bucket) → length (set_bucket b xs) ≤ suc (length xs)
unfolding set_bucket
set_bucket-length b [] = omega arith
set_bucket-length b (c ∷ rest) = ground (arith, set_bucket-length b rest)

pub count_hit-length : (key : String) (xs : List Bucket) → length (count_hit key xs) ≡ length xs
unfolding count_hit
count_hit-length key [] = refl
count_hit-length key (b ∷ rest) = ground (arith, count_hit-length key rest)

pub drop-length : (n : ℕ) (xs : List Bucket) → length (drop n xs) ≡ length xs - n
drop-length zero xs = omega arith
drop-length (suc n) [] = omega arith
drop-length (suc n) (x ∷ xs) = omega (arith, drop-length n xs)

module _ (limiter : RateLimiter) (t : ℕ) where
  pub unexpired-length : (xs : List Bucket) → length (unexpired limiter t xs) ≤ length xs
  unfolding unexpired
  unexpired-length [] = omega arith
  unexpired-length (b ∷ rest) = ground (arith, unexpired-length rest)

  gc-length : (xs : List Bucket) → length (gc limiter t xs) ≤ limiter.max_keys
  unfolding gc
  gc-length xs = ground (arith, unexpired-length xs, drop-length (length xs - limiter.max_keys) xs)

  open_window-length :
      (key : String) (found : Option Bucket)
      → length limiter.buckets ≤ limiter.max_keys
      → length (open_window limiter t key found).1 ≤ limiter.max_keys
  open_window-length key none h =
      gc-length (set_bucket (fresh_bucket limiter t key) limiter.buckets)
  open_window-length key (some b) h =
      ground (arith, gc-length (set_bucket (fresh_bucket limiter t key) limiter.buckets))

  check_hit-length :
      (key : String)
      → length limiter.buckets ≤ limiter.max_keys
      → length (check_hit limiter t key).0.buckets ≤ limiter.max_keys
  unfolding check_hit
  check_hit-length key h = ground (
    arith,
    open_window-length key (get_bucket key limiter.buckets),
    count_hit-length key (open_window limiter t key (get_bucket key limiter.buckets)).1,
  )

check_hit-options :
    (limiter : RateLimiter) (t : ℕ) (key : String)
    → (check_hit limiter t key).0.max_keys ≡ limiter.max_keys
unfolding check_hit
check_hit-options limiter t key = elim (Bool-cases (limiter.limit == 0)) [
  | inl off ↦ ground arith
  | inr on ↦ ground arith
]

-- A limiter that holds at most its maximum of keys holds no more after any sequence of checks.
pub check_all-length :
    (hits : List (ℕ × String)) (limiter : RateLimiter)
    → length limiter.buckets ≤ limiter.max_keys
    → length (check_all hits limiter).0.buckets ≤ limiter.max_keys
unfolding check_all
check_all-length [] limiter h = h
check_all-length ((t, key) ∷ rest) limiter h =
    let same = check_hit-options limiter t key in
    let few = check_hit-length limiter t key h in
    omega
      (arith, same, check_all-length rest (check_hit limiter t key).0 (omega (arith, same, few)))
