-- ===== src/Examples/Limits.antt =====
-- A rate limiter of two hits a second.
use ar_io_solana_attestor.Prelude.{ℕ, ◌≤◌, ◌-◌, String, List, [], ◌∷◌, arith, length, refl}
use ar_io_solana_attestor.RateLimit.{RateLimiter, Bucket, get_bucket, check_all}
use ar_io_solana_attestor.RateLimit.Bounds.{check_all-length}
use ar_io_solana_attestor.RateLimit.Window.{allowed_for, allowed_for-le}

abbrev ip_bucket : Bucket
ip_bucket = record { key = "10.0.0.1"; count = 1; window_start = 100 }

abbrev ip_limiter : RateLimiter
ip_limiter = record { window_ms = 1000; limit = 2; max_keys = 8; buckets = ip_bucket ∷ [] }

abbrev ip_hits : List (ℕ × String)
ip_hits = (200, "10.0.0.1") ∷ (300, "10.0.0.2") ∷ (400, "10.0.0.1") ∷ (1099, "10.0.0.1") ∷ []

check_all-length_example : length (check_all ip_hits ip_limiter).0.buckets ≤ 8
check_all-length_example = check_all-length ip_hits ip_limiter (omega arith)

allowed_for-le_example : allowed_for "10.0.0.1" ip_hits (check_all ip_hits ip_limiter).1 ≤ 2 - 1
unfolding get_bucket
allowed_for-le_example =
    allowed_for-le ip_hits ip_limiter "10.0.0.1" ip_bucket (omega arith) refl (ground arith)
      (omega arith)
