-- ===== src/RateLimit/Window.antt =====
-- How many hits of a window the limiter of packages/claims/src/api/rate-limit.ts lets pass.
use ar_io_solana_attestor.Prelude.{
  ℕ, suc, ◌+◌, ◌-◌, ◌≤◌, ◌<◌, ◌≡◌, refl, sym, ◌∙◌, String, Option, none, some, List, [], ◌∷◌, Bool,
  true, false, ◌&&◌, arith, str_eq, eq_iff, leb, ◌==◌, length, Bool-cases, inl, inr, if◌then◌else◌,
  All,
}
use mathlib.Core.Path.{subst}
use ar_io_solana_attestor.RateLimit.{
  RateLimiter, Bucket, RateLimitDecision, get_bucket, set_bucket, count_hit, is_over, unexpired, gc,
  fresh_bucket, open_window, check_hit, check_all,
}
use ar_io_solana_attestor.RateLimit.Bounds.{
  set_bucket-length, count_hit-length, unexpired-length, drop-length,
}

abbrev one_more : Bucket → Bucket
one_more b = record b { count = b.count + 1 }

get_bucket-count_hit :
    (key : String) (xs : List Bucket) (b : Bucket)
    → get_bucket key xs ≡ some b
    → get_bucket key (count_hit key xs) ≡ some (one_more b)
unfolding get_bucket count_hit
get_bucket-count_hit key [] b e = cc
get_bucket-count_hit key (c ∷ rest) b e = ground (arith, get_bucket-count_hit key rest b)

get_bucket-count_other :
    (key k : String) (xs : List Bucket)
    → str_eq k key ≡ false
    → get_bucket key (count_hit k xs) ≡ get_bucket key xs
unfolding get_bucket count_hit
get_bucket-count_other key k [] e = refl
get_bucket-count_other key k (c ∷ rest) e =
    ground
      (arith, get_bucket-count_other key k rest e, eq_iff c.key k, eq_iff c.key key, eq_iff k key)

get_bucket-set_other :
    (key : String) (b : Bucket) (xs : List Bucket)
    → str_eq b.key key ≡ false
    → get_bucket key (set_bucket b xs) ≡ get_bucket key xs
unfolding get_bucket set_bucket
get_bucket-set_other key b [] e = ground arith
get_bucket-set_other key b (c ∷ rest) e = ground (
  arith,
  get_bucket-set_other key b rest e,
  eq_iff c.key b.key,
  eq_iff c.key key,
  eq_iff b.key key,
)

module _ (limiter : RateLimiter) (t : ℕ) where
  get_bucket-unexpired :
      (key : String) (xs : List Bucket) (b : Bucket)
      → get_bucket key xs ≡ some b
      → is_over limiter t b ≡ false
      → get_bucket key (unexpired limiter t xs) ≡ some b
  unfolding get_bucket unexpired
  get_bucket-unexpired key [] b e young = cc
  get_bucket-unexpired key (c ∷ rest) b e young = ground (arith, get_bucket-unexpired key rest b)

  get_bucket-gc :
      (key : String) (xs : List Bucket) (b : Bucket)
      → get_bucket key xs ≡ some b
      → is_over limiter t b ≡ false
      → length xs ≤ limiter.max_keys
      → get_bucket key (gc limiter t xs) ≡ some b
  unfolding gc
  get_bucket-gc key xs b e young room = ground (arith, get_bucket-unexpired key xs b e young)

  gc-few : (xs : List Bucket) → length (gc limiter t xs) ≤ length xs
  unfolding gc
  gc-few xs =
      ground (arith, unexpired-length limiter t xs, drop-length (length xs - limiter.max_keys) xs)

  open_fresh :
      (key k : String) (b : Bucket)
      → str_eq k key ≡ false
      → get_bucket key limiter.buckets ≡ some b
      → is_over limiter t b ≡ false
      → suc (length limiter.buckets) ≤ limiter.max_keys
      → (get_bucket key (gc limiter t (set_bucket (fresh_bucket limiter t k) limiter.buckets))
          ≡ some b)
        × (length (gc limiter t (set_bucket (fresh_bucket limiter t k) limiter.buckets))
            ≤ suc (length limiter.buckets))
  open_fresh key k b other found young room =
      let xs = set_bucket (fresh_bucket limiter t k) limiter.buckets in
      let size = set_bucket-length (fresh_bucket limiter t k) limiter.buckets in
      (
        get_bucket-gc key xs b
            (get_bucket-set_other key (fresh_bucket limiter t k) limiter.buckets other ∙ found)
            young (omega (arith, size, room)),
        omega (arith, size, gc-few xs),
      )

  open_other :
      (key k : String) (b : Bucket) (o : Option Bucket)
      → str_eq k key ≡ false
      → get_bucket key limiter.buckets ≡ some b
      → is_over limiter t b ≡ false
      → suc (length limiter.buckets) ≤ limiter.max_keys
      → (get_bucket key (open_window limiter t k o).1 ≡ some b)
        × (length (open_window limiter t k o).1 ≤ suc (length limiter.buckets))
  open_other key k b none other found young room = open_fresh key k b other found young room
  open_other key k b (some c) other found young room =
      let fresh = open_fresh key k b other found young room in
      elim (Bool-cases (is_over limiter t c)) [
        | inl over ↦ ground (arith, fresh)
        | inr running ↦ ground arith
      ]

  check_hit-other :
      (key k : String) (b : Bucket)
      → str_eq k key ≡ false
      → get_bucket key limiter.buckets ≡ some b
      → is_over limiter t b ≡ false
      → suc (length limiter.buckets) ≤ limiter.max_keys
      → (get_bucket key (check_hit limiter t k).0.buckets ≡ some b)
        × (length (check_hit limiter t k).0.buckets ≤ suc (length limiter.buckets))
  unfolding check_hit
  check_hit-other key k b other found young room =
      let opened = open_other key k b (get_bucket k limiter.buckets) other found young room in
      let map = (open_window limiter t k (get_bucket k limiter.buckets)).1 in
      elim (Bool-cases (limiter.limit == 0)) [
        | inl off ↦ ground arith
        | inr on ↦
            ground (arith, opened, get_bucket-count_other key k map other, count_hit-length k map)
      ]

  check_hit-same :
      (key : String) (b : Bucket)
      → get_bucket key limiter.buckets ≡ some b
      → is_over limiter t b ≡ false
      → (limiter.limit == 0) ≡ false
      → (get_bucket key (check_hit limiter t key).0.buckets ≡ some (one_more b))
        × (length (check_hit limiter t key).0.buckets ≡ length limiter.buckets)
        × ((check_hit limiter t key).1.allowed ≡ leb (b.count + 1) limiter.limit)
  unfolding check_hit
  check_hit-same key b found young on = ground (
    arith,
    get_bucket-count_hit key limiter.buckets b found,
    count_hit-length key limiter.buckets,
  )

-- The hits of a key that were let pass.
unfoldable pub allowed_for : String → List (ℕ × String) → List RateLimitDecision → ℕ
allowed_for key ((t, k) ∷ hits) (d ∷ decisions) =
    (if str_eq k key && d.allowed then 1 else 0) + allowed_for key hits decisions
allowed_for key _ _ = 0

-- The limiters have the same options.
abbrev SameOptions : RateLimiter → RateLimiter → Type 0
SameOptions a b = (a.window_ms ≡ b.window_ms) × (a.limit ≡ b.limit) × (a.max_keys ≡ b.max_keys)

check_hit-SameOptions :
    (limiter : RateLimiter) (t : ℕ) (k : String) → SameOptions (check_hit limiter t k).0 limiter
unfolding check_hit
check_hit-SameOptions limiter t k = elim (Bool-cases (limiter.limit == 0)) [
  | inl off ↦ ground arith
  | inr on ↦ ground arith
]

-- The window of a bucket lasts at the times of the hits.
abbrev pub InWindow : ℕ → Bucket → List (ℕ × String) → Type 0
InWindow window_ms b = All (λ (h : ℕ × String). h.0 < b.window_start + window_ms)

counted :
    (mine passes : Bool) (count limit limit' rest : ℕ)
    → mine ≡ true
    → passes ≡ leb (count + 1) limit
    → limit' ≡ limit
    → rest ≤ limit' - (count + 1)
    → (if mine && passes then 1 else 0) + rest ≤ limit - count
counted mine passes count limit limit' rest e d same h = ground arith

uncounted :
    (mine passes : Bool) (count limit limit' rest : ℕ)
    → mine ≡ false
    → limit' ≡ limit
    → rest ≤ limit' - count
    → (if mine && passes then 1 else 0) + rest ≤ limit - count
uncounted mine passes count limit limit' rest e same h = ground arith

in_window :
    (limiter : RateLimiter) (t : ℕ) (b : Bucket)
    → t < b.window_start + limiter.window_ms
    → is_over limiter t b ≡ false
in_window limiter t b h = ground arith

is_on : (n : ℕ) → 0 < n → (n == 0) ≡ false
is_on n h = ground arith

-- In the window of a bucket, while the limiter has room for every hit, a key passes at most as many
-- hits as its limit still allows.
pub allowed_for-le :
    (hits : List (ℕ × String)) (limiter : RateLimiter) (key : String) (b : Bucket)
    → 0 < limiter.limit
    → get_bucket key limiter.buckets ≡ some b
    → InWindow limiter.window_ms b hits
    → length limiter.buckets + length hits ≤ limiter.max_keys
    → allowed_for key hits (check_all hits limiter).1 ≤ limiter.limit - b.count
unfolding allowed_for check_all
allowed_for-le [] limiter key b on found window room = omega arith
allowed_for-le ((t, k) ∷ rest) limiter key b on found window room =
    let next = (check_hit limiter t k).0 in
    let (same_window, same_limit, same_max) = check_hit-SameOptions limiter t k in
    let young = in_window limiter t b window.0 in
    let lasts = subst (λ n. InWindow n b rest) (sym same_window) window.1 in
    elim (Bool-cases (str_eq k key)) [
      | inl mine ↦
          let at = (eq_iff k key).0 mine in
          let (kept, size, passes) =
            check_hit-same limiter t k b
              (subst (λ z. get_bucket z limiter.buckets ≡ some b) (sym at) found) young
              (is_on limiter.limit on) in
          let later =
            allowed_for-le rest next key (one_more b) (omega (arith, on, same_limit))
              (subst (λ z. get_bucket z next.buckets ≡ some (one_more b)) at kept) lasts
              (omega (arith, room, size, same_max)) in
          counted (str_eq k key) (check_hit limiter t k).1.allowed b.count limiter.limit next.limit
            _ mine passes same_limit later
      | inr other ↦
          let (kept, size) =
            check_hit-other limiter t key k b other found young (omega (arith, room)) in
          let later =
            allowed_for-le rest next key b (omega (arith, on, same_limit)) kept lasts
              (omega (arith, room, size, same_max)) in
          uncounted (str_eq k key) (check_hit limiter t k).1.allowed b.count limiter.limit
            next.limit _ other same_limit later
    ]
