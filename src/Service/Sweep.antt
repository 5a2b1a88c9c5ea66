-- ===== src/Service/Sweep.antt =====
-- One round of the sweep of packages/claims/src/api/reaper.ts takes challenges that are over, and no
-- other claim.
use ar_io_solana_attestor.Prelude.{
  ℕ, zero, suc, ◌≤◌, ◌<◌, ◌≡◌, refl, String, Option, none, some, List, [], ◌∷◌, true, false, arith,
  length, take, All, eq_iff, Bool-cases, inl, inr,
}
use ar_io_solana_attestor.Audit.{Context}
use ar_io_solana_attestor.Store.{Claim, Db, update_claim, find_claim}
use ar_io_solana_attestor.Store.Laws.{find_claim-update_claim}
use ar_io_solana_attestor.Service.Outcomes.{if-split}
use ar_io_solana_attestor.Service.Reaper.{
  is_claiming, is_due, due, insert_by_expiry, by_expiry, expires_before, batch_limit,
  expire_claiming, reaped_db, reap_rows, batch,
}

module _ {ℓ κ} {A : Type ℓ} (P : A → Type κ) where
  All-take : (n : ℕ) (xs : List A) → All P xs → All P (take n xs)
  All-take zero xs h = tt
  All-take (suc n) [] h = tt
  All-take (suc n) (x ∷ xs) h = (h.0, All-take n xs h.1)

module _ {ℓ κ μ} {A : Type ℓ} (P : A → Type κ) (Q : A → Type μ) (f : (x : A) → P x → Q x) where
  All-weaken : (xs : List A) → All P xs → All Q xs
  All-weaken [] h = tt
  All-weaken (x ∷ xs) h = (f x h.0, All-weaken xs h.1)

module _ {κ} (P : Claim → Type κ) where
  insert_by_expiry-All :
      (c : Claim) (xs : List Claim) → P c → All P xs → All P (insert_by_expiry c xs)
  unfolding insert_by_expiry
  insert_by_expiry-All c [] p h = (p, tt)
  insert_by_expiry-All c (d ∷ rest) p h =
      elim (Bool-cases (expires_before c.challenge_expires_at d.challenge_expires_at)) [
        | inl before ↦ ground arith
        | inr after ↦ ground (arith, insert_by_expiry-All c rest p h.1)
      ]

  by_expiry-All : (xs : List Claim) → All P xs → All P (by_expiry xs)
  unfolding by_expiry
  by_expiry-All [] h = tt
  by_expiry-All (c ∷ rest) h = insert_by_expiry-All c (by_expiry rest) h.0 (by_expiry-All rest h.1)

module _ (ctx : Context) (now : ℕ) where
  -- The claims that the sweep would still take.
  abbrev pub left : List Claim → ℕ
  left claims = length (due now claims)

  abbrev after : Claim → List Claim → List Claim
  after c claims = update_claim c.claim_id (expire_claiming ctx) claims

  expired-settled : (c : Claim) → is_due now (expire_claiming ctx c) ≡ false
  unfolding is_due
  expired-settled c = elim (Bool-cases (is_claiming c.status)) [
    | inl is ↦ ground arith
    | inr other ↦ ground arith
  ]

  after-le : (c : Claim) (claims : List Claim) → left (after c claims) ≤ left claims
  unfolding due update_claim
  after-le c [] = omega arith
  after-le c (d ∷ rest) = ground (arith, after-le c rest, expired-settled d)

  self-Present :
      (d : Claim) (rest : List Claim)
      → is_due now d ≡ true
      → left (after d (d ∷ rest)) < left (d ∷ rest)
  unfolding due update_claim
  self-Present d rest e =
      ground (arith, after-le d rest, expired-settled d, eq_iff d.claim_id d.claim_id)

  later-Present :
      (c d : Claim) (rest : List Claim)
      → left (after c rest) < left rest
      → left (after c (d ∷ rest)) < left (d ∷ rest)
  unfolding due update_claim
  later-Present c d rest h = ground (arith, expired-settled d)

  abbrev pub Present : List Claim → Claim → Type 0
  Present claims c = left (after c claims) < left claims

  due-Present : (claims : List Claim) → All (Present claims) (due now claims)
  unfolding due
  due-Present [] = tt
  due-Present (d ∷ rest) =
      let later =
        All-weaken (Present rest) (Present (d ∷ rest)) (λ c h. later-Present c d rest h)
          (due now rest) (due-Present rest) in
      if-split (All (Present (d ∷ rest))) (is_due now d) {x = d ∷ due now rest} {y = due now rest}
        (λ e. (self-Present d rest e, later)) (λ e. later)

  pub reap_rows-le :
      (rows : List Claim) (db : Db) → left (reap_rows ctx rows db).claims ≤ left db.claims
  unfolding reap_rows
  reap_rows-le [] db = omega arith
  reap_rows-le (c ∷ rest) db =
      omega (arith, reap_rows-le rest (reaped_db ctx c db), after-le c db.claims)

  pub reap_rows-less :
      (rows : List Claim) (db : Db)
      → All (Present db.claims) rows
      → 0 < length rows
      → left (reap_rows ctx rows db).claims < left db.claims
  unfolding reap_rows
  reap_rows-less [] db h n = absurd (omega arith)
  reap_rows-less (c ∷ rest) db h n = omega (arith, reap_rows-le rest (reaped_db ctx c db), h.0)

  pub batch-Present :
      (limit : Option ℕ) (db : Db) → All (Present db.claims) (batch ctx now limit db)
  batch-Present limit db =
      All-take (Present db.claims) (batch_limit limit) (by_expiry (due now db.claims))
        (by_expiry-All (Present db.claims) (due now db.claims) (due-Present db.claims))

  insert_by_expiry-length :
      (c : Claim) (xs : List Claim) → length (insert_by_expiry c xs) ≡ suc (length xs)
  unfolding insert_by_expiry
  insert_by_expiry-length c [] = refl
  insert_by_expiry-length c (d ∷ rest) = ground (arith, insert_by_expiry-length c rest)

  by_expiry-length : (xs : List Claim) → length (by_expiry xs) ≡ length xs
  unfolding by_expiry
  by_expiry-length [] = refl
  by_expiry-length (c ∷ rest) =
      omega (arith, insert_by_expiry-length c (by_expiry rest), by_expiry-length rest)

  take-empty : (n : ℕ) (xs : List Claim) → 0 < n → length (take n xs) ≡ 0 → length xs ≡ 0
  take-empty zero xs h e = absurd (omega arith)
  take-empty (suc n) [] h e = refl
  take-empty (suc n) (x ∷ xs) h e = absurd (omega arith)

  batch_limit-positive : (limit : Option ℕ) → 0 < batch_limit limit
  batch_limit-positive none = omega arith
  batch_limit-positive (some n) = ground arith

  pub batch-empty :
      (limit : Option ℕ) (db : Db) → length (batch ctx now limit db) ≡ 0 → left db.claims ≡ 0
  batch-empty limit db e = omega (
    arith,
    take-empty (batch_limit limit) (by_expiry (due now db.claims)) (batch_limit-positive limit) e,
    by_expiry-length (due now db.claims),
  )

  abbrev pub Keeps : Db → Db → Type 0
  Keeps db db' =
      (db'.assets ≡ db.assets)
      × ((id : String) (c : Claim)
          → find_claim id db.claims ≡ some c
          → is_claiming c.status ≡ false
          → find_claim id db'.claims ≡ some c)

  expire_claiming-id : (c : Claim) → (expire_claiming ctx c).claim_id ≡ c.claim_id
  expire_claiming-id c = ground arith

  one-Keeps :
      (row : Claim) (db : Db) (id : String) (c : Claim)
      → find_claim id db.claims ≡ some c
      → is_claiming c.status ≡ false
      → find_claim id (after row db.claims) ≡ some c
  one-Keeps row db id c found other = ground (
    arith,
    find_claim-update_claim (expire_claiming ctx) expire_claiming-id row.claim_id id db.claims,
  )

  pub reap_rows-Keeps : (rows : List Claim) (db : Db) → Keeps db (reap_rows ctx rows db)
  unfolding reap_rows
  reap_rows-Keeps [] db = (refl, λ id c found other. found)
  reap_rows-Keeps (row ∷ rest) db =
      let (assets, claims) = reap_rows-Keeps rest (reaped_db ctx row db) in
      (assets, λ id c found other. claims id c (one-Keeps row db id c found other) other)
