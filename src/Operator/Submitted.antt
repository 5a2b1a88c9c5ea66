-- ===== src/Operator/Submitted.antt =====
-- Rows under the updates of packages/claims/src/dispatch/ant-operator.ts: the ids stay distinct, and a
-- loop over selected rows reaches no row that the selection leaves out.
use ar_io_solana_attestor.Prelude.{
  ℕ, zero, suc, ◌≡◌, ◌≢◌, refl, sym, ◌∙◌, String, Option, none, some, List, [], ◌∷◌, Bool, true,
  false, not, arith, str_eq, eq_iff, if◌then◌else◌, All, map, take,
}
use ar_io_solana_attestor.Store.{Claim, Asset, find_asset, update_claim}
use ar_io_solana_attestor.Float.Solvency.{UniqueIds}
use ar_io_solana_attestor.Worker.Queue.{select, order_by, insert_row, at_or_before}
use ar_io_solana_attestor.Operator.{AntRow, joined_row, ant_rows, is_null, update_where}

-- What All keeps, through the queries.
module _ {κ} (P : Claim → Type κ) where
  if-All :
      (b : Bool) (xs ys : List Claim)
      → (b ≡ true → All P xs)
      → All P ys
      → All P (if b then xs else ys)
  if-All true xs ys h k = h refl
  if-All false xs ys h k = k

  -- A query's rows meet its condition.
  pub select-All {ν} :
      (Q : Claim → Type ν) (test : Claim → Bool)
      → ((c : Claim) → Q c → test c ≡ true → P c)
      → (cs : List Claim) → All Q cs
      → All P (select test cs)
  unfolding select
  select-All Q test keep [] h = tt
  select-All Q test keep (c ∷ cs) (q, qs) =
      let kept = select-All Q test keep cs qs in if-All (test c) _ _ (λ e. (keep c q e, kept)) kept

  insert_row-All :
      (key : Claim → Option ℕ) (c : Claim) (cs : List Claim)
      → P c
      → All P cs
      → All P (insert_row key c cs)
  unfolding insert_row
  insert_row-All key c [] p h = (p, tt)
  insert_row-All key c (d ∷ cs) p (q, qs) =
      if-All (at_or_before (key c) c.created_at (key d) d.created_at) (c ∷ d ∷ cs)
        (d ∷ insert_row key c cs) (λ e. (p, (q, qs))) (q, insert_row-All key c cs p qs)

  pub order_by-All : (key : Claim → Option ℕ) (cs : List Claim) → All P cs → All P (order_by key cs)
  unfolding order_by
  order_by-All key [] h = tt
  order_by-All key (c ∷ cs) (p, ps) =
      insert_row-All key c (order_by key cs) p (order_by-All key cs ps)

  pub take-All : (n : ℕ) (cs : List Claim) → All P cs → All P (take n cs)
  take-All zero cs h = tt
  take-All (suc n) [] h = tt
  take-All (suc n) (c ∷ cs) (p, ps) = (p, take-All n cs ps)

  abbrev pub ClaimHas : AntRow → Type κ
  ClaimHas r = P r.claim

  joined_row-All :
      (c : Claim) (o : Option Asset) (rows : List AntRow)
      → P c
      → All ClaimHas rows
      → All ClaimHas (joined_row c o rows)
  joined_row-All c none rows p h = h
  joined_row-All c (some a) rows p h = (p, h)

  pub ant_rows-All :
      (assets : List Asset) (cs : List Claim) → All P cs → All ClaimHas (ant_rows assets cs)
  unfolding ant_rows
  ant_rows-All assets [] h = tt
  ant_rows-All assets (c ∷ cs) (p, ps) =
      joined_row-All c (find_asset c.asset_key assets) (ant_rows assets cs) p
        (ant_rows-All assets cs ps)

-- The rows with a recorded signature, in the order of the table.
abbrev pub is_submitted : Claim → Bool
is_submitted c = not (is_null c.dispatch_signature)

pub submitted_rows : List Claim → List Claim
submitted_rows cs = select is_submitted cs

-- The rows of this id have no recorded signature.
abbrev pub IsUnsubmitted : List Claim → String → Type 0
IsUnsubmitted claims id = All (λ (d : Claim). d.claim_id ≡ id → is_submitted d ≡ false) claims

module _ (g : Claim → Claim) (keeps : (c : Claim) → (g c).claim_id ≡ c.claim_id) where
  map-differ :
      (id : String) (cs : List Claim)
      → All (λ (d : Claim). d.claim_id ≢ id) cs
      → All (λ (d : Claim). d.claim_id ≢ id) (map g cs)
  map-differ id [] h = tt
  map-differ id (c ∷ cs) (p, ps) = ((λ e. p (sym (keeps c) ∙ e)), map-differ id cs ps)

  pub map-UniqueIds : (cs : List Claim) → UniqueIds cs → UniqueIds (map g cs)
  unfolding UniqueIds
  map-UniqueIds [] h = tt
  map-UniqueIds (c ∷ cs) (p, ps) = (rw (keeps c) (map-differ c.claim_id cs p), map-UniqueIds cs ps)

-- By the primary key, a row without a signature is the only one of its id.
others-IsUnsubmitted :
    (id : String) (cs : List Claim) → All (λ (d : Claim). d.claim_id ≢ id) cs → IsUnsubmitted cs id
others-IsUnsubmitted id [] h = tt
others-IsUnsubmitted id (c ∷ cs) (p, ps) = ((λ e. absurd (p e)), others-IsUnsubmitted id cs ps)

abbrev pub IsAlone : List Claim → Claim → Type 0
IsAlone claims c = is_submitted c ≡ false → IsUnsubmitted claims c.claim_id

add_first :
    (d : Claim) (rest cs : List Claim)
    → All (λ (c : Claim). c.claim_id ≢ d.claim_id) cs
    → All (IsAlone rest) cs
    → All (IsAlone (d ∷ rest)) cs
add_first d rest [] h k = tt
add_first d rest (c ∷ cs) (p, ps) (q, qs) =
    ((λ unsigned. ((λ e. absurd (p (sym e))), q unsigned)), add_first d rest cs ps qs)

pub UniqueIds-IsAlone : (claims : List Claim) → UniqueIds claims → All (IsAlone claims) claims
unfolding UniqueIds
UniqueIds-IsAlone [] h = tt
UniqueIds-IsAlone (c ∷ cs) (p, ps) = (
  (λ unsigned. ((λ e. unsigned), others-IsUnsubmitted c.claim_id cs p)),
  add_first c cs cs p (UniqueIds-IsAlone cs ps),
)

-- An update of the rows of one id that keeps their ids and signatures.
module _ (f : Claim → Claim) (keeps : (c : Claim) → (f c).claim_id ≡ c.claim_id)
    (same : (c : Claim) → (f c).dispatch_signature ≡ c.dispatch_signature) where
  pub update_claim-IsUnsubmitted :
      (id j : String) (cs : List Claim)
      → IsUnsubmitted cs j
      → IsUnsubmitted (update_claim id f cs) j
  unfolding update_claim
  update_claim-IsUnsubmitted id j [] h = tt
  update_claim-IsUnsubmitted id j (c ∷ cs) (p, ps) =
      (ground (arith, keeps c, same c), update_claim-IsUnsubmitted id j cs ps)

  pub update_claim-submitted :
      (id : String) (cs : List Claim)
      → IsUnsubmitted cs id
      → submitted_rows (update_claim id f cs) ≡ submitted_rows cs
  unfolding update_claim submitted_rows select
  update_claim-submitted id [] h = refl
  update_claim-submitted id (c ∷ cs) (p, ps) =
      ground (arith, eq_iff c.claim_id id, same c, update_claim-submitted id cs ps)

-- An update that only rows without a signature meet.
pub update_where-submitted :
    (test : Claim → Bool) (f : Claim → Claim)
    → ((c : Claim) → test c ≡ true → is_submitted c ≡ false)
    → ((c : Claim) → (f c).dispatch_signature ≡ c.dispatch_signature)
    → (cs : List Claim) → submitted_rows (update_where test f cs) ≡ submitted_rows cs
unfolding update_where submitted_rows select
update_where-submitted test f only same [] = refl
update_where-submitted test f only same (c ∷ cs) =
    ground (arith, only c, same c, update_where-submitted test f only same cs)

-- A change of the table that leaves the submitted rows as they are, and the ids distinct.
pub record Keeps (claims claims' : List Claim) : Type 0 where
  pub same_submitted : submitted_rows claims' ≡ submitted_rows claims
  pub unique : UniqueIds claims → UniqueIds claims'

pub Keeps-refl : (claims : List Claim) → Keeps claims claims
Keeps-refl claims = record { same_submitted = refl; unique = λ u. u }

pub Keeps-trans : {a b c : List Claim} → Keeps a b → Keeps b c → Keeps a c
Keeps-trans p q = record {
  same_submitted = q.same_submitted ∙ p.same_submitted;
  unique = λ h. q.unique (p.unique h);
}

pub update_claim-Keeps :
    (f : Claim → Claim)
    → ((c : Claim) → (f c).claim_id ≡ c.claim_id)
    → ((c : Claim) → (f c).dispatch_signature ≡ c.dispatch_signature)
    → (id : String) (cs : List Claim) → IsUnsubmitted cs id
    → Keeps cs (update_claim id f cs)
unfolding update_claim
update_claim-Keeps f keeps same id cs h = record {
  same_submitted = update_claim-submitted f keeps same id cs h;
  unique =
      map-UniqueIds (λ c. if str_eq c.claim_id id then f c else c) (λ c. ground (arith, keeps c))
        cs;
}

pub update_where-Keeps :
    (test : Claim → Bool) (f : Claim → Claim)
    → ((c : Claim) → test c ≡ true → is_submitted c ≡ false)
    → ((c : Claim) → (f c).claim_id ≡ c.claim_id)
    → ((c : Claim) → (f c).dispatch_signature ≡ c.dispatch_signature)
    → (cs : List Claim) → Keeps cs (update_where test f cs)
unfolding update_where
update_where-Keeps test f only keeps same cs = record {
  same_submitted = update_where-submitted test f only same cs;
  unique = map-UniqueIds (λ c. if test c then f c else c) (λ c. ground (arith, keeps c)) cs;
}
