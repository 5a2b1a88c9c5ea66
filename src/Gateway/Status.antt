-- ===== src/Gateway/Status.antt =====
-- SolanaChainGateway of packages/claims/src/dispatch/chain.ts: the status of a signature and the
-- scan for a landed transaction, over the answers of the RPC node (third-party).
use ar_io_solana_attestor.Prelude.{
  ℕ, leb, Bool-cases, ◌+◌, ◌≤◌, ◌<◌, ◌≡◌, ◌≢◌, refl, String, Option, none, some, List, [], ◌∷◌,
  Bool, true, false, ◌&&◌, ◌||◌, arith, ltb, if◌then◌else◌, str_eq, inl, inr, Option-cases, sym,
}
use ar_io_solana_attestor.Gateway.{ConfirmState, failed, pending, expired}

ConfirmState-discrete : Discrete ConfirmState
ConfirmState-discrete = hlevel

pub data ConfirmationStatus : Type 0 where
  processed confirmed finalized : ConfirmationStatus

-- A signature's status as the node reports it; `err` tells whether the transaction failed.
pub record SignatureStatus : Type 0 where
  pub err : Bool
  pub confirmation_status : ConfirmationStatus

-- The RPC node's answers on one signature, at each instant.
pub record Node : Type 0 where
  pub block_height : ℕ → ℕ
  pub signature_status : ℕ → Option SignatureStatus

-- One poll: when it begins, and how much later its second call is answered.
pub record Poll : Type 0 where
  pub begins : ℕ
  pub latency : ℕ

abbrev pub is_landed : ConfirmationStatus → Bool
is_landed processed = false
is_landed confirmed = true
is_landed finalized = true

abbrev pub classify : ℕ → ℕ → Option SignatureStatus → ConfirmState
classify last_valid height_at_sample (some st) =
    if st.err
    then failed
    else if is_landed st.confirmation_status
    then ConfirmState.confirmed
    else pending
classify last_valid height_at_sample none =
    if ltb last_valid height_at_sample then expired else pending

-- The height is read first, and the status after it.
unfoldable pub status_once : Node → ℕ → Poll → ConfirmState
status_once node last_valid poll =
    let height_at_sample = node.block_height poll.begins in
    classify last_valid height_at_sample (node.signature_status (poll.begins + poll.latency))

-- The loop of confirmSignature over the polls that are made before the deadline.
unfoldable pub confirm_signature : Node → ℕ → List Poll → ConfirmState
confirm_signature node last_valid [] = pending
confirm_signature node last_valid (poll ∷ rest) = elim (status_once node last_valid poll) [
  | pending ↦ confirm_signature node last_valid rest
  | state ↦ state
]

-- One entry of getSignaturesForAddress.
pub record HistoryEntry : Type 0 where
  pub signature : String
  pub err : Bool
  pub confirmation_status : ConfirmationStatus

unfoldable pub any_known : String → List String → Bool
any_known s [] = false
any_known s (t ∷ rest) = str_eq s t || any_known s rest

unfoldable pub scan_page : List String → List HistoryEntry → Option String
scan_page known [] = none
scan_page known (e ∷ rest) =
    if e.err
    then scan_page known rest
    else if is_landed e.confirmation_status && any_known e.signature known
    then some e.signature
    else scan_page known rest

-- The pages of the addresses in turn; a page that cannot be read is skipped. The empty texts are
-- taken out of the known signatures first.
unfoldable pub scan_pages : List String → List (Option (List HistoryEntry)) → Option String
scan_pages known [] = none
scan_pages known (none ∷ rest) = scan_pages known rest
scan_pages known (some page ∷ rest) = elim (scan_page known page) [
  | some s ↦ some s
  | none ↦ scan_pages known rest
]

unfoldable pub without_empty : List String → List String
without_empty [] = []
without_empty (s ∷ rest) = let kept = without_empty rest in if str_eq s "" then kept else s ∷ kept

unfoldable pub find_confirmed_outflow :
    List String → List (Option (List HistoryEntry)) → Option String
find_confirmed_outflow known_signatures pages = elim (without_empty known_signatures) [
  | [] ↦ none
  | s ∷ known ↦ scan_pages (s ∷ known) pages
]

-- A chain on which the height never falls, and on which a transaction lands no higher than its last valid
-- block and is reported from then on.
pub record IsChain (node : Node) (last_valid : ℕ) : Type 0 where
  pub never_falls : (s t : ℕ) → s ≤ t → node.block_height s ≤ node.block_height t
  pub landing :
      (u : ℕ)
      → node.signature_status u ≢ none
      → (l : ℕ) × (node.block_height l ≤ last_valid)
        × ((v : ℕ) → l ≤ v → node.signature_status v ≢ none)

pub data Seen (P : Poll → Type 0) : List Poll → Type 0 where
  now : {p : Poll} {rest : List Poll} → P p → Seen P (p ∷ rest)
  later : {p : Poll} {rest : List Poll} → Seen P rest → Seen P (p ∷ rest)

-- The status that a poll has read.
abbrev pub status_of : Node → Poll → Option SignatureStatus
status_of node p = node.signature_status (p.begins + p.latency)

-- What an answer means: confirmed and failed, that the poll has read such a status; expired, that the
-- transaction is reported at no instant.
abbrev pub Means : Node → ConfirmState → Poll → Type 0
Means node ConfirmState.confirmed p =
    (st : SignatureStatus) × (status_of node p ≡ some st)
    × (st.err ≡ false)
    × (is_landed st.confirmation_status ≡ true)
Means node failed p = (st : SignatureStatus) × (status_of node p ≡ some st) × (st.err ≡ true)
Means node expired p = (u : ℕ) → node.signature_status u ≡ none
Means node pending p = ⊥

module _ (node : Node) (last_valid : ℕ) (chain : IsChain node last_valid) where
  -- A height past the last valid one, and no status afterwards: it lands never.
  never_lands :
      (s t : ℕ)
      → s ≤ t
      → last_valid < node.block_height s
      → node.signature_status t ≡ none
      → (u : ℕ) → node.signature_status u ≡ none
  never_lands s t order past missing u = elim (Option-cases (node.signature_status u)) [
    | inl absent ↦ absent
    | inr (st, there) ↦
        let (l, valid, seen) = chain.landing u (λ absent. cc) in
        absurd (elim (Bool-cases (leb l t)) [
          | inl before ↦ seen t (ground arith) missing
          | inr after ↦ omega (arith, chain.never_falls s l (ground arith))
        ])
  ]

  classify-Means :
      (p : Poll) (state : ConfirmState)
      → status_once node last_valid p ≡ state
      → state ≢ pending
      → Means node state p
  unfolding status_once
  classify-Means p ConfirmState.confirmed e n = elim (Option-cases (status_of node p)) [
    | inl missing ↦ ground arith
    | inr (st, there) ↦ (st, there, ground arith, ground arith)
  ]
  classify-Means p failed e n = elim (Option-cases (status_of node p)) [
    | inl missing ↦ ground arith
    | inr (st, there) ↦ (st, there, ground arith)
  ]
  classify-Means p expired e n = elim (Option-cases (status_of node p)) [
    | inl missing ↦ never_lands p.begins (p.begins + p.latency) (omega arith) (ground arith) missing
    | inr (st, there) ↦ absurd (ground arith)
  ]
  classify-Means p pending e n = absurd (n refl)

-- An answer of confirmSignature other than pending is right, on a chain whose height never falls and on
-- which a transaction lands no higher than its last valid block and is reported from then on: after
-- confirmed, some poll has read a status without an error at a landed commitment; after failed, one with
-- an error; after expired, the transaction is reported at no instant, before or after.
pub confirm_signature-Means :
    (node : Node) (last_valid : ℕ) (polls : List Poll) (state : ConfirmState)
    → IsChain node last_valid
    → confirm_signature node last_valid polls ≡ state
    → state ≢ pending
    → Seen (Means node state) polls
unfolding confirm_signature
confirm_signature-Means node last_valid [] state chain e n = absurd (n (sym e))
confirm_signature-Means node last_valid (poll ∷ rest) state chain e n =
    elim (ConfirmState-discrete (status_once node last_valid poll) pending) [
      | yes waits ↦ later (
          confirm_signature-Means node last_valid rest state chain
            (rw (waits, confirm_signature) at e) n)
      | no ends ↦ now (classify-Means node last_valid chain poll state (ground arith) n)
    ]
