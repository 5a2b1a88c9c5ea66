-- ===== src/Gateway/Outflow.antt =====
-- findConfirmedOutflow of packages/claims/src/dispatch/chain.ts: what a match is.
use ar_io_solana_attestor.Prelude.{
  ◌≡◌, ◌≢◌, refl, String, Option, none, some, List, [], ◌∷◌, true, false, ◌&&◌, arith, str_eq,
  eq_iff, inl, inr, Bool-cases, Option-cases,
}
use mathlib.Core.List.{Mem, mem-cons}
use mathlib.Core.Logic.Or
use ar_io_solana_attestor.Gateway.Status.{
  HistoryEntry, is_landed, any_known, scan_page, scan_pages, without_empty, find_confirmed_outflow,
}

any_known-Mem : (s : String) (known : List String) → any_known s known ≡ true → Mem s known
unfolding any_known
any_known-Mem s [] e = cc
any_known-Mem s (t ∷ rest) e = elim (Bool-cases (str_eq s t)) [
  | inl hit ↦ mem-cons.1 (Or.inl ((eq_iff s t).0 hit))
  | inr miss ↦ mem-cons.1 (Or.inr (any_known-Mem s rest (ground arith)))
]

any_known-without_empty :
    (s : String) (known : List String)
    → any_known s (without_empty known) ≡ true
    → (any_known s known ≡ true) × (str_eq s "" ≡ false)
unfolding any_known without_empty
any_known-without_empty s [] e = cc
any_known-without_empty s (t ∷ rest) e =
    ground (arith, eq_iff s t, eq_iff t "", eq_iff s "", any_known-without_empty s rest)

-- A transaction of the history that landed without an error under one of the known signatures.
abbrev pub IsOurs : List String → String → HistoryEntry → Type 0
IsOurs known s e =
    (e.signature ≡ s)
    × (e.err ≡ false)
    × (is_landed e.confirmation_status ≡ true)
    × Mem s known
    × (s ≢ "")

-- A transaction of some page is such that P.
pub data Landed (P : HistoryEntry → Type 0) : List (Option (List HistoryEntry)) → Type 0 where
  here :
      {e : HistoryEntry} {page : List HistoryEntry} {rest : List (Option (List HistoryEntry))}
      → Mem e page
      → P e
      → Landed P (some page ∷ rest)
  there :
      {page : Option (List HistoryEntry)} {rest : List (Option (List HistoryEntry))}
      → Landed P rest
      → Landed P (page ∷ rest)

module _ (known : List String) (s : String) where
  ours :
      (e : HistoryEntry)
      → e.err ≡ false
      → (is_landed e.confirmation_status && any_known e.signature (without_empty known)) ≡ true
      → e.signature ≡ s
      → IsOurs known s e
  ours e fine hit at =
      let known_at = any_known-without_empty e.signature known (ground arith) in
      (
        at,
        fine,
        ground arith,
        any_known-Mem s known (ground arith),
        λ empty. ground (arith, eq_iff e.signature ""),
      )

  scan_page-IsOurs :
      (page : List HistoryEntry)
      → scan_page (without_empty known) page ≡ some s
      → (e : HistoryEntry) × Mem e page × IsOurs known s e
  unfolding scan_page
  scan_page-IsOurs [] found = cc
  scan_page-IsOurs (e ∷ rest) found = elim (Bool-cases e.err) [
    | inl bad ↦ let r = scan_page-IsOurs rest (ground arith) in (r.0, mem-cons.1 (Or.inr r.1), r.2)
    | inr fine ↦
        elim (Bool-cases
          (is_landed e.confirmation_status && any_known e.signature (without_empty known))) [
            | inl hit ↦ (e, mem-cons.1 (Or.inl refl), ours e fine hit (ground arith))
            | inr other ↦
                let r = scan_page-IsOurs rest (ground arith) in (r.0, mem-cons.1 (Or.inr r.1), r.2)
          ]
  ]

  scan_pages-Landed :
      (pages : List (Option (List HistoryEntry)))
      → scan_pages (without_empty known) pages ≡ some s
      → Landed (IsOurs known s) pages
  unfolding scan_pages
  scan_pages-Landed [] found = cc
  scan_pages-Landed (none ∷ rest) found = there (scan_pages-Landed rest found)
  scan_pages-Landed (some page ∷ rest) found =
      elim (Option-cases (scan_page (without_empty known) page)) [
        | inl missing ↦ there (scan_pages-Landed rest (ground arith))
        | inr (t, hit) ↦ let r = scan_page-IsOurs page (ground arith) in here r.1 r.2
      ]

-- A signature that the scan returns is one of those passed in, is not empty, and stands in a page
-- that was read, as a transaction without an error at a landed commitment.
pub find_confirmed_outflow-Landed :
    (known : List String) (pages : List (Option (List HistoryEntry))) (s : String)
    → find_confirmed_outflow known pages ≡ some s
    → Landed (IsOurs known s) pages
unfolding find_confirmed_outflow
find_confirmed_outflow-Landed known pages s found = scan_pages-Landed known s pages (ground arith)
