-- ===== src/Worker/Sends.antt =====
-- What a call of processClaim does to the database and to the chain.
use ar_io_solana_attestor.Prelude.{
  ◌≡◌, refl, ◌⊎◌, inl, inr, String, Option, none, some, List, [], ◌∷◌, ◌++◌, true, str_eq, eq_iff,
  arith, Option-cases, Bool-cases,
}
use ar_io_solana_attestor.Audit.{Context}
use ar_io_solana_attestor.Audit.Canonical.{◌+s◌}
use ar_io_solana_attestor.Gateway.{Gateway, SignedDispatch, ConfirmState}
use ar_io_solana_attestor.Store.{Claim, Db, find_claim, update_claim}
use ar_io_solana_attestor.Store.Laws.{find_claim-update_same}
use ar_io_solana_attestor.Dispatch.{PersistDispatchingArgs, signatures, any_eq}
use ar_io_solana_attestor.Dispatch.Persist.{
  persist_dispatching, dispatching_row, finalize_confirmed, confirmed_row, mark_failed, failed_row,
}
use ar_io_solana_attestor.Dispatch.Transitions.{Transition, persist, finalize, fail, apply, run}
use ar_io_solana_attestor.Dispatch.Core.{World, dispatch_signed_tx, settle, after_persist}

-- The claim's row lists the signature.
abbrev pub Recorded : String → String → List Claim → Type 0
Recorded claim_id sig claims =
    (c : Claim) × (find_claim claim_id claims ≡ some c) × (any_eq sig (signatures c) ≡ true)

-- Nothing was broadcast, or one transaction, which the claim's row lists.
abbrev pub Sends : String → World → World → Type 0
Sends claim_id w w' =
    (w'.broadcasts ≡ w.broadcasts)
    ⊎ ((signed : SignedDispatch) × (w'.broadcasts ≡ signed ∷ w.broadcasts)
        × Recorded claim_id signed.signature w'.db.claims)

-- The database is changed by transactions of the dispatch, and the chain as Sends says.
abbrev pub Effect : String → World → World → Type 0
Effect claim_id w w' =
    ((ts : List (Context × Transition)) × (w'.db ≡ run ts w.db)) × Sends claim_id w w'

str_eq_refl : (s : String) → str_eq s s ≡ true
str_eq_refl s = (eq_iff s s).1 refl

any_eq-last : (s : String) (xs : List String) → any_eq s (xs ++ s ∷ []) ≡ true
unfolding any_eq
any_eq-last s [] = ground (arith, str_eq_refl s)
any_eq-last s (x ∷ xs) = ground (arith, any_eq-last s xs)

any_eq-append : (s : String) (xs ys : List String) → any_eq s xs ≡ true → any_eq s (xs ++ ys) ≡ true
unfolding any_eq
any_eq-append s [] ys e = cc
any_eq-append s (x ∷ xs) ys e = elim (Bool-cases (str_eq s x)) [
  | inl same ↦ ground arith
  | inr differs ↦ ground (arith, any_eq-append s xs ys (ground arith))
]

module _ (ctx : Context) where
  confirmed_row-any_eq :
      (s sig : String) (c : Claim)
      → any_eq s (signatures c) ≡ true
      → any_eq s (signatures (confirmed_row ctx sig c)) ≡ true
  confirmed_row-any_eq s sig c has = ground (arith, any_eq-append s (signatures c) (sig ∷ []) has)

  persist_dispatching-Recorded :
      (args : PersistDispatchingArgs) (db db' : Db)
      → persist_dispatching ctx args db ≡ some db'
      → Recorded args.claim_id args.signed.signature db'.claims
  unfolding persist_dispatching
  persist_dispatching-Recorded args db db' e =
      elim (Option-cases (find_claim args.claim_id db.claims)) [
        | inl missing ↦ ground arith
        | inr (c, found) ↦
            let row =
              find_claim-update_same (dispatching_row ctx args) (λ d. refl) args.claim_id db.claims
                c found in
            let updated : db'.claims
                ≡ update_claim args.claim_id (dispatching_row ctx args) db.claims =
              ground arith in
            (
              dispatching_row ctx args c,
              rw updated row,
              any_eq-last args.signed.signature (signatures c),
            )
      ]

  finalize_confirmed-claims :
      (id sig : String) (db : Db)
      → ((finalize_confirmed ctx id sig db).claims ≡ db.claims)
        ⊎ ((finalize_confirmed ctx id sig db).claims
            ≡ update_claim id (confirmed_row ctx sig) db.claims)
  unfolding finalize_confirmed
  finalize_confirmed-claims id sig db = ground arith

  mark_failed-claims :
      (id reason : String) (db : Db)
      → ((mark_failed ctx id reason db).claims ≡ db.claims)
        ⊎ ((mark_failed ctx id reason db).claims
            ≡ update_claim id (failed_row ctx reason) db.claims)
  unfolding mark_failed
  mark_failed-claims id reason db = ground arith

  Recorded-update_claim :
      (f : Claim → Claim) (keeps : (c : Claim) → (f c).claim_id ≡ c.claim_id) (id s : String)
      → ((c : Claim) → any_eq s (signatures c) ≡ true → any_eq s (signatures (f c)) ≡ true)
      → (claims : List Claim) → Recorded id s claims
      → Recorded id s (update_claim id f claims)
  Recorded-update_claim f keeps id s still claims (c, found, has) =
      (f c, find_claim-update_same f keeps id claims c found, still c has)

  finalize_confirmed-Recorded :
      (id s sig : String) (db : Db)
      → Recorded id s db.claims
      → Recorded id s (finalize_confirmed ctx id sig db).claims
  finalize_confirmed-Recorded id s sig db r = elim (finalize_confirmed-claims id sig db) [
    | inl same ↦ rw same r
    | inr updated ↦ rw updated (
        Recorded-update_claim (confirmed_row ctx sig) (λ d. refl) id s (confirmed_row-any_eq s sig)
          db.claims r)
  ]

  mark_failed-Recorded :
      (id s reason : String) (db : Db)
      → Recorded id s db.claims
      → Recorded id s (mark_failed ctx id reason db).claims
  mark_failed-Recorded id s reason db r = elim (mark_failed-claims id reason db) [
    | inl same ↦ rw same r
    | inr updated ↦
        rw updated (
          Recorded-update_claim (failed_row ctx reason) (λ d. refl) id s (λ d has. has) db.claims r)
  ]

  -- After the commit: `db` is what the transaction committed.
  module _ (args : PersistDispatchingArgs) (w : World) (db : Db) where
    abbrev sent : World
    sent = record { db = db; broadcasts = args.signed ∷ w.broadcasts }

    settle-Effect :
        (state : Option ConfirmState)
        → persist_dispatching ctx args w.db ≡ some db
        → Effect args.claim_id w (settle ctx args sent state).0
    unfolding run apply
    settle-Effect none e = (
      ((ctx, persist args) ∷ [], ground arith),
      inr (args.signed, refl, persist_dispatching-Recorded args w.db db e),
    )
    settle-Effect (some ConfirmState.confirmed) e = (
      (
        (ctx, persist args) ∷ (ctx, finalize args.claim_id args.signed.signature) ∷ [],
        ground arith,
      ),
      inr (
        args.signed,
        refl,
        finalize_confirmed-Recorded args.claim_id args.signed.signature args.signed.signature db
            (persist_dispatching-Recorded args w.db db e),
      ),
    )
    settle-Effect (some ConfirmState.failed) e = (
      (
        (ctx, persist args)
            ∷ (ctx, fail args.claim_id ("on-chain tx " +s args.signed.signature +s " failed"))
            ∷ [],
        ground arith,
      ),
      inr (
        args.signed,
        refl,
        mark_failed-Recorded args.claim_id args.signed.signature
            ("on-chain tx " +s args.signed.signature +s " failed") db
            (persist_dispatching-Recorded args w.db db e),
      ),
    )
    settle-Effect (some _) e = (
      ((ctx, persist args) ∷ [], ground arith),
      inr (args.signed, refl, persist_dispatching-Recorded args w.db db e),
    )

  module _ (gateway : Gateway) where
    after_persist-Effect :
        (args : PersistDispatchingArgs) (w : World) (o : Option Db)
        → persist_dispatching ctx args w.db ≡ o
        → Effect args.claim_id w (after_persist ctx gateway args w o).0
    unfolding run
    after_persist-Effect args w none e = (([], refl), inl refl)
    after_persist-Effect args w (some db) e =
        settle-Effect args w db
          (gateway.confirm_signature args.signed.signature args.signed.last_valid_block_height) e

    pub dispatch_signed_tx-Effect :
        (args : PersistDispatchingArgs) (w : World)
        → Effect args.claim_id w (dispatch_signed_tx ctx gateway args w).0
    unfolding dispatch_signed_tx
    dispatch_signed_tx-Effect args w =
        after_persist-Effect args w (persist_dispatching ctx args w.db) refl
