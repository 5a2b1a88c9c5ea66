-- ===== src/Service/Signed.antt =====
-- The bytes that initiateClaim offers are the bytes that completeClaim verifies:
-- packages/claims/src/api/service.ts.
use ar_io_solana_attestor.Prelude.{
  ℕ, ◌≡◌, refl, sym, ap, ◌∙◌, String, Option, none, some, List, [], ◌∷◌, ◌++◌, false, arith, eq_iff,
  length, Option-cases, inl, inr,
}
use mathlib.Core.Option.{get_or}
use ar_io_solana_attestor.Audit.{Bytes, Context}
use ar_io_solana_attestor.Merkle.Hex.{to_hex}
use ar_io_solana_attestor.Store.{Claim, Asset, Recipient, Db, find_asset, find_claim}
use ar_io_solana_attestor.Store.Laws.{find_asset-key}
use ar_io_solana_attestor.Verify.{Outcome, ok, RecipientView, ClaimProof, VerifiedProof, VerifyArgs}
use ar_io_solana_attestor.Verify.Canonical.{build_canonical_from_ledger}
use ar_io_solana_attestor.Verify.Authorized.{verify_claim-Authorized}
use ar_io_solana_attestor.Service.{
  Checked, passes, refuses, returns, Exit, finish, Service, truthy, to_asset_view,
  to_recipient_view, find_recipient, protocol_num,
}
use ar_io_solana_attestor.Service.Proof.{
  ProofInput, CompleteInput, build_proof, proof_of_protocol, proof_with_nonce, echoed_nonce,
  arweave_proof, ethereum_proof,
}
use ar_io_solana_attestor.Service.Initiate.{
  InitiateInput, InitiateResult, initiate_claim, new_claim, inserted, result_named, conflicts,
  fresh,
}
use ar_io_solana_attestor.Service.Begun.{
  Offered, Begins, initiate_claim-Begins, fails, reuses, issues,
}
use ar_io_solana_attestor.Service.Outcomes.{Proven, Found}
use ar_io_solana_attestor.Service.Complete.{CompleteResult, complete_claim, lookup_claim}
use ar_io_solana_attestor.Verify.Claim.{verify_claim}
use ar_io_solana_attestor.Service.Granted.{args_of, won, replayed, complete_claim-Granted}

module _ (service : Service) where
  arweave-claimant :
      (p : ProofInput) (claimant : String) (echoed : Option Bytes) (s : Option String)
      (proof : ClaimProof)
      → arweave_proof service p claimant echoed s ≡ passes proof
      → proof.claimant ≡ claimant
  arweave-claimant p claimant echoed none proof e = absurd (ground arith)
  arweave-claimant p claimant echoed (some text) proof e = ground arith

  ethereum-claimant :
      (claimant : String) (echoed : Option Bytes) (s : Option String) (proof : ClaimProof)
      → ethereum_proof service claimant echoed s ≡ passes proof
      → proof.claimant ≡ claimant
  ethereum-claimant claimant echoed none proof e = absurd (ground arith)
  ethereum-claimant claimant echoed (some text) proof e = ground arith

  nonce-claimant :
      (p : ProofInput) (claimant : String) (o : Checked (Option Bytes)) (proof : ClaimProof)
      → proof_with_nonce service p claimant o ≡ passes proof
      → proof.claimant ≡ claimant
  nonce-claimant p claimant (refuses r) proof e = absurd (ground arith)
  nonce-claimant p claimant (passes echoed) proof e = ground (
    arith,
    arweave-claimant p claimant echoed p.rsa_signature proof,
    ethereum-claimant claimant echoed p.signature_hex proof,
  )

  protocol-claimant :
      (p : ProofInput) (claimant : String) (protocol : ℕ) (nonce_hex : Option String)
      (o : Checked ℕ) (proof : ClaimProof)
      → proof_of_protocol service p claimant protocol nonce_hex o ≡ passes proof
      → proof.claimant ≡ claimant
  protocol-claimant p claimant protocol nonce_hex (refuses r) proof e = absurd (ground arith)
  protocol-claimant p claimant protocol nonce_hex (passes n) proof e =
      ground (arith, nonce-claimant p claimant (echoed_nonce nonce_hex) proof)

find_claim-last :
    (id : String) (claims : List Claim) (c : Claim)
    → find_claim id claims ≡ none
    → c.claim_id ≡ id
    → find_claim id (claims ++ c ∷ []) ≡ some c
unfolding find_claim
find_claim-last id [] c e same = ground (arith, eq_iff c.claim_id id)
find_claim-last id (d ∷ rest) c e same = ground (arith, find_claim-last id rest c)

some-inj {ℓ} : {A : Type ℓ} {a b : A} → some a ≡ some b → a ≡ b
some-inj e = cc

passes-inj : {a b : RecipientView} → passes a ≡ passes b → a ≡ b
passes-inj e = cc

ok-inj : {a b : Bytes} → ok a ≡ ok b → a ≡ b
ok-inj e = cc

-- The message for a recipient, an asset, a wallet and a nonce.
abbrev message_for : Service → RecipientView → Asset → String → Bytes → Outcome Bytes
message_for service view a claimant nonce = build_canonical_from_ledger service.crypto (record {
  recipient = view;
  asset = to_asset_view a nonce;
  claimant = claimant;
  nonce = nonce;
  network = service.config.network;
})

module _ (ctx ctx' : Context) (service : Service) (challenge : Bytes) (claim_id : String)
    (input : InitiateInput) (db db' : Db) (again : CompleteInput) (c : Claim) (a a' : Asset)
    (r r' : Recipient) (view view' : RecipientView) (p : ProofInput) (proof : ClaimProof)
    (v : VerifiedProof) (m : Bytes)
    (offered : Offered ctx service challenge claim_id input db a r view m)
    (proven : Proven ctx' service again db' c a' r' view' p proof v)
    (named : c ≡ new_claim ctx service challenge claim_id input a r m)
    (assets : db'.assets ≡ db.assets) (recipients : db'.recipients ≡ db.recipients) where
  same_key : c.asset_key ≡ input.asset_key
  same_key = ap (λ d. d.asset_key) named ∙ find_asset-key input.asset_key db.assets a offered.asset

  same_asset : a' ≡ a
  same_asset = some-inj (
      sym proven.asset
      ∙ ap (λ k. find_asset k db'.assets) same_key
      ∙ ap (find_asset input.asset_key) assets
      ∙ offered.asset)

  same_recipient : r' ≡ r
  same_recipient = some-inj (
      sym proven.row
      ∙ ap (λ b. find_recipient b.recipient_id db'.recipients) same_asset
      ∙ ap (find_recipient a.recipient_id) recipients
      ∙ offered.row)

  same_view : view' ≡ view
  same_view = passes-inj (sym proven.key ∙ ap to_recipient_view same_recipient ∙ offered.key)

  same_claimant : proof.claimant ≡ input.claimant
  unfolding build_proof
  same_claimant =
      protocol-claimant service p c.claimant view'.protocol again.nonce_hex
        (protocol_num p.protocol) proof proven.built
      ∙ ap (λ d. d.claimant) named

  same_message : ((b : Bytes) → length (service.crypto.keccak_256 b) ≡ 32) → v.canonical_message ≡ m
  same_message size =
      let authorized =
        verify_claim-Authorized service.crypto (args_of ctx' service again db' c a' view' proof) v
          size proven.accepted in
      ok-inj (
        sym authorized.0
        ∙ ap (λ w. message_for service w a' proof.claimant (get_or c.challenge_nonce [])) same_view
        ∙ ap (λ b. message_for service view b proof.claimant (get_or c.challenge_nonce []))
            same_asset
        ∙ ap (λ s. message_for service view a s (get_or c.challenge_nonce [])) same_claimant
        ∙ ap (λ d. message_for service view a input.claimant (get_or d.challenge_nonce [])) named
        ∙ offered.built)

module _ (ctx : Context) (service : Service) (challenge : Bytes) (claim_id : String)
    (input : InitiateInput) where
  conflicts-none :
      (key : Option String) (db : Db)
      → conflicts ctx service challenge claim_id input key db ≡ false
      → find_claim claim_id db.claims ≡ none
  conflicts-none none db e = elim (Option-cases (find_claim claim_id db.claims)) [
    | inl missing ↦ missing
    | inr (d, found) ↦ absurd (ground arith)
  ]
  conflicts-none (some key) db e = elim (Option-cases (find_claim claim_id db.claims)) [
    | inl missing ↦ missing
    | inr (d, found) ↦ absurd (ground arith)
  ]

  result_named-hex :
      (c : Claim) (id : String) (expires : ℕ) (o : Checked String) (ir : InitiateResult)
      → result_named ctx service c id challenge expires o ≡ returns ir
      → ir.canonical_message_hex ≡ to_hex c.canonical_message
  result_named-hex c id expires (refuses e) ir same = absurd (ground arith)
  result_named-hex c id expires (passes name) ir same = ground arith

  -- The verifier has accepted a proof by the wallet of the request over the bytes that were offered.
  abbrev pub SignedAsOffered : InitiateResult → Type 0
  SignedAsOffered ir =
      (args : VerifyArgs) × ((v : VerifiedProof) × ((verify_claim service.crypto args ≡ ok v)
          × (v.claimant ≡ input.claimant)
          × (ir.canonical_message_hex ≡ to_hex v.canonical_message)))

  module _ (size : (b : Bytes) → length (service.crypto.keccak_256 b) ≡ 32) (ctx' : Context)
      (again : CompleteInput) (ir : InitiateResult) (q : CompleteResult)
      (keyless : truthy input.idempotency_key ≡ none)
      (by_id : truthy again.claim_id ≡ some claim_id) (first : q.idempotent_replay ≡ false) where
    Found-new_claim :
        (db : Db) (a : Asset) (r : Recipient) (view : RecipientView) (m : Bytes) (c : Claim)
        → Offered ctx service challenge claim_id input db a r view m
        → Found ctx' service again
            (inserted ctx service challenge claim_id input
              (new_claim ctx service challenge claim_id input a r m)
              r
              db)
            c
        → c ≡ new_claim ctx service challenge claim_id input a r m
    Found-new_claim db a r view m c offered found =
        let new = new_claim ctx service challenge claim_id input a r m in
        let last =
          find_claim-last claim_id db.claims new
            (conflicts-none input.idempotency_key db offered.is_new) refl in
        some-inj (
          sym (
            some-inj (
              sym (
                ap
                  (λ t.
                    lookup_claim ctx' service t (truthy again.idempotency_key)
                      (inserted ctx service challenge claim_id input new r db))
                  by_id)
              ∙ found))
          ∙ last)

    Begins-SignedAsOffered :
        (db : Db) (x : Exit InitiateResult)
        → Begins ctx service challenge claim_id input db x
        → (finish db x).1 ≡ returns ir
        → (complete_claim ctx' service again (finish db x).0).1 ≡ returns q
        → SignedAsOffered ir
    Begins-SignedAsOffered db x (fails r bad) offer done = absurd (bad keyless ir offer)
    Begins-SignedAsOffered db x (reuses key c given) offer done = absurd (ground arith)
    Begins-SignedAsOffered db x (issues a r view m offered) offer done =
        let db' = (finish db x).0 in
        elim (complete_claim-Granted ctx' service again db' q size done) [
          | won c a' r' view' p proof v proven authorized id claimant fresh status ↦
              let named = Found-new_claim db a r view m c offered proven.found in
              let same =
                same_message ctx ctx' service challenge claim_id input db db' again c a a' r r' view
                  view' p proof v m offered proven named refl refl size in
              let wallet =
                same_claimant ctx ctx' service challenge claim_id input db db' again c a a' r r'
                  view view' p proof v m offered proven named refl refl in
              (
                args_of ctx' service again db' c a' view' proof,
                (
                  v,
                  (
                    proven.accepted,
                    authorized.3 ∙ wallet,
                    result_named-hex (new_claim ctx service challenge claim_id input a r m) _ _ _ ir
                          offer
                        ∙ ap to_hex (sym same),
                  ),
                ),
              )
          | replayed c p found _ given shown id _ replay same ↦ absurd (cc (replay, first))
        ]

-- The bytes that an initiation without an idempotency key offers are the bytes that the first success of
-- a completion of that claim, on the database it leaves, has verified, and the accepted proof names the
-- wallet of the initiation. Keccak-256 is assumed to give 32 bytes.
pub initiate_claim-SignedAsOffered :
    (ctx ctx' : Context) (service : Service) (challenge : Bytes) (claim_id : String)
    (input : InitiateInput) (again : CompleteInput) (db : Db) (ir : InitiateResult)
    (q : CompleteResult)
    → ((b : Bytes) → length (service.crypto.keccak_256 b) ≡ 32)
    → truthy input.idempotency_key ≡ none
    → truthy again.claim_id ≡ some claim_id
    → (initiate_claim ctx service challenge claim_id input db).1 ≡ returns ir
    → (complete_claim ctx' service again
        (initiate_claim ctx service challenge claim_id input db).0).1
      ≡ returns q
    → q.idempotent_replay ≡ false
    → SignedAsOffered ctx service challenge claim_id input ir
initiate_claim-SignedAsOffered ctx ctx' service challenge claim_id input again db ir q size keyless
      by_id offer done first =
    let (x, (run, begun)) = initiate_claim-Begins ctx service challenge claim_id input db in
    Begins-SignedAsOffered ctx service challenge claim_id input size ctx' again ir q keyless by_id
      first db x begun (ap (λ o. o.1) (sym run) ∙ offer)
      (ap (λ o. (complete_claim ctx' service again o.0).1) (sym run) ∙ done)
