-- ===== src/Service/Begun.antt =====
-- How initiateClaim of packages/claims/src/api/service.ts ends.
use ar_io_solana_attestor.Prelude.{
  ◌+◌, ◌≡◌, ◌≢◌, refl, sym, ap, ◌∙◌, String, Option, none, some, false, not, str_eq,
}
use ar_io_solana_attestor.Audit.{Bytes, Context}
use ar_io_solana_attestor.Store.{AssetStatus, Claim, Asset, Recipient, Db, find_asset}
use ar_io_solana_attestor.Verify.{Outcome, ok, rejected, RecipientView}
use ar_io_solana_attestor.Verify.Canonical.{build_canonical_from_ledger}
use ar_io_solana_attestor.Service.{
  api_error, is_claimant, truthy, returns, throws, Checked, passes, refuses, Response, Exit, commit,
  rollback, finish, Service, is_delisted, protocol_name, to_asset_view, to_recipient_view,
  find_by_idempotency_key, find_recipient,
}
use ar_io_solana_attestor.Service.Initiate.{
  InitiateInput, InitiateResult, initiate_claim, on_conflict, new_claim, inserted, conflicts,
  insert, with_view, with_recipient, by_status, with_asset, reuse, by_key, result_named,
  initiate_result_from_row,
}
use ar_io_solana_attestor.Service.Outcomes.{if-split}

module _ (ctx : Context) (service : Service) (challenge : Bytes) (claim_id : String)
    (input : InitiateInput) (db : Db) where
  -- What a new challenge rests on.
  pub record Offered (a : Asset) (r : Recipient) (view : RecipientView) (m : Bytes) : Type 0 where
    pub asset : find_asset input.asset_key db.assets ≡ some a
    pub is_listed : is_delisted service input.asset_key ≡ false
    pub is_available : a.status ≡ AssetStatus.available
    pub row : find_recipient a.recipient_id db.recipients ≡ some r
    pub key : to_recipient_view r ≡ passes view
    pub built :
        build_canonical_from_ledger service.crypto (record {
          recipient = view;
          asset = to_asset_view a challenge;
          claimant = input.claimant;
          nonce = challenge;
          network = service.config.network;
        })
        ≡ ok m
    pub is_new : conflicts ctx service challenge claim_id input input.idempotency_key db ≡ false

  pub data Begins : Exit InitiateResult → Type 0 where
    fails :
        (r : Response InitiateResult)
        → (truthy input.idempotency_key ≡ none → (i : InitiateResult) → r ≢ returns i)
        → Begins (rollback r)
    reuses :
        (key : String) (c : Claim)
        → truthy input.idempotency_key ≡ some key
        → Begins (commit db (initiate_result_from_row ctx service c))
    issues :
        (a : Asset) (r : Recipient) (view : RecipientView) (m : Bytes)
        → Offered a r view m
        → Begins (
            commit
              (inserted ctx service challenge claim_id input
                (new_claim ctx service challenge claim_id input a r m)
                r
                db)
              (result_named ctx service
                (new_claim ctx service challenge claim_id input a r m)
                r.recipient_id
                challenge
                (ctx.now + service.config.challenge_ttl_ms)
                (protocol_name r.protocol)))

  insert_begins :
      (a : Asset) (r : Recipient) (view : RecipientView) (o : Outcome Bytes)
      → find_asset input.asset_key db.assets ≡ some a
      → is_delisted service input.asset_key ≡ false
      → a.status ≡ AssetStatus.available
      → find_recipient a.recipient_id db.recipients ≡ some r
      → to_recipient_view r ≡ passes view
      → build_canonical_from_ledger service.crypto (record {
        recipient = view;
        asset = to_asset_view a challenge;
        claimant = input.claimant;
        nonce = challenge;
        network = service.config.network;
      })
        ≡ o
      → Begins (insert ctx service challenge claim_id input a r db o)
  insert_begins a r view (rejected e) asset listed available row key built = fails _ (λ n i e. cc)
  insert_begins a r view Outcome.fault asset listed available row key built = fails _ (λ n i e. cc)
  insert_begins a r view (ok m) asset listed available row key built =
      if-split Begins (conflicts ctx service challenge claim_id input input.idempotency_key db)
        (λ taken. fails _ (λ n i e.
          cc (ap (λ k. on_conflict ctx service challenge claim_id input k db) (sym n) ∙ e)))
        (λ free. issues a r view m (record {
          asset = asset;
          is_listed = listed;
          is_available = available;
          row = row;
          key = key;
          built = built;
          is_new = free;
        }))

  view_begins :
      (a : Asset) (r : Recipient) (o : Checked RecipientView)
      → find_asset input.asset_key db.assets ≡ some a
      → is_delisted service input.asset_key ≡ false
      → a.status ≡ AssetStatus.available
      → find_recipient a.recipient_id db.recipients ≡ some r
      → to_recipient_view r ≡ o
      → Begins (with_view ctx service challenge claim_id input a r db o)
  view_begins a r (refuses e) asset listed available row key = fails _ (λ n i e. cc)
  view_begins a r (passes view) asset listed available row key =
      insert_begins a r view _ asset listed available row key refl

  recipient_begins :
      (a : Asset) (o : Option Recipient)
      → find_asset input.asset_key db.assets ≡ some a
      → is_delisted service input.asset_key ≡ false
      → a.status ≡ AssetStatus.available
      → find_recipient a.recipient_id db.recipients ≡ o
      → Begins (with_recipient ctx service challenge claim_id input a db o)
  recipient_begins a none asset listed available row = fails _ (λ n i e. cc)
  recipient_begins a (some r) asset listed available row =
      view_begins a r _ asset listed available row refl

  status_begins :
      (a : Asset) (status : AssetStatus)
      → find_asset input.asset_key db.assets ≡ some a
      → is_delisted service input.asset_key ≡ false
      → a.status ≡ status
      → Begins (by_status ctx service challenge claim_id input a db status)
  status_begins a AssetStatus.available asset listed e = recipient_begins a _ asset listed e refl
  status_begins a AssetStatus.claiming asset listed e = fails _ (λ n i e. cc)
  status_begins a AssetStatus.manual_review asset listed e = fails _ (λ n i e. cc)
  status_begins a AssetStatus.pending_review asset listed e = fails _ (λ n i e. cc)
  status_begins a AssetStatus.claimed asset listed e = fails _ (λ n i e. cc)
  status_begins a AssetStatus.cancelled asset listed e = fails _ (λ n i e. cc)
  status_begins a AssetStatus.frozen asset listed e = fails _ (λ n i e. cc)

  asset_begins :
      (o : Option Asset)
      → find_asset input.asset_key db.assets ≡ o
      → Begins (with_asset ctx service challenge claim_id input db o)
  asset_begins none asset = fails _ (λ n i e. cc)
  asset_begins (some a) asset =
      if-split Begins (is_delisted service input.asset_key) (λ hidden. fails _ (λ n i e. cc))
        (λ listed. status_begins a a.status asset listed refl)

  reuse_begins :
      (key : String) (o : Option Claim)
      → truthy input.idempotency_key ≡ some key
      → Begins (reuse ctx service challenge claim_id input db o)
  reuse_begins key none given = asset_begins _ refl
  reuse_begins key (some c) given =
      if-split Begins (not (str_eq c.asset_key input.asset_key)) (λ other. fails _ (λ n i e. cc))
        (λ same. reuses key c given)

  key_begins :
      (key : Option String)
      → truthy input.idempotency_key ≡ key
      → Begins (by_key ctx service challenge claim_id input db key)
  key_begins none given = asset_begins _ refl
  key_begins (some key) given = reuse_begins key (find_by_idempotency_key key db.claims) given

  pub Begins-assets : (x : Exit InitiateResult) → Begins x → (finish db x).0.assets ≡ db.assets
  Begins-assets x (fails r bad) = refl
  Begins-assets x (reuses key c given) = refl
  Begins-assets x (issues a r view m offered) = refl

  abbrev Run : Db × Response InitiateResult → Type 0
  Run o = (x : Exit InitiateResult) × ((o ≡ finish db x) × Begins x)

  -- Every run of initiateClaim is one of these.
  pub initiate_claim-Begins : Run (initiate_claim ctx service challenge claim_id input db)
  unfolding initiate_claim
  initiate_claim-Begins =
      if-split Run (not (is_claimant input.claimant))
        (λ bad. (
          rollback
              (throws (api_error 400 "INVALID_REQUEST" "claimant must be a base58 Solana address")),
          (refl, fails _ (λ n i e. cc)),
        ))
        (λ good.
          if-split Run (str_eq input.asset_key "")
            (λ bad. (
              rollback (throws (api_error 400 "INVALID_REQUEST" "assetKey required")),
              (refl, fails _ (λ n i e. cc)),
            ))
            (λ good. (_, (refl, key_begins (truthy input.idempotency_key) refl))))
