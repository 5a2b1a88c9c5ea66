-- ===== src/Verify/Binding.antt =====
-- What a canonical message fixes: packages/canonical/src/canonical.ts and
-- packages/claims/src/verify/canonical-message.ts.
use ar_io_solana_attestor.Prelude.{
  ◌≡◌, ◌≢◌, refl, [], ◌∷◌, ◌++◌, Bool, true, arith, All, All-append, ◌==◌, not, ◌&&◌,
}
use ar_io_solana_attestor.Audit.{Bytes}
use ar_io_solana_attestor.Merkle.Hex.{IsBytes, to_hex}
use ar_io_solana_attestor.Store.{AssetType, ant, token, vault}
use ar_io_solana_attestor.Verify.{Crypto, units}
use ar_io_solana_attestor.Verify.Canonical.{
  digits, join_lines, type_text, AntClaim, EscrowClaim, derive_recipient_id_b64url, ant_lines,
  escrow_lines,
}
use ar_io_solana_attestor.Verify.Canonical.Lines.{
  IsLine, append-cancel_left, to_hex-IsLine, to_hex-inj, digits-inj, digits-IsLine,
}

-- What the code relies on of base58 and base64url: they write no line break, and two inputs never
-- have one text.
pub record IsTextEncoding (encode : Bytes → Bytes) : Type 0 where
  pub line : (b : Bytes) → IsLine (encode b)
  pub inj : (a b : Bytes) → encode a ≡ encode b → a ≡ b

is_line : Bytes → Bool
is_line [] = true
is_line (x ∷ rest) = not (x == 10) && is_line rest

is_line-IsLine : (b : Bytes) → is_line b ≡ true → IsLine b
unfolding is_line
is_line-IsLine [] e = tt
is_line-IsLine (x ∷ rest) e = ground (arith, is_line-IsLine rest)

labelled : (p t : Bytes) → is_line p ≡ true → IsLine t → IsLine (p ++ t)
labelled p t hp ht = All-append (λ x. x ≢ 10) p t (is_line-IsLine p hp) ht

type_text-inj : (s t : AssetType) → units (type_text s) ≡ units (type_text t) → s ≡ t
unfolding units
type_text-inj ant ant e = refl
type_text-inj token token e = refl
type_text-inj vault vault e = refl
type_text-inj ant token e = absurd (ground arith)
type_text-inj ant vault e = absurd (ground arith)
type_text-inj token ant e = absurd (ground arith)
type_text-inj token vault e = absurd (ground arith)
type_text-inj vault ant e = absurd (ground arith)
type_text-inj vault token e = absurd (ground arith)

module _ (crypto : Crypto) (base58 : IsTextEncoding crypto.base58_encode)
    (base64 : IsTextEncoding crypto.base64url) where
  type_text-IsLine : (t : AssetType) → IsLine (units (type_text t))
  unfolding units is_line
  type_text-IsLine ant = is_line-IsLine (units "ant") refl
  type_text-IsLine token = is_line-IsLine (units "token") refl
  type_text-IsLine vault = is_line-IsLine (units "vault") refl

  pub escrow_lines-IsLine :
      (c : EscrowClaim) → IsLine c.network → All IsLine (escrow_lines crypto c)
  unfolding units is_line
  escrow_lines-IsLine c network = (
    is_line-IsLine (units "ar.io escrow claim") refl,
    (
      labelled (units "network: ") c.network refl network,
      (
        labelled (units "recipient: ") (derive_recipient_id_b64url crypto c.recipient_pubkey) refl
            (base64.line (crypto.sha256 c.recipient_pubkey)),
        (
          labelled (units "type: ") (units (type_text c.asset_type)) refl
              (type_text-IsLine c.asset_type),
          (
            labelled (units "asset: ") (to_hex c.asset_id) refl (to_hex-IsLine c.asset_id),
            (
              labelled (units "amount: ") (digits c.amount) refl (digits-IsLine c.amount),
              (
                labelled (units "claimant: ") (crypto.base58_encode c.claimant) refl
                    (base58.line c.claimant),
                (labelled (units "nonce: ") (to_hex c.nonce) refl (to_hex-IsLine c.nonce), tt),
              ),
            ),
          ),
        ),
      ),
    ),
  )

  pub ant_lines-IsLine : (c : AntClaim) → IsLine c.network → All IsLine (ant_lines crypto c)
  unfolding units is_line
  ant_lines-IsLine c network = (
    is_line-IsLine (units "ar.io ant-escrow claim") refl,
    (
      labelled (units "network: ") c.network refl network,
      (
        labelled (units "recipient: ") (derive_recipient_id_b64url crypto c.recipient_pubkey) refl
            (base64.line (crypto.sha256 c.recipient_pubkey)),
        (
          labelled (units "ant: ") (crypto.base58_encode c.ant_mint) refl (base58.line c.ant_mint),
          (
            labelled (units "claimant: ") (crypto.base58_encode c.claimant) refl
                (base58.line c.claimant),
            (labelled (units "nonce: ") (to_hex c.nonce) refl (to_hex-IsLine c.nonce), tt),
          ),
        ),
      ),
    ),
  )

  pub escrow_lines-inj :
      (c d : EscrowClaim)
      → IsBytes c.asset_id
      → IsBytes d.asset_id
      → IsBytes c.nonce
      → IsBytes d.nonce
      → escrow_lines crypto c ≡ escrow_lines crypto d
      → (crypto.sha256 c.recipient_pubkey ≡ crypto.sha256 d.recipient_pubkey)
        × (c.asset_type ≡ d.asset_type)
        × (c.asset_id ≡ d.asset_id)
        × (c.amount ≡ d.amount)
        × (c.claimant ≡ d.claimant)
        × (c.nonce ≡ d.nonce)
  unfolding units
  escrow_lines-inj c d ci di cn dn e = (
    base64.inj _ _ (append-cancel_left (units "recipient: ") _ _ (ground arith)),
    type_text-inj _ _ (append-cancel_left (units "type: ") _ _ (ground arith)),
    to_hex-inj _ _ ci di (append-cancel_left (units "asset: ") _ _ (ground arith)),
    digits-inj _ _ (append-cancel_left (units "amount: ") _ _ (ground arith)),
    base58.inj _ _ (append-cancel_left (units "claimant: ") _ _ (ground arith)),
    to_hex-inj _ _ cn dn (append-cancel_left (units "nonce: ") _ _ (ground arith)),
  )

  pub ant_lines-inj :
      (c d : AntClaim)
      → IsBytes c.nonce
      → IsBytes d.nonce
      → ant_lines crypto c ≡ ant_lines crypto d
      → (crypto.sha256 c.recipient_pubkey ≡ crypto.sha256 d.recipient_pubkey)
        × (c.ant_mint ≡ d.ant_mint)
        × (c.claimant ≡ d.claimant)
        × (c.nonce ≡ d.nonce)
  unfolding units
  ant_lines-inj c d cn dn e = (
    base64.inj _ _ (append-cancel_left (units "recipient: ") _ _ (ground arith)),
    base58.inj _ _ (append-cancel_left (units "ant: ") _ _ (ground arith)),
    base58.inj _ _ (append-cancel_left (units "claimant: ") _ _ (ground arith)),
    to_hex-inj _ _ cn dn (append-cancel_left (units "nonce: ") _ _ (ground arith)),
  )

  pub headers_differ :
      (c : EscrowClaim) (d : AntClaim)
      → join_lines (escrow_lines crypto c) ≢ join_lines (ant_lines crypto d)
  unfolding units join_lines
  headers_differ c d e = ground arith
