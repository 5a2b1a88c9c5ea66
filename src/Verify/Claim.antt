-- ===== src/Verify/Claim.antt =====
-- packages/claims/src/verify/index.ts: verifyClaim, by the recipient's frozen protocol.
use ar_io_solana_attestor.Prelude.{◌==◌, if◌then◌else◌}
use ar_io_solana_attestor.Audit.Canonical.{decimal, ◌+s◌}
use ar_io_solana_attestor.Verify.{
  Crypto, Outcome, fail_with, protocol_mismatch, VerifiedProof, VerifyArgs, protocol_arweave,
  protocol_ethereum,
}
use ar_io_solana_attestor.Verify.Arweave.{verify_arweave_proof}
use ar_io_solana_attestor.Verify.Ethereum.{verify_ethereum_proof}

unfoldable pub verify_claim : Crypto → VerifyArgs → Outcome VerifiedProof
verify_claim crypto args =
    if args.recipient.protocol == protocol_arweave
    then verify_arweave_proof crypto args
    else if args.recipient.protocol == protocol_ethereum
    then verify_ethereum_proof crypto args
    else fail_with protocol_mismatch
        ("unknown recipient protocol " +s decimal args.recipient.protocol)
