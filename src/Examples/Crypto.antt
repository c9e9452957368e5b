-- ===== src/Examples/Crypto.antt =====
-- Signatures that OpenSSL verifies, with a small instance of it.
use pam_ssh_agent.Common.{
  Bytes, bytes_eq, codes, true, Option, none, ok, err, ◌↔◌, ◌≡◌, refl, signature_error,
}
use pam_ssh_agent.NativeCrypto.{
  OpenSsl, MessageDigest, Signature, rsa_algorithm, ed25519_algorithm, ed25519, rsa, rsa_digest,
  get_key_and_digest, convert_by, convert_signature, verify_with, verify,
}
use pam_ssh_agent.NativeCrypto.Dispatch.{IsKeyFor, IsConverted, verify_iff}

-- A signature is right that is the key behind the message.
abbrev open_ssl : OpenSsl
open_ssl = record {
  PublicKey = Bytes;
  ec_key = λ _ point. ok point;
  raw_ed25519_key = λ raw. ok raw;
  Rsa = Bytes × Bytes;
  from_public_components = λ e n. ok (e, n);
  from_rsa = λ (e, n). ok n;
  to_der = λ _ s. ok s.bytes;
  verify_oneshot = λ k digest s message. ok (bytes_eq s (codes "signed"));
}

abbrev signature : Signature
signature = record { algorithm = ed25519_algorithm; bytes = codes "signed" }

abbrev without_hash : Signature
without_hash = record { algorithm = rsa_algorithm none; bytes = codes "signed" }

verified : verify open_ssl (ed25519 (codes "key")) (codes "challenge") signature ≡ ok tt
unfolding verify verify_with get_key_and_digest convert_signature convert_by bytes_eq
verified = refl

-- SHA-1, and a signature of another kind of key.
old_hash :
    verify open_ssl (rsa (codes "e") (codes "n")) (codes "challenge") without_hash
    ≡ err signature_error
unfolding verify verify_with get_key_and_digest rsa_digest
old_hash = refl

other_kind :
    verify open_ssl (rsa (codes "e") (codes "n")) (codes "challenge") signature
    ≡ err signature_error
unfolding verify verify_with get_key_and_digest rsa_digest
other_kind = refl

verify_iff_example :
    (verify open_ssl (ed25519 (codes "key")) (codes "challenge") signature ≡ ok tt) ↔ (
      (k : Bytes) × (digest : Option MessageDigest) × (converted : Bytes) × IsKeyFor open_ssl
        (ed25519 (codes "key"))
        signature
        k
        digest
      × IsConverted open_ssl signature converted
      × (ok (bytes_eq converted (codes "signed")) ≡ ok true))
verify_iff_example = verify_iff open_ssl (ed25519 (codes "key")) (codes "challenge") signature
