-- ===== src/Examples/NativeSessions.antt =====
-- A session whose signatures an instance of OpenSSL verifies.
use pam_ssh_agent.Common.{
  ℕ, Bytes, bytes_eq, codes, List, [], ◌∷◌, ◌++◌, true, ok, ◌↔◌, ◌≡◌, refl, arith,
}
use pam_ssh_agent.SshKeys.{Identity}
use pam_ssh_agent.NativeCrypto.{
  OpenSsl, KeyData, ed25519, Signature, ed25519_algorithm, get_key_and_digest, convert_by,
  convert_signature, verify_with, verify,
}
use pam_ssh_agent.Auth.{after_epoch, subject_key}
use pam_ssh_agent.Auth.Session.Sound.{Accepted}
use pam_ssh_agent.Auth.Session.Native.{IsNativelySigned, authenticate-native}
use pam_ssh_agent.Examples.Setting.{
  samples, SampleCertificate, SampleSignature, agent_with, numbered,
}
use pam_ssh_agent.Examples.Sessions.{offered, policy, accepted_answer}

-- A signature is the key and the message.
abbrev open_ssl : OpenSsl
open_ssl = record {
  PublicKey = Bytes;
  ec_key = λ _ point. ok point;
  raw_ed25519_key = λ raw. ok raw;
  Rsa = Bytes;
  from_public_components = λ e n. ok n;
  from_rsa = λ n. ok n;
  to_der = λ _ s. ok s.bytes;
  verify_oneshot = λ k _ converted message. ok (bytes_eq (k ++ message) converted);
}

abbrev view_key : ℕ → KeyData
view_key k = ed25519 (k ∷ [])

abbrev view_signature : SampleSignature → Signature
view_signature s = record { algorithm = ed25519_algorithm; bytes = s.signed_by ∷ s.challenge }

native :
    (k : ℕ) (message : Bytes) (s : SampleSignature)
    → (samples.verifies k message s ≡ true)
      ↔ (verify open_ssl (view_key k) message (view_signature s) ≡ ok tt)
unfolding verify verify_with get_key_and_digest convert_signature convert_by bytes_eq
native k message s = (λ h. rw h refl, λ h. ground arith)

authenticate-native_example :
    (identities : List (Identity ℕ SampleCertificate)) × (((agent_with offered).list_identities 7).0
      ≡ ok identities)
    × (a : Accepted samples
        (agent_with offered)
        numbered
        policy
        (after_epoch 5)
        (codes "eve")
        identities
        (7, 0))
    × IsNativelySigned open_ssl
        (view_key (subject_key samples a.identity))
        a.possession.challenge
        (view_signature a.possession.signature)
authenticate-native_example =
    authenticate-native open_ssl samples view_key view_signature native (agent_with offered)
      numbered policy (after_epoch 5) (codes "eve") (7, 0) accepted_answer
