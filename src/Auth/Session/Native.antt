-- ===== src/Auth/Session/Native.antt =====
-- `authenticate` with the feature `native-crypto`, where src/verify.rs uses src/nativecrypto.rs.
use pam_ssh_agent.Common.{ℕ, Bytes, List, true, Option, ok, ◌≡◌, ◌≢◌, ◌↔◌}
use pam_ssh_agent.SshKeys.{SshKeys, Identity}
use pam_ssh_agent.Filter.Identities.{IdentityFilter}
use pam_ssh_agent.NativeCrypto.{OpenSsl, KeyData, Signature, MessageDigest, other_key, verify}
use pam_ssh_agent.NativeCrypto.Dispatch.{
  IsKeyFor, curve_key, raw_key, modulus_key, IsConverted, verify_iff,
}
use pam_ssh_agent.Auth.{SystemTime, Agent, Random, World, subject_key, authenticate}
use pam_ssh_agent.Auth.Eligible.{IsVerified-iff}
use pam_ssh_agent.Auth.Session.Sound.{Accepted, authenticate_sound}

module _ (O : OpenSsl) where
  open O use {PublicKey, verify_oneshot}

  -- What OpenSSL has verified: a key of a supported kind, and a signature of the message by it.
  pub record IsNativelySigned (key : KeyData) (message : Bytes) (signature : Signature)
      : Type 0 where
    pub supported : (n : ℕ) → key ≢ other_key n
    pub public_key : PublicKey
    pub digest : Option MessageDigest
    pub converted : Bytes
    pub made : IsKeyFor O key signature public_key digest
    pub bytes : IsConverted O signature converted
    pub right : verify_oneshot public_key digest converted message ≡ ok true

  IsKeyFor-supported :
      {key : KeyData} {signature : Signature} {k : PublicKey} {digest : Option MessageDigest}
      → IsKeyFor O key signature k digest
      → (n : ℕ) → key ≢ other_key n
  IsKeyFor-supported (curve_key _ _) n h = cc
  IsKeyFor-supported (raw_key _) n h = cc
  IsKeyFor-supported (modulus_key _ _ _) n h = cc

  verify-IsNativelySigned :
      (key : KeyData) (message : Bytes) (signature : Signature)
      → verify O key message signature ≡ ok tt
      → IsNativelySigned key message signature
  verify-IsNativelySigned key message signature h =
      let (k, digest, converted, made, bytes, right) = (verify_iff O key message signature).0 h in
      record {
        supported = IsKeyFor-supported made;
        public_key = k;
        digest = digest;
        converted = converted;
        made = made;
        bytes = bytes;
        right = right;
      }

  module _ (C : SshKeys) (view_key : C.KeyData → KeyData) (view_signature : C.Signature → Signature)
      (native : (k : C.KeyData) (message : Bytes) (s : C.Signature)
        → (C.verifies k message s ≡ true)
          ↔ (verify O (view_key k) message (view_signature s) ≡ ok tt))
      (A : Agent C) (R : Random C) where
    open C use {Certificate}

    -- If signatures are verified as src/nativecrypto.rs verifies them and `authenticate` returns
    -- true, then the agent has listed an identity that is accepted for the user, its key is an ECDSA,
    -- an Ed25519 or an RSA key, and no security key, and OpenSSL has found the
    -- signature of the challenge that was drawn for it right.
    pub authenticate-native :
        (f : IdentityFilter C.KeyData) (now : SystemTime) (principal : Bytes) (w : World C A R)
        → (authenticate C A R f now principal w).0 ≡ ok true
        → (identities : List (Identity C.KeyData Certificate)) × ((A.list_identities w.0).0
            ≡ ok identities)
          × (a : Accepted C A R f now principal identities ((A.list_identities w.0).1, w.1))
          × IsNativelySigned
              (view_key (subject_key C a.identity))
              a.possession.challenge
              (view_signature a.possession.signature)
    authenticate-native f now principal w h =
        let (identities, listed, a) = authenticate_sound C A R f now principal w h in
        let p = a.possession in
        (
          identities,
          listed,
          a,
          verify-IsNativelySigned (view_key (subject_key C a.identity)) p.challenge
              (view_signature p.signature)
              ((native (subject_key C a.identity) p.challenge p.signature).0
                ((IsVerified-iff C a.identity p.challenge p.signature).1 p.verified)),
        )
