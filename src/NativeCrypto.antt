-- ===== src/NativeCrypto.antt =====
-- src/nativecrypto.rs: the verification of signatures by OpenSSL. The data types of ssh-key that the
-- code matches on are here with their variants; OpenSSL itself and the conversion to DER are
-- parameters.
pub mod Dispatch
use pam_ssh_agent.Common.{
  ℕ, Bytes, Bool, true, false, Option, none, some, if◌then◌else◌, Result, ok, err, Error,
  signature_error, bail, ◌>>=◌, no_rsa_hash, unsupported_rsa_hash, foreign_rsa_signature,
  unsupported_key, unsupported_signature,
}

-- `EcdsaCurve`, and the variants of `EcdsaPublicKey`.
pub data EcdsaCurve : Type 0 where
  nist_p256 nist_p384 nist_p521 : EcdsaCurve

-- `HashAlg`: the enumeration may have further members.
pub data HashAlg : Type 0 where
  sha256 sha512 : HashAlg
  further_hash : ℕ → HashAlg

-- `Algorithm`, as far as the code tells the cases apart.
pub data Algorithm : Type 0 where
  ecdsa_algorithm : EcdsaCurve → Algorithm
  ed25519_algorithm : Algorithm
  rsa_algorithm : Option HashAlg → Algorithm
  other_algorithm : ℕ → Algorithm

-- `KeyData`, likewise: the bytes of a point, of an Ed25519 key, the exponent and the modulus.
pub data KeyData : Type 0 where
  ecdsa : EcdsaCurve → Bytes → KeyData
  ed25519 : Bytes → KeyData
  rsa : Bytes → Bytes → KeyData
  other_key : ℕ → KeyData

pub record Signature : Type 0 where
  pub algorithm : Algorithm
  pub bytes : Bytes

pub data Nid : Type 0 where
  x9_62_prime256v1 secp384r1 secp521r1 : Nid

pub data MessageDigest : Type 0 where
  digest_sha256 digest_sha384 digest_sha512 : MessageDigest

-- OpenSSL, and the signature types of the crates p256, p384 and p521.
pub record OpenSsl : Type 1 where
  pub PublicKey : Type 0
  -- from a curve and a point: the group, the point on it, and the check of the key
  pub ec_key : Nid → Bytes → Result PublicKey
  pub raw_ed25519_key : Bytes → Result PublicKey
  -- from an exponent and a modulus, and the key of these
  pub Rsa : Type 0
  pub from_public_components : Bytes → Bytes → Result Rsa
  pub from_rsa : Rsa → Result PublicKey
  -- `try_from` and `to_der`
  pub to_der : EcdsaCurve → Signature → Result Bytes
  -- a verifier for a digest, or without one, and its `verify_oneshot` of a signature and a message
  pub verify_oneshot : PublicKey → Option MessageDigest → Bytes → Bytes → Result Bool

pub curve_name : EcdsaCurve → Nid × MessageDigest
curve_name nist_p256 = (x9_62_prime256v1, digest_sha256)
curve_name nist_p384 = (secp384r1, digest_sha384)
curve_name nist_p521 = (secp521r1, digest_sha512)

-- The digest of an RSA signature is named by the signature.
unfoldable pub rsa_digest : Algorithm → Result MessageDigest
rsa_digest (rsa_algorithm none) = bail no_rsa_hash
rsa_digest (rsa_algorithm (some sha256)) = ok digest_sha256
rsa_digest (rsa_algorithm (some sha512)) = ok digest_sha512
rsa_digest (rsa_algorithm (some _)) = bail unsupported_rsa_hash
rsa_digest _ = bail foreign_rsa_signature

module _ (O : OpenSsl) where
  open O use {
    PublicKey, ec_key, raw_ed25519_key, from_public_components, from_rsa, to_der, verify_oneshot,
  }

  unfoldable pub get_key_and_digest :
      KeyData → Signature → Result (PublicKey × Option MessageDigest)
  get_key_and_digest (ecdsa curve point) signature = do
    let (group, digest) = curve_name curve
    key ← ec_key group point
    ok (key, some digest)
  get_key_and_digest (ed25519 raw) signature = do key ← raw_ed25519_key raw; ok (key, none)
  get_key_and_digest (rsa e n) signature = do
    components ← from_public_components e n
    digest ← rsa_digest signature.algorithm
    key ← from_rsa components
    ok (key, some digest)
  get_key_and_digest (other_key _) signature = bail unsupported_key

  unfoldable pub convert_by : Algorithm → Signature → Result Bytes
  convert_by (ecdsa_algorithm curve) signature = to_der curve signature
  convert_by ed25519_algorithm signature = ok signature.bytes
  convert_by (rsa_algorithm _) signature = ok signature.bytes
  convert_by (other_algorithm _) signature = bail unsupported_signature

  unfoldable pub convert_signature : Signature → Result Bytes
  convert_signature signature = convert_by signature.algorithm signature

  -- The verification, with the errors as they come.
  unfoldable pub verify_with : KeyData → Bytes → Signature → Result Bool
  verify_with key_data message signature = do
    (key, digest) ← get_key_and_digest key_data signature
    converted ← convert_signature signature
    verify_oneshot key digest converted message

  -- `PublicKeyVerifier::verify`: every error is one of the crate signature.
  unfoldable pub verify : KeyData → Bytes → Signature → Result (Unit {0})
  verify key_data message signature = elim (verify_with key_data message signature) [
    | ok valid ↦ if valid then ok tt else err signature_error
    | err _ ↦ err signature_error
  ]
