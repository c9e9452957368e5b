-- ===== src/SshKeys.antt =====
-- What the program uses of the crates ssh-key, signature and ssh-agent-client-rs: an interface.
use pam_ssh_agent.Common.{ℕ, Bytes, List, Bool, true, Result, ◌≡◌, ◌↔◌}

-- A line of an authorized_keys file.
pub record Entry (K : Type 0) : Type 0 where
  pub config_opts : List Bytes
  pub key_data : K

-- An identity that the agent offers.
pub data Identity (K Cert : Type 0) : Type 0 where
  public_key : K → Identity K Cert
  certificate : Cert → Identity K Cert

pub record SshKeys : Type 1 where
  pub KeyData : Type 0
  -- `==` of `KeyData`, by which a `HashSet` compares.
  pub key_eq : KeyData → KeyData → Bool
  pub key_eq_iff : (a b : KeyData) → (key_eq a b ≡ true) ↔ (a ≡ b)
  pub is_sk_ed25519 : KeyData → Bool
  pub is_sk_ecdsa_p256 : KeyData → Bool
  -- the items of `AuthorizedKeys::new`
  pub authorized_keys : Bytes → List (Result (Entry KeyData))
  -- `PublicKey::from_openssh`
  pub from_openssh : Bytes → Result KeyData
  pub Algorithm : Type 0
  pub algorithm_eq : Algorithm → Algorithm → Bool
  pub algorithm_eq_iff : (a b : Algorithm) → (algorithm_eq a b ≡ true) ↔ (a ≡ b)
  pub sk_ed25519 : Algorithm
  pub sk_ecdsa_sha2_nist_p256 : Algorithm
  pub Signature : Type 0
  pub algorithm : Signature → Algorithm
  pub as_bytes : Signature → Bytes
  -- whether `Verifier::verify` of `KeyData` accepts a message and its signature
  pub verifies : KeyData → Bytes → Signature → Bool
  pub Fingerprint : Type 0
  pub fingerprint : KeyData → Fingerprint
  pub Certificate : Type 0
  pub signature_key : Certificate → KeyData
  pub certified_key : Certificate → KeyData
  -- `validate_at`: the seconds since the epoch, and the fingerprints of the trusted authorities
  pub validate_at : Certificate → ℕ → List Fingerprint → Result (Unit {0})
  pub is_user : Certificate → Bool
  pub valid_principals : Certificate → List Bytes
  pub critical_options : Certificate → List (Bytes × Bytes)
