-- ===== src/Examples/Setting.antt =====
-- Small instances of every interface: keys that are numbers, a file system, an agent and a host.
use pam_ssh_agent.Common.{
  ℕ, ◌+◌, Bytes, codes, bytes_eq, List, [], ◌∷◌, true, false, ◌&&◌, Option, none, some, ◌==◌, leb,
  ltb, Result, ok, err, remote_failure, foreign, io, not_found, if◌then◌else◌, ==_iff,
}
use pam_ssh_agent.Environment.{PamHandleExt}
use pam_ssh_agent.Environment.Unix.{User, Host}
use pam_ssh_agent.SshKeys.{SshKeys, Entry, Identity, public_key, certificate}
use pam_ssh_agent.Filter.Paths.{Metadata, FileSystem}
use pam_ssh_agent.Filter.Identities.{Outside}
use pam_ssh_agent.Auth.{Agent, Random}

-- A certificate that is valid before a given second.
pub record SampleCertificate : Type 0 where
  pub authority : ℕ
  pub subject : ℕ
  pub until : ℕ
  pub principals : List Bytes

-- A signature names its algorithm and has the bytes that were signed in front.
pub record SampleSignature : Type 0 where
  pub algorithm_id : ℕ
  pub signed_by : ℕ
  pub challenge : Bytes
  pub encoded : Bytes

-- One byte is one line: `!` is malformed, a capital letter an authority, any other byte a key.
abbrev pub sample_entry : ℕ → Result (Entry ℕ)
sample_entry c =
    if c == b'!'
    then err (foreign 1)
    else if leb b'A' c && leb c b'Z'
    then ok (record { config_opts = codes "cert-authority" ∷ []; key_data = c })
    else ok (record { config_opts = []; key_data = c })

abbrev pub sample_lines : Bytes → List (Result (Entry ℕ))
sample_lines [] = []
sample_lines (c ∷ text) = sample_entry c ∷ sample_lines text

abbrev pub sample_key : Bytes → Result ℕ
sample_key (c ∷ []) = ok c
sample_key _ = err (foreign 2)

abbrev pub sample_validate : SampleCertificate → ℕ → List ℕ → Result (Unit {0})
sample_validate c now (fingerprint ∷ []) =
    if ltb now c.until && (fingerprint == c.authority) then ok tt else err (foreign 3)
sample_validate c now _ = err (foreign 4)

-- `z` is a security key.
abbrev pub samples : SshKeys
samples = record {
  KeyData = ℕ;
  key_eq = λ a b. a == b;
  key_eq_iff = λ a b. ==_iff a b;
  is_sk_ed25519 = λ k. k == b'z';
  is_sk_ecdsa_p256 = λ _. false;
  authorized_keys = sample_lines;
  from_openssh = sample_key;
  Algorithm = ℕ;
  algorithm_eq = λ a b. a == b;
  algorithm_eq_iff = λ a b. ==_iff a b;
  sk_ed25519 = 1;
  sk_ecdsa_sha2_nist_p256 = 2;
  Signature = SampleSignature;
  algorithm = λ s. s.algorithm_id;
  as_bytes = λ s. s.encoded;
  verifies = λ k m s. (k == s.signed_by) && bytes_eq m s.challenge;
  Fingerprint = ℕ;
  fingerprint = λ k. k;
  Certificate = SampleCertificate;
  signature_key = λ c. c.authority;
  certified_key = λ c. c.subject;
  validate_at = sample_validate;
  is_user = λ _. true;
  valid_principals = λ c. c.principals;
  critical_options = λ _. [];
}

-- The signature that the holder of a key makes.
abbrev pub sign_with : ℕ → ℕ → Bytes → SampleSignature
sign_with algorithm k challenge = record {
  algorithm_id = algorithm;
  signed_by = k;
  challenge = challenge;
  encoded = k ∷ 5 ∷ 0 ∷ 0 ∷ 0 ∷ 9 ∷ [];
}

abbrev pub sample_sign : Identity ℕ SampleCertificate → Bytes → Result SampleSignature
sample_sign (public_key k) challenge =
    if k == b'r'
    then err remote_failure
    else if k == b'w'
    then ok (sign_with 1 (k + 1) challenge)
    else ok (sign_with 1 k challenge)
sample_sign (certificate c) challenge = ok (sign_with 1 c.subject challenge)

-- An agent counts its signatures. It refuses for the key `r`, and signs wrongly for the key `w`.
abbrev pub agent_with : List (Identity ℕ SampleCertificate) → Agent samples
agent_with identities = record {
  State = ℕ;
  list_identities = λ n. (ok identities, n);
  sign = λ n identity challenge. (sample_sign identity challenge, n + 1);
}

-- The challenges are numbered.
abbrev pub numbered : Random samples
numbered = record { Source = ℕ; fill = λ n size. (some (n ∷ size ∷ []), n + 1) }

abbrev pub by_root : Metadata
by_root = record { dev = 1; ino = 2; uid = 0; mode = 493; is_symlink = false; is_file = true }

-- All files belong to root; all have the same contents.
abbrev pub files_with : Bytes → FileSystem
files_with contents = record {
  read = λ path. if bytes_eq path (codes "/none") then err (io not_found) else ok contents;
  metadata = λ _. ok by_root;
  symlink_metadata = λ _. ok by_root;
  canonicalize = λ path. ok path;
  open_file = λ _.
      ok
        (record { metadata = ok by_root; reader = record { contents = contents; ending = ok tt } });
}

-- Two accounts, and the variables of a call.
abbrev pub sample_user : Bytes → Option User
sample_user name =
    if bytes_eq name (codes "eve")
    then some (record { name = codes "eve"; uid = 1000; home_dir = codes "/home/eve" })
    else if bytes_eq name (codes "root")
    then some (record { name = codes "root"; uid = 0; home_dir = codes "/root" })
    else none

abbrev pub sample_variable : Bytes → Option Bytes
sample_variable name =
    if bytes_eq name (codes "SSH_AUTH_SOCK")
    then some (codes "/run/agent")
    else if bytes_eq name (codes "SSH_AUTH_INFO_0")
    then some (codes "a")
    else none

abbrev pub sample_host : Host
sample_host = record {
  get_user_by_name = sample_user;
  hostname = some (codes "web.example");
  env_var = sample_variable;
  replace_invalid = λ _. [];
}

abbrev pub handle_for : Bytes → Bytes → PamHandleExt
handle_for user service = record { get_calling_user = ok user; get_service = ok service }

abbrev pub sample_outside : Outside
sample_outside = record {
  fs = files_with (codes "aB");
  get_uid = λ _. ok 1000;
  run = λ _ _ _ _. ok (codes "c");
}
