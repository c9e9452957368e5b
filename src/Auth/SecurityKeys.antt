-- ===== src/Auth/SecurityKeys.antt =====
-- `validate_sk_signature`: exactly which signatures of security keys strict mode accepts.
use Prim.Native.Nat.{bit_and}
use pam_ssh_agent.Common.{
  Option, Result, true, some, Bool-cases, ℕ, zero, suc, ◌+◌, ◌-◌, ◌≤◌, ◌<◌, Bytes, List, [], ◌∷◌,
  ◌++◌, false, ◌||◌, none, some, ◌==◌, length, length-append, get_or, bit, bit_and-1, bit_and-4, ok,
  ◌≡◌, ◌↔◌, ◌⊎◌, inl, inr, refl, ap, ap₂, ◌∙◌, arith, Option-cases,
}
use pam_ssh_agent.SshKeys.{SshKeys, Identity, public_key, certificate}
use pam_ssh_agent.Auth.{subject_key, expected_algorithm, check_sk_signature, validate_sk_signature}

get_or-split {ℓ} :
    {A : Type ℓ} (xs : List A) (i : ℕ) (d : A)
    → i < length xs
    → (pre post : List A) × (xs ≡ pre ++ get_or xs i d ∷ post) × (length pre ≡ i)
get_or-split [] i d h = absurd (omega arith)
get_or-split (x ∷ xs) zero d h = ([], xs, refl, refl)
get_or-split (x ∷ xs) (suc i) d h =
    let (pre, post, e, n) = get_or-split xs i d (omega arith) in
    (x ∷ pre, post, ap (λ ys. x ∷ ys) e, ap suc n)

get_or-append {ℓ} :
    {A : Type ℓ} (pre post : List A) (x d : A) → get_or (pre ++ x ∷ post) (length pre) d ≡ x
get_or-append [] post x d = refl
get_or-append (y ∷ pre) post x d = get_or-append pre post x d

-- The test of the two flags.
flags_iff :
    (flags : ℕ)
    → ((bit_and flags 0x01 == 0 || bit_and flags 0x04 == 0) ≡ false)
      ↔ ((bit 0 flags ≡ 1) × (bit 2 flags ≡ 1))
flags_iff flags = ground (arith, bit_and-1 flags, bit_and-4 flags)

module _ (C : SshKeys) where
  -- The shape that a security key gives its signatures: of the key's own algorithm, with a byte
  -- of flags before the four bytes of the counter, in which presence and verification are set.
  pub record IsPresent (expected : C.Algorithm) (signature : C.Signature) : Type 0 where
    pub own : C.algorithm signature ≡ expected
    pub body : Bytes
    pub flags : ℕ
    pub counter : Bytes
    pub layout : C.as_bytes signature ≡ body ++ flags ∷ counter
    pub four : length counter ≡ 4
    pub user_present : bit 0 flags ≡ 1
    pub user_verified : bit 2 flags ≡ 1

  check-IsPresent :
      (expected : C.Algorithm) (signature : C.Signature)
      → check_sk_signature C expected signature ≡ ok tt
      → IsPresent expected signature
  unfolding check_sk_signature
  check-IsPresent expected signature h =
      let bytes = C.as_bytes signature in
      let long : 5 ≤ length bytes = ground arith in
      let (body, counter, layout, n) = get_or-split bytes (length bytes - 5) 0 (omega arith) in
      let flags = get_or bytes (length bytes - 5) 0 in
      let set : (bit_and flags 0x01 == 0 || bit_and flags 0x04 == 0) ≡ false = ground arith in
      record {
        own = (C.algorithm_eq_iff (C.algorithm signature) expected).0 (ground arith);
        body = body;
        flags = flags;
        counter = counter;
        layout = layout;
        four = omega (arith, ap length layout, length-append {0} body (flags ∷ counter));
        user_present = ((flags_iff flags).0 set).0;
        user_verified = ((flags_iff flags).0 set).1;
      }

  IsPresent-check :
      (expected : C.Algorithm) (signature : C.Signature)
      → IsPresent expected signature
      → check_sk_signature C expected signature ≡ ok tt
  unfolding check_sk_signature
  IsPresent-check expected signature s =
      let bytes = C.as_bytes signature in
      let size : length bytes ≡ length s.body + 5 =
        omega (arith, ap length s.layout, s.four, length-append {0} s.body (s.flags ∷ s.counter)) in
      let found : get_or bytes (length bytes - 5) 0 ≡ s.flags =
        ap₂ (λ bs n. get_or bs n 0) s.layout (omega (arith, size))
        ∙ get_or-append s.body s.counter s.flags 0 in
      rw found (
        ground (
          arith,
          size,
          (flags_iff s.flags).1 (s.user_present, s.user_verified),
          (C.algorithm_eq_iff (C.algorithm signature) expected).1 s.own,
        ))

  check_iff :
      (expected : C.Algorithm) (signature : C.Signature)
      → (check_sk_signature C expected signature ≡ ok tt) ↔ IsPresent expected signature
  check_iff expected signature =
      (λ h. check-IsPresent expected signature h, λ s. IsPresent-check expected signature s)

  -- What strict mode asks of a signature by a key: nothing if it is no security key, and else the
  -- shape of its kind, Ed25519 before ECDSA.
  abbrev pub IsPermittedFor : C.KeyData → C.Signature → Type 0
  IsPermittedFor k signature =
      ((C.is_sk_ed25519 k ≡ false) × (C.is_sk_ecdsa_p256 k ≡ false))
      ⊎ ((C.is_sk_ed25519 k ≡ true) × IsPresent C.sk_ed25519 signature)
      ⊎ ((C.is_sk_ed25519 k ≡ false)
          × (C.is_sk_ecdsa_p256 k ≡ true)
          × IsPresent C.sk_ecdsa_sha2_nist_p256 signature)

  -- A certificate signs with the key that it certifies.
  abbrev pub IsPermitted : Identity C.KeyData C.Certificate → C.Signature → Type 0
  IsPermitted (public_key k) signature = IsPermittedFor k signature
  IsPermitted (certificate cert) signature = IsPermittedFor (C.certified_key cert) signature

  abbrev validated : Option C.Algorithm → C.Signature → Result (Unit {0})
  validated none signature = ok tt
  validated (some expected) signature = check_sk_signature C expected signature

  expected-IsPermittedFor :
      (k : C.KeyData) (signature : C.Signature)
      → (validated (expected_algorithm C k) signature ≡ ok tt) ↔ IsPermittedFor k signature
  unfolding expected_algorithm
  expected-IsPermittedFor k signature = elim (Bool-cases (C.is_sk_ed25519 k)) [
    | inl ed25519 ↦ rw ed25519 (ground (arith, check_iff C.sk_ed25519 signature))
    | inr other ↦ rw other (elim (Bool-cases (C.is_sk_ecdsa_p256 k)) [
      | inl ecdsa ↦ rw ecdsa (ground (arith, check_iff C.sk_ecdsa_sha2_nist_p256 signature))
      | inr plain ↦ rw plain (ground arith)
    ])
  ]

  validate_sk_signature-validated :
      (identity : Identity C.KeyData C.Certificate) (signature : C.Signature)
      → validate_sk_signature C identity signature
        ≡ validated (expected_algorithm C (subject_key C identity)) signature
  unfolding validate_sk_signature
  validate_sk_signature-validated identity signature =
      elim (Option-cases (expected_algorithm C (subject_key C identity))) [
        | inl plain ↦ rw (plain, validate_sk_signature) refl
        | inr (expected, e) ↦ rw (e, validate_sk_signature) refl
      ]

  -- In strict mode a signature passes exactly if the key that signs (a certificate's is the one that
  -- it certifies) is no security key of the two kinds, Ed25519 and ECDSA P-256, or the signature has
  -- the algorithm of the key's kind and a byte of flags before the four bytes of the counter in which
  -- presence and verification are set.
  pub validate_sk_signature_iff :
      (identity : Identity C.KeyData C.Certificate) (signature : C.Signature)
      → (validate_sk_signature C identity signature ≡ ok tt) ↔ IsPermitted identity signature
  unfolding subject_key
  validate_sk_signature_iff (public_key k) signature =
      rw (validate_sk_signature-validated (public_key k) signature)
        (expected-IsPermittedFor k signature)
  validate_sk_signature_iff (certificate cert) signature =
      rw (validate_sk_signature-validated (certificate cert) signature)
        (expected-IsPermittedFor (C.certified_key cert) signature)
