-- ===== src/NativeCrypto/Dispatch.antt =====
-- Which key, digest and bytes OpenSSL is given.
use pam_ssh_agent.Common.{
  Bytes, true, Option, none, some, ok, >>=-eq-ok, ok_injective, ◌≡◌, ◌↔◌, ◌⊎◌, inl, inr, refl, sym,
  ap, subst, arith,
}
use pam_ssh_agent.NativeCrypto.{
  EcdsaCurve, nist_p256, nist_p384, nist_p521, HashAlg, sha256, sha512, further_hash, Algorithm,
  ecdsa_algorithm, ed25519_algorithm, rsa_algorithm, other_algorithm, KeyData, ecdsa, ed25519, rsa,
  other_key, Signature, Nid, x9_62_prime256v1, secp384r1, secp521r1, MessageDigest, digest_sha256,
  digest_sha384, digest_sha512, OpenSsl, curve_name, rsa_digest, get_key_and_digest, convert_by,
  convert_signature, verify_with, verify,
}

-- The digest that each curve goes with.
pub data IsCurve : EcdsaCurve → Nid → MessageDigest → Type 0 where
  p256 : IsCurve nist_p256 x9_62_prime256v1 digest_sha256
  p384 : IsCurve nist_p384 secp384r1 digest_sha384
  p521 : IsCurve nist_p521 secp521r1 digest_sha512

-- The hashes that an RSA signature may name. SHA-1 (no hash) is not among them.
pub data IsRsaHash : Algorithm → MessageDigest → Type 0 where
  by_sha256 : IsRsaHash (rsa_algorithm (some sha256)) digest_sha256
  by_sha512 : IsRsaHash (rsa_algorithm (some sha512)) digest_sha512

module _ (O : OpenSsl) where
  open O use {
    PublicKey, ec_key, raw_ed25519_key, from_public_components, from_rsa, Rsa, to_der,
    verify_oneshot,
  }

  -- The key and the digest for a key of ssh-key and a signature.
  pub data IsKeyFor : KeyData → Signature → PublicKey → Option MessageDigest → Type 0 where
    curve_key :
        {curve : EcdsaCurve} {group : Nid} {digest : MessageDigest} {point : Bytes} {s : Signature}
        {k : PublicKey}
        → IsCurve curve group digest
        → ec_key group point ≡ ok k
        → IsKeyFor (ecdsa curve point) s k (some digest)
    raw_key :
        {raw : Bytes} {s : Signature} {k : PublicKey}
        → raw_ed25519_key raw ≡ ok k
        → IsKeyFor (ed25519 raw) s k none
    modulus_key :
        {e n : Bytes} {digest : MessageDigest} {s : Signature} {k : PublicKey} {components : Rsa}
        → from_public_components e n ≡ ok components
        → from_rsa components ≡ ok k
        → IsRsaHash s.algorithm digest
        → IsKeyFor (rsa e n) s k (some digest)

  -- The bytes that a signature has for OpenSSL.
  abbrev pub IsConverted : Signature → Bytes → Type 0
  IsConverted s converted =
      ((curve : EcdsaCurve) × (s.algorithm ≡ ecdsa_algorithm curve)
        × (to_der curve s ≡ ok converted))
      ⊎ (((s.algorithm ≡ ed25519_algorithm)
            ⊎ ((hash : Option HashAlg) × (s.algorithm ≡ rsa_algorithm hash)))
          × (converted ≡ s.bytes))

  curve_name-IsCurve :
      (curve : EcdsaCurve) → IsCurve curve (curve_name curve).0 (curve_name curve).1
  unfolding curve_name
  curve_name-IsCurve nist_p256 = p256
  curve_name-IsCurve nist_p384 = p384
  curve_name-IsCurve nist_p521 = p521

  rsa_digest-IsRsaHash :
      (a : Algorithm) {digest : MessageDigest} → rsa_digest a ≡ ok digest → IsRsaHash a digest
  unfolding rsa_digest
  rsa_digest-IsRsaHash (rsa_algorithm none) h = absurd (cc)
  rsa_digest-IsRsaHash (rsa_algorithm (some sha256)) h =
      subst (IsRsaHash (rsa_algorithm (some sha256))) (ok_injective _ _ h) by_sha256
  rsa_digest-IsRsaHash (rsa_algorithm (some sha512)) h =
      subst (IsRsaHash (rsa_algorithm (some sha512))) (ok_injective _ _ h) by_sha512
  rsa_digest-IsRsaHash (rsa_algorithm (some (further_hash _))) h = absurd (cc)
  rsa_digest-IsRsaHash (ecdsa_algorithm _) h = absurd (cc)
  rsa_digest-IsRsaHash ed25519_algorithm h = absurd (cc)
  rsa_digest-IsRsaHash (other_algorithm _) h = absurd (cc)

  get_key_and_digest-IsKeyFor :
      (key_data : KeyData) (s : Signature) {k : PublicKey} {digest : Option MessageDigest}
      → get_key_and_digest O key_data s ≡ ok (k, digest)
      → IsKeyFor key_data s k digest
  unfolding get_key_and_digest
  get_key_and_digest-IsKeyFor (ecdsa curve point) s {k} {digest} h =
      let (key, e, k') = >>=-eq-ok (ec_key (curve_name curve).0 point) _ h in
      let same : (key, some (curve_name curve).1) ≡ (k, digest) = ok_injective _ _ k' in
      subst (λ r. IsKeyFor (ecdsa curve point) s r.0 r.1) same
        (curve_key (curve_name-IsCurve curve) e)
  get_key_and_digest-IsKeyFor (ed25519 raw) s {k} {digest} h =
      let (key, e, k') = >>=-eq-ok (raw_ed25519_key raw) _ h in
      subst (λ r. IsKeyFor (ed25519 raw) s r.0 r.1) (ok_injective _ _ k') (raw_key e)
  get_key_and_digest-IsKeyFor (rsa e n) s {k} {digest} h =
      let (components, got, h1) = >>=-eq-ok (from_public_components e n) _ h in
      let (d, named, h2) = >>=-eq-ok (rsa_digest s.algorithm) _ h1 in
      let (key, made, h3) = >>=-eq-ok (from_rsa components) _ h2 in
      subst (λ r. IsKeyFor (rsa e n) s r.0 r.1) (ok_injective _ _ h3)
        (modulus_key got made (rsa_digest-IsRsaHash s.algorithm named))
  get_key_and_digest-IsKeyFor (other_key _) s h = absurd (cc)

  IsCurve-curve_name :
      {curve : EcdsaCurve} {group : Nid} {digest : MessageDigest}
      → IsCurve curve group digest
      → curve_name curve ≡ (group, digest)
  unfolding curve_name
  IsCurve-curve_name p256 = refl
  IsCurve-curve_name p384 = refl
  IsCurve-curve_name p521 = refl

  IsRsaHash-rsa_digest :
      {a : Algorithm} {digest : MessageDigest} → IsRsaHash a digest → rsa_digest a ≡ ok digest
  unfolding rsa_digest
  IsRsaHash-rsa_digest by_sha256 = refl
  IsRsaHash-rsa_digest by_sha512 = refl

  IsKeyFor-get_key_and_digest :
      {key_data : KeyData} {s : Signature} {k : PublicKey} {digest : Option MessageDigest}
      → IsKeyFor key_data s k digest
      → get_key_and_digest O key_data s ≡ ok (k, digest)
  unfolding get_key_and_digest
  IsKeyFor-get_key_and_digest (curve_key c e) = rw (IsCurve-curve_name c, e) refl
  IsKeyFor-get_key_and_digest (raw_key e) = rw e refl
  IsKeyFor-get_key_and_digest (modulus_key got made named) =
      rw (got, IsRsaHash-rsa_digest named, made) refl

  convert_by_iff :
      (a : Algorithm) (s : Signature) (converted : Bytes)
      → (convert_by O a s ≡ ok converted) ↔ (
          ((curve : EcdsaCurve) × (a ≡ ecdsa_algorithm curve) × (to_der curve s ≡ ok converted))
          ⊎ (((a ≡ ed25519_algorithm) ⊎ ((hash : Option HashAlg) × (a ≡ rsa_algorithm hash)))
              × (converted ≡ s.bytes)))
  unfolding convert_by
  convert_by_iff (ecdsa_algorithm curve) s converted = (
    λ h. inl (curve, refl, h),
    λ h. elim h [
      | inl (other, same, e) ↦
          let c : curve ≡ other = cc in subst (λ c. to_der c s ≡ ok converted) (sym c) e
      | inr (inl bad, _) ↦ absurd (cc)
      | inr (inr (hash, bad), _) ↦ absurd (cc)
    ],
  )
  convert_by_iff ed25519_algorithm s converted = (
    λ h. inr (inl refl, sym (ok_injective _ _ h)),
    λ h. elim h [ inl (curve, bad, _) ↦ absurd (cc) | inr (_, e) ↦ ap ok (sym e) ],
  )
  convert_by_iff (rsa_algorithm hash) s converted = (
    λ h. inr (inr (hash, refl), sym (ok_injective _ _ h)),
    λ h. elim h [ inl (curve, bad, _) ↦ absurd (cc) | inr (_, e) ↦ ap ok (sym e) ],
  )
  convert_by_iff (other_algorithm n) s converted = (
    λ h. absurd (cc),
    λ h. elim h [
      | inl (curve, bad, _) ↦ absurd (cc)
      | inr (inl bad, _) ↦ absurd (cc)
      | inr (inr (hash, bad), _) ↦ absurd (cc)
    ],
  )

  verify-ok :
      (key_data : KeyData) (message : Bytes) (s : Signature)
      → (verify O key_data message s ≡ ok tt) ↔ (verify_with O key_data message s ≡ ok true)
  unfolding verify
  verify-ok key_data message s = ground arith

  -- OpenSSL's verification passes exactly if there are a key for the key of ssh-key (of the curve, of
  -- the raw bytes, or of the modulus), its digest (the curve's, none, or the one that the signature
  -- names, SHA-256 or SHA-512), and the bytes of the signature, with which OpenSSL says that the
  -- signature of the message is right.
  pub verify_iff :
      (key_data : KeyData) (message : Bytes) (s : Signature)
      → (verify O key_data message s ≡ ok tt) ↔ (
          (k : PublicKey) × (digest : Option MessageDigest) × (converted : Bytes) × IsKeyFor
            key_data s k digest
          × IsConverted s converted
          × (verify_oneshot k digest converted message ≡ ok true))
  unfolding verify_with convert_signature
  verify_iff key_data message s = (
    λ h.
        let passed = (verify-ok key_data message s).0 h in
        let ((k, digest), e, h1) = >>=-eq-ok (get_key_and_digest O key_data s) _ passed in
        let (converted, e', right) = >>=-eq-ok (convert_by O s.algorithm s) _ h1 in
        (
          k,
          digest,
          converted,
          get_key_and_digest-IsKeyFor key_data s e,
          (convert_by_iff s.algorithm s converted).0 e',
          right,
        ),
    λ (k, digest, converted, key, bytes, right). (verify-ok key_data message s).1 (
        rw (IsKeyFor-get_key_and_digest key, (convert_by_iff s.algorithm s converted).1 bytes)
          right),
  )
