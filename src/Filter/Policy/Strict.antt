-- ===== src/Filter/Policy/Strict.antt =====
-- The strict reading of a policy text, and how it compares with the lenient one.
use pam_ssh_agent.Common.{
  suc, ◌+◌, ◌≤◌, Bytes, codes, bytes_eq, List, [], ◌∷◌, ◌++◌, append_assoc, append-nil, Bool, true,
  false, ◌||◌, is_empty, if◌then◌else◌, length, length-append, Result, ok, err, ◌≡◌, ◌↔◌, ◌⊎◌, inl,
  inr, refl, sym, ap, ◌∙◌, arith, >>=-eq-ok, Bool-cases, bytes_eq_sound, bytes_eq_refl,
  ok_injective, subst,
}
use pam_ssh_agent.SshKeys.{SshKeys, Entry}
use pam_ssh_agent.Filter.Policy.{
  PolicyMode, Authorized, key, ca_key, max_policy_entries, only_cert_authority, has_cert_authority,
  parsed, admit, strict_loop, classify, lenient, from_str_strict, parse_policy,
}

only_cert_authority_sound :
    (options : List Bytes)
    → only_cert_authority options ≡ true
    → options ≡ codes "cert-authority" ∷ []
unfolding only_cert_authority
only_cert_authority_sound [] h = cc
only_cert_authority_sound (option ∷ []) h =
    ap (λ o. o ∷ []) (bytes_eq_sound option (codes "cert-authority") h)
only_cert_authority_sound (option ∷ other ∷ rest) h = cc

only_cert_authority_one : only_cert_authority (codes "cert-authority" ∷ []) ≡ true
unfolding only_cert_authority bytes_eq
only_cert_authority_one = refl

only_cert_authority_none : only_cert_authority [] ≡ false
unfolding only_cert_authority
only_cert_authority_none = refl

is_empty_sound : (options : List Bytes) → is_empty options ≡ true → options ≡ []
is_empty_sound [] h = refl
is_empty_sound (_ ∷ _) h = cc

module _ {K : Type 0} (ca_keys : Bool) where
  -- An item that strict mode admits, as what: a bare key is a key (an authority in a file of
  -- authorities), and a key whose one option is `cert-authority` is an authority.
  abbrev pub Admitted : Result (Entry K) → Authorized K → Type 0
  Admitted item x =
      (entry : Entry K) × (item ≡ ok entry)
      × (((entry.config_opts ≡ [])
            × (x ≡ (if ca_keys then ca_key entry.key_data else key entry.key_data)))
          ⊎ ((entry.config_opts ≡ codes "cert-authority" ∷ []) × (x ≡ ca_key entry.key_data)))

  -- Item by item, in order.
  abbrev pub AllAdmitted : List (Result (Entry K)) → List (Authorized K) → Type 0
  AllAdmitted [] [] = Unit
  AllAdmitted (item ∷ items) (x ∷ xs) = Admitted item x × AllAdmitted items xs
  AllAdmitted _ _ = ⊥

  admit-ok :
      (item : Result (Entry K)) (before : List (Authorized K)) {after : List (Authorized K)}
      → admit ca_keys item before ≡ ok after
      → (x : Authorized K) × Admitted item x
        × (after ≡ before ++ x ∷ [])
        × (suc (length before) ≤ max_policy_entries)
  unfolding admit parsed
  admit-ok (err e) before h = cc
  admit-ok (ok entry) before h =
      let is_ca = ca_keys || only_cert_authority entry.config_opts in
      (
        (if is_ca then ca_key entry.key_data else key entry.key_data),
        (
          entry,
          refl,
          ground (
            arith,
            only_cert_authority_sound entry.config_opts,
            is_empty_sound entry.config_opts,
            only_cert_authority_none,
          ),
        ),
        ground arith,
        ground arith,
      )

  admit_complete :
      (item : Result (Entry K)) (before : List (Authorized K)) (x : Authorized K)
      → Admitted item x
      → suc (length before) ≤ max_policy_entries
      → admit ca_keys item before ≡ ok (before ++ x ∷ [])
  unfolding admit parsed
  admit_complete item before x (entry, e, inl (bare, same)) h =
      rw (e, bare, same, only_cert_authority_none) (ground arith)
  admit_complete item before x (entry, e, inr (one, same)) h =
      rw (e, one, same, only_cert_authority_one) (ground arith)

  strict_loop-ok :
      (items : List (Result (Entry K))) (before : List (Authorized K)) {after : List (Authorized K)}
      → strict_loop ca_keys items before ≡ ok after
      → (xs : List (Authorized K)) × AllAdmitted items xs × (after ≡ before ++ xs)
  unfolding strict_loop
  strict_loop-ok [] before h = ([], tt, sym (ok_injective before _ h) ∙ sym (append-nil before))
  strict_loop-ok (item ∷ items) before h =
      let (middle, e, k) = >>=-eq-ok (admit ca_keys item before) _ h in
      let (x, good, put, _) = admit-ok item before e in
      let (xs, all_good, rest) = strict_loop-ok items middle k in
      (x ∷ xs, (good, all_good), rest ∙ ap (λ ys. ys ++ xs) put ∙ append_assoc before (x ∷ []) xs)

  strict_loop-bounded :
      (items : List (Result (Entry K))) (before : List (Authorized K)) {after : List (Authorized K)}
      → length before ≤ max_policy_entries
      → strict_loop ca_keys items before ≡ ok after
      → length after ≤ max_policy_entries
  unfolding strict_loop
  strict_loop-bounded [] before b h = rw (← ok_injective before _ h) b
  strict_loop-bounded (item ∷ items) before b h =
      let (middle, e, k) = >>=-eq-ok (admit ca_keys item before) _ h in
      let (x, _, put, room) = admit-ok item before e in
      strict_loop-bounded items middle
        (omega (arith, ap length put, length-append {0} before (x ∷ []))) k

  strict_loop_complete :
      (items : List (Result (Entry K))) (before xs : List (Authorized K))
      → AllAdmitted items xs
      → length before + length xs ≤ max_policy_entries
      → strict_loop ca_keys items before ≡ ok (before ++ xs)
  unfolding strict_loop
  strict_loop_complete [] before [] good b = ap ok (sym (append-nil before))
  strict_loop_complete [] before (x ∷ xs) good b = absurd good
  strict_loop_complete (item ∷ items) before [] good b = absurd good
  strict_loop_complete (item ∷ items) before (x ∷ xs) (first, others) b =
      rw (admit_complete item before x first (omega arith)) (
        strict_loop_complete items (before ++ x ∷ []) xs others
          (omega (arith, length-append {0} before (x ∷ [])))
        ∙ ap ok (append_assoc before (x ∷ []) xs))

  classify-bare :
      (entry : Entry K)
      → entry.config_opts ≡ []
      → classify ca_keys entry ≡ (if ca_keys then ca_key entry.key_data else key entry.key_data)
  unfolding classify has_cert_authority
  classify-bare entry bare = rw bare (elim (Bool-cases ca_keys) [ inl t ↦ rw t | inr f ↦ rw f ])

  classify-authority :
      (entry : Entry K)
      → entry.config_opts ≡ codes "cert-authority" ∷ []
      → classify ca_keys entry ≡ ca_key entry.key_data
  unfolding classify has_cert_authority
  classify-authority entry one =
      rw (one, bytes_eq_refl (codes "cert-authority"))
        (elim (Bool-cases ca_keys) [ inl t ↦ rw t | inr f ↦ rw f ])

  -- What strict mode admits, the lenient reading takes as the same.
  classify-Admitted :
      (item : Result (Entry K)) (x : Authorized K) (items : List (Result (Entry K)))
      → Admitted item x
      → lenient ca_keys (item ∷ items) ≡ x ∷ lenient ca_keys items
  unfolding lenient
  classify-Admitted item x items (entry, e, inl (bare, same)) =
      rw e (ap (λ y. y ∷ lenient ca_keys items) (classify-bare entry bare ∙ sym same))
  classify-Admitted item x items (entry, e, inr (one, same)) =
      rw e (ap (λ y. y ∷ lenient ca_keys items) (classify-authority entry one ∙ sym same))

  lenient-AllAdmitted :
      (items : List (Result (Entry K))) (xs : List (Authorized K))
      → AllAdmitted items xs
      → lenient ca_keys items ≡ xs
  unfolding lenient
  lenient-AllAdmitted [] [] good = refl
  lenient-AllAdmitted [] (x ∷ xs) good = absurd good
  lenient-AllAdmitted (item ∷ items) [] good = absurd good
  lenient-AllAdmitted (item ∷ items) (x ∷ xs) (first, others) =
      classify-Admitted item x items first ∙ ap (λ ys. x ∷ ys) (lenient-AllAdmitted items xs others)

module _ (C : SshKeys) (buf : Bytes) (ca_keys : Bool) (xs : List (Authorized C.KeyData)) where
  -- Strict mode accepts a policy text as `xs` exactly if every item parses, is bare or carries
  -- `cert-authority` alone, is taken for what `xs` says in its place, and there are at most 1024.
  pub from_str_strict_iff :
      (from_str_strict C buf ca_keys ≡ ok xs)
      ↔ (AllAdmitted ca_keys (C.authorized_keys buf) xs × (length xs ≤ max_policy_entries))
  unfolding from_str_strict
  from_str_strict_iff = (
    λ h.
        let (ys, good, same) = strict_loop-ok ca_keys (C.authorized_keys buf) [] h in
        (
          subst (AllAdmitted ca_keys (C.authorized_keys buf)) (sym same) good,
          strict_loop-bounded ca_keys (C.authorized_keys buf) [] (omega arith) h,
        ),
    λ (good, b). strict_loop_complete ca_keys (C.authorized_keys buf) [] xs good (omega arith),
  )

  -- A policy text that strict mode accepts means the same keys and authorities in both modes.
  pub parse_policy-legacy :
      parse_policy C buf ca_keys PolicyMode.strict ≡ ok xs
      → parse_policy C buf ca_keys PolicyMode.legacy ≡ ok xs
  unfolding parse_policy
  parse_policy-legacy h =
      ap ok (lenient-AllAdmitted ca_keys (C.authorized_keys buf) xs (from_str_strict_iff.0 h).0)
