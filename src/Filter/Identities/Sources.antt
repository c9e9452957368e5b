-- ===== src/Filter/Identities/Sources.antt =====
-- Where the keys of a constructed filter come from, in both modes.
use pam_ssh_agent.Common.{
  Bytes, List, [], ◌∷◌, ◌++◌, Bool, true, false, not, ◌&&◌, Option, In, if◌then◌else◌, ok, err,
  Error, ◌≡◌, ◌↔◌, ◌⊎◌, sym, ap, ◌∙◌, subst, arith, >>=-eq-ok, ok_injective,
}
use pam_ssh_agent.SshKeys.{SshKeys, Identity, public_key, certificate}
use pam_ssh_agent.Filter.Paths.{FileSystem}
use pam_ssh_agent.Filter.Policy.{PolicyMode, Authorized, key, ca_key}
use pam_ssh_agent.Filter.Identities.{
  IdentityFilter, Outside, is_strict, is_not_found, from, filter, from_file, authorized_keys_part,
  ca_keys_part, command_part, new_with_mode,
}
use pam_ssh_agent.Filter.Identities.Membership.{IsAuthorized, filter-from, strict-from}

-- Membership in a text joined of two.
In-append : {A : Type 0} (a : A) (xs ys : List A) → In a (xs ++ ys) ↔ (In a xs ⊎ In a ys)
In-append a [] ys = ground arith
In-append a (x ∷ xs) ys = ground (arith, In-append a xs ys)

module _ (C : SshKeys) where
  open C use {KeyData}

  IsAuthorized-append :
      (xs ys : List (Authorized KeyData)) (identity : Identity KeyData C.Certificate)
      → IsAuthorized C (xs ++ ys) identity
        ↔ (IsAuthorized C xs identity ⊎ IsAuthorized C ys identity)
  IsAuthorized-append xs ys (public_key k) = In-append (key k) xs ys
  IsAuthorized-append xs ys (certificate cert) = In-append (ca_key (C.signature_key cert)) xs ys

  pub filter-joined :
      (keys authorities commanded : List (Authorized KeyData)) (strict : Bool)
      (identity : Identity KeyData C.Certificate)
      → (filter C (from C (keys ++ (authorities ++ commanded)) strict) identity ≡ true) ↔ (
          IsAuthorized C keys identity
          ⊎ IsAuthorized C authorities identity
          ⊎ IsAuthorized C commanded identity)
  filter-joined keys authorities commanded strict identity = ground (
    arith,
    filter-from C (keys ++ (authorities ++ commanded)) strict identity,
    IsAuthorized-append keys (authorities ++ commanded) identity,
    IsAuthorized-append authorities commanded identity,
  )

  -- The three lists from which a filter is built.
  pub record Parts (s : Outside) (file : Bytes) (ca_file command command_user : Option Bytes)
      (user : Bytes) (mode : PolicyMode) : Type 0 where
    pub keys : List (Authorized KeyData)
    pub from_keys : authorized_keys_part C s.fs file mode ≡ ok keys
    pub authorities : List (Authorized KeyData)
    pub from_authorities : ca_keys_part C s.fs ca_file mode ≡ ok authorities
    pub commanded : List (Authorized KeyData)
    pub from_commanded : command_part C s command command_user user mode ≡ ok commanded

  -- A filter that is built accepts an identity exactly if the keys file, the file of authorities or
  -- the helper's output authorizes it in its role.
  pub new_with_mode-ok :
      (s : Outside) (file : Bytes) (ca_file command command_user : Option Bytes) (user : Bytes)
      (mode : PolicyMode) {f : IdentityFilter KeyData}
      → new_with_mode C s file ca_file command command_user user mode ≡ ok f
      → (p : Parts s file ca_file command command_user user mode) × (f.strict ≡ is_strict mode)
        × ((identity : Identity KeyData C.Certificate)
            → (filter C f identity ≡ true) ↔ (
                IsAuthorized C p.keys identity
                ⊎ IsAuthorized C p.authorities identity
                ⊎ IsAuthorized C p.commanded identity))
  unfolding new_with_mode
  new_with_mode-ok s file ca_file command command_user user mode {f} h =
      let (keys, e, k) = >>=-eq-ok (authorized_keys_part C s.fs file mode) _ h in
      let (authorities, e', k') = >>=-eq-ok (ca_keys_part C s.fs ca_file mode) _ k in
      let (commanded, e'', k'') =
        >>=-eq-ok (command_part C s command command_user user mode) _ k' in
      let all = keys ++ (authorities ++ commanded) in
      let same : from C all (is_strict mode) ≡ f = ok_injective _ _ k'' in
      (
        record {
          keys = keys;
          from_keys = e;
          authorities = authorities;
          from_authorities = e';
          commanded = commanded;
          from_commanded = e'';
        },
        ap (λ g. g.strict) (sym same) ∙ strict-from C all (is_strict mode),
        λ identity.
            subst
              (λ g. (filter C g identity ≡ true) ↔ (
                IsAuthorized C keys identity
                ⊎ IsAuthorized C authorities identity
                ⊎ IsAuthorized C commanded identity))
              same (filter-joined keys authorities commanded (is_strict mode) identity),
      )

  pub authorized_keys_part-err :
      (fs : FileSystem) (file : Bytes) (mode : PolicyMode) {e : Error}
      → from_file C fs file false mode ≡ err e
      → authorized_keys_part C fs file mode
        ≡ (if not (is_strict mode) && is_not_found e then ok [] else err e)
  unfolding authorized_keys_part
  authorized_keys_part-err fs file mode h = rw (h, authorized_keys_part)
