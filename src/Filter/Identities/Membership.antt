-- ===== src/Filter/Identities/Membership.antt =====
-- Whom the filter accepts.
use pam_ssh_agent.Common.{List, [], ◌∷◌, Bool, true, false, ◌||◌, In, ◌≡◌, ◌↔◌, ◌⊎◌, refl, arith}
use pam_ssh_agent.SshKeys.{SshKeys, Identity, public_key, certificate}
use pam_ssh_agent.Filter.Policy.{Authorized, key, ca_key}
use pam_ssh_agent.Filter.Identities.{IdentityFilter, member, insert, collect, from, filter}

module _ (C : SshKeys) where
  open C use {KeyData}

  member-cons :
      (a k : KeyData) (set : List KeyData) → member C a (k ∷ set) ≡ (C.key_eq a k || member C a set)
  unfolding member
  member-cons a k set = refl

  pub member-insert :
      (a k : KeyData) (set : List KeyData)
      → member C a (insert C k set) ≡ (C.key_eq a k || member C a set)
  unfolding insert
  member-insert a k set = ground (arith, member-cons a k set, C.key_eq_iff a k)

  -- The identity stands among the authorized ones in its own role: a key as a key, a certificate's
  -- authority as an authority.
  abbrev pub IsAuthorized : List (Authorized KeyData) → Identity KeyData C.Certificate → Type 0
  IsAuthorized authorized (public_key k) = In (key k) authorized
  IsAuthorized authorized (certificate cert) = In (ca_key (C.signature_key cert)) authorized

  keys-collect :
      (k : KeyData) (authorized : List (Authorized KeyData)) (f : IdentityFilter KeyData)
      → (member C k (collect C authorized f).keys ≡ true)
        ↔ (In (key k) authorized ⊎ (member C k f.keys ≡ true))
  unfolding collect
  keys-collect k [] f = ground arith
  keys-collect k (key x ∷ rest) f = ground (
    arith,
    keys-collect k rest (record f { keys = insert C x f.keys }),
    member-insert k x f.keys,
    C.key_eq_iff k x,
  )
  keys-collect k (ca_key x ∷ rest) f =
      ground (arith, keys-collect k rest (record f { ca_keys = insert C x f.ca_keys }))

  ca_keys-collect :
      (k : KeyData) (authorized : List (Authorized KeyData)) (f : IdentityFilter KeyData)
      → (member C k (collect C authorized f).ca_keys ≡ true)
        ↔ (In (ca_key k) authorized ⊎ (member C k f.ca_keys ≡ true))
  unfolding collect
  ca_keys-collect k [] f = ground arith
  ca_keys-collect k (ca_key x ∷ rest) f = ground (
    arith,
    ca_keys-collect k rest (record f { ca_keys = insert C x f.ca_keys }),
    member-insert k x f.ca_keys,
    C.key_eq_iff k x,
  )
  ca_keys-collect k (key x ∷ rest) f =
      ground (arith, ca_keys-collect k rest (record f { keys = insert C x f.keys }))

  member-nil : (k : KeyData) → member C k [] ≡ false
  unfolding member
  member-nil k = refl

  pub keys-from :
      (k : KeyData) (authorized : List (Authorized KeyData)) (strict : Bool)
      → (member C k (from C authorized strict).keys ≡ true) ↔ In (key k) authorized
  unfolding from
  keys-from k authorized strict = ground (
    arith,
    member-nil k,
    keys-collect k authorized (record { keys = []; ca_keys = []; strict = strict }),
  )

  pub ca_keys-from :
      (k : KeyData) (authorized : List (Authorized KeyData)) (strict : Bool)
      → (member C k (from C authorized strict).ca_keys ≡ true) ↔ In (ca_key k) authorized
  unfolding from
  ca_keys-from k authorized strict = ground (
    arith,
    member-nil k,
    ca_keys-collect k authorized (record { keys = []; ca_keys = []; strict = strict }),
  )

  -- The filter accepts a public key exactly if it is authorized as a key, and a certificate
  -- exactly if its signing key is authorized as an authority. Neither role stands in for the other.
  pub filter-from :
      (authorized : List (Authorized KeyData)) (strict : Bool)
      (identity : Identity KeyData C.Certificate)
      → (filter C (from C authorized strict) identity ≡ true) ↔ IsAuthorized authorized identity
  unfolding filter
  filter-from authorized strict (public_key k) = keys-from k authorized strict
  filter-from authorized strict (certificate cert) =
      ca_keys-from (C.signature_key cert) authorized strict

  strict-collect :
      (authorized : List (Authorized KeyData)) (f : IdentityFilter KeyData)
      → (collect C authorized f).strict ≡ f.strict
  unfolding collect
  strict-collect [] f = refl
  strict-collect (key x ∷ rest) f = strict-collect rest _
  strict-collect (ca_key x ∷ rest) f = strict-collect rest _

  pub strict-from :
      (authorized : List (Authorized KeyData)) (strict : Bool)
      → (from C authorized strict).strict ≡ strict
  unfolding from
  strict-from authorized strict = strict-collect authorized _
