-- ===== src/Filter/Identities/Sets.antt =====
-- The filter as the code means it: two sets of keys, without order and repetition.
use mathlib.Core.Quot
use mathlib.Core.Quot.{Quot, Quot-set}
use pam_ssh_agent.Common.{List, [], ◌∷◌, Bool, In, ◌≡◌, ◌↔◌, refl, ap, sym, ◌∙◌, arith}
use pam_ssh_agent.SshKeys.{SshKeys, Identity, public_key, certificate}
use pam_ssh_agent.Filter.Policy.{Authorized, key, ca_key}
use pam_ssh_agent.Filter.Identities.{IdentityFilter, member, insert, collect, from, filter}
use pam_ssh_agent.Filter.Identities.Membership.{member-insert, keys-from, ca_keys-from, strict-from}

module _ (C : SshKeys) where
  open C use {KeyData}

  -- Two lists that `HashSet::contains` cannot tell apart.
  abbrev pub SameMembers : List KeyData → List KeyData → Type 0
  SameMembers xs ys = (k : KeyData) → member C k xs ≡ member C k ys

  abbrev pub KeySet : Type 0
  KeySet = Quot SameMembers

  pub contains : KeyData → KeySet → Bool
  contains k = Quot.lift (hlevel) (member C k) (λ xs ys h. h k)

  pub add : KeyData → KeySet → KeySet
  add k =
      Quot.lift Quot-set (λ xs. Quot.mk (insert C k xs))
        (λ xs ys h. Quot.sound (λ a. insert_same k a xs ys (h a)))
    where
      insert_same :
          (k a : KeyData) (xs ys : List KeyData)
          → member C a xs ≡ member C a ys
          → member C a (insert C k xs) ≡ member C a (insert C k ys)
      insert_same k a xs ys h = rw (member-insert C a k xs, member-insert C a k ys, h) refl

  -- The abstract filter, and what it is built from an entry at a time.
  pub record SetFilter : Type 0 where
    pub keys : KeySet
    pub ca_keys : KeySet
    pub strict : Bool

  pub view : IdentityFilter KeyData → SetFilter
  view f = record { keys = Quot.mk f.keys; ca_keys = Quot.mk f.ca_keys; strict = f.strict }

  pub accepts : SetFilter → Identity KeyData C.Certificate → Bool
  accepts f (public_key k) = contains k f.keys
  accepts f (certificate cert) = contains (C.signature_key cert) f.ca_keys

  pub include : Authorized KeyData → SetFilter → SetFilter
  include (key k) f = record f { keys = add k f.keys }
  include (ca_key k) f = record f { ca_keys = add k f.ca_keys }

  pub include_all : List (Authorized KeyData) → SetFilter → SetFilter
  include_all [] f = f
  include_all (a ∷ rest) f = include_all rest (include a f)

  view-collect :
      (authorized : List (Authorized KeyData)) (f : IdentityFilter KeyData)
      → view (collect C authorized f) ≡ include_all authorized (view f)
  unfolding view collect include_all include add
  view-collect [] f = refl
  view-collect (key k ∷ rest) f = view-collect rest (record f { keys = insert C k f.keys })
  view-collect (ca_key k ∷ rest) f = view-collect rest (record f { ca_keys = insert C k f.ca_keys })

  abbrev pub nobody : Bool → SetFilter
  nobody strict = record { keys = Quot.mk []; ca_keys = Quot.mk []; strict = strict }

  accepts-view :
      (f : IdentityFilter KeyData) (identity : Identity KeyData C.Certificate)
      → accepts (view f) identity ≡ filter C f identity
  unfolding view accepts contains filter
  accepts-view f (public_key k) = refl
  accepts-view f (certificate cert) = refl

  view-from :
      (authorized : List (Authorized KeyData)) (strict : Bool)
      → view (from C authorized strict) ≡ include_all authorized (nobody strict)
  unfolding from view
  view-from authorized strict =
      view-collect authorized (record { keys = []; ca_keys = []; strict = strict })

  view-from_same :
      (xs ys : List (Authorized KeyData)) (strict : Bool)
      → ((a : Authorized KeyData) → In a xs ↔ In a ys)
      → view (from C xs strict) ≡ view (from C ys strict)
  unfolding view
  view-from_same xs ys strict h i = record {
    keys = Quot.sound same_keys i;
    ca_keys = Quot.sound same_ca_keys i;
    strict = (strict-from C xs strict ∙ sym (strict-from C ys strict)) i;
  }
    where
      same_keys : SameMembers (from C xs strict).keys (from C ys strict).keys
      same_keys k = ground (arith, h (key k), keys-from C k xs strict, keys-from C k ys strict)

      same_ca_keys : SameMembers (from C xs strict).ca_keys (from C ys strict).ca_keys
      same_ca_keys k =
          ground (arith, h (ca_key k), ca_keys-from C k xs strict, ca_keys-from C k ys strict)

  -- For two lists of entries with the same members, in whatever order and however often: the
  -- filter made of the one, seen as two sets, is what including the entries of the other in the
  -- empty sets gives, and it accepts an identity exactly if these sets do.
  pub from_without_order :
      (xs ys : List (Authorized KeyData)) (strict : Bool)
      → ((a : Authorized KeyData) → In a xs ↔ In a ys)
      → (view (from C xs strict) ≡ include_all ys (nobody strict))
        × ((identity : Identity KeyData C.Certificate)
            → filter C (from C xs strict) identity
              ≡ accepts (include_all ys (nobody strict)) identity)
  from_without_order xs ys strict h =
      let same = view-from_same xs ys strict h ∙ view-from ys strict in
      (
        same,
        λ identity.
            sym (accepts-view (from C xs strict) identity) ∙ ap (λ f. accepts f identity) same,
      )
