-- ===== src/Filter/Paths/Trusted.antt =====
-- `validate_trust_path` accepts a path exactly if every directory on it can be trusted.
use pam_ssh_agent.Common.{
  sym, ◌∙◌, strip_prefix, bytes_eq, bytes_eq_sound, bytes_eq_refl, ap, ◌≢◌, ℕ, Bytes, codes, List,
  [], ◌∷◌, Bool, true, false, any, All, ok, ◌≡◌, ◌↔◌, ◌⊎◌, refl, subst, arith, bit, bit_and-0o022,
  bit_and-0o1000, >>=-eq-ok,
}
use pam_ssh_agent.Filter.Paths.Components.{is_dotted_absolute}
use pam_ssh_agent.Filter.Paths.{
  root_dir, cur_dir, parent_dir, normal, component_eq, components_eq, split_slash, Metadata,
  FileSystem, Component, components, as_os_str, push, path_eq, validate_mode, validate_prefix,
  validate_loop, validate_components, resolve_trust_path, validate_trust_path, is_dotted,
  is_absolute,
}

-- The texts that a walk along the components looks at, from the root to the whole path.
pub prefixes : Bytes → List Component → List Bytes
prefixes current [] = []
prefixes current (component ∷ rest) =
    let next = push current (as_os_str component) in next ∷ prefixes next rest

component_eq_iff : (a b : Component) → (component_eq a b ≡ true) ↔ (a ≡ b)
unfolding component_eq
component_eq_iff root_dir root_dir = (λ _. refl, λ _. refl)
component_eq_iff root_dir cur_dir = (λ h. cc, λ h. cc)
component_eq_iff root_dir parent_dir = (λ h. cc, λ h. cc)
component_eq_iff root_dir (normal b) = (λ h. cc, λ h. cc)
component_eq_iff cur_dir root_dir = (λ h. cc, λ h. cc)
component_eq_iff cur_dir cur_dir = (λ _. refl, λ _. refl)
component_eq_iff cur_dir parent_dir = (λ h. cc, λ h. cc)
component_eq_iff cur_dir (normal b) = (λ h. cc, λ h. cc)
component_eq_iff parent_dir root_dir = (λ h. cc, λ h. cc)
component_eq_iff parent_dir cur_dir = (λ h. cc, λ h. cc)
component_eq_iff parent_dir parent_dir = (λ _. refl, λ _. refl)
component_eq_iff parent_dir (normal b) = (λ h. cc, λ h. cc)
component_eq_iff (normal a) root_dir = (λ h. cc, λ h. cc)
component_eq_iff (normal a) cur_dir = (λ h. cc, λ h. cc)
component_eq_iff (normal a) parent_dir = (λ h. cc, λ h. cc)
component_eq_iff (normal a) (normal b) = (
  λ h. ap normal (bytes_eq_sound a b h),
  λ h. let same : a ≡ b = cc in subst (λ c. bytes_eq a c ≡ true) same (bytes_eq_refl a),
)

components_eq_iff : (xs ys : List Component) → (components_eq xs ys ≡ true) ↔ (xs ≡ ys)
unfolding components_eq
components_eq_iff [] [] = (λ _. refl, λ _. refl)
components_eq_iff [] (b ∷ bs) = (λ h. cc, λ h. cc)
components_eq_iff (a ∷ xs) [] = (λ h. cc, λ h. cc)
components_eq_iff (a ∷ xs) (b ∷ ys) = (
  λ h.
      let heads : a ≡ b = ground (arith, component_eq_iff a b) in
      let tails : xs ≡ ys = ground (arith, components_eq_iff xs ys) in cc,
  λ h.
      let heads : a ≡ b = cc in
      let tails : xs ≡ ys = cc in
      ground (arith, (component_eq_iff a b).1 heads, (components_eq_iff xs ys).1 tails),
)

-- The place of the one directory that may be open to others: it has the components of `/nix/store`.
abbrev pub IsNixStore : Bytes → Type 0
IsNixStore place = components place ≡ components (codes "/nix/store")

-- Neither the group nor the others may write, or it is `/nix/store` and sticky.
abbrev pub IsClosed : Bytes → ℕ → Type 0
IsClosed place mode = ((bit 1 mode ≡ 0) × (bit 4 mode ≡ 0)) ⊎ (IsNixStore place × (bit 9 mode ≡ 1))

path_eq-IsNixStore :
    (place : Bytes) → (path_eq place (codes "/nix/store") ≡ true) ↔ IsNixStore place
unfolding path_eq
path_eq-IsNixStore place = components_eq_iff (components place) (components (codes "/nix/store"))

validate_mode-IsClosed :
    (place : Bytes) (m : Metadata) → validate_mode place m ≡ ok tt → IsClosed place m.mode
unfolding validate_mode
validate_mode-IsClosed place m h =
    ground (arith, path_eq-IsNixStore place, bit_and-0o022 m.mode, bit_and-0o1000 m.mode)

IsClosed-validate_mode :
    (place : Bytes) (m : Metadata) → IsClosed place m.mode → validate_mode place m ≡ ok tt
unfolding validate_mode
IsClosed-validate_mode place m h =
    ground (arith, path_eq-IsNixStore place, bit_and-0o022 m.mode, bit_and-0o1000 m.mode)

module _ (fs : FileSystem) (required_uid : ℕ) (allow_symlink : Bool) where
  -- A place that only its owner can change: it belongs to the required user, and it is a link
  -- where links are allowed, or no link and closed to others.
  pub record IsSecure (place : Bytes) : Type 0 where
    pub metadata : Metadata
    pub found : fs.symlink_metadata place ≡ ok metadata
    pub owned : metadata.uid ≡ required_uid
    pub protected :
        ((metadata.is_symlink ≡ true) × (allow_symlink ≡ true))
        ⊎ ((metadata.is_symlink ≡ false) × IsClosed place metadata.mode)

  validate_prefix-IsSecure :
      (place : Bytes) → validate_prefix fs required_uid allow_symlink place ≡ ok tt → IsSecure place
  unfolding validate_prefix
  validate_prefix-IsSecure place h =
      let (m, e, k) = >>=-eq-ok (fs.symlink_metadata place) _ h in
      record {
        metadata = m;
        found = e;
        owned = ground arith;
        protected = ground (arith, validate_mode-IsClosed place m);
      }

  IsSecure-validate_prefix :
      (place : Bytes) → IsSecure place → validate_prefix fs required_uid allow_symlink place ≡ ok tt
  unfolding validate_prefix
  IsSecure-validate_prefix place s =
      rw s.found (ground (arith, IsClosed-validate_mode place s.metadata))

  validate_loop-All :
      (current : Bytes) (cs : List Component)
      → validate_loop fs required_uid allow_symlink current cs ≡ ok tt
      → All IsSecure (prefixes current cs)
  unfolding validate_loop prefixes
  validate_loop-All current [] h = tt
  validate_loop-All current (c ∷ cs) h =
      let next = push current (as_os_str c) in
      let (u, e, k) = >>=-eq-ok (validate_prefix fs required_uid allow_symlink next) _ h in
      (validate_prefix-IsSecure next e, validate_loop-All next cs k)

  All-validate_loop :
      (current : Bytes) (cs : List Component)
      → All IsSecure (prefixes current cs)
      → validate_loop fs required_uid allow_symlink current cs ≡ ok tt
  unfolding validate_loop prefixes
  All-validate_loop current [] h = refl
  All-validate_loop current (c ∷ cs) (s, rest) =
      let next = push current (as_os_str c) in
      rw (IsSecure-validate_prefix next s) (All-validate_loop next cs rest)

  -- The walk succeeds exactly if every prefix of the path is secure.
  pub validate_components_iff :
      (path : Bytes)
      → (validate_components fs path required_uid allow_symlink ≡ ok tt)
        ↔ All IsSecure (prefixes [] (components path))
  unfolding validate_components
  validate_components_iff path =
      (validate_loop-All [] (components path), All-validate_loop [] (components path))

-- What makes a path trusted: it is absolute and none of its segments is `..`; every prefix of it
-- belongs to the required user and is a link, or closed to others, or the sticky `/nix/store`; and
-- what it resolves to is a regular file with every prefix of the same owner, closed or that
-- directory, and no link.
pub record IsTrustedPath (fs : FileSystem) (path : Bytes) (required_uid : ℕ) (canonical : Bytes)
    : Type 0 where
  pub absolute : is_absolute path ≡ true
  pub undotted : All (λ segment. segment ≢ codes "..") (split_slash path)
  pub written : All (IsSecure fs required_uid true) (prefixes [] (components path))
  pub resolved : fs.canonicalize path ≡ ok canonical
  pub unlinked : All (IsSecure fs required_uid false) (prefixes [] (components canonical))
  pub file : Metadata
  pub described : fs.metadata canonical ≡ ok file
  pub regular : file.is_file ≡ true

resolve-IsTrustedPath :
    (fs : FileSystem) (path : Bytes) (required_uid : ℕ) (canonical : Bytes)
    → is_absolute path ≡ true
    → All (λ segment. segment ≢ codes "..") (split_slash path)
    → resolve_trust_path fs path required_uid ≡ ok canonical
    → IsTrustedPath fs path required_uid canonical
unfolding resolve_trust_path
resolve-IsTrustedPath fs path required_uid canonical absolute undotted h =
    let (_, e, k) = >>=-eq-ok (validate_components fs path required_uid true) _ h in
    let (c, e', k') = >>=-eq-ok (fs.canonicalize path) _ k in
    let (_, e'', k'') = >>=-eq-ok (validate_components fs c required_uid false) _ k' in
    let (m, e3, k3) = >>=-eq-ok (fs.metadata c) _ k'' in
    let same : c ≡ canonical = ground arith in
    record {
      absolute = absolute;
      undotted = undotted;
      written = (validate_components_iff fs required_uid true path).0 e;
      resolved = subst (λ d. fs.canonicalize path ≡ ok d) same e';
      unlinked =
          (validate_components_iff fs required_uid false canonical).0
            (subst (λ d. validate_components fs d required_uid false ≡ ok tt) same e'');
      file = m;
      described = subst (λ d. fs.metadata d ≡ ok m) same e3;
      regular = ground arith;
    }

resolve_complete :
    (fs : FileSystem) (path : Bytes) (required_uid : ℕ) (canonical : Bytes)
    → IsTrustedPath fs path required_uid canonical
    → resolve_trust_path fs path required_uid ≡ ok canonical
unfolding resolve_trust_path
resolve_complete fs path required_uid canonical t =
    rw
      (
        (validate_components_iff fs required_uid true path).1 t.written,
        t.resolved,
        (validate_components_iff fs required_uid false canonical).1 t.unlinked,
        t.described,
        t.regular,
      )
      refl

dotted-segment : (segment : Bytes) → (bytes_eq segment (codes "..") ≡ true) ↔ (segment ≡ codes "..")
dotted-segment segment = (
  λ h. bytes_eq_sound segment (codes "..") h,
  λ e. ap (λ s. bytes_eq s (codes "..")) e ∙ bytes_eq_refl (codes ".."),
)

segments-undotted :
    (segments : List Bytes)
    → (any (λ segment. bytes_eq segment (codes "..")) segments ≡ false)
      ↔ All (λ segment. segment ≢ codes "..") segments
segments-undotted [] = (λ _. tt, λ _. refl)
segments-undotted (segment ∷ rest) = ground (arith, dotted-segment segment, segments-undotted rest)

slash-undotted :
    (s : Bytes)
    → (any is_dotted (components (b'/' ∷ s)) ≡ false)
      ↔ All (λ segment. segment ≢ codes "..") (split_slash (b'/' ∷ s))
unfolding split_slash
slash-undotted s = rw (is_dotted_absolute s) (
  λ h. ((λ e. cc), (segments-undotted (split_slash s)).0 h),
  λ h. (segments-undotted (split_slash s)).1 h.1,
)

-- For an absolute path the test of its components is one of its segments.
path-undotted :
    (path : Bytes)
    → is_absolute path ≡ true
    → (any is_dotted (components path) ≡ false)
      ↔ All (λ segment. segment ≢ codes "..") (split_slash path)
unfolding strip_prefix
path-undotted [] absolute = absurd (cc)
path-undotted (c ∷ s) absolute =
    let same : c ≡ b'/' = ground arith in
    subst
      (λ c.
        (any is_dotted (components (c ∷ s)) ≡ false)
        ↔ All (λ segment. segment ≢ codes "..") (split_slash (c ∷ s)))
      (sym same) (slash-undotted s)

-- `validate_trust_path` returns a canonical path exactly if the path is absolute and none of its
-- segments is `..`; each of its prefixes belongs to the required user and is a link, or not writable
-- for the group and the others, or `/nix/store` with the sticky bit; and it resolves to that path,
-- which is a regular file all of whose prefixes are of that owner and no links, and not writable for
-- the group and the others or `/nix/store` with the sticky bit.
pub validate_trust_path_iff :
    (fs : FileSystem) (path : Bytes) (required_uid : ℕ) (canonical : Bytes)
    → (validate_trust_path fs path required_uid ≡ ok canonical)
      ↔ IsTrustedPath fs path required_uid canonical
unfolding validate_trust_path
validate_trust_path_iff fs path required_uid canonical = (
  λ h.
      let absolute : is_absolute path ≡ true = ground arith in
      resolve-IsTrustedPath fs path required_uid canonical absolute
        ((path-undotted path absolute).0 (ground arith)) (ground arith),
  λ t. ground (
    arith,
    t.absolute,
    (path-undotted path t.absolute).1 t.undotted,
    resolve_complete fs path required_uid canonical t,
  ),
)
