-- ===== src/Filter/Paths.antt =====
-- src/filter.rs: `validate_trust_path`, `validate_components` and `validate_mode`, over
-- `std::path` and the metadata of the file system.
pub mod Components
pub mod Trusted
use Prim.Native.Nat.{bit_and}
use pam_ssh_agent.Common.{
  ℕ, Bytes, codes, bytes_eq, List, [], ◌∷◌, ◌++◌, Bool, true, false, not, ◌&&◌, ◌||◌, ◌==◌, any,
  if◌then◌else◌, starts_with, Result, ok, err, ◌>>=◌, ◌>>◌, bail, path_not_normalized, wrong_owner,
  contains_symlink, writable, not_regular_file,
}

pub record Metadata : Type 0 where
  pub dev : ℕ
  pub ino : ℕ
  pub uid : ℕ
  pub mode : ℕ
  pub is_symlink : Bool
  pub is_file : Bool

-- What a reader yields: its bytes, and then its end or an error.
pub record Reader : Type 0 where
  pub contents : Bytes
  pub ending : Result (Unit {0})

-- An open file: the metadata and the contents behind its descriptor.
pub record File : Type 0 where
  pub metadata : Result Metadata
  pub reader : Reader

-- The file system, at the calls that the program makes.
pub record FileSystem : Type 0 where
  pub read : Bytes → Result Bytes
  pub metadata : Bytes → Result Metadata
  pub symlink_metadata : Bytes → Result Metadata
  pub canonicalize : Bytes → Result Bytes
  pub open_file : Bytes → Result File

-- `std::path::Component` on Unix.
pub data Component : Type 0 where
  root_dir cur_dir parent_dir : Component
  normal : Bytes → Component

unfoldable pub extend : ℕ → List Bytes → List Bytes
extend c [] = (c ∷ []) ∷ []
extend c (segment ∷ rest) = (c ∷ segment) ∷ rest

-- The text between slashes.
unfoldable pub split_slash : Bytes → List Bytes
split_slash [] = [] ∷ []
split_slash (c ∷ s) = if c == b'/' then [] ∷ split_slash s else extend c (split_slash s)

-- Empty segments and `.` are passed over.
unfoldable pub body : List Bytes → List Component
body [] = []
body (segment ∷ rest) =
    if bytes_eq segment [] || bytes_eq segment (codes ".")
    then body rest
    else if bytes_eq segment (codes "..")
    then parent_dir ∷ body rest
    else normal segment ∷ body rest

-- At the start of a relative path a `.` is kept.
pub leading : List Bytes → List Component
leading [] = []
leading (segment ∷ rest) =
    if bytes_eq segment (codes ".") then cur_dir ∷ body rest else body (segment ∷ rest)

-- `Path::components`
unfoldable pub components : Bytes → List Component
components [] = []
components (c ∷ s) =
    if c == b'/' then root_dir ∷ body (split_slash s) else leading (split_slash (c ∷ s))

abbrev pub as_os_str : Component → Bytes
as_os_str root_dir = codes "/"
as_os_str cur_dir = codes "."
as_os_str parent_dir = codes ".."
as_os_str (normal name) = name

abbrev pub is_absolute : Bytes → Bool
is_absolute path = starts_with path (codes "/")

-- A separator is needed behind a text that does not end in one.
unfoldable pub needs_separator : Bytes → Bool
needs_separator [] = false
needs_separator (c ∷ []) = not (c == b'/')
needs_separator (c ∷ d ∷ s) = needs_separator (d ∷ s)

-- `PathBuf::push`
unfoldable pub push : Bytes → Bytes → Bytes
push current path =
    if is_absolute path
    then path
    else if needs_separator current
    then current ++ b'/' ∷ path
    else current ++ path

pub component_eq : Component → Component → Bool
component_eq root_dir root_dir = true
component_eq cur_dir cur_dir = true
component_eq parent_dir parent_dir = true
component_eq (normal a) (normal b) = bytes_eq a b
component_eq _ _ = false

pub components_eq : List Component → List Component → Bool
components_eq [] [] = true
components_eq (a ∷ as') (b ∷ bs) = component_eq a b && components_eq as' bs
components_eq _ _ = false

-- `==` on paths compares their components.
pub path_eq : Bytes → Bytes → Bool
path_eq a b = components_eq (components a) (components b)

unfoldable pub validate_mode : Bytes → Metadata → Result (Unit {0})
validate_mode path metadata =
    if bit_and metadata.mode 0o022 == 0
    then ok tt
    else if path_eq path (codes "/nix/store") && not (bit_and metadata.mode 0o1000 == 0)
    then ok tt
    else bail writable

unfoldable pub is_dotted : Component → Bool
is_dotted cur_dir = true
is_dotted parent_dir = true
is_dotted _ = false

module _ (fs : FileSystem) where
  -- The body of the loop of `validate_components`, at one prefix of the path.
  unfoldable pub validate_prefix : ℕ → Bool → Bytes → Result (Unit {0})
  validate_prefix required_uid allow_symlink current = do
    metadata ← fs.symlink_metadata current
    if not (metadata.uid == required_uid)
        then bail wrong_owner
        else if metadata.is_symlink
        then (if not allow_symlink then bail contains_symlink else ok tt)
        else validate_mode current metadata

  unfoldable pub validate_loop : ℕ → Bool → Bytes → List Component → Result (Unit {0})
  validate_loop required_uid allow_symlink current [] = ok tt
  validate_loop required_uid allow_symlink current (component ∷ rest) =
      let next = push current (as_os_str component) in
      validate_prefix required_uid allow_symlink next
      >> validate_loop required_uid allow_symlink next rest

  unfoldable pub validate_components : Bytes → ℕ → Bool → Result (Unit {0})
  validate_components path required_uid allow_symlink =
      validate_loop required_uid allow_symlink [] (components path)

  -- `validate_trust_path` behind its first test.
  unfoldable pub resolve_trust_path : Bytes → ℕ → Result Bytes
  resolve_trust_path path required_uid = do
    validate_components path required_uid true
    canonical ← fs.canonicalize path
    validate_components canonical required_uid false
    metadata ← fs.metadata canonical
    if not metadata.is_file then bail not_regular_file else ok canonical

  unfoldable pub validate_trust_path : Bytes → ℕ → Result Bytes
  validate_trust_path path required_uid =
      if not (is_absolute path) || any is_dotted (components path)
      then bail path_not_normalized
      else resolve_trust_path path required_uid
