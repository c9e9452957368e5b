-- ===== src/Filter/Files.antt =====
-- src/filter.rs: `read_strict_file` and `read_bounded`; `fs::read_to_string`.
pub mod Bounds
use Prim.Native.Nat.{min}
use pam_ssh_agent.Common.{
  ℕ, suc, ◌+◌, ◌*◌, Bytes, List, Bool, not, ◌&&◌, ◌||◌, ◌==◌, ltb, leb, if◌then◌else◌, length, take,
  Result, ok, err, io, invalid_data, ◌>>=◌, ◌>>◌, bail, too_many_bytes, changed_while_opening,
  from_utf8,
}
use pam_ssh_agent.Filter.Paths.{Metadata, Reader, File, FileSystem, validate_trust_path}

abbrev pub max_policy_bytes : ℕ
max_policy_bytes = 1024 * 1024

-- `reader.take(limit).read_to_end(…)`: an error behind the limit is not met.
unfoldable pub read_at_most : ℕ → Reader → Result Bytes
read_at_most limit reader =
    if leb limit (length reader.contents)
    then ok (take limit reader.contents)
    else (do reader.ending; ok reader.contents)

unfoldable pub read_bounded : Reader → Result Bytes
read_bounded reader = do
  bytes ← read_at_most (max_policy_bytes + 1) reader
  if ltb max_policy_bytes (length bytes) then bail too_many_bytes else from_utf8 bytes

-- `fs::read_to_string`
unfoldable pub read_to_string : FileSystem → Bytes → Result Bytes
read_to_string fs path = do
  bytes ← fs.read path
  elim (from_utf8 bytes) [ ok text ↦ ok text | err _ ↦ err (io invalid_data) ]

unfoldable pub read_strict_file : FileSystem → Bytes → ℕ → Result Bytes
read_strict_file fs path required_uid = do
  canonical ← validate_trust_path fs path required_uid
  expected ← fs.metadata canonical
  file ← fs.open_file canonical
  actual ← file.metadata
  if not (expected.dev == actual.dev) || not (expected.ino == actual.ino)
      then bail changed_while_opening
      else read_bounded file.reader
