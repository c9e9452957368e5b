-- ===== src/Filter/Files/Bounds.antt =====
-- What strict mode reads: the whole of a bounded file, and the file that was checked.
use pam_ssh_agent.Common.{
  Result, if◌then◌else◌, not, ◌||◌, ◌==◌, changed_while_opening, ℕ, ◌+◌, ◌≤◌, ◌<◌, Bytes, length,
  length-take, take, bail, too_many_bytes, ok, from_utf8, from_utf8-eq-ok, ◌≡◌, ◌↔◌, sym, ap, ◌∙◌,
  subst, arith, >>=-eq-ok,
}
use pam_ssh_agent.Filter.Paths.{Metadata, Reader, File, FileSystem, validate_trust_path}
use pam_ssh_agent.Filter.Paths.Trusted.{IsTrustedPath, validate_trust_path_iff}
use pam_ssh_agent.Filter.Files.{max_policy_bytes, read_at_most, read_bounded, read_strict_file}

read_at_most-ok :
    (limit : ℕ) (reader : Reader) {bytes : Bytes}
    → read_at_most limit reader ≡ ok bytes
    → length bytes < limit
    → (bytes ≡ reader.contents) × (reader.ending ≡ ok tt)
unfolding read_at_most
read_at_most-ok limit reader h lt = ground (arith, length-take {0} limit reader.contents)

read_at_most-long :
    (limit : ℕ) (reader : Reader)
    → limit ≤ length reader.contents
    → read_at_most limit reader ≡ ok (take limit reader.contents)
unfolding read_at_most
read_at_most-long limit reader h = ground arith

-- A policy that is read is the reader's whole contents, read to its end without an error, is valid
-- UTF-8 and has at most 1 MiB.
pub read_bounded-ok :
    (reader : Reader) {text : Bytes}
    → read_bounded reader ≡ ok text
    → (text ≡ reader.contents)
      × (reader.ending ≡ ok tt)
      × (from_utf8 text ≡ ok text)
      × (length text ≤ max_policy_bytes)
unfolding read_bounded
read_bounded-ok reader {text} h =
    let (bytes, e, k) = >>=-eq-ok (read_at_most (max_policy_bytes + 1) reader) _ h in
    let short : length bytes ≤ max_policy_bytes = ground arith in
    let valid : from_utf8 bytes ≡ ok text = ground arith in
    let same = from_utf8-eq-ok bytes valid in
    let (whole, ended) = read_at_most-ok (max_policy_bytes + 1) reader e (omega arith) in
    (sym same ∙ whole, ended, subst (λ t. from_utf8 t ≡ ok text) same valid, rw (← same) short)

read_at_most-whole :
    (limit : ℕ) (reader : Reader)
    → length reader.contents < limit
    → reader.ending ≡ ok tt
    → read_at_most limit reader ≡ ok reader.contents
unfolding read_at_most
read_at_most-whole limit reader short ended = ground arith

read_bounded-short :
    (reader : Reader)
    → length reader.contents ≤ max_policy_bytes
    → reader.ending ≡ ok tt
    → read_bounded reader ≡ from_utf8 reader.contents
unfolding read_bounded
read_bounded-short reader short ended =
    rw (read_at_most-whole (max_policy_bytes + 1) reader (omega arith) ended) (ground arith)

-- A text is read exactly if it is the reader's whole contents, which end without an error, are
-- valid UTF-8 and have at most 1 MiB.
read_bounded_iff :
    (reader : Reader) (text : Bytes)
    → (read_bounded reader ≡ ok text) ↔ (
        (text ≡ reader.contents)
        × (reader.ending ≡ ok tt)
        × (from_utf8 text ≡ ok text)
        × (length text ≤ max_policy_bytes))
read_bounded_iff reader text = (
  λ h. read_bounded-ok reader h,
  λ (whole, ended, valid, bounded).
      read_bounded-short reader (subst (λ t. length t ≤ max_policy_bytes) whole bounded) ended
      ∙ ap from_utf8 (sym whole)
      ∙ valid,
)

-- A longer reader is refused, whatever comes behind the limit.
pub read_bounded-too_long :
    (reader : Reader)
    → max_policy_bytes < length reader.contents
    → read_bounded reader ≡ bail too_many_bytes
unfolding read_bounded
read_bounded-too_long reader h =
    rw (read_at_most-long (max_policy_bytes + 1) reader h)
      (ground (arith, length-take {0} (max_policy_bytes + 1) reader.contents))

-- Where the text of a strict policy comes from: the regular file that the trusted path resolves
-- to, opened as the file that was checked, read whole, as valid UTF-8.
pub record IsStrictText (fs : FileSystem) (path : Bytes) (required_uid : ℕ) (text : Bytes)
    : Type 0 where
  pub canonical : Bytes
  pub trusted : IsTrustedPath fs path required_uid canonical
  pub expected : Metadata
  pub checked : fs.metadata canonical ≡ ok expected
  pub file : File
  pub opened : fs.open_file canonical ≡ ok file
  pub actual : Metadata
  pub described : file.metadata ≡ ok actual
  pub same_dev : expected.dev ≡ actual.dev
  pub same_ino : expected.ino ≡ actual.ino
  pub whole : text ≡ file.reader.contents
  pub ended : file.reader.ending ≡ ok tt
  pub valid : from_utf8 text ≡ ok text
  pub bounded : length text ≤ max_policy_bytes

module _ (fs : FileSystem) (path : Bytes) (required_uid : ℕ) {text : Bytes} where
  read_strict_file-ok :
      read_strict_file fs path required_uid ≡ ok text → IsStrictText fs path required_uid text
  unfolding read_strict_file
  read_strict_file-ok h =
      let (canonical, e, k) = >>=-eq-ok (validate_trust_path fs path required_uid) _ h in
      let (expected, e', k') = >>=-eq-ok (fs.metadata canonical) _ k in
      let (file, e'', k'') = >>=-eq-ok (fs.open_file canonical) _ k' in
      let (actual, e3, k3) = >>=-eq-ok file.metadata _ k'' in
      let read : read_bounded file.reader ≡ ok text = ground arith in
      let (whole, ended, valid, bounded) = read_bounded-ok file.reader {text = text} read in
      record {
        canonical = canonical;
        trusted = (validate_trust_path_iff fs path required_uid canonical).0 e;
        expected = expected;
        checked = e';
        file = file;
        opened = e'';
        actual = actual;
        described = e3;
        same_dev = ground arith;
        same_ino = ground arith;
        whole = whole;
        ended = ended;
        valid = valid;
        bounded = bounded;
      }

  IsStrictText-read_strict_file :
      IsStrictText fs path required_uid text → read_strict_file fs path required_uid ≡ ok text
  unfolding read_strict_file
  IsStrictText-read_strict_file t =
      rw
        (
          (validate_trust_path_iff fs path required_uid t.canonical).1 t.trusted,
          t.checked,
          t.opened,
          t.described,
        )
        (same_file (t.same_dev) (t.same_ino)
          ((read_bounded_iff t.file.reader text).1 (t.whole, t.ended, t.valid, t.bounded)))
    where
      same_file :
          {a b c d : ℕ} {r : Result Bytes}
          → a ≡ b
          → c ≡ d
          → r ≡ ok text
          → (if not (a == b) || not (c == d) then bail changed_while_opening else r) ≡ ok text
      same_file e e' h = ground arith

  -- A strict policy file is read as a text exactly if its path is trusted, the file that is opened
  -- is the file (device and inode) that was checked, and the text is its whole contents, which end
  -- without an error, are valid UTF-8 and have at most 1 MiB.
  pub read_strict_file_iff :
      (read_strict_file fs path required_uid ≡ ok text) ↔ IsStrictText fs path required_uid text
  read_strict_file_iff = (λ h. read_strict_file-ok h, λ t. IsStrictText-read_strict_file t)
