-- ===== src/Pam/Users.antt =====
-- `validate_strict_user`: which names strict mode lets into a path.
use pam_ssh_agent.Common.{
  ℕ, Bytes, bytes_eq_sound, [], ◌∷◌, true, false, some, all, Lacks, ok, ok_or, unknown_local_user,
  ◌≡◌, ◌≢◌, refl, arith, >>=-eq-ok,
}
use pam_ssh_agent.Environment.Unix.{User, Host}
use pam_ssh_agent.Pam.{is_plain, is_ascii_alphanumeric, resolve_strict_user, validate_strict_user}

all-Lacks :
    (b : ℕ) (name : Bytes) → is_plain b ≡ false → all (λ c. is_plain c) name ≡ true → Lacks b name
all-Lacks b [] other h = tt
all-Lacks b (c ∷ name) other h =
    let here : is_plain c ≡ true = ground arith in (λ e. cc, all-Lacks b name other (ground arith))

-- The bytes that would lead out of a path's segment, or be expanded.
special_bytes :
    (is_plain b'/' ≡ false)
    × (is_plain b'.' ≡ false)
    × (is_plain b'%' ≡ false)
    × (is_plain b'~' ≡ false)
unfolding is_plain is_ascii_alphanumeric
special_bytes = (refl, refl, refl, refl)

-- A name that strict mode accepts is not empty, has no `/`, `.`, `%` or `~`, so that it is one
-- plain segment of a path and is not expanded again, and is the name of a local account with the
-- returned uid.
pub record IsLocalUser (host : Host) (name : Bytes) (uid : ℕ) : Type 0 where
  pub named : name ≢ []
  pub no_slash : Lacks b'/' name
  pub no_dot : Lacks b'.' name
  pub no_percent : Lacks b'%' name
  pub no_tilde : Lacks b'~' name
  pub user : User
  pub known : host.get_user_by_name name ≡ some user
  pub same_name : user.name ≡ name
  pub same_uid : user.uid ≡ uid

empty_refused :
    (host : Host) (name : Bytes) {uid : ℕ} → name ≡ [] → validate_strict_user host name ≡ ok uid → ⊥
unfolding validate_strict_user
empty_refused host [] e h = cc
empty_refused host (c ∷ name) e h = cc

-- Every account that `validate_strict_user` returns is a local account with a plain name.
pub validate_strict_user-IsLocalUser :
    (host : Host) (name : Bytes) {uid : ℕ}
    → validate_strict_user host name ≡ ok uid
    → IsLocalUser host name uid
unfolding validate_strict_user resolve_strict_user
validate_strict_user-IsLocalUser host name {uid} h =
    let plain : all (λ c. is_plain c) name ≡ true = ground arith in
    let lookup : resolve_strict_user host name ≡ ok uid = ground arith in
    let (user, found, k) =
      >>=-eq-ok (ok_or (host.get_user_by_name name) unknown_local_user) _ lookup in
    record {
      named = λ e. absurd (empty_refused host name e h);
      no_slash = all-Lacks b'/' name special_bytes.0 plain;
      no_dot = all-Lacks b'.' name special_bytes.1 plain;
      no_percent = all-Lacks b'%' name special_bytes.2 plain;
      no_tilde = all-Lacks b'~' name special_bytes.3 plain;
      user = user;
      known = ground arith;
      same_name = bytes_eq_sound user.name name (ground arith);
      same_uid = ground arith;
    }
