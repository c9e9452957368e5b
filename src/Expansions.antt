-- ===== src/Expansions.antt =====
-- src/expansions.rs: `~` and `%`-variables in an argument. A closure `get_value` is its result: it
-- reads the environment and changes nothing.
pub mod Laws
use pam_ssh_agent.Common.{
  ℕ, ◌+◌, Bytes, codes, List, [], ◌∷◌, ◌++◌, Option, none, some, ◌==◌, if◌then◌else◌, is_empty,
  length, take, drop, find, Result, ok, ◌>>=◌, to_string,
}
use pam_ssh_agent.Environment.{Environment, PamHandleExt}

-- The text up to the first `/`.
unfoldable pub until_slash : Bytes → Bytes
until_slash [] = []
until_slash (c ∷ s) = if c == b'/' then [] else c ∷ until_slash s

unfoldable pub get_username : Bytes → ℕ → Bytes
unfolding until_slash
get_username input idx = until_slash (drop (idx + 1) input)

unfoldable pub expand_var : Bytes → Bytes → Result Bytes → Result Bytes
expand_var input pattern get_value = elim (find input pattern) [
  | none ↦ ok input
  | some idx ↦ do
    value ← get_value
    ok (take idx input ++ (value ++ drop (idx + length pattern) input))
]

unfoldable pub expand_homedir : Bytes → (Bytes → Result Bytes) → Result Bytes
expand_homedir input get_homedir = elim (find input (codes "~")) [
  | none ↦ ok input
  | some idx ↦
      let user = get_username input idx in
      do
        home ← get_homedir user
        ok (take idx input ++ (home ++ drop (idx + 1 + length user) input))
]

-- The closure `get_home` of `expand_vars`.
abbrev pub get_home : Environment → PamHandleExt → Bytes → Result Bytes
get_home env handle s = do
  user ← if is_empty s then handle.get_calling_user else ok s
  env.get_homedir user

unfoldable pub expand_vars : Bytes → Environment → PamHandleExt → Result Bytes
expand_vars input env handle = do
  input ← expand_homedir input (get_home env handle)
  input ← expand_var input (codes "%h") (do user ← handle.get_calling_user; env.get_homedir user)
  input ← expand_var input (codes "%H") env.get_hostname
  input ← expand_var input (codes "%u") handle.get_calling_user
  input ← expand_var input (codes "%f") env.get_fqdn
  expand_var input (codes "%U")
      (do user ← handle.get_calling_user; uid ← env.get_uid user; ok (to_string uid))
