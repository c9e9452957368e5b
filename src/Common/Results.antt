-- ===== src/Common/Results.antt =====
-- `anyhow::Result`: an error keeps what the callers look at (the io kind, the agent's
-- RemoteFailure); a text is kept by what it says.
use Prim.Native.Nat.{ℕ}
use mathlib.Core.Path.{◌≡◌, refl}
use mathlib.Core.Option.{Option, none, some}
use mathlib.Core.Bool.{Bool, true, false}
use mathlib.Core.Logic.{◌⊎◌, inl, inr}
use pam_ssh_agent.Common.Tests.{if◌then◌else◌}
use pam_ssh_agent.Common.Text.{Bytes}

-- The kinds of `std::io::ErrorKind` that the program names.
pub data IoKind : Type 0 where
  not_found timed_out would_block interrupted invalid_input invalid_data : IoKind
  other_kind : ℕ → IoKind

-- The texts given to `anyhow!`.
pub data Message : Type 0 where
  could_not_split unknown_parameter home_expanded : Bytes → Message
  timeout_out_of_range file_not_per_user relative_helper expanded_helper : Message
  unsupported_options too_many_entries too_many_bytes malformed_entry : Message
  path_not_normalized wrong_owner contains_symlink writable not_regular_file : Message
  changed_while_opening : Message
  failed_stdout failed_stderr command_timed_out : Message
  empty_command relative_executable no_nobody_group missing_pipe missing_status : Message
  nonzero_exit : Option ℕ → Message
  no_rsa_hash unsupported_rsa_hash foreign_rsa_signature unsupported_key unsupported_signature :
      Message
  no_random_data invalid_sk_format sk_flags_missing : Message
  not_plain_user unknown_local_user user_mismatch root_helper : Message
  no_key_matched no_agent_socket bad_agent_variable unknown_user no_hostname : Message
  missing_item invalid_path : Message

pub data Error : Type 0 where
  io : IoKind → Error
  remote_failure utf8_error parse_int_error signature_error : Error
  -- an error of a crate outside the repository
  foreign : ℕ → Error
  message : Message → Error

-- `anyhow::Result<T>`
pub data Result {ℓ} (T : Type ℓ) : Type ℓ where
  ok : T → Result T
  err : Error → Result T

abbrev pub bail {ℓ} : {T : Type ℓ} → Message → Result T
bail m = err (message m)

-- `?`: what follows is done only behind a success.
infixl 5 ◌>>=◌
abbrev pub ◌>>=◌ {ℓ κ} : {T : Type ℓ} {U : Type κ} → Result T → (T → Result U) → Result U
err error >>= next = err error
ok value >>= next = next value

infixl 5 ◌>>◌
abbrev pub ◌>>◌ {κ} : {U : Type κ} → Result (Unit {0}) → Result U → Result U
check >> next = check >>= λ _. next

-- `ok_or_else`
abbrev pub ok_or {ℓ} : {A : Type ℓ} → Option A → Message → Result A
ok_or none m = bail m
ok_or (some a) m = ok a

-- A success behind `?` comes of two successes.
pub >>=-eq-ok {ℓ κ} :
    {T : Type ℓ} {U : Type κ} (first : Result T) (next : T → Result U) {u : U}
    → (first >>= next) ≡ ok u
    → (value : T) × (first ≡ ok value) × (next value ≡ ok u)
>>=-eq-ok (err error) next h = absurd (cc)
>>=-eq-ok (ok value) next h = (value, refl, h)

pub ok_injective {ℓ} : {A : Type ℓ} (a b : A) → ok a ≡ ok b → a ≡ b
ok_injective a b h = cc

-- A check that is made only under a condition.
pub check_if :
    (b : Bool) (r : Result (Unit {0})) {u : Unit {0}}
    → (if b then r else ok tt) ≡ ok u
    → b ≡ true
    → r ≡ ok tt
check_if true r h _ = h
check_if false r h e = cc

pub Result-cases {ℓ} :
    {A : Type ℓ} (r : Result A) → ((a : A) × (r ≡ ok a)) ⊎ ((e : Error) × (r ≡ err e))
Result-cases (ok a) = inl (a, refl)
Result-cases (err e) = inr (e, refl)
