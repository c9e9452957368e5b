-- ===== src/Args/Settings/Last.antt =====
-- `Args::parse` does what its description in two phases says.
use pam_ssh_agent.Common.{
  Bytes, codes, bytes_eq, List, [], ◌∷◌, Bool, ◌||◌, Option, none, some, any, Result, ok, err,
  ◌>>=◌, if◌then◌else◌, from_utf8, split_once, strip_prefix, Bool-cases, Option-cases, Result-cases,
  bail, could_not_split, inl, inr, ◌≡◌, refl, sym, ap, ◌∙◌, arith,
}
use pam_ssh_agent.Environment.{Environment, PamHandleExt}
use pam_ssh_agent.Expansions.{expand_vars}
use pam_ssh_agent.Args.{
  Locals, parse_timeout, set_parameter, note_per_user, expand_and_set, assign, interpret, step,
  parse_loop, check_strict, initial, parse, strict_flag, validate_trust_source_argument,
}
use pam_ssh_agent.Args.Settings.{
  Reading, file_field, default_ssh_auth_sock_field, ca_keys_file_field,
  authorized_keys_command_field, authorized_keys_command_user_field, read_parameter, read_expanded,
  read_per_user, read_assignment, read_argument, read_arguments, last_of, or_default, or_before,
  is_debug, is_shortcut, text_of, timeout_of, chosen,
}

any-cons :
    (p : Reading → Bool) (r : Reading) (rest : List Reading) (b : Bool)
    → (any p rest || (any p (r ∷ []) || b)) ≡ (any p (r ∷ rest) || b)
any-cons p r rest b = ground arith

or_default-cons :
    {A : Type 0} (says : Reading → Option A) (r : Reading) (rest : List Reading) (d : A)
    → or_default (last_of says rest) (or_default (last_of says (r ∷ [])) d)
      ≡ or_default (last_of says (r ∷ rest)) d
or_default-cons says r rest d = elim (Option-cases (last_of says rest)) [
  | inl nothing ↦ rw (nothing, last_of) refl
  | inr (a, later) ↦ rw (later, last_of) refl
]

or_before-cons :
    {A : Type 0} (says : Reading → Option A) (r : Reading) (rest : List Reading) (d : Option A)
    → or_before (last_of says rest) (or_before (last_of says (r ∷ [])) d)
      ≡ or_before (last_of says (r ∷ rest)) d
or_before-cons says r rest d = elim (Option-cases (last_of says rest)) [
  | inl nothing ↦ rw (nothing, last_of) refl
  | inr (a, later) ↦ rw (later, last_of) refl
]

-- One reading more in front.
chosen-cons :
    (l : Locals) (r : Reading) (rest : List Reading)
    → chosen (chosen l (r ∷ [])) rest ≡ chosen l (r ∷ rest)
unfolding chosen
chosen-cons l r rest i = record {
  args = record {
    debug = any-cons is_debug r rest l.debug i;
    file = or_default-cons (text_of file_field) r rest l.file i;
    default_ssh_auth_sock =
        or_before-cons (text_of default_ssh_auth_sock_field) r rest l.default_ssh_auth_sock i;
    ca_keys_file = or_before-cons (text_of ca_keys_file_field) r rest l.ca_keys_file i;
    authorized_keys_command =
        or_before-cons (text_of authorized_keys_command_field) r rest l.authorized_keys_command i;
    authorized_keys_command_user =
        or_before-cons (text_of authorized_keys_command_user_field) r rest
          l.authorized_keys_command_user i;
    strict = l.strict;
    sshd_shortcut = any-cons is_shortcut r rest l.sshd_shortcut i;
    agent_timeout = or_before-cons timeout_of r rest l.agent_timeout i;
  };
  file_is_per_user = or_default-cons (λ r. r.per_user) r rest l.file_is_per_user i;
}

bind_assoc :
    {A B D : Type 0} (x : Result A) (f : A → Result B) (g : B → Result D)
    → ((x >>= f) >>= g) ≡ (x >>= λ a. f a >>= g)
bind_assoc (ok a) f g = refl
bind_assoc (err e) f g = refl

-- What a parameter does to the fields, and to the note on `file=`.
set_parameter_lem :
    (key value : Bytes) (l : Locals) (noted : Option Bool)
    → (set_parameter key value l.args >>= λ a.
        ok (record { args = a; file_is_per_user = or_default noted l.file_is_per_user }))
      ≡ (read_parameter key value >>= λ s.
          ok (chosen l (record { per_user = noted; setting = s } ∷ [])))
unfolding set_parameter read_parameter chosen
set_parameter_lem key value l noted = elim (Bool-cases (bytes_eq key (codes "file"))) [
  | inl h ↦ rw h refl
  | inr h₁ ↦ rw h₁ (elim (Bool-cases (bytes_eq key (codes "default_ssh_auth_sock"))) [
    | inl h ↦ rw h refl
    | inr h₂ ↦ rw h₂ (elim (Bool-cases (bytes_eq key (codes "ca_keys_file"))) [
      | inl h ↦ rw h refl
      | inr h₃ ↦ rw h₃ (elim (Bool-cases (bytes_eq key (codes "authorized_keys_command"))) [
        | inl h ↦ rw h refl
        | inr h₄ ↦ rw h₄ (elim (Bool-cases (bytes_eq key (codes "authorized_keys_command_user"))) [
          | inl h ↦ rw h refl
          | inr h₅ ↦ rw h₅ (elim (Bool-cases (bytes_eq key (codes "agent_timeout"))) [
            | inl h ↦ rw h (elim (Result-cases (parse_timeout value)) [
              | inl (n, e) ↦ rw e refl
              | inr (error, e) ↦ rw e refl
            ])
            | inr h ↦ rw h refl
          ])
        ])
      ])
    ])
  ])
]

note_per_user_lem :
    (argument : Bytes) (before : Bool)
    → note_per_user argument before ≡ or_default (read_per_user argument) before
unfolding note_per_user read_per_user
note_per_user_lem argument before = elim (Option-cases (strip_prefix argument (codes "file="))) [
  | inl nothing ↦ rw (nothing, note_per_user, read_per_user) refl
  | inr (value, found) ↦ rw (found, note_per_user, read_per_user) refl
]

module _ (env : Environment) (handle : PamHandleExt) where
  expanded_lem :
      (expanded : Bytes) (l : Locals) (noted : Option Bool)
      → ((elim (split_once expanded b'=') [
        | none ↦ bail (could_not_split expanded)
        | some (key, value) ↦ set_parameter key value l.args
      ])
          >>= λ a. ok (record { args = a; file_is_per_user = or_default noted l.file_is_per_user }))
        ≡ (read_expanded expanded >>= λ s.
            ok (chosen l (record { per_user = noted; setting = s } ∷ [])))
  unfolding read_expanded
  expanded_lem expanded l noted = elim (Option-cases (split_once expanded b'=')) [
    | inl nothing ↦ rw (nothing, read_expanded) refl
    | inr ((key, value), cut) ↦ rw (cut, read_expanded) (set_parameter_lem key value l noted)
  ]

  -- One `key=value` argument.
  assign_lem :
      (argument : Bytes) (l : Locals)
      → assign env handle argument l
        ≡ (read_assignment l.strict env handle argument >>= λ r. ok (chosen l (r ∷ [])))
  unfolding assign expand_and_set read_assignment
  assign_lem argument l =
      elim (Result-cases (if l.strict then validate_trust_source_argument argument else ok tt)) [
        | inr (error, e) ↦ rw e refl
        | inl (tt, e) ↦ rw e (elim (Result-cases (expand_vars argument env handle)) [
          | inr (error, f) ↦ rw f refl
          | inl (expanded, f) ↦
              rw (f, note_per_user_lem argument l.file_is_per_user)
                (expanded_lem expanded l (read_per_user argument)
                  ∙ sym (bind_assoc (read_expanded expanded) _ _))
        ])
      ]

  interpret_lem :
      (argument : Bytes) (l : Locals)
      → interpret env handle argument l
        ≡ (read_argument l.strict env handle argument >>= λ r. ok (chosen l (r ∷ [])))
  unfolding interpret read_argument chosen
  interpret_lem argument l = elim (Bool-cases (bytes_eq argument (codes "debug"))) [
    | inl h ↦ rw h refl
    | inr h₁ ↦ rw h₁ (elim (Bool-cases (bytes_eq argument (codes "strict"))) [
      | inl h ↦ rw h refl
      | inr h₂ ↦ rw h₂ (elim (Bool-cases (bytes_eq argument (codes "sshd_shortcut"))) [
        | inl h ↦ rw h refl
        | inr h₃ ↦ rw h₃ (assign_lem argument l)
      ])
    ])
  ]

  -- A round of the loop whose argument is read, before the rest of the loop.
  read_next :
      (r : Reading) (rest : List Bytes) (l : Locals)
      → parse_loop env handle rest (chosen l (r ∷ [])) ≡ (
          read_arguments (chosen l (r ∷ [])).strict env handle rest >>= λ rs.
          ok (chosen (chosen l (r ∷ [])) rs))
      → parse_loop env handle rest (chosen l (r ∷ [])) ≡ (
          (read_arguments l.strict env handle rest >>= λ others. ok (r ∷ others)) >>= λ rs.
          ok (chosen l rs))
  unfolding chosen
  read_next r rest l h = elim (Result-cases (read_arguments l.strict env handle rest)) [
    | inl (rs, e) ↦ h ∙ rw e (ap ok (chosen-cons l r rs))
    | inr (error, e) ↦ h ∙ rw e refl
  ]

  parse_loop_lem :
      (args : List Bytes) (l : Locals)
      → parse_loop env handle args l
        ≡ (read_arguments l.strict env handle args >>= λ rs. ok (chosen l rs))
  unfolding parse_loop step read_arguments chosen
  parse_loop_lem [] l = refl
  parse_loop_lem (bytes ∷ rest) l = elim (Result-cases (from_utf8 bytes)) [
    | inr (error, e) ↦ rw e refl
    | inl (argument, e) ↦
        rw (e, interpret_lem argument l)
          (elim (Result-cases (read_argument l.strict env handle argument)) [
            | inr (error, f) ↦ rw f refl
            | inl (r, f) ↦ rw f (read_next r rest l (parse_loop_lem rest (chosen l (r ∷ []))))
          ])
  ]

-- `parse` reads each argument by itself, up to the first that cannot be read, whose error it
-- returns; then every field has what the last argument says that says something about it, or its
-- default, in whatever order the others come; and the tests of strict mode follow.
pub parse_by_last :
    (args : List Bytes) (env : Environment) (handle : PamHandleExt)
    → parse args env handle ≡ (
        read_arguments (strict_flag args) env handle args >>= λ rs.
        check_strict (chosen (initial (strict_flag args)) rs))
unfolding parse
parse_by_last args env handle =
    rw (parse_loop_lem env handle args (initial (strict_flag args)))
      (bind_assoc (read_arguments (strict_flag args) env handle args) _ _)
