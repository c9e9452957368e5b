-- ===== src/Expansions/Laws.antt =====
-- What the expansions do, on every branch.
use pam_ssh_agent.Common.{
  subst, ◌↔◌, ℕ, ◌+◌, Bytes, codes, [], ◌∷◌, ◌++◌, none, some, length, take, drop, find,
  contains-Lacks, find-Lacks, find-split, find-append_byte, find-append_pair, find-none_pair,
  take-append, drop-append, drop-add, Lacks, All-append, Result, ok, err, Error, ◌≡◌, refl, sym, ap,
  ◌∙◌, ◌≢◌, ◌⊎◌, inl, inr, arith, Option-cases, ok_injective,
}
use pam_ssh_agent.Environment.{Environment, PamHandleExt}
use pam_ssh_agent.Expansions.{
  until_slash, get_username, expand_var, expand_homedir, get_home, expand_vars,
}

-- Without an occurrence nothing is asked of the environment, and the text stays.
expand_var-absent :
    (input p : Bytes) (value : Result Bytes)
    → find input p ≡ none
    → expand_var input p value ≡ ok input
unfolding expand_var
expand_var-absent input p value h = rw (h, expand_var)

replaced :
    (pre p post v : Bytes)
    → take (length pre) (pre ++ (p ++ post))
        ++ (v ++ drop (length pre + length p) (pre ++ (p ++ post)))
      ≡ pre ++ (v ++ post)
replaced pre p post v = rw (take-append, drop-add, drop-append, drop-append) refl

-- At the first occurrence, the pattern alone is replaced.
expand_var_at :
    (pre p post : Bytes) (v : Bytes)
    → find (pre ++ (p ++ post)) p ≡ some (length pre)
    → expand_var (pre ++ (p ++ post)) p (ok v) ≡ ok (pre ++ (v ++ post))
unfolding expand_var
expand_var_at pre p post v h = rw (h, expand_var) (ap ok (replaced pre p post v))

-- A failing lookup fails the expansion if there is an occurrence.
expand_var_fails :
    (input p : Bytes) (e : Error) {i : ℕ}
    → find input p ≡ some i
    → expand_var input p (err e) ≡ err e
unfolding expand_var
expand_var_fails input p e h = rw (h, expand_var)

-- The rest of a text after a user name: empty, or a `/` and more.
abbrev pub EndsUser : Bytes → Type 0
EndsUser [] = Unit
EndsUser (c ∷ _) = c ≡ b'/'

until_slash-append :
    (user rest : Bytes) → Lacks b'/' user → EndsUser rest → until_slash (user ++ rest) ≡ user
unfolding until_slash
until_slash-append [] [] h e = refl
until_slash-append [] (c ∷ rest) h e = ground arith
until_slash-append (c ∷ user) rest h e = ground (arith, until_slash-append user rest h.1 e)

get_username_at :
    (pre user rest : Bytes)
    → Lacks b'/' user
    → EndsUser rest
    → get_username (pre ++ b'~' ∷ (user ++ rest)) (length pre) ≡ user
unfolding get_username
get_username_at pre user rest plain ends =
    rw (drop-add, drop-append) (until_slash-append user rest plain ends)

-- `~user` is replaced by what the closure returns for the user name, up to a `/` or the end.
expand_homedir_at :
    (pre user rest : Bytes) (get_homedir : Bytes → Result Bytes) (home : Bytes)
    → Lacks b'~' pre
    → Lacks b'/' user
    → EndsUser rest
    → get_homedir user ≡ ok home
    → expand_homedir (pre ++ b'~' ∷ (user ++ rest)) get_homedir ≡ ok (pre ++ (home ++ rest))
unfolding expand_homedir
expand_homedir_at pre user rest get_homedir home lacks plain ends found =
    rw
      (
        find-append_byte pre (user ++ rest) b'~' lacks,
        expand_homedir,
        get_username_at pre user rest plain ends,
        found,
      )
      (ap ok (
        rw
          (
            take-append pre (b'~' ∷ (user ++ rest)),
            drop-add,
            drop-add,
            drop-append,
            drop-append user rest,
          )
          refl))

expand_homedir-absent :
    (input : Bytes) (get_homedir : Bytes → Result Bytes)
    → Lacks b'~' input
    → expand_homedir input get_homedir ≡ ok input
unfolding expand_homedir
expand_homedir-absent input g h = rw (find-Lacks input b'~' [] h, expand_homedir)

expand_var-Lacks :
    (input : Bytes) (c : ℕ) (value : Result Bytes)
    → Lacks b'%' input
    → expand_var input (b'%' ∷ c ∷ []) value ≡ ok input
expand_var-Lacks input c value h =
    expand_var-absent input (b'%' ∷ c ∷ []) value (find-Lacks input b'%' (c ∷ []) h)

-- A text without `~` and `%` is passed on, whatever the environment and the handle answer.
pub expand_vars-plain :
    (input : Bytes) (env : Environment) (handle : PamHandleExt)
    → Lacks b'~' input
    → Lacks b'%' input
    → expand_vars input env handle ≡ ok input
unfolding expand_vars
expand_vars-plain input env handle tilde percent = simp (
  expand_homedir-absent input (get_home env handle) tilde,
  λ (c : ℕ) (value : Result Bytes). expand_var-Lacks input c value percent,
)

-- A path with one `%u` and no other variable gets the user's name there. Nothing else is asked of
-- the environment.
pub expand_vars_user :
    (pre post user : Bytes) (env : Environment) (handle : PamHandleExt)
    → Lacks b'~' (pre ++ b'%' ∷ b'u' ∷ post)
    → Lacks b'%' pre
    → Lacks b'%' post
    → Lacks b'%' user
    → handle.get_calling_user ≡ ok user
    → expand_vars (pre ++ b'%' ∷ b'u' ∷ post) env handle ≡ ok (pre ++ (user ++ post))
unfolding expand_vars
expand_vars_user pre post user env handle tilde hp hq hu known =
    rw
      (
        expand_homedir-absent (pre ++ b'%' ∷ b'u' ∷ post) (get_home env handle) tilde,
        other b'h' _ (omega arith),
        other b'H' env.get_hostname (omega arith),
        known,
        expand_var_at pre (codes "%u") post user first,
        expand_var-Lacks (pre ++ (user ++ post)) b'f' env.get_fqdn clean,
        expand_var-Lacks (pre ++ (user ++ post)) b'U' _ clean,
      )
      refl
  where
    other :
        (c : ℕ) (value : Result Bytes)
        → b'u' ≢ c
        → expand_var (pre ++ b'%' ∷ b'u' ∷ post) (b'%' ∷ c ∷ []) value
          ≡ ok (pre ++ b'%' ∷ b'u' ∷ post)
    other c value ne =
        expand_var-absent (pre ++ b'%' ∷ b'u' ∷ post) (b'%' ∷ c ∷ []) value
          (find-none_pair pre post b'%' b'u' c hp hq (omega arith) ne)

    first : find (pre ++ b'%' ∷ b'u' ∷ post) (codes "%u") ≡ some (length pre)
    first =
        find-append_pair pre post b'%' b'u' (omega arith) (contains-Lacks pre b'%' (b'u' ∷ []) hp)

    clean : Lacks b'%' (pre ++ (user ++ post))
    clean =
        All-append (λ c. c ≢ b'%') pre (user ++ post) hp
          (All-append (λ c. c ≢ b'%') user post hu hq)

-- What an expansion is: the text has no occurrence and stays, or its first occurrence is replaced
-- by the value and what stands before and behind it stays.
abbrev pub IsExpanded : Bytes → Bytes → Result Bytes → Bytes → Type 0
IsExpanded input p value out =
    ((find input p ≡ none) × (out ≡ input))
    ⊎ ((pre post v : Bytes) × (input ≡ pre ++ (p ++ post))
        × (find input p ≡ some (length pre))
        × (value ≡ ok v)
        × (out ≡ pre ++ (v ++ post)))

expand_var-ok :
    (input p : Bytes) (value : Result Bytes) {out : Bytes}
    → expand_var input p value ≡ ok out
    → IsExpanded input p value out
expand_var-ok input p value {out} h = elim (Option-cases (find input p)) [
  | inl absent ↦
      inl (absent, ok_injective out input (sym h ∙ expand_var-absent input p value absent))
  | inr (i, found) ↦ inr (occurrence value h (find-split input p found) found)
]
  where
    occurrence :
        {i : ℕ} (value : Result Bytes)
        → expand_var input p value ≡ ok out
        → ((pre post : Bytes) × (input ≡ pre ++ (p ++ post)) × (length pre ≡ i))
        → find input p ≡ some i
        → (pre post v : Bytes) × (input ≡ pre ++ (p ++ post))
          × (find input p ≡ some (length pre))
          × (value ≡ ok v)
          × (out ≡ pre ++ (v ++ post))
    occurrence (err e) h cut found = absurd (cc (expand_var_fails input p e found))
    occurrence (ok v) h (pre, post, cut, len) found =
        (pre, post, v, cut, found ∙ ap some (sym len), refl, cc (expand_var_at pre p post v (cc)))

IsExpanded-expand_var :
    (input p : Bytes) (value : Result Bytes) {out : Bytes}
    → IsExpanded input p value out
    → expand_var input p value ≡ ok out
IsExpanded-expand_var input p value (inl (absent, same)) =
    expand_var-absent input p value absent ∙ ap ok (sym same)
IsExpanded-expand_var input p value (inr (pre, post, v, cut, found, known, same)) =
    rw (known, cut)
      (expand_var_at pre p post v (subst (λ s. find s p ≡ some (length pre)) cut found)
        ∙ ap ok (sym same))

-- The expansion of a variable gives a text exactly if the variable does not occur and the text is
-- the same, or its value is there and the text is the one in which it stands in the place of the
-- first occurrence, with nothing else changed.
pub expand_var_iff :
    (input p : Bytes) (value : Result Bytes) (out : Bytes)
    → (expand_var input p value ≡ ok out) ↔ IsExpanded input p value out
expand_var_iff input p value out =
    (λ h. expand_var-ok input p value h, λ e. IsExpanded-expand_var input p value e)
