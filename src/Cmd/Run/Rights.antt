-- ===== src/Cmd/Run/Rights.antt =====
-- The calls of `pre_exec`, by which the child gives up its rights.
use pam_ssh_agent.Common.{
  ℕ, List, [], ◌∷◌, ◌++◌, append-nil, append_assoc, Bool, true, false, if◌then◌else◌, ok, >>=-eq-ok,
  ok_injective, ◌≡◌, ◌↔◌, refl, sym, ap, ◌∙◌, subst,
}
use pam_ssh_agent.Cmd.Run.{
  Syscall, set_process_limit, set_groups, set_gid, set_uid, System, call, pre_exec,
}

-- No processes of its own, no further groups, then the group and the user.
abbrev pub lowered : Bool → Bool → ℕ → ℕ → List Syscall
lowered prevent_descendants clear_groups gid uid =
    (if prevent_descendants then set_process_limit 0 ∷ [] else [])
    ++ ((if clear_groups then set_groups [] ∷ [] else []) ++ set_gid gid ∷ set_uid uid ∷ [])

module _ (s : System) where
  -- The system does all of the calls, one behind the other.
  abbrev pub AllAnswered : List Syscall → List Syscall → Type 0
  AllAnswered before [] = Unit
  AllAnswered before (c ∷ calls) =
      (s.answer before c ≡ ok tt) × AllAnswered (before ++ c ∷ []) calls

  AllAnswered-append :
      (before xs ys : List Syscall)
      → AllAnswered before (xs ++ ys) ↔ (AllAnswered before xs × AllAnswered (before ++ xs) ys)
  AllAnswered-append before [] ys = (
    λ h. (tt, subst (λ b. AllAnswered b ys) (sym (append-nil before)) h),
    λ (_, h). subst (λ b. AllAnswered b ys) (append-nil before) h,
  )
  AllAnswered-append before (c ∷ xs) ys =
      let same = append_assoc before (c ∷ []) xs in
      let (split, join) = AllAnswered-append (before ++ c ∷ []) xs ys in
      (
        λ (h, others).
            let (first, second) = split others in
            ((h, first), subst (λ b. AllAnswered b ys) same second),
        λ ((h, first), second). (h, join (first, subst (λ b. AllAnswered b ys) (sym same) second)),
      )

  call-Answered :
      (c : Syscall) (before : List Syscall) {calls : List Syscall}
      → call s c before ≡ ok calls
      → (s.answer before c ≡ ok tt) × (calls ≡ before ++ c ∷ [])
  unfolding call
  call-Answered c before h =
      let (_, done, k) = >>=-eq-ok (s.answer before c) _ h in (done, sym (ok_injective _ _ k))

  call_if-Answered :
      (b : Bool) (c : Syscall) (before : List Syscall) {calls : List Syscall}
      → (if b then call s c before else ok before) ≡ ok calls
      → AllAnswered before (if b then c ∷ [] else [])
        × (calls ≡ before ++ (if b then c ∷ [] else []))
  call_if-Answered true c before h =
      let (done, same) = call-Answered c before h in ((done, tt), same)
  call_if-Answered false c before h = (tt, sym (ok_injective _ _ h) ∙ sym (append-nil before))

  call_if_complete :
      (b : Bool) (c : Syscall) (before : List Syscall)
      → AllAnswered before (if b then c ∷ [] else [])
      → (if b then call s c before else ok before) ≡ ok (before ++ (if b then c ∷ [] else []))
  unfolding call
  call_if_complete true c before (done, _) = rw done refl
  call_if_complete false c before _ = ap ok (sym (append-nil before))

  module _ (prevent clear : Bool) (gid uid : ℕ) where
    abbrev limits : List Syscall
    limits = if prevent then set_process_limit 0 ∷ [] else []

    abbrev groups : List Syscall
    groups = if clear then set_groups [] ∷ [] else []

    -- A child that is started has made all these calls, in their order, with success.
    pub pre_exec-Answered :
        {calls : List Syscall}
        → pre_exec s prevent clear gid uid ≡ ok calls
        → AllAnswered [] (lowered prevent clear gid uid) × (calls ≡ lowered prevent clear gid uid)
    unfolding pre_exec
    pre_exec-Answered h =
        let (limited, e, h1) =
          >>=-eq-ok (if prevent then call s (set_process_limit 0) [] else ok []) _ h in
        let (cleared, e', h2) =
          >>=-eq-ok (if clear then call s (set_groups []) limited else ok limited) _ h1 in
        let (grouped, e'', k) = >>=-eq-ok (call s (set_gid gid) cleared) _ h2 in
        let (a, a') = call_if-Answered prevent (set_process_limit 0) [] e in
        let (b, b') = call_if-Answered clear (set_groups []) limited e' in
        let (c, c') = call-Answered (set_gid gid) cleared e'' in
        let (d, d') = call-Answered (set_uid uid) grouped k in
        (
          (AllAnswered-append [] limits (groups ++ set_gid gid ∷ set_uid uid ∷ [])).1 (
            a,
            (AllAnswered-append limits groups (set_gid gid ∷ set_uid uid ∷ [])).1 (
              subst (λ x. AllAnswered x groups) a' b,
              (
                subst (λ x. s.answer x (set_gid gid) ≡ ok tt) (b' ∙ ap (λ x. x ++ groups) a') c,
                (
                  subst (λ x. s.answer x (set_uid uid) ≡ ok tt)
                      (c' ∙ ap (λ x. x ++ set_gid gid ∷ []) (b' ∙ ap (λ x. x ++ groups) a')) d,
                  tt,
                ),
              ),
            ),
          ),
          rw (d', c', b', a') (regroup limits groups),
        )
      where
        regroup :
            (xs ys : List Syscall)
            → ((xs ++ ys) ++ set_gid gid ∷ []) ++ set_uid uid ∷ []
              ≡ xs ++ (ys ++ set_gid gid ∷ set_uid uid ∷ [])
        regroup xs ys = simp (append_assoc)

    pub pre_exec_complete :
        AllAnswered [] (lowered prevent clear gid uid)
        → pre_exec s prevent clear gid uid ≡ ok (lowered prevent clear gid uid)
    unfolding pre_exec call
    pre_exec_complete h =
        let (a, h1) =
          (AllAnswered-append [] limits (groups ++ set_gid gid ∷ set_uid uid ∷ [])).0 h in
        let (b, (c, (d, _))) =
          (AllAnswered-append limits groups (set_gid gid ∷ set_uid uid ∷ [])).0 h1 in
        rw
          (
            call_if_complete prevent (set_process_limit 0) [] a,
            call_if_complete clear (set_groups []) limits b,
            c,
            d,
          )
          (ap ok (simp (append_assoc)))
