-- ===== src/Cmd/Output.antt =====
-- `drain_output`: what is collected, and how much of it.
use pam_ssh_agent.Common.{
  ℕ, ◌+◌, ◌≤◌, Bytes, [], ◌∷◌, ◌++◌, append_assoc, append-nil, Bool, true, false, ltb, length,
  length-append, Bool-cases, ok, err, io, IoKind, would_block, interrupted, invalid_data, subst,
  ◌≡◌, inl, inr, refl, sym, ap, ◌∙◌, arith,
}
use pam_ssh_agent.Cmd.{max_output_bytes, received, failed, Stream, Collected, drain_output}

-- The bytes that a series of reads has received.
abbrev pub payload : Stream → Bytes
payload [] = []
payload (received chunk ∷ rest) = chunk ++ payload rest
payload (failed _ ∷ rest) = payload rest

-- What a call has read of a pipe, and what it has kept.
pub record IsDrained (stream : Stream) (output : Bytes) (after : Collected) : Type 0 where
  pub taken : Stream
  pub split : stream ≡ taken ++ after.stream
  pub kept : after.output ≡ output ++ payload taken

IsDrained-received :
    (chunk : Bytes) (rest : Stream) (output : Bytes) (after : Collected)
    → IsDrained rest (output ++ chunk) after
    → IsDrained (received chunk ∷ rest) output after
IsDrained-received chunk rest output after d = record {
  taken = received chunk ∷ d.taken;
  split = ap (λ s. received chunk ∷ s) d.split;
  kept = d.kept ∙ append_assoc output chunk (payload d.taken);
}

IsDrained-failed :
    (kind : IoKind) (rest : Stream) (output : Bytes) (after : Collected)
    → IsDrained rest output after
    → IsDrained (failed kind ∷ rest) output after
IsDrained-failed kind rest output after d = record {
  taken = failed kind ∷ d.taken;
  split = ap (λ s. failed kind ∷ s) d.split;
  kept = d.kept;
}

-- Whether a chunk behind the output passes the limit.
abbrev overflows : Bytes → Bytes → Bool
overflows output chunk = ltb max_output_bytes (length output + length chunk)

drain_output_over :
    (c : ℕ) (chunk : Bytes) (rest : Stream) (output : Bytes) (eof : Bool)
    → overflows output (c ∷ chunk) ≡ true
    → drain_output (received (c ∷ chunk) ∷ rest) output eof
      ≡ (err (io invalid_data), record { stream = rest; output = output; eof = eof })
unfolding drain_output
drain_output_over c chunk rest output eof h = rw h refl

drain_output_within :
    (c : ℕ) (chunk : Bytes) (rest : Stream) (output : Bytes) (eof : Bool)
    → overflows output (c ∷ chunk) ≡ false
    → drain_output (received (c ∷ chunk) ∷ rest) output eof
      ≡ drain_output rest (output ++ c ∷ chunk) eof
unfolding drain_output
drain_output_within c chunk rest output eof h = rw h refl

-- A call that succeeds has read a first part of the pipe and has kept every byte of it, in order.
pub drain_output-IsDrained :
    (stream : Stream) (output : Bytes) (eof : Bool)
    → (drain_output stream output eof).0 ≡ ok tt
    → IsDrained stream output (drain_output stream output eof).1
unfolding drain_output
drain_output-IsDrained [] output eof h = record {
  taken = [];
  split = refl;
  kept = sym (append-nil output);
}
drain_output-IsDrained (received [] ∷ rest) output eof h = record {
  taken = received [] ∷ [];
  split = refl;
  kept = sym (append-nil output);
}
drain_output-IsDrained (received (c ∷ chunk) ∷ rest) output eof h =
    elim (Bool-cases (overflows output (c ∷ chunk))) [
      | inl over ↦ absurd (cc (ap (λ r. r.0) (drain_output_over c chunk rest output eof over)))
      | inr within ↦
          let same = drain_output_within c chunk rest output eof within in
          subst (λ r. IsDrained (received (c ∷ chunk) ∷ rest) output r.1) (sym same)
            (IsDrained-received (c ∷ chunk) rest output _ (
              drain_output-IsDrained rest (output ++ c ∷ chunk) eof (ap (λ r. r.0) (sym same) ∙ h)))
    ]
drain_output-IsDrained (failed would_block ∷ rest) output eof h = record {
  taken = failed would_block ∷ [];
  split = refl;
  kept = sym (append-nil output);
}
drain_output-IsDrained (failed interrupted ∷ rest) output eof h =
    IsDrained-failed interrupted rest output _ (drain_output-IsDrained rest output eof h)
drain_output-IsDrained (failed kind ∷ rest) output eof h = absurd (cc)

-- Whatever a call returns, no more than the limit is ever kept.
pub drain_output_bounded :
    (stream : Stream) (output : Bytes) (eof : Bool)
    → length output ≤ max_output_bytes
    → length (drain_output stream output eof).1.output ≤ max_output_bytes
unfolding drain_output
drain_output_bounded [] output eof b = b
drain_output_bounded (received [] ∷ rest) output eof b = b
drain_output_bounded (received (c ∷ chunk) ∷ rest) output eof b =
    elim (Bool-cases (overflows output (c ∷ chunk))) [
      | inl over ↦
          subst (λ r. length r.1.output ≤ max_output_bytes)
            (sym (drain_output_over c chunk rest output eof over)) b
      | inr within ↦
          subst (λ r. length r.1.output ≤ max_output_bytes)
            (sym (drain_output_within c chunk rest output eof within))
            (drain_output_bounded rest (output ++ c ∷ chunk) eof
              (ground (arith, length-append {0} output (c ∷ chunk))))
    ]
drain_output_bounded (failed would_block ∷ rest) output eof b = b
drain_output_bounded (failed interrupted ∷ rest) output eof b =
    drain_output_bounded rest output eof b
drain_output_bounded (failed kind ∷ rest) output eof b = b
