-- ===== src/Cmd.antt =====
-- src/cmd.rs: `drain_output`, over what the reads of a pipe that does not block return.
pub mod Output
pub mod Waiting
pub mod Supervision
pub mod Run
use pam_ssh_agent.Common.{
  ℕ, ◌+◌, ◌*◌, Bytes, List, [], ◌∷◌, ◌++◌, Bool, true, false, ltb, length, if◌then◌else◌, Result,
  ok, err, io, IoKind, would_block, interrupted, invalid_data,
}

abbrev pub max_output_bytes : ℕ
max_output_bytes = 1024 * 1024

-- What one call of `Read::read` returns: bytes (none at the end of the stream) or an error.
pub data ReadResult : Type 0 where
  received : Bytes → ReadResult
  failed : IoKind → ReadResult

-- A pipe: what its next reads return. Behind them a read would block.
abbrev pub Stream : Type 0
Stream = List ReadResult

-- The pipe, the bytes that were collected, and whether the end was seen.
pub record Collected : Type 0 where
  pub stream : Stream
  pub output : Bytes
  pub eof : Bool

unfoldable pub drain_output : Stream → Bytes → Bool → Result (Unit {0}) × Collected
drain_output [] output eof = (ok tt, record { stream = []; output = output; eof = eof })
drain_output (received [] ∷ rest) output eof =
    (ok tt, record { stream = rest; output = output; eof = true })
drain_output (received (c ∷ chunk) ∷ rest) output eof =
    let more = drain_output rest (output ++ c ∷ chunk) eof in
    if ltb max_output_bytes (length output + length (c ∷ chunk))
    then (err (io invalid_data), record { stream = rest; output = output; eof = eof })
    else more
drain_output (failed would_block ∷ rest) output eof =
    (ok tt, record { stream = rest; output = output; eof = eof })
drain_output (failed interrupted ∷ rest) output eof = drain_output rest output eof
drain_output (failed kind ∷ rest) output eof =
    (err (io kind), record { stream = rest; output = output; eof = eof })
