-- ===== src/Protocol/Report.antt =====
-- `usb_responder_command_result_t` of src/protocol.h and its encoder and decoder in
-- src/protocol.c. `size_mod` is one more than the greatest `size_t`: 2 ^ 32 on the 32-bit boards,
-- 2 ^ 64 on a 64-bit host. `malloc` says which requests the allocator grants.
pub mod RoundTrip
pub mod Safety
use epass_usb_responder.Prelude.{
  ℕ, ◌+◌, ◌%◌, ◌^◌, Bool, true, false, not, Option, none, some, List, [], ◌∷◌, ◌++◌, ltb, ◌==◌,
  if◌then◌else◌, length,
}
use epass_usb_responder.Outcome.{Outcome, ok, ◌>>=◌, ◌>>◌, require, fail_if, load, slice, filled}
use epass_usb_responder.Protocol.Words.{read_le32, write_le32}
use epass_usb_responder.Protocol.Frame.{pointee}

-- `exit_code`, an `int32_t`, is its bit pattern.
pub record CommandResult : Type 0 where
  pub exit_code : ℕ
  pub timed_out : Bool
  pub duration_ms : ℕ
  pub stdout_data : Option (List ℕ)
  pub stdout_size : ℕ
  pub stderr_data : Option (List ℕ)
  pub stderr_size : ℕ

abbrev pub flag_byte : Bool → ℕ
flag_byte true = 1
flag_byte false = 0

-- The 20 bytes before the two streams, and the streams.
abbrev pub result_bytes : CommandResult → List ℕ → List ℕ → List ℕ
result_bytes r out err =
    write_le32 r.exit_code
    ++ ((flag_byte r.timed_out ∷ 0 ∷ 0 ∷ 0 ∷ [])
        ++ (write_le32 r.duration_ms
            ++ (write_le32 (r.stdout_size % 2 ^ 32)
                ++ (write_le32 (r.stderr_size % 2 ^ 32) ++ (out ++ err)))))

module _ (size_mod : ℕ) (malloc : ℕ → Bool) where
  unfoldable pub encode_command_result : CommandResult → Outcome (List ℕ)
  encode_command_result r = do
    let total = (20 + r.stdout_size + r.stderr_size) % size_mod
    require (malloc total)
    out ← slice (pointee r.stdout_data) 0 r.stdout_size
    err ← slice (pointee r.stderr_data) 0 r.stderr_size
    filled total (result_bytes r out err)

module _ (malloc : ℕ → Bool) where
  -- `if (len > 0) { … malloc … memcpy … }`: the copy of a stream, or null.
  unfoldable pub copy_stream : List ℕ → ℕ → ℕ → Outcome (Option (List ℕ))
  copy_stream payload off len =
      let copy = (do require (malloc len); bytes ← slice payload off len; ok (some bytes)) in
      if ltb 0 len then copy else ok none

module _ (size_mod : ℕ) (malloc : ℕ → Bool) where
  -- `payload_size` is the length of `payload`.
  unfoldable pub decode_command_result : List ℕ → Outcome CommandResult
  decode_command_result payload = do
    fail_if (ltb (length payload) 20)
    exit_code ← read_le32 payload 0
    flag ← load payload 4
    duration_ms ← read_le32 payload 8
    stdout_len ← read_le32 payload 12
    stderr_len ← read_le32 payload 16
    fail_if (not ((20 + stdout_len + stderr_len) % size_mod == length payload))
    out ← copy_stream malloc payload 20 stdout_len
    err ← copy_stream malloc payload (20 + stdout_len) stderr_len
    ok (record {
      exit_code = exit_code;
      timed_out = not (flag == 0);
      duration_ms = duration_ms;
      stdout_data = out;
      stdout_size = stdout_len;
      stderr_data = err;
      stderr_size = stderr_len;
    })
