-- ===== src/Protocol/Request.antt =====
-- `usb_responder_command_request_t` of src/protocol.h and its encoder and decoder in
-- src/protocol.c. `malloc` says which requests the allocator grants.
pub mod RoundTrip
pub mod Safety
use epass_usb_responder.Prelude.{
  ℕ, ◌+◌, ◌%◌, ◌^◌, Bool, not, Option, none, some, List, ◌++◌, ltb, ◌==◌, length,
}
use epass_usb_responder.Outcome.{Outcome, ok, ◌>>=◌, ◌>>◌, require, fail_if, slice, filled}
use epass_usb_responder.Text.{text}
use epass_usb_responder.Protocol.Words.{read_le32, write_le32}
use epass_usb_responder.Protocol.Frame.{is_null}

pub record CommandRequest : Type 0 where
  pub timeout_ms : ℕ
  pub max_stdout : ℕ
  pub max_stderr : ℕ
  pub command : Option (List ℕ)

-- The four words, and the command behind them.
abbrev pub request_bytes : CommandRequest → List ℕ
request_bytes req =
    write_le32 req.timeout_ms
    ++ (write_le32 req.max_stdout
        ++ (write_le32 req.max_stderr
            ++ (write_le32 (length (text req.command) % 2 ^ 32) ++ text req.command)))

module _ (malloc : ℕ → Bool) where
  unfoldable pub encode_command_request : CommandRequest → Outcome (List ℕ)
  encode_command_request req = do
    fail_if (is_null req.command)
    let cmd_len = length (text req.command)
    require (malloc (16 + cmd_len))
    filled (16 + cmd_len) (request_bytes req)

  -- `payload_size` is the length of `payload`; `16u + cmd_len` is a sum of two `uint32_t`.
  unfoldable pub decode_command_request : List ℕ → Outcome CommandRequest
  decode_command_request payload = do
    fail_if (ltb (length payload) 16)
    timeout_ms ← read_le32 payload 0
    max_stdout ← read_le32 payload 4
    max_stderr ← read_le32 payload 8
    cmd_len ← read_le32 payload 12
    fail_if (not ((16 + cmd_len) % 2 ^ 32 == length payload))
    require (malloc (cmd_len + 1))
    command ← slice payload 16 cmd_len
    ok (record {
      timeout_ms = timeout_ms;
      max_stdout = max_stdout;
      max_stderr = max_stderr;
      command = some command;
    })
