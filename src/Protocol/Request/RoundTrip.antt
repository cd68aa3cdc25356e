-- ===== src/Protocol/Request/RoundTrip.antt =====
-- `encode_command_request` of src/protocol.c followed by `decode_command_request`.
use epass_usb_responder.Prelude.{
  ℕ, ◌+◌, ◌%◌, ◌^◌, ◌<◌, ◌≡◌, ap, ◌∙◌, true, false, Bool, some, length, arith, take_all,
}
use epass_usb_responder.Outcome.{ok, ◌>>=◌, load, slice, filled-eq-ok}
use epass_usb_responder.Text.{text}
use epass_usb_responder.Protocol.Words.{read_le32, write_le32, word32-write}
use epass_usb_responder.Protocol.Frame.{is_null}
use epass_usb_responder.Protocol.Request.{
  CommandRequest, request_bytes, encode_command_request, decode_command_request,
}

-- The words fit, and so does the length of the payload.
pub record IsRequest (req : CommandRequest) : Type 0 where
  pub timeout_fits : req.timeout_ms < 2 ^ 32
  pub max_stdout_fits : req.max_stdout < 2 ^ 32
  pub max_stderr_fits : req.max_stderr < 2 ^ 32
  pub size_fits : 16 + length (text req.command) < 2 ^ 32
  pub given : is_null req.command ≡ false

length-request_bytes :
    (req : CommandRequest) → length (request_bytes req) ≡ 16 + length (text req.command)
unfolding write_le32
length-request_bytes req = omega arith

module _ (malloc : ℕ → Bool) (req : CommandRequest) (w : IsRequest req) where
  encode-eq-request_bytes :
      malloc (16 + length (text req.command)) ≡ true
      → encode_command_request malloc req ≡ ok (request_bytes req)
  unfolding encode_command_request
  encode-eq-request_bytes granted =
      rw (w.given, granted)
        (filled-eq-ok (16 + length (text req.command)) (request_bytes req)
          (omega (arith, length-request_bytes req)))

  slice-request_bytes :
      slice (request_bytes req) 16 (length (text req.command)) ≡ ok (text req.command)
  unfolding slice write_le32
  slice-request_bytes =
      rw (take_all (text req.command) (length (text req.command)) (omega arith)) (ground arith)

  words :
      (read_le32 (request_bytes req) 0 ≡ ok req.timeout_ms)
      × (read_le32 (request_bytes req) 4 ≡ ok req.max_stdout)
      × (read_le32 (request_bytes req) 8 ≡ ok req.max_stderr)
      × (read_le32 (request_bytes req) 12 ≡ ok (length (text req.command)))
  unfolding read_le32 write_le32 load
  words = (
    ap ok (word32-write req.timeout_ms w.timeout_fits),
    ap ok (word32-write req.max_stdout w.max_stdout_fits),
    ap ok (word32-write req.max_stderr w.max_stderr_fits),
    ap ok (
        word32-write (length (text req.command) % 2 ^ 32) (omega arith)
        ∙ omega (arith, w.size_fits)),
  )

  pub decode-request_bytes :
      malloc (length (text req.command) + 1) ≡ true
      → decode_command_request malloc (request_bytes req)
        ≡ ok (record req { command = some (text req.command) })
  unfolding decode_command_request
  decode-request_bytes granted =
      rw (words.0, words.1, words.2, words.3, slice-request_bytes)
        (ground (arith, length-request_bytes req, w.size_fits))

  -- A command request whose words fit, with a command that is not null and is below 4 GiB with the
  -- 16 bytes before it, is decoded to what was encoded, the command cut at its first NUL, where
  -- the allocator grants both buffers.
  pub decode_command_request-encode :
      malloc (16 + length (text req.command)) ≡ true
      → malloc (length (text req.command) + 1) ≡ true
      → (encode_command_request malloc req >>= decode_command_request malloc)
        ≡ ok (record req { command = some (text req.command) })
  decode_command_request-encode raw_granted command_granted =
      rw (encode-eq-request_bytes raw_granted) (decode-request_bytes command_granted)
