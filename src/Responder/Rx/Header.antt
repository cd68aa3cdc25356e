-- ===== src/Responder/Rx/Header.antt =====
-- The tests of `read_frame_buffered` in src/responder.c on the header at the front of the buffer.
use epass_usb_responder.Prelude.{ℕ, ◌+◌, ◌*◌, not, ◌||◌, List, ltb, ◌==◌}
use epass_usb_responder.Outcome.{Outcome, ok, ◌>>=◌, ◌>>◌, fail_if}
use epass_usb_responder.Protocol.Words.{read_le16, read_le32}
use epass_usb_responder.Protocol.Frame.{magic_number, protocol_version, header_size}

abbrev pub max_payload : ℕ
max_payload = 8 * 1024 * 1024

-- The size of the frame whose header stands at the front.
unfoldable pub announced_size : List ℕ → Outcome ℕ
announced_size buf = do
  magic ← read_le32 buf 0
  version ← read_le16 buf 4
  fail_if (not (magic == magic_number) || not (version == protocol_version))
  payload_len ← read_le32 buf 16
  fail_if (ltb max_payload payload_len)
  ok (header_size + payload_len)
