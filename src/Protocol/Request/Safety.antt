-- ===== src/Protocol/Request/Safety.antt =====
-- `decode_command_request` of src/protocol.c on any payload.
use epass_usb_responder.Prelude.{
  ℕ, ◌+◌, ◌^◌, ◌<◌, ◌≡◌, Bool, some, List, ltb, ◌==◌, length, arith, take_all, Bool-cases, inl, inr,
  All, drop, length-drop, if◌then◌else◌, ◌&&◌,
}
use epass_usb_responder.Outcome.{ok, failed, slice-eq-take}
use epass_usb_responder.Protocol.Words.{IsByte, word32_at, word32_at-lt, read_le32-inside}
use epass_usb_responder.Protocol.Request.{CommandRequest, decode_command_request}

-- The request that a payload of 16 bytes or more holds.
abbrev pub request_at : List ℕ → CommandRequest
request_at payload = record {
  timeout_ms = word32_at payload 0;
  max_stdout = word32_at payload 4;
  max_stderr = word32_at payload 8;
  command = some (drop 16 payload);
}

abbrev pub announced : List ℕ → ℕ
announced payload = word32_at payload 12

module _ (malloc : ℕ → Bool) (payload : List ℕ) (bytes : All IsByte payload)
    (fits : length payload < 2 ^ 32) where
  -- A payload below 4 GiB is accepted exactly if it is 16 bytes and a command of the announced
  -- length, and the allocator grants the buffer of the command; the request that comes out is its
  -- words and that command, and nothing is read outside the payload.
  pub decode_command_request-eq : decode_command_request malloc payload ≡ (
      if 16 + announced payload == length payload && malloc (announced payload + 1)
      then ok (request_at payload)
      else failed)
  unfolding decode_command_request
  decode_command_request-eq = elim (Bool-cases (ltb (length payload) 16)) [
    | inl short ↦ rw short (ground arith)
    | inr long ↦
        rw
          (
            long,
            read_le32-inside payload 0 (ground arith),
            read_le32-inside payload 4 (ground arith),
            read_le32-inside payload 8 (ground arith),
            read_le32-inside payload 12 (ground arith),
          )
          (ground (
            arith,
            word32_at-lt payload 12 bytes,
            slice-eq-take payload 16 (announced payload),
            take_all (drop 16 payload) (announced payload),
            length-drop 16 payload,
          ))
  ]
