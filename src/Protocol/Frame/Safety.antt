-- ===== src/Protocol/Frame/Safety.antt =====
-- `decode_frame` of src/protocol.c on any bytes: its accesses to the buffer that it is given.
use epass_usb_responder.Prelude.{
  ℕ, ◌+◌, ◌^◌, ◌≤◌, ◌<◌, ◌≡◌, ◌≢◌, Bool, inl, inr, List, arith, ltb, Bool-cases, length, All,
}
use epass_usb_responder.Outcome.{ok, fault, slice-eq-take}
use epass_usb_responder.Protocol.Words.{
  IsByte, word16_at, word32_at, word32_at-lt, read_le16-inside, read_le32-inside,
}
use epass_usb_responder.Protocol.Frame.{
  FrameHeader, frame_size, header_size, read_header, copy_payload, decode_frame,
}

-- The header at the start of a buffer of 24 bytes or more.
abbrev pub header_at : List ℕ → FrameHeader
header_at raw = record {
  magic = word32_at raw 0;
  version = word16_at raw 4;
  type = word16_at raw 6;
  flags = word32_at raw 8;
  request_id = word32_at raw 12;
  payload_len = word32_at raw 16;
  payload_crc32 = word32_at raw 20;
}

pub read_header-inside :
    (raw : List ℕ) → header_size ≤ length raw → read_header raw ≡ ok (header_at raw)
unfolding read_header
read_header-inside raw h = rw (
  read_le32-inside raw 0 (omega arith),
  read_le16-inside raw 4 (omega arith),
  read_le16-inside raw 6 (omega arith),
  read_le32-inside raw 8 (omega arith),
  read_le32-inside raw 12 (omega arith),
  read_le32-inside raw 16 (omega arith),
  read_le32-inside raw 20 (omega arith),
)

-- The sum in `uint32_t` cannot wrap to the size of a buffer that holds a header.
pub frame_size-exact :
    (len size : ℕ)
    → len < 2 ^ 32
    → header_size ≤ size
    → frame_size len ≡ size
    → header_size + len ≡ size
frame_size-exact len size hl hs e = omega arith

pub copy_payload-ne-fault :
    (malloc : ℕ → Bool) (raw : List ℕ) (len : ℕ)
    → header_size + len ≤ length raw
    → copy_payload malloc raw len ≢ fault
unfolding copy_payload
copy_payload-ne-fault malloc raw len h = ground (arith, slice-eq-take raw header_size len h)

-- Whatever bytes arrive and whatever the allocator answers, `decode_frame` reads nothing outside
-- them.
pub decode_frame-ne-fault :
    (malloc : ℕ → Bool) (raw : List ℕ) → All IsByte raw → decode_frame malloc raw ≢ fault
unfolding decode_frame
decode_frame-ne-fault malloc raw bytes = elim (Bool-cases (ltb (length raw) header_size)) [
  | inl short ↦ rw short (λ e. cc)
  | inr long ↦
      rw (long, read_header-inside raw (ground arith))
        (ground (
          arith,
          frame_size-exact (word32_at raw 16) (length raw) (word32_at-lt raw 16 bytes),
          copy_payload-ne-fault malloc raw (word32_at raw 16),
        ))
]
