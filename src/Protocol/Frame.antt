-- ===== src/Protocol/Frame.antt =====
-- The frames of src/protocol.h, and `usb_responder_protocol_encode_frame` and `…_decode_frame` of
-- src/protocol.c. `malloc` says which requests the allocator grants.
pub mod Safety
pub mod RoundTrip
pub mod Canonical
pub mod Corruption
pub mod Overflow
use epass_usb_responder.Prelude.{
  ℕ, ◌+◌, ◌%◌, ◌^◌, Bool, true, false, not, ◌&&◌, ◌||◌, Option, none, some, List, [], ◌++◌, ltb,
  ◌==◌, if◌then◌else◌, length,
}
use epass_usb_responder.Outcome.{Outcome, ok, ◌>>=◌, ◌>>◌, require, fail_if, slice, filled}
use epass_usb_responder.Crc32.{crc32}
use epass_usb_responder.Protocol.Words.{read_le16, read_le32, write_le16, write_le32}

abbrev pub magic_number : ℕ
magic_number = 0x45504153

abbrev pub protocol_version : ℕ
protocol_version = 1

abbrev pub header_size : ℕ
header_size = 24

pub record FrameHeader : Type 0 where
  pub magic : ℕ
  pub version : ℕ
  pub type : ℕ
  pub flags : ℕ
  pub request_id : ℕ
  pub payload_len : ℕ
  pub payload_crc32 : ℕ

-- `payload` is null or a buffer.
pub record Frame : Type 0 where
  pub header : FrameHeader
  pub payload : Option (List ℕ)

abbrev pub is_null : Option (List ℕ) → Bool
is_null none = true
is_null (some p) = false

-- The bytes behind a pointer; nothing can be read behind a null one.
abbrev pub pointee : Option (List ℕ) → List ℕ
pointee none = []
pointee (some p) = p

-- `USB_RESPONDER_HEADER_SIZE + payload_len`, a sum of two `uint32_t`.
abbrev pub frame_size : ℕ → ℕ
frame_size payload_len = (header_size + payload_len) % 2 ^ 32

-- The header that is written, with the payload behind it.
abbrev pub frame_bytes : FrameHeader → List ℕ → List ℕ
frame_bytes h payload =
    write_le32 magic_number
    ++ (write_le16 protocol_version
        ++ (write_le16 h.type
            ++ (write_le32 h.flags
                ++ (write_le32 h.request_id
                    ++ (write_le32 h.payload_len ++ (write_le32 (crc32 payload) ++ payload))))))

unfoldable pub read_header : List ℕ → Outcome FrameHeader
read_header raw = do
  magic ← read_le32 raw 0
  version ← read_le16 raw 4
  type ← read_le16 raw 6
  flags ← read_le32 raw 8
  request_id ← read_le32 raw 12
  payload_len ← read_le32 raw 16
  payload_crc32 ← read_le32 raw 20
  ok (record {
    magic = magic;
    version = version;
    type = type;
    flags = flags;
    request_id = request_id;
    payload_len = payload_len;
    payload_crc32 = payload_crc32;
  })

module _ (malloc : ℕ → Bool) where
  unfoldable pub encode_frame : Frame → Outcome (List ℕ)
  encode_frame frame = do
    let len = frame.header.payload_len
    fail_if (ltb 0 len && is_null frame.payload)
    require (malloc (frame_size len))
    payload ← slice (pointee frame.payload) 0 len
    filled (frame_size len) (frame_bytes frame.header payload)

  -- The payload behind the header, or null where there is none.
  unfoldable pub copy_payload : List ℕ → ℕ → Outcome (Option (List ℕ))
  copy_payload raw len =
      let copy = (do
        require (malloc len)
        payload ← slice raw header_size len
        ok (some payload)) in
      if ltb 0 len then copy else ok none

  -- `raw_size` is the length of `raw`.
  unfoldable pub decode_frame : List ℕ → Outcome Frame
  decode_frame raw = do
    fail_if (ltb (length raw) header_size)
    h ← read_header raw
    fail_if (not (h.magic == magic_number) || not (h.version == protocol_version))
    fail_if (not (frame_size h.payload_len == length raw))
    payload ← copy_payload raw h.payload_len
    fail_if (not (h.payload_crc32 == crc32 (pointee payload)))
    ok (record { header = h; payload = payload })
