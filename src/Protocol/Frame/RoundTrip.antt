-- ===== src/Protocol/Frame/RoundTrip.antt =====
-- `encode_frame` of src/protocol.c followed by `decode_frame`.
use epass_usb_responder.Prelude.{
  ℕ, ◌+◌, ◌^◌, ◌<◌, ◌≡◌, refl, Bool, true, none, List, arith, ltb, if◌then◌else◌, length, All,
  take_all,
}
use epass_usb_responder.Outcome.{ok, load, ◌>>=◌, slice, slice-eq-take, filled-eq-ok}
use epass_usb_responder.Crc32.{crc32}
use epass_usb_responder.Crc32.Bounds.{crc32-lt}
use epass_usb_responder.Protocol.Words.{
  IsByte, read_le16, read_le32, word16, word32, write_le16, write_le32, word16-write, word32-write,
}
use epass_usb_responder.Protocol.Frame.{
  Frame, FrameHeader, header_size, magic_number, protocol_version, frame_bytes, pointee,
  encode_frame, read_header, copy_payload, decode_frame,
}

-- A frame that the program can build: its words fit, and the payload has the announced length.
pub record IsFrame (f : Frame) : Type 0 where
  pub type_fits : f.header.type < 2 ^ 16
  pub flags_fit : f.header.flags < 2 ^ 32
  pub request_id_fits : f.header.request_id < 2 ^ 32
  pub size_fits : header_size + f.header.payload_len < 2 ^ 32
  pub announced : length (pointee f.payload) ≡ f.header.payload_len
  pub bytes : All IsByte (pointee f.payload)

-- What comes out at the other end: the constants and the checksum are filled in.
abbrev pub stamped_header : FrameHeader → List ℕ → FrameHeader
stamped_header h payload = record h {
  magic = magic_number;
  version = protocol_version;
  payload_crc32 = crc32 payload;
}

abbrev pub stamped : Frame → Frame
stamped f = record {
  header = stamped_header f.header (pointee f.payload);
  payload = if ltb 0 f.header.payload_len then f.payload else none;
}

pub length-frame_bytes :
    (h : FrameHeader) (payload : List ℕ)
    → length (frame_bytes h payload) ≡ header_size + length payload
unfolding write_le16 write_le32
length-frame_bytes h payload = omega arith

read_header-frame_bytes :
    (h : FrameHeader) (payload : List ℕ)
    → h.type < 2 ^ 16
    → h.flags < 2 ^ 32
    → h.request_id < 2 ^ 32
    → h.payload_len < 2 ^ 32
    → All IsByte payload
    → read_header (frame_bytes h payload) ≡ ok (stamped_header h payload)
unfolding read_header read_le16 read_le32 load write_le16 write_le32
read_header-frame_bytes h payload h1 h2 h3 h4 hb =
    rw
      (
        word16-write h.type h1,
        word32-write h.flags h2,
        word32-write h.request_id h3,
        word32-write h.payload_len h4,
        word32-write (crc32 payload) (crc32-lt payload hb),
      )
      (unfold word16 word32 in refl)

slice-frame_bytes :
    (h : FrameHeader) (payload : List ℕ)
    → slice (frame_bytes h payload) header_size (length payload) ≡ ok payload
unfolding slice write_le16 write_le32
slice-frame_bytes h payload = rw (take_all payload (length payload) (omega arith)) (ground arith)

pub encode_frame-eq-frame_bytes :
    (malloc : ℕ → Bool) (f : Frame)
    → IsFrame f
    → malloc (header_size + f.header.payload_len) ≡ true
    → encode_frame malloc f ≡ ok (frame_bytes f.header (pointee f.payload))
unfolding encode_frame
encode_frame-eq-frame_bytes malloc f w granted = ground (
  arith,
  slice-eq-take (pointee f.payload) 0 f.header.payload_len,
  take_all (pointee f.payload) f.header.payload_len,
  length-frame_bytes f.header (pointee f.payload),
  filled-eq-ok (header_size + f.header.payload_len) (frame_bytes f.header (pointee f.payload)),
)

copy_payload-frame_bytes :
    (malloc : ℕ → Bool) (f : Frame)
    → IsFrame f
    → malloc f.header.payload_len ≡ true
    → copy_payload malloc (frame_bytes f.header (pointee f.payload)) f.header.payload_len
      ≡ ok (stamped f).payload
unfolding copy_payload
copy_payload-frame_bytes malloc f w granted =
    ground (arith, slice-frame_bytes f.header (pointee f.payload))

-- A payload of no bytes is sent as none.
same_payload : (f : Frame) → IsFrame f → pointee (stamped f).payload ≡ pointee f.payload
same_payload f w = ground (arith, take_all (pointee f.payload) 0)

decode_frame-frame_bytes :
    (malloc : ℕ → Bool) (f : Frame)
    → IsFrame f
    → malloc f.header.payload_len ≡ true
    → decode_frame malloc (frame_bytes f.header (pointee f.payload)) ≡ ok (stamped f)
unfolding decode_frame
decode_frame-frame_bytes malloc f w granted =
    rw
      (
        read_header-frame_bytes f.header (pointee f.payload) w.type_fits w.flags_fit
            w.request_id_fits (omega arith) w.bytes,
        copy_payload-frame_bytes malloc f w granted,
        length-frame_bytes f.header (pointee f.payload),
      )
      (ground (arith, same_payload f w))

-- A frame whose words fit and whose payload has the announced length, header and payload being
-- below 4 GiB, comes back from encoding and decoding with its constants and its checksum filled
-- in, where the allocator grants both buffers.
pub decode_frame-encode_frame :
    (malloc : ℕ → Bool) (f : Frame)
    → IsFrame f
    → malloc (header_size + f.header.payload_len) ≡ true
    → malloc f.header.payload_len ≡ true
    → (encode_frame malloc f >>= decode_frame malloc) ≡ ok (stamped f)
decode_frame-encode_frame malloc f w raw_granted payload_granted =
    rw (encode_frame-eq-frame_bytes malloc f w raw_granted)
      (decode_frame-frame_bytes malloc f w payload_granted)
