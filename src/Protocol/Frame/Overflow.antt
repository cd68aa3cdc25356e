-- ===== src/Protocol/Frame/Overflow.antt =====
-- The size that `encode_frame` of src/protocol.c asks for is a sum in `uint32_t`.
use epass_usb_responder.Prelude.{
  ℕ, ◌+◌, ◌^◌, ◌<◌, ◌≡◌, true, Bool, arith, ltb, if◌then◌else◌, length, take_all,
}
use epass_usb_responder.Outcome.{ok, fault, filled, slice-eq-take}
use epass_usb_responder.Protocol.Frame.{
  Frame, header_size, frame_size, frame_bytes, pointee, encode_frame,
}
use epass_usb_responder.Protocol.Frame.RoundTrip.{length-frame_bytes}

-- A frame with a payload of the announced length, a 32-bit word, is laid out if header and payload
-- together are below 4 GiB; otherwise the buffer that the allocator grants is too small and the
-- writes leave it.
pub encode_frame_overflow :
    (malloc : ℕ → Bool) (f : Frame)
    → length (pointee f.payload) ≡ f.header.payload_len
    → f.header.payload_len < 2 ^ 32
    → malloc (frame_size f.header.payload_len) ≡ true
    → encode_frame malloc f ≡ (
        if ltb (header_size + f.header.payload_len) (2 ^ 32)
        then ok (frame_bytes f.header (pointee f.payload))
        else fault)
unfolding encode_frame filled
encode_frame_overflow malloc f size fits granted = ground (
  arith,
  slice-eq-take (pointee f.payload) 0 f.header.payload_len,
  take_all (pointee f.payload) f.header.payload_len,
  length-frame_bytes f.header (pointee f.payload),
)
