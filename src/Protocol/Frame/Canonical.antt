-- ===== src/Protocol/Frame/Canonical.antt =====
-- `decode_frame` of src/protocol.c followed by `encode_frame`.
use epass_usb_responder.Prelude.{
  ℕ, ◌+◌, ◌^◌, ◌≤◌, ◌<◌, ◌≡◌, refl, ap, ap₂, ◌∙◌, Bool, true, not, ◌||◌, inl, inr, Option, List, [],
  ◌∷◌, arith, ltb, ◌==◌, Bool-cases, length, All, take_all, drop, All-drop, length-drop,
}
use epass_usb_responder.Outcome.{Outcome, ok, failed, fault, ◌>>=◌, ◌>>◌, fail_if, slice-eq-take}
use epass_usb_responder.Crc32.{crc32}
use epass_usb_responder.Protocol.Words.{
  IsByte, word16_at, word32_at, word16_at-lt, word32_at-lt, write-word16, write-word32,
}
use epass_usb_responder.Protocol.Frame.{
  Frame, frame_size, header_size, magic_number, protocol_version, frame_bytes, pointee,
  encode_frame, copy_payload, decode_frame,
}
use epass_usb_responder.Protocol.Frame.RoundTrip.{IsFrame, encode_frame-eq-frame_bytes}
use epass_usb_responder.Protocol.Frame.Safety.{header_at, read_header-inside, frame_size-exact}

frame_bytes-header_at :
    (raw : List ℕ)
    → header_size ≤ length raw
    → All IsByte raw
    → word32_at raw 0 ≡ magic_number
    → word16_at raw 4 ≡ protocol_version
    → word32_at raw 20 ≡ crc32 (drop header_size raw)
    → frame_bytes (header_at raw) (drop header_size raw) ≡ raw
unfolding word16_at word32_at
frame_bytes-header_at
      (b0 ∷ b1 ∷ b2 ∷ b3 ∷ b4 ∷ b5 ∷ b6 ∷ b7 ∷ b8 ∷ b9 ∷ b10 ∷ b11 ∷ b12 ∷ b13 ∷ b14 ∷ b15 ∷ b16
        ∷ b17 ∷ b18 ∷ b19 ∷ b20 ∷ b21 ∷ b22 ∷ b23 ∷ rest)
      long
      (
        h0,
        (
          h1,
          (
            h2,
            (
              h3,
              (
                h4,
                (
                  h5,
                  (
                    h6,
                    (
                      h7,
                      (
                        h8,
                        (
                          h9,
                          (
                            h10,
                            (
                              h11,
                              (
                                h12,
                                (
                                  h13,
                                  (
                                    h14,
                                    (
                                      h15,
                                      (h16, (h17, (h18, (h19, (h20, (h21, (h22, (h23, hr)))))))),
                                    ),
                                  ),
                                ),
                              ),
                            ),
                          ),
                        ),
                      ),
                    ),
                  ),
                ),
              ),
            ),
          ),
        ),
      )
      m v c =
    rw (
      ← m,
      ← v,
      ← c,
      write-word32 b0 b1 b2 b3 h0 h1 h2 h3,
      write-word16 b4 b5 h4 h5,
      write-word16 b6 b7 h6 h7,
      write-word32 b8 b9 b10 b11 h8 h9 h10 h11,
      write-word32 b12 b13 b14 b15 h12 h13 h14 h15,
      write-word32 b16 b17 b18 b19 h16 h17 h18 h19,
      write-word32 b20 b21 b22 b23 h20 h21 h22 h23,
    )
frame_bytes-header_at _ long bytes m v c = absurd (omega arith)

-- What a successful call has checked.
pub record IsDecoded (raw : List ℕ) (f : Frame) : Type 0 where
  pub long : header_size ≤ length raw
  pub header : f.header ≡ header_at raw
  pub magic : word32_at raw 0 ≡ magic_number
  pub version : word16_at raw 4 ≡ protocol_version
  pub size : header_size + f.header.payload_len ≡ length raw
  pub fits : length raw < 2 ^ 32
  pub payload : pointee f.payload ≡ drop header_size raw
  pub checksum : word32_at raw 20 ≡ crc32 (drop header_size raw)

copied :
    (malloc : ℕ → Bool) (raw : List ℕ) (len : ℕ) (p : Option (List ℕ))
    → header_size + len ≡ length raw
    → copy_payload malloc raw len ≡ ok p
    → pointee p ≡ drop header_size raw
unfolding copy_payload
copied malloc raw len p size e = ground (
  arith,
  slice-eq-take raw header_size len,
  take_all (drop header_size raw) len,
  length-drop header_size raw,
  take_all (drop header_size raw) 0,
)

zero_length : (xs : List ℕ) → length xs ≡ 0 → xs ≡ []
zero_length [] h = refl
zero_length (x ∷ xs) h = absurd (omega arith)

-- The tests of `decode_frame` once the header is read, and the copy of the payload as its result.
checked : (raw : List ℕ) → Outcome (Option (List ℕ)) → Outcome Frame
checked raw copy = do
  let h = header_at raw
  fail_if (not (h.magic == magic_number) || not (h.version == protocol_version))
  fail_if (not (frame_size h.payload_len == length raw))
  payload ← copy
  fail_if (not (h.payload_crc32 == crc32 (pointee payload)))
  ok (record { header = h; payload = payload })

checked-IsDecoded :
    (malloc : ℕ → Bool) (raw : List ℕ) (f : Frame) (copy : Outcome (Option (List ℕ)))
    → All IsByte raw
    → header_size ≤ length raw
    → copy_payload malloc raw (word32_at raw 16) ≡ copy
    → checked raw copy ≡ ok f
    → IsDecoded raw f
unfolding checked
checked-IsDecoded malloc raw f (ok p) bytes long copy e = ground (
  arith,
  frame_size-exact (word32_at raw 16) (length raw) (word32_at-lt raw 16 bytes) long,
  copied malloc raw (word32_at raw 16) p,
)
checked-IsDecoded malloc raw f failed bytes long copy e = ground arith
checked-IsDecoded malloc raw f fault bytes long copy e = ground arith

pub decode_frame-IsDecoded :
    (malloc : ℕ → Bool) (raw : List ℕ) (f : Frame)
    → All IsByte raw
    → decode_frame malloc raw ≡ ok f
    → IsDecoded raw f
unfolding decode_frame checked
decode_frame-IsDecoded malloc raw f bytes e = elim (Bool-cases (ltb (length raw) header_size)) [
  | inl short ↦ absurd (cc (rw short at e))
  | inr long ↦
      checked-IsDecoded malloc raw f (copy_payload malloc raw (word32_at raw 16)) bytes
        (ground arith) refl (rw (long, read_header-inside raw (ground arith)) at e)
]

decoded-IsFrame : (raw : List ℕ) (f : Frame) → All IsByte raw → IsDecoded raw f → IsFrame f
decoded-IsFrame raw f bytes d = record {
  type_fits = rw d.header (word16_at-lt raw 6);
  flags_fit = rw d.header (word32_at-lt raw 8 bytes);
  request_id_fits = rw d.header (word32_at-lt raw 12 bytes);
  size_fits = rw d.size d.fits;
  announced = rw d.payload (omega (arith, length-drop header_size raw, d.size));
  bytes = rw d.payload (All-drop IsByte header_size raw bytes);
}

-- A byte string that `decode_frame` accepts is the encoding of the frame that comes out, where the
-- allocator grants the encoder its buffer.
pub encode_frame-decode_frame :
    (malloc : ℕ → Bool) (raw : List ℕ) (f : Frame)
    → All IsByte raw
    → malloc (length raw) ≡ true
    → decode_frame malloc raw ≡ ok f
    → encode_frame malloc f ≡ ok raw
encode_frame-decode_frame malloc raw f bytes granted e =
    encode_frame-eq-frame_bytes malloc f (decoded-IsFrame raw f bytes d) (rw d.size granted)
    ∙ ap ok (
        ap₂ frame_bytes d.header d.payload
        ∙ frame_bytes-header_at raw d.long bytes d.magic d.version d.checksum)
  where
    d : IsDecoded raw f
    d = decode_frame-IsDecoded malloc raw f bytes e
