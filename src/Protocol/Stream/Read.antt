-- ===== src/Protocol/Stream/Read.antt =====
-- `usb_responder_protocol_read_frame` of src/protocol.c on a frame that arrives in any pieces.
use epass_usb_responder.Prelude.{
  ℕ, ◌+◌, ◌-◌, ◌≤◌, ◌<◌, ◌≡◌, refl, sym, ap, ◌∙◌, Bool, true, false, List, [], ◌∷◌, ◌++◌, arith,
  ltb, ◌==◌, length, append_assoc, append-nil, length-append, All, get_or-append_left,
}
use epass_usb_responder.Outcome.{ok}
use epass_usb_responder.Protocol.Words.{IsByte, word32_at, word32_at-same, read_le32-inside}
use epass_usb_responder.Protocol.Frame.{Frame, FrameHeader, header_size, frame_size, decode_frame}
use epass_usb_responder.Protocol.Frame.Canonical.{IsDecoded, decode_frame-IsDecoded}
use epass_usb_responder.Protocol.Stream.{
  ReadAnswer, gave, read_interrupted, read_failed, took, read_full, decode_read, read_payload,
  read_frame,
}
use epass_usb_responder.Protocol.Stream.Written.{joined}

-- The answers that bring the pieces, with an interruption before each.
abbrev pub given : List (List ℕ) → List ReadAnswer
given [] = []
given (p ∷ ps) = read_interrupted ∷ gave p ∷ given ps

abbrev pub AreNonempty : List (List ℕ) → Type 0
AreNonempty = All (λ (p : List ℕ). 0 < length p)

read_full-done :
    (before : List ℕ) (answers : List ReadAnswer) → read_full before 0 answers ≡ took before answers
unfolding read_full
read_full-done before [] = refl
read_full-done before (gave bytes ∷ answers) = refl
read_full-done before (read_interrupted ∷ answers) = refl
read_full-done before (read_failed ∷ answers) = refl

read_full-given :
    (before : List ℕ) (left : ℕ) (pieces : List (List ℕ)) (rest : List ReadAnswer)
    → AreNonempty pieces
    → left ≡ length (joined pieces)
    → read_full before left (given pieces ++ rest) ≡ took (before ++ joined pieces) rest
unfolding read_full
read_full-given before left [] rest h e = rw (e, append-nil before) (read_full-done before rest)
read_full-given before left (p ∷ ps) rest h e =
    let size : left ≡ length p + length (joined ps) = omega (arith, length-append p (joined ps)) in
    let more : (left == 0) ≡ false = ground (arith, h.0) in
    let some_bytes : (length p == 0) ≡ false = ground (arith, h.0) in
    let within : ltb left (length p) ≡ false = ground arith in
    rw (more, some_bytes, within)
      (read_full-given (before ++ p) (left - length p) ps rest h.1 (omega arith)
        ∙ ap (λ bs. took bs rest) (append_assoc before p (joined ps)))

module _ (malloc : ℕ → Bool) (all : (n : ℕ) → malloc n ≡ true) (max_payload : ℕ)
    (front back : List (List ℕ)) (f : Frame) (rest : List ReadAnswer) where
  abbrev raw : List ℕ
  raw = joined front ++ joined back

  payload_len-front :
      IsDecoded raw f
      → length (joined front) ≡ header_size
      → word32_at (joined front) 16 ≡ f.header.payload_len
  payload_len-front d size =
      word32_at-same (joined front) raw 16 header_size
        (λ i h. sym (get_or-append_left (joined front) (joined back) i 0 (omega arith)))
        (omega arith)
      ∙ sym (ap (λ (h : FrameHeader). h.payload_len) d.header)

  -- With an allocator that grants every request, if the pieces that `read` gives are a header and
  -- its payload, with interruptions before them, and the decoder accepts the frame, whose payload
  -- is within the limit, then `read_frame` returns it and leaves the answers that follow.
  pub read_frame-given :
      AreNonempty front
      → AreNonempty back
      → length (joined front) ≡ header_size
      → All IsByte raw
      → decode_frame malloc raw ≡ ok f
      → f.header.payload_len ≤ max_payload
      → read_frame malloc max_payload (given front ++ (given back ++ rest)) ≡ took f rest
  unfolding read_frame read_payload decode_read
  read_frame-given h1 h2 size bytes decodes small =
      rw
        (
          read_frame,
          read_full-given [] header_size front (given back ++ rest) h1 (sym size),
          read_le32-inside (joined front) 16 (omega arith),
          payload_len-front d size,
          all (frame_size f.header.payload_len),
          room,
          whole,
          read_full-given (joined front) f.header.payload_len back rest h2
              (omega (arith, d.size, length-append (joined front) (joined back))),
          decodes,
        )
        (ground arith)
    where
      d : IsDecoded raw f
      d = decode_frame-IsDecoded malloc raw f bytes decodes

      room : ltb max_payload f.header.payload_len ≡ false
      room = ground arith

      whole : ltb (frame_size f.header.payload_len) (header_size + f.header.payload_len) ≡ false
      whole = ground (arith, d.size, d.fits)
