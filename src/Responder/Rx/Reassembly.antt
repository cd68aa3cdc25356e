-- ===== src/Responder/Rx/Reassembly.antt =====
-- `read_frame_buffered` of src/responder.c on a frame that any transfers bring.
use epass_usb_responder.Prelude.{
  ℕ, zero, suc, ◌≤◌, ◌<◌, ◌≡◌, refl, sym, ap, ◌∙◌, Bool, true, some, List, [], ◌∷◌, ◌++◌, arith,
  length, length-append, length-drop, drop, take, get_or, drop-append, take-append, All, Option,
  get_or-append_left,
}
use epass_usb_responder.Outcome.{ok, slice-eq-take}
use epass_usb_responder.Protocol.Words.{
  IsByte, word32_at-same, word16_at-same, read_le16-inside, read_le32-inside,
}
use epass_usb_responder.Protocol.Frame.{Frame, FrameHeader, header_size, decode_frame}
use epass_usb_responder.Protocol.Frame.Canonical.{IsDecoded, decode_frame-IsDecoded}
use epass_usb_responder.Responder.Rx.{
  Rx, RxEvent, Run, ret, max_payload, announced_size, decoded, take_frame, read_body,
  read_frame_buffered,
}
use epass_usb_responder.Responder.Rx.Pending.{data_of, pending, AreHealthy, Fits, rx_fill-HasFilled}

-- If `n` bytes of a list are at the front of the buffer, they are at the front of what is pending.
take-append_left {ℓ} :
    {A : Type ℓ} (n : ℕ) (xs ys : List A) → n ≤ length xs → take n (xs ++ ys) ≡ take n xs
take-append_left zero xs ys h = refl
take-append_left (suc n) [] ys h = absurd (omega arith)
take-append_left (suc n) (x ∷ xs) ys h = ap (λ zs. x ∷ zs) (take-append_left n xs ys (omega arith))

drop-append_left {ℓ} :
    {A : Type ℓ} (n : ℕ) (xs ys : List A) → n ≤ length xs → drop n (xs ++ ys) ≡ drop n xs ++ ys
drop-append_left zero xs ys h = refl
drop-append_left (suc n) [] ys h = absurd (omega arith)
drop-append_left (suc n) (x ∷ xs) ys h = drop-append_left n xs ys (omega arith)

announced_size-front :
    (buf raw : List ℕ) (f : Frame)
    → IsDecoded raw f
    → f.header.payload_len ≤ max_payload
    → header_size ≤ length buf
    → ((i : ℕ) → i < header_size → get_or buf i 0 ≡ get_or raw i 0)
    → announced_size buf ≡ ok (length raw)
unfolding announced_size
announced_size-front buf raw f d small long same =
    rw
      (
        read_le32-inside buf 0 (omega arith),
        read_le16-inside buf 4 (omega arith),
        read_le32-inside buf 16 (omega arith),
        word32_at-same buf raw 0 header_size same (omega arith),
        word16_at-same buf raw 4 header_size same (omega arith),
        word32_at-same buf raw 16 header_size same (omega arith),
        d.magic,
        d.version,
        ← ap (λ (h : FrameHeader). h.payload_len) d.header,
      )
      (ground (arith, d.size))

-- The call returned the frame, and `rest` is what is pending then.
pub record HasFrame (f : Frame) (rest : List ℕ) (r : Run (Option Frame)) : Type 0 where
  pub rt' : Rx
  pub es' : List RxEvent
  pub returns : r ≡ ret (some f) rt' es'
  pub leaves : pending rt' es' ≡ rest
  pub healthy : AreHealthy es'
  pub fits : Fits rt'

module _ (malloc : ℕ → Bool) (all : (n : ℕ) → malloc n ≡ true) (raw rest : List ℕ) (f : Frame)
    (bytes : All IsByte raw) (decodes : decode_frame malloc raw ≡ ok f) where
  take_frame-HasFrame :
      (rt : Rx) (es : List RxEvent)
      → length raw ≤ length rt.buf
      → pending rt es ≡ raw ++ rest
      → AreHealthy es
      → Fits rt
      → HasFrame f rest (take_frame malloc (length raw) rt es)
  unfolding take_frame decoded
  take_frame-HasFrame rt es enough same healthy fits = record {
    rt' = record rt { buf = drop (length raw) rt.buf };
    es' = es;
    returns =
        rw (all (length raw), slice-eq-take rt.buf 0 (length raw) (omega arith), front, decodes)
          refl;
    leaves =
        sym (drop-append_left (length raw) rt.buf (data_of es) enough)
        ∙ ap (λ (bs : List ℕ). drop (length raw) bs) same
        ∙ drop-append raw rest (length raw) refl;
    healthy = healthy;
    fits = omega (arith, length-drop (length raw) rt.buf);
  }
    where
      front : take (length raw) rt.buf ≡ raw
      front =
          sym (take-append_left (length raw) rt.buf (data_of es) enough)
          ∙ ap (λ (bs : List ℕ). take (length raw) bs) same
          ∙ take-append raw rest (length raw) refl

  read_body-HasFrame :
      (rt : Rx) (es : List RxEvent)
      → pending rt es ≡ raw ++ rest
      → AreHealthy es
      → Fits rt
      → HasFrame f rest (read_body malloc rt es (ok (length raw)))
  unfolding read_body
  read_body-HasFrame rt es same healthy fits =
      let h =
        rx_fill-HasFilled malloc all (length raw) (suc (length es)) rt es (omega arith) healthy fits
          (rw same (omega (arith, length-append raw rest))) in
      rw h.returns
        (take_frame-HasFrame h.rt' h.es' h.enough (h.same_pending ∙ same) h.healthy h.fits)

  -- With an allocator that grants every request, if the pending bytes, those in the buffer and
  -- those that healthy transfers still bring, begin with a frame that the decoder accepts, of at
  -- most 8 MiB of payload, then the call returns that frame, however the transfers cut the bytes
  -- and whatever waits stand between them; what follows stays pending, and the buffer fits its
  -- capacity again.
  pub read_frame_buffered-HasFrame :
      (rt : Rx) (es : List RxEvent)
      → f.header.payload_len ≤ max_payload
      → AreHealthy es
      → Fits rt
      → pending rt es ≡ raw ++ rest
      → HasFrame f rest (read_frame_buffered malloc rt es)
  unfolding read_frame_buffered
  read_frame_buffered-HasFrame rt es small healthy fits same =
      let h =
        rx_fill-HasFilled malloc all header_size (suc (length es)) rt es (omega arith) healthy fits
          (rw same (omega (arith, length-append raw rest, d.long))) in
      rw
        (
          h.returns,
          announced_size-front h.rt'.buf raw f d small h.enough
              (front h.rt' h.es' h.enough (h.same_pending ∙ same)),
        )
        (read_body-HasFrame h.rt' h.es' (h.same_pending ∙ same) h.healthy h.fits)
    where
      d : IsDecoded raw f
      d = decode_frame-IsDecoded malloc raw f bytes decodes

      front :
          (rt1 : Rx) (es1 : List RxEvent)
          → header_size ≤ length rt1.buf
          → pending rt1 es1 ≡ raw ++ rest
          → (i : ℕ) → i < header_size
          → get_or rt1.buf i 0 ≡ get_or raw i 0
      front rt1 es1 long e i h =
          sym (get_or-append_left rt1.buf (data_of es1) i 0 (omega arith))
          ∙ ap (λ (bs : List ℕ). get_or bs i 0) e
          ∙ get_or-append_left raw rest i 0 (omega (arith, d.long))
