-- ===== src/Protocol/Frame/Corruption.antt =====
-- `decode_frame` of src/protocol.c on a frame one of whose payload bytes was changed on the way.
use epass_usb_responder.Prelude.{
  ℕ, ◌+◌, ◌≤◌, ◌≡◌, ◌≢◌, refl, sym, ap, ◌∙◌, List, ◌∷◌, ◌++◌, Bool, arith, length, All, All-append,
  drop-append, get_or-append_left,
}
use epass_usb_responder.Outcome.{Outcome, ok, failed, fault}
use epass_usb_responder.Crc32.{crc32}
use epass_usb_responder.Crc32.Detects.{crc32_detects}
use epass_usb_responder.Protocol.Words.{IsByte, word32_at}
use epass_usb_responder.Protocol.Frame.{Frame, header_size, decode_frame}
use epass_usb_responder.Protocol.Frame.Safety.{decode_frame-ne-fault}
use epass_usb_responder.Protocol.Frame.Canonical.{IsDecoded, decode_frame-IsDecoded}

word32_at-append :
    (p q : List ℕ) (off : ℕ) → off + 4 ≤ length p → word32_at (p ++ q) off ≡ word32_at p off
unfolding word32_at
word32_at-append p q off h = rw (
  get_or-append_left p q off 0 (omega arith),
  get_or-append_left p q (off + 1) 0 (omega arith),
  get_or-append_left p q (off + 2) 0 (omega arith),
  get_or-append_left p q (off + 3) 0 (omega arith),
)

-- The checksum field of an accepted frame is that of the bytes behind its header.
accepted_checksum :
    (malloc : ℕ → Bool) (head payload : List ℕ) (f : Frame)
    → length head ≡ header_size
    → All IsByte (head ++ payload)
    → decode_frame malloc (head ++ payload) ≡ ok f
    → word32_at head 20 ≡ crc32 payload
accepted_checksum malloc head payload f h bytes e =
    sym (word32_at-append head payload 20 (omega arith))
    ∙ d.checksum
    ∙ ap crc32 (drop-append head payload header_size h)
  where
    d : IsDecoded (head ++ payload) f
    d = decode_frame-IsDecoded malloc (head ++ payload) f bytes e

refused : (r : Outcome Frame) → r ≢ fault → ((g : Frame) → r ≢ ok g) → r ≡ failed
refused (ok g) safe never = absurd (never g refl)
refused failed safe never = refl
refused fault safe never = absurd (safe refl)

module _ (malloc : ℕ → Bool) (head pre post : List ℕ) (x y : ℕ) (f : Frame) where
  -- If a frame is accepted, the same header with one payload byte changed to another byte is
  -- refused.
  pub decode_frame-corrupted :
      length head ≡ header_size
      → All IsByte head
      → All IsByte pre
      → All IsByte post
      → IsByte x
      → IsByte y
      → x ≢ y
      → decode_frame malloc (head ++ (pre ++ x ∷ post)) ≡ ok f
      → decode_frame malloc (head ++ (pre ++ y ∷ post)) ≡ failed
  decode_frame-corrupted size hhead hpre hpost hx hy differ accepted =
      refused (decode_frame malloc (head ++ (pre ++ y ∷ post)))
        (decode_frame-ne-fault malloc (head ++ (pre ++ y ∷ post)) (bytes y hy))
        (λ g e. crc32_detects pre post x y hpre hpost hx hy differ (
          sym (accepted_checksum malloc head (pre ++ x ∷ post) f size (bytes x hx) accepted)
          ∙ accepted_checksum malloc head (pre ++ y ∷ post) g size (bytes y hy) e))
    where
      bytes : (b : ℕ) → IsByte b → All IsByte (head ++ (pre ++ b ∷ post))
      bytes b hb =
          All-append IsByte head (pre ++ b ∷ post) hhead
            (All-append IsByte pre (b ∷ post) hpre (hb, hpost))
