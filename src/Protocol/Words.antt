-- ===== src/Protocol/Words.antt =====
-- The little-endian words of src/protocol.c (and of src/responder.c, which has the same readers).
-- Bytes are numbers below 256; `x & 0xFF` after a shift is a remainder.
use epass_usb_responder.Prelude.{
  ℕ, ◌+◌, ◌*◌, ◌/◌, ◌%◌, ◌^◌, ◌≤◌, ◌<◌, ◌≡◌, List, [], ◌∷◌, ◌++◌, ap, ◌∙◌, refl, arith, bit_or,
  length, get_or, All, All-get_or,
}
use epass_usb_responder.Prelude.Bits.{bit_or_disjoint}
use epass_usb_responder.Outcome.{Outcome, ok, ◌>>=◌, load, load-eq-get_or, load-append}

abbrev pub IsByte : ℕ → Type 0
IsByte b = b < 256

-- `(uint16_t)(p[0] | ((uint16_t)p[1] << 8))`
unfoldable pub word16 : ℕ → ℕ → ℕ
word16 b0 b1 = bit_or b0 (b1 * 2 ^ 8) % 2 ^ 16

-- The four bytes of `read_le32` put together.
unfoldable pub word32 : ℕ → ℕ → ℕ → ℕ → ℕ
word32 b0 b1 b2 b3 = bit_or (bit_or (bit_or b0 (b1 * 2 ^ 8)) (b2 * 2 ^ 16)) (b3 * 2 ^ 24)

unfoldable pub read_le16 : List ℕ → ℕ → Outcome ℕ
read_le16 p off = do b0 ← load p off; b1 ← load p (off + 1); ok (word16 b0 b1)

unfoldable pub read_le32 : List ℕ → ℕ → Outcome ℕ
read_le32 p off = do
  b0 ← load p off
  b1 ← load p (off + 1)
  b2 ← load p (off + 2)
  b3 ← load p (off + 3)
  ok (word32 b0 b1 b2 b3)

unfoldable pub write_le16 : ℕ → List ℕ
write_le16 v = (v % 2 ^ 8) ∷ (v / 2 ^ 8 % 2 ^ 8) ∷ []

unfoldable pub write_le32 : ℕ → List ℕ
write_le32 v = (v % 2 ^ 8) ∷ (v / 2 ^ 8 % 2 ^ 8) ∷ (v / 2 ^ 16 % 2 ^ 8) ∷ (v / 2 ^ 24 % 2 ^ 8) ∷ []

pub word16_sum : (a b : ℕ) → IsByte a → IsByte b → word16 a b ≡ a + b * 256
unfolding word16
word16_sum a b ha hb = omega (arith, bit_or_disjoint 8 a b ha)

pub word32_sum :
    (a b c d : ℕ)
    → IsByte a
    → IsByte b
    → IsByte c
    → IsByte d
    → word32 a b c d ≡ a + b * 256 + c * 65536 + d * 16777216
unfolding word32
word32_sum a b c d ha hb hc hd =
    rw
      (
        bit_or_disjoint 8 a b ha,
        bit_or_disjoint 16 (a + b * 2 ^ 8) c (omega arith),
        bit_or_disjoint 24 (a + b * 2 ^ 8 + c * 2 ^ 16) d (omega arith),
      )
      (omega arith)

-- Reading back what was written.
pub word16-write : (v : ℕ) → v < 2 ^ 16 → word16 (v % 2 ^ 8) (v / 2 ^ 8 % 2 ^ 8) ≡ v
word16-write v h = omega (arith, word16_sum (v % 2 ^ 8) (v / 2 ^ 8 % 2 ^ 8))

pub word32-write :
    (v : ℕ)
    → v < 2 ^ 32
    → word32 (v % 2 ^ 8) (v / 2 ^ 8 % 2 ^ 8) (v / 2 ^ 16 % 2 ^ 8) (v / 2 ^ 24 % 2 ^ 8) ≡ v
word32-write v h =
    omega
      (arith, word32_sum (v % 2 ^ 8) (v / 2 ^ 8 % 2 ^ 8) (v / 2 ^ 16 % 2 ^ 8) (v / 2 ^ 24 % 2 ^ 8))

-- Writing what was read.
pub write-word16 : (a b : ℕ) → IsByte a → IsByte b → write_le16 (word16 a b) ≡ a ∷ b ∷ []
unfolding write_le16
write-word16 a b ha hb = rw (word16_sum a b ha hb) (ground arith)

pub write-word32 :
    (a b c d : ℕ)
    → IsByte a
    → IsByte b
    → IsByte c
    → IsByte d
    → write_le32 (word32 a b c d) ≡ a ∷ b ∷ c ∷ d ∷ []
unfolding write_le32
write-word32 a b c d ha hb hc hd = rw (word32_sum a b c d ha hb hc hd) (ground arith)

pub word16-lt : (a b : ℕ) → word16 a b < 2 ^ 16
unfolding word16
word16-lt a b = omega arith

pub word32-lt : (a b c d : ℕ) → IsByte a → IsByte b → IsByte c → IsByte d → word32 a b c d < 2 ^ 32
word32-lt a b c d ha hb hc hd = omega (arith, word32_sum a b c d ha hb hc hd)

-- Inside a buffer the readers do not fault.
unfoldable pub word16_at : List ℕ → ℕ → ℕ
word16_at p off = word16 (get_or p off 0) (get_or p (off + 1) 0)

unfoldable pub word32_at : List ℕ → ℕ → ℕ
word32_at p off =
    word32 (get_or p off 0) (get_or p (off + 1) 0) (get_or p (off + 2) 0) (get_or p (off + 3) 0)

pub read_le16-inside :
    (p : List ℕ) (off : ℕ) → off + 2 ≤ length p → read_le16 p off ≡ ok (word16_at p off)
unfolding read_le16 word16_at
read_le16-inside p off h =
    rw (load-eq-get_or p off (omega arith), load-eq-get_or p (off + 1) (omega arith))

pub read_le32-inside :
    (p : List ℕ) (off : ℕ) → off + 4 ≤ length p → read_le32 p off ≡ ok (word32_at p off)
unfolding read_le32 word32_at
read_le32-inside p off h = rw (
  load-eq-get_or p off (omega arith),
  load-eq-get_or p (off + 1) (omega arith),
  load-eq-get_or p (off + 2) (omega arith),
  load-eq-get_or p (off + 3) (omega arith),
)

pub word32_at-lt : (p : List ℕ) (off : ℕ) → All IsByte p → word32_at p off < 2 ^ 32
unfolding word32_at
word32_at-lt p off h = word32-lt _ _ _ _ (at off) (at (off + 1)) (at (off + 2)) (at (off + 3))
  where
    at : (i : ℕ) → IsByte (get_or p i 0)
    at i = All-get_or IsByte p i 0 h (omega arith)

pub word16_at-lt : (p : List ℕ) (off : ℕ) → word16_at p off < 2 ^ 16
unfolding word16_at
word16_at-lt p off = word16-lt _ _

-- Behind a prefix the same words are found.
pub read_le16-append :
    (pre rest : List ℕ) (off i : ℕ)
    → off ≡ length pre + i
    → read_le16 (pre ++ rest) off ≡ read_le16 rest i
unfolding read_le16
read_le16-append pre rest off i e =
    rw (load-append pre rest off i e, load-append pre rest (off + 1) (i + 1) (omega arith))

pub read_le32-append :
    (pre rest : List ℕ) (off i : ℕ)
    → off ≡ length pre + i
    → read_le32 (pre ++ rest) off ≡ read_le32 rest i
unfolding read_le32
read_le32-append pre rest off i e = rw (
  load-append pre rest off i e,
  load-append pre rest (off + 1) (i + 1) (omega arith),
  load-append pre rest (off + 2) (i + 2) (omega arith),
  load-append pre rest (off + 3) (i + 3) (omega arith),
)

-- A word at the start of what was written.
pub read-write_le16 :
    (v : ℕ) (rest : List ℕ) → v < 2 ^ 16 → read_le16 (write_le16 v ++ rest) 0 ≡ ok v
unfolding read_le16 write_le16 load
read-write_le16 v rest h = ap ok (word16-write v h)

pub read-write_le32 :
    (v : ℕ) (rest : List ℕ) → v < 2 ^ 32 → read_le32 (write_le32 v ++ rest) 0 ≡ ok v
unfolding read_le32 write_le32 load
read-write_le32 v rest h = ap ok (word32-write v h)

pub read_le16-written :
    (pre rest : List ℕ) (v off : ℕ)
    → v < 2 ^ 16
    → off ≡ length pre
    → read_le16 (pre ++ (write_le16 v ++ rest)) off ≡ ok v
read_le16-written pre rest v off h e =
    read_le16-append pre (write_le16 v ++ rest) off 0 (omega arith) ∙ read-write_le16 v rest h

pub read_le32-written :
    (pre rest : List ℕ) (v off : ℕ)
    → v < 2 ^ 32
    → off ≡ length pre
    → read_le32 (pre ++ (write_le32 v ++ rest)) off ≡ ok v
read_le32-written pre rest v off h e =
    read_le32-append pre (write_le32 v ++ rest) off 0 (omega arith) ∙ read-write_le32 v rest h

pub length-write_le16 : (v : ℕ) → length (write_le16 v) ≡ 2
unfolding write_le16
length-write_le16 v = refl

pub length-write_le32 : (v : ℕ) → length (write_le32 v) ≡ 4
unfolding write_le32
length-write_le32 v = refl

-- Words of buffers that agree there.
pub word16_at-same :
    (p q : List ℕ) (off size : ℕ)
    → ((i : ℕ) → i < size → get_or p i 0 ≡ get_or q i 0)
    → off + 2 ≤ size
    → word16_at p off ≡ word16_at q off
unfolding word16_at
word16_at-same p q off size same h = rw (same off (omega arith), same (off + 1) (omega arith))

pub word32_at-same :
    (p q : List ℕ) (off size : ℕ)
    → ((i : ℕ) → i < size → get_or p i 0 ≡ get_or q i 0)
    → off + 4 ≤ size
    → word32_at p off ≡ word32_at q off
unfolding word32_at
word32_at-same p q off size same h = rw (
  same off (omega arith),
  same (off + 1) (omega arith),
  same (off + 2) (omega arith),
  same (off + 3) (omega arith),
)
