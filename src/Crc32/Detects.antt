-- ===== src/Crc32/Detects.antt =====
-- The steps of the register of src/crc32.c as functions of the register and the byte.
use epass_usb_responder.Prelude.{
  ℕ, zero, suc, ◌/◌, ◌%◌, ◌^◌, ◌<◌, ◌≡◌, ◌≢◌, refl, sym, ap, ◌∙◌, inl, inr, List, [], ◌∷◌, ◌++◌,
  arith, bit_xor, All, All-append,
}
use epass_usb_responder.Prelude.Bits.{bit_xor-lt, bit_xor_cancel, bit_xor_shift, bit_xor_comm}
use epass_usb_responder.Crc32.{crc_bit, crc_bits, crc_byte, crc_bytes, crc32}
use epass_usb_responder.Crc32.Bounds.{
  polynomial, parity, crc_bit_even, crc_bit_odd, crc_bit-lt, crc_byte-lt, crc_bytes-lt,
}

-- The highest bit of the register after a round is the lowest bit before it.
top-crc_bit : (crc : ℕ) → crc < 2 ^ 32 → crc_bit crc / 2 ^ 31 ≡ crc % 2
top-crc_bit crc h = elim (parity crc) [
  | inl e ↦ rw (crc_bit_even crc e) (omega arith)
  | inr e ↦ rw (crc_bit_odd crc e, bit_xor_shift 31 (crc / 2) polynomial, small) (rw e)
]
  where
    small : crc / 2 / 2 ^ 31 ≡ 0
    small = omega arith

bit_xor-injective :
    (a c b : ℕ) → a < 2 ^ 32 → c < 2 ^ 32 → b < 2 ^ 32 → bit_xor a b ≡ bit_xor c b → a ≡ c
bit_xor-injective a c b ha hc hb e =
    sym (bit_xor_cancel 32 a b ha hb) ∙ ap (λ (t : ℕ). bit_xor t b) e ∙ bit_xor_cancel 32 c b hc hb

crc_bit-injective : (x y : ℕ) → x < 2 ^ 32 → y < 2 ^ 32 → crc_bit x ≡ crc_bit y → x ≡ y
crc_bit-injective x y hx hy e = elim (parity x) [
  | inl p ↦
      omega (arith, same_parity, crc_bit_even x p, crc_bit_even y (omega (arith, same_parity)), e)
  | inr p ↦ omega (arith, same_parity, odd_halves p)
]
  where
    same_parity : x % 2 ≡ y % 2
    same_parity = sym (top-crc_bit x hx) ∙ ap (λ (t : ℕ). t / 2 ^ 31) e ∙ top-crc_bit y hy

    odd_halves : x % 2 ≡ 1 → x / 2 ≡ y / 2
    odd_halves p =
        bit_xor-injective (x / 2) (y / 2) polynomial (omega arith) (omega arith) (omega arith)
          (sym (crc_bit_odd x p) ∙ e ∙ crc_bit_odd y (sym same_parity ∙ p))

crc_bits-injective : (n x y : ℕ) → x < 2 ^ 32 → y < 2 ^ 32 → crc_bits n x ≡ crc_bits n y → x ≡ y
unfolding crc_bits
crc_bits-injective zero x y hx hy e = e
crc_bits-injective (suc n) x y hx hy e =
    crc_bit-injective x y hx hy
      (crc_bits-injective n (crc_bit x) (crc_bit y) (crc_bit-lt x hx) (crc_bit-lt y hy) e)

crc_byte-injective :
    (x y b c : ℕ)
    → x < 2 ^ 32
    → y < 2 ^ 32
    → b < 256
    → c < 256
    → crc_byte x b ≡ crc_byte y c
    → bit_xor x b ≡ bit_xor y c
unfolding crc_byte
crc_byte-injective x y b c hx hy hb hc e =
    crc_bits-injective 8 (bit_xor x b) (bit_xor y c) (bit_xor-lt 32 x b hx (omega arith))
      (bit_xor-lt 32 y c hy (omega arith)) e

-- After the same bytes, equal registers come from equal registers.
pub crc_bytes-injective :
    (bs : List ℕ) (x y : ℕ)
    → x < 2 ^ 32
    → y < 2 ^ 32
    → All (λ b. b < 256) bs
    → crc_bytes x bs ≡ crc_bytes y bs
    → x ≡ y
unfolding crc_bytes
crc_bytes-injective [] x y hx hy hb e = e
crc_bytes-injective (b ∷ bs) x y hx hy hb e = bit_xor-injective x y b hx hy (omega (arith, hb.0)) (
    crc_byte-injective x y b b hx hy hb.0 hb.0 (
      crc_bytes-injective bs (crc_byte x b) (crc_byte y b) (crc_byte-lt x b hx hb.0)
        (crc_byte-lt y b hy hb.0) hb.1 e))

crc_bytes-append :
    (crc : ℕ) (pre post : List ℕ) → crc_bytes crc (pre ++ post) ≡ crc_bytes (crc_bytes crc pre) post
unfolding crc_bytes
crc_bytes-append crc [] post = refl
crc_bytes-append crc (b ∷ pre) post = crc_bytes-append (crc_byte crc b) pre post

abbrev start : ℕ
start = 0xFFFFFFFF

-- The byte at one place is determined by the checksum and the bytes around it.
crc32-injective :
    (pre post : List ℕ) (x y : ℕ)
    → All (λ b. b < 256) pre
    → All (λ b. b < 256) post
    → x < 256
    → y < 256
    → crc32 (pre ++ x ∷ post) ≡ crc32 (pre ++ y ∷ post)
    → x ≡ y
unfolding crc32 crc_bytes
crc32-injective pre post x y hpre hpost hx hy e =
    bit_xor-injective x y (crc_bytes start pre) (omega arith) (omega arith) before
      (swapped x hx ∙ same_mix ∙ sym (swapped y hy))
  where
    before : crc_bytes start pre < 2 ^ 32
    before = crc_bytes-lt pre start (omega arith) hpre

    after : (b : ℕ) → b < 256 → crc_bytes start (pre ++ b ∷ post) < 2 ^ 32
    after b hb =
        crc_bytes-lt (pre ++ b ∷ post) start (omega arith)
          (All-append (λ b. b < 256) pre (b ∷ post) hpre (hb, hpost))

    whole :
        (b : ℕ)
        → crc_bytes start (pre ++ b ∷ post) ≡ crc_bytes (crc_byte (crc_bytes start pre) b) post
    whole b = crc_bytes-append start pre (b ∷ post)

    same_end :
        crc_bytes (crc_byte (crc_bytes start pre) x) post
        ≡ crc_bytes (crc_byte (crc_bytes start pre) y) post
    same_end =
        sym (whole x)
        ∙ bit_xor-injective _ _ 0xFFFFFFFF (after x hx) (after y hy) (omega arith) e
        ∙ whole y

    same_mix : bit_xor (crc_bytes start pre) x ≡ bit_xor (crc_bytes start pre) y
    same_mix = crc_byte-injective _ _ x y before before hx hy (
        crc_bytes-injective post _ _ (crc_byte-lt _ x before hx) (crc_byte-lt _ y before hy) hpost
          same_end)

    swapped : (b : ℕ) → b < 256 → bit_xor b (crc_bytes start pre) ≡ bit_xor (crc_bytes start pre) b
    swapped b hb = bit_xor_comm 32 b (crc_bytes start pre) (omega arith) before

-- Byte strings that differ in exactly one byte have different checksums.
pub crc32_detects :
    (pre post : List ℕ) (x y : ℕ)
    → All (λ b. b < 256) pre
    → All (λ b. b < 256) post
    → x < 256
    → y < 256
    → x ≢ y
    → crc32 (pre ++ x ∷ post) ≢ crc32 (pre ++ y ∷ post)
crc32_detects pre post x y hpre hpost hx hy differ e =
    differ (crc32-injective pre post x y hpre hpost hx hy e)
