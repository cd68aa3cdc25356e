-- ===== src/Crc32/Bounds.antt =====
-- The range of the register of src/crc32.c.
use epass_usb_responder.Prelude.{
  ℕ, zero, suc, ◌/◌, ◌%◌, ◌^◌, ◌<◌, ◌≡◌, refl, ◌⊎◌, inl, inr, List, [], ◌∷◌, arith, bit_xor, All,
}
use epass_usb_responder.Prelude.Bits.{bit_and-one, bit_xor-zero, bit_xor-lt}
use epass_usb_responder.Crc32.{crc_bit, crc_bits, crc_byte, crc_bytes, crc32}

abbrev pub polynomial : ℕ
polynomial = 0xEDB88320

pub parity : (n : ℕ) → (n % 2 ≡ 0) ⊎ (n % 2 ≡ 1)
parity n = omega arith

-- One round on an even and on an odd register.
pub crc_bit_even : (crc : ℕ) → crc % 2 ≡ 0 → crc_bit crc ≡ crc / 2
unfolding crc_bit
crc_bit_even crc h = rw (bit_and-one crc, h) (bit_xor-zero (crc / 2))

pub crc_bit_odd : (crc : ℕ) → crc % 2 ≡ 1 → crc_bit crc ≡ bit_xor (crc / 2) polynomial
unfolding crc_bit
crc_bit_odd crc h = rw (bit_and-one crc, h) refl

pub crc_bit-lt : (crc : ℕ) → crc < 2 ^ 32 → crc_bit crc < 2 ^ 32
crc_bit-lt crc h = elim (parity crc) [
  | inl e ↦ rw (crc_bit_even crc e) (omega arith)
  | inr e ↦ rw (crc_bit_odd crc e) (bit_xor-lt 32 (crc / 2) polynomial (omega arith) (omega arith))
]

pub crc_bits-lt : (n crc : ℕ) → crc < 2 ^ 32 → crc_bits n crc < 2 ^ 32
unfolding crc_bits
crc_bits-lt zero crc h = h
crc_bits-lt (suc n) crc h = crc_bits-lt n (crc_bit crc) (crc_bit-lt crc h)

pub crc_byte-lt : (crc b : ℕ) → crc < 2 ^ 32 → b < 256 → crc_byte crc b < 2 ^ 32
unfolding crc_byte
crc_byte-lt crc b h hb = crc_bits-lt 8 (bit_xor crc b) (bit_xor-lt 32 crc b h (omega arith))

pub crc_bytes-lt :
    (bs : List ℕ) (crc : ℕ) → crc < 2 ^ 32 → All (λ b. b < 256) bs → crc_bytes crc bs < 2 ^ 32
unfolding crc_bytes
crc_bytes-lt [] crc h hb = h
crc_bytes-lt (b ∷ bs) crc h hb = crc_bytes-lt bs (crc_byte crc b) (crc_byte-lt crc b h hb.0) hb.1

-- The checksum of any bytes is a 32-bit word.
pub crc32-lt : (bs : List ℕ) → All (λ b. b < 256) bs → crc32 bs < 2 ^ 32
unfolding crc32
crc32-lt bs h =
    bit_xor-lt 32 (crc_bytes 0xFFFFFFFF bs) 0xFFFFFFFF (crc_bytes-lt bs 0xFFFFFFFF (omega arith) h)
      (omega arith)
