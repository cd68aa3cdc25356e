-- ===== src/Crc32.antt =====
-- src/crc32.c: the reflected CRC-32 with the polynomial 0xEDB88320, bit by bit.
pub mod Bounds
pub mod Detects
use epass_usb_responder.Prelude.{ℕ, zero, suc, ◌-◌, ◌/◌, ◌%◌, ◌^◌, List, [], ◌∷◌, bit_and, bit_xor}

-- `crc = (crc >> 1) ^ (0xEDB88320u & (0u - (crc & 1u)))`
unfoldable pub crc_bit : ℕ → ℕ
crc_bit crc = bit_xor (crc / 2) (bit_and 0xEDB88320 ((2 ^ 32 - bit_and crc 1) % 2 ^ 32))

-- The inner loop, with `n` rounds to go.
unfoldable pub crc_bits : ℕ → ℕ → ℕ
crc_bits zero crc = crc
crc_bits (suc n) crc = crc_bits n (crc_bit crc)

-- `crc ^= data[i]` and the eight rounds.
unfoldable pub crc_byte : ℕ → ℕ → ℕ
unfolding crc_bits crc_bit
crc_byte crc b = crc_bits 8 (bit_xor crc b)

-- The outer loop over the bytes that are left.
unfoldable pub crc_bytes : ℕ → List ℕ → ℕ
crc_bytes crc [] = crc
crc_bytes crc (b ∷ bs) = crc_bytes (crc_byte crc b) bs

-- The `size` bytes at `data` are the list.
unfoldable pub crc32 : List ℕ → ℕ
unfolding crc_bytes crc_byte
crc32 bs = bit_xor (crc_bytes 0xFFFFFFFF bs) 0xFFFFFFFF
