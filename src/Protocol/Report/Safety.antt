-- ===== src/Protocol/Report/Safety.antt =====
-- `decode_command_result` of src/protocol.c on any payload, with `size_t` of 64 and of 32 bits.
use epass_usb_responder.Prelude.{
  ℕ, ◌+◌, ◌^◌, ◌<◌, ◌≤◌, ◌≡◌, ◌≢◌, true, Bool, List, ltb, length, arith, Bool-cases, inl, inr, All,
}
use epass_usb_responder.Outcome.{fault, load-eq-get_or, slice, slice-eq-take}
use epass_usb_responder.Protocol.Words.{IsByte, word32_at, word32_at-lt, read_le32-inside}
use epass_usb_responder.Protocol.Report.{copy_stream, decode_command_result}
use native.Mathlib.Nat.{mod-eq_of_lt}

copy_stream-ne-fault :
    (malloc : ℕ → Bool) (payload : List ℕ) (off n : ℕ)
    → off + n ≤ length payload
    → copy_stream malloc payload off n ≢ fault
unfolding copy_stream
copy_stream-ne-fault malloc payload off n h = ground (arith, slice-eq-take payload off n h)

small :
    {size_mod : ℕ} (a b : ℕ) → a < 2 ^ 32 → b < 2 ^ 32 → 2 ^ 34 ≤ size_mod → 20 + a + b < size_mod
small a b ha hb h = omega arith

-- Where the modulus of `size_t` is at least 2 ^ 34, decoding a command result reads nothing
-- outside the payload, whatever the allocator answers.
pub decode_command_result-ne-fault :
    (size_mod : ℕ) (malloc : ℕ → Bool) (payload : List ℕ)
    → All IsByte payload
    → 2 ^ 34 ≤ size_mod
    → decode_command_result size_mod malloc payload ≢ fault
unfolding decode_command_result
decode_command_result-ne-fault size_mod malloc payload bytes wide =
    elim (Bool-cases (ltb (length payload) 20)) [
      | inl short ↦ rw short (λ e. cc)
      | inr long ↦
          rw
            (
              long,
              read_le32-inside payload 0 (ground arith),
              load-eq-get_or payload 4 (ground arith),
              read_le32-inside payload 8 (ground arith),
              read_le32-inside payload 12 (ground arith),
              read_le32-inside payload 16 (ground arith),
            )
            (ground (
              arith,
              word32_at-lt payload 12 bytes,
              word32_at-lt payload 16 bytes,
              mod-eq_of_lt (
                  small (word32_at payload 12) (word32_at payload 16)
                    (word32_at-lt payload 12 bytes) (word32_at-lt payload 16 bytes) wide),
              copy_stream-ne-fault malloc payload 20 (word32_at payload 12),
              copy_stream-ne-fault malloc payload (20 + word32_at payload 12)
                  (word32_at payload 16),
            ))
    ]

-- Where `size_t` has 32 bits, a payload of 20 bytes whose two lengths add up to 2 ^ 32, the first
-- not zero, passes the test of the length, and the copy of the first stream reads outside the
-- payload, if the allocator grants its buffer.
pub decode_command_result_overflow :
    (malloc : ℕ → Bool) (payload : List ℕ)
    → length payload ≡ 20
    → 0 < word32_at payload 12
    → word32_at payload 12 + word32_at payload 16 ≡ 2 ^ 32
    → malloc (word32_at payload 12) ≡ true
    → decode_command_result (2 ^ 32) malloc payload ≡ fault
unfolding decode_command_result
decode_command_result_overflow malloc payload size pos sum granted =
    rw
      (
        read_le32-inside payload 0 (omega arith),
        load-eq-get_or payload 4 (omega arith),
        read_le32-inside payload 8 (omega arith),
        read_le32-inside payload 12 (omega arith),
        read_le32-inside payload 16 (omega arith),
      )
      (unfold copy_stream slice in ground arith)
