-- ===== src/Examples/Payloads.antt =====
-- The payloads of src/protocol.c on concrete inputs.
use epass_usb_responder.Prelude.{
  ℕ, ◌+◌, ◌^◌, ◌≤◌, ◌≡◌, ◌≢◌, refl, Bool, true, false, ◌&&◌, none, some, List, [], ◌∷◌, ◌++◌, arith,
  All, ltb, if◌then◌else◌, map, ◌==◌, length, ◌⊎◌,
}
use epass_usb_responder.Outcome.{ok, failed, fault, ◌>>=◌}
use epass_usb_responder.Protocol.Words.{word16_at, word32_at, word16, word32}
use epass_usb_responder.Protocol.Kv.{Kv, Decoded, encode_kv, decode_kv}
use epass_usb_responder.Protocol.Kv.Encode.{kv_bytes, Encodes, encode_kv-Encodes}
use epass_usb_responder.Protocol.Kv.RoundTrip.{received, decode_kv-kv_bytes, decode_kv-encode_kv}
use epass_usb_responder.Protocol.Kv.Safety.{IsNull, decode_kv-Settled}
use epass_usb_responder.Protocol.Request.{
  CommandRequest, encode_command_request, decode_command_request,
}
use epass_usb_responder.Protocol.Request.RoundTrip.{decode_command_request-encode}
use epass_usb_responder.Protocol.Request.Safety.{announced, request_at, decode_command_request-eq}
use epass_usb_responder.Protocol.Report.{
  CommandResult, encode_command_result, decode_command_result,
}
use epass_usb_responder.Protocol.Report.RoundTrip.{decode_command_result-encode}
use epass_usb_responder.Protocol.Report.Safety.{
  decode_command_result-ne-fault, decode_command_result_overflow,
}
use epass_usb_responder.Examples.Wire.{grants, are_bytes_lem}

abbrev grants_each : ℕ → ℕ → Bool
grants_each k n = true

-- `path=a`, and a value that is null.
abbrev pairs : List Kv
pairs =
    record { key = some (b'p' ∷ b'a' ∷ b't' ∷ b'h' ∷ []); value = some (b'a' ∷ []) }
    ∷ record { key = some (b'x' ∷ []); value = none }
    ∷ []

decode_kv-encode_kv_example :
    (encode_kv grants pairs >>= λ bytes. decode_kv grants_each bytes 16)
    ≡ ok (record { accepted = true; items = map received pairs })
decode_kv-encode_kv_example =
    decode_kv-encode_kv grants grants_each pairs 16 (λ n. refl) (λ k n. refl) (omega arith)
      (omega arith)

decode_kv-kv_bytes_example :
    decode_kv grants_each (kv_bytes pairs ++ (7 ∷ [])) 16
    ≡ ok (record { accepted = false; items = map received pairs })
decode_kv-kv_bytes_example =
    decode_kv-kv_bytes grants_each (λ k n. refl) pairs (7 ∷ []) 16 (omega arith) (omega arith)

encode_kv-Encodes_example : Encodes (ltb 64) (encode_kv (ltb 64) pairs) (kv_bytes pairs)
encode_kv-Encodes_example = encode_kv-Encodes (ltb 64) pairs (omega arith)

-- One item is announced, and its key ends outside.
abbrev cut_short : List ℕ
cut_short = 1 ∷ 0 ∷ 9 ∷ 0 ∷ 0 ∷ 0 ∷ 120 ∷ []

decode_kv-Settled_example :
    (decode_kv grants_each cut_short 16 ≡ failed)
    ⊎ ((d : Decoded) × (decode_kv grants_each cut_short 16 ≡ ok d)
        × (length d.items ≤ 16)
        × ((length d.items ≡ word16_at cut_short 0) ⊎ ((d.accepted ≡ false) × All IsNull d.items)))
decode_kv-Settled_example = decode_kv-Settled grants_each cut_short 16

abbrev listing : CommandRequest
listing = record {
  timeout_ms = 1000;
  max_stdout = 65536;
  max_stderr = 65536;
  command = some (b'l' ∷ b's' ∷ []);
}

decode_command_request-encode_example :
    (encode_command_request grants listing >>= decode_command_request grants) ≡ ok listing
decode_command_request-encode_example =
    decode_command_request-encode grants listing
      (record {
        timeout_fits = omega arith;
        max_stdout_fits = omega arith;
        max_stderr_fits = omega arith;
        size_fits = omega arith;
        given = refl;
      })
      refl refl

abbrev request_raw : List ℕ
request_raw = 1 ∷ 0 ∷ 0 ∷ 0 ∷ 2 ∷ 0 ∷ 0 ∷ 0 ∷ 3 ∷ 0 ∷ 0 ∷ 0 ∷ 2 ∷ 0 ∷ 0 ∷ 0 ∷ 108 ∷ 115 ∷ []

decode_command_request-eq_example : decode_command_request grants request_raw ≡ (
    if 16 + announced request_raw == length request_raw && grants (announced request_raw + 1)
    then ok (request_at request_raw)
    else failed)
decode_command_request-eq_example =
    decode_command_request-eq grants request_raw (are_bytes_lem request_raw refl) (omega arith)

abbrev outcome : CommandResult
outcome = record {
  exit_code = 1;
  timed_out = true;
  duration_ms = 20;
  stdout_data = some (104 ∷ 105 ∷ []);
  stdout_size = 2;
  stderr_data = none;
  stderr_size = 0;
}

decode_command_result-encode_example :
    (encode_command_result (2 ^ 32) grants outcome >>= decode_command_result (2 ^ 32) grants)
    ≡ ok outcome
decode_command_result-encode_example =
    decode_command_result-encode (2 ^ 32) grants outcome
      (record {
        exit_code_fits = omega arith;
        duration_fits = omega arith;
        stdout_fits = omega arith;
        stderr_fits = omega arith;
        size_fits = omega arith;
        stdout_announced = refl;
        stderr_announced = refl;
      })
      (λ n. refl)

-- The two lengths are 2 ^ 31 each.
abbrev wrapping : List ℕ
wrapping = 0 ∷ 0 ∷ 0 ∷ 0 ∷ 0 ∷ 0 ∷ 0 ∷ 0 ∷ 0 ∷ 0 ∷ 0 ∷ 0 ∷ 0 ∷ 0 ∷ 0 ∷ 128 ∷ 0 ∷ 0 ∷ 0 ∷ 128 ∷ []

wrapping_out : word32_at wrapping 12 ≡ 2 ^ 31
unfolding word32_at word32 word16
wrapping_out = refl

wrapping_err : word32_at wrapping 16 ≡ 2 ^ 31
unfolding word32_at word32 word16
wrapping_err = refl

decode_command_result-ne-fault_example : decode_command_result (2 ^ 64) grants wrapping ≢ fault
decode_command_result-ne-fault_example =
    decode_command_result-ne-fault (2 ^ 64) grants wrapping (are_bytes_lem wrapping refl)
      (omega arith)

decode_command_result_overflow_example : decode_command_result (2 ^ 32) grants wrapping ≡ fault
decode_command_result_overflow_example =
    decode_command_result_overflow grants wrapping refl (omega (arith, wrapping_out))
      (omega (arith, wrapping_out, wrapping_err)) refl
