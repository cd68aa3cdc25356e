-- ===== src/Examples/Wire.antt =====
-- The frames of src/protocol.c and the checksum of src/crc32.c on concrete inputs.
use epass_usb_responder.Prelude.{
  zero, suc, ap, length, ◌-◌, ◌^◌, ℕ, ◌≡◌, ◌≢◌, refl, Bool, true, some, List, [], ◌∷◌, ◌++◌, arith,
  All, ltb, ◌&&◌,
}
use epass_usb_responder.Outcome.{ok, failed, fault, ◌>>=◌, load, slice}
use epass_usb_responder.Crc32.{crc32}
use epass_usb_responder.Crc32.Detects.{crc32_detects}
use epass_usb_responder.Protocol.Words.{IsByte, word16, word32, read_le16, read_le32}
use epass_usb_responder.Protocol.Frame.{
  Frame, encode_frame, decode_frame, read_header, copy_payload,
}
use epass_usb_responder.Protocol.Frame.Safety.{decode_frame-ne-fault}
use epass_usb_responder.Protocol.Frame.RoundTrip.{stamped, decode_frame-encode_frame}
use epass_usb_responder.Protocol.Frame.Canonical.{encode_frame-decode_frame}
use epass_usb_responder.Protocol.Frame.Corruption.{decode_frame-corrupted}
use epass_usb_responder.Protocol.Frame.Overflow.{encode_frame_overflow}

check_value : crc32 (b'1' ∷ b'2' ∷ b'3' ∷ b'4' ∷ b'5' ∷ b'6' ∷ b'7' ∷ b'8' ∷ b'9' ∷ []) ≡ 0xCBF43926
unfolding crc32
check_value = refl

abbrev pub grants : ℕ → Bool
grants n = true

abbrev pub are_bytes : List ℕ → Bool
are_bytes [] = true
are_bytes (b ∷ bs) = ltb b 256 && are_bytes bs

pub are_bytes_lem : (bs : List ℕ) → are_bytes bs ≡ true → All IsByte bs
are_bytes_lem [] h = tt
are_bytes_lem (b ∷ bs) h = (ground arith, are_bytes_lem bs (ground arith))

-- A chunk of a file, as a client builds it.
abbrev pub chunk : Frame
chunk = record {
  header = record {
    magic = 0;
    version = 0;
    type = 11;
    flags = 0;
    request_id = 7;
    payload_len = 2;
    payload_crc32 = 0;
  };
  payload = some (104 ∷ 105 ∷ []);
}

abbrev pub chunk_head : List ℕ
chunk_head =
    83 ∷ 65 ∷ 80 ∷ 69 ∷ 1 ∷ 0 ∷ 11 ∷ 0 ∷ 0 ∷ 0 ∷ 0 ∷ 0 ∷ 7 ∷ 0 ∷ 0 ∷ 0 ∷ 2 ∷ 0 ∷ 0 ∷ 0 ∷ 172 ∷ 42
    ∷ 147 ∷ 216 ∷ []

abbrev pub chunk_raw : List ℕ
chunk_raw = chunk_head ++ (104 ∷ 105 ∷ [])

abbrev pub chunk_back : Frame
chunk_back = record {
  header = record {
    magic = 0x45504153;
    version = 1;
    type = 11;
    flags = 0;
    request_id = 7;
    payload_len = 2;
    payload_crc32 = 0xD8932AAC;
  };
  payload = some (104 ∷ 105 ∷ []);
}

pub chunk_decodes : decode_frame grants chunk_raw ≡ ok chunk_back
unfolding decode_frame read_header copy_payload read_le16 read_le32 word16 word32 load slice crc32
chunk_decodes = refl

decode_frame-encode_frame_example :
    (encode_frame grants chunk >>= decode_frame grants) ≡ ok (stamped chunk)
decode_frame-encode_frame_example =
    decode_frame-encode_frame grants chunk
      (record {
        type_fits = omega arith;
        flags_fit = omega arith;
        request_id_fits = omega arith;
        size_fits = omega arith;
        announced = refl;
        bytes = are_bytes_lem (104 ∷ 105 ∷ []) refl;
      })
      refl refl

encode_frame-decode_frame_example : encode_frame grants chunk_back ≡ ok chunk_raw
encode_frame-decode_frame_example =
    encode_frame-decode_frame grants chunk_raw chunk_back (are_bytes_lem chunk_raw refl) refl
      chunk_decodes

decode_frame-corrupted_example :
    decode_frame grants (chunk_head ++ ((104 ∷ []) ++ 106 ∷ [])) ≡ failed
decode_frame-corrupted_example =
    decode_frame-corrupted grants chunk_head (104 ∷ []) [] 105 106 chunk_back refl
      (are_bytes_lem chunk_head refl) (are_bytes_lem (104 ∷ []) refl) tt (omega arith) (omega arith)
      (omega arith) chunk_decodes

decode_frame-ne-fault_example : decode_frame grants (chunk_head ++ (104 ∷ [])) ≢ fault
decode_frame-ne-fault_example =
    decode_frame-ne-fault grants (chunk_head ++ (104 ∷ []))
      (are_bytes_lem (chunk_head ++ (104 ∷ [])) refl)

crc32_detects_example : crc32 ((104 ∷ []) ++ 105 ∷ []) ≢ crc32 ((104 ∷ []) ++ 106 ∷ [])
crc32_detects_example =
    crc32_detects (104 ∷ []) [] 105 106 (are_bytes_lem (104 ∷ []) refl) tt (omega arith)
      (omega arith) (omega arith)

zeros : ℕ → List ℕ
zeros zero = []
zeros (suc n) = 0 ∷ zeros n

length-zeros : (n : ℕ) → length (zeros n) ≡ n
unfolding zeros
length-zeros zero = refl
length-zeros (suc n) = ap suc (length-zeros n)

-- A file of 4 GiB less 24 bytes.
abbrev big : Frame
big = record {
  header = record {
    magic = 0;
    version = 0;
    type = 9;
    flags = 0;
    request_id = 7;
    payload_len = 2 ^ 32 - 24;
    payload_crc32 = 0;
  };
  payload = some (zeros (2 ^ 32 - 24));
}

encode_frame_overflow_example : encode_frame grants big ≡ fault
encode_frame_overflow_example =
    encode_frame_overflow grants big (length-zeros (2 ^ 32 - 24)) (omega arith) refl
