-- ===== src/Protocol/Kv.antt =====
-- The key-value payloads of src/protocol.c: `usb_responder_protocol_encode_kv`, `…_decode_kv` and
-- `…_kv_free`. The answers of the allocator are arguments: `realloc` by size, since the sizes that
-- one call asks for grow, and `malloc` by the number of the request and its size.
pub mod Encode
pub mod RoundTrip
pub mod Safety
use epass_usb_responder.Prelude.{
  ℕ, zero, suc, ◌+◌, ◌*◌, ◌%◌, ◌^◌, Bool, false, not, ◌||◌, Option, none, some, List, [], ◌∷◌, ◌++◌,
  ltb, ◌==◌, if◌then◌else◌, length, take,
}
use epass_usb_responder.Outcome.{Outcome, ok, failed, fault, ◌>>=◌, ◌>>◌, fail_if, slice}
use epass_usb_responder.Growth.{Buffer, empty_buffer, append_bytes}
use epass_usb_responder.Text.{text}
use epass_usb_responder.Protocol.Words.{read_le16, write_le16}

abbrev pub max_kv : ℕ
max_kv = 32

-- `key` and `value` are null or buffers.
pub record Kv : Type 0 where
  pub key : Option (List ℕ)
  pub value : Option (List ℕ)

-- `(uint16_t)strlen(s ? s : "")`
abbrev pub text_len : Option (List ℕ) → ℕ
text_len s = length (text s) % 2 ^ 16

module _ (realloc : ℕ → Bool) where
  -- `n > 0 && !append_bytes(…, s, n)`, with the bytes at `s`.
  unfoldable pub append_text : Buffer → Option (List ℕ) → Outcome Buffer
  append_text buf s =
      let n = text_len s in
      if ltb 0 n then append_bytes 64 realloc buf (take n (text s)) else ok buf

  unfoldable pub encode_items : Buffer → List Kv → Outcome Buffer
  encode_items buf [] = ok buf
  encode_items buf (kv ∷ items) = do
    buf ←
        append_bytes 64 realloc buf (write_le16 (text_len kv.key) ++ write_le16 (text_len kv.value))
    buf ← append_text buf kv.key
    buf ← append_text buf kv.value
    encode_items buf items

  -- `count` is the length of the list.
  unfoldable pub encode_kv : List Kv → Outcome (List ℕ)
  encode_kv items = do
    let count = length items
    fail_if (ltb max_kv count)
    buf ← append_bytes 64 realloc empty_buffer (write_le16 (count % 2 ^ 16))
    buf ← encode_items buf items
    ok buf.bytes

-- `usb_responder_protocol_kv_free`: the first `count` entries become null.
unfoldable pub kv_free : List Kv → ℕ → List Kv
kv_free items zero = items
kv_free [] (suc count) = []
kv_free (kv ∷ items) (suc count) = record { key = none; value = none } ∷ kv_free items count

-- What the caller has after `decode_kv`: the result, and the entries that were written.
pub record Decoded : Type 0 where
  pub accepted : Bool
  pub items : List Kv

module _ (malloc : ℕ → ℕ → Bool) (bytes : List ℕ) where
  -- The body of the loop at entry `i`; `failed` is a `return false`, with the entry freed.
  unfoldable pub decode_item : ℕ → ℕ → Outcome (Kv × ℕ)
  decode_item i off = do
    fail_if (ltb (length bytes) (off + 4))
    klen ← read_le16 bytes off
    vlen ← read_le16 bytes (off + 2)
    fail_if (ltb (length bytes) (off + 4 + klen + vlen))
    fail_if (not (malloc (2 * i) (klen + 1)) || not (malloc (2 * i + 1) (vlen + 1)))
    key ← slice bytes (off + 4) klen
    value ← slice bytes (off + 4 + klen) vlen
    ok (record { key = some key; value = some value }, off + 4 + klen + vlen)

  -- The loop at entry `i`, with `left` entries to go and `items` written. Where an allocation for entry
  -- `i` fails, the code frees that entry too, which leaves it null as it was.
  unfoldable pub decode_items : ℕ → ℕ → ℕ → List Kv → Outcome Decoded
  decode_items zero i off items = ok (record { accepted = off == length bytes; items = items })
  decode_items (suc left) i off items = elim (decode_item i off) [
    | ok (kv, off') ↦ decode_items left (i + 1) off' (items ++ kv ∷ [])
    | failed ↦ ok (record { accepted = false; items = kv_free items i })
    | fault ↦ fault
  ]

  -- `size` is the length of `bytes`; where nothing is written yet, false leaves no entry.
  unfoldable pub decode_kv : ℕ → Outcome Decoded
  decode_kv max_items = do
    fail_if (ltb (length bytes) 2)
    count ← read_le16 bytes 0
    fail_if (ltb max_items count || ltb max_kv count)
    decode_items count 0 2 []
