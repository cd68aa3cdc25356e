-- ===== src/Protocol/Kv/RoundTrip.antt =====
-- `encode_kv` of src/protocol.c followed by `decode_kv`.
use epass_usb_responder.Prelude.{
  ℕ, suc, ◌+◌, ◌*◌, ◌%◌, ◌^◌, ◌≤◌, ◌≡◌, refl, sym, ap, ◌∙◌, arith, Bool, true, Option, some, List,
  [], ◌∷◌, ◌++◌, map, ◌==◌, length, append_assoc, append-nil, length-append, length-take,
}
use epass_usb_responder.Outcome.{Outcome, ok, ◌>>=◌, slice, slice-middle}
use epass_usb_responder.Text.{text}
use epass_usb_responder.Protocol.Words.{write_le16, read_le16, read_le16-written, length-write_le16}
use epass_usb_responder.Protocol.Kv.{
  Kv, Decoded, max_kv, text_len, encode_kv, decode_item, decode_items, decode_kv,
}
use epass_usb_responder.Protocol.Kv.Encode.{
  sent, item_bytes, items_bytes, kv_bytes, Granted, encode_kv-eq-kv_bytes,
}

-- An item as the receiver has it: both strings in buffers of their own, cut to 16-bit lengths.
abbrev pub received : Kv → Kv
received kv = record { key = some (sent kv.key); value = some (sent kv.value) }

length-sent : (s : Option (List ℕ)) → length (sent s) ≡ text_len s
length-sent s = omega (arith, length-take (text_len s) (text s))

module _ {ℓ} {A : Type ℓ} (pre a b k v rest : List A) where
  abbrev whole : List A
  whole = pre ++ ((a ++ (b ++ (k ++ v))) ++ rest)

  at_second : whole ≡ (pre ++ a) ++ (b ++ (k ++ (v ++ rest)))
  at_second = simp append_assoc

  at_key : whole ≡ (pre ++ (a ++ b)) ++ (k ++ (v ++ rest))
  at_key = simp append_assoc

  at_value : whole ≡ (pre ++ (a ++ (b ++ k))) ++ (v ++ rest)
  at_value = simp append_assoc

  at_first : whole ≡ pre ++ (a ++ (b ++ (k ++ (v ++ rest))))
  at_first = simp append_assoc

module _ (pre rest : List ℕ) (kv : Kv) where
  abbrev data_with : List ℕ
  data_with = pre ++ (item_bytes kv ++ rest)

  pub length-item_bytes : length (item_bytes kv) ≡ 4 + text_len kv.key + text_len kv.value
  unfolding write_le16
  length-item_bytes =
      omega (
        arith,
        length-append (sent kv.key) (sent kv.value),
        length-sent kv.key,
        length-sent kv.value,
      )

  abbrev key_len : List ℕ
  key_len = write_le16 (text_len kv.key)

  abbrev value_len : List ℕ
  value_len = write_le16 (text_len kv.value)

  lens : length key_len + length value_len ≡ 4
  lens = omega (arith, length-write_le16 (text_len kv.key), length-write_le16 (text_len kv.value))

  read_key_len : read_le16 data_with (length pre) ≡ ok (text_len kv.key)
  read_key_len =
      rw (at_first pre key_len value_len (sent kv.key) (sent kv.value) rest)
        (read_le16-written pre _ (text_len kv.key) (length pre) (omega arith) refl)

  read_value_len : read_le16 data_with (length pre + 2) ≡ ok (text_len kv.value)
  read_value_len = rw (at_second pre key_len value_len (sent kv.key) (sent kv.value) rest) (
      read_le16-written (pre ++ key_len) _ (text_len kv.value) (length pre + 2) (omega arith)
        (omega (arith, length-append pre key_len, length-write_le16 (text_len kv.key))))

  read_key : slice data_with (length pre + 4) (text_len kv.key) ≡ ok (sent kv.key)
  read_key = rw (at_key pre key_len value_len (sent kv.key) (sent kv.value) rest) (
      slice-middle (pre ++ (key_len ++ value_len)) (sent kv.key) _ (length pre + 4)
        (text_len kv.key)
        (omega
          (arith, length-append pre (key_len ++ value_len), length-append key_len value_len, lens))
        (sym (length-sent kv.key)))

  read_value :
      slice data_with (length pre + 4 + text_len kv.key) (text_len kv.value) ≡ ok (sent kv.value)
  read_value = rw (at_value pre key_len value_len (sent kv.key) (sent kv.value) rest) (
      slice-middle (pre ++ (key_len ++ (value_len ++ sent kv.key))) (sent kv.value) rest
        (length pre + 4 + text_len kv.key) (text_len kv.value)
        (omega (
          arith,
          length-append pre (key_len ++ (value_len ++ sent kv.key)),
          length-append key_len (value_len ++ sent kv.key),
          length-append value_len (sent kv.key),
          length-sent kv.key,
          lens,
        ))
        (sym (length-sent kv.value)))

  decode_item-item_bytes :
      (malloc : ℕ → ℕ → Bool)
      → ((k n : ℕ) → malloc k n ≡ true)
      → (i : ℕ)
      → decode_item malloc data_with i (length pre)
        ≡ ok (received kv, length (pre ++ item_bytes kv))
  unfolding decode_item
  decode_item-item_bytes malloc all i =
      rw (read_key_len, read_value_len, read_key, read_value)
        (ground (
          arith,
          all (2 * i) (text_len kv.key + 1),
          all (2 * i + 1) (text_len kv.value + 1),
          length-append pre (item_bytes kv ++ rest),
          length-append (item_bytes kv) rest,
          length-append pre (item_bytes kv),
          length-item_bytes,
        ))

module _ (malloc : ℕ → ℕ → Bool) (all : (k n : ℕ) → malloc k n ≡ true) where
  abbrev outcome : List ℕ → List Kv → Outcome Decoded
  outcome extra items = ok (record { accepted = length extra == 0; items = items })

  decode_items_step :
      (bytes : List ℕ) (left i off : ℕ) (before : List Kv) {kv : Kv} {off' : ℕ}
      → decode_item malloc bytes i off ≡ ok (kv, off')
      → decode_items malloc bytes (suc left) i off before
        ≡ decode_items malloc bytes left (i + 1) off' (before ++ kv ∷ [])
  unfolding decode_items
  decode_items_step bytes left i off before e = rw (e, decode_items)

  decode_items-items_bytes :
      (items : List Kv) (pre extra : List ℕ) (i : ℕ) (before : List Kv)
      → decode_items malloc
          (pre ++ (items_bytes items ++ extra))
          (length items)
          i
          (length pre)
          before
        ≡ outcome extra (before ++ map received items)
  unfolding decode_items
  decode_items-items_bytes [] pre extra i before =
      rw (append-nil before) (ground (arith, length-append pre extra))
  decode_items-items_bytes (kv ∷ items) pre extra i before =
      let rest = items_bytes items ++ extra in
      rw (append_assoc (item_bytes kv) (items_bytes items) extra) (
        decode_items_step (pre ++ (item_bytes kv ++ rest)) (length items) i (length pre) before
          (decode_item-item_bytes pre rest kv malloc all i)
        ∙ rw (← append_assoc pre (item_bytes kv) rest) (
            decode_items-items_bytes items (pre ++ item_bytes kv) extra (i + 1)
              (before ++ received kv ∷ []))
        ∙ ap (outcome extra) (append_assoc before (received kv ∷ []) (map received items)))

  -- With an allocator that grants every request, the payload of at most 32 items, and at most
  -- `max_items`, with whatever follows it, is accepted just if nothing follows; the entries come
  -- out, and are still held by the caller where it is not accepted.
  pub decode_kv-kv_bytes :
      (items : List Kv) (extra : List ℕ) (max_items : ℕ)
      → length items ≤ max_kv
      → length items ≤ max_items
      → decode_kv malloc (kv_bytes items ++ extra) max_items ≡ outcome extra (map received items)
  unfolding decode_kv
  decode_kv-kv_bytes items extra max_items few fits = rw count_read (
      ground (
        arith,
        entries,
        length-append count_bytes (items_bytes items ++ extra),
        length-write_le16 (length items % 2 ^ 16),
        ap (λ (bs : List ℕ). length bs) (append_assoc count_bytes (items_bytes items) extra),
      ))
    where
      count_bytes : List ℕ
      count_bytes = write_le16 (length items % 2 ^ 16)

      count_read : read_le16 (kv_bytes items ++ extra) 0 ≡ ok (length items)
      count_read = rw append_assoc (
          read_le16-written [] (items_bytes items ++ extra) (length items % 2 ^ 16) 0 (omega arith)
            refl
          ∙ ap ok (omega arith))

      entries :
          decode_items malloc (kv_bytes items ++ extra) (length items) 0 2 []
          ≡ outcome extra (map received items)
      entries =
          rw append_assoc
            (rw length-write_le16 at (decode_items-items_bytes items count_bytes extra 0 []))

-- At most 32 items, and at most `max_items`, come back from encoding and decoding, each string cut
-- at its first NUL and then to its length modulo 65536, where both allocators grant what they are
-- asked.
pub decode_kv-encode_kv :
    (realloc : ℕ → Bool) (malloc : ℕ → ℕ → Bool) (items : List Kv) (max_items : ℕ)
    → Granted realloc
    → ((k n : ℕ) → malloc k n ≡ true)
    → length items ≤ max_kv
    → length items ≤ max_items
    → (encode_kv realloc items >>= λ bytes. decode_kv malloc bytes max_items)
      ≡ ok (record { accepted = true; items = map received items })
decode_kv-encode_kv realloc malloc items max_items granted all few fits =
    rw (encode_kv-eq-kv_bytes realloc items few granted)
      (rw append-nil at (decode_kv-kv_bytes malloc all items [] max_items few fits))
