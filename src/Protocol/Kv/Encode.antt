-- ===== src/Protocol/Kv/Encode.antt =====
-- `encode_kv` of src/protocol.c against the layout of a key-value payload.
use epass_usb_responder.Prelude.{
  ℕ, ◌%◌, ◌^◌, ◌≤◌, ◌≡◌, refl, sym, ap, ◌∙◌, arith, Bool, true, false, not, ◌&&◌, Option, List, [],
  ◌∷◌, ◌++◌, ltb, length, take, append_assoc, append-nil, Bool-cases, inl, inr,
}
use epass_usb_responder.Outcome.{Outcome, ok, failed, fault, ◌>>=◌}
use epass_usb_responder.Growth.{
  Buffer, empty_buffer, append_bytes, IsBuffer, append_bytes-eq, appended-IsBuffer, asked,
  overflows,
}
use epass_usb_responder.Text.{text}
use epass_usb_responder.Protocol.Words.{write_le16}
use epass_usb_responder.Protocol.Kv.{Kv, max_kv, text_len, append_text, encode_items, encode_kv}

-- The bytes of a string that are sent: all but what its 16-bit length does not count.
abbrev pub sent : Option (List ℕ) → List ℕ
sent s = take (text_len s) (text s)

abbrev pub item_bytes : Kv → List ℕ
item_bytes kv =
    write_le16 (text_len kv.key)
    ++ (write_le16 (text_len kv.value) ++ (sent kv.key ++ sent kv.value))

abbrev pub items_bytes : List Kv → List ℕ
items_bytes [] = []
items_bytes (kv ∷ items) = item_bytes kv ++ items_bytes items

abbrev pub kv_bytes : List Kv → List ℕ
kv_bytes items = write_le16 (length items % 2 ^ 16) ++ items_bytes items

regroup {ℓ} :
    {A : Type ℓ} (xs a b c d r : List A)
    → (((xs ++ (a ++ b)) ++ c) ++ d) ++ r ≡ xs ++ ((a ++ (b ++ (c ++ d))) ++ r)
regroup xs a b c d r = simp append_assoc

few : (items : List Kv) → length items ≤ max_kv → ltb max_kv (length items) ≡ false
few items h = ground arith

module _ (realloc : ℕ → Bool) where
  abbrev pub Granted : Type 0
  Granted = (n : ℕ) → realloc n ≡ true

  -- The buffer holds `bytes`; only a refusal of the allocator makes the call fail.
  abbrev Yields : Outcome Buffer → List ℕ → Type 0
  Yields (ok b) bytes = (b.bytes ≡ bytes) × IsBuffer b
  Yields failed bytes = ¬ Granted
  Yields fault bytes = ⊥

  Yields-bind :
      (r : Outcome Buffer) (k : Buffer → Outcome Buffer) (xs ys : List ℕ)
      → Yields r xs
      → ((b : Buffer) → b.bytes ≡ xs → IsBuffer b → Yields (k b) ys)
      → Yields (r >>= k) ys
  Yields-bind (ok b) k xs ys h f = f b h.0 h.1
  Yields-bind failed k xs ys h f = h
  Yields-bind fault k xs ys h f = h

  append_bytes-Yields :
      (b : Buffer) (src xs : List ℕ)
      → b.bytes ≡ xs
      → IsBuffer b
      → Yields (append_bytes 64 realloc b src) (xs ++ src)
  append_bytes-Yields b src xs e h =
      rw (append_bytes-eq 64 (omega arith) b src realloc)
        (elim (Bool-cases (overflows 64 b src && not (realloc (asked 64 b src)))) [
          | inl refuses ↦ rw refuses (λ all. ground (arith, all (asked 64 b src)))
          | inr grants ↦
              rw grants (ap (λ ys. ys ++ src) e, appended-IsBuffer 64 (omega arith) b src)
        ])

  append_text-Yields :
      (b : Buffer) (s : Option (List ℕ)) (xs : List ℕ)
      → b.bytes ≡ xs
      → IsBuffer b
      → Yields (append_text realloc b s) (xs ++ sent s)
  unfolding append_text
  append_text-Yields b s xs e h = elim (Bool-cases (ltb 0 (text_len s))) [
    | inl some_bytes ↦ rw some_bytes (append_bytes-Yields b (sent s) xs e h)
    | inr no_bytes ↦
        let none_sent : text_len s ≡ 0 = ground arith in
        rw (no_bytes, none_sent) (e ∙ sym (append-nil xs), h)
  ]

  encode_items-Yields :
      (b : Buffer) (items : List Kv) (xs : List ℕ)
      → b.bytes ≡ xs
      → IsBuffer b
      → Yields (encode_items realloc b items) (xs ++ items_bytes items)
  unfolding encode_items
  encode_items-Yields b [] xs e h = (e ∙ sym (append-nil xs), h)
  encode_items-Yields b (kv ∷ items) xs e h =
      rw
        (← regroup xs (write_le16 (text_len kv.key)) (write_le16 (text_len kv.value)) (sent kv.key)
          (sent kv.value) (items_bytes items))
        (Yields-bind _ _ _ _ (append_bytes-Yields b _ xs e h) λ b1 e1 h1.
          Yields-bind _ _ _ _ (append_text-Yields b1 kv.key _ e1 h1) λ b2 e2 h2.
            Yields-bind _ _ _ _ (append_text-Yields b2 kv.value _ e2 h2)
              λ b3 e3 h3. encode_items-Yields b3 items _ e3 h3)

  -- What the encoder may answer for at most 32 items.
  abbrev pub Encodes : Outcome (List ℕ) → List ℕ → Type 0
  Encodes (ok out) bytes = out ≡ bytes
  Encodes failed bytes = ¬ Granted
  Encodes fault bytes = ⊥

  Encodes-bind :
      (r : Outcome Buffer) (k : Buffer → Outcome (List ℕ)) (xs ys : List ℕ)
      → Yields r xs
      → ((b : Buffer) → b.bytes ≡ xs → IsBuffer b → Encodes (k b) ys)
      → Encodes (r >>= k) ys
  Encodes-bind (ok b) k xs ys h f = f b h.0 h.1
  Encodes-bind failed k xs ys h f = h
  Encodes-bind fault k xs ys h f = h

  Encodes-granted :
      (r : Outcome (List ℕ)) (bytes : List ℕ) → Encodes r bytes → Granted → r ≡ ok bytes
  Encodes-granted (ok out) bytes h all = ap ok h
  Encodes-granted failed bytes h all = absurd (h all)
  Encodes-granted fault bytes h all = absurd h

  -- At most 32 items are laid out as the protocol says, each string cut to its 16-bit length;
  -- nothing is written outside the buffer, and the call fails only if the allocator refuses.
  pub encode_kv-Encodes :
      (items : List Kv) → length items ≤ max_kv → Encodes (encode_kv realloc items) (kv_bytes items)
  unfolding encode_kv
  encode_kv-Encodes items h = rw (few items h) (
      Encodes-bind _ _ _ _ (append_bytes-Yields empty_buffer _ [] refl (omega arith))
        λ b1 e1 h1. Encodes-bind _ _ _ _ (encode_items-Yields b1 items _ e1 h1) λ b2 e2 h2. e2)

  -- With an allocator that grants every request, at most 32 items are encoded.
  pub encode_kv-eq-kv_bytes :
      (items : List Kv)
      → length items ≤ max_kv
      → Granted
      → encode_kv realloc items ≡ ok (kv_bytes items)
  encode_kv-eq-kv_bytes items h all =
      Encodes-granted (encode_kv realloc items) (kv_bytes items) (encode_kv-Encodes items h) all
