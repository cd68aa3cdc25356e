-- ===== src/Protocol/Kv/Safety.antt =====
-- `decode_kv` of src/protocol.c on any payload: its accesses, and the entries that it leaves.
use epass_usb_responder.Prelude.{
  ℕ, zero, suc, ◌+◌, ◌≤◌, ◌≡◌, ◌≢◌, refl, ap, arith, Bool, false, ◌||◌, none, List, [], ◌∷◌, ◌++◌,
  ◌⊎◌, ltb, length, Bool-cases, inl, inr, length-append, All,
}
use epass_usb_responder.Outcome.{Outcome, ok, failed, fault, slice-eq-take}
use epass_usb_responder.Protocol.Words.{word16_at, read_le16-inside}
use epass_usb_responder.Protocol.Kv.{
  Kv, Decoded, max_kv, kv_free, decode_item, decode_items, decode_kv,
}

abbrev pub IsNull : Kv → Type 0
IsNull kv = (kv.key ≡ none) × (kv.value ≡ none)

kv_free-IsNull : (items : List Kv) (n : ℕ) → length items ≤ n → All IsNull (kv_free items n)
unfolding kv_free
kv_free-IsNull [] zero h = tt
kv_free-IsNull [] (suc n) h = tt
kv_free-IsNull (kv ∷ items) zero h = absurd (omega arith)
kv_free-IsNull (kv ∷ items) (suc n) h = ((refl, refl), kv_free-IsNull items n (omega arith))

length-kv_free : (items : List Kv) (n : ℕ) → length (kv_free items n) ≡ length items
unfolding kv_free
length-kv_free [] zero = refl
length-kv_free [] (suc n) = refl
length-kv_free (kv ∷ items) zero = refl
length-kv_free (kv ∷ items) (suc n) = ap suc (length-kv_free items n)

module _ (malloc : ℕ → ℕ → Bool) (bytes : List ℕ) where
  decode_item-ne-fault : (i off : ℕ) → decode_item malloc bytes i off ≢ fault
  unfolding decode_item
  decode_item-ne-fault i off = elim (Bool-cases (ltb (length bytes) (off + 4))) [
    | inl short ↦ rw short (λ e. cc)
    | inr long ↦
        rw
          (
            long,
            read_le16-inside bytes off (ground arith),
            read_le16-inside bytes (off + 2) (ground arith),
          )
          (ground (
            arith,
            slice-eq-take bytes (off + 4) (word16_at bytes off),
            slice-eq-take bytes (off + 4 + word16_at bytes off) (word16_at bytes (off + 2)),
          ))
  ]

  -- Either all entries were read and the caller holds them, or none is held.
  abbrev pub Settled : ℕ → Outcome Decoded → Type 0
  Settled count (ok d) =
      (length d.items ≤ count)
      × ((length d.items ≡ count) ⊎ ((d.accepted ≡ false) × All IsNull d.items))
  Settled count failed = Unit
  Settled count fault = ⊥

  decode_items-Settled :
      (left i off count : ℕ) (before : List Kv)
      → length before ≡ i
      → i + left ≡ count
      → Settled count (decode_items malloc bytes left i off before)
  unfolding decode_items
  decode_items-Settled zero i off count before h e = (omega arith, inl (omega arith))
  decode_items-Settled (suc left) i off count before h e =
      step (decode_item malloc bytes i off) (decode_item-ne-fault i off) (λ kv off'.
        decode_items-Settled left (i + 1) off' count (before ++ kv ∷ [])
          (omega (arith, length-append before (kv ∷ []))) (omega arith))
    where
      step :
          (r : Outcome (Kv × ℕ))
          → r ≢ fault
          → ((kv : Kv) (off' : ℕ)
              → Settled count (decode_items malloc bytes left (i + 1) off' (before ++ kv ∷ [])))
          → Settled count (elim r [
            | ok (kv, off') ↦ decode_items malloc bytes left (i + 1) off' (before ++ kv ∷ [])
            | failed ↦ ok (record { accepted = false; items = kv_free before i })
            | fault ↦ fault
          ])
      step (ok (kv, off')) safe ih = ih kv off'
      step failed safe ih = (
        omega (arith, length-kv_free before i),
        inr (refl, kv_free-IsNull before i (omega arith)),
      )
      step fault safe ih = absurd (safe refl)

  -- Whatever the payload holds and the allocator answers, decoding it does not read outside it,
  -- writes at most `max_items` entries, and leaves either all the entries that the payload
  -- announces or, rejected, no string.
  pub decode_kv-Settled :
      (max_items : ℕ)
      → (decode_kv malloc bytes max_items ≡ failed)
        ⊎ ((d : Decoded) × (decode_kv malloc bytes max_items ≡ ok d)
            × (length d.items ≤ max_items)
            × ((length d.items ≡ word16_at bytes 0) ⊎ ((d.accepted ≡ false) × All IsNull d.items)))
  unfolding decode_kv
  decode_kv-Settled max_items = elim (Bool-cases (ltb (length bytes) 2)) [
    | inl short ↦ rw short (inl refl)
    | inr long ↦
        rw (long, read_le16-inside bytes 0 (ground arith))
          (elim (Bool-cases (ltb max_items count || ltb max_kv count)) [
            | inl many ↦ rw many (inl refl)
            | inr few ↦ rw few (
                result (decode_items malloc bytes count 0 2 []) (ground arith)
                  (decode_items-Settled count 0 2 count [] refl (omega arith)))
          ])
  ]
    where
      count : ℕ
      count = word16_at bytes 0

      result :
          (r : Outcome Decoded)
          → count ≤ max_items
          → Settled count r
          → (r ≡ failed)
            ⊎ ((d : Decoded) × (r ≡ ok d)
                × (length d.items ≤ max_items)
                × ((length d.items ≡ count) ⊎ ((d.accepted ≡ false) × All IsNull d.items)))
      result (ok d) fits h = inr (d, refl, omega (arith, h.0), h.1)
      result failed fits h = inl refl
      result fault fits h = absurd h

  pub decode_kv-ne-fault : (max_items : ℕ) → decode_kv malloc bytes max_items ≢ fault
  decode_kv-ne-fault max_items = elim (decode_kv-Settled max_items) [
    | inl rejected ↦ rw rejected (λ e. cc)
    | inr (d, decoded, few, rest) ↦ rw decoded (λ e. cc)
  ]
