-- ===== src/Protocol/Stream/Complete.antt =====
-- `write_limited` of src/protocol.c on a kernel that takes at once whatever it is offered.
use epass_usb_responder.Prelude.{
  ℕ, zero, suc, ◌%◌, ◌&&◌, ◌≤◌, ◌<◌, ◌≡◌, refl, ap, ◌∙◌, true, false, List, [], ◌∷◌, ◌++◌, arith,
  ltb, ◌==◌, if◌then◌else◌, length, take, drop, append_assoc, append-nil, length-take, length-drop,
  Bool-cases, inl, inr, take_all,
}
use epass_usb_responder.Protocol.Stream.{
  WriteAnswer, wrote, write_interrupted, write_failed, returned, io_chunk, write_full,
  bulk_in_needs_zlp, write_zlp, write_chunks, write_limited,
}

-- The pieces of at most 16 KiB, and the empty transfer where one is needed.
abbrev pieces : ℕ → List ℕ → List (List ℕ)
pieces zero bytes = []
pieces (suc fuel) bytes =
    let rest = pieces fuel (drop io_chunk bytes) in
    if length bytes == 0 then [] else take io_chunk bytes ∷ rest

abbrev ending : List ℕ → List (List ℕ)
ending bytes = if ltb 0 (length bytes) && length bytes % 64 == 0 then [] ∷ [] else []

needs_zlp-eq : (n : ℕ) → (ltb 0 n && n % 64 == 0) ≡ bulk_in_needs_zlp n
unfolding bulk_in_needs_zlp
needs_zlp-eq n = ground arith

abbrev pub transfers : List ℕ → List (List ℕ)
transfers bytes = pieces (length bytes) bytes ++ ending bytes

-- Each transfer is taken whole.
abbrev pub taken : List (List ℕ) → List WriteAnswer
taken [] = []
taken (t ∷ ts) = wrote (length t) ∷ taken ts

taken-append : (xs ys : List (List ℕ)) → taken (xs ++ ys) ≡ taken xs ++ taken ys
taken-append [] ys = refl
taken-append (x ∷ xs) ys = ap (λ zs. wrote (length x) ∷ zs) (taken-append xs ys)

write_full-empty :
    (bytes : List ℕ) (out : List (List ℕ)) (answers : List WriteAnswer)
    → length bytes ≡ 0
    → write_full bytes out answers ≡ returned true out answers
unfolding write_full
write_full-empty bytes out [] e = rw e
write_full-empty bytes out (wrote n ∷ answers) e = rw e
write_full-empty bytes out (write_interrupted ∷ answers) e = rw e
write_full-empty bytes out (write_failed ∷ answers) e = rw e

write_full-whole :
    (bytes : List ℕ) (out : List (List ℕ)) (answers : List WriteAnswer)
    → 0 < length bytes
    → write_full bytes out (wrote (length bytes) ∷ answers)
      ≡ returned true (out ++ bytes ∷ []) answers
unfolding write_full
write_full-whole bytes out answers pos =
    let more : (length bytes == 0) ≡ false = ground arith in
    let within : ltb (length bytes) (length bytes) ≡ false = ground arith in
    rw (more, within, take_all bytes (length bytes) (omega arith))
      (write_full-empty (drop (length bytes) bytes) (out ++ bytes ∷ []) answers
        (omega (arith, length-drop (length bytes) bytes)))

write_chunks-pieces :
    (fuel : ℕ) (bytes : List ℕ) (out : List (List ℕ)) (answers : List WriteAnswer)
    → length bytes ≤ fuel
    → write_chunks fuel bytes out (taken (pieces fuel bytes) ++ answers)
      ≡ returned true (out ++ pieces fuel bytes) answers
unfolding write_chunks
write_chunks-pieces zero bytes out answers h = rw (append-nil out)
write_chunks-pieces (suc fuel) bytes out answers h = elim (Bool-cases (length bytes == 0)) [
  | inl e ↦ rw (e, append-nil out)
  | inr e ↦
      let piece : 0 < length (take io_chunk bytes) = ground (arith, length-take io_chunk bytes) in
      rw
        (
          e,
          write_full-whole (take io_chunk bytes) out
              (taken (pieces fuel (drop io_chunk bytes)) ++ answers) piece,
        )
        (write_chunks-pieces fuel (drop io_chunk bytes) (out ++ take io_chunk bytes ∷ []) answers
            (ground (arith, length-drop io_chunk bytes))
          ∙ ap (λ o. returned true o answers)
              (append_assoc out (take io_chunk bytes ∷ []) (pieces fuel (drop io_chunk bytes))))
]

-- On a kernel that takes each transfer whole, `write_limited` returns true, and puts out the
-- pieces of 16 KiB, the last of what is left, and behind them an empty transfer exactly if the
-- number of bytes is a positive multiple of 64.
pub write_limited_complete :
    (bytes : List ℕ) (answers : List WriteAnswer)
    → write_limited bytes [] (taken (transfers bytes) ++ answers)
      ≡ returned true (transfers bytes) answers
unfolding write_limited write_zlp
write_limited_complete bytes answers =
    rw
      (
        needs_zlp-eq (length bytes),
        taken-append (pieces (length bytes) bytes)
            (if bulk_in_needs_zlp (length bytes) then [] ∷ [] else []),
        append_assoc (taken (pieces (length bytes) bytes))
            (taken (if bulk_in_needs_zlp (length bytes) then [] ∷ [] else [])) answers,
        write_chunks-pieces (length bytes) bytes []
            (taken (if bulk_in_needs_zlp (length bytes) then [] ∷ [] else []) ++ answers)
            (omega arith),
      )
      (elim (Bool-cases (bulk_in_needs_zlp (length bytes))) [
        | inl z ↦ rw z refl
        | inr z ↦ rw (z, append-nil (pieces (length bytes) bytes))
      ])
