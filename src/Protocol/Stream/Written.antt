-- ===== src/Protocol/Stream/Written.antt =====
-- What `write_limited` of src/protocol.c puts on the endpoint.
use epass_usb_responder.Prelude.{
  ℕ, zero, suc, ◌%◌, ◌⊎◌, ◌≤◌, ◌<◌, ◌≡◌, refl, sym, ap, ap₂, ◌∙◌, true, false, List, [], ◌∷◌, ◌++◌,
  arith, ltb, ◌==◌, if◌then◌else◌, length, take, drop, append_assoc, append-nil, length-take,
  length-drop, Bool-cases, inl, inr, All, All-append,
}
use epass_usb_responder.Protocol.Stream.{
  WriteAnswer, wrote, write_interrupted, write_failed, Sent, returned, waiting, overrun, io_chunk,
  write_full, bulk_in_needs_zlp, write_zlp, when_sent, write_chunks, write_limited,
}

-- The bytes of transfers, one after another.
abbrev pub joined : List (List ℕ) → List ℕ
joined [] = []
joined (t ∷ ts) = t ++ joined ts

abbrev pub IsPiece : List ℕ → Type 0
IsPiece t = (0 < length t) × (length t ≤ io_chunk)

-- No answer is an error, a transfer of nothing, or more than can be asked for.
abbrev pub IsGood : WriteAnswer → Type 0
IsGood (wrote n) = Unit
IsGood write_interrupted = Unit
IsGood write_failed = ⊥

joined-append : (xs ys : List (List ℕ)) → joined (xs ++ ys) ≡ joined xs ++ joined ys
joined-append [] ys = refl
joined-append (x ∷ xs) ys =
    ap (λ zs. x ++ zs) (joined-append xs ys) ∙ sym (append_assoc x (joined xs) (joined ys))

-- Behind `out` the call has made transfers of at most a chunk, which together are the bytes.
abbrev Puts : List ℕ → List (List ℕ) → Sent → Type 0
Puts bytes out (returned true out' answers) =
    (ts : List (List ℕ)) × (out' ≡ out ++ ts) × (joined ts ≡ bytes) × All IsPiece ts
Puts bytes out (returned false out' answers) = Unit
Puts bytes out waiting = Unit
Puts bytes out overrun = Unit

take-drop : (n : ℕ) (xs : List ℕ) → take n xs ++ drop n xs ≡ xs
take-drop zero xs = refl
take-drop (suc n) [] = refl
take-drop (suc n) (x ∷ xs) = ap (λ ys. x ∷ ys) (take-drop n xs)

Puts-after :
    (t bytes : List ℕ) (out : List (List ℕ)) (r : Sent)
    → IsPiece t
    → Puts bytes (out ++ t ∷ []) r
    → Puts (t ++ bytes) out r
Puts-after t bytes out (returned true out' answers) p h =
    (t ∷ h.0, h.1 ∙ append_assoc out (t ∷ []) h.0, ap (λ zs. t ++ zs) h.2, (p, h.3))
Puts-after t bytes out (returned false out' answers) p h = tt
Puts-after t bytes out waiting p h = tt
Puts-after t bytes out overrun p h = tt

none_left :
    (bytes : List ℕ) (out : List (List ℕ)) (answers : List WriteAnswer)
    → length bytes ≡ 0
    → Puts bytes out (returned true out answers)
none_left [] out answers h = ([], sym (append-nil out), refl, tt)
none_left (b ∷ bytes) out answers h = absurd (omega arith)

write_full-Puts :
    (bytes : List ℕ) (out : List (List ℕ)) (answers : List WriteAnswer)
    → length bytes ≤ io_chunk
    → Puts bytes out (write_full bytes out answers)
unfolding write_full
write_full-Puts bytes out [] h = elim (Bool-cases (length bytes == 0)) [
  | inl e ↦ rw e (none_left bytes out [] (ground arith))
  | inr e ↦ rw e tt
]
write_full-Puts bytes out (write_interrupted ∷ answers) h = elim (Bool-cases (length bytes == 0)) [
  | inl e ↦ rw e (none_left bytes out (write_interrupted ∷ answers) (ground arith))
  | inr e ↦ rw e (write_full-Puts bytes out answers h)
]
write_full-Puts bytes out (write_failed ∷ answers) h = elim (Bool-cases (length bytes == 0)) [
  | inl e ↦ rw e (none_left bytes out (write_failed ∷ answers) (ground arith))
  | inr e ↦ rw e tt
]
write_full-Puts bytes out (wrote n ∷ answers) h = elim (Bool-cases (length bytes == 0)) [
  | inl e ↦ rw e (none_left bytes out (wrote n ∷ answers) (ground arith))
  | inr e ↦ elim (Bool-cases (n == 0)) [
    | inl z ↦ rw (e, z) tt
    | inr some_bytes ↦ elim (Bool-cases (ltb (length bytes) n)) [
      | inl over ↦ rw (e, some_bytes, over) tt
      | inr within ↦
          rw (e, some_bytes, within)
            (rw (take-drop n bytes) at (
              Puts-after (take n bytes) (drop n bytes) out _ (ground (arith, length-take n bytes)) (
                write_full-Puts (drop n bytes) (out ++ take n bytes ∷ []) answers
                  (omega (arith, length-drop n bytes)))))
    ]
  ]
]

Puts-then :
    (xs ys : List ℕ) (out : List (List ℕ)) (r : Sent) (k : List (List ℕ) → List WriteAnswer → Sent)
    → Puts xs out r
    → ((out' : List (List ℕ)) (answers : List WriteAnswer) → Puts ys out' (k out' answers))
    → Puts (xs ++ ys) out (when_sent r k)
Puts-then xs ys out (returned true out' answers) k h f =
    joined_after (k out' answers) (f out' answers)
  where
    joined_after : (r : Sent) → Puts ys out' r → Puts (xs ++ ys) out r
    joined_after (returned true out2 answers2) g = (
      h.0 ++ g.0,
      g.1 ∙ ap (λ zs. zs ++ g.0) h.1 ∙ append_assoc out h.0 g.0,
      joined-append h.0 g.0 ∙ ap₂ (λ a b. a ++ b) h.2 g.2,
      All-append IsPiece h.0 g.0 h.3 g.3,
    )
    joined_after (returned false out2 answers2) g = tt
    joined_after waiting g = tt
    joined_after overrun g = tt
Puts-then xs ys out (returned false out' answers) k h f = tt
Puts-then xs ys out waiting k h f = tt
Puts-then xs ys out overrun k h f = tt

write_chunks-Puts :
    (fuel : ℕ) (bytes : List ℕ) (out : List (List ℕ)) (answers : List WriteAnswer)
    → length bytes ≤ fuel
    → Puts bytes out (write_chunks fuel bytes out answers)
unfolding write_chunks
write_chunks-Puts zero bytes out answers h = none_left bytes out answers (omega arith)
write_chunks-Puts (suc fuel) bytes out answers h = elim (Bool-cases (length bytes == 0)) [
  | inl e ↦ rw e (none_left bytes out answers (ground arith))
  | inr e ↦ rw e (
      rw (take-drop io_chunk bytes) at (
        Puts-then (take io_chunk bytes) (drop io_chunk bytes) out _
          (λ out' answers'. write_chunks fuel (drop io_chunk bytes) out' answers')
          (write_full-Puts (take io_chunk bytes) out answers
            (omega (arith, length-take io_chunk bytes)))
          (λ out' answers'.
            write_chunks-Puts fuel (drop io_chunk bytes) out' answers'
              (ground (arith, length-drop io_chunk bytes)))))
]

-- One empty transfer exactly if the number of bytes is a positive multiple of 64.
abbrev pub IsEnding : ℕ → List (List ℕ) → Type 0
IsEnding n ending =
    (((0 < n) × (n % 64 ≡ 0)) × (ending ≡ [] ∷ [])) ⊎ (¬ ((0 < n) × (n % 64 ≡ 0)) × (ending ≡ []))

needs_zlp-true : (n : ℕ) → bulk_in_needs_zlp n ≡ true → (0 < n) × (n % 64 ≡ 0)
unfolding bulk_in_needs_zlp
needs_zlp-true n e = (ground arith, ground arith)

needs_zlp-false : (n : ℕ) → bulk_in_needs_zlp n ≡ false → ¬ ((0 < n) × (n % 64 ≡ 0))
unfolding bulk_in_needs_zlp
needs_zlp-false n e = λ h. let p = h.0 in let q = h.1 in ground arith

-- The transfers of a frame: nonempty pieces of at most 16 KiB which together are the frame, and an
-- empty one behind them exactly if the frame is a positive multiple of 64 bytes.
abbrev pub Ends : List ℕ → List (List ℕ) → Sent → Type 0
Ends bytes out (returned true out' answers) =
    (ts : List (List ℕ)) × (ending : List (List ℕ)) × (out' ≡ out ++ (ts ++ ending))
    × IsEnding (length bytes) ending
    × (joined ts ≡ bytes)
    × All IsPiece ts
Ends bytes out (returned false out' answers) = Unit
Ends bytes out waiting = Unit
Ends bytes out overrun = Unit

module _ (bytes : List ℕ) (out : List (List ℕ)) where
  write_zlp-Ends :
      (ts : List (List ℕ)) (answers : List WriteAnswer)
      → bulk_in_needs_zlp (length bytes) ≡ true
      → joined ts ≡ bytes
      → All IsPiece ts
      → Ends bytes out (write_zlp (out ++ ts) answers)
  unfolding write_zlp
  write_zlp-Ends ts [] z j p = tt
  write_zlp-Ends ts (write_interrupted ∷ answers) z j p = write_zlp-Ends ts answers z j p
  write_zlp-Ends ts (write_failed ∷ answers) z j p = tt
  write_zlp-Ends ts (wrote zero ∷ answers) z j p = (
    ts,
    [] ∷ [],
    append_assoc out ts ([] ∷ []),
    inl (needs_zlp-true (length bytes) z, refl),
    j,
    p,
  )
  write_zlp-Ends ts (wrote (suc n) ∷ answers) z j p = tt

  ended :
      (r : Sent)
      → Puts bytes out r
      → Ends bytes out (
          when_sent r λ out' answers'.
            if bulk_in_needs_zlp (length bytes)
            then write_zlp out' answers'
            else returned true out' answers')
  ended (returned true out' answers) h = elim (Bool-cases (bulk_in_needs_zlp (length bytes))) [
    | inl z ↦ rw (h.1, z) (write_zlp-Ends h.0 answers z h.2 h.3)
    | inr z ↦ rw z (
      h.0,
      [],
      h.1 ∙ ap (λ ts. out ++ ts) (sym (append-nil h.0)),
      inr (needs_zlp-false (length bytes) z, refl),
      h.2,
      h.3,
    )
  ]
  ended (returned false out' answers) h = tt
  ended waiting h = tt
  ended overrun h = tt

  -- Where `write_limited` returns true, it has put the bytes on the endpoint in nonempty pieces of
  -- at most 16 KiB, however the kernel cut them, and one empty transfer behind them exactly if
  -- their number is a positive multiple of 64; none stands between the pieces.
  pub write_limited-Ends :
      (answers : List WriteAnswer) → Ends bytes out (write_limited bytes out answers)
  unfolding write_limited
  write_limited-Ends answers =
      ended (write_chunks (length bytes) bytes out answers)
        (write_chunks-Puts (length bytes) bytes out answers (omega arith))
