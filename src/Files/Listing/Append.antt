-- ===== src/Files/Listing/Append.antt =====
-- `list_append_line` and `list_finalize` of src/file_ops.c.
use epass_usb_responder.Prelude.{
  ℕ, ◌+◌, ◌≤◌, ◌<◌, ◌≡◌, refl, sym, ◌∙◌, Bool, true, false, List, [], ◌∷◌, ◌++◌, arith, ltb, ◌==◌,
  length, length-append, Bool-cases, inl, inr, ◌⊎◌,
}
use epass_usb_responder.Outcome.{Outcome, ok, failed, fault, filled-eq-ok}
use epass_usb_responder.Growth.{Buffer, grown, grown-enough}
use epass_usb_responder.Files.Listing.{newline, list_append_line, list_finalize}

-- A text that is null is empty, and any other has room for its terminator.
abbrev pub HasRoom : Buffer → Type 0
HasRoom text = ((text.cap ≡ 0) × (text.bytes ≡ [])) ⊎ (length text.bytes < text.cap)

module _ (malloc : ℕ → Bool) where
  abbrev pub IsGranted : Type 0
  IsGranted = (n : ℕ) → malloc n ≡ true

  abbrev pub Appends : List ℕ → Outcome Buffer → Type 0
  Appends bytes (ok b) = (b.bytes ≡ bytes) × HasRoom b
  Appends bytes failed = ¬ IsGranted
  Appends bytes fault = ⊥

  pub list_append_line-Appends :
      (text : Buffer) (name : List ℕ)
      → Appends (text.bytes ++ (name ++ newline ∷ [])) (list_append_line malloc text name)
  unfolding list_append_line
  list_append_line-Appends text name = elim (Bool-cases (ltb text.cap needed)) [
    | inl small ↦ elim (Bool-cases (malloc (grown 256 text.cap needed))) [
      | inl granted ↦
          rw
            (
              small,
              granted,
              filled-eq-ok (grown 256 text.cap needed) line (omega (arith, size, enough)),
            )
            (refl, inr (omega (arith, size, enough)))
      | inr denied ↦ rw (small, denied) (λ all. cc (all (grown 256 text.cap needed)))
    ]
    | inr large ↦
        let room : needed ≤ text.cap = ground arith in
        rw (large, filled-eq-ok text.cap line (omega (arith, size, room)))
          (refl, inr (omega (arith, size, room)))
  ]
    where
      needed : ℕ
      needed = length text.bytes + (length name + 1) + 1

      line : List ℕ
      line = text.bytes ++ (name ++ newline ∷ [])

      size : length line ≡ length text.bytes + (length name + 1)
      size = omega (
        arith,
        length-append text.bytes (name ++ newline ∷ []),
        length-append name (newline ∷ []),
      )

      enough : needed ≤ grown 256 text.cap needed
      enough = grown-enough 256 text.cap needed (omega arith)

  abbrev pub Finishes : List ℕ → Outcome (List ℕ) → Type 0
  Finishes bytes (ok text) = text ≡ bytes
  Finishes bytes failed = ¬ IsGranted
  Finishes bytes fault = ⊥

  pub list_finalize-Finishes :
      (text : Buffer) (bytes : List ℕ)
      → text.bytes ≡ bytes
      → HasRoom text
      → Finishes bytes (list_finalize malloc text)
  unfolding list_finalize
  list_finalize-Finishes text bytes e (inl (null, empty)) =
      let zero_cap : (text.cap == 0) ≡ true = ground arith in
      elim (Bool-cases (malloc 1)) [
        | inl granted ↦ rw (zero_cap, granted) (sym empty ∙ e)
        | inr denied ↦ rw (zero_cap, denied) (λ all. cc (all 1))
      ]
  list_finalize-Finishes text bytes e (inr room) =
      let some_cap : (text.cap == 0) ≡ false = ground arith in
      rw
        (
          some_cap,
          filled-eq-ok text.cap (text.bytes ++ 0 ∷ [])
              (omega (arith, length-append text.bytes (0 ∷ []), room)),
        )
        e
