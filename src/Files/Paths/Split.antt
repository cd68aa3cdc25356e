-- ===== src/Files/Paths/Split.antt =====
-- The loop of `build_path` in src/file_ops.c against splitting the text at every slash.
use epass_usb_responder.Prelude.{
  ℕ, zero, suc, ◌≤◌, ◌<◌, ◌≡◌, refl, ap, ◌∙◌, false, List, [], ◌∷◌, arith, ◌==◌, if◌then◌else◌,
  length, Bool-cases, inl, inr, All,
}
use mathlib.Core.Path.{fun_ext}
use epass_usb_responder.Files.Paths.{
  PathState, Built, built, slash, skip_slashes, segment, after_segment, visit, build_loop,
}

abbrev pub push_first : ℕ → List (List ℕ) → List (List ℕ)
push_first c [] = (c ∷ []) ∷ []
push_first c (seg ∷ segs) = (c ∷ seg) ∷ segs

-- All that stands between slashes, empty pieces included.
unfoldable pub split : List ℕ → List (List ℕ)
split [] = [] ∷ []
split (c ∷ r) = if c == slash then [] ∷ split r else push_first c (split r)

abbrev pub nonempty : List (List ℕ) → List (List ℕ)
nonempty [] = []
nonempty ([] ∷ segs) = nonempty segs
nonempty ((c ∷ seg) ∷ segs) = (c ∷ seg) ∷ nonempty segs

abbrev pub components : List ℕ → List (List ℕ)
components r = nonempty (split r)

-- The components that follow the first piece.
abbrev pieces : List ℕ → List (List ℕ)
pieces [] = []
pieces (c ∷ r) = if c == slash then split r else pieces r

split-segment : (r : List ℕ) → split r ≡ segment r ∷ pieces r
unfolding split segment
split-segment [] = refl
split-segment (c ∷ r) = ground (arith, split-segment r)

pieces-after : (r : List ℕ) → nonempty (pieces r) ≡ components (after_segment r)
unfolding split after_segment
pieces-after [] = refl
pieces-after (c ∷ r) = ground (arith, pieces-after r)

pub components-skip : (r : List ℕ) → components (skip_slashes r) ≡ components r
unfolding split skip_slashes
components-skip [] = refl
components-skip (c ∷ r) = ground (arith, components-skip r)

pub after_segment-shorter : (r : List ℕ) → length (after_segment r) ≤ length r
unfolding after_segment
after_segment-shorter [] = omega arith
after_segment-shorter (c ∷ r) = ground (arith, after_segment-shorter r)

pub skip_slashes-shorter : (r : List ℕ) → length (skip_slashes r) ≤ length r
unfolding skip_slashes
skip_slashes-shorter [] = omega arith
skip_slashes-shorter (c ∷ r) = ground (arith, skip_slashes-shorter r)

pub skip_slashes-head :
    (r : List ℕ) {c : ℕ} {rest : List ℕ} → skip_slashes r ≡ c ∷ rest → (c == slash) ≡ false
unfolding skip_slashes
skip_slashes-head [] e = cc
skip_slashes-head (d ∷ r) e = elim (Bool-cases (d == slash)) [
  | inl more ↦ skip_slashes-head r (rw more at e)
  | inr stop ↦ ground arith
]

-- The first component and those behind it.
pub components-head :
    (c : ℕ) (rest : List ℕ)
    → (c == slash) ≡ false
    → components (c ∷ rest) ≡ segment (c ∷ rest) ∷ components (after_segment (c ∷ rest))
components-head c rest h = ap nonempty (split-segment (c ∷ rest)) ∙ first
  where
    first :
        nonempty (segment (c ∷ rest) ∷ pieces (c ∷ rest))
        ≡ segment (c ∷ rest) ∷ components (after_segment (c ∷ rest))
    first = rw (← pieces-after (c ∷ rest)) (unfold segment in rw h)

module _ (out_size : ℕ) where
  -- The components one after the other.
  unfoldable pub resolve : List (List ℕ) → PathState → Built
  resolve [] st = built st.out st.storage
  resolve (seg ∷ segs) st = visit out_size (resolve segs) seg st

  loop_step :
      (fuel : ℕ) (r : List ℕ) (st : PathState) (skipped : List ℕ)
      → skip_slashes r ≡ skipped
      → ((rest : List ℕ) (st : PathState)
          → length rest < length skipped
          → build_loop out_size fuel rest st ≡ resolve (components rest) st)
      → build_loop out_size (suc fuel) r st ≡ resolve (components r) st
  unfolding build_loop resolve
  loop_step fuel r st [] e ih =
      rw (e, build_loop) (rw (← components-skip r, e) (unfold split in refl))
  loop_step fuel r st (c ∷ rest) e ih =
      rw (e, build_loop)
        (rw (← components-skip r, e, components-head c rest (skip_slashes-head r e))
          (ap (λ next. visit out_size next (segment (c ∷ rest)) st)
            (fun_ext λ st'. ih (after_segment (c ∷ rest)) st' (shorter (skip_slashes-head r e)))))
    where
      shorter : (c == slash) ≡ false → length (after_segment (c ∷ rest)) < length (c ∷ rest)
      shorter h = unfold after_segment in rw h (omega (arith, after_segment-shorter rest))

  pub build_loop-resolve :
      (fuel : ℕ) (r : List ℕ) (st : PathState)
      → length r < fuel
      → build_loop out_size fuel r st ≡ resolve (components r) st
  build_loop-resolve zero r st h = absurd (omega arith)
  build_loop-resolve (suc fuel) r st h =
      loop_step fuel r st (skip_slashes r) refl
        (λ rest st' less. build_loop-resolve fuel rest st' (omega (arith, skip_slashes-shorter r)))

nonempty-All : (segs : List (List ℕ)) → All (λ seg. 0 < length seg) (nonempty segs)
nonempty-All [] = tt
nonempty-All ([] ∷ segs) = nonempty-All segs
nonempty-All ((c ∷ seg) ∷ segs) = (omega arith, nonempty-All segs)

pub components-nonempty : (r : List ℕ) → All (λ seg. 0 < length seg) (components r)
components-nonempty r = nonempty-All (split r)
