-- ===== src/Files/Paths/Names.antt =====
-- The paths of src/file_ops.c taken apart again: the components of a built path are its names.
use epass_usb_responder.Prelude.{
  ℕ, ◌<◌, ◌≡◌, refl, ap, ◌∙◌, false, List, [], ◌∷◌, ◌++◌, arith, ◌==◌, length, Bool-cases, inl, inr,
  All,
}
use epass_usb_responder.Files.Paths.{slash, path_component_is_dot}
use epass_usb_responder.Files.Paths.Split.{split, push_first, nonempty, components}
use epass_usb_responder.Files.Paths.Resolve.{names, slashed, absolute}

abbrev pub HasNoSlash : List ℕ → Type 0
HasNoSlash = All (λ c. (c == slash) ≡ false)

abbrev pub AreNames : List (List ℕ) → Type 0
AreNames = All (λ (n : List ℕ). (0 < length n) × HasNoSlash n)

push_first-HasNoSlash :
    (c : ℕ) (segs : List (List ℕ))
    → (c == slash) ≡ false
    → All HasNoSlash segs
    → All HasNoSlash (push_first c segs)
push_first-HasNoSlash c [] h a = ((h, tt), tt)
push_first-HasNoSlash c (seg ∷ segs) h a = ((h, a.0), a.1)

split-HasNoSlash : (r : List ℕ) → All HasNoSlash (split r)
unfolding split
split-HasNoSlash [] = (tt, tt)
split-HasNoSlash (c ∷ r) = elim (Bool-cases (c == slash)) [
  | inl e ↦ rw e (tt, split-HasNoSlash r)
  | inr e ↦ rw e (push_first-HasNoSlash c (split r) e (split-HasNoSlash r))
]

nonempty-AreNames : (segs : List (List ℕ)) → All HasNoSlash segs → AreNames (nonempty segs)
nonempty-AreNames [] h = tt
nonempty-AreNames ([] ∷ segs) h = nonempty-AreNames segs h.1
nonempty-AreNames ((c ∷ seg) ∷ segs) h = ((omega arith, h.0), nonempty-AreNames segs h.1)

names-AreNames : (segs : List (List ℕ)) → AreNames segs → AreNames (names segs)
names-AreNames [] h = tt
names-AreNames (seg ∷ segs) h = elim (Bool-cases (path_component_is_dot seg)) [
  | inl dot ↦ rw dot (names-AreNames segs h.1)
  | inr name ↦ rw name (h.0, names-AreNames segs h.1)
]

-- The names in a text.
pub names-components : (r : List ℕ) → AreNames (names (components r))
names-components r =
    names-AreNames (components r) (nonempty-AreNames (split r) (split-HasNoSlash r))

split-slashed :
    (ns : List (List ℕ)) (n : List ℕ)
    → HasNoSlash n
    → AreNames ns
    → split (n ++ slashed ns) ≡ n ∷ ns
unfolding split
split-slashed [] [] h a = refl
split-slashed (m ∷ ms) [] h a = ap (λ segs. [] ∷ segs) (split-slashed ms m a.0.1 a.1)
split-slashed ns (c ∷ n) h a = rw (h.0, split-slashed ns n h.1 a)

nonempty-all : (ns : List (List ℕ)) → AreNames ns → nonempty ns ≡ ns
nonempty-all [] h = refl
nonempty-all ([] ∷ ns) h = absurd (omega (arith, h.0.0))
nonempty-all ((c ∷ n) ∷ ns) h = ap (λ segs. (c ∷ n) ∷ segs) (nonempty-all ns h.1)

-- `path + 1`
abbrev pub behind_root : List ℕ → List ℕ
behind_root [] = []
behind_root (c ∷ r) = r

pub components-absolute :
    (ns : List (List ℕ)) → AreNames ns → components (behind_root (absolute ns)) ≡ ns
components-absolute [] h = unfold split in refl
components-absolute (n ∷ ns) h =
    ap nonempty (split-slashed ns n h.0.1 h.1) ∙ nonempty-all (n ∷ ns) h
