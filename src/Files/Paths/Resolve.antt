-- ===== src/Files/Paths/Resolve.antt =====
-- What `build_path` of src/file_ops.c answers, by the components of the text.
use epass_usb_responder.Prelude.{
  ℕ, suc, ◌<◌, ◌≡◌, refl, sym, ◌∙◌, true, false, List, [], ◌∷◌, ◌++◌, arith, if◌then◌else◌,
  append-nil, append_assoc, length-append, ltb, length, ◌⊎◌, inl, inr, All,
}
use epass_usb_responder.Files.Paths.{
  PathState, Storage, nand, sd, Built, built, slash, is_sd, path_component_is_dotdot,
  path_component_is_dot, add_component, is_too_long, visit, build_path,
}
use epass_usb_responder.Files.Paths.Split.{
  components, resolve, build_loop-resolve, components-nonempty,
}

-- The components but for `.`.
abbrev pub names : List (List ℕ) → List (List ℕ)
names [] = []
names (seg ∷ segs) = if path_component_is_dot seg then names segs else seg ∷ names segs

-- Each name behind a slash.
abbrev pub slashed : List (List ℕ) → List ℕ
slashed [] = []
slashed (n ∷ ns) = slash ∷ (n ++ slashed ns)

abbrev pub absolute : List (List ℕ) → List ℕ
absolute [] = slash ∷ []
absolute (n ∷ ns) = slashed (n ∷ ns)

abbrev pub storage_of : List (List ℕ) → Storage
storage_of [] = nand
storage_of (n ∷ ns) = if is_sd n then sd else nand

abbrev pub NoParent : List (List ℕ) → Type 0
NoParent = All (λ seg. path_component_is_dotdot seg ≡ false)

abbrev pub AllNonempty : List (List ℕ) → Type 0
AllNonempty = All (λ seg. 0 < length seg)

-- Only the tests of `visit` matter for a text that is built.
visit-built :
    (out_size : ℕ) (next : PathState → Built) (seg : List ℕ) (st : PathState) {p : List ℕ}
    {s : Storage}
    → visit out_size next seg st ≡ built p s
    → (path_component_is_dotdot seg ≡ false)
      × (((path_component_is_dot seg ≡ true) × (next st ≡ built p s))
          ⊎ ((path_component_is_dot seg ≡ false)
              × (is_too_long out_size st seg ≡ false)
              × (next (add_component out_size st seg) ≡ built p s)))
unfolding visit
visit-built out_size next seg st e = ground arith

abbrev pub start : PathState
start = record { out = slash ∷ []; saw_component = false; storage = nand }

module _ (out_size : ℕ) (p : List ℕ) (s : Storage) where
  -- Behind the first name the text is extended by the names that follow.
  abbrev Extends : PathState → List (List ℕ) → Type 0
  Extends st segs =
      (p ≡ st.out ++ slashed (names segs))
      × (s ≡ st.storage)
      × NoParent segs
      × (length p < out_size)

  -- What a text is built to.
  abbrev pub Resolves : List (List ℕ) → Type 0
  Resolves segs =
      (p ≡ absolute (names segs))
      × (s ≡ storage_of (names segs))
      × NoParent segs
      × (length p < out_size)

  module _ (seg : List ℕ) (segs : List (List ℕ)) (safe : path_component_is_dotdot seg ≡ false) where
    Extends-dot :
        (st : PathState)
        → path_component_is_dot seg ≡ true
        → Extends st segs
        → Extends st (seg ∷ segs)
    Extends-dot st dot h = rw dot (h.0, h.1, (safe, h.2), h.3)

    Extends-name :
        (st : PathState)
        → path_component_is_dot seg ≡ false
        → 1 < length st.out
        → st.saw_component ≡ true
        → Extends (add_component out_size st seg) segs
        → Extends st (seg ∷ segs)
    unfolding add_component
    Extends-name st name long saw h =
        let added : ltb 1 (length st.out) ≡ true = ground arith in
        rw name (
          rw added at h.0 ∙ append_assoc st.out (slash ∷ seg) (slashed (names segs)),
          ground arith,
          (safe, h.2),
          h.3,
        )

    Resolves-dot : path_component_is_dot seg ≡ true → Resolves segs → Resolves (seg ∷ segs)
    Resolves-dot dot h = rw dot (h.0, h.1, (safe, h.2), h.3)

    Resolves-name :
        path_component_is_dot seg ≡ false
        → Extends (add_component out_size start seg) segs
        → Resolves (seg ∷ segs)
    unfolding add_component
    Resolves-name name h = rw name (h.0, h.1, (safe, h.2), h.3)

  later_sound :
      (segs : List (List ℕ)) (st : PathState)
      → 1 < length st.out
      → length st.out < out_size
      → st.saw_component ≡ true
      → resolve out_size segs st ≡ built p s
      → Extends st segs
  unfolding resolve add_component is_too_long
  later_sound [] st long fits saw e = ground (arith, append-nil st.out)
  later_sound (seg ∷ segs) st long fits saw e =
      let v = visit-built out_size (resolve out_size segs) seg st e in
      elim v.1 [
        | inl (dot, e') ↦ Extends-dot seg segs v.0 st dot (later_sound segs st long fits saw e')
        | inr (name, room, e') ↦ Extends-name seg segs v.0 st name long saw (
            later_sound segs (add_component out_size st seg)
              (ground (arith, length-append st.out (slash ∷ seg)))
              (ground (arith, length-append st.out (slash ∷ seg))) refl e')
      ]

  start_sound :
      (segs : List (List ℕ))
      → AllNonempty segs
      → 1 < out_size
      → resolve out_size segs start ≡ built p s
      → Resolves segs
  unfolding resolve add_component is_too_long
  start_sound [] full room e = ground arith
  start_sound (seg ∷ segs) full big e =
      let v = visit-built out_size (resolve out_size segs) seg start e in
      elim v.1 [
        | inl (dot, e') ↦ Resolves-dot seg segs v.0 dot (start_sound segs full.1 big e')
        | inr (name, room, e') ↦ Resolves-name seg segs v.0 name (
            later_sound segs (add_component out_size start seg) (omega (arith, full.0))
              (ground arith) refl e')
      ]

  -- With a buffer of two bytes or more, a path that is built is the names of the text, each behind
  -- a slash, is shorter than the buffer, and comes from a text without `..`; its storage is SD
  -- exactly if the first name is `sd`.
  pub build_path-Resolves :
      (relative : List ℕ)
      → 1 < out_size
      → build_path out_size relative ≡ built p s
      → Resolves (components relative)
  unfolding build_path
  build_path-Resolves relative big e =
      start_sound (components relative) (components-nonempty relative) big
        (sym (build_loop-resolve out_size (suc (length relative)) relative start (omega arith)) ∙ e)
