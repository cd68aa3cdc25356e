-- ===== src/Files/Paths/Accepts.antt =====
-- Which texts `build_path` of src/file_ops.c accepts.
use epass_usb_responder.Prelude.{
  ◌≢◌, ℕ, suc, ◌<◌, ◌≡◌, refl, sym, ap₂, ◌∙◌, true, false, List, [], ◌∷◌, ◌++◌, arith, append-nil,
  append_assoc, length-append, ltb, length, Bool-cases, inl, inr,
}
use epass_usb_responder.Files.Paths.{
  PathState, Built, built, out_of_fuel, slash, path_component_is_dotdot, path_component_is_dot,
  add_component, is_too_long, visit, build_path,
}
use epass_usb_responder.Files.Paths.Split.{
  split, components, resolve, build_loop-resolve, components-nonempty,
}
use epass_usb_responder.Files.Paths.Resolve.{
  start, names, slashed, absolute, storage_of, NoParent, AllNonempty,
}

build_path-resolve :
    (out_size : ℕ) (r : List ℕ) → build_path out_size r ≡ resolve out_size (components r) start
unfolding build_path
build_path-resolve out_size r = build_loop-resolve out_size (suc (length r)) r start (omega arith)

module _ (out_size : ℕ) where
  first_room :
      (seg : List ℕ) (ns : List (List ℕ))
      → length (absolute (seg ∷ ns)) < out_size
      → is_too_long out_size start seg ≡ false
  unfolding is_too_long
  first_room seg ns fits = ground (arith, length-append seg (slashed ns))

  skips :
      (next : PathState → Built) (seg : List ℕ) (st : PathState)
      → path_component_is_dotdot seg ≡ false
      → path_component_is_dot seg ≡ true
      → visit out_size next seg st ≡ next st
  unfolding visit
  skips next seg st safe dot = rw (safe, dot)

  adds :
      (next : PathState → Built) (seg : List ℕ) (st : PathState)
      → path_component_is_dotdot seg ≡ false
      → path_component_is_dot seg ≡ false
      → is_too_long out_size st seg ≡ false
      → visit out_size next seg st ≡ next (add_component out_size st seg)
  unfolding visit
  adds next seg st safe name room = rw (safe, name, room)

  module _ (seg : List ℕ) (st : PathState) (ns : List (List ℕ)) where
    -- The text with one more name, and those that follow.
    added :
        1 < length st.out
        → (add_component out_size st seg).out ++ slashed ns
          ≡ st.out ++ (slash ∷ (seg ++ slashed ns))
    unfolding add_component
    added long =
        let behind : ltb 1 (length st.out) ≡ true = ground arith in
        rw behind (append_assoc st.out (slash ∷ seg) (slashed ns))

    added_storage : st.saw_component ≡ true → (add_component out_size st seg).storage ≡ st.storage
    unfolding add_component
    added_storage saw = ground arith

    room_for :
        1 < length st.out
        → length (st.out ++ (slash ∷ (seg ++ slashed ns))) < out_size
        → is_too_long out_size st seg ≡ false
    unfolding is_too_long
    room_for long fits =
        ground (
          arith,
          length-append st.out (slash ∷ (seg ++ slashed ns)),
          length-append seg (slashed ns),
        )

    still_behind : 1 < length st.out → 1 < length (add_component out_size st seg).out
    unfolding add_component
    still_behind long = ground (arith, length-append st.out (slash ∷ seg), length-append st.out seg)

  later_complete :
      (segs : List (List ℕ)) (st : PathState)
      → NoParent segs
      → 1 < length st.out
      → st.saw_component ≡ true
      → length (st.out ++ slashed (names segs)) < out_size
      → resolve out_size segs st ≡ built (st.out ++ slashed (names segs)) st.storage
  unfolding resolve
  later_complete [] st safe long saw fits = rw (append-nil st.out)
  later_complete (seg ∷ segs) st safe long saw fits =
      elim (Bool-cases (path_component_is_dot seg)) [
        | inl dot ↦ rw dot (
            skips (resolve out_size segs) seg st safe.0 dot
            ∙ later_complete segs st safe.1 long saw (rw dot at fits))
        | inr name ↦
            let fits' = rw name at fits in
            rw name (
              adds (resolve out_size segs) seg st safe.0 name
                (room_for seg st (names segs) long fits')
              ∙ later_complete segs (add_component out_size st seg) safe.1
                  (still_behind seg st [] long) (unfold add_component in refl)
                  (rw (added seg st (names segs) long) fits')
              ∙ ap₂ built (added seg st (names segs) long) (added_storage seg st [] saw))
      ]

  start_complete :
      (segs : List (List ℕ))
      → AllNonempty segs
      → NoParent segs
      → length (absolute (names segs)) < out_size
      → resolve out_size segs start ≡ built (absolute (names segs)) (storage_of (names segs))
  unfolding resolve
  start_complete [] full safe fits = refl
  start_complete (seg ∷ segs) full safe fits = elim (Bool-cases (path_component_is_dot seg)) [
    | inl dot ↦ rw dot (
        skips (resolve out_size segs) seg start safe.0 dot
        ∙ start_complete segs full.1 safe.1 (rw dot at fits))
    | inr name ↦
        let fits' = rw name at fits in
        rw name (
          adds (resolve out_size segs) seg start safe.0 name (first_room seg (names segs) fits')
          ∙ later_complete segs (add_component out_size start seg) safe.1
              (unfold add_component in omega (arith, full.0)) (unfold add_component in refl)
              (unfold add_component in fits')
          ∙ unfold add_component in refl)
  ]

  visit-ne-out_of_fuel :
      (next : PathState → Built) (seg : List ℕ) (st : PathState)
      → ((st' : PathState) → next st' ≢ out_of_fuel)
      → visit out_size next seg st ≢ out_of_fuel
  unfolding visit
  visit-ne-out_of_fuel next seg st h = ground (arith, h st, h (add_component out_size st seg))

  resolve-ne-out_of_fuel :
      (segs : List (List ℕ)) (st : PathState) → resolve out_size segs st ≢ out_of_fuel
  unfolding resolve
  resolve-ne-out_of_fuel [] st = λ e. cc
  resolve-ne-out_of_fuel (seg ∷ segs) st =
      visit-ne-out_of_fuel (resolve out_size segs) seg st (resolve-ne-out_of_fuel segs)

  -- The loop of `build_path` ends on every text within the fuel that it is given.
  pub build_path-ne-out_of_fuel : (relative : List ℕ) → build_path out_size relative ≢ out_of_fuel
  build_path-ne-out_of_fuel relative =
      rw (build_path-resolve out_size relative) (resolve-ne-out_of_fuel (components relative) start)

  -- A text without `..` whose names, each behind a slash, are shorter than the buffer is accepted
  -- and built to them; empty components and `.` do not count.
  pub build_path_accepts :
      (relative : List ℕ)
      → NoParent (components relative)
      → length (absolute (names (components relative))) < out_size
      → build_path out_size relative
        ≡ built (absolute (names (components relative))) (storage_of (names (components relative)))
  build_path_accepts relative safe fits =
      build_path-resolve out_size relative
      ∙ start_complete (components relative) (components-nonempty relative) safe fits

  -- A leading slash changes nothing: an absolute path is taken for the relative one.
  pub build_path-slash :
      (relative : List ℕ) → build_path out_size (slash ∷ relative) ≡ build_path out_size relative
  build_path-slash relative =
      build_path-resolve out_size (slash ∷ relative)
      ∙ unfold split in sym (build_path-resolve out_size relative)
