-- ===== src/Files/Place/Parents.antt =====
-- `usb_responder_dir_mkdir` of src/file_ops.c with parents, against making the ancestors in order.
use epass_usb_responder.Prelude.{
  ℕ, zero, suc, ◌<◌, ◌≡◌, refl, sym, ap, ◌∙◌, ◌≢◌, Bool, Bool-cases, inl, inr, true, false, Option,
  none, some, List, [], ◌∷◌, ◌++◌, arith, leb, ◌==◌, append-nil, append_assoc, length,
  length-append, All-append,
}
use mathlib.Core.Path.{fun_ext}
use epass_usb_responder.Text.{same_string}
use epass_usb_responder.Files.Host.{
  Host, Made, made, exists, refused, Kind, regular, directory, link, special, Status, Call, done,
  then_on,
}
use epass_usb_responder.Files.Paths.{
  Storage, built, slash, path_max_len, build_path, skip_slashes, segment, after_segment,
  path_storage_matches_desire,
}
use epass_usb_responder.Files.Paths.Split.{
  components, components-skip, components-head, skip_slashes-head, after_segment-shorter,
  skip_slashes-shorter, split,
}
use epass_usb_responder.Files.Paths.Resolve.{names, slashed, absolute, build_path-Resolves}
use epass_usb_responder.Files.Paths.Names.{
  AreNames, HasNoSlash, behind_root, components-absolute, names-components,
}
use epass_usb_responder.Files.Remove.{is_directory}
use epass_usb_responder.Files.Upload.{ensure_storage_writeable}
use epass_usb_responder.Files.Place.{
  extended, directory_mode, made_or_there, make_component, make_loop, mkdir_built, dir_mkdir,
}

slashed-append : (ms ns : List (List ℕ)) → slashed (ms ++ ns) ≡ slashed ms ++ slashed ns
slashed-append [] ns = refl
slashed-append (m ∷ ms) ns =
    ap (λ r. slash ∷ r)
      (ap (λ r. m ++ r) (slashed-append ms ns) ∙ sym (append_assoc m (slashed ms) (slashed ns)))

extended-absolute :
    (ms : List (List ℕ)) (n : List ℕ)
    → AreNames ms
    → extended (absolute ms) n ≡ absolute (ms ++ n ∷ [])
unfolding same_string
extended-absolute [] n h = ap (λ r. slash ∷ r) (sym (append-nil n))
extended-absolute ([] ∷ ms) n h = absurd (omega (arith, h.0.0))
extended-absolute ((c ∷ m) ∷ ms) n h =
    ap (λ r. slashed ((c ∷ m) ∷ ms) ++ slash ∷ r) (sym (append-nil n))
    ∙ sym (slashed-append ((c ∷ m) ∷ ms) (n ∷ []))

absolute-last : (ms : List (List ℕ)) (n : List ℕ) → absolute (ms ++ n ∷ []) ≡ slashed (ms ++ n ∷ [])
absolute-last [] n = refl
absolute-last (m ∷ ms) n = refl

-- The path of an ancestor is within the limit if the whole path is.
ancestor_room :
    (ms : List (List ℕ)) (n : List ℕ) (ns : List (List ℕ))
    → length (slashed ((ms ++ n ∷ []) ++ ns)) < path_max_len
    → leb path_max_len (length (absolute (ms ++ n ∷ []))) ≡ false
ancestor_room ms n ns fits = rw absolute-last (
    ground (
      arith,
      ap (λ (r : List ℕ). length r) (slashed-append (ms ++ n ∷ []) ns),
      length-append (slashed (ms ++ n ∷ [])) (slashed ns),
    ))

is_directory-true : (k : Kind) → is_directory k ≡ true → k ≡ directory
is_directory-true directory e = refl
is_directory-true regular e = absurd cc
is_directory-true link e = absurd cc
is_directory-true special e = absurd cc

is_directory-false : (k : Kind) → is_directory k ≡ false → k ≢ directory
is_directory-false k f e = let same : true ≡ false = rw e at f in absurd cc

same_kind : (st t : Status) → some st ≡ some t → st.kind ≢ directory → t.kind ≢ directory
same_kind st t e ne d =
    let same : st ≡ t = ground arith in ne (ap (λ (u : Status). u.kind) same ∙ d)

module _ {H : Type 0} (io : Host H) where
  -- The loop over the components.
  unfoldable make_each : List (List ℕ) → List ℕ → H → Call H
  make_each [] work h = done true h
  make_each (seg ∷ segs) work h = make_component io (make_each segs) seg work h

  -- Each directory on the way, those of `made_names` being there.
  unfoldable make_ancestors : List (List ℕ) → List (List ℕ) → H → Call H
  make_ancestors made_names [] h = done true h
  make_ancestors made_names (n ∷ ns) h =
      let here = made_names ++ n ∷ [] in
      then_on (made_or_there io (absolute here) (io.mkdir h (absolute here) directory_mode))
        (λ h'. make_ancestors here ns h')

  -- Each beginning of the list of names, `made_names` being there, is made or is a directory, as
  -- `stat` says where `mkdir` says that it exists; the first that is neither ends it.
  pub data Makes : List (List ℕ) → List (List ℕ) → H → Bool → H → Type 0 where
    all_there : (ms : List (List ℕ)) (h : H) → Makes ms [] h true h
    makes :
        (ms : List (List ℕ)) (n : List ℕ) (ns : List (List ℕ)) (h h' h2 : H) (result : Bool)
        → io.mkdir h (absolute (ms ++ n ∷ [])) 0o755 ≡ (made, h')
        → Makes (ms ++ n ∷ []) ns h' result h2
        → Makes ms (n ∷ ns) h result h2
    finds :
        (ms : List (List ℕ)) (n : List ℕ) (ns : List (List ℕ)) (h h' h2 : H) (result : Bool)
        (st : Status)
        → io.mkdir h (absolute (ms ++ n ∷ [])) 0o755 ≡ (exists, h')
        → io.stat h' (absolute (ms ++ n ∷ [])) ≡ some st
        → st.kind ≡ directory
        → Makes (ms ++ n ∷ []) ns h' result h2
        → Makes ms (n ∷ ns) h result h2
    is_not_there :
        (ms : List (List ℕ)) (n : List ℕ) (ns : List (List ℕ)) (h h' : H)
        → io.mkdir h (absolute (ms ++ n ∷ [])) 0o755 ≡ (exists, h')
        → ((st : Status) → io.stat h' (absolute (ms ++ n ∷ [])) ≡ some st → st.kind ≢ directory)
        → Makes ms (n ∷ ns) h false h'
    is_refused :
        (ms : List (List ℕ)) (n : List ℕ) (ns : List (List ℕ)) (h h' : H)
        → io.mkdir h (absolute (ms ++ n ∷ [])) 0o755 ≡ (refused, h')
        → Makes ms (n ∷ ns) h false h'

  -- What a call does is an outcome of the relation.
  abbrev Does : List (List ℕ) → List (List ℕ) → H → Call H → Type 0
  Does ms ns h c = (result : Bool) × (h' : H) × (c ≡ done result h') × Makes ms ns h result h'

  Does-exists :
      (ms : List (List ℕ)) (n : List ℕ) (ns : List (List ℕ)) (h h' : H) (st : Option Status)
      → io.mkdir h (absolute (ms ++ n ∷ [])) 0o755 ≡ (exists, h')
      → io.stat h' (absolute (ms ++ n ∷ [])) ≡ st
      → Does (ms ++ n ∷ []) ns h' (make_ancestors (ms ++ n ∷ []) ns h')
      → Does ms (n ∷ ns) h (
          then_on
            (done (elim st [ none ↦ false | some t ↦ is_directory t.kind ]) h')
            (λ h2. make_ancestors (ms ++ n ∷ []) ns h2))
  Does-exists ms n ns h h' none e f d =
      (false, h', refl, is_not_there ms n ns h h' e (λ st g. absurd (let no = sym f ∙ g in cc)))
  Does-exists ms n ns h h' (some st) e f d = elim (Bool-cases (is_directory st.kind)) [
    | inl dir ↦
        rw dir
          (d.0, d.1, d.2, finds ms n ns h h' d.1 d.0 st e f (is_directory-true st.kind dir) d.3)
    | inr other ↦ rw other (
      false,
      h',
      refl,
      is_not_there ms n ns h h' e
          (λ t g. same_kind st t (sym f ∙ g) (is_directory-false st.kind other)),
    )
  ]

  Does-next :
      (ms : List (List ℕ)) (n : List ℕ) (ns : List (List ℕ)) (h : H) (r : Made × H)
      → io.mkdir h (absolute (ms ++ n ∷ [])) 0o755 ≡ r
      → ((h' : H) → Does (ms ++ n ∷ []) ns h' (make_ancestors (ms ++ n ∷ []) ns h'))
      → Does ms (n ∷ ns) h (
          then_on
            (made_or_there io (absolute (ms ++ n ∷ [])) r)
            (λ h2. make_ancestors (ms ++ n ∷ []) ns h2))
  unfolding made_or_there
  Does-next ms n ns h (made, h') e d =
      let r = d h' in (r.0, r.1, r.2, makes ms n ns h h' r.1 r.0 e r.3)
  Does-next ms n ns h (exists, h') e d =
      Does-exists ms n ns h h' (io.stat h' (absolute (ms ++ n ∷ []))) e refl (d h')
  Does-next ms n ns h (refused, h') e d = (false, h', refl, is_refused ms n ns h h' e)

  make_ancestors-Does : (ms ns : List (List ℕ)) (h : H) → Does ms ns h (make_ancestors ms ns h)
  unfolding make_ancestors
  make_ancestors-Does ms [] h = (true, h, refl, all_there ms h)
  make_ancestors-Does ms (n ∷ ns) h =
      Does-next ms n ns h (io.mkdir h (absolute (ms ++ n ∷ [])) 0o755) refl
        (make_ancestors-Does (ms ++ n ∷ []) ns)

  loop_step :
      (fuel : ℕ) (r work : List ℕ) (h : H) (skipped : List ℕ)
      → skip_slashes r ≡ skipped
      → ((rest work : List ℕ) (h : H)
          → length rest < length skipped
          → make_loop io fuel rest work h ≡ make_each (components rest) work h)
      → make_loop io (suc fuel) r work h ≡ make_each (components r) work h
  unfolding make_loop make_each
  loop_step fuel r work h [] e ih =
      rw (e, make_loop) (rw (← components-skip r, e) (unfold split in refl))
  loop_step fuel r work h (c ∷ rest) e ih =
      rw (e, make_loop)
        (rw (← components-skip r, e, components-head c rest (skip_slashes-head r e))
          (ap (λ next. make_component io next (segment (c ∷ rest)) work h)
            (fun_ext λ w.
              fun_ext λ h'. ih (after_segment (c ∷ rest)) w h' (shorter (skip_slashes-head r e)))))
    where
      shorter : (c == slash) ≡ false → length (after_segment (c ∷ rest)) < length (c ∷ rest)
      shorter f = unfold after_segment in rw f (omega (arith, after_segment-shorter rest))

  make_loop-make_each :
      (fuel : ℕ) (r work : List ℕ) (h : H)
      → length r < fuel
      → make_loop io fuel r work h ≡ make_each (components r) work h
  make_loop-make_each zero r work h l = absurd (omega arith)
  make_loop-make_each (suc fuel) r work h l =
      loop_step fuel r work h (skip_slashes r) refl (λ rest w h' less.
        make_loop-make_each fuel rest w h' (omega (arith, skip_slashes-shorter r)))

  make_each-make_ancestors :
      (ms ns : List (List ℕ)) (h : H)
      → AreNames ms
      → AreNames ns
      → length (slashed (ms ++ ns)) < path_max_len
      → make_each ns (absolute ms) h ≡ make_ancestors ms ns h
  unfolding make_each make_ancestors make_component
  make_each-make_ancestors ms [] h hm hn fits = refl
  make_each-make_ancestors ms (n ∷ ns) h hm hn fits =
      let here = ms ++ n ∷ [] in
      let fits' : length (slashed (here ++ ns)) < path_max_len =
        rw (append_assoc ms (n ∷ []) ns) fits in
      rw (make_component, extended-absolute ms n hm, ancestor_room ms n ns fits')
        (ap
          (λ k.
            then_on (made_or_there io (absolute here) (io.mkdir h (absolute here) directory_mode))
              k)
          (fun_ext λ h'.
            make_each-make_ancestors here ns h'
              (All-append (λ (m : List ℕ). (0 < length m) × HasNoSlash m) ms (n ∷ []) hm (hn.0, tt))
              hn.1 fits'))

  slashed_room :
      (ns : List (List ℕ))
      → length (absolute ns) < path_max_len
      → length (slashed ns) < path_max_len
  slashed_room [] h = omega arith
  slashed_room (n ∷ ns) h = h

  dir_mkdir-make_ancestors :
      (h : H) (relative path : List ℕ) (storage : Storage) (desire : Option (List ℕ))
      → build_path path_max_len relative ≡ built path storage
      → path_storage_matches_desire storage desire ≡ true
      → ensure_storage_writeable io storage h ≡ true
      → dir_mkdir io h relative true desire ≡ make_ancestors [] (names (components relative)) h
  unfolding dir_mkdir mkdir_built
  dir_mkdir-make_ancestors h relative path storage desire e desired writeable =
      let r = build_path-Resolves path_max_len path storage relative (omega arith) e in
      let ns = names (components relative) in
      rw (e, desired, writeable)
        (make_loop-make_each (suc (length (behind_root path))) (behind_root path) (slash ∷ []) h
            (omega arith)
          ∙ ap (λ segs. make_each segs (slash ∷ []) h)
              (ap (λ p. components (behind_root p)) r.0
                ∙ components-absolute ns (names-components relative))
          ∙ make_each-make_ancestors [] ns h tt (names-components relative)
              (slashed_room ns (rw r.0 at r.3)))

  -- With parents, for a text that resolves to a path on a storage that is desired and writeable,
  -- dir_mkdir returns, and does this: for each beginning of the list of its names, from the first
  -- name to the whole path, it calls `mkdir` with mode 0755; it goes on where that makes the
  -- directory, or says that it exists and `stat` says that it is a directory; at the first that is
  -- neither it stops with false, and otherwise it returns true.
  pub dir_mkdir-Makes :
      (h : H) (relative path : List ℕ) (storage : Storage) (desire : Option (List ℕ))
      → build_path path_max_len relative ≡ built path storage
      → path_storage_matches_desire storage desire ≡ true
      → ensure_storage_writeable io storage h ≡ true
      → (result : Bool) × (h' : H) × (dir_mkdir io h relative true desire ≡ done result h')
        × Makes [] (names (components relative)) h result h'
  dir_mkdir-Makes h relative path storage desire e desired writeable =
      let r = make_ancestors-Does [] (names (components relative)) h in
      (
        r.0,
        r.1,
        dir_mkdir-make_ancestors h relative path storage desire e desired writeable ∙ r.2,
        r.3,
      )
