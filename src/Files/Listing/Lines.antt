-- ===== src/Files/Listing/Lines.antt =====
-- The texts of `usb_responder_file_list` of src/file_ops.c against the entries of the directory.
use epass_usb_responder.Prelude.{
  ℕ, ◌≡◌, ◌≢◌, refl, sym, ap, ◌∙◌, Bool, true, false, Option, none, some, List, [], ◌∷◌, ◌++◌, leb,
  append-nil, append_assoc, if◌then◌else◌, length, Bool-cases, inl, inr,
}
use epass_usb_responder.Outcome.{Outcome, ok, failed, fault, ◌>>=◌}
use epass_usb_responder.Growth.{Buffer}
use epass_usb_responder.Files.Host.{Host, Status}
use epass_usb_responder.Files.Paths.{path_max_len}
use epass_usb_responder.Files.Remove.{is_directory, is_self_or_parent, child_path}
use epass_usb_responder.Files.Listing.Append.{HasRoom, IsGranted, Appends, list_append_line-Appends}
use epass_usb_responder.Files.Listing.{newline, list_append_line, Texts, list_child, list_entries}

-- Each name on a line.
abbrev pub lines : List (List ℕ) → List ℕ
lines [] = []
lines (name ∷ names) = (name ++ newline ∷ []) ++ lines names

module _ {H : Type 0} (io : Host H) (malloc : ℕ → Bool) (h : H) (dirpath : List ℕ) where
  -- What a listing shows of a name: whether it is one of a directory, or none where it fails.
  abbrev pub shown : List ℕ → Option Bool
  shown name =
      if leb path_max_len (length (child_path dirpath name))
      then none
      else elim (io.lstat h (child_path dirpath name)) [
        | none ↦ none
        | some st ↦ some (is_directory st.kind)
      ]

  -- The names of which the listing says that they are directories, or that they are not.
  abbrev pub listed : Bool → List (List ℕ) → List (List ℕ)
  listed dirs [] = []
  listed dirs (name ∷ names) =
      let rest = listed dirs names in
      if is_self_or_parent name then rest else elim (shown name) [
        | none ↦ rest
        | some true ↦ if dirs then name ∷ rest else rest
        | some false ↦ if dirs then rest else name ∷ rest
      ]

  -- No name is too long or vanishes.
  abbrev pub AreShown : List (List ℕ) → Type 0
  AreShown [] = Unit
  AreShown (name ∷ names) = ((is_self_or_parent name ≡ false) → shown name ≢ none) × AreShown names

  -- What the loop may answer: texts, or a failure with one of the two reasons.
  abbrev pub Lists : Type 0 → List ℕ → List ℕ → Outcome Texts → Type 0
  Lists Bad files dirs (ok texts) =
      (texts.files.bytes ≡ files)
      × HasRoom texts.files
      × (texts.dirs.bytes ≡ dirs)
      × HasRoom texts.dirs
  Lists Bad files dirs failed = Bad
  Lists Bad files dirs fault = ⊥

  Lists-bind :
      (Bad Bad' : Type 0) (r : Outcome Texts) (k : Texts → Outcome Texts)
      (files dirs files' dirs' : List ℕ)
      → Lists Bad files dirs r
      → (Bad → Bad')
      → ((texts : Texts)
          → texts.files.bytes ≡ files
          → texts.dirs.bytes ≡ dirs
          → HasRoom texts.files
          → HasRoom texts.dirs
          → Lists Bad' files' dirs' (k texts))
      → Lists Bad' files' dirs' (r >>= k)
  Lists-bind Bad Bad' (ok texts) k files dirs files' dirs' l bad f = f texts l.0 l.2 l.1 l.3
  Lists-bind Bad Bad' failed k files dirs files' dirs' l bad f = bad l
  Lists-bind Bad Bad' fault k files dirs files' dirs' l bad f = l

  abbrev line : List ℕ → List ℕ
  line name = name ++ newline ∷ []

  -- The text with a line more where the name is of the kind.
  abbrev with_line : Bool → List ℕ → List ℕ → List ℕ
  with_line true bytes name = bytes ++ line name
  with_line false bytes name = bytes

  into_dirs :
      (texts : Texts) (name : List ℕ) (r : Outcome Buffer)
      → Appends malloc (texts.dirs.bytes ++ line name) r
      → HasRoom texts.files
      → Lists
          (¬ IsGranted malloc)
          texts.files.bytes
          (texts.dirs.bytes ++ line name)
          (r >>= λ dirs. ok (record texts { dirs = dirs }))
  into_dirs texts name (ok b) a room = (refl, room, a.0, a.1)
  into_dirs texts name failed a room = a
  into_dirs texts name fault a room = a

  into_files :
      (texts : Texts) (name : List ℕ) (r : Outcome Buffer)
      → Appends malloc (texts.files.bytes ++ line name) r
      → HasRoom texts.dirs
      → Lists
          (¬ IsGranted malloc)
          (texts.files.bytes ++ line name)
          texts.dirs.bytes
          (r >>= λ files. ok (record texts { files = files }))
  into_files texts name (ok b) a room = (a.0, a.1, refl, room)
  into_files texts name failed a room = a
  into_files texts name fault a room = a

  -- The lines that the names add, in the order of the directory.
  abbrev pub file_lines : List (List ℕ) → List ℕ
  file_lines names = lines (listed false names)

  abbrev pub dir_lines : List (List ℕ) → List ℕ
  dir_lines names = lines (listed true names)

  abbrev pub Fails : List (List ℕ) → Type 0
  Fails names = ¬ (IsGranted malloc × AreShown names)

  Lists-weaken :
      (Bad Bad' : Type 0) (files dirs : List ℕ) (r : Outcome Texts)
      → Lists Bad files dirs r
      → (Bad → Bad')
      → Lists Bad' files dirs r
  Lists-weaken Bad Bad' files dirs (ok texts) l f = l
  Lists-weaken Bad Bad' files dirs failed l f = f l
  Lists-weaken Bad Bad' files dirs fault l f = l

  module _ (name : List ℕ) (names : List (List ℕ)) where
    Fails-later : Fails names → Fails (name ∷ names)
    Fails-later f p = f (p.0, p.1.1)

    Fails-name : is_self_or_parent name ≡ false → shown name ≡ none → Fails (name ∷ names)
    Fails-name keep e p = p.1.0 keep e

    listed-skip :
        is_self_or_parent name ≡ true
        → (file_lines (name ∷ names) ≡ file_lines names)
          × (dir_lines (name ∷ names) ≡ dir_lines names)
    listed-skip skip = (rw skip, rw skip)

    list_entries-skip :
        (texts : Texts)
        → is_self_or_parent name ≡ true
        → list_entries io malloc h dirpath (name ∷ names) texts
          ≡ list_entries io malloc h dirpath names texts
    unfolding list_entries
    list_entries-skip texts skip = rw skip

    list_entries-child :
        (texts : Texts)
        → is_self_or_parent name ≡ false
        → leb path_max_len (length (child_path dirpath name)) ≡ false
        → list_entries io malloc h dirpath (name ∷ names) texts ≡ (
            list_child io malloc h texts name (io.lstat h (child_path dirpath name))
            >>= list_entries io malloc h dirpath names)
    unfolding list_entries
    list_entries-child texts keep fits = rw (keep, fits)

    list_entries-long :
        (texts : Texts)
        → is_self_or_parent name ≡ false
        → leb path_max_len (length (child_path dirpath name)) ≡ true
        → list_entries io malloc h dirpath (name ∷ names) texts ≡ failed
    unfolding list_entries
    list_entries-long texts keep long = rw (keep, long)

    shown-long : leb path_max_len (length (child_path dirpath name)) ≡ true → shown name ≡ none
    shown-long long = rw long

    listed-dir :
        is_self_or_parent name ≡ false
        → shown name ≡ some true
        → (file_lines (name ∷ names) ≡ file_lines names)
          × (dir_lines (name ∷ names) ≡ line name ++ dir_lines names)
    listed-dir keep e = (rw (keep, e), rw (keep, e))

    listed-file :
        is_self_or_parent name ≡ false
        → shown name ≡ some false
        → (file_lines (name ∷ names) ≡ line name ++ file_lines names)
          × (dir_lines (name ∷ names) ≡ dir_lines names)
    listed-file keep e = (rw (keep, e), rw (keep, e))

    shown-eq :
        (o : Option Status)
        → leb path_max_len (length (child_path dirpath name)) ≡ false
        → io.lstat h (child_path dirpath name) ≡ o
        → shown name
          ≡ (elim o as (λ _. Option Bool) [ none ↦ none | some st ↦ some (is_directory st.kind) ])
    shown-eq o fits e = rw (fits, e)

    -- The rest of the loop from any texts.
    abbrev Continues : Type 0
    Continues =
        (texts : Texts) (files dirs : List ℕ)
        → texts.files.bytes ≡ files
        → texts.dirs.bytes ≡ dirs
        → HasRoom texts.files
        → HasRoom texts.dirs
        → Lists (Fails (name ∷ names)) (files ++ file_lines names) (dirs ++ dir_lines names)
            (list_entries io malloc h dirpath names texts)

    list_child-Lists :
        (o : Option Status) (texts : Texts)
        → is_self_or_parent name ≡ false
        → leb path_max_len (length (child_path dirpath name)) ≡ false
        → io.lstat h (child_path dirpath name) ≡ o
        → HasRoom texts.files
        → HasRoom texts.dirs
        → Continues
        → Lists
            (Fails (name ∷ names))
            (texts.files.bytes ++ file_lines (name ∷ names))
            (texts.dirs.bytes ++ dir_lines (name ∷ names))
            (list_child io malloc h texts name o >>= list_entries io malloc h dirpath names)
    unfolding list_child
    list_child-Lists none texts keep fits e rf rd go = Fails-name keep (shown-eq none fits e)
    list_child-Lists (some st) texts keep fits e rf rd go =
        elim (Bool-cases (is_directory st.kind)) [
          | inl dir ↦
              let l = listed-dir keep (shown-eq (some st) fits e ∙ ap some dir) in
              rw (dir, l.0, l.1, ← append_assoc texts.dirs.bytes (line name) (dir_lines names))
                (Lists-bind (¬ IsGranted malloc) (Fails (name ∷ names)) _ _ _ _ _ _
                  (into_dirs texts name (list_append_line malloc texts.dirs name)
                    (list_append_line-Appends malloc texts.dirs name) rf)
                  (λ f p. f p.0) (λ t ef ed. go t _ _ ef ed))
          | inr file ↦
              let l = listed-file keep (shown-eq (some st) fits e ∙ ap some file) in
              rw (file, l.0, l.1, ← append_assoc texts.files.bytes (line name) (file_lines names))
                (Lists-bind (¬ IsGranted malloc) (Fails (name ∷ names)) _ _ _ _ _ _
                  (into_files texts name (list_append_line malloc texts.files name)
                    (list_append_line-Appends malloc texts.files name) rd)
                  (λ f p. f p.0) (λ t ef ed. go t _ _ ef ed))
        ]

    list_entry-Lists :
        (texts : Texts)
        → HasRoom texts.files
        → HasRoom texts.dirs
        → Continues
        → Lists
            (Fails (name ∷ names))
            (texts.files.bytes ++ file_lines (name ∷ names))
            (texts.dirs.bytes ++ dir_lines (name ∷ names))
            (list_entries io malloc h dirpath (name ∷ names) texts)
    list_entry-Lists texts rf rd go = elim (Bool-cases (is_self_or_parent name)) [
      | inl skip ↦
          let l = listed-skip skip in
          rw (l.0, l.1, list_entries-skip texts skip)
            (go texts texts.files.bytes texts.dirs.bytes refl refl rf rd)
      | inr keep ↦ elim (Bool-cases (leb path_max_len (length (child_path dirpath name)))) [
        | inl long ↦ rw (list_entries-long texts keep long) (Fails-name keep (shown-long long))
        | inr fits ↦
            rw (list_entries-child texts keep fits) (
              list_child-Lists (io.lstat h (child_path dirpath name)) texts keep fits refl rf rd go)
      ]
    ]

  pub list_entries-Lists :
      (names : List (List ℕ)) (texts : Texts) (files dirs : List ℕ)
      → texts.files.bytes ≡ files
      → texts.dirs.bytes ≡ dirs
      → HasRoom texts.files
      → HasRoom texts.dirs
      → Lists
          (Fails names)
          (files ++ file_lines names)
          (dirs ++ dir_lines names)
          (list_entries io malloc h dirpath names texts)
  list_entries-Lists [] texts files dirs ef ed rf rd =
      unfold list_entries in (ef ∙ sym (append-nil files), rf, ed ∙ sym (append-nil dirs), rd)
  list_entries-Lists (name ∷ names) texts files dirs ef ed rf rd =
      rw (← ef, ← ed)
        (list_entry-Lists name names texts rf rd (λ t f g e1 e2 r1 r2.
          Lists-weaken (Fails names) (Fails (name ∷ names)) _ _ _
            (list_entries-Lists names t f g e1 e2 r1 r2) (Fails-later name names)))
