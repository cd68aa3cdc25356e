-- ===== src/Files/Remove/Enough.antt =====
-- The recursion of `remove_path_recursive` in src/file_ops.c on any tree.
use epass_usb_responder.Prelude.{
  ℕ, zero, suc, ◌+◌, ◌≤◌, ◌<◌, ◌≡◌, ◌≢◌, refl, true, false, ◌&&◌, none, some, List, [], ◌∷◌, arith,
  leb, Option, length, length-append, Bool-cases, inl, inr,
}
use epass_usb_responder.Files.Host.{Host, Status, Call, done, unfinished, then_on}
use epass_usb_responder.Files.Paths.{
  Built, built, traversal, too_long, out_of_fuel, slash, path_max_len, build_path,
  path_storage_matches_desire, path_is_storage_root,
}
use epass_usb_responder.Files.Paths.Resolve.{build_path-Resolves}
use epass_usb_responder.Files.Paths.Accepts.{build_path-ne-out_of_fuel}
use epass_usb_responder.Files.Upload.{ensure_storage_writeable}
use epass_usb_responder.Files.Remove.{
  child_path, is_directory, is_self_or_parent, remove_entries, remove_directory, remove_found,
  remove_path_recursive, delete_built, file_delete,
}

then_on-ne-unfinished :
    {H : Type 0}
    → (r : Call H) (k : H → Call H) → r ≢ unfinished
    → ((h : H) → k h ≢ unfinished)
    → then_on r k ≢ unfinished
then_on-ne-unfinished (done true h) k f g = g h
then_on-ne-unfinished (done false h) k f g = λ e. cc
then_on-ne-unfinished unfinished k f g = absurd (f refl)

module _ {H : Type 0} (io : Host H) where
  module _ (remove : H → List ℕ → Call H) (path : List ℕ)
      (ih : (h : H) (child : List ℕ)
        → length path < length child
        → length child < path_max_len
        → remove h child ≢ unfinished) where
    remove_entries-ne-unfinished :
        (names : List (List ℕ)) (h : H) → remove_entries io remove path names h ≢ unfinished
    unfolding remove_entries
    remove_entries-ne-unfinished [] h = λ e. cc
    remove_entries-ne-unfinished (name ∷ names) h = elim (Bool-cases (is_self_or_parent name)) [
      | inl skip ↦ rw skip (remove_entries-ne-unfinished names h)
      | inr keep ↦ elim (Bool-cases (leb path_max_len (length (child_path path name)))) [
        | inl long ↦ rw (keep, long) (λ e. cc)
        | inr fits ↦
            rw (keep, fits)
              (then_on-ne-unfinished (remove h (child_path path name)) _
                (ih h (child_path path name) (omega (arith, length-append path (slash ∷ name)))
                  (ground arith))
                (remove_entries-ne-unfinished names))
      ]
    ]

    remove_found-ne-unfinished :
        (h : H) (st : Option Status) → remove_found io remove h path st ≢ unfinished
    unfolding remove_found
    remove_found-ne-unfinished h none = λ e. cc
    remove_found-ne-unfinished h (some st) = elim (Bool-cases (is_directory st.kind)) [
      | inl dir ↦ rw dir (opened (io.entries h path))
      | inr file ↦ rw file (λ e. cc)
    ]
      where
        opened :
            (names : Option (List (List ℕ))) → remove_directory io remove h path names ≢ unfinished
        opened none = unfold remove_directory in λ e. cc
        opened (some names) =
            unfold remove_directory in
            then_on-ne-unfinished (remove_entries io remove path names h) _
              (remove_entries-ne-unfinished names h) (λ h' e. cc)

  pub remove_path_recursive-ne-unfinished :
      (fuel : ℕ) (h : H) (path : List ℕ)
      → length path < path_max_len
      → path_max_len ≤ fuel + length path
      → remove_path_recursive io fuel h path ≢ unfinished
  unfolding remove_path_recursive
  remove_path_recursive-ne-unfinished zero h path short enough = absurd (omega arith)
  remove_path_recursive-ne-unfinished (suc fuel) h path short enough =
      remove_found-ne-unfinished (remove_path_recursive io fuel) path
        (λ h' child longer fits.
          remove_path_recursive-ne-unfinished fuel h' child fits (omega arith))
        h (io.lstat h path)

  pub file_delete-ne-unfinished :
      (h : H) (relative : List ℕ) (desire : Option (List ℕ))
      → file_delete io h relative desire ≢ unfinished
  unfolding file_delete
  file_delete-ne-unfinished h relative desire = split (build_path path_max_len relative) refl
    where
      split :
          (b : Built)
          → build_path path_max_len relative ≡ b
          → delete_built io h desire b ≢ unfinished
      split (built path storage) e =
          let r = build_path-Resolves path_max_len path storage relative (omega arith) e in
          elim (Bool-cases
            (path_storage_matches_desire storage desire && ensure_storage_writeable io storage h)) [
              | inl good ↦ elim (Bool-cases (path_is_storage_root path)) [
                | inl root ↦ unfold delete_built in rw (good, root) (λ f. cc)
                | inr inside ↦
                    unfold delete_built in
                    rw (good, inside)
                      (remove_path_recursive-ne-unfinished path_max_len h path r.3 (omega arith))
              ]
              | inr bad ↦ unfold delete_built in rw bad (λ f. cc)
            ]
      split traversal e = unfold delete_built in λ f. cc
      split too_long e = unfold delete_built in λ f. cc
      split out_of_fuel e = absurd (build_path-ne-out_of_fuel path_max_len relative e)
