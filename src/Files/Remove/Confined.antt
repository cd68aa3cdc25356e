-- ===== src/Files/Remove/Confined.antt =====
-- What `usb_responder_file_delete` of src/file_ops.c may touch.
use epass_usb_responder.Prelude.{
  ℕ, zero, suc, ◌≡◌, ◌≢◌, refl, Bool, true, false, ◌&&◌, none, some, List, [], ◌∷◌, ◌++◌, ◌<◌,
  arith, leb, Option, length, Bool-cases, inl, inr,
}
use epass_usb_responder.Files.Host.{Host, Status, Call, done, unfinished, then_on}
use epass_usb_responder.Files.Paths.{
  Storage, Built, built, traversal, too_long, out_of_fuel, slash, path_max_len, build_path,
  path_storage_matches_desire, path_is_storage_root,
}
use epass_usb_responder.Text.{same_string}
use epass_usb_responder.Files.Paths.Names.{HasNoSlash, AreNames}
use epass_usb_responder.Files.Upload.{ensure_storage_writeable}
use epass_usb_responder.Files.Allowed.{
  IsWanted, IsWriteable, IsNoRoot, path_storage_matches_desire-IsWanted,
  ensure_storage_writeable-IsWriteable, path_is_storage_root-IsNoRoot,
}
use epass_usb_responder.Files.Remove.Enough.{file_delete-ne-unfinished}
use epass_usb_responder.Files.Remove.{
  child_path, is_directory, is_self_or_parent, remove_entries, remove_directory, remove_found,
  remove_path_recursive, delete_built, file_delete,
}

-- A name that leads into a directory: of one part, and neither `.` nor `..`.
pub record LeadsDown (name : List ℕ) : Type 0 where
  pub part : ((0 < length name) × HasNoSlash name)
  pub ne_self : name ≢ b'.' ∷ []
  pub ne_parent : name ≢ b'.' ∷ b'.' ∷ []

-- The path itself, or one that goes on from it by such names.
pub data IsUnder (top : List ℕ) : List ℕ → Type 0 where
  itself : IsUnder top top
  below :
      (path name : List ℕ) → IsUnder top path → LeadsDown name → IsUnder top (path ++ slash ∷ name)

kept-LeadsDown :
    (name : List ℕ)
    → ((0 < length name) × HasNoSlash name)
    → is_self_or_parent name ≡ false
    → LeadsDown name
unfolding is_self_or_parent same_string
kept-LeadsDown name part keep = record {
  part = part;
  ne_self = λ e. let same : true ≡ false = rw e at keep in absurd cc;
  ne_parent = λ e. let same : true ≡ false = rw e at keep in absurd cc;
}

-- `readdir` gives names that are not empty and have no slash.
abbrev pub GivesNames : {H : Type 0} → Host H → Type 0
GivesNames {H} io =
    (h : H) (path : List ℕ) (names : List (List ℕ))
    → io.entries h path ≡ some names
    → AreNames names

-- What holds of the host's state holds after the call.
abbrev pub Leaves : {H : Type 0} → (H → Type 0) → Call H → Type 0
Leaves P (done result h) = P h
Leaves P unfinished = Unit

module _ {H : Type 0} (io : Host H) (gives : GivesNames io) (P : H → Type 0) where
  -- `unlink` and `rmdir` at or below a path keep the property.
  pub record IsKeptUnder (top : List ℕ) : Type 0 where
    pub unlink_keeps : (h : H) (path : List ℕ) → IsUnder top path → P h → P (io.unlink h path).1
    pub rmdir_keeps : (h : H) (path : List ℕ) → IsUnder top path → P h → P (io.rmdir h path).1

  then_on-Leaves :
      (r : Call H) (k : H → Call H)
      → Leaves P r
      → ((h : H) → P h → Leaves P (k h))
      → Leaves P (then_on r k)
  then_on-Leaves (done true h) k p f = f h p
  then_on-Leaves (done false h) k p f = p
  then_on-Leaves unfinished k p f = tt

  module _ (top : List ℕ) (kept : IsKeptUnder top) where
    remove_entries-Leaves :
        (remove : H → List ℕ → Call H) (path : List ℕ)
        → IsUnder top path
        → ((h : H) (child : List ℕ) → IsUnder top child → P h → Leaves P (remove h child))
        → (names : List (List ℕ)) → AreNames names
        → (h : H) → P h
        → Leaves P (remove_entries io remove path names h)
    unfolding remove_entries
    remove_entries-Leaves remove path under ih [] named h p = p
    remove_entries-Leaves remove path under ih (name ∷ names) named h p =
        elim (Bool-cases (is_self_or_parent name)) [
          | inl skip ↦ rw skip (remove_entries-Leaves remove path under ih names named.1 h p)
          | inr keep ↦ elim (Bool-cases (leb path_max_len (length (child_path path name)))) [
            | inl long ↦ rw (keep, long) p
            | inr fits ↦
                rw (keep, fits)
                  (then_on-Leaves (remove h (child_path path name)) _
                    (ih h (child_path path name)
                      (below path name under (kept-LeadsDown name named.0 keep)) p)
                    (remove_entries-Leaves remove path under ih names named.1))
          ]
        ]

    remove_directory-Leaves :
        (remove : H → List ℕ → Call H) (path : List ℕ)
        → IsUnder top path
        → ((h : H) (child : List ℕ) → IsUnder top child → P h → Leaves P (remove h child))
        → (names : Option (List (List ℕ))) → ((ns : List (List ℕ)) → names ≡ some ns → AreNames ns)
        → (h : H) → P h
        → Leaves P (remove_directory io remove h path names)
    unfolding remove_directory
    remove_directory-Leaves remove path under ih none named h p = p
    remove_directory-Leaves remove path under ih (some names) named h p =
        then_on-Leaves (remove_entries io remove path names h) _
          (remove_entries-Leaves remove path under ih names (named names refl) h p)
          (λ h' p'. kept.rmdir_keeps h' path under p')

    remove_found-Leaves :
        (remove : H → List ℕ → Call H) (path : List ℕ)
        → IsUnder top path
        → ((h : H) (child : List ℕ) → IsUnder top child → P h → Leaves P (remove h child))
        → (st : Option Status) (h : H) → P h
        → Leaves P (remove_found io remove h path st)
    unfolding remove_found
    remove_found-Leaves remove path under ih none h p = p
    remove_found-Leaves remove path under ih (some st) h p =
        elim (Bool-cases (is_directory st.kind)) [
          | inl dir ↦
              rw dir (
                remove_directory-Leaves remove path under ih (io.entries h path) (gives h path) h p)
          | inr file ↦ rw file (kept.unlink_keeps h path under p)
        ]

    remove_path_recursive-Leaves :
        (fuel : ℕ) (h : H) (path : List ℕ)
        → IsUnder top path
        → P h
        → Leaves P (remove_path_recursive io fuel h path)
    unfolding remove_path_recursive
    remove_path_recursive-Leaves zero h path under p = tt
    remove_path_recursive-Leaves (suc fuel) h path under p =
        remove_found-Leaves (remove_path_recursive io fuel) path under
          (remove_path_recursive-Leaves fuel) (io.lstat h path) h p

  -- The paths at which a deletion of the text may work.
  pub record IsTarget (h : H) (relative : List ℕ) (desire : Option (List ℕ)) (top : List ℕ)
      : Type 0 where
    pub storage : Storage
    pub resolved : build_path path_max_len relative ≡ built top storage
    pub desired : IsWanted storage desire
    pub writeable : IsWriteable io storage h
    pub inside : IsNoRoot top

  file_delete-Leaves :
      (h : H) (relative : List ℕ) (desire : Option (List ℕ))
      → ((top : List ℕ) → IsTarget h relative desire top → IsKeptUnder top)
      → P h
      → Leaves P (file_delete io h relative desire)
  unfolding file_delete delete_built
  file_delete-Leaves h relative desire kept p = split (build_path path_max_len relative) refl
    where
      split :
          (b : Built) → build_path path_max_len relative ≡ b → Leaves P (delete_built io h desire b)
      split (built path storage) e =
          elim (Bool-cases
            (path_storage_matches_desire storage desire && ensure_storage_writeable io storage h)) [
              | inl good ↦ elim (Bool-cases (path_is_storage_root path)) [
                | inl root ↦ rw (good, root) p
                | inr inside ↦
                    rw (good, inside)
                      (remove_path_recursive-Leaves path
                        (kept path (record {
                          storage = storage;
                          resolved = e;
                          desired =
                              path_storage_matches_desire-IsWanted storage desire (ground arith);
                          writeable =
                              ensure_storage_writeable-IsWriteable io storage h (ground arith);
                          inside = path_is_storage_root-IsNoRoot path inside;
                        }))
                        path_max_len h path itself p)
              ]
              | inr bad ↦ rw bad p
            ]
      split traversal e = p
      split too_long e = p
      split out_of_fuel e = tt

  returned :
      (r : Call H)
      → r ≢ unfinished
      → Leaves P r
      → (result : Bool) × (h' : H) × (r ≡ done result h') × P h'
  returned (done result h') f p = (result, h', refl, p)
  returned unfinished f p = absurd (f refl)

  -- On a host whose directories give names that are not empty and have no slash, file_delete
  -- returns, and a property of the host that holds before holds after, if `unlink` and `rmdir`
  -- keep the property at the resolved path and at the paths that go on from it by such names, none
  -- of them `.` or `..`: nothing else is touched. The resolved path counts only where its storage
  -- is desired and writeable and it is no root of a storage.
  pub file_delete_confined :
      (h : H) (relative : List ℕ) (desire : Option (List ℕ))
      → ((top : List ℕ) → IsTarget h relative desire top → IsKeptUnder top)
      → P h
      → (result : Bool) × (h' : H) × (file_delete io h relative desire ≡ done result h') × P h'
  file_delete_confined h relative desire kept p =
      returned (file_delete io h relative desire) (file_delete-ne-unfinished io h relative desire)
        (file_delete-Leaves h relative desire kept p)
