-- ===== src/Files/Remove.antt =====
-- `remove_path_recursive` and `usb_responder_file_delete` of src/file_ops.c. The names in a directory
-- are read when it is opened.
pub mod Enough
pub mod Confined
use epass_usb_responder.Prelude.{
  ℕ, zero, suc, Bool, true, false, ◌&&◌, ◌||◌, Option, none, some, List, [], ◌∷◌, ◌++◌, leb,
  if◌then◌else◌, length,
}
use epass_usb_responder.Text.{same_string}
use epass_usb_responder.Files.Host.{
  Host, Kind, directory, Status, Call, done, unfinished, then_on, ended,
}
use epass_usb_responder.Files.Paths.{
  Storage, Built, built, traversal, too_long, out_of_fuel, slash, path_max_len, build_path,
  path_storage_matches_desire, path_is_storage_root,
}
use epass_usb_responder.Files.Upload.{ensure_storage_writeable}

-- `S_ISDIR(st.st_mode)`
abbrev pub is_directory : Kind → Bool
is_directory directory = true
is_directory _ = false

-- `strcmp(de->d_name, ".") == 0 || strcmp(de->d_name, "..") == 0`
unfoldable pub is_self_or_parent : List ℕ → Bool
is_self_or_parent name = same_string name (b'.' ∷ []) || same_string name (b'.' ∷ b'.' ∷ [])

-- `snprintf(child, sizeof(child), "%s/%s", path, name)`
abbrev pub child_path : List ℕ → List ℕ → List ℕ
child_path path name = path ++ slash ∷ name

module _ {H : Type 0} (io : Host H) where
  -- The loop over the names in `path`, with `remove` for the recursive call.
  unfoldable pub remove_entries : (H → List ℕ → Call H) → List ℕ → List (List ℕ) → H → Call H
  remove_entries remove path [] h = done true h
  remove_entries remove path (name ∷ names) h =
      let child = child_path path name in
      let rest = λ (h' : H). remove_entries remove path names h' in
      if is_self_or_parent name
      then rest h
      else if leb path_max_len (length child)
      then done false h
      else then_on (remove h child) rest

  unfoldable pub remove_directory :
      (H → List ℕ → Call H) → H → List ℕ → Option (List (List ℕ)) → Call H
  remove_directory remove h path none = done false h
  remove_directory remove h path (some names) =
      then_on (remove_entries remove path names h) (λ h'. ended (io.rmdir h' path))

  unfoldable pub remove_found : (H → List ℕ → Call H) → H → List ℕ → Option Status → Call H
  remove_found remove h path none = done false h
  remove_found remove h path (some st) =
      if is_directory st.kind
      then remove_directory remove h path (io.entries h path)
      else ended (io.unlink h path)

  -- A child's path is longer than its parent's, and shorter than the limit, so that as much fuel as
  -- the limit is enough.
  unfoldable pub remove_path_recursive : ℕ → H → List ℕ → Call H
  remove_path_recursive zero h path = unfinished
  remove_path_recursive (suc fuel) h path =
      remove_found (remove_path_recursive fuel) h path (io.lstat h path)

  -- What follows `build_path`.
  unfoldable pub delete_built : H → Option (List ℕ) → Built → Call H
  delete_built h desire (built path storage) =
      if path_storage_matches_desire storage desire && ensure_storage_writeable io storage h
      then (if path_is_storage_root path
          then done false h
          else remove_path_recursive path_max_len h path)
      else done false h
  delete_built h desire traversal = done false h
  delete_built h desire too_long = done false h
  delete_built h desire out_of_fuel = unfinished

  unfoldable pub file_delete : H → List ℕ → Option (List ℕ) → Call H
  file_delete h relative desire = delete_built h desire (build_path path_max_len relative)
