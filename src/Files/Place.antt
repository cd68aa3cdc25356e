-- ===== src/Files/Place.antt =====
-- `usb_responder_dir_mkdir` and `usb_responder_file_rename` of src/file_ops.c.
pub mod Parents
pub mod Enough
pub mod Guards
use epass_usb_responder.Prelude.{
  ℕ, zero, suc, ◌+◌, Bool, true, false, not, ◌&&◌, ◌||◌, Option, none, some, List, [], ◌∷◌, ◌++◌,
  leb, ltb, ◌≡◌, if◌then◌else◌, length,
}
use epass_usb_responder.Text.{same_string}
use epass_usb_responder.Files.Host.{
  Host, Made, made, exists, refused, Kind, Status, Call, done, unfinished, then_on, ended,
}
use epass_usb_responder.Files.Paths.{
  Storage, same_storage, Built, built, traversal, too_long, out_of_fuel, slash, path_max_len,
  build_path, skip_slashes, segment, after_segment, path_storage_matches_desire,
  path_is_storage_root,
}
use epass_usb_responder.Files.Paths.Names.{behind_root}
use epass_usb_responder.Files.Upload.{ensure_storage_writeable}
use epass_usb_responder.Files.Remove.{is_directory}

-- `work` with one more component: `"%s%.*s"`, where the separator is empty behind the root.
abbrev pub extended : List ℕ → List ℕ → List ℕ
extended work seg = if same_string work (slash ∷ []) then work ++ seg else work ++ slash ∷ seg

-- `0755`
abbrev pub directory_mode : ℕ
directory_mode = 0o755

module _ {H : Type 0} (io : Host H) where
  abbrev pub is_directory_at : H → List ℕ → Bool
  is_directory_at h path = elim (io.stat h path) [ none ↦ false | some st ↦ is_directory st.kind ]

  -- A directory that exists already is as good as one that was made.
  unfoldable pub made_or_there : List ℕ → Made × H → Call H
  made_or_there work (made, h) = done true h
  made_or_there work (refused, h) = done false h
  made_or_there work (exists, h) = done (is_directory_at h work) h

  -- One round of the loop, `next` being the rest of it.
  unfoldable pub make_component : (List ℕ → H → Call H) → List ℕ → List ℕ → H → Call H
  make_component next seg work h =
      let work' = extended work seg in
      if leb path_max_len (length work')
      then done false h
      else then_on (made_or_there work' (io.mkdir h work' directory_mode)) (next work')

  -- `while (*r != '\0')`. Each round takes a byte, so more fuel than bytes is enough.
  unfoldable pub make_loop : ℕ → List ℕ → List ℕ → H → Call H
  make_loop zero r work h = unfinished
  make_loop (suc fuel) r work h = elim (skip_slashes r) [
    | [] ↦ done true h
    | c ∷ rest ↦
        make_component (make_loop fuel (after_segment (c ∷ rest))) (segment (c ∷ rest)) work h
  ]

  abbrev pub made_only : Made × H → Call H
  made_only (made, h) = done true h
  made_only (exists, h) = done false h
  made_only (refused, h) = done false h

  -- What follows `build_path`.
  unfoldable pub mkdir_built : H → Bool → Option (List ℕ) → Built → Call H
  mkdir_built h parents desire (built path storage) =
      if path_storage_matches_desire storage desire && ensure_storage_writeable io storage h
      then (if not parents
          then made_only (io.mkdir h path directory_mode)
          else make_loop (suc (length (behind_root path))) (behind_root path) (slash ∷ []) h)
      else done false h
  mkdir_built h parents desire traversal = done false h
  mkdir_built h parents desire too_long = done false h
  mkdir_built h parents desire out_of_fuel = unfinished

  unfoldable pub dir_mkdir : H → List ℕ → Bool → Option (List ℕ) → Call H
  dir_mkdir h relative parents desire =
      mkdir_built h parents desire (build_path path_max_len relative)

  -- `rename` once both paths are built: the tests in their order.
  unfoldable pub rename_checked :
      H → Option (List ℕ) → List ℕ → Storage → List ℕ → Storage → Bool × H
  rename_checked h desire from from_storage to to_storage =
      if not (path_storage_matches_desire from_storage desire)
        || not (path_storage_matches_desire to_storage desire)
        || not (ensure_storage_writeable io from_storage h)
        || (not (same_storage to_storage from_storage)
            && not (ensure_storage_writeable io to_storage h))
      then (false, h)
      else if path_is_storage_root from || path_is_storage_root to
      then (false, h)
      else if not (same_storage from_storage to_storage)
      then (false, h)
      else io.rename h from to

  unfoldable pub rename_to : H → Option (List ℕ) → List ℕ → Storage → Built → Bool × H
  rename_to h desire from from_storage (built to to_storage) =
      rename_checked h desire from from_storage to to_storage
  rename_to h desire from from_storage traversal = (false, h)
  rename_to h desire from from_storage too_long = (false, h)
  rename_to h desire from from_storage out_of_fuel = (false, h)

  unfoldable pub rename_built : H → Option (List ℕ) → List ℕ → Built → Bool × H
  rename_built h desire to_relative (built from storage) =
      rename_to h desire from storage (build_path path_max_len to_relative)
  rename_built h desire to_relative traversal = (false, h)
  rename_built h desire to_relative too_long = (false, h)
  rename_built h desire to_relative out_of_fuel = (false, h)

  unfoldable pub file_rename : H → List ℕ → List ℕ → Option (List ℕ) → Bool × H
  file_rename h from_relative to_relative desire =
      rename_built h desire to_relative (build_path path_max_len from_relative)
