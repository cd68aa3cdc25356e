-- ===== src/Files/Listing.antt =====
-- `list_append_line`, `list_finalize` and `usb_responder_file_list` of src/file_ops.c. `malloc` says
-- which requests `realloc` and `calloc` grant; a text is null as long as its capacity is 0.
pub mod Append
pub mod Lines
pub mod Entries
use epass_usb_responder.Prelude.{
  ℕ, zero, suc, ◌+◌, Bool, true, false, Option, none, some, List, [], ◌∷◌, ◌++◌, leb, ltb, ◌==◌,
  if◌then◌else◌, length,
}
use epass_usb_responder.Outcome.{Outcome, ok, failed, fault, ◌>>=◌, ◌>>◌, require, filled}
use epass_usb_responder.Growth.{Buffer, empty_buffer, grown}
use epass_usb_responder.Files.Host.{Host, Status}
use epass_usb_responder.Files.Paths.{
  Built, built, traversal, too_long, out_of_fuel, path_max_len, build_path,
}
use epass_usb_responder.Files.Remove.{is_directory, is_self_or_parent, child_path}

abbrev pub newline : ℕ
newline = 10

module _ (malloc : ℕ → Bool) where
  unfoldable pub list_append_line : Buffer → List ℕ → Outcome Buffer
  list_append_line text name =
      let n = length name + 1 in
      let needed = length text.bytes + n + 1 in
      let new_cap = grown 256 text.cap needed in
      let line = text.bytes ++ (name ++ newline ∷ []) in
      let enlarged = (do
        require (malloc new_cap)
        bytes ← filled new_cap line
        ok (record { bytes = bytes; cap = new_cap })) in
      let in_place = (do bytes ← filled text.cap line; ok (record text { bytes = bytes })) in
      if ltb text.cap needed then enlarged else in_place

  -- `failed` is a null pointer; otherwise the text before its terminator.
  unfoldable pub list_finalize : Buffer → Outcome (List ℕ)
  list_finalize text =
      if text.cap == 0
      then (do require (malloc 1); ok [])
      else (do terminated ← filled text.cap (text.bytes ++ 0 ∷ []); ok text.bytes)

-- The two texts that the loop fills.
pub record Texts : Type 0 where
  pub files : Buffer
  pub dirs : Buffer

module _ {H : Type 0} (io : Host H) (malloc : ℕ → Bool) (h : H) where
  unfoldable pub list_child : Texts → List ℕ → Option Status → Outcome Texts
  list_child texts name none = failed
  list_child texts name (some st) =
      let to_dirs = (do
        dirs ← list_append_line malloc texts.dirs name
        ok (record texts { dirs = dirs })) in
      let to_files = (do
        files ← list_append_line malloc texts.files name
        ok (record texts { files = files })) in
      if is_directory st.kind then to_dirs else to_files

  -- The loop over the names of `dirpath`.
  unfoldable pub list_entries : List ℕ → List (List ℕ) → Texts → Outcome Texts
  list_entries dirpath [] texts = ok texts
  list_entries dirpath (name ∷ names) texts =
      let child = child_path dirpath name in
      let this =
        if leb path_max_len (length child)
        then failed
        else list_child texts name (io.lstat h child) in
      (if is_self_or_parent name then ok texts else this) >>= list_entries dirpath names

  unfoldable pub list_opened : List ℕ → Option (List (List ℕ)) → Outcome (List ℕ × List ℕ)
  list_opened dirpath none = failed
  list_opened dirpath (some names) = do
    texts ← list_entries dirpath names (record { files = empty_buffer; dirs = empty_buffer })
    files ← list_finalize malloc texts.files
    dirs ← list_finalize malloc texts.dirs
    ok (files, dirs)

  unfoldable pub list_built : Built → Outcome (List ℕ × List ℕ)
  list_built (built dirpath storage) = list_opened dirpath (io.entries h dirpath)
  list_built traversal = failed
  list_built too_long = failed
  list_built out_of_fuel = fault

  unfoldable pub file_list : List ℕ → Outcome (List ℕ × List ℕ)
  file_list relative = list_built (build_path path_max_len relative)
