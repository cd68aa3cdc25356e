-- ===== src/Files/Listing/Entries.antt =====
-- `usb_responder_file_list` of src/file_ops.c: its answer for a directory.
use epass_usb_responder.Prelude.{ℕ, ◌≡◌, ◌≢◌, refl, Bool, Option, none, some, List, [], inl}
use epass_usb_responder.Outcome.{Outcome, ok, failed, fault, ◌>>=◌}
use epass_usb_responder.Files.Host.{Host}
use epass_usb_responder.Files.Paths.{
  Built, traversal, too_long, out_of_fuel, Storage, built, path_max_len, build_path,
}
use epass_usb_responder.Files.Paths.Accepts.{build_path-ne-out_of_fuel}
use epass_usb_responder.Files.Listing.Append.{Finishes, list_finalize-Finishes}
use epass_usb_responder.Files.Listing.{list_finalize, Texts, list_opened, list_built, file_list}
use epass_usb_responder.Files.Listing.Lines.{
  file_lines, dir_lines, Fails, Lists, list_entries-Lists,
}

module _ {H : Type 0} (io : Host H) (malloc : ℕ → Bool) (h : H) (dirpath : List ℕ) where
  -- What `file_list` answers for a directory of these names.
  abbrev pub ListsNames : List (List ℕ) → Outcome (List ℕ × List ℕ) → Type 0
  ListsNames names (ok texts) =
      (texts.0 ≡ file_lines io malloc h dirpath names)
      × (texts.1 ≡ dir_lines io malloc h dirpath names)
  ListsNames names failed = Fails io malloc h dirpath names
  ListsNames names fault = ⊥

  finish_both :
      (names : List (List ℕ)) (r s : Outcome (List ℕ))
      → Finishes malloc (file_lines io malloc h dirpath names) r
      → Finishes malloc (dir_lines io malloc h dirpath names) s
      → ListsNames names (do files ← r; dirs ← s; ok (files, dirs))
  finish_both names (ok f) (ok d) ef ed = (ef, ed)
  finish_both names (ok f) failed ef ed = λ p. ed p.0
  finish_both names (ok f) fault ef ed = ed
  finish_both names failed s ef ed = λ p. ef p.0
  finish_both names fault s ef ed = ef

  list_loop-ListsNames :
      (names : List (List ℕ)) (r : Outcome Texts)
      → Lists io malloc h dirpath
          (Fails io malloc h dirpath names)
          (file_lines io malloc h dirpath names)
          (dir_lines io malloc h dirpath names)
          r
      → ListsNames names (do
        texts ← r
        files ← list_finalize malloc texts.files
        dirs ← list_finalize malloc texts.dirs
        ok (files, dirs))
  list_loop-ListsNames names (ok t) l =
      finish_both names _ _ (list_finalize-Finishes malloc t.files _ l.0 l.1)
        (list_finalize-Finishes malloc t.dirs _ l.2 l.3)
  list_loop-ListsNames names failed l = l
  list_loop-ListsNames names fault l = l

  list_opened-ListsNames :
      (names : List (List ℕ)) → ListsNames names (list_opened io malloc h dirpath (some names))
  unfolding list_opened
  list_opened-ListsNames names = list_loop-ListsNames names _ (
      list_entries-Lists io malloc h dirpath names _ [] [] refl refl (inl (refl, refl))
        (inl (refl, refl)))

  -- For a text that resolves to a directory whose names the host gives, file_list gives two texts:
  -- the names that are no directories and those that are, each on a line, in the order of the
  -- directory, without `.` and `..`. Nothing is written outside a buffer, and the call fails only
  -- if the allocator refuses a request, or a path is too long, or a name has no status.
  pub file_list-ListsNames :
      (relative : List ℕ) (storage : Storage) (names : List (List ℕ))
      → build_path path_max_len relative ≡ built dirpath storage
      → io.entries h dirpath ≡ some names
      → ListsNames names (file_list io malloc h relative)
  unfolding file_list list_built
  file_list-ListsNames relative storage names b e = rw (b, e) (list_opened-ListsNames names)

  pub ListsNames-ne-fault :
      (names : List (List ℕ)) (r : Outcome (List ℕ × List ℕ)) → ListsNames names r → r ≢ fault
  ListsNames-ne-fault names (ok texts) l = λ e. cc
  ListsNames-ne-fault names failed l = λ e. cc
  ListsNames-ne-fault names fault l = elim l [ ]

module _ {H : Type 0} (io : Host H) (malloc : ℕ → Bool) (h : H) where
  pub file_list-ne-fault : (relative : List ℕ) → file_list io malloc h relative ≢ fault
  unfolding file_list list_built
  file_list-ne-fault relative =
      by_path (build_path path_max_len relative) (build_path-ne-out_of_fuel path_max_len relative)
    where
      opened :
          (dirpath : List ℕ) (o : Option (List (List ℕ)))
          → list_opened io malloc h dirpath o ≢ fault
      opened dirpath none = unfold list_opened in λ e. cc
      opened dirpath (some names) =
          ListsNames-ne-fault io malloc h dirpath names _
            (list_opened-ListsNames io malloc h dirpath names)

      by_path : (b : Built) → b ≢ out_of_fuel → list_built io malloc h b ≢ fault
      by_path (built dirpath storage) ne = opened dirpath (io.entries h dirpath)
      by_path traversal ne = λ e. cc
      by_path too_long ne = λ e. cc
      by_path out_of_fuel ne = absurd (ne refl)
