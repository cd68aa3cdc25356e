-- ===== src/Files/Place/Guards.antt =====
-- `usb_responder_file_rename` of src/file_ops.c: when it calls the kernel.
use epass_usb_responder.Prelude.{
  ℕ, ◌≡◌, refl, Bool, true, false, not, ◌&&◌, ◌||◌, Option, List, arith, ◌⊎◌, inl, inr, Bool-cases,
}
use epass_usb_responder.Files.Host.{Host}
use epass_usb_responder.Files.Paths.{
  Storage, nand, sd, same_storage, Built, built, traversal, too_long, out_of_fuel, path_max_len,
  build_path, path_storage_matches_desire, path_is_storage_root,
}
use epass_usb_responder.Files.Upload.{ensure_storage_writeable}
use epass_usb_responder.Files.Allowed.{
  IsWanted, IsWriteable, IsNoRoot, path_storage_matches_desire-IsWanted,
  ensure_storage_writeable-IsWriteable, path_is_storage_root-IsNoRoot,
}
use epass_usb_responder.Files.Place.{rename_checked, rename_to, rename_built, file_rename}

same_storage_lem : (a b : Storage) → same_storage a b ≡ true → a ≡ b
same_storage_lem nand nand h = refl
same_storage_lem sd sd h = refl
same_storage_lem nand sd h = cc
same_storage_lem sd nand h = cc

module _ {H : Type 0} (io : Host H) (h : H) (from_relative to_relative : List ℕ)
    (desire : Option (List ℕ)) where
  -- Both texts are built, on one storage that is desired and can be written, to paths that are no roots.
  pub record MayRename (from to : List ℕ) : Type 0 where
    pub storage : Storage
    pub from_built : build_path path_max_len from_relative ≡ built from storage
    pub to_built : build_path path_max_len to_relative ≡ built to storage
    pub desired : IsWanted storage desire
    pub writeable : IsWriteable io storage h
    pub from_inside : IsNoRoot from
    pub to_inside : IsNoRoot to

  abbrev Guarded : Bool × H → Type 0
  Guarded r =
      (r ≡ (false, h))
      ⊎ ((from : List ℕ) × (to : List ℕ) × MayRename from to × (r ≡ io.rename h from to))

  rename_checked-Guarded :
      (from : List ℕ) (a : Storage) (to : List ℕ) (b : Storage)
      → build_path path_max_len from_relative ≡ built from a
      → build_path path_max_len to_relative ≡ built to b
      → Guarded (rename_checked io h desire from a to b)
  unfolding rename_checked
  rename_checked-Guarded from a to b ea eb =
      elim (Bool-cases (
        not (path_storage_matches_desire a desire)
        || not (path_storage_matches_desire b desire)
        || not (ensure_storage_writeable io a h)
        || (not (same_storage b a) && not (ensure_storage_writeable io b h)))) [
          | inl bad ↦ rw bad (inl refl)
          | inr good ↦ elim (Bool-cases (path_is_storage_root from || path_is_storage_root to)) [
            | inl root ↦ rw (good, root) (inl refl)
            | inr inside ↦ elim (Bool-cases (same_storage a b)) [
              | inl same ↦
                  rw (good, inside, same)
                    (inr (
                      from,
                      to,
                      record {
                        storage = a;
                        from_built = ea;
                        to_built = rw (same_storage_lem a b same) eb;
                        desired = path_storage_matches_desire-IsWanted a desire (ground arith);
                        writeable = ensure_storage_writeable-IsWriteable io a h (ground arith);
                        from_inside = path_is_storage_root-IsNoRoot from (ground arith);
                        to_inside = path_is_storage_root-IsNoRoot to (ground arith);
                      },
                      refl,
                    ))
              | inr other ↦ rw (good, inside, other) (inl refl)
            ]
          ]
        ]

  rename_to-Guarded :
      (from : List ℕ) (a : Storage) (b : Built)
      → build_path path_max_len from_relative ≡ built from a
      → build_path path_max_len to_relative ≡ b
      → Guarded (rename_to io h desire from a b)
  unfolding rename_to
  rename_to-Guarded from a (built to b) ea eb = rename_checked-Guarded from a to b ea eb
  rename_to-Guarded from a traversal ea eb = inl refl
  rename_to-Guarded from a too_long ea eb = inl refl
  rename_to-Guarded from a out_of_fuel ea eb = inl refl

  rename_built-Guarded :
      (a : Built)
      → build_path path_max_len from_relative ≡ a
      → Guarded (rename_built io h desire to_relative a)
  unfolding rename_built
  rename_built-Guarded (built from a) ea =
      rename_to-Guarded from a (build_path path_max_len to_relative) ea refl
  rename_built-Guarded traversal ea = inl refl
  rename_built-Guarded too_long ea = inl refl
  rename_built-Guarded out_of_fuel ea = inl refl

  -- Either file_rename returns false and leaves the host as it is, or it is one `rename` of the
  -- host between two paths that are built from the texts, on one storage, which is desired and
  -- writeable, and neither of which is a root of a storage.
  pub file_rename-MayRename :
      (file_rename io h from_relative to_relative desire ≡ (false, h))
      ⊎ ((from : List ℕ) × (to : List ℕ) × MayRename from to
          × (file_rename io h from_relative to_relative desire ≡ io.rename h from to))
  unfolding file_rename
  file_rename-MayRename = rename_built-Guarded (build_path path_max_len from_relative) refl
