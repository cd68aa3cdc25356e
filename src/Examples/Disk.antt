-- ===== src/Examples/Disk.antt =====
-- Deleting, renaming, making and listing of src/file_ops.c on a concrete host.
use epass_usb_responder.Prelude.{ℕ, arith, ◌≡◌, refl, Bool, true, none, some, List, [], ◌∷◌, ◌⊎◌}
use epass_usb_responder.Files.Host.{Host, done, regular}
use epass_usb_responder.Files.Paths.{
  nand, built, path_max_len, skip_slashes, segment, after_segment, is_sd, path_component_is_dot,
  path_component_is_dotdot, add_component, is_too_long, visit, build_loop, build_path,
  path_storage_matches_desire,
}
use epass_usb_responder.Files.Paths.Split.{components}
use epass_usb_responder.Files.Paths.Resolve.{names}
use epass_usb_responder.Files.Upload.{ensure_storage_writeable}
use epass_usb_responder.Files.Remove.{file_delete}
use epass_usb_responder.Files.Remove.Confined.{GivesNames, file_delete_confined}
use epass_usb_responder.Files.Place.{dir_mkdir, file_rename}
use epass_usb_responder.Files.Place.Guards.{MayRename, file_rename-MayRename}
use epass_usb_responder.Files.Place.Parents.{Makes, dir_mkdir-Makes}
use epass_usb_responder.Files.Listing.{file_list}
use epass_usb_responder.Files.Listing.Entries.{ListsNames, file_list-ListsNames}
use epass_usb_responder.Examples.Uploads.{host}

-- The host of the uploads with files: every path is a file, and every directory holds one name.
abbrev disk : Host ℕ
disk = record host {
  lstat = λ n path. some (record { kind = regular; mode = 0o644; size = 5; uid = 0; gid = 0 });
  entries = λ n path. some ((b'.' ∷ []) ∷ (b'f' ∷ []) ∷ []);
}

-- `a/b`
abbrev text : List ℕ
text = b'a' ∷ b'/' ∷ b'b' ∷ []

-- `/a/b`
abbrev path : List ℕ
path = b'/' ∷ text

text_built : build_path path_max_len text ≡ built path nand
unfolding build_path build_loop visit skip_slashes segment after_segment is_sd path_component_is_dot
    path_component_is_dotdot add_component is_too_long
text_built = refl

disk-GivesNames : GivesNames disk
disk-GivesNames n top ns e =
    let same : (b'.' ∷ []) ∷ (b'f' ∷ []) ∷ [] ≡ ns = ground arith in
    rw (← same) ((((omega arith), (refl, tt))), (((omega arith), (refl, tt)), tt))

file_delete_confined_example :
    (result : Bool) × (n : ℕ) × (file_delete disk 3 text none ≡ done result n) × (n ≡ 3)
file_delete_confined_example =
    file_delete_confined disk disk-GivesNames (λ n. n ≡ 3) 3 text none
      (λ top target. record { unlink_keeps = λ n p under e. e; rmdir_keeps = λ n p under e. e })
      refl

file_rename-MayRename_example :
    (file_rename disk 3 text (b'c' ∷ []) none ≡ (Bool.false, 3))
    ⊎ ((from : List ℕ) × (to : List ℕ) × MayRename disk 3 text (b'c' ∷ []) none from to
        × (file_rename disk 3 text (b'c' ∷ []) none ≡ disk.rename 3 from to))
file_rename-MayRename_example = file_rename-MayRename disk 3 text (b'c' ∷ []) none

dir_mkdir-Makes_example :
    (result : Bool) × (n : ℕ) × (dir_mkdir disk 3 text true none ≡ done result n)
    × Makes disk [] (names (components text)) 3 result n
unfolding path_storage_matches_desire ensure_storage_writeable
dir_mkdir-Makes_example = dir_mkdir-Makes disk 3 text path nand none text_built refl refl

file_list-ListsNames_example :
    ListsNames disk
      (λ n. true)
      3
      path
      ((b'.' ∷ []) ∷ (b'f' ∷ []) ∷ [])
      (file_list disk (λ n. true) 3 text)
file_list-ListsNames_example =
    file_list-ListsNames disk (λ n. true) 3 path text nand ((b'.' ∷ []) ∷ (b'f' ∷ []) ∷ [])
      text_built refl
