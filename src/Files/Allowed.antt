-- ===== src/Files/Allowed.antt =====
-- The tests of src/file_ops.c that guard a change: the storage that is asked for, whether it can be
-- written, and the roots of the storages.
use epass_usb_responder.Prelude.{
  ℕ, ◌≡◌, ◌≢◌, refl, ap₂, true, false, Option, none, some, List, [], ◌∷◌, arith, ◌==◌, Bool-cases,
  inl, inr,
}
use epass_usb_responder.Text.{same_string, codes}
use epass_usb_responder.Files.Host.{Host}
use epass_usb_responder.Files.Paths.{
  Storage, nand, sd, same_storage, storage_from_name, path_storage_matches_desire,
  path_is_storage_root,
}
use epass_usb_responder.Files.Upload.{ensure_storage_writeable}

-- No storage is asked for, or this one by its name.
abbrev pub IsWanted : Storage → Option (List ℕ) → Type 0
IsWanted storage none = Unit
IsWanted storage (some []) = Unit
IsWanted nand (some (c ∷ name)) = c ∷ name ≡ codes "nand"
IsWanted sd (some (c ∷ name)) = c ∷ name ≡ codes "sd"

-- The SD card is mounted if the path is on it.
abbrev pub IsWriteable : {H : Type 0} → Host H → Storage → H → Type 0
IsWriteable io nand h = Unit
IsWriteable io sd h = io.is_sd_mounted h ≡ true

abbrev pub IsNoRoot : List ℕ → Type 0
IsNoRoot path = (path ≢ codes "/") × (path ≢ codes "/sd")

same_string_lem : (a b : List ℕ) → same_string a b ≡ true → a ≡ b
unfolding same_string
same_string_lem [] [] e = refl
same_string_lem [] (y ∷ ys) e = absurd cc
same_string_lem (x ∷ xs) [] e = absurd cc
same_string_lem (x ∷ xs) (y ∷ ys) e = elim (Bool-cases (x == y)) [
  | inl same ↦
      let head : x ≡ y = ground arith in
      ap₂ (λ a b. a ∷ b) head (same_string_lem xs ys (rw same at e))
  | inr other ↦ absurd (let no : false ≡ true = rw other at e in cc)
]

name_of : Storage → List ℕ
name_of nand = codes "nand"
name_of sd = codes "sd"

from_name : (name : List ℕ) (r : Storage) → storage_from_name name ≡ some r → name ≡ name_of r
unfolding storage_from_name name_of
from_name name r e = elim (Bool-cases (same_string name (codes "nand"))) [
  | inl named ↦ named_first r (rw named at e) (same_string_lem name (codes "nand") named)
  | inr other ↦ elim (Bool-cases (same_string name (codes "sd"))) [
    | inl named ↦ named_second r (rw (other, named) at e) (same_string_lem name (codes "sd") named)
    | inr neither ↦ absurd (let no : none ≡ some r = rw (other, neither) at e in cc)
  ]
]
  where
    named_first : (r : Storage) → some nand ≡ some r → name ≡ codes "nand" → name ≡ name_of r
    named_first nand e n = n
    named_first sd e n = absurd (ground arith)

    named_second : (r : Storage) → some sd ≡ some r → name ≡ codes "sd" → name ≡ name_of r
    named_second sd e n = n
    named_second nand e n = absurd (ground arith)

found :
    (storage : Storage) (r : Option Storage)
    → elim r [ none ↦ false | some desired ↦ same_storage desired storage ] ≡ true
    → r ≡ some storage
found storage none e = absurd cc
found nand (some nand) e = refl
found sd (some sd) e = refl
found nand (some sd) e = absurd cc
found sd (some nand) e = absurd cc

pub path_storage_matches_desire-IsWanted :
    (storage : Storage) (desire : Option (List ℕ))
    → path_storage_matches_desire storage desire ≡ true
    → IsWanted storage desire
unfolding path_storage_matches_desire name_of
path_storage_matches_desire-IsWanted storage none e = tt
path_storage_matches_desire-IsWanted storage (some []) e = tt
path_storage_matches_desire-IsWanted nand (some (c ∷ name)) e =
    from_name (c ∷ name) nand (found nand (storage_from_name (c ∷ name)) e)
path_storage_matches_desire-IsWanted sd (some (c ∷ name)) e =
    from_name (c ∷ name) sd (found sd (storage_from_name (c ∷ name)) e)

pub ensure_storage_writeable-IsWriteable :
    {H : Type 0} (io : Host H) (storage : Storage) (h : H)
    → ensure_storage_writeable io storage h ≡ true
    → IsWriteable io storage h
unfolding ensure_storage_writeable
ensure_storage_writeable-IsWriteable io nand h e = tt
ensure_storage_writeable-IsWriteable io sd h e = e

pub path_is_storage_root-IsNoRoot :
    (path : List ℕ) → path_is_storage_root path ≡ false → IsNoRoot path
unfolding path_is_storage_root same_string
path_is_storage_root-IsNoRoot path e = (
  λ root. let same : true ≡ false = rw root at e in absurd cc,
  λ root. let same : true ≡ false = rw root at e in absurd cc,
)
