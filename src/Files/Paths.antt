-- ===== src/Files/Paths.antt =====
-- Paths of src/file_ops.c: `build_path`, the storage of a path and its checks. A text is the list of
-- its bytes before the terminator.
pub mod Split
pub mod Resolve
pub mod Accepts
pub mod Names
use epass_usb_responder.Prelude.{
  ℕ, zero, suc, ◌+◌, Bool, true, false, not, ◌&&◌, ◌||◌, Option, none, some, List, [], ◌∷◌, ◌++◌,
  ltb, leb, ◌==◌, if◌then◌else◌, length,
}
use epass_usb_responder.Text.{same_string}

pub data Storage : Type 0 where
  nand sd : Storage

abbrev pub slash : ℕ
slash = b'/'

-- `path_component_is_dotdot(start, len)`, with the `len` bytes at `start`.
unfoldable pub path_component_is_dotdot : List ℕ → Bool
path_component_is_dotdot (a ∷ b ∷ []) = a == b'.' && b == b'.'
path_component_is_dotdot _ = false

unfoldable pub path_component_is_dot : List ℕ → Bool
path_component_is_dot (a ∷ []) = a == b'.'
path_component_is_dot _ = false

-- `seglen == 2 && r[0] == 's' && r[1] == 'd'`
unfoldable pub is_sd : List ℕ → Bool
is_sd (a ∷ b ∷ []) = a == b's' && b == b'd'
is_sd _ = false

-- `while (*r == '/') ++r;`
unfoldable pub skip_slashes : List ℕ → List ℕ
skip_slashes [] = []
skip_slashes (c ∷ r) = if c == slash then skip_slashes r else c ∷ r

-- The bytes before the next slash, or all.
unfoldable pub segment : List ℕ → List ℕ
segment [] = []
segment (c ∷ r) = if c == slash then [] else c ∷ segment r

-- `slash ? slash + 1 : ""`
unfoldable pub after_segment : List ℕ → List ℕ
after_segment [] = []
after_segment (c ∷ r) = if c == slash then r else after_segment r

-- The local variables of `build_path`: `out` is the text in `out_path`, `used` bytes long.
pub record PathState : Type 0 where
  pub out : List ℕ
  pub saw_component : Bool
  pub storage : Storage

-- The path and its storage, or the error; `out_of_fuel` is no outcome of the code.
pub data Built : Type 0 where
  built : List ℕ → Storage → Built
  traversal too_long out_of_fuel : Built

module _ (out_size : ℕ) where
  -- The storage is decided by the first component.
  unfoldable pub add_component : PathState → List ℕ → PathState
  add_component st seg = record {
    out = if ltb 1 (length st.out) then st.out ++ slash ∷ seg else st.out ++ seg;
    saw_component = true;
    storage = if not st.saw_component && is_sd seg then sd else st.storage;
  }

  -- `used + (used > 1 ? 1u : 0u) + seglen >= out_size`
  unfoldable pub is_too_long : PathState → List ℕ → Bool
  is_too_long st seg =
      leb out_size (length st.out + (if ltb 1 (length st.out) then 1 else 0) + length seg)

  -- What the loop does with one component, `next` being the rest of the loop.
  unfoldable pub visit : (PathState → Built) → List ℕ → PathState → Built
  visit next seg st =
      if path_component_is_dotdot seg
      then traversal
      else if path_component_is_dot seg
      then next st
      else if is_too_long st seg
      then too_long
      else next (add_component st seg)

  -- `while (*r != '\0')`. Each round takes a byte, so more fuel than bytes is enough.
  unfoldable pub build_loop : ℕ → List ℕ → PathState → Built
  build_loop zero r st = out_of_fuel
  build_loop (suc fuel) r st = elim (skip_slashes r) [
    | [] ↦ built st.out st.storage
    | c ∷ rest ↦ visit (build_loop fuel (after_segment (c ∷ rest))) (segment (c ∷ rest)) st
  ]

  unfoldable pub build_path : List ℕ → Built
  build_path relative =
      build_loop (suc (length relative)) relative
        (record { out = slash ∷ []; saw_component = false; storage = nand })

-- `USB_RESPONDER_PATH_MAX_LEN`
abbrev pub path_max_len : ℕ
path_max_len = 4096

abbrev pub nand_name : List ℕ
nand_name = b'n' ∷ b'a' ∷ b'n' ∷ b'd' ∷ []

abbrev pub sd_name : List ℕ
sd_name = b's' ∷ b'd' ∷ []

unfoldable pub storage_name : Storage → List ℕ
storage_name nand = nand_name
storage_name sd = sd_name

unfoldable pub storage_from_name : List ℕ → Option Storage
storage_from_name name =
    if same_string name nand_name
    then some nand
    else if same_string name sd_name
    then some sd
    else none

-- `strcmp(abs_path, "/") == 0 || strcmp(abs_path, "/sd") == 0`
unfoldable pub path_is_storage_root : List ℕ → Bool
path_is_storage_root abs_path =
    same_string abs_path (slash ∷ []) || same_string abs_path (slash ∷ sd_name)

abbrev pub same_storage : Storage → Storage → Bool
same_storage nand nand = true
same_storage sd sd = true
same_storage nand sd = false
same_storage sd nand = false

-- `path_storage_matches_desire(actual, desire_storage)`
unfoldable pub path_storage_matches_desire : Storage → Option (List ℕ) → Bool
path_storage_matches_desire actual none = true
path_storage_matches_desire actual (some []) = true
path_storage_matches_desire actual (some (c ∷ name)) = elim (storage_from_name (c ∷ name)) [
  | none ↦ false
  | some desired ↦ same_storage desired actual
]
