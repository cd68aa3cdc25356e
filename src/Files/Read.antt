-- ===== src/Files/Read.antt =====
-- `usb_responder_read_file_all` of src/io_utils.c, and `usb_responder_file_read` and
-- `usb_responder_file_stat` of src/file_ops.c.
pub mod Safe
use epass_usb_responder.Prelude.{
  ℕ, zero, suc, ◌+◌, ◌/◌, ◌%◌, ◌^◌, Bool, true, false, not, ◌&&◌, Option, none, some, List, [], ◌∷◌,
  ◌++◌, ltb, ◌==◌, if◌then◌else◌, length, take, replicate, ◌-◌,
}
use epass_usb_responder.Outcome.{Outcome, ok, failed, fault, ◌>>=◌, ◌>>◌, require, fail_if}
use epass_usb_responder.Text.{codes}
use epass_usb_responder.Files.Host.{Host, Status, Kind, regular, directory, link, special, Readable}
use epass_usb_responder.Files.Paths.{
  Built, built, traversal, too_long, out_of_fuel, path_max_len, build_path,
}

-- `fread` gives no more than what is there.
unfoldable pub read_sized : (ℕ → Bool) → List ℕ → ℕ → Outcome (List ℕ)
read_sized malloc content file_size = do
  fail_if (ltb 0 file_size && not (malloc file_size))
  fail_if (ltb 0 file_size && ltb (length content) file_size)
  ok (take file_size content)

-- `ftell`, which fails where it is negative.
abbrev pub told : Option ℕ → Outcome ℕ
told none = failed
told (some file_size) = ok file_size

unfoldable pub read_opened : (ℕ → Bool) → Option Readable → Outcome (List ℕ)
read_opened malloc none = failed
read_opened malloc (some f) = do
  require f.seek_end
  file_size ← told f.tell
  require f.seek_set
  read_sized malloc f.content file_size

-- The least significant digit is the last; the digits of any 64-bit number end within the fuel 64.
unfoldable pub digits : ℕ → ℕ → ℕ → List ℕ → List ℕ
digits base zero n behind = behind
digits base (suc fuel) n behind =
    let here = (b'0' + n % base) ∷ behind in
    let rest = digits base fuel (n / base) here in if n / base == 0 then here else rest

-- `%u` and `%llu`
unfoldable pub decimal : ℕ → List ℕ
unfolding digits
decimal n = digits 10 64 n []

-- `%04o`
unfoldable pub octal4 : ℕ → List ℕ
unfolding digits
octal4 n = let text = digits 8 64 n [] in replicate (4 - length text) b'0' ++ text

-- `snprintf(type, …)` by the kind of the file.
unfoldable pub type_name : Kind → List ℕ
type_name regular = codes "file"
type_name directory = codes "dir"
type_name link = codes "link"
type_name special = codes "other"

-- `usb_responder_stat_info_t`
pub record StatInfo : Type 0 where
  pub owner : List ℕ
  pub perm : List ℕ
  pub size : List ℕ
  pub type : List ℕ

-- `snprintf(userbuf, sizeof(userbuf), …)`: the name, or the number where there is none.
unfoldable pub shown_id : Option (List ℕ) → ℕ → List ℕ
shown_id none id = decimal id
shown_id (some name) id = take 127 name

module _ {H : Type 0} (io : Host H) (h : H) where
  unfoldable pub read_built : (ℕ → Bool) → Built → Outcome (List ℕ)
  read_built malloc (built path storage) = read_opened malloc (io.open_to_read h path)
  read_built malloc traversal = failed
  read_built malloc too_long = failed
  read_built malloc out_of_fuel = fault

  unfoldable pub file_read : (ℕ → Bool) → List ℕ → Outcome (List ℕ)
  file_read malloc relative = read_built malloc (build_path path_max_len relative)

  -- Two names of at most 127 bytes and a colon fit `owner`, and the numbers fit their buffers.
  unfoldable pub stat_info : Option Status → Outcome StatInfo
  stat_info none = failed
  stat_info (some st) = ok (record {
    owner =
        shown_id (io.user_name h st.uid) st.uid
        ++ (b':' ∷ shown_id (io.group_name h st.gid) st.gid);
    perm = octal4 (st.mode % 2 ^ 12);
    size = decimal st.size;
    type = type_name st.kind;
  })

  unfoldable pub stat_built : Built → Outcome StatInfo
  stat_built (built path storage) = stat_info (io.lstat h path)
  stat_built traversal = failed
  stat_built too_long = failed
  stat_built out_of_fuel = fault

  unfoldable pub file_stat : List ℕ → Outcome StatInfo
  file_stat relative = stat_built (build_path path_max_len relative)
