-- ===== src/Responder/Queries.antt =====
-- The handlers of src/responder.c that look at files or change them at once: `handle_file_get`,
-- `handle_file_list`, `handle_file_delete`, `handle_file_rename`, `handle_file_mkdir` and
-- `handle_file_stat`.
use epass_usb_responder.Prelude.{
  ℕ, ◌+◌, ◌-◌, ◌^◌, Bool, true, false, ◌&&◌, ◌||◌, Option, none, some, List, [], ◌∷◌, leb, ltb,
  ◌==◌, if◌then◌else◌, length,
}
use epass_usb_responder.Text.{same_string, codes}
use epass_usb_responder.Protocol.Frame.{Frame}
use epass_usb_responder.Protocol.Kv.{Kv}
use epass_usb_responder.Files.Host.{Host, Call, done, unfinished, ended}
use epass_usb_responder.Files.Remove.{file_delete}
use epass_usb_responder.Files.Place.{dir_mkdir, file_rename}
use epass_usb_responder.Files.Listing.{file_list}
use epass_usb_responder.Files.Read.{StatInfo, file_read, file_stat}
use epass_usb_responder.Responder.Reply.{
  msg_status, msg_file_get, Reply, send, stuck, on_result, response, pair, status_ok, kv_get,
  send_kv_response, send_error, send_last_error, decode_request,
}
use epass_usb_responder.Responder.Transfers.{Server, on_entries}

-- `tolower` in the C locale, and `strcasecmp(a, b) == 0`.
unfoldable pub to_lower : ℕ → ℕ
to_lower c = if leb b'A' c && leb c b'Z' then c + 32 else c

unfoldable pub same_folded : List ℕ → List ℕ → Bool
same_folded [] [] = true
same_folded [] (y ∷ ys) = false
same_folded (x ∷ xs) [] = false
same_folded (x ∷ xs) (y ∷ ys) =
    let rest = same_folded xs ys in if to_lower x == to_lower y then rest else false

unfoldable pub wants_parents : Option (List ℕ) → Bool
wants_parents none = false
wants_parents (some value) =
    same_string value (codes "1")
    || same_folded value (codes "true")
    || same_folded value (codes "yes")

module _ {H : Type 0} (io : Host H) (malloc realloc : ℕ → Bool) (kv_malloc : ℕ → ℕ → Bool)
    (detail : List ℕ) where
  abbrev error_reply : Frame → List ℕ → Reply
  error_reply frame msg = send_error realloc frame.header.request_id msg

  abbrev last_error_reply : Frame → List ℕ → Reply
  last_error_reply frame prefix = send_last_error realloc frame.header.request_id detail prefix

  abbrev status_reply : Frame → List Kv → Reply
  status_reply frame kvs = send_kv_response realloc msg_status frame.header.request_id kvs

  -- The entries of the request, and what a handler that only looks does with them.
  abbrev pub with_kvs : Frame → (List Kv → Reply) → Reply
  with_kvs frame k =
      on_result (decode_request kv_malloc frame) (error_reply frame (codes "invalid kv payload")) k

  unfoldable pub get_path : Server H → Frame → Option (List ℕ) → Reply
  get_path s frame none = error_reply frame (codes "missing path")
  get_path s frame (some path) =
      on_result (file_read io s.host malloc path) (error_reply frame (codes "read file failed"))
        λ content.
          if ltb (2 ^ 32 - 1) (length content)
          then error_reply frame (codes "file too large")
          else send (response msg_file_get frame.header.request_id content)

  unfoldable pub handle_file_get : Server H → Frame → Reply
  handle_file_get s frame = with_kvs frame λ kvs. get_path s frame (kv_get kvs (codes "path"))

  -- A missing path is the root of the device's files.
  abbrev pub path_or_root : Option (List ℕ) → List ℕ
  path_or_root none = codes "."
  path_or_root (some path) = path

  unfoldable pub handle_file_list : Server H → Frame → Reply
  handle_file_list s frame = with_kvs frame λ kvs.
      on_result (file_list io malloc s.host (path_or_root (kv_get kvs (codes "path"))))
        (last_error_reply frame (codes "list failed"))
        λ texts.
          status_reply frame (pair (codes "files") texts.0 ∷ pair (codes "dirs") texts.1 ∷ [])

  abbrev stat_kvs : StatInfo → List Kv
  stat_kvs st =
      pair (codes "owner") st.owner
      ∷ pair (codes "perm") st.perm
      ∷ pair (codes "size") st.size
      ∷ pair (codes "type") st.type
      ∷ []

  unfoldable pub stat_path : Server H → Frame → Option (List ℕ) → Reply
  stat_path s frame none = last_error_reply frame (codes "stat failed")
  stat_path s frame (some path) =
      on_result (file_stat io s.host path) (last_error_reply frame (codes "stat failed"))
        λ st. status_reply frame (stat_kvs st)

  unfoldable pub handle_file_stat : Server H → Frame → Reply
  handle_file_stat s frame = with_kvs frame λ kvs. stat_path s frame (kv_get kvs (codes "path"))

  -- What a call that changes files answers.
  abbrev pub on_call : Server H → Frame → List ℕ → Call H → Reply × Server H
  on_call s frame prefix (done true h) = (status_reply frame status_ok, record s { host = h })
  on_call s frame prefix (done false h) = (last_error_reply frame prefix, record s { host = h })
  on_call s frame prefix unfinished = (stuck, s)

  -- The same for a handler that changes the files.
  abbrev pub changing : Server H → Frame → (List Kv → Reply × Server H) → Reply × Server H
  changing s frame k = on_entries realloc frame s (decode_request kv_malloc frame) k

  unfoldable pub delete_path : Server H → Frame → Option (List ℕ) → List Kv → Reply × Server H
  delete_path s frame none kvs = (last_error_reply frame (codes "delete failed"), s)
  delete_path s frame (some path) kvs =
      on_call s frame (codes "delete failed")
        (file_delete io s.host path (kv_get kvs (codes "desire_storage")))

  unfoldable pub handle_file_delete : Server H → Frame → Reply × Server H
  handle_file_delete s frame =
      changing s frame λ kvs. delete_path s frame (kv_get kvs (codes "path")) kvs

  unfoldable pub rename_paths :
      Server H → Frame → Option (List ℕ) → Option (List ℕ) → List Kv → Reply × Server H
  rename_paths s frame none to kvs = (last_error_reply frame (codes "rename failed"), s)
  rename_paths s frame (some from) none kvs = (last_error_reply frame (codes "rename failed"), s)
  rename_paths s frame (some from) (some to) kvs =
      on_call s frame (codes "rename failed")
        (ended (file_rename io s.host from to (kv_get kvs (codes "desire_storage"))))

  unfoldable pub handle_file_rename : Server H → Frame → Reply × Server H
  handle_file_rename s frame =
      changing s frame
        λ kvs. rename_paths s frame (kv_get kvs (codes "from")) (kv_get kvs (codes "to")) kvs

  unfoldable pub mkdir_path : Server H → Frame → Option (List ℕ) → List Kv → Reply × Server H
  mkdir_path s frame none kvs = (last_error_reply frame (codes "mkdir failed"), s)
  mkdir_path s frame (some path) kvs = on_call s frame (codes "mkdir failed") (
      dir_mkdir io s.host path (wants_parents (kv_get kvs (codes "parents")))
        (kv_get kvs (codes "desire_storage")))

  unfoldable pub handle_file_mkdir : Server H → Frame → Reply × Server H
  handle_file_mkdir s frame =
      changing s frame λ kvs. mkdir_path s frame (kv_get kvs (codes "path")) kvs
