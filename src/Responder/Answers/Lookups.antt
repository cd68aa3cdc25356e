-- ===== src/Responder/Answers/Lookups.antt =====
-- The handlers of src/responder.c that look at files or change them at once: what they answer.
use epass_usb_responder.Prelude.{
  ℕ, ◌≢◌, refl, Bool, true, false, Option, none, some, List, arith, if◌then◌else◌, inl,
}
use epass_usb_responder.Text.{codes}
use epass_usb_responder.Protocol.Frame.{Frame}
use epass_usb_responder.Protocol.Kv.{Kv}
use epass_usb_responder.Files.Host.{Host, Call, done, unfinished, ended}
use epass_usb_responder.Files.Remove.Enough.{file_delete-ne-unfinished}
use epass_usb_responder.Files.Place.{file_rename}
use epass_usb_responder.Files.Place.Enough.{dir_mkdir-ne-unfinished}
use epass_usb_responder.Files.Listing.Entries.{file_list-ne-fault}
use epass_usb_responder.Files.Read.{file_read, file_stat}
use epass_usb_responder.Files.Read.Safe.{file_read-ne-fault, file_stat-ne-fault}
use epass_usb_responder.Responder.Reply.{
  msg_status, msg_file_get, Reply, send, response, status_ok, kv_get, send_error, send_last_error,
  decode_request,
}
use epass_usb_responder.Responder.Transfers.{Server}
use epass_usb_responder.Responder.Queries.{
  with_kvs, get_path, handle_file_get, path_or_root, handle_file_list, stat_path, handle_file_stat,
  on_call, changing, delete_path, handle_file_delete, rename_paths, handle_file_rename, mkdir_path,
  wants_parents, handle_file_mkdir,
}
use epass_usb_responder.Responder.Answers.{
  IsWhole, IsAnswer, on_entries-Answered, send_kv_response-IsAnswer, send_error-IsAnswer,
  send_last_error-IsAnswer, on_result-IsAnswer, decode_request-ne-fault,
}

module _ {H : Type 0} (io : Host H) (malloc realloc : ℕ → Bool) (kv_malloc : ℕ → ℕ → Bool)
    (detail : List ℕ) (s : Server H) (frame : Frame) (whole : IsWhole frame) where
  abbrev Answers : ℕ → Reply → Type 0
  Answers type r = IsAnswer realloc frame type r

  error_Answers :
      (type : ℕ) (msg : List ℕ) → Answers type (send_error realloc frame.header.request_id msg)
  error_Answers type msg = send_error-IsAnswer realloc frame type msg

  last_error_Answers :
      (type : ℕ) (prefix : List ℕ)
      → Answers type (send_last_error realloc frame.header.request_id detail prefix)
  last_error_Answers type prefix = send_last_error-IsAnswer realloc frame type detail prefix

  with_kvs-Answers :
      (type : ℕ) (k : List Kv → Reply)
      → ((kvs : List Kv) → Answers type (k kvs))
      → Answers type (with_kvs io malloc realloc kv_malloc detail frame k)
  with_kvs-Answers type k f =
      on_result-IsAnswer realloc frame type (decode_request kv_malloc frame) _ k
        (decode_request-ne-fault kv_malloc frame whole)
        (error_Answers type (codes "invalid kv payload")) f

  got_Answers :
      (content : List ℕ) (large : Bool)
      → Answers msg_file_get (
          if large
          then send_error realloc frame.header.request_id (codes "file too large")
          else send (response msg_file_get frame.header.request_id content))
  got_Answers content true = error_Answers msg_file_get (codes "file too large")
  got_Answers content false = (refl, inl refl, refl)

  get_path-Answers :
      (path : Option (List ℕ))
      → Answers msg_file_get (get_path io malloc realloc kv_malloc detail s frame path)
  unfolding get_path
  get_path-Answers none = error_Answers msg_file_get (codes "missing path")
  get_path-Answers (some path) =
      on_result-IsAnswer realloc frame msg_file_get (file_read io s.host malloc path) _ _
        (file_read-ne-fault io s.host malloc path)
        (error_Answers msg_file_get (codes "read file failed")) λ content. got_Answers content _

  pub handle_file_get-Answers :
      Answers msg_file_get (handle_file_get io malloc realloc kv_malloc detail s frame)
  unfolding handle_file_get
  handle_file_get-Answers =
      with_kvs-Answers msg_file_get _ λ kvs. get_path-Answers (kv_get kvs (codes "path"))

  pub handle_file_list-Answers :
      Answers msg_status (handle_file_list io malloc realloc kv_malloc detail s frame)
  unfolding handle_file_list
  handle_file_list-Answers = with_kvs-Answers msg_status _ λ kvs.
      on_result-IsAnswer realloc frame msg_status _ _ _
        (file_list-ne-fault io malloc s.host
          (path_or_root io malloc realloc kv_malloc detail (kv_get kvs (codes "path"))))
        (last_error_Answers msg_status (codes "list failed"))
        λ texts.
          send_kv_response-IsAnswer realloc frame msg_status msg_status _ (omega arith) (inl refl)

  stat_path-Answers :
      (path : Option (List ℕ))
      → Answers msg_status (stat_path io malloc realloc kv_malloc detail s frame path)
  unfolding stat_path
  stat_path-Answers none = last_error_Answers msg_status (codes "stat failed")
  stat_path-Answers (some path) =
      on_result-IsAnswer realloc frame msg_status (file_stat io s.host path) _ _
        (file_stat-ne-fault io s.host path) (last_error_Answers msg_status (codes "stat failed"))
        λ st.
          send_kv_response-IsAnswer realloc frame msg_status msg_status _ (omega arith) (inl refl)

  pub handle_file_stat-Answers :
      Answers msg_status (handle_file_stat io malloc realloc kv_malloc detail s frame)
  unfolding handle_file_stat
  handle_file_stat-Answers =
      with_kvs-Answers msg_status _ λ kvs. stat_path-Answers (kv_get kvs (codes "path"))

  on_call-Answers :
      (prefix : List ℕ) (c : Call H)
      → c ≢ unfinished
      → Answers msg_status (on_call io malloc realloc kv_malloc detail s frame prefix c).0
  on_call-Answers prefix (done true h) ne =
      send_kv_response-IsAnswer realloc frame msg_status msg_status status_ok (omega arith)
        (inl refl)
  on_call-Answers prefix (done false h) ne = last_error_Answers msg_status prefix
  on_call-Answers prefix unfinished ne = absurd (ne refl)

  changing-Answers :
      (k : List Kv → Reply × Server H)
      → ((kvs : List Kv) → Answers msg_status (k kvs).0)
      → Answers msg_status (changing io malloc realloc kv_malloc detail s frame k).0
  changing-Answers k f =
      on_entries-Answered io malloc realloc kv_malloc detail s frame whole msg_status
        (decode_request kv_malloc frame) k (decode_request-ne-fault kv_malloc frame whole) f

  delete_path-Answers :
      (path : Option (List ℕ)) (kvs : List Kv)
      → Answers msg_status (delete_path io malloc realloc kv_malloc detail s frame path kvs).0
  unfolding delete_path
  delete_path-Answers none kvs = last_error_Answers msg_status (codes "delete failed")
  delete_path-Answers (some path) kvs =
      on_call-Answers (codes "delete failed") _
        (file_delete-ne-unfinished io s.host path (kv_get kvs (codes "desire_storage")))

  pub handle_file_delete-Answers :
      Answers msg_status (handle_file_delete io malloc realloc kv_malloc detail s frame).0
  unfolding handle_file_delete
  handle_file_delete-Answers =
      changing-Answers _ λ kvs. delete_path-Answers (kv_get kvs (codes "path")) kvs

  rename_paths-Answers :
      (from to : Option (List ℕ)) (kvs : List Kv)
      → Answers msg_status (rename_paths io malloc realloc kv_malloc detail s frame from to kvs).0
  unfolding rename_paths
  rename_paths-Answers none to kvs = last_error_Answers msg_status (codes "rename failed")
  rename_paths-Answers (some from) none kvs = last_error_Answers msg_status (codes "rename failed")
  rename_paths-Answers (some from) (some to) kvs =
      on_call-Answers (codes "rename failed")
        (ended (file_rename io s.host from to (kv_get kvs (codes "desire_storage")))) (λ e. cc)

  pub handle_file_rename-Answers :
      Answers msg_status (handle_file_rename io malloc realloc kv_malloc detail s frame).0
  unfolding handle_file_rename
  handle_file_rename-Answers =
      changing-Answers _
        λ kvs. rename_paths-Answers (kv_get kvs (codes "from")) (kv_get kvs (codes "to")) kvs

  mkdir_path-Answers :
      (path : Option (List ℕ)) (kvs : List Kv)
      → Answers msg_status (mkdir_path io malloc realloc kv_malloc detail s frame path kvs).0
  unfolding mkdir_path
  mkdir_path-Answers none kvs = last_error_Answers msg_status (codes "mkdir failed")
  mkdir_path-Answers (some path) kvs = on_call-Answers (codes "mkdir failed") _ (
      dir_mkdir-ne-unfinished io s.host path (wants_parents (kv_get kvs (codes "parents")))
        (kv_get kvs (codes "desire_storage")))

  pub handle_file_mkdir-Answers :
      Answers msg_status (handle_file_mkdir io malloc realloc kv_malloc detail s frame).0
  unfolding handle_file_mkdir
  handle_file_mkdir-Answers =
      changing-Answers _ λ kvs. mkdir_path-Answers (kv_get kvs (codes "path")) kvs
