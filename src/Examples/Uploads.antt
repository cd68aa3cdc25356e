-- ===== src/Examples/Uploads.antt =====
-- Upload sessions of src/file_ops.c and transfers of src/protocol.c on concrete inputs.
use epass_usb_responder.Prelude.{ℕ, suc, ◌≡◌, refl, true, none, some, List, [], ◌∷◌, ◌++◌, length}
use epass_usb_responder.Files.Host.{Host, made}
use epass_usb_responder.Files.Upload.{
  Done, Session, zeroed, file_ops_init, begin_upload, append_upload_chunk, finish_upload,
  abort_upload,
}
use epass_usb_responder.Files.Upload.Table.{lookup, AreDistinct}
use epass_usb_responder.Files.Upload.Refines.{
  Stores, appended, append_upload_chunk-Stores, finish_upload-Stores,
}
use epass_usb_responder.Files.Upload.Begin.{Begun, begin_upload-Begun}
use epass_usb_responder.Files.Upload.Paced.{
  put, handle, counted, initialized, began, appended_to, ArePaced, Tracked-IsPaced,
}
use epass_usb_responder.Protocol.Stream.{wrote, write_interrupted, returned, write_limited}
use epass_usb_responder.Protocol.Stream.Written.{Ends, write_limited-Ends}
use epass_usb_responder.Protocol.Stream.Complete.{transfers, taken, write_limited_complete}

-- A host on which every call succeeds; its state is how many files were opened.
abbrev pub host : Host ℕ
host = record {
  fopen = λ n path. some (n, suc n);
  fwrite = λ n fp bytes. (true, n);
  write_back = λ n fp. n;
  fclose = λ n fp. n;
  rename = λ n from to. (true, n);
  chmod = λ n path mode. (true, n);
  unlink = λ n path. (true, n);
  rmdir = λ n path. (true, n);
  mkdir = λ n path mode. (made, n);
  lstat = λ n path. none;
  stat = λ n path. none;
  entries = λ n path. none;
  open_to_read = λ n path. none;
  user_name = λ n id. none;
  group_name = λ n id. none;
  is_sd_mounted = λ n. true;
  strtoul = λ text. (0o755, length text);
}

abbrev name : List ℕ
name = b'a' ∷ []

abbrev open_table : List Session
open_table =
    record zeroed { used = true; transfer_id = 7; final_path = b'/' ∷ name; fp = some 3 }
    ∷ zeroed
    ∷ []

open_table-AreDistinct : AreDistinct open_table
unfolding lookup
open_table-AreDistinct = (λ e. refl, (λ e. refl, tt))

begin_upload-Begun_example :
    Begun host 7 name none none
      (abort_upload host open_table 0 7).host
      open_table
      (begin_upload host open_table 0 7 name none none)
begin_upload-Begun_example =
    begin_upload-Begun host 7 name none none open_table 0 open_table-AreDistinct

append_upload_chunk-Stores_example :
    Stores open_table 7
      (appended 1 (append_upload_chunk host open_table 0 7 name).result (lookup open_table 7))
      (append_upload_chunk host open_table 0 7 name).sessions
append_upload_chunk-Stores_example =
    append_upload_chunk-Stores host open_table 0 7 open_table-AreDistinct name

finish_upload-Stores_example : Stores open_table 7 none (finish_upload host open_table 0 7).sessions
finish_upload-Stores_example = finish_upload-Stores host open_table 0 7 open_table-AreDistinct

abbrev after_begin : List Session
after_begin = (begin_upload (counted host) file_ops_init (0, λ fp. 0) 7 name none none).sessions

abbrev begun : ℕ → ℕ
begun = put (λ id. 0) 7 0

abbrev after_chunk : Done (ℕ × (ℕ → ℕ))
after_chunk = append_upload_chunk (counted host) after_begin (1, λ fp. begun 7) 7 name

Tracked-IsPaced_example :
    AreDistinct after_chunk.sessions
    × ArePaced after_chunk.sessions
        (put begun 7 (after_chunk.host.1 (handle (lookup after_begin 7))))
Tracked-IsPaced_example =
    Tracked-IsPaced host after_chunk.sessions
      (put begun 7 (after_chunk.host.1 (handle (lookup after_begin 7))))
      (appended_to after_begin begun 1 7 name
        (began file_ops_init (λ id. 0) (0, λ fp. 0) 7 name none none initialized))

write_limited-Ends_example :
    Ends
      (1 ∷ 2 ∷ 3 ∷ [])
      []
      (write_limited (1 ∷ 2 ∷ 3 ∷ []) [] (write_interrupted ∷ wrote 2 ∷ wrote 1 ∷ []))
write_limited-Ends_example =
    write_limited-Ends (1 ∷ 2 ∷ 3 ∷ []) [] (write_interrupted ∷ wrote 2 ∷ wrote 1 ∷ [])

write_limited_complete_example :
    write_limited (1 ∷ 2 ∷ 3 ∷ []) [] (taken (transfers (1 ∷ 2 ∷ 3 ∷ [])) ++ [])
    ≡ returned true (transfers (1 ∷ 2 ∷ 3 ∷ [])) []
write_limited_complete_example = write_limited_complete (1 ∷ 2 ∷ 3 ∷ []) []
