-- ===== src/Files/Upload/Reachable.antt =====
-- The upload sessions of src/file_ops.c after any calls.
use epass_usb_responder.Prelude.{ℕ, Option, List}
use epass_usb_responder.Files.Host.{Host}
use epass_usb_responder.Files.Upload.{
  Session, file_ops_init, abort_upload, begin_upload, append_upload_chunk, finish_upload,
  file_ops_shutdown,
}

-- The tables that calls of the operations lead to.
pub data Reachable {H : Type 0} (io : Host H) : List Session → Type 0 where
  initialized : Reachable io file_ops_init
  began :
      (ss : List Session) (h : H) (id : ℕ) (relative : List ℕ) (desire perm : Option (List ℕ))
      → Reachable io ss
      → Reachable io (begin_upload io ss h id relative desire perm).sessions
  appended_to :
      (ss : List Session) (h : H) (id : ℕ) (bytes : List ℕ)
      → Reachable io ss
      → Reachable io (append_upload_chunk io ss h id bytes).sessions
  finished :
      (ss : List Session) (h : H) (id : ℕ)
      → Reachable io ss
      → Reachable io (finish_upload io ss h id).sessions
  aborted :
      (ss : List Session) (h : H) (id : ℕ)
      → Reachable io ss
      → Reachable io (abort_upload io ss h id).sessions
  shut_down :
      (ss : List Session) (h : H)
      → Reachable io ss
      → Reachable io (file_ops_shutdown io ss h).sessions
