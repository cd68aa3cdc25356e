-- ===== src/Responder/Transfers.antt =====
-- `handle_file_put_begin`, `handle_file_put_chunk` and `handle_file_put_end` of src/responder.c.
use epass_usb_responder.Prelude.{
  ℕ, Bool, Option, none, some, List, [], ◌∷◌, leb, if◌then◌else◌, length, drop,
}
use epass_usb_responder.Outcome.{Outcome, ok, failed, fault, ◌>>=◌}
use epass_usb_responder.Text.{codes}
use epass_usb_responder.Protocol.Words.{read_le32}
use epass_usb_responder.Protocol.Frame.{Frame}
use epass_usb_responder.Protocol.Kv.{Kv}
use epass_usb_responder.Files.Host.{Host}
use epass_usb_responder.Files.Upload.{
  Session, Done, begin_upload, append_upload_chunk, finish_upload,
}
use epass_usb_responder.Responder.Reply.{
  msg_status, Reply, overrun, pair, status_ok, kv_get, payload_of, send_kv_response, send_error,
  send_last_error, decode_request,
}

-- The upload sessions, and the host's state.
pub record Server (H : Type 0) : Type 0 where
  pub sessions : List Session
  pub host : H

abbrev pub served : {H : Type 0} → Done H → Server H
served d = record { sessions = d.sessions; host = d.host }

-- The transfer that a chunk belongs to, and its bytes: a payload of four bytes or more names it.
unfoldable pub chunk_of : Frame → Outcome (ℕ × List ℕ)
chunk_of frame = do
  payload ← payload_of frame
  let named = (do transfer_id ← read_le32 payload 0; ok (transfer_id, drop 4 payload))
  if leb 4 (length payload) then named else ok (frame.header.request_id, payload)

-- The entries of a request, or the error that answers a payload without them.
abbrev pub on_entries :
    {H : Type 0}
    → (ℕ → Bool)
    → Frame
    → Server H
    → Outcome (List Kv)
    → (List Kv → Reply × Server H)
    → Reply × Server H
on_entries realloc frame s (ok kvs) k = k kvs
on_entries realloc frame s failed k =
    (send_error realloc frame.header.request_id (codes "invalid kv payload"), s)
on_entries realloc frame s fault k = (overrun, s)

-- A call on the sessions, which answers `kvs` or its error.
abbrev pub on_done :
    {H : Type 0} → (ℕ → Bool) → List ℕ → Frame → List ℕ → List Kv → Done H → Reply × Server H
on_done realloc detail frame prefix kvs d = (
  if d.result
      then send_kv_response realloc msg_status frame.header.request_id kvs
      else send_last_error realloc frame.header.request_id detail prefix,
  served d,
)

module _ {H : Type 0} (io : Host H) (realloc : ℕ → Bool) (kv_malloc : ℕ → ℕ → Bool)
    (detail : List ℕ) where
  unfoldable pub put_begin : Frame → Server H → Option (List ℕ) → List Kv → Reply × Server H
  put_begin frame s none kvs =
      (send_error realloc frame.header.request_id (codes "missing path"), s)
  put_begin frame s (some path) kvs =
      on_done realloc detail frame (codes "begin upload failed")
        (pair (codes "status") (codes "ok") ∷ pair (codes "transfer_id") (codes "request_id") ∷ [])
        (begin_upload io s.sessions s.host frame.header.request_id path
          (kv_get kvs (codes "desire_storage")) (kv_get kvs (codes "perm")))

  unfoldable pub handle_file_put_begin : Server H → Frame → Reply × Server H
  handle_file_put_begin s frame =
      on_entries realloc frame s (decode_request kv_malloc frame)
        λ kvs. put_begin frame s (kv_get kvs (codes "path")) kvs

  unfoldable pub handle_file_put_chunk : Server H → Frame → Reply × Server H
  handle_file_put_chunk s frame = elim (chunk_of frame) [
    | ok (transfer_id, chunk) ↦
        on_done realloc detail frame (codes "append upload failed") status_ok
          (append_upload_chunk io s.sessions s.host transfer_id chunk)
    | failed ↦ (overrun, s)
    | fault ↦ (overrun, s)
  ]

  unfoldable pub handle_file_put_end : Server H → Frame → Reply × Server H
  handle_file_put_end s frame = elim (chunk_of frame) [
    | ok (transfer_id, rest) ↦
        on_done realloc detail frame (codes "finish upload failed") status_ok
          (finish_upload io s.sessions s.host transfer_id)
    | failed ↦ (overrun, s)
    | fault ↦ (overrun, s)
  ]
