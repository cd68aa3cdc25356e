-- ===== src/Responder/Answers/Requests.antt =====
-- `handle_frame` of src/responder.c: what any request is answered.
use epass_usb_responder.Prelude.{ℕ, ◌≢◌, refl, inl, arith}
use epass_usb_responder.Text.{codes}
use epass_usb_responder.Protocol.Frame.{Frame}
use epass_usb_responder.Files.Host.{Host}
use epass_usb_responder.Responder.Reply.{msg_status, msg_file_get, msg_command_result, msg_devinfo}
use epass_usb_responder.Responder.Transfers.{Server}
use epass_usb_responder.Responder.Commands.{Config}
use epass_usb_responder.Responder.Dispatch.{
  MsgType, hello, file_put_begin, file_put_chunk, file_put_end, file_get, file_list, file_delete,
  file_rename, file_mkdir, file_stat, command_exec, devinfo, unsupported, msg_type, Surroundings,
  handle_by_type, handle_frame,
}
use epass_usb_responder.Responder.Answers.{
  IsWhole, IsAnswer, send_kv_response-IsAnswer, send_error-IsAnswer, handle_file_put_begin-Answered,
  handle_file_put_chunk-Answered, handle_file_put_end-Answered,
}
use epass_usb_responder.Responder.Answers.Lookups.{
  handle_file_get-Answers, handle_file_list-Answers, handle_file_delete-Answers,
  handle_file_rename-Answers, handle_file_mkdir-Answers, handle_file_stat-Answers,
}

-- The type of the frame that answers a request where nothing fails.
abbrev pub answer_type : MsgType → ℕ
answer_type file_get = msg_file_get
answer_type command_exec = msg_command_result
answer_type devinfo = msg_devinfo
answer_type _ = msg_status

module _ {H : Type 0} (io : Host H) (size_mod : ℕ) (cfg : Config) (w : Surroundings) (s : Server H)
    (frame : Frame) (whole : IsWhole frame) where
  handle_by_type-IsAnswer :
      (t : MsgType)
      → t ≢ command_exec
      → t ≢ devinfo
      → IsAnswer w.realloc frame (answer_type t) (handle_by_type io size_mod cfg t w s frame).0
  unfolding handle_by_type
  handle_by_type-IsAnswer hello c d =
      send_kv_response-IsAnswer w.realloc frame msg_status msg_status _ (omega arith) (inl refl)
  handle_by_type-IsAnswer file_put_begin c d =
      handle_file_put_begin-Answered io w.malloc w.realloc w.kv_malloc w.detail s frame whole
  handle_by_type-IsAnswer file_put_chunk c d =
      handle_file_put_chunk-Answered io w.malloc w.realloc w.kv_malloc w.detail s frame whole
  handle_by_type-IsAnswer file_put_end c d =
      handle_file_put_end-Answered io w.malloc w.realloc w.kv_malloc w.detail s frame whole
  handle_by_type-IsAnswer file_get c d =
      handle_file_get-Answers io w.malloc w.realloc w.kv_malloc w.detail s frame whole
  handle_by_type-IsAnswer file_list c d =
      handle_file_list-Answers io w.malloc w.realloc w.kv_malloc w.detail s frame whole
  handle_by_type-IsAnswer file_delete c d =
      handle_file_delete-Answers io w.malloc w.realloc w.kv_malloc w.detail s frame whole
  handle_by_type-IsAnswer file_rename c d =
      handle_file_rename-Answers io w.malloc w.realloc w.kv_malloc w.detail s frame whole
  handle_by_type-IsAnswer file_mkdir c d =
      handle_file_mkdir-Answers io w.malloc w.realloc w.kv_malloc w.detail s frame whole
  handle_by_type-IsAnswer file_stat c d =
      handle_file_stat-Answers io w.malloc w.realloc w.kv_malloc w.detail s frame whole
  handle_by_type-IsAnswer command_exec c d = absurd (c refl)
  handle_by_type-IsAnswer devinfo c d = absurd (d refl)
  handle_by_type-IsAnswer unsupported c d =
      send_error-IsAnswer w.realloc frame msg_status (codes "unsupported message type")

  -- On any request whose payload has the announced length, except COMMAND_EXEC and DEVINFO, the
  -- handler ends without an access out of bounds, and with at most one frame to write, which has the
  -- identifier and the type of the request's answer or ERROR; there is none only where the allocator
  -- refuses to enlarge its buffer. Whether the frame is written is not said here.
  handle_frame-IsAnswer :
      msg_type frame.header.type ≢ command_exec
      → msg_type frame.header.type ≢ devinfo
      → IsAnswer w.realloc frame
          (answer_type (msg_type frame.header.type))
          (handle_frame io size_mod cfg w s frame).0
  unfolding handle_frame
  handle_frame-IsAnswer c d = handle_by_type-IsAnswer (msg_type frame.header.type) c d
