-- ===== src/Responder/Dispatch.antt =====
-- `handle_frame` of src/responder.c: the handler of a request by its type.
use epass_usb_responder.Prelude.{ℕ, Bool, false, List, [], ◌∷◌, ◌==◌, if◌then◌else◌}
use epass_usb_responder.Text.{codes}
use epass_usb_responder.Protocol.Frame.{Frame}
use epass_usb_responder.Protocol.Stream.{Sent, returned, WriteAnswer, write_frame}
use epass_usb_responder.Files.Host.{Host}
use epass_usb_responder.Responder.Reply.{
  msg_status, Reply, send, no_reply, stuck, overrun, pair, send_kv_response, send_error,
}
use epass_usb_responder.Responder.Transfers.{
  Server, handle_file_put_begin, handle_file_put_chunk, handle_file_put_end,
}
use epass_usb_responder.Responder.Queries.{
  handle_file_get, handle_file_list, handle_file_delete, handle_file_rename, handle_file_mkdir,
  handle_file_stat,
}
use epass_usb_responder.Responder.Device.{Device, handle_devinfo}
use epass_usb_responder.Responder.Commands.{Config, CommandRun, handle_command_exec}

-- The cases of the switch.
pub data MsgType : Type 0 where
  hello file_put_begin file_put_chunk file_put_end file_get file_list file_delete file_rename :
      MsgType
  file_mkdir file_stat command_exec devinfo unsupported : MsgType

-- `usb_responder_msg_type_t`
unfoldable pub msg_type : ℕ → MsgType
msg_type type =
    if type == 1
    then hello
    else if type == 10
    then file_put_begin
    else if type == 11
    then file_put_chunk
    else if type == 12
    then file_put_end
    else if type == 13
    then file_get
    else if type == 14
    then file_list
    else if type == 15
    then file_delete
    else if type == 16
    then file_rename
    else if type == 17
    then file_mkdir
    else if type == 18
    then file_stat
    else if type == 20
    then command_exec
    else if type == 30
    then devinfo
    else unsupported

-- What a request finds: the allocator's answers, by size and for the entries of its payload, the text
-- of the last error, what the kernel does with a command, and what it shows of the device.
pub record Surroundings : Type 0 where
  pub malloc : ℕ → Bool
  pub realloc : ℕ → Bool
  pub kv_malloc : ℕ → ℕ → Bool
  pub detail : List ℕ
  pub run : CommandRun
  pub device : Device

module _ {H : Type 0} (io : Host H) (size_mod : ℕ) (cfg : Config) where
  unfoldable pub handle_by_type : MsgType → Surroundings → Server H → Frame → Reply × Server H
  handle_by_type hello w s frame = (
    send_kv_response w.realloc msg_status frame.header.request_id
        (pair (codes "service") (codes "usb_responder") ∷ pair (codes "version") (codes "1") ∷ []),
    s,
  )
  handle_by_type file_put_begin w s frame =
      handle_file_put_begin io w.realloc w.kv_malloc w.detail s frame
  handle_by_type file_put_chunk w s frame =
      handle_file_put_chunk io w.realloc w.kv_malloc w.detail s frame
  handle_by_type file_put_end w s frame =
      handle_file_put_end io w.realloc w.kv_malloc w.detail s frame
  handle_by_type file_get w s frame =
      (handle_file_get io w.malloc w.realloc w.kv_malloc w.detail s frame, s)
  handle_by_type file_list w s frame =
      (handle_file_list io w.malloc w.realloc w.kv_malloc w.detail s frame, s)
  handle_by_type file_delete w s frame =
      handle_file_delete io w.malloc w.realloc w.kv_malloc w.detail s frame
  handle_by_type file_rename w s frame =
      handle_file_rename io w.malloc w.realloc w.kv_malloc w.detail s frame
  handle_by_type file_mkdir w s frame =
      handle_file_mkdir io w.malloc w.realloc w.kv_malloc w.detail s frame
  handle_by_type file_stat w s frame =
      (handle_file_stat io w.malloc w.realloc w.kv_malloc w.detail s frame, s)
  handle_by_type command_exec w s frame =
      (handle_command_exec size_mod w.malloc w.realloc cfg w.run frame, s)
  handle_by_type devinfo w s frame =
      (handle_devinfo w.malloc w.realloc (io.is_sd_mounted s.host) w.device frame, s)
  handle_by_type unsupported w s frame =
      (send_error w.realloc frame.header.request_id (codes "unsupported message type"), s)

  unfoldable pub handle_frame : Surroundings → Server H → Frame → Reply × Server H
  handle_frame w s frame = handle_by_type (msg_type frame.header.type) w s frame

-- The frame that a handler ends with goes to the IN endpoint.
unfoldable pub write_reply : (ℕ → Bool) → List WriteAnswer → Reply → Sent
write_reply malloc answers (send frame) = write_frame malloc frame answers
write_reply malloc answers no_reply = returned false [] answers
write_reply malloc answers stuck = Sent.waiting
write_reply malloc answers overrun = Sent.overrun
