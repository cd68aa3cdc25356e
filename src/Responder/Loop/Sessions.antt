-- ===== src/Responder/Loop/Sessions.antt =====
-- The table of uploads under the handlers of src/responder.c.
use epass_usb_responder.Prelude.{ℕ, ◌≡◌, refl, Bool, true, false, Option, none, some, List}
use epass_usb_responder.Outcome.{Outcome, ok, failed, fault}
use epass_usb_responder.Protocol.Frame.{Frame}
use epass_usb_responder.Protocol.Kv.{Kv}
use epass_usb_responder.Text.{codes}
use epass_usb_responder.Files.Host.{Host, Call, done, unfinished, ended}
use epass_usb_responder.Files.Upload.Reachable.{Reachable, began, appended_to, finished}
use epass_usb_responder.Files.Place.{file_rename}
use epass_usb_responder.Responder.Reply.{Reply, kv_get, decode_request}
use epass_usb_responder.Responder.Transfers.{
  Server, on_entries, chunk_of, put_begin, handle_file_put_begin, handle_file_put_chunk,
  handle_file_put_end,
}
use epass_usb_responder.Responder.Queries.{
  on_call, delete_path, handle_file_delete, rename_paths, handle_file_rename, mkdir_path,
  handle_file_mkdir,
}
use epass_usb_responder.Responder.Commands.{Config}
use epass_usb_responder.Responder.Dispatch.{
  MsgType, hello, file_put_begin, file_put_chunk, file_put_end, file_get, file_list, file_delete,
  file_mkdir, file_stat, command_exec, devinfo, unsupported, Surroundings, msg_type, handle_by_type,
  handle_frame,
}

module _ {H : Type 0} (io : Host H) where
  abbrev pub IsKept : Server H → Type 0
  IsKept s = Reachable io s.sessions

  on_entries-IsKept :
      (realloc : ℕ → Bool) (frame : Frame) (s : Server H) (r : Outcome (List Kv))
      (k : List Kv → Reply × Server H)
      → IsKept s
      → ((kvs : List Kv) → IsKept (k kvs).1)
      → IsKept (on_entries realloc frame s r k).1
  on_entries-IsKept realloc frame s (ok kvs) k i f = f kvs
  on_entries-IsKept realloc frame s failed k i f = i
  on_entries-IsKept realloc frame s fault k i f = i

  on_call-IsKept :
      (malloc realloc : ℕ → Bool) (kv_malloc : ℕ → ℕ → Bool) (detail : List ℕ) (s : Server H)
      (frame : Frame) (prefix : List ℕ) (c : Call H)
      → IsKept s
      → IsKept (on_call io malloc realloc kv_malloc detail s frame prefix c).1
  on_call-IsKept malloc realloc kv_malloc detail s frame prefix (done true h) i = i
  on_call-IsKept malloc realloc kv_malloc detail s frame prefix (done false h) i = i
  on_call-IsKept malloc realloc kv_malloc detail s frame prefix unfinished i = i

  module _ (malloc realloc : ℕ → Bool) (kv_malloc : ℕ → ℕ → Bool) (detail : List ℕ) (s : Server H)
      (frame : Frame) (kept : IsKept s) where
    put_begin-IsKept :
        (path : Option (List ℕ)) (kvs : List Kv)
        → IsKept (put_begin io realloc kv_malloc detail frame s path kvs).1
    unfolding put_begin
    put_begin-IsKept none kvs = kept
    put_begin-IsKept (some path) kvs = began s.sessions s.host frame.header.request_id path _ _ kept

    handle_file_put_begin-IsKept :
        IsKept (handle_file_put_begin io realloc kv_malloc detail s frame).1
    unfolding handle_file_put_begin
    handle_file_put_begin-IsKept =
        on_entries-IsKept realloc frame s (decode_request kv_malloc frame) _ kept
          λ kvs. put_begin-IsKept (kv_get kvs (codes "path")) kvs

    handle_file_put_chunk-IsKept :
        IsKept (handle_file_put_chunk io realloc kv_malloc detail s frame).1
    unfolding handle_file_put_chunk
    handle_file_put_chunk-IsKept = by_chunk (chunk_of frame) refl
      where
        by_chunk :
            (o : Outcome (ℕ × List ℕ))
            → chunk_of frame ≡ o
            → IsKept (handle_file_put_chunk io realloc kv_malloc detail s frame).1
        by_chunk (ok c) e =
            rw (handle_file_put_chunk, e) (appended_to s.sessions s.host c.0 c.1 kept)
        by_chunk failed e = rw (handle_file_put_chunk, e) kept
        by_chunk fault e = rw (handle_file_put_chunk, e) kept

    handle_file_put_end-IsKept : IsKept (handle_file_put_end io realloc kv_malloc detail s frame).1
    unfolding handle_file_put_end
    handle_file_put_end-IsKept = by_chunk (chunk_of frame) refl
      where
        by_chunk :
            (o : Outcome (ℕ × List ℕ))
            → chunk_of frame ≡ o
            → IsKept (handle_file_put_end io realloc kv_malloc detail s frame).1
        by_chunk (ok c) e = rw (handle_file_put_end, e) (finished s.sessions s.host c.0 kept)
        by_chunk failed e = rw (handle_file_put_end, e) kept
        by_chunk fault e = rw (handle_file_put_end, e) kept

    delete_path-IsKept :
        (path : Option (List ℕ)) (kvs : List Kv)
        → IsKept (delete_path io malloc realloc kv_malloc detail s frame path kvs).1
    unfolding delete_path
    delete_path-IsKept none kvs = kept
    delete_path-IsKept (some path) kvs =
        on_call-IsKept malloc realloc kv_malloc detail s frame (codes "delete failed") _ kept

    rename_paths-IsKept :
        (from to : Option (List ℕ)) (kvs : List Kv)
        → IsKept (rename_paths io malloc realloc kv_malloc detail s frame from to kvs).1
    unfolding rename_paths
    rename_paths-IsKept none to kvs = kept
    rename_paths-IsKept (some from) none kvs = kept
    rename_paths-IsKept (some from) (some to) kvs =
        on_call-IsKept malloc realloc kv_malloc detail s frame (codes "rename failed")
          (ended (file_rename io s.host from to (kv_get kvs (codes "desire_storage")))) kept

    mkdir_path-IsKept :
        (path : Option (List ℕ)) (kvs : List Kv)
        → IsKept (mkdir_path io malloc realloc kv_malloc detail s frame path kvs).1
    unfolding mkdir_path
    mkdir_path-IsKept none kvs = kept
    mkdir_path-IsKept (some path) kvs =
        on_call-IsKept malloc realloc kv_malloc detail s frame (codes "mkdir failed") _ kept

    handle_file_delete-IsKept :
        IsKept (handle_file_delete io malloc realloc kv_malloc detail s frame).1
    unfolding handle_file_delete
    handle_file_delete-IsKept =
        on_entries-IsKept realloc frame s (decode_request kv_malloc frame) _ kept
          λ kvs. delete_path-IsKept (kv_get kvs (codes "path")) kvs

    handle_file_rename-IsKept :
        IsKept (handle_file_rename io malloc realloc kv_malloc detail s frame).1
    unfolding handle_file_rename
    handle_file_rename-IsKept =
        on_entries-IsKept realloc frame s (decode_request kv_malloc frame) _ kept
          λ kvs. rename_paths-IsKept (kv_get kvs (codes "from")) (kv_get kvs (codes "to")) kvs

    handle_file_mkdir-IsKept :
        IsKept (handle_file_mkdir io malloc realloc kv_malloc detail s frame).1
    unfolding handle_file_mkdir
    handle_file_mkdir-IsKept =
        on_entries-IsKept realloc frame s (decode_request kv_malloc frame) _ kept
          λ kvs. mkdir_path-IsKept (kv_get kvs (codes "path")) kvs

  handle_by_type-IsKept :
      (size_mod : ℕ) (cfg : Config) (t : MsgType) (w : Surroundings) (s : Server H) (frame : Frame)
      → IsKept s
      → IsKept (handle_by_type io size_mod cfg t w s frame).1
  unfolding handle_by_type
  handle_by_type-IsKept size_mod cfg file_put_begin w s frame kept =
      handle_file_put_begin-IsKept w.malloc w.realloc w.kv_malloc w.detail s frame kept
  handle_by_type-IsKept size_mod cfg file_put_chunk w s frame kept =
      handle_file_put_chunk-IsKept w.malloc w.realloc w.kv_malloc w.detail s frame kept
  handle_by_type-IsKept size_mod cfg file_put_end w s frame kept =
      handle_file_put_end-IsKept w.malloc w.realloc w.kv_malloc w.detail s frame kept
  handle_by_type-IsKept size_mod cfg file_delete w s frame kept =
      handle_file_delete-IsKept w.malloc w.realloc w.kv_malloc w.detail s frame kept
  handle_by_type-IsKept size_mod cfg MsgType.file_rename w s frame kept =
      handle_file_rename-IsKept w.malloc w.realloc w.kv_malloc w.detail s frame kept
  handle_by_type-IsKept size_mod cfg file_mkdir w s frame kept =
      handle_file_mkdir-IsKept w.malloc w.realloc w.kv_malloc w.detail s frame kept
  handle_by_type-IsKept size_mod cfg hello w s frame kept = kept
  handle_by_type-IsKept size_mod cfg file_get w s frame kept = kept
  handle_by_type-IsKept size_mod cfg file_list w s frame kept = kept
  handle_by_type-IsKept size_mod cfg file_stat w s frame kept = kept
  handle_by_type-IsKept size_mod cfg command_exec w s frame kept = kept
  handle_by_type-IsKept size_mod cfg devinfo w s frame kept = kept
  handle_by_type-IsKept size_mod cfg unsupported w s frame kept = kept

  pub handle_frame-IsKept :
      (size_mod : ℕ) (cfg : Config) (w : Surroundings) (s : Server H) (frame : Frame)
      → IsKept s
      → IsKept (handle_frame io size_mod cfg w s frame).1
  unfolding handle_frame
  handle_frame-IsKept size_mod cfg w s frame kept =
      handle_by_type-IsKept size_mod cfg (msg_type frame.header.type) w s frame kept
