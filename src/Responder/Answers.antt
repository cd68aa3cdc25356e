-- ===== src/Responder/Answers.antt =====
-- What `handle_frame` of src/responder.c answers to any request that keeps to its announced length.
pub mod Lookups
pub mod Requests
pub mod Command
pub mod Served
pub mod Changes
use epass_usb_responder.Prelude.{
  ℕ, zero, suc, ◌+◌, ◌%◌, ◌^◌, ◌≤◌, ◌≡◌, ◌≢◌, refl, sym, ap, Bool, true, false, Option, none, some,
  List, [], ◌∷◌, arith, ltb, leb, if◌then◌else◌, length, take, drop, Bool-cases, inl, inr, ◌⊎◌,
}
use epass_usb_responder.Outcome.{
  Outcome, ok, failed, fault, ◌>>=◌, bind-ne-fault, ok-ne-fault, slice, slice-eq-take,
}
use epass_usb_responder.Text.{codes}
use epass_usb_responder.Protocol.Words.{read_le32, read_le32-inside, word32_at}
use epass_usb_responder.Protocol.Frame.{Frame, pointee}
use epass_usb_responder.Protocol.Kv.{Kv, Decoded, max_kv, encode_kv, decode_kv}
use epass_usb_responder.Protocol.Kv.Encode.{Granted, Encodes, encode_kv-Encodes}
use epass_usb_responder.Protocol.Kv.Safety.{decode_kv-ne-fault}
use epass_usb_responder.Files.Host.{Host, Call, done, unfinished}
use epass_usb_responder.Files.Upload.{Done, begin_upload, append_upload_chunk, finish_upload}
use epass_usb_responder.Files.Remove.{file_delete}
use epass_usb_responder.Files.Remove.Enough.{file_delete-ne-unfinished}
use epass_usb_responder.Files.Place.{dir_mkdir, file_rename}
use epass_usb_responder.Files.Place.Enough.{dir_mkdir-ne-unfinished}
use epass_usb_responder.Files.Listing.{file_list}
use epass_usb_responder.Files.Read.{file_read, file_stat}
use epass_usb_responder.Files.Read.Safe.{file_read-ne-fault, file_stat-ne-fault}
use epass_usb_responder.Responder.Reply.{
  msg_status, msg_error, msg_file_get, Reply, send, no_reply, stuck, overrun, on_result, response,
  pair, status_ok, kv_get, payload_of, send_kv_response, send_error, send_last_error,
  decode_request,
}
use epass_usb_responder.Responder.Transfers.{
  Server, on_entries, on_done, chunk_of, put_begin, handle_file_put_begin, handle_file_put_chunk,
  handle_file_put_end,
}
use epass_usb_responder.Responder.Queries.{
  with_kvs, get_path, handle_file_get, path_or_root, handle_file_list, stat_path, handle_file_stat,
  on_call, changing, delete_path, handle_file_delete, rename_paths, handle_file_rename, mkdir_path,
  wants_parents, handle_file_mkdir,
}

-- The payload has the length that the header announces.
abbrev pub IsWhole : Frame → Type 0
IsWhole frame = length (pointee frame.payload) ≡ frame.header.payload_len

module _ (realloc : ℕ → Bool) (frame : Frame) where
  -- One frame with the request's identifier, of the type or an error; none only where the allocator
  -- refuses.
  abbrev pub IsAnswer : ℕ → Reply → Type 0
  IsAnswer type (send f) =
      (f.header.request_id ≡ frame.header.request_id)
      × ((f.header.type ≡ type) ⊎ (f.header.type ≡ msg_error))
      × (f.header.payload_len ≡ length (pointee f.payload) % 2 ^ 32)
  IsAnswer type no_reply = ¬ Granted realloc
  IsAnswer type stuck = ⊥
  IsAnswer type overrun = ⊥

  encoded-IsAnswer :
      (type answer_type : ℕ) (bytes : List ℕ) (r : Outcome (List ℕ))
      → Encodes realloc r bytes
      → (answer_type ≡ type) ⊎ (answer_type ≡ msg_error)
      → IsAnswer type (
          on_result r no_reply
            λ payload. send (response answer_type frame.header.request_id payload))
  encoded-IsAnswer type answer_type bytes (ok payload) e t = (refl, t, refl)
  encoded-IsAnswer type answer_type bytes failed e t = e
  encoded-IsAnswer type answer_type bytes fault e t = e

  pub send_kv_response-IsAnswer :
      (type answer_type : ℕ) (kvs : List Kv)
      → length kvs ≤ max_kv
      → (answer_type ≡ type) ⊎ (answer_type ≡ msg_error)
      → IsAnswer type (send_kv_response realloc answer_type frame.header.request_id kvs)
  unfolding send_kv_response
  send_kv_response-IsAnswer type answer_type kvs few t =
      encoded-IsAnswer type answer_type _ (encode_kv realloc kvs)
        (encode_kv-Encodes realloc kvs few) t

  pub send_error-IsAnswer :
      (type : ℕ) (msg : List ℕ) → IsAnswer type (send_error realloc frame.header.request_id msg)
  unfolding send_error
  send_error-IsAnswer type msg =
      send_kv_response-IsAnswer type msg_error (pair (codes "message") msg ∷ []) (omega arith)
        (inr refl)

  pub send_last_error-IsAnswer :
      (type : ℕ) (detail prefix : List ℕ)
      → IsAnswer type (send_last_error realloc frame.header.request_id detail prefix)
  unfolding send_last_error
  send_last_error-IsAnswer type detail prefix = send_error-IsAnswer type _

  pub on_result-IsAnswer {ℓ} :
      {A : Type ℓ} (type : ℕ) (r : Outcome A) (otherwise : Reply) (k : A → Reply)
      → r ≢ fault
      → IsAnswer type otherwise
      → ((a : A) → IsAnswer type (k a))
      → IsAnswer type (on_result r otherwise k)
  on_result-IsAnswer type (ok a) otherwise k ne o f = f a
  on_result-IsAnswer type failed otherwise k ne o f = o
  on_result-IsAnswer type fault otherwise k ne o f = absurd (ne refl)

payload_of-eq :
    (frame : Frame)
    → IsWhole frame
    → payload_of frame ≡ ok (take frame.header.payload_len (pointee frame.payload))
payload_of-eq frame whole =
    slice-eq-take (pointee frame.payload) 0 frame.header.payload_len (omega arith)

pub decode_request-ne-fault :
    (kv_malloc : ℕ → ℕ → Bool) (frame : Frame)
    → IsWhole frame
    → decode_request kv_malloc frame ≢ fault
unfolding decode_request
decode_request-ne-fault kv_malloc frame whole = rw (payload_of-eq frame whole) (
    bind-ne-fault _ _
      (decode_kv-ne-fault kv_malloc (take frame.header.payload_len (pointee frame.payload)) max_kv)
      λ d. accepted d.accepted d.items)
  where
    accepted : (b : Bool) (items : List Kv) → (if b then ok items else failed) ≢ fault
    accepted true items = ok-ne-fault items
    accepted false items = λ e. cc

chunk_of-bytes :
    (id : ℕ) (payload : List ℕ)
    → (c : ℕ × List ℕ) × ((if leb 4 (length payload)
          then (do transfer_id ← read_le32 payload 0; ok (transfer_id, drop 4 payload))
          else ok (id, payload))
        ≡ ok c)
chunk_of-bytes id payload = elim (Bool-cases (leb 4 (length payload))) [
  | inl named ↦
      rw (named, read_le32-inside payload 0 (ground arith))
        ((word32_at payload 0, drop 4 payload), refl)
  | inr short ↦ rw short ((id, payload), refl)
]

pub chunk_of-ok : (frame : Frame) → IsWhole frame → (c : ℕ × List ℕ) × (chunk_of frame ≡ ok c)
unfolding chunk_of
chunk_of-ok frame whole =
    rw (payload_of-eq frame whole) (
      chunk_of-bytes frame.header.request_id
        (take frame.header.payload_len (pointee frame.payload)))

module _ {H : Type 0} (io : Host H) (malloc realloc : ℕ → Bool) (kv_malloc : ℕ → ℕ → Bool)
    (detail : List ℕ) (s : Server H) (frame : Frame) (whole : IsWhole frame) where
  abbrev pub Answered : ℕ → Reply → Type 0
  Answered type r = IsAnswer realloc frame type r

  on_done-Answered :
      (prefix : List ℕ) (kvs : List Kv) (d : Done H)
      → length kvs ≤ max_kv
      → Answered msg_status (on_done realloc detail frame prefix kvs d).0
  on_done-Answered prefix kvs d few = elim (Bool-cases d.result) [
    | inl good ↦
        rw good (send_kv_response-IsAnswer realloc frame msg_status msg_status kvs few (inl refl))
    | inr bad ↦ rw bad (send_last_error-IsAnswer realloc frame msg_status detail prefix)
  ]

  pub on_entries-Answered :
      (type : ℕ) (r : Outcome (List Kv)) (k : List Kv → Reply × Server H)
      → r ≢ fault
      → ((kvs : List Kv) → Answered type (k kvs).0)
      → Answered type (on_entries realloc frame s r k).0
  on_entries-Answered type (ok kvs) k ne f = f kvs
  on_entries-Answered type failed k ne f =
      send_error-IsAnswer realloc frame type (codes "invalid kv payload")
  on_entries-Answered type fault k ne f = absurd (ne refl)

  put_begin-Answered :
      (path : Option (List ℕ)) (kvs : List Kv)
      → Answered msg_status (put_begin io realloc kv_malloc detail frame s path kvs).0
  unfolding put_begin
  put_begin-Answered none kvs = send_error-IsAnswer realloc frame msg_status (codes "missing path")
  put_begin-Answered (some path) kvs =
      on_done-Answered (codes "begin upload failed") _
        (begin_upload io s.sessions s.host frame.header.request_id path
          (kv_get kvs (codes "desire_storage")) (kv_get kvs (codes "perm")))
        (omega arith)

  pub handle_file_put_begin-Answered :
      Answered msg_status (handle_file_put_begin io realloc kv_malloc detail s frame).0
  unfolding handle_file_put_begin
  handle_file_put_begin-Answered =
      on_entries-Answered msg_status (decode_request kv_malloc frame) _
        (decode_request-ne-fault kv_malloc frame whole)
        λ kvs. put_begin-Answered (kv_get kvs (codes "path")) kvs

  pub handle_file_put_chunk-Answered :
      Answered msg_status (handle_file_put_chunk io realloc kv_malloc detail s frame).0
  unfolding handle_file_put_chunk
  handle_file_put_chunk-Answered =
      let c = chunk_of-ok frame whole in
      rw (handle_file_put_chunk, c.1)
        (on_done-Answered (codes "append upload failed") status_ok
          (append_upload_chunk io s.sessions s.host c.0.0 c.0.1) (omega arith))

  pub handle_file_put_end-Answered :
      Answered msg_status (handle_file_put_end io realloc kv_malloc detail s frame).0
  unfolding handle_file_put_end
  handle_file_put_end-Answered =
      let c = chunk_of-ok frame whole in
      rw (handle_file_put_end, c.1)
        (on_done-Answered (codes "finish upload failed") status_ok
          (finish_upload io s.sessions s.host c.0.0) (omega arith))
