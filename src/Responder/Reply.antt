-- ===== src/Responder/Reply.antt =====
-- What the handlers of src/responder.c share: `send_kv_response`, `send_error`, `send_last_error` and
-- `kv_get`. A handler ends with one call that writes a frame; here it gives that frame.
use epass_usb_responder.Prelude.{
  ℕ, ◌%◌, ◌^◌, Bool, Option, none, some, List, [], ◌∷◌, ◌++◌, if◌then◌else◌, length, take,
}
use epass_usb_responder.Outcome.{Outcome, ok, failed, fault, ◌>>=◌, slice}
use epass_usb_responder.Text.{c_string, text, same_string, codes}
use epass_usb_responder.Protocol.Frame.{Frame, pointee}
use epass_usb_responder.Protocol.Kv.{Kv, max_kv, encode_kv, decode_kv}

-- The types of the frames that answer.
abbrev pub msg_status : ℕ
msg_status = 2

abbrev pub msg_error : ℕ
msg_error = 3

abbrev pub msg_file_get : ℕ
msg_file_get = 13

abbrev pub msg_command_result : ℕ
msg_command_result = 21

abbrev pub msg_devinfo : ℕ
msg_devinfo = 30

-- What a handler does: it writes a frame, returns false without one, never returns, or accesses memory
-- out of bounds.
pub data Reply : Type 0 where
  send : Frame → Reply
  no_reply stuck overrun : Reply

-- A call that fails is followed by `otherwise`.
abbrev pub on_result {ℓ} : {A : Type ℓ} → Outcome A → Reply → (A → Reply) → Reply
on_result (ok a) otherwise k = k a
on_result failed otherwise k = otherwise
on_result fault otherwise k = overrun

-- The frame after `memset`, with the fields that are set.
abbrev pub response : ℕ → ℕ → List ℕ → Frame
response type req_id payload = record {
  header = record {
    magic = 0;
    version = 0;
    type = type;
    flags = 0;
    request_id = req_id;
    payload_len = length payload % 2 ^ 32;
    payload_crc32 = 0;
  };
  payload = some payload;
}

abbrev pub pair : List ℕ → List ℕ → Kv
pair key value = record { key = some key; value = some value }

-- `status` is `ok`.
abbrev pub status_ok : List Kv
status_ok = pair (codes "status") (codes "ok") ∷ []

-- `snprintf` into `msg[512]`, with the text of the last error where there is one.
abbrev pub last_error_message : List ℕ → List ℕ → List ℕ
last_error_message prefix [] = take 511 prefix
last_error_message prefix (c ∷ detail) = take 511 (prefix ++ (codes ": " ++ c ∷ detail))

unfoldable pub kv_get : List Kv → List ℕ → Option (List ℕ)
kv_get [] key = none
kv_get (kv ∷ kvs) key =
    let rest = kv_get kvs key in
    if same_string (text kv.key) key
    then (elim kv.value [ none ↦ none | some v ↦ some (c_string v) ])
    else rest

-- The `payload_len` bytes at `payload`.
abbrev pub payload_of : Frame → Outcome (List ℕ)
payload_of frame = slice (pointee frame.payload) 0 frame.header.payload_len

module _ (realloc : ℕ → Bool) where
  unfoldable pub send_kv_response : ℕ → ℕ → List Kv → Reply
  send_kv_response type req_id kvs =
      on_result (encode_kv realloc kvs) no_reply λ payload. send (response type req_id payload)

  unfoldable pub send_error : ℕ → List ℕ → Reply
  send_error req_id msg = send_kv_response msg_error req_id (pair (codes "message") msg ∷ [])

  -- `detail` is the text of the last error.
  unfoldable pub send_last_error : ℕ → List ℕ → List ℕ → Reply
  send_last_error req_id detail prefix = send_error req_id (last_error_message prefix detail)

-- The decoded entries of a request, or what answers a payload that has none.
unfoldable pub decode_request : (ℕ → ℕ → Bool) → Frame → Outcome (List Kv)
decode_request kv_malloc frame = do
  payload ← payload_of frame
  decoded ← decode_kv kv_malloc payload max_kv
  if decoded.accepted then ok decoded.items else failed
