-- ===== src/Protocol/Stream.antt =====
-- Frames on a file descriptor: `usb_responder_read_full`, `…_write_full`, `…_bulk_in_needs_zlp` and
-- `…_write_zlp` of src/io_utils.c, and `write_limited`, `usb_responder_protocol_write_frame` and
-- `…_read_frame` of src/protocol.c. What the kernel answers to the successive calls of `read` and
-- `write` is a list; a call that finds none waits for ever.
pub mod Written
pub mod Read
pub mod Complete
use epass_usb_responder.Prelude.{
  ℕ, zero, suc, ◌+◌, ◌-◌, ◌||◌, ◌*◌, ◌%◌, Bool, true, false, not, ◌&&◌, Option, none, some, List,
  [], ◌∷◌, ◌++◌, ltb, ◌==◌, if◌then◌else◌, length, take, drop,
}
use epass_usb_responder.Outcome.{Outcome, ok, failed, fault}
use epass_usb_responder.Protocol.Words.{read_le32}
use epass_usb_responder.Protocol.Frame.{Frame, header_size, frame_size, encode_frame, decode_frame}

-- `write` takes some of the bytes, or fails with EINTR or with another error.
pub data WriteAnswer : Type 0 where
  wrote : ℕ → WriteAnswer
  write_interrupted write_failed : WriteAnswer

-- `read` gives bytes, none at the end of the file, or fails.
pub data ReadAnswer : Type 0 where
  gave : List ℕ → ReadAnswer
  read_interrupted read_failed : ReadAnswer

-- A call returns a value, with the answers that are left and the transfers that were made; or it
-- waits; or the kernel answers with more than it was asked for.
pub data Sent : Type 0 where
  returned : Bool → List (List ℕ) → List WriteAnswer → Sent
  waiting overrun : Sent

abbrev pub io_chunk : ℕ
io_chunk = 16 * 1024

-- `out` are the transfers made before the call; each adds one behind them.
unfoldable pub write_full : List ℕ → List (List ℕ) → List WriteAnswer → Sent
write_full bytes out [] = if length bytes == 0 then returned true out [] else waiting
write_full bytes out (write_interrupted ∷ answers) =
    let again = write_full bytes out answers in
    if length bytes == 0 then returned true out (write_interrupted ∷ answers) else again
write_full bytes out (write_failed ∷ answers) =
    if length bytes == 0
    then returned true out (write_failed ∷ answers)
    else returned false out answers
write_full bytes out (wrote n ∷ answers) =
    let rest = write_full (drop n bytes) (out ++ take n bytes ∷ []) answers in
    if length bytes == 0
    then returned true out (wrote n ∷ answers)
    else if n == 0
    then returned false out answers
    else if ltb (length bytes) n
    then overrun
    else rest

unfoldable pub bulk_in_needs_zlp : ℕ → Bool
bulk_in_needs_zlp nbytes = not (nbytes == 0) && nbytes % 64 == 0

-- A `write` of no bytes.
unfoldable pub write_zlp : List (List ℕ) → List WriteAnswer → Sent
write_zlp out [] = waiting
write_zlp out (write_interrupted ∷ answers) = write_zlp out answers
write_zlp out (write_failed ∷ answers) = returned false out answers
write_zlp out (wrote zero ∷ answers) = returned true (out ++ [] ∷ []) answers
write_zlp out (wrote (suc n) ∷ answers) = returned false out answers

abbrev pub when_sent : Sent → (List (List ℕ) → List WriteAnswer → Sent) → Sent
when_sent (returned true out answers) k = k out answers
when_sent (returned false out answers) k = returned false out answers
when_sent waiting k = waiting
when_sent overrun k = overrun

-- The loop of `write_limited`, with the bytes that are left. Each round takes a byte at least, so as
-- much fuel as bytes is enough.
unfoldable pub write_chunks : ℕ → List ℕ → List (List ℕ) → List WriteAnswer → Sent
write_chunks zero bytes out answers = returned true out answers
write_chunks (suc fuel) bytes out answers =
    if length bytes == 0
    then returned true out answers
    else when_sent (write_full (take io_chunk bytes) out answers)
        (λ out' answers'. write_chunks fuel (drop io_chunk bytes) out' answers')

unfoldable pub write_limited : List ℕ → List (List ℕ) → List WriteAnswer → Sent
write_limited bytes out answers =
    when_sent (write_chunks (length bytes) bytes out answers) (λ out' answers'.
      if bulk_in_needs_zlp (length bytes)
      then write_zlp out' answers'
      else returned true out' answers')

unfoldable pub write_encoded : List WriteAnswer → Outcome (List ℕ) → Sent
write_encoded answers (ok raw) = write_limited raw [] answers
write_encoded answers failed = returned false [] answers
write_encoded answers fault = overrun

unfoldable pub write_frame : (ℕ → Bool) → Frame → List WriteAnswer → Sent
write_frame malloc frame answers = write_encoded answers (encode_frame malloc frame)

-- What `read_full` returns: the bytes that it read, if it returned true.
pub data Received {ℓ} (A : Type ℓ) : Type ℓ where
  took : A → List ReadAnswer → Received A
  refused : List ReadAnswer → Received A
  read_waiting read_overrun : Received A

-- `before` are the bytes that `out` already holds, and `left` is `size - done`.
unfoldable pub read_full : List ℕ → ℕ → List ReadAnswer → Received (List ℕ)
read_full before left [] = if left == 0 then took before [] else read_waiting
read_full before left (read_interrupted ∷ answers) =
    let again = read_full before left answers in
    if left == 0 then took before (read_interrupted ∷ answers) else again
read_full before left (read_failed ∷ answers) =
    if left == 0 then took before (read_failed ∷ answers) else refused answers
read_full before left (gave bytes ∷ answers) =
    let rest = read_full (before ++ bytes) (left - length bytes) answers in
    if left == 0
    then took before (gave bytes ∷ answers)
    else if length bytes == 0
    then refused answers
    else if ltb left (length bytes)
    then read_overrun
    else rest

unfoldable pub decode_read : List ReadAnswer → Outcome Frame → Received Frame
decode_read answers (ok frame) = took frame answers
decode_read answers failed = refused answers
decode_read answers fault = read_overrun

module _ (malloc : ℕ → Bool) (max_payload : ℕ) where
  -- The payload is read into a buffer of `frame_size` bytes, whose first 24 hold the header.
  unfoldable pub read_payload : List ℕ → List ReadAnswer → Outcome ℕ → Received Frame
  read_payload hdr answers (ok payload_len) =
      if ltb max_payload payload_len || not (malloc (frame_size payload_len))
      then refused answers
      else if ltb (frame_size payload_len) (header_size + payload_len)
      then read_overrun
      else (elim (read_full hdr payload_len answers) [
        | took raw answers' ↦ decode_read answers' (decode_frame malloc raw)
        | refused answers' ↦ refused answers'
        | read_waiting ↦ read_waiting
        | read_overrun ↦ read_overrun
      ])
  read_payload hdr answers failed = refused answers
  read_payload hdr answers fault = read_overrun

  unfoldable pub read_frame : List ReadAnswer → Received Frame
  read_frame answers = elim (read_full [] header_size answers) [
    | took hdr answers' ↦ read_payload hdr answers' (read_le32 hdr 16)
    | refused answers' ↦ refused answers'
    | read_waiting ↦ read_waiting
    | read_overrun ↦ read_overrun
  ]
