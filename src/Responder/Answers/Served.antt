-- ===== src/Responder/Answers/Served.antt =====
-- Requests that change files and what their handlers in src/responder.c do: the call of src/file_ops.c
-- and the frame that answers.
use epass_usb_responder.Prelude.{
  ℕ, ◌%◌, ◌^◌, ◌<◌, ◌≤◌, ◌≡◌, ◌≢◌, refl, ap, ◌∙◌, Bool, true, false, Option, none, some, List, [],
  ◌∷◌, ◌++◌, arith, ◌==◌, length, take_all, length-take, append-nil, map, All,
}
use epass_usb_responder.Outcome.{ok, slice-eq-take}
use epass_usb_responder.Text.{c_string, same_string, codes}
use epass_usb_responder.Protocol.Frame.{Frame, pointee}
use epass_usb_responder.Protocol.Kv.{Kv}
use epass_usb_responder.Protocol.Kv.Encode.{sent, kv_bytes, encode_kv-eq-kv_bytes}
use epass_usb_responder.Protocol.Kv.RoundTrip.{received, decode_kv-kv_bytes}
use epass_usb_responder.Files.Host.{Host, Call, done, unfinished, ended}
use epass_usb_responder.Files.Remove.{file_delete}
use epass_usb_responder.Files.Remove.Enough.{file_delete-ne-unfinished}
use epass_usb_responder.Files.Place.{dir_mkdir, file_rename}
use epass_usb_responder.Files.Place.Enough.{dir_mkdir-ne-unfinished}
use epass_usb_responder.Responder.Reply.{
  Reply, send, response, pair, last_error_message, kv_get, payload_of, send_kv_response, send_error,
  send_last_error, decode_request,
}
use epass_usb_responder.Responder.Transfers.{Server}
use epass_usb_responder.Responder.Queries.{
  on_call, delete_path, handle_file_delete, rename_paths, handle_file_rename, mkdir_path,
  wants_parents, handle_file_mkdir,
}
use epass_usb_responder.Responder.Commands.{Config}
use epass_usb_responder.Responder.Dispatch.{
  MsgType, msg_type, Surroundings, handle_by_type, handle_frame,
}

-- A text that an entry carries whole.
abbrev pub IsValue : List ℕ → Type 0
IsValue v = All (λ b. 0 < b) v × (length v < 2 ^ 16)

c_string-text : (v : List ℕ) → All (λ b. 0 < b) v → c_string v ≡ v
c_string-text [] h = refl
c_string-text (b ∷ v) h =
    let more : (b == 0) ≡ false = ground (arith, h.0) in
    rw more (ap (λ r. b ∷ r) (c_string-text v h.1))

sent-value : (v : List ℕ) → IsValue v → c_string (sent (some v)) ≡ v
sent-value v h = rw (c_string-text v h.0) (
    ap (λ (r : List ℕ). c_string r) (take_all v (length v % 2 ^ 16) (omega (arith, h.1)))
    ∙ c_string-text v h.0)

-- The storage that is asked for, if any.
abbrev pub storage_items : Option (List ℕ) → List Kv
storage_items none = []
storage_items (some storage) = pair (codes "desire_storage") storage ∷ []

abbrev pub AreValues : Option (List ℕ) → Type 0
AreValues none = Unit
AreValues (some storage) = IsValue storage

-- The requests by their numbers in PROTOCOL.md, the entries that they carry, and the call that they
-- stand for.
pub data Change {H : Type 0} (io : Host H) : ℕ → List Kv → (H → Call H) → Type 0 where
  delete :
      (path : List ℕ) (storage : Option (List ℕ))
      → IsValue path
      → AreValues storage
      → Change io 15
          (pair (codes "path") path ∷ storage_items storage)
          (λ h. file_delete io h path storage)
  rename :
      (from to : List ℕ) (storage : Option (List ℕ))
      → IsValue from
      → IsValue to
      → AreValues storage
      → Change io 16
          (pair (codes "from") from ∷ pair (codes "to") to ∷ storage_items storage)
          (λ h. ended (file_rename io h from to storage))
  make_one :
      (path : List ℕ) (storage : Option (List ℕ))
      → IsValue path
      → AreValues storage
      → Change io 17
          (pair (codes "path") path ∷ storage_items storage)
          (λ h. dir_mkdir io h path false storage)
  make_all :
      (path : List ℕ) (storage : Option (List ℕ))
      → IsValue path
      → AreValues storage
      → Change io 17
          (pair (codes "path") path ∷ pair (codes "parents") (codes "1") ∷ storage_items storage)
          (λ h. dir_mkdir io h path true storage)

few_items : (storage : Option (List ℕ)) → length (storage_items storage) ≤ 1
few_items none = omega arith
few_items (some storage) = omega arith

-- The frame is of the type and carries the encoding of the entries.
pub record Carries (n : ℕ) (items : List Kv) (frame : Frame) : Type 0 where
  pub type_given : frame.header.type ≡ n
  pub carried : pointee frame.payload ≡ kv_bytes items
  pub announced : frame.header.payload_len ≡ length (kv_bytes items)

-- The allocators grant every request.
pub record Grants (w : Surroundings) : Type 0 where
  pub malloc_grants : (n : ℕ) → w.malloc n ≡ true
  pub realloc_grants : (n : ℕ) → w.realloc n ≡ true
  pub kv_malloc_grants : (k n : ℕ) → w.kv_malloc k n ≡ true

-- STATUS with `ok`, or ERROR with a message.
abbrev pub answer_number : Bool → ℕ
answer_number true = 2
answer_number false = 3

abbrev pub answer_items : Bool → List ℕ → List Kv
answer_items true msg = pair (codes "status") (codes "ok") ∷ []
answer_items false msg = pair (codes "message") msg ∷ []

abbrev pub answer : ℕ → Bool → List ℕ → Frame
answer id result msg = response (answer_number result) id (kv_bytes (answer_items result msg))

module _ {H : Type 0} (io : Host H) (size_mod : ℕ) (cfg : Config) (w : Surroundings) (s : Server H)
    (frame : Frame) (g : Grants w) where
  -- A call and its answer: the host's state is that after the call.
  abbrev pub Answers : Call H → Reply × Server H → Type 0
  Answers c r =
      (result : Bool) × (h' : H) × (msg : List ℕ) × (c ≡ done result h')
      × (r.1 ≡ record s { host = h' })
      × (length msg < 512)
      × (r.0 ≡ send (answer frame.header.request_id result msg))

  kv_sent :
      (type : ℕ) (kv : Kv)
      → send_kv_response w.realloc type frame.header.request_id (kv ∷ [])
        ≡ send (response type frame.header.request_id (kv_bytes (kv ∷ [])))
  unfolding send_kv_response
  kv_sent type kv =
      rw (encode_kv-eq-kv_bytes w.realloc (kv ∷ []) (omega arith) g.realloc_grants) refl

  message_short : (prefix detail : List ℕ) → length (last_error_message prefix detail) < 512
  message_short prefix [] = omega (arith, length-take 511 prefix)
  message_short prefix (c ∷ detail) =
      omega (arith, length-take 511 (prefix ++ (codes ": " ++ c ∷ detail)))

  on_call-Answers :
      (prefix : List ℕ) (c : Call H)
      → c ≢ unfinished
      → Answers c (on_call io w.malloc w.realloc w.kv_malloc w.detail s frame prefix c)
  unfolding send_last_error send_error
  on_call-Answers prefix (done true h') ne =
      (true, h', [], refl, refl, omega arith, kv_sent 2 (pair (codes "status") (codes "ok")))
  on_call-Answers prefix (done false h') ne = (
    false,
    h',
    last_error_message prefix w.detail,
    refl,
    refl,
    message_short prefix w.detail,
    kv_sent 3 (pair (codes "message") (last_error_message prefix w.detail)),
  )
  on_call-Answers prefix unfinished ne = absurd (ne refl)

  decoded :
      (n : ℕ) (items : List Kv)
      → Carries n items frame
      → length items ≤ 32
      → decode_request w.kv_malloc frame ≡ ok (map received items)
  unfolding decode_request
  decoded n items c few =
      let whole : payload_of frame ≡ ok (kv_bytes items) =
        rw (c.carried, c.announced)
          (slice-eq-take (kv_bytes items) 0 (length (kv_bytes items)) (omega arith)
            ∙ ap ok (take_all (kv_bytes items) (length (kv_bytes items)) (omega arith))) in
      rw
        (
          whole,
          rw append-nil at (decode_kv-kv_bytes w.kv_malloc g.kv_malloc_grants items [] 32 few few),
        )
        refl

  -- What the handlers do with the entries of a request.
  module _ (path : List ℕ) (p : IsValue path) where
    deleted :
        (storage : Option (List ℕ))
        → AreValues storage
        → decode_request w.kv_malloc frame
          ≡ ok (map received (pair (codes "path") path ∷ storage_items storage))
        → Answers
            (file_delete io s.host path storage)
            (handle_file_delete io w.malloc w.realloc w.kv_malloc w.detail s frame)
    unfolding handle_file_delete delete_path kv_get same_string
    deleted none q e =
        rw (e, sent-value path p)
          (on_call-Answers (codes "delete failed") (file_delete io s.host path none)
            (file_delete-ne-unfinished io s.host path none))
    deleted (some storage) q e =
        rw (e, sent-value path p, sent-value storage q)
          (on_call-Answers (codes "delete failed") (file_delete io s.host path (some storage))
            (file_delete-ne-unfinished io s.host path (some storage)))

    renamed :
        (to : List ℕ)
        → IsValue to
        → (storage : Option (List ℕ)) → AreValues storage
        → decode_request w.kv_malloc frame
          ≡ ok (
              map received
                (pair (codes "from") path ∷ pair (codes "to") to ∷ storage_items storage))
        → Answers
            (ended (file_rename io s.host path to storage))
            (handle_file_rename io w.malloc w.realloc w.kv_malloc w.detail s frame)
    unfolding handle_file_rename rename_paths kv_get same_string
    renamed to r none q e =
        rw (e, sent-value path p, sent-value to r)
          (on_call-Answers (codes "rename failed") (ended (file_rename io s.host path to none))
            (λ e. cc))
    renamed to r (some storage) q e =
        rw (e, sent-value path p, sent-value to r, sent-value storage q)
          (on_call-Answers (codes "rename failed")
            (ended (file_rename io s.host path to (some storage))) (λ e. cc))

    made_one :
        (storage : Option (List ℕ))
        → AreValues storage
        → decode_request w.kv_malloc frame
          ≡ ok (map received (pair (codes "path") path ∷ storage_items storage))
        → Answers
            (dir_mkdir io s.host path false storage)
            (handle_file_mkdir io w.malloc w.realloc w.kv_malloc w.detail s frame)
    unfolding handle_file_mkdir mkdir_path wants_parents kv_get same_string
    made_one none q e =
        rw (e, sent-value path p)
          (on_call-Answers (codes "mkdir failed") (dir_mkdir io s.host path false none)
            (dir_mkdir-ne-unfinished io s.host path false none))
    made_one (some storage) q e =
        rw (e, sent-value path p, sent-value storage q)
          (on_call-Answers (codes "mkdir failed") (dir_mkdir io s.host path false (some storage))
            (dir_mkdir-ne-unfinished io s.host path false (some storage)))

    made_all :
        (storage : Option (List ℕ))
        → AreValues storage
        → decode_request w.kv_malloc frame
          ≡ ok (
              map received (
                pair (codes "path") path
                ∷ pair (codes "parents") (codes "1")
                ∷ storage_items storage))
        → Answers
            (dir_mkdir io s.host path true storage)
            (handle_file_mkdir io w.malloc w.realloc w.kv_malloc w.detail s frame)
    unfolding handle_file_mkdir mkdir_path wants_parents kv_get same_string
    made_all none q e =
        rw (e, sent-value path p)
          (on_call-Answers (codes "mkdir failed") (dir_mkdir io s.host path true none)
            (dir_mkdir-ne-unfinished io s.host path true none))
    made_all (some storage) q e =
        rw (e, sent-value path p, sent-value storage q)
          (on_call-Answers (codes "mkdir failed") (dir_mkdir io s.host path true (some storage))
            (dir_mkdir-ne-unfinished io s.host path true (some storage)))

  type_of : (n : ℕ) → frame.header.type ≡ n → msg_type frame.header.type ≡ msg_type n
  type_of n e = ap msg_type e

  is_delete : msg_type 15 ≡ MsgType.file_delete
  unfolding msg_type
  is_delete = refl

  is_rename : msg_type 16 ≡ MsgType.file_rename
  unfolding msg_type
  is_rename = refl

  is_mkdir : msg_type 17 ≡ MsgType.file_mkdir
  unfolding msg_type
  is_mkdir = refl

  pub performed :
      (n : ℕ) (items : List Kv) (op : H → Call H)
      → Change io n items op
      → Carries n items frame
      → Answers (op s.host) (handle_frame io size_mod cfg w s frame)
  unfolding handle_frame handle_by_type
  performed n items op (delete path storage p q) c =
      rw (type_of 15 c.type_given, is_delete)
        (deleted path p storage q (decoded n items c (omega (arith, few_items storage))))
  performed n items op (rename from to storage p q r) c =
      rw (type_of 16 c.type_given, is_rename)
        (renamed from p to q storage r (decoded n items c (omega (arith, few_items storage))))
  performed n items op (make_one path storage p q) c =
      rw (type_of 17 c.type_given, is_mkdir)
        (made_one path p storage q (decoded n items c (omega (arith, few_items storage))))
  performed n items op (make_all path storage p q) c =
      rw (type_of 17 c.type_given, is_mkdir)
        (made_all path p storage q (decoded n items c (omega (arith, few_items storage))))
