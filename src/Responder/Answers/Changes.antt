-- ===== src/Responder/Answers/Changes.antt =====
-- Requests that change files, from their bytes to the bytes of the answer, across src/responder.c,
-- src/file_ops.c and src/protocol.c.
use epass_usb_responder.Prelude.{
  ℕ, ◌+◌, ◌%◌, ◌^◌, ◌<◌, ◌≡◌, Bool, true, false, List, [], ◌∷◌, ◌++◌, arith, length, take_all,
  length-append,
}
use epass_usb_responder.Outcome.{ok, slice-eq-take, filled-eq-ok}
use epass_usb_responder.Text.{codes}
use epass_usb_responder.Protocol.Frame.{Frame, frame_bytes, encode_frame}
use epass_usb_responder.Protocol.Frame.RoundTrip.{length-frame_bytes}
use epass_usb_responder.Protocol.Kv.{Kv}
use epass_usb_responder.Protocol.Kv.Encode.{item_bytes, kv_bytes}
use epass_usb_responder.Protocol.Kv.RoundTrip.{length-item_bytes}
use epass_usb_responder.Crc32.{crc32}
use epass_usb_responder.Protocol.Words.{write_le16, write_le32, length-write_le16}
use epass_usb_responder.Protocol.Stream.{returned, write_encoded, write_frame}
use epass_usb_responder.Protocol.Stream.Complete.{taken, transfers, write_limited_complete}
use epass_usb_responder.Files.Host.{Host, Call, done}
use epass_usb_responder.Responder.Reply.{send, response, pair}
use epass_usb_responder.Responder.Transfers.{Server}
use epass_usb_responder.Responder.Commands.{Config}
use epass_usb_responder.Responder.Dispatch.{Surroundings, handle_frame, write_reply}
use epass_usb_responder.Responder.Answers.Served.{
  Change, Carries, Grants, answer_number, answer_items, answer, performed,
}

-- The bytes of a frame, as PROTOCOL.md lays them out: the magic number, version 1, the type, no
-- flags, the identifier, the length and the checksum of the payload, and the payload.
abbrev pub raw_bytes : ℕ → ℕ → List ℕ → List ℕ
raw_bytes type id payload =
    write_le32 0x45504153
    ++ (write_le16 1
        ++ (write_le16 type
            ++ (write_le32 0
                ++ (write_le32 id
                    ++ (write_le32 (length payload % 2 ^ 32)
                        ++ (write_le32 (crc32 payload) ++ payload))))))

-- The bytes that answer a request.
abbrev pub answer_bytes : ℕ → Bool → List ℕ → List ℕ
answer_bytes id result msg =
    raw_bytes (answer_number result) id (kv_bytes (answer_items result msg))

module _ {H : Type 0} (io : Host H) (size_mod : ℕ) (cfg : Config) (w : Surroundings) (s : Server H)
    (frame : Frame) (g : Grants w) where
  small : (kv : Kv) → 24 + length (kv_bytes (kv ∷ [])) < 2 ^ 32
  small kv = omega (
    arith,
    length-write_le16 (1 % 2 ^ 16),
    length-append (write_le16 (1 % 2 ^ 16)) (item_bytes kv ++ []),
    length-append (item_bytes kv) [],
    length-item_bytes [] [] kv,
  )

  answer_small :
      (result : Bool) (msg : List ℕ) → 24 + length (kv_bytes (answer_items result msg)) < 2 ^ 32
  answer_small true msg = small (pair (codes "status") (codes "ok"))
  answer_small false msg = small (pair (codes "message") msg)

  encoded :
      (type id : ℕ) (payload : List ℕ)
      → 24 + length payload < 2 ^ 32
      → encode_frame w.malloc (response type id payload) ≡ ok (raw_bytes type id payload)
  unfolding encode_frame
  encoded type id payload fits =
      let f = response type id payload in
      ground (
        arith,
        g.malloc_grants (24 + length payload),
        slice-eq-take payload 0 (length payload % 2 ^ 32),
        take_all payload (length payload % 2 ^ 32),
        length-frame_bytes f.header payload,
        filled-eq-ok (24 + length payload) (frame_bytes f.header payload),
      )

  written :
      (f : Frame) (raw : List ℕ)
      → encode_frame w.malloc f ≡ ok raw
      → write_reply w.malloc (taken (transfers raw) ++ []) (send f)
        ≡ returned true (transfers raw) []
  unfolding write_reply write_frame write_encoded
  written f raw e = rw e (write_limited_complete raw [])

  -- A frame of type 15, 16 or 17 that carries the encoding of the entries of a FILE_DELETE,
  -- FILE_RENAME or FILE_MKDIR request is served by one call of file_delete, file_rename or
  -- dir_mkdir with its texts, which returns, leaves the sessions, and leaves the host as the
  -- handler leaves it; on an endpoint that takes each transfer whole, the request is then answered
  -- by the transfers of one frame with the identifier of the request, which is STATUS with `ok` if
  -- the call returned true, and ERROR with one message of less than 512 bytes if it returned
  -- false. Conditions: the allocators grant every request; the texts have no NUL and are shorter
  -- than 64 KiB; the storage may be left out; for FILE_MKDIR, `parents` is left out or `1`.
  pub handle_frame-answered :
      (n : ℕ) (items : List Kv) (op : H → Call H)
      → Change io n items op
      → Carries n items frame
      → (result : Bool) × (h' : H) × (msg : List ℕ) × (op s.host ≡ done result h')
        × ((handle_frame io size_mod cfg w s frame).1 ≡ record s { host = h' })
        × (length msg < 512)
        × (let ts = transfers (answer_bytes frame.header.request_id result msg) in
            write_reply w.malloc (taken ts ++ []) (handle_frame io size_mod cfg w s frame).0
            ≡ returned true ts [])
  handle_frame-answered n items op change c =
      let r = performed io size_mod cfg w s frame g n items op change c in
      let e =
        encoded (answer_number r.0) frame.header.request_id (kv_bytes (answer_items r.0 r.2))
          (answer_small r.0 r.2) in
      (r.0, r.1, r.2, r.3, r.4, r.5, rw r.6 (written (answer frame.header.request_id r.0 r.2) _ e))
