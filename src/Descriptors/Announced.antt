-- ===== src/Descriptors/Announced.antt =====
-- The lengths that the blobs of src/functionfs_descriptors.c announce.
use epass_usb_responder.Prelude.{
  ℕ, ◌+◌, ◌%◌, ◌^◌, ◌≡◌, refl, sym, ap, ◌∙◌, Bool, true, false, List, [], ◌∷◌, ◌++◌, arith, ltb,
  length, take, drop, length-append, append-nil, append_assoc,
}
use epass_usb_responder.Outcome.{ok, filled-eq-ok}
use epass_usb_responder.Growth.{
  Buffer, empty_buffer, append_bytes, appended, asked, append_bytes-eq,
}
use epass_usb_responder.Protocol.Words.{write_le16, write_le32}
use epass_usb_responder.Descriptors.{
  UsbHeaders, name_utf16, data_utf16, intf, compat_header, compat, prop_header, prop, counts,
  append_all, append_usb_interface_desc, append_usb_bulk_ep_desc, append_os_desc_ext_compat,
  append_os_desc_ext_prop, patch_length, build_descriptors_blob, interface_name, strings_size,
  build_strings_blob,
}

abbrev pub joined : List (List ℕ) → List ℕ
joined [] = []
joined (piece ∷ pieces) = piece ++ joined pieces

-- The interface and its two endpoints for one packet size.
abbrev pub speed_pieces : UsbHeaders → ℕ → List (List ℕ)
speed_pieces usb max_packet =
    intf usb
    ∷ usb.endpoint_descriptor usb.in_address usb.bulk max_packet
    ∷ usb.endpoint_descriptor usb.out_address usb.bulk max_packet
    ∷ []

-- Everything behind the header.
abbrev pub body_pieces : UsbHeaders → List (List ℕ)
body_pieces usb =
    counts usb
    ∷ (speed_pieces usb 64
        ++ (speed_pieces usb 512
            ++ (compat_header usb
                ∷ compat usb
                ∷ prop_header usb
                ∷ prop usb
                ∷ name_utf16
                ∷ usb.word (length data_utf16)
                ∷ data_utf16
                ∷ [])))

abbrev pub strings_bytes : UsbHeaders → List ℕ
strings_bytes usb =
    usb.strings_head usb.strings_magic (strings_size usb) 1 1
    ++ (write_le16 0x0409 ++ interface_name)

-- What the headers document: the fields of the head are little-endian words, and the head of the
-- strings has the size of its struct.
pub record IsAbi (usb : UsbHeaders) : Type 0 where
  pub head_words :
      (magic size flags : ℕ)
      → usb.descs_head magic size flags ≡ write_le32 magic ++ (write_le32 size ++ write_le32 flags)
  pub strings_head_length :
      (magic size strings langs : ℕ)
      → length (usb.strings_head magic size strings langs) ≡ usb.strings_head_size

module _ (usb : UsbHeaders) (realloc : ℕ → Bool) (granted : (n : ℕ) → realloc n ≡ true) where
  append_piece :
      (buf : Buffer) (piece : List ℕ)
      → append_bytes 256 realloc buf piece ≡ ok (appended 256 buf piece)
  append_piece buf piece =
      append_bytes-eq 256 (omega arith) buf piece realloc
      ∙ (rw (granted (asked 256 buf piece)) (ground arith))

  abbrev after : Buffer → List (List ℕ) → Buffer
  after buf [] = buf
  after buf (piece ∷ pieces) = after (appended 256 buf piece) pieces

  after-joined :
      (pieces : List (List ℕ)) (buf : Buffer)
      → (after buf pieces).bytes ≡ buf.bytes ++ joined pieces
  after-joined [] buf = sym (append-nil buf.bytes)
  after-joined (piece ∷ pieces) buf =
      after-joined pieces (appended 256 buf piece) ∙ append_assoc buf.bytes piece (joined pieces)

  append_all-after :
      (pieces : List (List ℕ)) (buf : Buffer)
      → append_all usb realloc buf pieces ≡ ok (after buf pieces)
  unfolding append_all
  append_all-after [] buf = refl
  append_all-after (piece ∷ pieces) buf =
      rw (append_piece buf piece) (append_all-after pieces (appended 256 buf piece))

  long_enough : (n : ℕ) → ltb (12 + n) 8 ≡ false
  long_enough n = ground arith

  patch_length-long :
      (bytes : List ℕ) (n : ℕ)
      → length bytes ≡ 12 + n
      → patch_length usb bytes
        ≡ ok (take 4 bytes ++ (write_le32 ((12 + n) % 2 ^ 32) ++ drop 8 bytes))
  unfolding patch_length
  patch_length-long bytes n len = let long = long_enough n in rw (len, long) refl

  patch-words :
      (magic flags : ℕ) (body : List ℕ)
      → patch_length usb ((write_le32 magic ++ (write_le32 0 ++ write_le32 flags)) ++ body)
        ≡ ok (
            write_le32 magic
            ++ (write_le32 ((12 + length body) % 2 ^ 32) ++ (write_le32 flags ++ body)))
  unfolding write_le32
  patch-words magic flags body =
      patch_length-long ((write_le32 magic ++ (write_le32 0 ++ write_le32 flags)) ++ body)
        (length body) (omega arith)

  module _ (abi : IsAbi usb) where
    length-strings_bytes : length (strings_bytes usb) ≡ strings_size usb
    unfolding write_le16
    length-strings_bytes =
        length-append (usb.strings_head usb.strings_magic (strings_size usb) 1 1)
          (write_le16 0x0409 ++ interface_name)
        ∙ (rw (abi.strings_head_length usb.strings_magic (strings_size usb) 1 1) (omega arith))

    build_strings_blob-announced :
        (calloc : ℕ → Bool)
        → calloc (strings_size usb) ≡ true
        → build_strings_blob usb calloc ≡ ok (strings_bytes usb)
    unfolding build_strings_blob
    build_strings_blob-announced calloc given = rw given (
        filled-eq-ok (strings_size usb) (strings_bytes usb) (rw length-strings_bytes (omega arith)))

    appends_all :
        build_descriptors_blob usb realloc
        ≡ patch_length usb
            (after empty_buffer
              (usb.descs_head usb.descriptors_magic 0 usb.flags ∷ body_pieces usb)).bytes
    unfolding build_descriptors_blob append_usb_interface_desc append_usb_bulk_ep_desc
        append_os_desc_ext_compat append_os_desc_ext_prop
    appends_all = simp (append_all-after)

    descriptors_announced :
        build_descriptors_blob usb realloc
        ≡ ok (
            write_le32 usb.descriptors_magic
            ++ (write_le32 ((12 + length (joined (body_pieces usb))) % 2 ^ 32)
                ++ (write_le32 usb.flags ++ joined (body_pieces usb))))
    descriptors_announced =
        appends_all
        ∙ ap (patch_length usb) (
            after-joined (usb.descs_head usb.descriptors_magic 0 usb.flags ∷ body_pieces usb)
              empty_buffer
            ∙ ap (λ h. h ++ joined (body_pieces usb))
                (abi.head_words usb.descriptors_magic 0 usb.flags))
        ∙ patch-words usb.descriptors_magic usb.flags (joined (body_pieces usb))

    -- With an allocator that grants every request, the descriptor blob is the head, with its
    -- number, its flags and the length of the whole blob modulo 2^32 as little-endian words, and
    -- then the counts, for 64 and for 512 bytes an interface and its two endpoints, and the two OS
    -- descriptors with their headers, in this order and byte for byte; and the strings blob is its
    -- head, the language and the name with a zero byte, whose number of bytes is the size that the
    -- head is given. Conditions: the head of the descriptors is its three words, and that of the
    -- strings has the size of its struct.
    pub build_descriptors_blob-announced :
        (build_descriptors_blob usb realloc
          ≡ ok (
              write_le32 usb.descriptors_magic
              ++ (write_le32 ((12 + length (joined (body_pieces usb))) % 2 ^ 32)
                  ++ (write_le32 usb.flags ++ joined (body_pieces usb)))))
        × (build_strings_blob usb realloc ≡ ok (strings_bytes usb))
        × (length (strings_bytes usb) ≡ strings_size usb)
    build_descriptors_blob-announced = (
      descriptors_announced,
      build_strings_blob-announced realloc (granted (strings_size usb)),
      length-strings_bytes,
    )
