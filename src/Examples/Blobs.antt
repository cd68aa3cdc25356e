-- ===== src/Examples/Blobs.antt =====
-- The blobs of src/functionfs_descriptors.c with the packed structs of the headers of Linux.
use epass_usb_responder.Prelude.{
  ℕ, zero, suc, ◌+◌, ◌%◌, ◌^◌, ◌≡◌, refl, true, List, [], ◌∷◌, ◌++◌, length,
}
use epass_usb_responder.Outcome.{ok}
use epass_usb_responder.Protocol.Words.{write_le16, write_le32}
use epass_usb_responder.Descriptors.{
  UsbHeaders, strings_size, build_descriptors_blob, build_strings_blob,
}
use epass_usb_responder.Descriptors.Announced.{
  IsAbi, joined, body_pieces, strings_bytes, build_descriptors_blob-announced,
}

abbrev zeros : ℕ → List ℕ
zeros zero = []
zeros (suc n) = 0 ∷ zeros n

abbrev linux : UsbHeaders
linux = record {
  descriptors_magic = 3;
  flags = 11;
  strings_magic = 2;
  vendor_class = 255;
  in_address = 129;
  out_address = 2;
  bulk = 2;
  word = write_le32;
  descs_head = λ magic size flags. write_le32 magic ++ (write_le32 size ++ write_le32 flags);
  interface_descriptor =
      λ endpoints class text. 9 ∷ 4 ∷ 0 ∷ 0 ∷ endpoints ∷ class ∷ 0 ∷ 0 ∷ text ∷ [];
  endpoint_descriptor =
      λ address attributes size. 7 ∷ 5 ∷ address ∷ attributes ∷ (write_le16 size ++ 0 ∷ []);
  os_desc_header = λ size version index count.
      0 ∷ (write_le32 size ++ (write_le16 version ++ (write_le16 index ++ write_le16 count)));
  ext_compat = λ reserved id. 0 ∷ reserved ∷ (id ++ zeros 16);
  ext_prop =
      λ size type name_length. write_le32 size ++ (write_le32 type ++ write_le16 name_length);
  strings_head = λ magic size strings langs.
      write_le32 magic ++ (write_le32 size ++ (write_le32 strings ++ write_le32 langs));
  os_desc_header_size = 11;
  ext_compat_size = 24;
  ext_prop_size = 10;
  strings_head_size = 16;
}

linux-IsAbi : IsAbi linux
unfolding write_le32
linux-IsAbi = record {
  head_words = λ magic size flags. refl;
  strings_head_length = λ magic size strings langs. refl;
}

build_descriptors_blob-announced_example :
    (build_descriptors_blob linux (λ n. true)
      ≡ ok (
          write_le32 3
          ++ (write_le32 ((12 + length (joined (body_pieces linux))) % 2 ^ 32)
              ++ (write_le32 11 ++ joined (body_pieces linux)))))
    × (build_strings_blob linux (λ n. true) ≡ ok (strings_bytes linux))
    × (length (strings_bytes linux) ≡ strings_size linux)
build_descriptors_blob-announced_example =
    build_descriptors_blob-announced linux (λ n. true) (λ n. refl) linux-IsAbi

-- 12 bytes of head, 12 of counts, 2 * 23 of interfaces, 35 and 147 of the two OS descriptors.
length-body : length (joined (body_pieces linux)) ≡ 12 + 46 + 35 + 147 + 0
unfolding write_le16 write_le32
length-body = refl
