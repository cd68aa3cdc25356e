-- ===== src/Descriptors.antt =====
-- src/functionfs_descriptors.c: the two blobs that describe the interface to the kernel. The structs
-- and constants of linux/usb/ch9.h and linux/usb/functionfs.h are a record of functions. Each helper
-- that appends gives the pieces that it appends, in their order.
pub mod Announced
use epass_usb_responder.Prelude.{
  ℕ, zero, suc, ◌+◌, ◌*◌, ◌%◌, ◌^◌, Bool, true, false, Option, List, [], ◌∷◌, ◌++◌, ltb,
  if◌then◌else◌, length, take, drop,
}
use epass_usb_responder.Outcome.{Outcome, ok, failed, fault, ◌>>=◌, ◌>>◌, require, filled}
use epass_usb_responder.Text.{codes}
use epass_usb_responder.Growth.{Buffer, empty_buffer, append_bytes}
use epass_usb_responder.Protocol.Words.{write_le16, write_le32}

-- The bytes of the structs by the fields that are set; `word` is a `uint32_t` in memory.
pub record UsbHeaders : Type 0 where
  pub descriptors_magic : ℕ
  pub flags : ℕ
  pub strings_magic : ℕ
  pub vendor_class : ℕ
  -- `1u | USB_DIR_IN` and `2u | USB_DIR_OUT`
  pub in_address : ℕ
  pub out_address : ℕ
  pub bulk : ℕ
  pub word : ℕ → List ℕ
  -- `magic`, `length` and `flags`
  pub descs_head : ℕ → ℕ → ℕ → List ℕ
  -- `bNumEndpoints`, `bInterfaceClass` and `iInterface`
  pub interface_descriptor : ℕ → ℕ → ℕ → List ℕ
  -- `bEndpointAddress`, `bmAttributes` and `wMaxPacketSize`
  pub endpoint_descriptor : ℕ → ℕ → ℕ → List ℕ
  -- `dwLength`, `bcdVersion`, `wIndex` and the count
  pub os_desc_header : ℕ → ℕ → ℕ → ℕ → List ℕ
  -- `Reserved1` and `CompatibleID`
  pub ext_compat : ℕ → List ℕ → List ℕ
  -- `dwSize`, `dwPropertyDataType` and `wPropertyNameLength`
  pub ext_prop : ℕ → ℕ → ℕ → List ℕ
  -- `magic`, `length`, `str_count` and `lang_count`
  pub strings_head : ℕ → ℕ → ℕ → ℕ → List ℕ
  pub os_desc_header_size : ℕ
  pub ext_compat_size : ℕ
  pub ext_prop_size : ℕ
  pub strings_head_size : ℕ

-- Each byte of a text, and a zero behind it.
abbrev pub utf16 : List ℕ → List ℕ
utf16 [] = []
utf16 (c ∷ cs) = c ∷ 0 ∷ utf16 cs

-- `kPropName` and `kPropValue` with the zeros that the arrays hold.
abbrev pub name_utf16 : List ℕ
name_utf16 = utf16 (codes "DeviceInterfaceGUIDs" ++ 0 ∷ [])

abbrev pub data_utf16 : List ℕ
data_utf16 = utf16 (codes "{0D8E9A49-5DB7-4D38-88A0-5A8C5A9A6401}" ++ 0 ∷ 0 ∷ [])

abbrev pub interface_name : List ℕ
interface_name = codes "ePass USB Responder" ++ 0 ∷ []

module _ (usb : UsbHeaders) where
  -- `sizeof(prop) + name_len + 4u + data_len`
  abbrev pub prop_size : ℕ
  prop_size = usb.ext_prop_size + length name_utf16 + 4 + length data_utf16

  -- The structs that the helpers fill in.
  abbrev pub intf : List ℕ
  intf = usb.interface_descriptor 2 usb.vendor_class 1

  abbrev pub compat_header : List ℕ
  compat_header = usb.os_desc_header (usb.os_desc_header_size + usb.ext_compat_size) 1 4 1

  abbrev pub compat : List ℕ
  compat = usb.ext_compat 1 (codes "WINUSB")

  abbrev pub prop_header : List ℕ
  prop_header = usb.os_desc_header (usb.os_desc_header_size + prop_size) 1 5 1

  abbrev pub prop : List ℕ
  prop = usb.ext_prop prop_size 7 (length name_utf16)

  abbrev pub counts : List ℕ
  counts = usb.word 3 ++ (usb.word 3 ++ usb.word 2)

  -- `append(…) && append(…) && …`
  unfoldable pub append_all : (ℕ → Bool) → Buffer → List (List ℕ) → Outcome Buffer
  append_all realloc buf [] = ok buf
  append_all realloc buf (piece ∷ pieces) =
      append_bytes 256 realloc buf piece >>= λ buf'. append_all realloc buf' pieces

  unfoldable pub append_usb_interface_desc : (ℕ → Bool) → Buffer → Outcome Buffer
  append_usb_interface_desc realloc buf = append_all realloc buf (intf ∷ [])

  unfoldable pub append_usb_bulk_ep_desc : (ℕ → Bool) → ℕ → ℕ → Buffer → Outcome Buffer
  append_usb_bulk_ep_desc realloc addr max_packet buf =
      append_all realloc buf (usb.endpoint_descriptor addr usb.bulk max_packet ∷ [])

  unfoldable pub append_os_desc_ext_compat : (ℕ → Bool) → Buffer → Outcome Buffer
  append_os_desc_ext_compat realloc buf = append_all realloc buf (compat_header ∷ compat ∷ [])

  unfoldable pub append_os_desc_ext_prop : (ℕ → Bool) → Buffer → Outcome Buffer
  append_os_desc_ext_prop realloc buf =
      append_all realloc buf
        (prop_header ∷ prop ∷ name_utf16 ∷ usb.word (length data_utf16) ∷ data_utf16 ∷ [])

  -- `write_le32(buf + 4, used)`
  unfoldable pub patch_length : List ℕ → Outcome (List ℕ)
  patch_length bytes =
      if ltb (length bytes) 8
      then fault
      else ok (take 4 bytes ++ (write_le32 (length bytes % 2 ^ 32) ++ drop 8 bytes))

  unfoldable pub build_descriptors_blob : (ℕ → Bool) → Outcome (List ℕ)
  build_descriptors_blob realloc = do
    b0 ←
        append_all realloc empty_buffer
          (usb.descs_head usb.descriptors_magic 0 usb.flags ∷ counts ∷ [])
    b1 ← append_usb_interface_desc realloc b0
    b2 ← append_usb_bulk_ep_desc realloc usb.in_address 64 b1
    b3 ← append_usb_bulk_ep_desc realloc usb.out_address 64 b2
    b4 ← append_usb_interface_desc realloc b3
    b5 ← append_usb_bulk_ep_desc realloc usb.in_address 512 b4
    b6 ← append_usb_bulk_ep_desc realloc usb.out_address 512 b5
    b7 ← append_os_desc_ext_compat realloc b6
    b8 ← append_os_desc_ext_prop realloc b7
    patch_length b8.bytes

  -- `sizeof(header) + sizeof(lang) + str_len`
  abbrev pub strings_size : ℕ
  strings_size = usb.strings_head_size + 2 + length interface_name

  unfoldable pub build_strings_blob : (ℕ → Bool) → Outcome (List ℕ)
  build_strings_blob calloc = do
    require (calloc strings_size)
    filled strings_size (
        usb.strings_head usb.strings_magic strings_size 1 1
        ++ (write_le16 0x0409 ++ interface_name))
