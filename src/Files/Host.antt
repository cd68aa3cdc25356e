-- ===== src/Files/Host.antt =====
-- What src/file_ops.c and src/io_utils.c use of the C library and the kernel: functions on a state of
-- theirs, of type `H`. Calls that only look take the state and leave it.
use epass_usb_responder.Prelude.{ℕ, Bool, true, false, Option, List}

pub data Kind : Type 0 where
  regular directory link special : Kind

-- The fields of `struct stat` that are read.
pub record Status : Type 0 where
  pub kind : Kind
  pub mode : ℕ
  pub size : ℕ
  pub uid : ℕ
  pub gid : ℕ

-- `mkdir` returns 0, or fails with EEXIST or with another error.
pub data Made : Type 0 where
  made exists refused : Made

-- A file that `fopen` opened for reading: the answers of the two `fseek`, the value of `ftell`, none
-- where it is negative, and the bytes that `fread` can give.
pub record Readable : Type 0 where
  pub seek_end : Bool
  pub tell : Option ℕ
  pub seek_set : Bool
  pub content : List ℕ

pub record Host (H : Type 0) : Type 0 where
  pub fopen : H → List ℕ → Option (ℕ × H)
  pub fwrite : H → ℕ → List ℕ → Bool × H
  pub write_back : H → ℕ → H
  pub fclose : H → ℕ → H
  pub rename : H → List ℕ → List ℕ → Bool × H
  pub chmod : H → List ℕ → ℕ → Bool × H
  pub unlink : H → List ℕ → Bool × H
  pub rmdir : H → List ℕ → Bool × H
  pub mkdir : H → List ℕ → ℕ → Made × H
  pub lstat : H → List ℕ → Option Status
  pub stat : H → List ℕ → Option Status
  -- The names that `readdir` gives after `opendir`, as they are then.
  pub entries : H → List ℕ → Option (List (List ℕ))
  pub open_to_read : H → List ℕ → Option Readable
  pub user_name : H → ℕ → Option (List ℕ)
  pub group_name : H → ℕ → Option (List ℕ)
  pub is_sd_mounted : H → Bool
  -- The value in base 8, and how many bytes of the text belong to the number.
  pub strtoul : List ℕ → ℕ × ℕ

-- What a call returns, and the host's state after it; `unfinished` is no outcome of the code.
pub data Call (H : Type 0) : Type 0 where
  done : Bool → H → Call H
  unfinished : Call H

abbrev pub then_on : {H : Type 0} → Call H → (H → Call H) → Call H
then_on (done true h) k = k h
then_on (done false h) k = done false h
then_on unfinished k = unfinished

abbrev pub ended : {H : Type 0} → Bool × H → Call H
ended (result, h) = done result h
