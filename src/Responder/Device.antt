-- ===== src/Responder/Device.antt =====
-- `read_text_file`, `exec_capture_trim` and `handle_devinfo` of src/responder.c, and
-- `storage_statvfs_or_zero` and `usb_responder_storage_info_read` of src/file_ops.c.
pub mod Whole
use epass_usb_responder.Prelude.{
  ℕ, zero, suc, ◌+◌, ◌-◌, ◌*◌, ◌%◌, ◌^◌, min, Bool, true, false, not, ◌&&◌, ◌||◌, Option, none,
  some, List, [], ◌∷◌, ◌++◌, ltb, leb, ◌==◌, if◌then◌else◌, length, take,
}
use epass_usb_responder.Outcome.{Outcome, ok, failed, fault, ◌>>=◌, ◌>>◌, require, filled}
use epass_usb_responder.Text.{c_string, codes}
use epass_usb_responder.Protocol.Frame.{Frame}
use epass_usb_responder.Protocol.Kv.{Kv}
use epass_usb_responder.Files.Host.{Host}
use epass_usb_responder.Files.Read.{decimal}
use epass_usb_responder.Shell.{ExecOptions, Executed, result, refused, killed, exec_shell}
use epass_usb_responder.Responder.Reply.{msg_devinfo, Reply, stuck, overrun, pair, send_kv_response}
use epass_usb_responder.Responder.Commands.{CommandRun}

-- A newline, a carriage return, a space or a tab.
unfoldable pub is_space : ℕ → Bool
is_space c = c == 10 || (c == 13 || (c == 32 || c == 9))

abbrev pub is_empty : List ℕ → Bool
is_empty [] = true
is_empty (b ∷ bs) = false

-- The loop that takes white space off the end.
unfoldable pub trim_end : List ℕ → List ℕ
trim_end [] = []
trim_end (b ∷ bs) = let rest = trim_end bs in if is_space b && is_empty rest then [] else b ∷ rest

module _ (malloc : ℕ → Bool) (max_bytes : ℕ) (content : List ℕ) where
  -- One round of the loop of `read_text_file` once `cap` is settled; `next` is the rest of it. `fread`
  -- gives what it is asked for, or all that is left.
  unfoldable pub read_round : (ℕ → Outcome (ℕ × ℕ)) → ℕ → ℕ → Outcome (ℕ × ℕ)
  read_round next cap used =
      let want = cap - 1 - used in
      let got = min want (length content - used) in
      if ltb got want
      then ok (used + got, cap)
      else if leb max_bytes (used + got)
      then ok (used + got, cap)
      else next (used + got)

  -- The loop: how many bytes are used, and the capacity. Each round that goes on reads a byte at least,
  -- so more fuel than `max_bytes` is enough.
  unfoldable pub read_text : ℕ → ℕ → ℕ → Outcome (ℕ × ℕ)
  read_text zero cap used = fault
  read_text (suc fuel) cap used =
      let new_cap = min (cap * 2) (max_bytes + 1) in
      let enlarged = (do
        require (malloc new_cap)
        read_round (read_text fuel new_cap) new_cap used) in
      if leb cap (used + 1)
      then (if new_cap == cap then ok (used, cap) else enlarged)
      else read_round (read_text fuel cap) cap used

-- The text up to the first NUL, without white space at its end; `content` is what the file holds, none
-- where it cannot be opened.
unfoldable pub read_text_file : (ℕ → Bool) → ℕ → Option (List ℕ) → Outcome (List ℕ)
read_text_file malloc max_bytes none = failed
read_text_file malloc max_bytes (some content) = do
  require (malloc 1024)
  end ← read_text malloc max_bytes content (suc max_bytes) 1024 0
  terminated ← filled end.1 (take end.0 content ++ 0 ∷ [])
  ok (trim_end (c_string (take end.0 content)))

-- What `exec_capture_trim` returns: text, or false; or the command never returns, or more is read than
-- was asked for.
pub data Captured : Type 0 where
  captured : List ℕ → Captured
  not_captured unfinished overread : Captured

unfoldable pub captured_of : (ℕ → Bool) → Executed → Captured
captured_of malloc (result r) =
    if r.timed_out || not (r.exit_code == 0)
    then not_captured
    else if not (malloc (length r.stdout_data + 1))
    then not_captured
    else captured (trim_end r.stdout_data)
captured_of malloc refused = not_captured
captured_of malloc killed = not_captured
captured_of malloc Executed.unfinished = unfinished
captured_of malloc Executed.overrun = overread

unfoldable pub exec_capture_trim : (ℕ → Bool) → (ℕ → Bool) → List ℕ → ℕ → CommandRun → Captured
exec_capture_trim malloc realloc cmdline timeout_ms run = captured_of malloc (
    exec_shell realloc (record { timeout_ms = timeout_ms; max_stdout = 4096; max_stderr = 4096 })
      (some cmdline) run.start run.stop run.launch run.rounds)

-- `usb_responder_storage_info_t`
pub record StorageInfo : Type 0 where
  pub sd_mounted : Bool
  pub nand_total_bytes : ℕ
  pub nand_free_bytes : ℕ
  pub sd_total_bytes : ℕ
  pub sd_free_bytes : ℕ

-- The fields of `struct statvfs` that are read.
pub record VfsStatus : Type 0 where
  pub block_size : ℕ
  pub blocks : ℕ
  pub available : ℕ

-- Products of two `uint64_t`, or zeros.
unfoldable pub statvfs_or_zero : Option VfsStatus → ℕ × ℕ
statvfs_or_zero none = (0, 0)
statvfs_or_zero (some v) = (v.blocks * v.block_size % 2 ^ 64, v.available * v.block_size % 2 ^ 64)

unfoldable pub storage_info_read : Bool → Option VfsStatus → Option VfsStatus → StorageInfo
storage_info_read sd_mounted root sd =
    let nand = statvfs_or_zero root in
    let card = if sd_mounted then statvfs_or_zero sd else (0, 0) in
    record {
      sd_mounted = sd_mounted;
      nand_total_bytes = nand.0;
      nand_free_bytes = nand.1;
      sd_total_bytes = card.0;
      sd_free_bytes = card.1;
    }

-- What the kernel shows of the device: two files, the release that `uname` gives, what it does with
-- the version command, and the two file systems.
pub record Device : Type 0 where
  pub model : Option (List ℕ)
  pub os_release : Option (List ℕ)
  pub kernel : Option (List ℕ)
  pub version_run : CommandRun
  pub root : Option VfsStatus
  pub sd : Option VfsStatus

-- `strdup("")` where a text cannot be read.
abbrev pub text_or_empty : Outcome (List ℕ) → (List ℕ → Reply) → Reply
text_or_empty (ok t) k = k t
text_or_empty failed k = k []
text_or_empty fault k = overrun

abbrev pub captured_or_empty : Captured → (List ℕ → Reply) → Reply
captured_or_empty (captured t) k = k t
captured_or_empty not_captured k = k []
captured_or_empty unfinished k = stuck
captured_or_empty overread k = overrun

-- `snprintf(kernel_buf, sizeof(kernel_buf), "%s", un.release)`
abbrev kernel_text : Option (List ℕ) → List ℕ
kernel_text none = []
kernel_text (some release) = take 127 release

unfoldable pub device_kvs : List ℕ → List ℕ → List ℕ → List ℕ → StorageInfo → List Kv
device_kvs model kernel rootfs app storage =
    pair (codes "model") model
    ∷ pair (codes "kernel") kernel
    ∷ pair (codes "rootfs") rootfs
    ∷ pair (codes "app") app
    ∷ pair (codes "sd_mounted") (if storage.sd_mounted then codes "1" else codes "0")
    ∷ pair (codes "nand_total_bytes") (decimal storage.nand_total_bytes)
    ∷ pair (codes "nand_free_bytes") (decimal storage.nand_free_bytes)
    ∷ pair (codes "sd_total_bytes") (decimal storage.sd_total_bytes)
    ∷ pair (codes "sd_free_bytes") (decimal storage.sd_free_bytes)
    ∷ []

-- `sd_mounted` is what `is_sd_mounted` says.
unfoldable pub handle_devinfo : (ℕ → Bool) → (ℕ → Bool) → Bool → Device → Frame → Reply
handle_devinfo malloc realloc sd_mounted device frame =
    text_or_empty (read_text_file malloc 4096 device.model) λ model.
      text_or_empty (read_text_file malloc 8192 device.os_release) λ rootfs.
        captured_or_empty
          (exec_capture_trim malloc realloc (codes "/root/epass_drm_app version") 3000
            device.version_run)
          λ app. send_kv_response realloc msg_devinfo frame.header.request_id (
            device_kvs model (kernel_text device.kernel) rootfs app
              (storage_info_read sd_mounted device.root device.sd))
