-- ===== src/Files/Upload.antt =====
-- Upload sessions of src/file_ops.c. The calls of the C library and of the kernel are a record of
-- functions on a state of theirs; `fopen` gives a number for its FILE. A session behind a pointer is
-- its number in the table and its fields, which are written back where the function is done with
-- them. Counts of bytes are far below the limit of `uint64_t`, whose wrap is not modelled.
pub mod Table
pub mod Refines
pub mod Begin
pub mod Reachable
pub mod Paced
use epass_usb_responder.Prelude.{
  ℕ, zero, suc, ◌+◌, ◌-◌, ◌^◌, Bool, true, false, not, ◌&&◌, ◌||◌, Option, none, some, List, [],
  ◌∷◌, ◌++◌, ltb, leb, ◌==◌, if◌then◌else◌, length, take,
}
use epass_usb_responder.Files.Host.{Host}
use epass_usb_responder.Files.Paths.{
  Storage, nand, sd, built, traversal, too_long, out_of_fuel, path_max_len, build_path,
  path_storage_matches_desire,
}

abbrev pub max_upload_sessions : ℕ
max_upload_sessions = 16

abbrev pub sync_interval : ℕ
sync_interval = 2 ^ 20

pub record Session : Type 0 where
  pub used : Bool
  pub transfer_id : ℕ
  pub relative_path : List ℕ
  pub temp_path : List ℕ
  pub final_path : List ℕ
  pub fp : Option ℕ
  pub bytes_written : ℕ
  pub synced_bytes : ℕ
  pub apply_perm : Bool
  pub file_mode : ℕ

-- After `memset(session, 0, sizeof(*session))`.
abbrev pub zeroed : Session
zeroed = record {
  used = false;
  transfer_id = 0;
  relative_path = [];
  temp_path = [];
  final_path = [];
  fp = none;
  bytes_written = 0;
  synced_bytes = 0;
  apply_perm = false;
  file_mode = 0;
}

abbrev pub zeroed_sessions : ℕ → List Session
zeroed_sessions zero = []
zeroed_sessions (suc n) = zeroed ∷ zeroed_sessions n

unfoldable pub file_ops_init : List Session
file_ops_init = zeroed_sessions max_upload_sessions

-- `ops->sessions[i] = s`
unfoldable pub update_at : List Session → ℕ → Session → List Session
update_at [] i s = []
update_at (x ∷ xs) zero s = s ∷ xs
update_at (x ∷ xs) (suc i) s = x ∷ update_at xs i s

abbrev pub one_further : Option (ℕ × Session) → Option (ℕ × Session)
one_further none = none
one_further (some (i, s)) = some (suc i, s)

unfoldable pub find_session : List Session → ℕ → Option (ℕ × Session)
find_session [] transfer_id = none
find_session (s ∷ sessions) transfer_id =
    let rest = find_session sessions transfer_id in
    if s.used && s.transfer_id == transfer_id then some (0, s) else one_further rest

unfoldable pub alloc_session : List Session → Option (ℕ × Session)
alloc_session [] = none
alloc_session (s ∷ sessions) =
    let rest = alloc_session sessions in
    if not s.used then some (0, record s { used = true }) else one_further rest

-- The counters after `size` more bytes.
unfoldable pub advanced : Session → ℕ → Session
advanced s size =
    let written = s.bytes_written + size in
    record s {
      bytes_written = written;
      synced_bytes =
          if leb sync_interval (written - s.synced_bytes) then written else s.synced_bytes;
    }

-- What a call returns, and the sessions and the host's state after it.
pub record Done (H : Type 0) : Type 0 where
  pub result : Bool
  pub sessions : List Session
  pub host : H

-- A session while `begin_upload` fills it: it goes on, or the call returns false.
pub data Attempt : Type 0 where
  go stop : Session → Attempt

infixl 5 ◌>>=◌
abbrev pub ◌>>=◌ : Attempt → (Session → Attempt) → Attempt
go s >>= k = k s
stop s >>= k = stop s

abbrev pub part_suffix : List ℕ
part_suffix = b'.' ∷ b'p' ∷ b'a' ∷ b'r' ∷ b't' ∷ []

module _ {H : Type 0} (io : Host H) where
  -- `parse_perm_octal` on a text of one byte or more.
  unfoldable pub parse_perm_octal : List ℕ → Option ℕ
  parse_perm_octal perm =
      let val = (io.strtoul perm).0 in
      let end = (io.strtoul perm).1 in
      if end == 0 || not (end == length perm) || ltb 0o7777 val then none else some val

  unfoldable pub ensure_storage_writeable : Storage → H → Bool
  ensure_storage_writeable nand h = true
  ensure_storage_writeable sd h = io.is_sd_mounted h

  unfoldable pub set_perm : Option (List ℕ) → Session → Attempt
  set_perm none s = go (record s { apply_perm = false; file_mode = 0o644 })
  set_perm (some []) s = go (record s { apply_perm = false; file_mode = 0o644 })
  set_perm (some (c ∷ perm)) s = elim (parse_perm_octal (c ∷ perm)) [
    | none ↦ stop (record s { apply_perm = false; file_mode = 0o644 })
    | some mode ↦ go (record s { apply_perm = true; file_mode = mode })
  ]

  -- Where `build_path` fails, what it has left in `final_path` is not modelled.
  unfoldable pub set_final_path : H → List ℕ → Option (List ℕ) → Session → Attempt
  set_final_path h relative desire s = elim (build_path path_max_len relative) [
    | built path storage ↦
        if path_storage_matches_desire storage desire && ensure_storage_writeable storage h
        then go (record s { final_path = path })
        else stop (record s { final_path = path })
    | traversal ↦ stop s
    | too_long ↦ stop s
    | out_of_fuel ↦ stop s
  ]

  -- The two calls of `snprintf`, which cut what does not fit.
  unfoldable pub set_relative_path : List ℕ → Session → Attempt
  set_relative_path relative s =
      let s' = record s { relative_path = take (path_max_len - 1) relative } in
      if leb path_max_len (length relative) then stop s' else go s'

  unfoldable pub set_temp_path : Session → Attempt
  set_temp_path s =
      let temp = s.final_path ++ part_suffix in
      let s' = record s { temp_path = take (path_max_len - 1) temp } in
      if leb path_max_len (length temp) then stop s' else go s'

  -- `begin_upload` on the session that was allocated: the result, the session and the host after it.
  unfoldable pub open_session : ℕ → H → Attempt → Bool × Session × H
  open_session transfer_id h (stop s) = (false, record s { used = false }, h)
  open_session transfer_id h (go s) = elim (io.fopen h s.temp_path) [
    | none ↦ (false, record s { fp = none; used = false }, h)
    | some (fp, h') ↦ (
      true,
      record s { fp = some fp; transfer_id = transfer_id; bytes_written = 0; synced_bytes = 0 },
      h',
    )
  ]

  unfoldable pub close_file : H → Session → H
  close_file h s = elim s.fp [ none ↦ h | some fp ↦ io.fclose h fp ]

  -- `abort_upload` once the session is found.
  unfoldable pub abort_found : List Session → H → Option (ℕ × Session) → Done H
  abort_found sessions h none = record { result = false; sessions = sessions; host = h }
  abort_found sessions h (some (i, s)) = record {
    result = true;
    sessions = update_at sessions i zeroed;
    host = (io.unlink (close_file h s) s.temp_path).1;
  }

  unfoldable pub abort_upload : List Session → H → ℕ → Done H
  abort_upload sessions h transfer_id = abort_found sessions h (find_session sessions transfer_id)

  -- What `begin_upload` does to the session that `alloc_session` gives.
  unfoldable pub begin_allocated :
      List Session
      → H
      → ℕ
      → List ℕ
      → Option (List ℕ)
      → Option (List ℕ)
      → Option (ℕ × Session)
      → Done H
  begin_allocated sessions h transfer_id relative desire perm none = record {
    result = false;
    sessions = sessions;
    host = h;
  }
  begin_allocated sessions h transfer_id relative desire perm (some (i, s)) =
      let r = open_session transfer_id h (
        set_perm perm s
        >>= set_final_path h relative desire
        >>= set_relative_path relative
        >>= set_temp_path) in
      record { result = r.0; sessions = update_at sessions i r.1; host = r.2 }

  -- A session that has the identifier is aborted first; `abort_upload` does nothing without one.
  unfoldable pub begin_upload :
      List Session → H → ℕ → List ℕ → Option (List ℕ) → Option (List ℕ) → Done H
  begin_upload sessions h transfer_id relative desire perm =
      let cleared = abort_upload sessions h transfer_id in
      begin_allocated cleared.sessions cleared.host transfer_id relative desire perm
        (alloc_session cleared.sessions)

  unfoldable pub append_to : List Session → H → List ℕ → ℕ → Session → Option ℕ → Done H
  append_to sessions h bytes i s none = record { result = false; sessions = sessions; host = h }
  append_to sessions h bytes i s (some fp) =
      let w = io.fwrite h fp bytes in
      let paced =
        if leb sync_interval (s.bytes_written + length bytes - s.synced_bytes)
        then io.write_back w.1 fp
        else w.1 in
      if w.0
      then record {
        result = true;
        sessions = update_at sessions i (advanced s (length bytes));
        host = paced;
      }
      else record { result = false; sessions = sessions; host = w.1 }

  unfoldable pub append_found : List Session → H → List ℕ → Option (ℕ × Session) → Done H
  append_found sessions h bytes none = record { result = false; sessions = sessions; host = h }
  append_found sessions h bytes (some (i, s)) = append_to sessions h bytes i s s.fp

  unfoldable pub append_upload_chunk : List Session → H → ℕ → List ℕ → Done H
  append_upload_chunk sessions h transfer_id bytes =
      if length bytes == 0
      then record { result = false; sessions = sessions; host = h }
      else append_found sessions h bytes (find_session sessions transfer_id)

  -- The calls after `fclose`: rename, and chmod where a mode was given.
  unfoldable pub publish : H → Session → Bool × H
  publish h s =
      let renamed = io.rename h s.temp_path s.final_path in
      let changed = io.chmod renamed.1 s.final_path s.file_mode in
      if not renamed.0
      then (false, (io.unlink renamed.1 s.temp_path).1)
      else if not s.apply_perm
      then (true, renamed.1)
      else if changed.0
      then (true, changed.1)
      else (false, (io.unlink changed.1 s.final_path).1)

  unfoldable pub finish_found : List Session → H → Option (ℕ × Session) → Done H
  finish_found sessions h none = record { result = false; sessions = sessions; host = h }
  finish_found sessions h (some (i, s)) =
      let r = publish (close_file h s) s in
      record { result = r.0; sessions = update_at sessions i zeroed; host = r.1 }

  unfoldable pub finish_upload : List Session → H → ℕ → Done H
  finish_upload sessions h transfer_id = finish_found sessions h (find_session sessions transfer_id)

  -- `file_ops_shutdown`: the files of the sessions that are used are closed and removed.
  unfoldable pub close_sessions : List Session → H → H
  close_sessions [] h = h
  close_sessions (s ∷ sessions) h =
      close_sessions sessions (if s.used then (io.unlink (close_file h s) s.temp_path).1 else h)

  unfoldable pub file_ops_shutdown : List Session → H → Done H
  file_ops_shutdown sessions h = record {
    result = true;
    sessions = file_ops_init;
    host = close_sessions sessions h;
  }
