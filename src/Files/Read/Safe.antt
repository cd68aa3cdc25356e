-- ===== src/Files/Read/Safe.antt =====
-- `usb_responder_file_read` and `usb_responder_file_stat` of src/file_ops.c stay inside their buffers.
use epass_usb_responder.Prelude.{
  ℕ, ◌≢◌, refl, Bool, ◌&&◌, not, Option, none, some, List, ltb, length, take,
}
use epass_usb_responder.Outcome.{
  fault, bind-ne-fault, ok-ne-fault, require-ne-fault, fail_if-ne-fault,
}
use epass_usb_responder.Files.Host.{Host, Status, Readable}
use epass_usb_responder.Files.Paths.{
  Built, built, traversal, too_long, out_of_fuel, path_max_len, build_path,
}
use epass_usb_responder.Files.Paths.Accepts.{build_path-ne-out_of_fuel}
use epass_usb_responder.Files.Read.{
  read_sized, told, read_opened, read_built, file_read, stat_info, stat_built, file_stat,
}

read_opened-ne-fault : (malloc : ℕ → Bool) (r : Option Readable) → read_opened malloc r ≢ fault
unfolding read_opened read_sized
read_opened-ne-fault malloc none = λ e. cc
read_opened-ne-fault malloc (some f) = bind-ne-fault _ _ (require-ne-fault f.seek_end) λ u.
    bind-ne-fault _ _ (told-ne-fault f.tell) λ size.
      bind-ne-fault _ _ (require-ne-fault f.seek_set) λ u.
        bind-ne-fault _ _ (fail_if-ne-fault (ltb 0 size && not (malloc size))) λ u.
          bind-ne-fault _ _ (fail_if-ne-fault (ltb 0 size && ltb (length f.content) size))
            λ u. ok-ne-fault (take size f.content)
  where
    told-ne-fault : (o : Option ℕ) → told o ≢ fault
    told-ne-fault none = λ e. cc
    told-ne-fault (some n) = λ e. cc

module _ {H : Type 0} (io : Host H) (h : H) where
  pub file_read-ne-fault :
      (malloc : ℕ → Bool) (relative : List ℕ) → file_read io h malloc relative ≢ fault
  unfolding file_read read_built
  file_read-ne-fault malloc relative =
      by_path (build_path path_max_len relative) (build_path-ne-out_of_fuel path_max_len relative)
    where
      by_path : (b : Built) → b ≢ out_of_fuel → read_built io h malloc b ≢ fault
      by_path (built path storage) ne = read_opened-ne-fault malloc (io.open_to_read h path)
      by_path traversal ne = λ e. cc
      by_path too_long ne = λ e. cc
      by_path out_of_fuel ne = absurd (ne refl)

  stat_info-ne-fault : (o : Option Status) → stat_info io h o ≢ fault
  unfolding stat_info
  stat_info-ne-fault none = λ e. cc
  stat_info-ne-fault (some st) = λ e. cc

  pub file_stat-ne-fault : (relative : List ℕ) → file_stat io h relative ≢ fault
  unfolding file_stat stat_built
  file_stat-ne-fault relative =
      by_path (build_path path_max_len relative) (build_path-ne-out_of_fuel path_max_len relative)
    where
      by_path : (b : Built) → b ≢ out_of_fuel → stat_built io h b ≢ fault
      by_path (built path storage) ne = stat_info-ne-fault (io.lstat h path)
      by_path traversal ne = λ e. cc
      by_path too_long ne = λ e. cc
      by_path out_of_fuel ne = absurd (ne refl)
