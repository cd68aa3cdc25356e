-- ===== src/Protocol/Report/RoundTrip.antt =====
-- `encode_command_result` of src/protocol.c followed by `decode_command_result`.
use epass_usb_responder.Prelude.{
  ℕ, ◌+◌, ◌%◌, ◌^◌, ◌<◌, ◌≡◌, refl, ap, ◌∙◌, sym, true, Bool, Option, none, some, List, [], ◌++◌,
  ◌∷◌, ltb, length, length-append, arith, take_all, if◌then◌else◌, append_assoc,
}
use native.Mathlib.Nat.{mod-eq_of_lt}
use epass_usb_responder.Outcome.{
  ok, ◌>>=◌, load, slice, slice-eq-take, slice-middle, slice-end, filled-eq-ok,
}
use epass_usb_responder.Protocol.Words.{read_le32, write_le32, word32-write}
use epass_usb_responder.Protocol.Frame.{pointee}
use epass_usb_responder.Protocol.Report.{
  CommandResult, flag_byte, result_bytes, encode_command_result, decode_command_result, copy_stream,
}

-- The words fit, and each stream has the announced size.
pub record IsResult (size_mod : ℕ) (r : CommandResult) : Type 0 where
  pub exit_code_fits : r.exit_code < 2 ^ 32
  pub duration_fits : r.duration_ms < 2 ^ 32
  pub stdout_fits : r.stdout_size < 2 ^ 32
  pub stderr_fits : r.stderr_size < 2 ^ 32
  pub size_fits : 20 + r.stdout_size + r.stderr_size < size_mod
  pub stdout_announced : length (pointee r.stdout_data) ≡ r.stdout_size
  pub stderr_announced : length (pointee r.stderr_data) ≡ r.stderr_size

-- An empty stream is sent as none.
abbrev pub stream : Option (List ℕ) → ℕ → Option (List ℕ)
stream p n = if ltb 0 n then p else none

abbrev pub received : CommandResult → CommandResult
received r = record r {
  stdout_data = stream r.stdout_data r.stdout_size;
  stderr_data = stream r.stderr_data r.stderr_size;
}

module _ (r : CommandResult) (out err : List ℕ) where
  abbrev head : List ℕ
  head =
      write_le32 r.exit_code
      ++ ((flag_byte r.timed_out ∷ 0 ∷ 0 ∷ 0 ∷ [])
          ++ (write_le32 r.duration_ms
              ++ (write_le32 (r.stdout_size % 2 ^ 32) ++ write_le32 (r.stderr_size % 2 ^ 32))))

  split_head : result_bytes r out err ≡ head ++ (out ++ err)
  split_head = simp append_assoc

  length-head : length head ≡ 20
  unfolding write_le32
  length-head = refl

  length-result_bytes : length (result_bytes r out err) ≡ 20 + length out + length err
  length-result_bytes =
      rw split_head
        (omega (arith, length-append head (out ++ err), length-append out err, length-head))

  read_words :
      r.exit_code < 2 ^ 32
      → r.duration_ms < 2 ^ 32
      → r.stdout_size < 2 ^ 32
      → r.stderr_size < 2 ^ 32
      → (read_le32 (result_bytes r out err) 0 ≡ ok r.exit_code)
        × (load (result_bytes r out err) 4 ≡ ok (flag_byte r.timed_out))
        × (read_le32 (result_bytes r out err) 8 ≡ ok r.duration_ms)
        × (read_le32 (result_bytes r out err) 12 ≡ ok r.stdout_size)
        × (read_le32 (result_bytes r out err) 16 ≡ ok r.stderr_size)
  unfolding read_le32 write_le32 load
  read_words h1 h2 h3 h4 = (
    ap ok (word32-write r.exit_code h1),
    refl,
    ap ok (word32-write r.duration_ms h2),
    ap ok (word32-write (r.stdout_size % 2 ^ 32) (omega arith) ∙ omega arith),
    ap ok (word32-write (r.stderr_size % 2 ^ 32) (omega arith) ∙ omega arith),
  )

copy_stream-eq :
    (malloc : ℕ → Bool) (payload : List ℕ) (off n : ℕ) (p : Option (List ℕ))
    → malloc n ≡ true
    → length (pointee p) ≡ n
    → slice payload off n ≡ ok (pointee p)
    → copy_stream malloc payload off n ≡ ok (stream p n)
unfolding copy_stream
copy_stream-eq malloc payload off n none granted size e = ground arith
copy_stream-eq malloc payload off n (some bytes) granted size e = ground arith

module _ (size_mod : ℕ) (malloc : ℕ → Bool) (r : CommandResult) (w : IsResult size_mod r) where
  abbrev out : List ℕ
  out = pointee r.stdout_data

  abbrev err : List ℕ
  err = pointee r.stderr_data

  abbrev pub sent : List ℕ
  sent = result_bytes r out err

  pub length-sent : length sent ≡ 20 + r.stdout_size + r.stderr_size
  length-sent = omega (arith, length-result_bytes r out err, w.stdout_announced, w.stderr_announced)

  pub encode-eq-sent :
      malloc (20 + r.stdout_size + r.stderr_size) ≡ true
      → encode_command_result size_mod malloc r ≡ ok sent
  unfolding encode_command_result
  encode-eq-sent granted = ground (
    arith,
    w.size_fits,
    mod-eq_of_lt w.size_fits,
    slice-eq-take out 0 r.stdout_size,
    slice-eq-take err 0 r.stderr_size,
    take_all out r.stdout_size,
    take_all err r.stderr_size,
    length-sent,
    filled-eq-ok (20 + r.stdout_size + r.stderr_size) sent,
  )

  out_sliced : slice sent 20 r.stdout_size ≡ ok out
  out_sliced = rw split_head (
      slice-middle (head r out err) out err 20 r.stdout_size (sym (length-head r out err))
        (sym w.stdout_announced))

  err_sliced : slice sent (20 + r.stdout_size) r.stderr_size ≡ ok err
  err_sliced =
      rw (split_head, ← append_assoc (head r out err) out err)
        (slice-end (head r out err ++ out) err (20 + r.stdout_size) r.stderr_size
          (omega
            (arith, length-append (head r out err) out, length-head r out err, w.stdout_announced))
          (sym w.stderr_announced))

  -- A command result whose words fit and whose streams have the announced sizes is decoded to what
  -- was encoded, where its size is a `size_t` and the allocator grants every request.
  pub decode_command_result-encode :
      ((n : ℕ) → malloc n ≡ true)
      → (encode_command_result size_mod malloc r >>= decode_command_result size_mod malloc)
        ≡ ok (received r)
  unfolding decode_command_result
  decode_command_result-encode all =
      rw
        (
          encode-eq-sent (all (20 + r.stdout_size + r.stderr_size)),
          words.0,
          words.1,
          words.2,
          words.3,
          words.4,
          copy_stream-eq malloc sent 20 r.stdout_size r.stdout_data (all r.stdout_size)
              w.stdout_announced out_sliced,
          copy_stream-eq malloc sent (20 + r.stdout_size) r.stderr_size r.stderr_data
              (all r.stderr_size) w.stderr_announced err_sliced,
          length-sent,
          mod-eq_of_lt w.size_fits,
        )
        (ground arith)
    where
      words :
          (read_le32 sent 0 ≡ ok r.exit_code)
          × (load sent 4 ≡ ok (flag_byte r.timed_out))
          × (read_le32 sent 8 ≡ ok r.duration_ms)
          × (read_le32 sent 12 ≡ ok r.stdout_size)
          × (read_le32 sent 16 ≡ ok r.stderr_size)
      words = read_words r out err w.exit_code_fits w.duration_fits w.stdout_fits w.stderr_fits
