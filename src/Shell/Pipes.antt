-- ===== src/Shell/Pipes.antt =====
-- What one `poll` and the reads behind it do in src/shell_exec.c where no call fails.
use epass_usb_responder.Prelude.{
  ℕ, ◌+◌, ◌-◌, ◌≤◌, ◌≡◌, refl, sym, ap, ◌∙◌, Bool, true, false, ◌||◌, Option, none, some, List, [],
  ◌∷◌, ◌++◌, arith, ltb, leb, ◌==◌, if◌then◌else◌, length, take, take_all, take-append,
  take-append_left, length-take, Bool-cases, inl, inr, length-append, append-nil,
}
use epass_usb_responder.Outcome.{ok, filled-eq-ok}
use epass_usb_responder.Shell.{
  ExecOptions, append_limited, PipeRead, got, try_again, read_failed, Polled, interrupted,
  poll_failed, ready, Waited, not_yet, exited, signalled, Exec, tmp_size, read_stdout, read_stderr,
  on_event, read_pipes,
}

-- `realloc` grants every request.
abbrev pub IsGranted : (ℕ → Bool) → Type 0
IsGranted realloc = (n : ℕ) → realloc n ≡ true

-- A `read` that does not fail and gives no more than it was asked for.
abbrev pub IsCalmRead : Option PipeRead → Type 0
IsCalmRead none = Unit
IsCalmRead (some (got bytes)) = length bytes ≤ tmp_size
IsCalmRead (some try_again) = Unit
IsCalmRead (some read_failed) = ⊥

abbrev pub out_of : Polled → Option PipeRead
out_of (ready out err) = out
out_of interrupted = none
out_of poll_failed = none

abbrev pub err_of : Polled → Option PipeRead
err_of (ready out err) = err
err_of interrupted = none
err_of poll_failed = none

abbrev pub IsCalmPoll : Polled → Type 0
IsCalmPoll interrupted = Unit
IsCalmPoll poll_failed = ⊥
IsCalmPoll (ready out err) = IsCalmRead out × IsCalmRead err

-- Whether a pipe stays open, and what is kept of its data.
abbrev pub open_after : Bool → Option PipeRead → Bool
open_after is_open none = is_open
open_after is_open (some (got [])) = false
open_after is_open (some (got (b ∷ bytes))) = is_open
open_after is_open (some try_again) = is_open
open_after is_open (some read_failed) = is_open

abbrev pub data_after : ℕ → Bool → List ℕ → Option PipeRead → List ℕ
data_after max is_open data' none = data'
data_after max is_open data' (some (got [])) = data'
data_after max is_open data' (some (got (b ∷ bytes))) =
    if is_open then take max (data' ++ b ∷ bytes) else data'
data_after max is_open data' (some try_again) = data'
data_after max is_open data' (some read_failed) = data'

pub open_after-closed : (e : Option PipeRead) → open_after false e ≡ false
open_after-closed none = refl
open_after-closed (some (got [])) = refl
open_after-closed (some (got (b ∷ bytes))) = refl
open_after-closed (some try_again) = refl
open_after-closed (some read_failed) = refl

pub data_after-closed :
    (max : ℕ) (data' : List ℕ) (e : Option PipeRead) → data_after max false data' e ≡ data'
data_after-closed max data' none = refl
data_after-closed max data' (some (got [])) = refl
data_after-closed max data' (some (got (b ∷ bytes))) = refl
data_after-closed max data' (some try_again) = refl
data_after-closed max data' (some read_failed) = refl

pub both_closed : (a b : Bool) → a || b ≡ false → (a ≡ false) × (b ≡ false)
both_closed false false e = (refl, refl)
both_closed false true e = absurd (ground arith)
both_closed true b e = absurd (ground arith)

abbrev pub is_reaped : Waited → Bool
is_reaped not_yet = false
is_reaped (exited code) = true
is_reaped (signalled number) = true

abbrev pub waited_code : Waited → ℕ → ℕ
waited_code not_yet code = code
waited_code (exited status) code = status
waited_code (signalled number) code = 128 + number

append_limited-eq :
    (realloc : ℕ → Bool) (dst src : List ℕ) (max : ℕ)
    → IsGranted realloc
    → length dst ≤ max
    → append_limited realloc dst src max ≡ ok (take max (dst ++ src))
unfolding append_limited
append_limited-eq realloc dst src max granted fits = elim (Bool-cases (leb max (length dst))) [
  | inl full ↦ rw full (ap ok (sym (take-append dst src max (ground arith))))
  | inr room ↦ elim (Bool-cases (ltb max (length dst + length src))) [
    | inl over ↦
        let some_room : ((max - length dst) == 0) ≡ false = ground arith in
        rw
          (
            room,
            over,
            some_room,
            granted (length dst + (max - length dst)),
            filled-eq-ok (length dst + (max - length dst)) (dst ++ take (max - length dst) src) (
                omega (
                  arith,
                  length-append dst (take (max - length dst) src),
                  length-take (max - length dst) src,
                )),
          )
          (ap ok (sym cut))
    | inr under ↦ elim (Bool-cases (length src == 0)) [
      | inl nothing ↦
          rw (room, under, nothing)
            (ap ok (
              sym (
                cut
                ∙ (ap (λ zs. dst ++ zs)
                      (take_all src (max - length dst) (ground arith)
                        ∙ sym (take_all src 0 (ground arith)))
                    ∙ append-nil dst))))
      | inr something ↦
          rw
            (
              room,
              under,
              something,
              granted (length dst + length src),
              filled-eq-ok (length dst + length src) (dst ++ take (length src) src) (
                  omega (
                    arith,
                    length-append dst (take (length src) src),
                    length-take (length src) src,
                  )),
            )
            (ap ok (
              ap (λ zs. dst ++ zs) (take_all src (length src) (omega arith))
              ∙ sym (take_all (dst ++ src) max (ground (arith, length-append dst src)))))
    ]
  ]
]
  where
    cut : take max (dst ++ src) ≡ dst ++ take (max - length dst) src
    cut = take-append_left dst src max fits

module _ (realloc : ℕ → Bool) (granted : IsGranted realloc) (options : ExecOptions) where
  read_stdout-eq :
      (s : Exec) (is_open : Bool) (e : Option PipeRead)
      → s.out_open ≡ is_open
      → IsCalmRead e
      → length s.stdout_data ≤ options.max_stdout
      → on_event (read_stdout realloc options) s.out_open e s
        ≡ ok (record s {
          out_open = open_after is_open e;
          stdout_data = data_after options.max_stdout is_open s.stdout_data e;
        })
  unfolding read_stdout
  read_stdout-eq s false none o calm fits = rw o refl
  read_stdout-eq s false (some (got [])) o calm fits = rw o refl
  read_stdout-eq s false (some (got (b ∷ bytes))) o calm fits = rw o refl
  read_stdout-eq s false (some try_again) o calm fits = rw o refl
  read_stdout-eq s false (some read_failed) o calm fits = elim calm [ ]
  read_stdout-eq s true none o calm fits = rw o refl
  read_stdout-eq s true (some (got [])) o calm fits = rw o refl
  read_stdout-eq s true (some (got (b ∷ bytes))) o calm fits =
      rw
        (
          o,
          filled-eq-ok tmp_size (b ∷ bytes) calm,
          append_limited-eq realloc s.stdout_data (b ∷ bytes) options.max_stdout granted fits,
        )
        refl
  read_stdout-eq s true (some try_again) o calm fits = rw o refl
  read_stdout-eq s true (some read_failed) o calm fits = elim calm [ ]

  read_stderr-eq :
      (s : Exec) (is_open : Bool) (e : Option PipeRead)
      → s.err_open ≡ is_open
      → IsCalmRead e
      → length s.stderr_data ≤ options.max_stderr
      → on_event (read_stderr realloc options) s.err_open e s
        ≡ ok (record s {
          err_open = open_after is_open e;
          stderr_data = data_after options.max_stderr is_open s.stderr_data e;
        })
  unfolding read_stderr
  read_stderr-eq s false none o calm fits = rw o refl
  read_stderr-eq s false (some (got [])) o calm fits = rw o refl
  read_stderr-eq s false (some (got (b ∷ bytes))) o calm fits = rw o refl
  read_stderr-eq s false (some try_again) o calm fits = rw o refl
  read_stderr-eq s false (some read_failed) o calm fits = elim calm [ ]
  read_stderr-eq s true none o calm fits = rw o refl
  read_stderr-eq s true (some (got [])) o calm fits = rw o refl
  read_stderr-eq s true (some (got (b ∷ bytes))) o calm fits =
      rw
        (
          o,
          filled-eq-ok tmp_size (b ∷ bytes) calm,
          append_limited-eq realloc s.stderr_data (b ∷ bytes) options.max_stderr granted fits,
        )
        refl
  read_stderr-eq s true (some try_again) o calm fits = rw o refl
  read_stderr-eq s true (some read_failed) o calm fits = elim calm [ ]

  pub read_pipes-eq :
      (s : Exec) (polled : Polled)
      → IsCalmPoll polled
      → length s.stdout_data ≤ options.max_stdout
      → length s.stderr_data ≤ options.max_stderr
      → read_pipes realloc options s polled
        ≡ ok (record s {
          out_open = open_after s.out_open (out_of polled);
          stdout_data = data_after options.max_stdout s.out_open s.stdout_data (out_of polled);
          err_open = open_after s.err_open (err_of polled);
          stderr_data = data_after options.max_stderr s.err_open s.stderr_data (err_of polled);
        })
  unfolding read_pipes
  read_pipes-eq s interrupted calm fo fe = refl
  read_pipes-eq s poll_failed calm fo fe = elim calm [ ]
  read_pipes-eq s (ready out err) calm fo fe = rw (read_stdout-eq s s.out_open out refl calm.0 fo) (
      read_stderr-eq
        (record s {
          out_open = open_after s.out_open out;
          stdout_data = data_after options.max_stdout s.out_open s.stdout_data out;
        })
        s.err_open err refl calm.1 fe)
