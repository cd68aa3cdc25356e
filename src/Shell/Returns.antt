-- ===== src/Shell/Returns.antt =====
-- When `usb_responder_exec_shell` of src/shell_exec.c returns, and with what.
use epass_usb_responder.Prelude.{
  ℕ, ◌+◌, ◌≤◌, ◌≡◌, refl, sym, ◌∙◌, Bool, true, false, ◌&&◌, ◌||◌, some, List, [], ◌∷◌, arith, leb,
  if◌then◌else◌, length, Bool-cases, inl, inr,
}
use epass_usb_responder.Shell.{
  ExecOptions, Round, Exec, started, is_going, Looped, ended, cleanup, unfinished, overrun,
  exec_loop, running, Executed, result, conclude, exec_shell,
}
use epass_usb_responder.Shell.Pipes.{IsGranted, out_of, err_of, is_reaped}
use epass_usb_responder.Shell.Rounds.{after, one_round-eq}
use epass_usb_responder.Shell.Heard.{
  AreCalm, heard, closes, reaped, status_code, overran, completes, completes_from, kept,
  closes-step, kept-step, data_after-fits, reaped-step, overran-step, code-step, all_stopped,
  never_ends, reported,
}

module _ (realloc : ℕ → Bool) (granted : IsGranted realloc) (options : ExecOptions)
    (deadline : ℕ) where
  -- The loop ends with this, or the rounds end before it.
  abbrev Ends : List Round → Exec → Looped → Type 0
  Ends rounds s (ended s') =
      (completes_from s rounds ≡ true)
      × (s'.stdout_data ≡ kept options.max_stdout s.out_open s.stdout_data (heard out_of rounds))
      × (s'.stderr_data ≡ kept options.max_stderr s.err_open s.stderr_data (heard err_of rounds))
      × (s'.exit_code ≡ (if s.child_running then status_code rounds s.exit_code else s.exit_code))
      × (s'.timed_out ≡ ((s.child_running && overran deadline rounds) || s.timed_out))
  Ends rounds s cleanup = ⊥
  Ends rounds s unfinished = completes_from s rounds ≡ false
  Ends rounds s overrun = ⊥

  completes-step :
      (round : Round) (rounds : List Round) (s : Exec)
      → completes_from (after realloc granted options deadline round s) rounds
        ≡ completes_from s (round ∷ rounds)
  completes-step round rounds s =
      rw
        (
          closes-step s.out_open (out_of round.polled) (closes out_of rounds),
          closes-step s.err_open (err_of round.polled) (closes err_of rounds),
          reaped-step s.child_running (is_reaped round.waited) (reaped rounds),
        )
        refl

  Ends-step :
      (round : Round) (rounds : List Round) (s : Exec) (l : Looped)
      → length s.stdout_data ≤ options.max_stdout
      → length s.stderr_data ≤ options.max_stderr
      → Ends rounds (after realloc granted options deadline round s) l
      → Ends (round ∷ rounds) s l
  Ends-step round rounds s (ended s') fo fe (c, o, e, x, t) = (
    sym (completes-step round rounds s) ∙ c,
    o
        ∙ kept-step options.max_stdout s.out_open s.stdout_data (out_of round.polled)
            (heard out_of rounds) fo,
    e
        ∙ kept-step options.max_stderr s.err_open s.stderr_data (err_of round.polled)
            (heard err_of rounds) fe,
    x ∙ code-step s.child_running round.waited rounds s.exit_code,
    t
        ∙ overran-step s.child_running (leb deadline round.now_ms) (is_reaped round.waited)
            (overran deadline rounds) s.timed_out,
  )
  Ends-step round rounds s cleanup fo fe l = l
  Ends-step round rounds s unfinished fo fe l = sym (completes-step round rounds s) ∙ l
  Ends-step round rounds s overrun fo fe l = l

  Ends-now : (rounds : List Round) (s : Exec) → is_going s ≡ false → Ends rounds s (ended s)
  Ends-now rounds s stopped =
      let (c, o, e) = all_stopped s.child_running s.out_open s.err_open stopped in
      (rw (c, o, e) refl, rw o refl, rw e refl, rw c refl, rw c refl)

  exec_loop-Ends :
      (rounds : List Round) (s : Exec)
      → AreCalm rounds
      → length s.stdout_data ≤ options.max_stdout
      → length s.stderr_data ≤ options.max_stderr
      → Ends rounds s (exec_loop realloc options deadline rounds s)
  unfolding exec_loop
  exec_loop-Ends [] s calm fo fe = elim (Bool-cases (is_going s)) [
    | inl going ↦ rw going (never_ends s.child_running s.out_open s.err_open going)
    | inr stopped ↦ rw stopped (Ends-now [] s stopped)
  ]
  exec_loop-Ends (round ∷ rounds) s calm fo fe = elim (Bool-cases (is_going s)) [
    | inl going ↦
        rw (going, one_round-eq realloc granted options deadline round s calm.0 fo fe)
          (Ends-step round rounds s _ fo fe (
            exec_loop-Ends rounds (after realloc granted options deadline round s) calm.1
              (data_after-fits options.max_stdout s.out_open s.stdout_data (out_of round.polled) fo)
              (data_after-fits options.max_stderr s.err_open s.stderr_data (err_of round.polled)
                fe)))
    | inr stopped ↦ rw stopped (Ends-now (round ∷ rounds) s stopped)
  ]

or_false : (b : Bool) → (b || false) ≡ b
or_false true = refl
or_false false = refl

-- For a child that starts, rounds in which no call fails and an allocator that grants every
-- request, exec_shell returns exactly if both pipes come to their end and the child ends in these
-- rounds, whatever the deadline; it then gives the exit code of the status, whether a round began
-- after the deadline before the child was gone, the time modulo 2^32, and for each pipe the bytes
-- before its end, cut to the limit.
pub exec_shell-eq :
    (realloc : ℕ → Bool) (options : ExecOptions) (command : List ℕ) (start stop : ℕ)
    (rounds : List Round)
    → IsGranted realloc
    → AreCalm rounds
    → exec_shell realloc options (some command) start stop running rounds ≡ (
        if completes rounds
        then result (reported options start stop rounds)
        else Executed.unfinished)
unfolding exec_shell
exec_shell-eq realloc options command start stop rounds granted calm =
    concluded (exec_loop realloc options deadline rounds started) (
      exec_loop-Ends realloc granted options deadline rounds started calm (omega arith)
        (omega arith))
  where
    deadline : ℕ
    deadline = start + options.timeout_ms

    concluded :
        (l : Looped)
        → Ends realloc granted options (start + options.timeout_ms) rounds started l
        → conclude start stop l ≡ (
            if completes rounds
            then result (reported options start stop rounds)
            else Executed.unfinished)
    concluded (ended s) (c, o, e, x, t) =
        rw (c, o, e, x, t, or_false (overran (start + options.timeout_ms) rounds)) refl
    concluded cleanup l = elim l [ ]
    concluded unfinished l = rw l refl
    concluded overrun l = elim l [ ]
