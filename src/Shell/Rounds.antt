-- ===== src/Shell/Rounds.antt =====
-- What one round of the loop in src/shell_exec.c does where no call fails.
use epass_usb_responder.Prelude.{
  ℕ, ◌≤◌, ◌≡◌, refl, ap, ◌∙◌, Bool, true, false, not, ◌&&◌, ◌||◌, [], ◌∷◌, ◌++◌, leb, if◌then◌else◌,
  length, Bool-cases, inl, inr,
}
use epass_usb_responder.Outcome.{ok, ◌>>=◌}
use epass_usb_responder.Shell.{
  ExecOptions, Waited, not_yet, exited, signalled, Round, Exec, enforce_deadline, poll_timeout,
  poll_pipes, reap, one_round,
}
use epass_usb_responder.Shell.Pipes.{
  IsGranted, IsCalmPoll, out_of, err_of, open_after, data_after, is_reaped, waited_code,
  open_after-closed, data_after-closed, both_closed, read_pipes-eq,
}

module _ (realloc : ℕ → Bool) (granted : IsGranted realloc) (options : ExecOptions) where
  -- The variables after a round.
  abbrev pub after : ℕ → Round → Exec → Exec
  after deadline round s =
      let late = enforce_deadline deadline round.now_ms s in
      record {
        child_running = s.child_running && not (is_reaped round.waited);
        out_open = open_after s.out_open (out_of round.polled);
        err_open = open_after s.err_open (err_of round.polled);
        kill_sent = late.kill_sent;
        timed_out = (leb deadline round.now_ms && s.child_running) || s.timed_out;
        exit_code = if s.child_running then waited_code round.waited s.exit_code else s.exit_code;
        stdout_data = data_after options.max_stdout s.out_open s.stdout_data (out_of round.polled);
        stderr_data = data_after options.max_stderr s.err_open s.stderr_data (err_of round.polled);
        signals = late.signals;
        waits =
            if s.out_open || s.err_open
            then s.waits ++ poll_timeout deadline round.now_ms s ∷ []
            else s.waits;
      }

  reap-eq :
      (s : Exec) (waited : Waited)
      → reap waited s ≡ record s {
        child_running = s.child_running && not (is_reaped waited);
        exit_code = if s.child_running then waited_code waited s.exit_code else s.exit_code;
      }
  unfolding reap
  reap-eq s waited = by_cases waited s.child_running refl
    where
      by_cases :
          (w : Waited) (c : Bool)
          → s.child_running ≡ c
          → reap w s ≡ record s {
            child_running = c && not (is_reaped w);
            exit_code = if c then waited_code w s.exit_code else s.exit_code;
          }
      by_cases not_yet true e = rw e refl
      by_cases not_yet false e = rw e refl
      by_cases (exited code) true e = rw e refl
      by_cases (exited code) false e = rw e refl
      by_cases (signalled number) true e = rw e refl
      by_cases (signalled number) false e = rw e refl

  enforce_deadline-eq :
      (deadline now : ℕ) (s : Exec)
      → enforce_deadline deadline now s ≡ record s {
        timed_out = (leb deadline now && s.child_running) || s.timed_out;
        kill_sent = (enforce_deadline deadline now s).kill_sent;
        signals = (enforce_deadline deadline now s).signals;
      }
  unfolding enforce_deadline
  enforce_deadline-eq deadline now s = elim (Bool-cases (leb deadline now && s.child_running)) [
    | inl late ↦ elim (Bool-cases s.kill_sent) [
      | inl again ↦ rw (late, again) refl
      | inr first ↦ rw (late, first) refl
    ]
    | inr early ↦ rw early refl
  ]

  -- What the two calls of a round leave.
  abbrev polled_and_reaped : ℕ → Round → Exec → Exec
  polled_and_reaped deadline round s = record s {
    child_running = s.child_running && not (is_reaped round.waited);
    out_open = open_after s.out_open (out_of round.polled);
    err_open = open_after s.err_open (err_of round.polled);
    exit_code = if s.child_running then waited_code round.waited s.exit_code else s.exit_code;
    stdout_data = data_after options.max_stdout s.out_open s.stdout_data (out_of round.polled);
    stderr_data = data_after options.max_stderr s.err_open s.stderr_data (err_of round.polled);
    waits =
        if s.out_open || s.err_open
        then s.waits ++ poll_timeout deadline round.now_ms s ∷ []
        else s.waits;
  }

  poll_pipes-eq :
      (deadline : ℕ) (round : Round) (s : Exec)
      → IsCalmPoll round.polled
      → length s.stdout_data ≤ options.max_stdout
      → length s.stderr_data ≤ options.max_stderr
      → (do s' ← poll_pipes realloc options deadline round s; ok (reap round.waited s'))
        ≡ ok (polled_and_reaped deadline round s)
  unfolding poll_pipes
  poll_pipes-eq deadline round s calm fo fe = elim (Bool-cases (s.out_open || s.err_open)) [
    | inl some_open ↦
        rw
          (
            some_open,
            read_pipes-eq realloc granted options
                (record s { waits = s.waits ++ poll_timeout deadline round.now_ms s ∷ [] })
                round.polled calm fo fe,
          )
          (ap ok (reap-eq _ round.waited))
    | inr closed ↦
        let either : (s.out_open ≡ false) × (s.err_open ≡ false) =
          both_closed s.out_open s.err_open closed in
        rw
          (
            either.0,
            either.1,
            open_after-closed (out_of round.polled),
            open_after-closed (err_of round.polled),
            data_after-closed options.max_stdout s.stdout_data (out_of round.polled),
            data_after-closed options.max_stderr s.stderr_data (err_of round.polled),
          )
          (ap ok (reap-eq _ round.waited))
  ]

  pub one_round-eq :
      (deadline : ℕ) (round : Round) (s : Exec)
      → IsCalmPoll round.polled
      → length s.stdout_data ≤ options.max_stdout
      → length s.stderr_data ≤ options.max_stderr
      → one_round realloc options deadline round s ≡ ok (after deadline round s)
  unfolding one_round poll_timeout
  one_round-eq deadline round s calm fo fe =
      poll_pipes-eq deadline round (enforce_deadline deadline round.now_ms s) calm
        (rw (ap (λ l. l.stdout_data) e) fo) (rw (ap (λ l. l.stderr_data) e) fe)
      ∙ ap (λ l. ok (polled_and_reaped deadline round l)) e
    where
      e : enforce_deadline deadline round.now_ms s ≡ record s {
        timed_out = (leb deadline round.now_ms && s.child_running) || s.timed_out;
        kill_sent = (enforce_deadline deadline round.now_ms s).kill_sent;
        signals = (enforce_deadline deadline round.now_ms s).signals;
      }
      e = enforce_deadline-eq deadline round.now_ms s
