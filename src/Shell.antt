-- ===== src/Shell.antt =====
-- src/shell_exec.c: `append_limited` and `usb_responder_exec_shell`. What the clock and the kernel
-- answer in each round of the loop is an argument. A stream is the bytes that its pointer and its
-- size give. Sizes are far below the limit of `size_t`, whose wrap is not modelled.
pub mod Pipes
pub mod Rounds
pub mod Heard
pub mod Returns
pub mod Signals
use epass_usb_responder.Prelude.{
  ℕ, ◌+◌, ◌-◌, ◌%◌, ◌^◌, Bool, true, false, not, ◌&&◌, ◌||◌, Option, none, some, List, [], ◌∷◌,
  ◌++◌, ltb, leb, ◌==◌, if◌then◌else◌, length, take,
}
use epass_usb_responder.Outcome.{Outcome, ok, failed, fault, ◌>>=◌, ◌>>◌, require, filled}

pub record ExecOptions : Type 0 where
  pub timeout_ms : ℕ
  pub max_stdout : ℕ
  pub max_stderr : ℕ

-- `exit_code`, an `int32_t`, is its bit pattern.
pub record ExecResult : Type 0 where
  pub exit_code : ℕ
  pub timed_out : Bool
  pub duration_ms : ℕ
  pub stdout_data : List ℕ
  pub stderr_data : List ℕ

-- The bytes at `*dst` afterwards; `failed` is a refused `realloc`.
unfoldable pub append_limited : (ℕ → Bool) → List ℕ → List ℕ → ℕ → Outcome (List ℕ)
append_limited realloc dst src max_size =
    let used = length dst in
    let n = length src in
    let can_write = if ltb max_size (used + n) then max_size - used else n in
    let extended = (do
      require (realloc (used + can_write))
      filled (used + can_write) (dst ++ take can_write src)) in
    if leb max_size used then ok dst else if can_write == 0 then ok dst else extended

-- What `read` on a pipe does: it gives bytes, none at the end of the file, or it fails with EAGAIN or
-- EINTR, or with another error.
pub data PipeRead : Type 0 where
  got : List ℕ → PipeRead
  try_again read_failed : PipeRead

-- What `poll` does: it fails, with EINTR or with another error, or it gives the events of the two
-- pipes, with what `read` then answers where there are any.
pub data Polled : Type 0 where
  interrupted poll_failed : Polled
  ready : Option PipeRead → Option PipeRead → Polled

-- What `waitpid` with WNOHANG does: nothing to report, or the status of the child.
pub data Waited : Type 0 where
  not_yet : Waited
  exited signalled : ℕ → Waited

-- One round of the loop: the clock at its start, and what the two calls answer.
pub record Round : Type 0 where
  pub now_ms : ℕ
  pub polled : Polled
  pub waited : Waited

pub data Signal : Type 0 where
  sigterm sigkill : Signal

-- The variables of the loop, the signals sent to the process group and the times given to `poll`.
pub record Exec : Type 0 where
  pub child_running : Bool
  pub out_open : Bool
  pub err_open : Bool
  pub kill_sent : Bool
  pub timed_out : Bool
  pub exit_code : ℕ
  pub stdout_data : List ℕ
  pub stderr_data : List ℕ
  pub signals : List Signal
  pub waits : List ℕ

-- `-1`
abbrev pub no_exit_code : ℕ
no_exit_code = 2 ^ 32 - 1

abbrev pub started : Exec
started = record {
  child_running = true;
  out_open = true;
  err_open = true;
  kill_sent = false;
  timed_out = false;
  exit_code = no_exit_code;
  stdout_data = [];
  stderr_data = [];
  signals = [];
  waits = [];
}

-- The first test of the round: SIGTERM at the first round after the deadline, SIGKILL at the others.
unfoldable pub enforce_deadline : ℕ → ℕ → Exec → Exec
enforce_deadline deadline now s =
    let late = record s { timed_out = true } in
    if leb deadline now && s.child_running
    then (if not s.kill_sent
        then record late { signals = s.signals ++ sigterm ∷ []; kill_sent = true }
        else record late { signals = s.signals ++ sigkill ∷ [] })
    else s

-- How long `poll` may wait.
unfoldable pub poll_timeout : ℕ → ℕ → Exec → ℕ
poll_timeout deadline now s =
    let remain = deadline - now in
    if not (leb deadline now) && s.child_running && ltb remain 100 then remain else 100

-- The size of `tmp`.
abbrev pub tmp_size : ℕ
tmp_size = 4096

abbrev pub is_going : Exec → Bool
is_going s = s.child_running || s.out_open || s.err_open

-- The loop ends; or it goes to `cleanup`; or the rounds end; or `read` gives more than it was asked
-- for.
pub data Looped : Type 0 where
  ended : Exec → Looped
  cleanup unfinished overrun : Looped

abbrev pub next_round : Outcome Exec → (Exec → Looped) → Looped
next_round (ok s) rest = rest s
next_round failed rest = cleanup
next_round fault rest = overrun

-- What is read from a pipe where it is open and has an event.
abbrev pub on_event :
    (Exec → PipeRead → Outcome Exec) → Bool → Option PipeRead → Exec → Outcome Exec
on_event read false answer s = ok s
on_event read true none s = ok s
on_event read true (some answer) s = read s answer

unfoldable pub reap : Waited → Exec → Exec
reap not_yet s = s
reap (exited code) s =
    if s.child_running then record s { child_running = false; exit_code = code } else s
reap (signalled number) s =
    if s.child_running then record s { child_running = false; exit_code = 128 + number } else s

module _ (realloc : ℕ → Bool) (options : ExecOptions) where
  -- The body of the loop over `pfds` for the one pipe and for the other.
  unfoldable pub read_stdout : Exec → PipeRead → Outcome Exec
  read_stdout s (got []) = ok (record s { out_open = false })
  read_stdout s (got (b ∷ bytes)) = do
    tmp ← filled tmp_size (b ∷ bytes)
    data' ← append_limited realloc s.stdout_data tmp options.max_stdout
    ok (record s { stdout_data = data' })
  read_stdout s try_again = ok s
  read_stdout s read_failed = failed

  unfoldable pub read_stderr : Exec → PipeRead → Outcome Exec
  read_stderr s (got []) = ok (record s { err_open = false })
  read_stderr s (got (b ∷ bytes)) = do
    tmp ← filled tmp_size (b ∷ bytes)
    data' ← append_limited realloc s.stderr_data tmp options.max_stderr
    ok (record s { stderr_data = data' })
  read_stderr s try_again = ok s
  read_stderr s read_failed = failed

  unfoldable pub read_pipes : Exec → Polled → Outcome Exec
  read_pipes s interrupted = ok s
  read_pipes s poll_failed = failed
  read_pipes s (ready out err) =
      on_event read_stdout s.out_open out s >>= on_event read_stderr s.err_open err

  -- The statement under `if (pfds_n > 0)`; `poll` is called with the time that `poll_timeout` gives.
  unfoldable pub poll_pipes : ℕ → Round → Exec → Outcome Exec
  poll_pipes deadline round s =
      let s' = record s { waits = s.waits ++ poll_timeout deadline round.now_ms s ∷ [] } in
      if s.out_open || s.err_open then read_pipes s' round.polled else ok s

  unfoldable pub one_round : ℕ → Round → Exec → Outcome Exec
  one_round deadline round s = do
    s' ← poll_pipes deadline round (enforce_deadline deadline round.now_ms s)
    ok (reap round.waited s')

  unfoldable pub exec_loop : ℕ → List Round → Exec → Looped
  exec_loop deadline [] s = if is_going s then unfinished else ended s
  exec_loop deadline (round ∷ rounds) s =
      let rest = next_round (one_round deadline round s) (exec_loop deadline rounds) in
      if is_going s then rest else ended s

-- How far the calls before the loop come: a `pipe` fails, `fork` fails, a pipe cannot be made
-- non-blocking, or the child runs.
pub data Launch : Type 0 where
  no_pipe no_fork not_nonblocking running : Launch

-- `usb_responder_exec_shell` returns true with a result, or false; where it returns false behind
-- `fork`, the process group was sent SIGKILL.
pub data Executed : Type 0 where
  result : ExecResult → Executed
  refused killed unfinished overrun : Executed

-- The statements behind the loop; `duration_ms` is a `uint32_t`.
abbrev pub conclude : ℕ → ℕ → Looped → Executed
conclude start stop (ended s) = result (record {
  exit_code = s.exit_code;
  timed_out = s.timed_out;
  duration_ms = (stop - start) % 2 ^ 32;
  stdout_data = s.stdout_data;
  stderr_data = s.stderr_data;
})
conclude start stop cleanup = killed
conclude start stop unfinished = unfinished
conclude start stop overrun = overrun

-- The clock shows `start` before and `stop` after; `command` is null or a string.
unfoldable pub exec_shell :
    (ℕ → Bool) → ExecOptions → Option (List ℕ) → ℕ → ℕ → Launch → List Round → Executed
exec_shell realloc options none start stop launch rounds = refused
exec_shell realloc options (some command) start stop no_pipe rounds = refused
exec_shell realloc options (some command) start stop no_fork rounds = refused
exec_shell realloc options (some command) start stop not_nonblocking rounds = killed
exec_shell realloc options (some command) start stop running rounds =
    conclude start stop (exec_loop realloc options (start + options.timeout_ms) rounds started)
