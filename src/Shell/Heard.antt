-- ===== src/Shell/Heard.antt =====
-- What the rounds of a command in src/shell_exec.c say, and how one round more changes that.
use epass_usb_responder.Prelude.{
  ℕ, ◌+◌, ◌-◌, ◌%◌, ◌^◌, ◌≤◌, ◌≡◌, refl, sym, ap, ◌∙◌, Bool, true, false, not, ◌&&◌, ◌||◌, Option,
  none, some, List, [], ◌∷◌, ◌++◌, arith, leb, if◌then◌else◌, length, take, take_all,
  take-append-take, length-take, append-nil, append_assoc,
}
use epass_usb_responder.Shell.{
  ExecOptions, ExecResult, PipeRead, got, try_again, read_failed, Polled, Waited, Round, Exec,
  no_exit_code,
}
use epass_usb_responder.Shell.Pipes.{
  IsCalmPoll, out_of, err_of, open_after, data_after, is_reaped, waited_code,
}

-- Every call of the rounds succeeds.
abbrev pub AreCalm : List Round → Type 0
AreCalm [] = Unit
AreCalm (round ∷ rounds) = IsCalmPoll round.polled × AreCalm rounds

abbrev pub heard_in : Option PipeRead → List ℕ → List ℕ
heard_in none rest = rest
heard_in (some (got [])) rest = []
heard_in (some (got (b ∷ bytes))) rest = (b ∷ bytes) ++ rest
heard_in (some try_again) rest = rest
heard_in (some read_failed) rest = rest

-- The bytes that a pipe gives before its end.
abbrev pub heard : (Polled → Option PipeRead) → List Round → List ℕ
heard of [] = []
heard of (round ∷ rounds) = heard_in (of round.polled) (heard of rounds)

abbrev pub closes_in : Option PipeRead → Bool → Bool
closes_in none rest = rest
closes_in (some (got [])) rest = true
closes_in (some (got (b ∷ bytes))) rest = rest
closes_in (some try_again) rest = rest
closes_in (some read_failed) rest = rest

-- Whether a pipe comes to its end.
abbrev pub closes : (Polled → Option PipeRead) → List Round → Bool
closes of [] = false
closes of (round ∷ rounds) = closes_in (of round.polled) (closes of rounds)

-- Whether the child ends, and the exit code that its status stands for.
abbrev pub reaped : List Round → Bool
reaped [] = false
reaped (round ∷ rounds) = is_reaped round.waited || reaped rounds

abbrev pub status_code : List Round → ℕ → ℕ
status_code [] code = code
status_code (round ∷ rounds) code =
    let rest = status_code rounds code in
    if is_reaped round.waited then waited_code round.waited code else rest

-- Whether a round begins after the deadline while the child runs.
abbrev pub overran : ℕ → List Round → Bool
overran deadline [] = false
overran deadline (round ∷ rounds) =
    leb deadline round.now_ms || (not (is_reaped round.waited) && overran deadline rounds)

-- Both pipes come to their end, and the child ends.
abbrev pub completes : List Round → Bool
completes rounds = closes out_of rounds && (closes err_of rounds && reaped rounds)

-- The same from variables in the middle of the loop.
abbrev pub completes_from : Exec → List Round → Bool
completes_from s rounds =
    (not s.out_open || closes out_of rounds)
    && ((not s.err_open || closes err_of rounds) && (not s.child_running || reaped rounds))

abbrev pub kept : ℕ → Bool → List ℕ → List ℕ → List ℕ
kept max is_open data' rest = if is_open then take max (data' ++ rest) else data'

pub closes-step :
    (is_open : Bool) (e : Option PipeRead) (rest : Bool)
    → (not (open_after is_open e) || rest) ≡ (not is_open || closes_in e rest)
closes-step is_open none rest = refl
closes-step true (some (got [])) rest = refl
closes-step false (some (got [])) rest = refl
closes-step is_open (some (got (b ∷ bytes))) rest = refl
closes-step is_open (some try_again) rest = refl
closes-step is_open (some read_failed) rest = refl

pub kept-step :
    (max : ℕ) (is_open : Bool) (data' : List ℕ) (e : Option PipeRead) (rest : List ℕ)
    → length data' ≤ max
    → kept max (open_after is_open e) (data_after max is_open data' e) rest
      ≡ kept max is_open data' (heard_in e rest)
kept-step max is_open data' none rest fits = refl
kept-step max true data' (some (got [])) rest fits =
    sym (ap (take max) (append-nil data') ∙ take_all data' max fits)
kept-step max false data' (some (got [])) rest fits = refl
kept-step max true data' (some (got (b ∷ bytes))) rest fits =
    take-append-take max (data' ++ b ∷ bytes) rest
    ∙ ap (take max) (append_assoc data' (b ∷ bytes) rest)
kept-step max false data' (some (got (b ∷ bytes))) rest fits = refl
kept-step max is_open data' (some try_again) rest fits = refl
kept-step max is_open data' (some read_failed) rest fits = refl

pub data_after-fits :
    (max : ℕ) (is_open : Bool) (data' : List ℕ) (e : Option PipeRead)
    → length data' ≤ max
    → length (data_after max is_open data' e) ≤ max
data_after-fits max is_open data' none fits = fits
data_after-fits max is_open data' (some (got [])) fits = fits
data_after-fits max true data' (some (got (b ∷ bytes))) fits =
    omega (arith, length-take max (data' ++ b ∷ bytes))
data_after-fits max false data' (some (got (b ∷ bytes))) fits = fits
data_after-fits max is_open data' (some try_again) fits = fits
data_after-fits max is_open data' (some read_failed) fits = fits

pub reaped-step :
    (runs now rest : Bool) → (not (runs && not now) || rest) ≡ (not runs || (now || rest))
reaped-step true true rest = refl
reaped-step true false rest = refl
reaped-step false now rest = refl

pub overran-step :
    (runs late now rest timed : Bool)
    → (((runs && not now) && rest) || ((late && runs) || timed))
      ≡ ((runs && (late || (not now && rest))) || timed)
overran-step true true true rest timed = refl
overran-step true true false true timed = refl
overran-step true true false false timed = refl
overran-step true false true rest timed = refl
overran-step true false false rest timed = refl
overran-step false true now rest timed = refl
overran-step false false now rest timed = refl

pub code-step :
    (runs : Bool) (w : Waited) (rounds : List Round) (code : ℕ)
    → (if runs && not (is_reaped w)
        then status_code rounds (if runs then waited_code w code else code)
        else if runs
        then waited_code w code
        else code)
      ≡ (if runs
          then (if is_reaped w then waited_code w code else status_code rounds code)
          else code)
code-step true Waited.not_yet rounds code = refl
code-step true (Waited.exited c) rounds code = refl
code-step true (Waited.signalled n) rounds code = refl
code-step false w rounds code = refl

pub all_stopped :
    (runs out err : Bool)
    → (runs || out || err) ≡ false
    → (runs ≡ false) × (out ≡ false) × (err ≡ false)
all_stopped false false false e = (refl, refl, refl)
all_stopped false false true e = absurd (ground arith)
all_stopped false true err e = absurd (ground arith)
all_stopped true out err e = absurd (ground arith)

pub never_ends :
    (runs out err : Bool)
    → (runs || out || err) ≡ true
    → ((not out || false) && ((not err || false) && (not runs || false))) ≡ false
never_ends runs true err e = refl
never_ends runs false true e = refl
never_ends true false false e = refl
never_ends false false false e = absurd (ground arith)

-- What the rounds say of a command that the clock saw from `start` to `stop`.
abbrev pub reported : ExecOptions → ℕ → ℕ → List Round → ExecResult
reported options start stop rounds = record {
  exit_code = status_code rounds no_exit_code;
  timed_out = overran (start + options.timeout_ms) rounds;
  duration_ms = (stop - start) % 2 ^ 32;
  stdout_data = take options.max_stdout (heard out_of rounds);
  stderr_data = take options.max_stderr (heard err_of rounds);
}
