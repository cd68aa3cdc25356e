-- ===== src/Responder/Answers/Command.antt =====
-- A command from its request to its result, across src/responder.c, src/shell_exec.c and
-- src/protocol.c.
use epass_usb_responder.Prelude.{
  ℕ, zero, suc, Option, none, some, if◌then◌else◌, ◌+◌, ◌-◌, ◌^◌, ◌≤◌, ◌<◌, ◌≡◌, refl, ap, ap₂, ◌∙◌,
  Bool, true, false, List, [], ◌∷◌, arith, ltb, length, length-take, take, take_all,
}
use native.Mathlib.Nat.{mod-lt}
use epass_usb_responder.Outcome.{ok, slice-eq-take}
use epass_usb_responder.Text.{text}
use epass_usb_responder.Protocol.Frame.{Frame, pointee}
use epass_usb_responder.Protocol.Request.{CommandRequest, request_bytes}
use epass_usb_responder.Protocol.Request.RoundTrip.{IsRequest, decode-request_bytes}
use epass_usb_responder.Protocol.Report.{CommandResult, decode_command_result}
use epass_usb_responder.Protocol.Report.RoundTrip.{
  IsResult, received, sent, length-sent, encode-eq-sent, decode_command_result-encode,
}
use epass_usb_responder.Shell.{ExecOptions, ExecResult, running, no_exit_code, result}
use epass_usb_responder.Shell.Heard.{AreCalm, completes, status_code, heard, reported}
use epass_usb_responder.Shell.Returns.{exec_shell-eq}
use epass_usb_responder.Shell.Pipes.{out_of, err_of}
use epass_usb_responder.Responder.Reply.{msg_command_result, send, response, payload_of}
use epass_usb_responder.Responder.Commands.{
  Config, CommandRun, or_default, exec_options, stream, command_result, report, handle_command_exec,
}

-- The limit of a request, or the configured one where it is 0.
abbrev pub in_force : ℕ → ℕ → ℕ
in_force zero configured = configured
in_force (suc n) configured = suc n

abbrev pub limits : Config → CommandRequest → ExecOptions
limits cfg req = record {
  timeout_ms = in_force req.timeout_ms cfg.default_timeout_ms;
  max_stdout = in_force req.max_stdout cfg.max_stdout;
  max_stderr = in_force req.max_stderr cfg.max_stderr;
}

-- A stream of no bytes is none.
abbrev pub some_bytes : List ℕ → Option (List ℕ)
some_bytes [] = none
some_bytes (b ∷ bytes) = some (b ∷ bytes)

-- What the host gets to know of a command.
abbrev pub told : ExecResult → CommandResult
told e = record {
  exit_code = e.exit_code;
  timed_out = e.timed_out;
  duration_ms = e.duration_ms;
  stdout_data = some_bytes e.stdout_data;
  stdout_size = length e.stdout_data;
  stderr_data = some_bytes e.stderr_data;
  stderr_size = length e.stderr_data;
}

or_default-in_force : (x y : ℕ) → or_default x y ≡ in_force x y
or_default-in_force zero y = refl
or_default-in_force (suc n) y = ground arith

exec_options-limits : (cfg : Config) (req : CommandRequest) → exec_options cfg req ≡ limits cfg req
unfolding exec_options
exec_options-limits cfg req =
    rw
      (
        ← or_default-in_force req.timeout_ms cfg.default_timeout_ms,
        ← or_default-in_force req.max_stdout cfg.max_stdout,
        ← or_default-in_force req.max_stderr cfg.max_stderr,
      )
      refl

received_stream :
    (bytes : List ℕ) → (if ltb 0 (length bytes) then stream bytes else none) ≡ some_bytes bytes
received_stream [] = refl
received_stream (b ∷ bytes) = ground arith

received-told : (e : ExecResult) → received (command_result e) ≡ told e
unfolding command_result
received-told e =
    ap₂ (λ out err. record (told e) { stdout_data = out; stderr_data = err })
      (received_stream e.stdout_data) (received_stream e.stderr_data)

length-stream : (bytes : List ℕ) → length (pointee (stream bytes)) ≡ length bytes
length-stream [] = refl
length-stream (b ∷ bytes) = refl

module _ (size_mod : ℕ) (malloc realloc : ℕ → Bool) (cfg : Config) where
  -- A request that the frame carries, and a command that runs to its end.
  pub record IsRun (req : CommandRequest) (frame : Frame) (run : CommandRun) : Type 0 where
    pub granted : (n : ℕ) → malloc n ≡ true
    pub enlarged : (n : ℕ) → realloc n ≡ true
    pub request : IsRequest req
    pub carried : pointee frame.payload ≡ request_bytes req
    pub announced : frame.header.payload_len ≡ length (request_bytes req)
    pub started : run.launch ≡ running
    pub calm : AreCalm run.rounds
    pub complete : completes run.rounds ≡ true
    pub code_fits : status_code run.rounds no_exit_code < 2 ^ 32
    pub streams_fit : 20 + (limits cfg req).max_stdout + (limits cfg req).max_stderr < 2 ^ 32
    pub size_t_holds : 2 ^ 32 ≤ size_mod

  module _ (req : CommandRequest) (frame : Frame) (run : CommandRun) (r : IsRun req frame run) where
    abbrev options : ExecOptions
    options = limits cfg req

    abbrev outcome_of_rounds : ExecResult
    outcome_of_rounds = reported options run.start run.stop run.rounds

    abbrev outcome : CommandResult
    outcome = command_result outcome_of_rounds

    out_bound : length outcome_of_rounds.stdout_data ≤ options.max_stdout
    out_bound = omega (arith, length-take options.max_stdout (heard out_of run.rounds))

    err_bound : length outcome_of_rounds.stderr_data ≤ options.max_stderr
    err_bound = omega (arith, length-take options.max_stderr (heard err_of run.rounds))

    outcome-IsResult : IsResult size_mod outcome
    unfolding command_result
    outcome-IsResult = record {
      exit_code_fits = r.code_fits;
      duration_fits = mod-lt (run.stop - run.start) (omega arith);
      stdout_fits = omega (arith, r.streams_fit, out_bound);
      stderr_fits = omega (arith, r.streams_fit, err_bound);
      size_fits = omega (arith, r.streams_fit, r.size_t_holds, out_bound, err_bound);
      stdout_announced = length-stream (take options.max_stdout (heard out_of run.rounds));
      stderr_announced = length-stream (take options.max_stderr (heard err_of run.rounds));
    }

    outcome_fits : 20 + outcome.stdout_size + outcome.stderr_size < 2 ^ 32
    unfolding command_result
    outcome_fits = omega (arith, r.streams_fit, out_bound, err_bound)

    bytes : List ℕ
    bytes = sent size_mod malloc outcome outcome-IsResult

    report-eq :
        report size_mod malloc realloc cfg frame (result outcome_of_rounds)
        ≡ send (response msg_command_result frame.header.request_id bytes)
    unfolding report bytes
    report-eq =
        let small : ltb (2 ^ 32 - 1) (length (sent size_mod malloc outcome outcome-IsResult))
            ≡ false =
          ground (arith, outcome_fits, length-sent size_mod malloc outcome outcome-IsResult) in
        rw (encode-eq-sent size_mod malloc outcome outcome-IsResult (r.granted _), small) refl

    carried_payload : payload_of frame ≡ ok (request_bytes req)
    carried_payload =
        rw (r.carried, r.announced)
          (slice-eq-take (request_bytes req) 0 (length (request_bytes req)) (omega arith)
            ∙ ap ok (take_all (request_bytes req) (length (request_bytes req)) (omega arith)))

    decoded_bytes : decode_command_result size_mod malloc bytes ≡ ok (told outcome_of_rounds)
    unfolding bytes
    decoded_bytes = rw (← received-told outcome_of_rounds) (
        rw (encode-eq-sent size_mod malloc outcome outcome-IsResult (r.granted _)) at
          (decode_command_result-encode size_mod malloc outcome outcome-IsResult r.granted))

    -- A frame that carries the encoding of a command request is answered by one COMMAND_RESULT
    -- with its identifier, whose payload decodes to what the rounds of the command say: the exit
    -- code, whether it overran the deadline, the time, and what it wrote on each pipe, cut to the
    -- limits of the request or else of the configuration. Conditions: the allocator grants every
    -- request; the words of the request fit; the child starts, no call of the rounds fails, both
    -- pipes close and the child ends; the exit code has 32 bits, and the limits, with 20 bytes
    -- more, are below 4 GiB.
    pub handle_command_exec-reported :
        (payload : List ℕ) × (handle_command_exec size_mod malloc realloc cfg run frame
          ≡ send (response msg_command_result frame.header.request_id payload))
        × (decode_command_result size_mod malloc payload ≡ ok (told outcome_of_rounds))
    unfolding handle_command_exec
    handle_command_exec-reported = (
      bytes,
      rw
          (
            carried_payload,
            decode-request_bytes malloc req r.request (r.granted _),
            r.started,
            exec_options-limits cfg (record req { command = some (text req.command) }),
            exec_shell-eq realloc options (text req.command) run.start run.stop run.rounds
                r.enlarged r.calm,
            r.complete,
          )
          report-eq,
      decoded_bytes,
    )
