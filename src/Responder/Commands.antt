-- ===== src/Responder/Commands.antt =====
-- `handle_command_exec` of src/responder.c.
use epass_usb_responder.Prelude.{
  ℕ, ◌-◌, ◌^◌, Bool, Option, none, some, List, [], ◌∷◌, ltb, ◌==◌, if◌then◌else◌, length,
}
use epass_usb_responder.Outcome.{◌>>=◌}
use epass_usb_responder.Text.{codes}
use epass_usb_responder.Protocol.Frame.{Frame}
use epass_usb_responder.Protocol.Request.{CommandRequest, decode_command_request}
use epass_usb_responder.Protocol.Report.{CommandResult, encode_command_result}
use epass_usb_responder.Shell.{
  ExecOptions, ExecResult, Launch, Round, Executed, result, refused, killed, exec_shell,
}
use epass_usb_responder.Responder.Reply.{
  msg_command_result, Reply, send, stuck, overrun, on_result, response, payload_of, send_error,
}

-- The fields of `usb_responder_config_t` that set the limits of a command.
pub record Config : Type 0 where
  pub default_timeout_ms : ℕ
  pub max_stdout : ℕ
  pub max_stderr : ℕ

-- What the kernel does with a command: the clock before and after it, how far it is started, and the
-- rounds of the loop.
pub record CommandRun : Type 0 where
  pub start : ℕ
  pub stop : ℕ
  pub launch : Launch
  pub rounds : List Round

-- `x ? x : y`
abbrev pub or_default : ℕ → ℕ → ℕ
or_default x y = if x == 0 then y else x

unfoldable pub exec_options : Config → CommandRequest → ExecOptions
exec_options cfg req = record {
  timeout_ms = or_default req.timeout_ms cfg.default_timeout_ms;
  max_stdout = or_default req.max_stdout cfg.max_stdout;
  max_stderr = or_default req.max_stderr cfg.max_stderr;
}

-- The pointer to a stream, null where nothing was read.
abbrev pub stream : List ℕ → Option (List ℕ)
stream [] = none
stream (b ∷ bytes) = some (b ∷ bytes)

unfoldable pub command_result : ExecResult → CommandResult
command_result shell = record {
  exit_code = shell.exit_code;
  timed_out = shell.timed_out;
  duration_ms = shell.duration_ms;
  stdout_data = stream shell.stdout_data;
  stdout_size = length shell.stdout_data;
  stderr_data = stream shell.stderr_data;
  stderr_size = length shell.stderr_data;
}

module _ (size_mod : ℕ) (malloc realloc : ℕ → Bool) (cfg : Config) where
  abbrev command_error : Frame → List ℕ → Reply
  command_error frame msg = send_error realloc frame.header.request_id msg

  unfoldable pub report : Frame → Executed → Reply
  report frame (result shell) =
      on_result (encode_command_result size_mod malloc (command_result shell))
        (command_error frame (codes "encode command result failed"))
        λ payload.
          if ltb (2 ^ 32 - 1) (length payload)
          then command_error frame (codes "command result too large")
          else send (response msg_command_result frame.header.request_id payload)
  report frame refused = command_error frame (codes "shell exec failed")
  report frame killed = command_error frame (codes "shell exec failed")
  report frame Executed.unfinished = stuck
  report frame Executed.overrun = overrun

  -- `run` is what the kernel does with the command.
  unfoldable pub handle_command_exec : CommandRun → Frame → Reply
  handle_command_exec run frame =
      on_result (do payload ← payload_of frame; decode_command_request malloc payload)
        (command_error frame (codes "invalid command payload"))
        λ req. report frame (
          exec_shell realloc (exec_options cfg req) req.command run.start run.stop run.launch
            run.rounds)
