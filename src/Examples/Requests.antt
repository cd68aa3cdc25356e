-- ===== src/Examples/Requests.antt =====
-- Requests of src/responder.c and commands of src/shell_exec.c on concrete inputs.
use epass_usb_responder.Prelude.{
  ℕ, Bool, ◌<◌, length, ◌≡◌, refl, true, false, none, some, List, [], ◌∷◌, ◌++◌, take, arith, ◌^◌,
  if◌then◌else◌,
}
use epass_usb_responder.Outcome.{ok, filled}
use epass_usb_responder.Text.{c_string, codes}
use epass_usb_responder.Protocol.Words.{write_le32}
use epass_usb_responder.Protocol.Frame.{FrameHeader, Frame}
use epass_usb_responder.Protocol.Request.{CommandRequest, request_bytes}
use epass_usb_responder.Protocol.Report.{decode_command_result}
use epass_usb_responder.Shell.{
  ExecOptions, got, interrupted, ready, not_yet, exited, Round, running, result, exec_shell,
  Executed,
}
use epass_usb_responder.Shell.{
  Exec, sigterm, sigkill, started, ended, exec_loop, one_round, poll_pipes, read_pipes, read_stdout,
  read_stderr, append_limited, reap, enforce_deadline, poll_timeout,
}
use epass_usb_responder.Shell.Signals.{escalation, late_rounds, exec_loop-escalation}
use epass_usb_responder.Shell.Heard.{completes, reported}
use epass_usb_responder.Shell.Returns.{exec_shell-eq}
use epass_usb_responder.Files.Upload.{file_ops_init}
use epass_usb_responder.Responder.Reply.{pair, msg_command_result, send, response}
use epass_usb_responder.Responder.Commands.{Config, CommandRun, handle_command_exec}
use epass_usb_responder.Responder.Device.{Device, read_text_file}
use epass_usb_responder.Responder.Device.Whole.{IsTrimmed, read_text_file-IsTrimmed}
use epass_usb_responder.Responder.Dispatch.{Surroundings, handle_frame, write_reply}
use epass_usb_responder.Protocol.Kv.{Kv}
use epass_usb_responder.Protocol.Kv.Encode.{kv_bytes}
use epass_usb_responder.Protocol.Stream.{returned}
use epass_usb_responder.Protocol.Stream.Complete.{transfers, taken}
use epass_usb_responder.Files.Host.{done}
use epass_usb_responder.Files.Remove.{file_delete}
use epass_usb_responder.Responder.Answers.Changes.{answer_bytes, handle_frame-answered}
use epass_usb_responder.Responder.Answers.Served.{delete}
use epass_usb_responder.Responder.Answers.Command.{
  IsRun, limits, told, handle_command_exec-reported,
}
use epass_usb_responder.Examples.Uploads.{host}

-- Output in the first round, both ends and the status in the third.
abbrev rounds : List Round
rounds =
    record { now_ms = 0; polled = ready (some (got (codes "hi"))) none; waited = not_yet }
    ∷ record { now_ms = 5; polled = interrupted; waited = not_yet }
    ∷ record { now_ms = 9; polled = ready (some (got [])) (some (got [])); waited = exited 4 }
    ∷ []

abbrev options : ExecOptions
options = record { timeout_ms = 8; max_stdout = 1; max_stderr = 10 }

exec_shell-eq_example :
    exec_shell (λ n. true) options (some (codes "ls")) 0 9 running rounds
    ≡ (if completes rounds then result (reported options 0 9 rounds) else Executed.unfinished)
exec_shell-eq_example =
    exec_shell-eq (λ n. true) options (codes "ls") 0 9 rounds (λ n. refl)
      ((omega arith, tt), (tt, ((omega arith, omega arith), tt)))

-- The deadline is at the start.
abbrev stopped : Exec
stopped = record {
  child_running = false;
  out_open = false;
  err_open = false;
  kill_sent = true;
  timed_out = true;
  exit_code = 4;
  stdout_data = codes "h";
  stderr_data = [];
  signals = sigterm ∷ sigkill ∷ sigkill ∷ [];
  waits = 100 ∷ 100 ∷ 100 ∷ [];
}

rounds_stop : exec_loop (λ n. true) options 0 rounds started ≡ ended stopped
unfolding exec_loop one_round poll_pipes read_pipes read_stdout read_stderr append_limited reap
    enforce_deadline poll_timeout filled
rounds_stop = refl

exec_loop-escalation_example : stopped.signals ≡ escalation (late_rounds 0 rounds)
exec_loop-escalation_example =
    exec_loop-escalation (λ n. true) (λ n. refl) options 0 rounds stopped
      ((omega arith, tt), (tt, ((omega arith, omega arith), tt))) rounds_stop

abbrev pub config : Config
config = record { default_timeout_ms = 8000; max_stdout = 65536; max_stderr = 65536 }

abbrev run : CommandRun
run = record { start = 0; stop = 9; launch = running; rounds = rounds }

abbrev shown_device : Device
shown_device = record {
  model = some (codes "board");
  os_release = none;
  kernel = none;
  version_run = run;
  root = none;
  sd = none;
}

-- 5 bytes, white space at the end, a NUL and more.
read_text_file-IsTrimmed_example :
    (shown : List ℕ) × (read_text_file (λ n. true) 4096 (some (codes "board \n" ++ 0 ∷ 1 ∷ []))
      ≡ ok shown)
    × IsTrimmed (c_string (take 4096 (codes "board \n" ++ 0 ∷ 1 ∷ []))) shown
read_text_file-IsTrimmed_example =
    read_text_file-IsTrimmed (λ n. true) 4096 (codes "board \n" ++ 0 ∷ 1 ∷ []) (λ n. refl)
      (omega arith)

abbrev pub around : Surroundings
around = record {
  malloc = λ n. true;
  realloc = λ n. true;
  kv_malloc = λ i n. true;
  detail = [];
  run = run;
  device = shown_device;
}

abbrev header : ℕ → ℕ → FrameHeader
header type payload_len = record {
  magic = 0;
  version = 1;
  type = type;
  flags = 0;
  request_id = 7;
  payload_len = payload_len;
  payload_crc32 = 0;
}

-- `f`, on the NAND storage.
abbrev delete_items : List Kv
delete_items = pair (codes "path") (codes "f") ∷ pair (codes "desire_storage") (codes "nand") ∷ []

abbrev delete_frame : Frame
delete_frame = record {
  header = header 15 (length (kv_bytes delete_items));
  payload = some (kv_bytes delete_items);
}

handle_frame-answered_example :
    (result : Bool) × (n : ℕ) × (msg : List ℕ) × (file_delete host 0
        (codes "f")
        (some (codes "nand"))
      ≡ done result n)
    × ((handle_frame host
          (2 ^ 32)
          config
          around
          (record { sessions = file_ops_init; host = 0 })
          delete_frame).1
        ≡ record { sessions = file_ops_init; host = n })
    × (length msg < 512)
    × (let ts = transfers (answer_bytes 7 result msg) in
        write_reply
          (λ n. true)
          (taken ts ++ [])
          (handle_frame host
            (2 ^ 32)
            config
            around
            (record { sessions = file_ops_init; host = 0 })
            delete_frame).0
        ≡ returned true ts [])
handle_frame-answered_example =
    handle_frame-answered host (2 ^ 32) config around
      (record { sessions = file_ops_init; host = 0 }) delete_frame
      (record {
        malloc_grants = λ n. refl;
        realloc_grants = λ n. refl;
        kv_malloc_grants = λ i n. refl;
      })
      15 delete_items (λ h. file_delete host h (codes "f") (some (codes "nand")))
      (delete (codes "f") (some (codes "nand")) ((omega arith, tt), omega arith)
        ((omega arith, (omega arith, (omega arith, (omega arith, tt)))), omega arith))
      (record { type_given = refl; carried = refl; announced = refl })

abbrev request : CommandRequest
request = record { timeout_ms = 8; max_stdout = 1; max_stderr = 0; command = some (codes "ls") }

abbrev command_frame : Frame
command_frame = record { header = header 20 18; payload = some (request_bytes request) }

request_runs : IsRun (2 ^ 32) (λ n. true) (λ n. true) config request command_frame run
unfolding write_le32
request_runs = record {
  granted = λ n. refl;
  enlarged = λ n. refl;
  request = record {
    timeout_fits = omega arith;
    max_stdout_fits = omega arith;
    max_stderr_fits = omega arith;
    size_fits = omega arith;
    given = refl;
  };
  carried = refl;
  announced = refl;
  started = refl;
  calm = ((omega arith, tt), (tt, ((omega arith, omega arith), tt)));
  complete = refl;
  code_fits = omega arith;
  streams_fit = omega arith;
  size_t_holds = omega arith;
}

handle_command_exec-reported_example :
    (payload : List ℕ) × (handle_command_exec
        (2 ^ 32)
        (λ n. true)
        (λ n. true)
        config
        run
        command_frame
      ≡ send (response msg_command_result 7 payload))
    × (decode_command_result (2 ^ 32) (λ n. true) payload
        ≡ ok (told (reported (limits config request) 0 9 rounds)))
handle_command_exec-reported_example =
    handle_command_exec-reported (2 ^ 32) (λ n. true) (λ n. true) config request command_frame run
      request_runs
