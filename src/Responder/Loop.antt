-- ===== src/Responder/Loop.antt =====
-- `close_eps`, `process_ep0_events`, `handle_io_loop` and the defaults of `usb_responder_run` of
-- src/responder.c. What the kernel answers in one turn of the loop is an argument; a descriptor is
-- open or not. The loop ends where the turns end.
pub mod Sessions
pub mod Endpoints
pub mod Steady
pub mod Silent
use epass_usb_responder.Prelude.{
  ℕ, ◌*◌, Bool, true, false, not, ◌&&◌, Option, none, some, List, [], ◌∷◌, ◌++◌, if◌then◌else◌,
}
use epass_usb_responder.Protocol.Frame.{Frame}
use epass_usb_responder.Protocol.Stream.{Sent, returned, WriteAnswer}
use epass_usb_responder.Files.Host.{Host}
use epass_usb_responder.Files.Upload.{file_ops_init}
use epass_usb_responder.Responder.Rx.{Rx, RxEvent, Run, ret, waiting, overrun, read_frame_buffered}
use epass_usb_responder.Responder.Reply.{Reply}
use epass_usb_responder.Responder.Transfers.{Server}
use epass_usb_responder.Responder.Commands.{Config, or_default}
use epass_usb_responder.Responder.Dispatch.{Surroundings, handle_frame, write_reply}

-- The events that `process_ep0_events` tells apart.
pub data Ep0Event : Type 0 where
  bind enable disable unbind other : Ep0Event

-- What `read` on ep0 does: it fails with EINTR or EAGAIN, or with another error, or it gives a part of
-- an event, or at most four events.
pub data Ep0Read : Type 0 where
  try_again read_failed odd_size : Ep0Read
  events : List Ep0Event → Ep0Read

-- The events of the OUT endpoint: POLLIN, or POLLHUP, POLLERR or POLLNVAL without it, or none.
pub data OutPoll : Type 0 where
  readable hung_up quiet : OutPoll

-- What happens in one turn: `poll` fails, with EINTR or with another error, or it gives the events of
-- ep0, with what `read` answers there, and those of the OUT endpoint. Then come whether the two
-- endpoints can be opened, what `read_frame_buffered` and the handler find, and what `write` answers.
pub record Ready : Type 0 where
  pub ep0 : Option Ep0Read
  pub out : OutPoll
  pub in_opens : Bool
  pub out_opens : Bool
  pub rx_events : List RxEvent
  pub surroundings : Surroundings
  pub answers : List WriteAnswer

pub data Turn : Type 0 where
  interrupted poll_failed : Turn
  ready : Ready → Turn

-- `enabled` and the runtime; `ep_in` and `ep_out` say whether the descriptors are open.
pub record Runtime (H : Type 0) : Type 0 where
  pub enabled : Bool
  pub ep_in : Bool
  pub ep_out : Bool
  pub rx : Rx
  pub server : Server H

unfoldable pub close_eps : {H : Type 0} → Runtime H → Runtime H
close_eps rt = record rt {
  ep_in = false;
  ep_out = false;
  rx = record rt.rx { buf = []; ep_shutdown = false };
}

unfoldable pub on_ep0_event : {H : Type 0} → Runtime H → Ep0Event → Runtime H
on_ep0_event rt bind = rt
on_ep0_event rt enable = record rt { enabled = true }
on_ep0_event rt disable = close_eps (record rt { enabled = false })
on_ep0_event rt unbind = close_eps (record rt { enabled = false })
on_ep0_event rt other = rt

unfoldable pub on_ep0_events : {H : Type 0} → Runtime H → List Ep0Event → Runtime H
on_ep0_events rt [] = rt
on_ep0_events rt (event ∷ rest) = on_ep0_events (on_ep0_event rt event) rest

-- None where it returns false.
unfoldable pub process_ep0_events : {H : Type 0} → Runtime H → Ep0Read → Option (Runtime H)
process_ep0_events rt try_again = some rt
process_ep0_events rt read_failed = none
process_ep0_events rt odd_size = none
process_ep0_events rt (events es) = some (on_ep0_events rt es)

-- The statement behind the events: the endpoints are opened where that is due.
unfoldable pub open_endpoints : {H : Type 0} → Bool → Bool → Runtime H → Runtime H
open_endpoints in_opens out_opens rt =
    let due = rt.enabled && not rt.ep_in in
    let opened = record rt { ep_in = true; ep_out = true } in
    let given_up = record (close_eps rt) { enabled = false } in
    if due then (if in_opens && out_opens then opened else given_up) else rt

-- One turn goes on, with what was written; or the loop returns false; or a call never returns; or one
-- accesses memory out of bounds.
pub data Step (H : Type 0) : Type 0 where
  going : Runtime H → List (List ℕ) → Step H
  stopped hanging faulting : Step H

-- What is read from ep0 where it has an event.
unfoldable pub on_ep0 : {H : Type 0} → Ready → Runtime H → Option Ep0Read → Option (Runtime H)
on_ep0 r rt none = some rt
on_ep0 r rt (some answer) = elim (process_ep0_events rt answer) [
  | none ↦ none
  | some rt' ↦ some (open_endpoints r.in_opens r.out_opens rt')
]

abbrev pub disconnected : {H : Type 0} → Runtime H → Runtime H
disconnected rt = record (close_eps rt) { enabled = false }

-- What was written goes on; whether it was written whole is only logged.
abbrev pub after_write : {H : Type 0} → Runtime H → Sent → Step H
after_write rt (returned result out answers) = going rt out
after_write rt Sent.waiting = hanging
after_write rt Sent.overrun = faulting

module _ {H : Type 0} (io : Host H) (size_mod : ℕ) (cfg : Config) where
  unfoldable pub handled : Ready → Runtime H → Run (Option Frame) → Step H
  handled r rt (ret none rx rest) = going (disconnected (record rt { rx = rx })) []
  handled r rt (ret (some frame) rx rest) =
      let reply = handle_frame io size_mod cfg r.surroundings rt.server frame in
      after_write (record rt { rx = rx; server = reply.1 })
        (write_reply r.surroundings.malloc r.answers reply.0)
  handled r rt waiting = hanging
  handled r rt overrun = faulting

  unfoldable pub on_event : OutPoll → Ready → Runtime H → Step H
  on_event readable r rt =
      handled r rt (read_frame_buffered r.surroundings.malloc rt.rx r.rx_events)
  on_event hung_up r rt = going (disconnected rt) []
  on_event quiet r rt = going rt []

  -- The statement about the OUT endpoint; `polled` is `n > 1`.
  unfoldable pub on_out : Bool → Ready → Runtime H → Step H
  on_out polled r rt = if rt.enabled && polled then on_event r.out r rt else going rt []

  abbrev pub after_ep0 : Bool → Ready → Option (Runtime H) → Step H
  after_ep0 polled r none = stopped
  after_ep0 polled r (some rt) = on_out polled r rt

  unfoldable pub one_turn : Runtime H → Turn → Step H
  one_turn rt interrupted = going rt []
  one_turn rt poll_failed = stopped
  one_turn rt (ready r) = after_ep0 (rt.enabled && rt.ep_out) r (on_ep0 r rt r.ep0)

  abbrev pub behind : List (List ℕ) → Step H → Step H
  behind out (going rt out') = going rt (out ++ out')
  behind out stopped = stopped
  behind out hanging = hanging
  behind out faulting = faulting

  abbrev pub then_turn : Step H → (Runtime H → Step H) → Step H
  then_turn (going rt out) next = behind out (next rt)
  then_turn stopped next = stopped
  then_turn hanging next = hanging
  then_turn faulting next = faulting

  -- The loop, with all that it wrote; nothing sets `should_stop`.
  unfoldable pub handle_io_loop : Runtime H → List Turn → Step H
  handle_io_loop rt [] = going rt []
  handle_io_loop rt (turn ∷ turns) = then_turn (one_turn rt turn) (λ rt'. handle_io_loop rt' turns)

-- The limits of `usb_responder_run`, and its runtime before the loop.
unfoldable pub configured : Config → Config
configured cfg = record {
  default_timeout_ms = or_default cfg.default_timeout_ms 8000;
  max_stdout = or_default cfg.max_stdout (64 * 1024);
  max_stderr = or_default cfg.max_stderr (64 * 1024);
}

unfoldable pub initial_runtime : {H : Type 0} → H → Runtime H
initial_runtime h = record {
  enabled = false;
  ep_in = false;
  ep_out = false;
  rx = record { buf = []; cap = 0; ep_shutdown = false };
  server = record { sessions = file_ops_init; host = h };
}
