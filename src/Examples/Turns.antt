-- ===== src/Examples/Turns.antt =====
-- The loop of src/responder.c on concrete turns.
use epass_usb_responder.Prelude.{refl, true, none, some, List, [], ◌∷◌, ◌^◌}
use epass_usb_responder.Responder.Rx.{RxEvent, timed_out}
use epass_usb_responder.Responder.Loop.{
  bind, enable, events, readable, hung_up, interrupted, ready, Turn, handle_io_loop,
  initial_runtime,
}
use epass_usb_responder.Responder.Loop.Steady.{Stays, handle_io_loop-Stays}
use epass_usb_responder.Responder.Loop.Silent.{IsSilent, handle_io_loop-IsSilent}
use epass_usb_responder.Examples.Uploads.{host}
use epass_usb_responder.Examples.Requests.{config, around}

-- The responder is enabled, and the endpoints go away while it waits for a frame.
abbrev turns : List Turn
turns =
    interrupted
    ∷ ready (record {
      ep0 = some (events (bind ∷ enable ∷ []));
      out = readable;
      in_opens = true;
      out_opens = true;
      rx_events = [];
      surroundings = around;
      answers = [];
    })
    ∷ ready (record {
      ep0 = none;
      out = readable;
      in_opens = true;
      out_opens = true;
      rx_events = timed_out ∷ RxEvent.hung_up ∷ [];
      surroundings = around;
      answers = [];
    })
    ∷ []

handle_io_loop-Stays_example :
    Stays host (2 ^ 32) config (handle_io_loop host (2 ^ 32) config (initial_runtime 0) turns)
handle_io_loop-Stays_example =
    handle_io_loop-Stays host (2 ^ 32) config 0 turns (tt, (tt, ((tt, (tt, tt)), tt)))

-- Only BIND comes, and the endpoint hangs up.
abbrev quiet_turns : List Turn
quiet_turns =
    interrupted
    ∷ ready (record {
      ep0 = some (events (bind ∷ []));
      out = hung_up;
      in_opens = true;
      out_opens = true;
      rx_events = [];
      surroundings = around;
      answers = [];
    })
    ∷ []

handle_io_loop-IsSilent_example :
    IsSilent
      (initial_runtime 0)
      (handle_io_loop host (2 ^ 32) config (initial_runtime 0) quiet_turns)
unfolding initial_runtime
handle_io_loop-IsSilent_example =
    handle_io_loop-IsSilent host (2 ^ 32) config quiet_turns (initial_runtime 0) refl (tt, tt)
