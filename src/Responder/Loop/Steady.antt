-- ===== src/Responder/Loop/Steady.antt =====
-- The state of src/responder.c between the turns of its loop.
use epass_usb_responder.Prelude.{
  ℕ, ◌≡◌, refl, Bool, true, ◌&&◌, Option, none, some, List, [], ◌∷◌, All, Bool-cases, inl, inr,
  arith,
}
use epass_usb_responder.Protocol.Frame.{Frame}
use epass_usb_responder.Protocol.Stream.{Sent, returned}
use epass_usb_responder.Files.Host.{Host}
use epass_usb_responder.Files.Upload.Reachable.{initialized}
use epass_usb_responder.Responder.Rx.{Run, ret, waiting, overrun}
use epass_usb_responder.Responder.Rx.Bounds.{AreAnswers, Keeps, read_frame_buffered-Keeps}
use epass_usb_responder.Responder.Commands.{Config}
use epass_usb_responder.Responder.Loop.{
  Ep0Read, try_again, read_failed, odd_size, events, OutPoll, readable, hung_up, quiet, Ready, Turn,
  interrupted, poll_failed, ready, Runtime, process_ep0_events, Step, going, stopped, hanging,
  faulting, on_ep0, after_write, handled, on_event, on_out, after_ep0, one_turn, then_turn, behind,
  handle_io_loop, initial_runtime,
}
use epass_usb_responder.Responder.Loop.Sessions.{handle_frame-IsKept}
use epass_usb_responder.Responder.Loop.Endpoints.{
  IsSteady, half, closed-IsSteady, on_ep0_events-IsHalfway, open_endpoints-IsSteady,
}

module _ {H : Type 0} (io : Host H) (size_mod : ℕ) (cfg : Config) where
  -- The kernel gives no more bytes than it is asked for.
  abbrev pub IsFair : Turn → Type 0
  IsFair interrupted = Unit
  IsFair poll_failed = Unit
  IsFair (ready r) = AreAnswers r.rx_events

  abbrev pub Stays : Step H → Type 0
  Stays (going rt out) = IsSteady io rt
  Stays stopped = Unit
  Stays hanging = Unit
  Stays faulting = Unit

  after_write-Stays : (rt : Runtime H) (sent : Sent) → IsSteady io rt → Stays (after_write rt sent)
  after_write-Stays rt (returned result out answers) s = s
  after_write-Stays rt Sent.waiting s = tt
  after_write-Stays rt Sent.overrun s = tt

  handled-Stays :
      (r : Ready) (rt : Runtime H) (run : Run (Option Frame))
      → IsSteady io rt
      → rt.enabled ≡ true
      → Keeps run
      → Stays (handled io size_mod cfg r rt run)
  unfolding handled
  handled-Stays r rt (ret none rx rest) s on k = closed-IsSteady io (record rt { rx = rx }) s.table
  handled-Stays r rt (ret (some frame) rx rest) s on k = after_write-Stays _ _ (record {
    in_is = s.in_is;
    out_is = s.out_is;
    disabled_empty = λ e. absurd (ground arith);
    sound = k.0;
    table = handle_frame-IsKept io size_mod cfg r.surroundings rt.server frame s.table;
  })
  handled-Stays r rt waiting s on k = tt
  handled-Stays r rt overrun s on k = tt

  on_event-Stays :
      (e : OutPoll) (r : Ready) (rt : Runtime H)
      → IsSteady io rt
      → rt.enabled ≡ true
      → AreAnswers r.rx_events
      → Stays (on_event io size_mod cfg e r rt)
  unfolding on_event
  on_event-Stays readable r rt s on fair =
      handled-Stays r rt _ s on
        (read_frame_buffered-Keeps r.surroundings.malloc rt.rx r.rx_events s.sound fair)
  on_event-Stays hung_up r rt s on fair = closed-IsSteady io rt s.table
  on_event-Stays quiet r rt s on fair = s

  on_out-Stays :
      (polled : Bool) (r : Ready) (rt : Runtime H)
      → IsSteady io rt
      → AreAnswers r.rx_events
      → Stays (on_out io size_mod cfg polled r rt)
  unfolding on_out
  on_out-Stays polled r rt s fair = elim (Bool-cases (rt.enabled && polled)) [
    | inl due ↦ rw due (on_event-Stays r.out r rt s (ground arith) fair)
    | inr undue ↦ rw undue s
  ]

  on_ep0-Stays :
      (polled : Bool) (r : Ready) (rt : Runtime H) (e : Option Ep0Read)
      → IsSteady io rt
      → AreAnswers r.rx_events
      → Stays (after_ep0 io size_mod cfg polled r (on_ep0 r rt e))
  unfolding on_ep0 process_ep0_events
  on_ep0-Stays polled r rt none s fair = on_out-Stays polled r rt s fair
  on_ep0-Stays polled r rt (some try_again) s fair =
      on_out-Stays polled r _ (open_endpoints-IsSteady io r.in_opens r.out_opens rt (half io rt s))
        fair
  on_ep0-Stays polled r rt (some read_failed) s fair = tt
  on_ep0-Stays polled r rt (some odd_size) s fair = tt
  on_ep0-Stays polled r rt (some (events es)) s fair =
      on_out-Stays polled r _
        (open_endpoints-IsSteady io r.in_opens r.out_opens _
          (on_ep0_events-IsHalfway io es rt (half io rt s)))
        fair

  one_turn-Stays :
      (rt : Runtime H) (turn : Turn)
      → IsSteady io rt
      → IsFair turn
      → Stays (one_turn io size_mod cfg rt turn)
  unfolding one_turn
  one_turn-Stays rt interrupted s fair = s
  one_turn-Stays rt poll_failed s fair = tt
  one_turn-Stays rt (ready r) s fair = on_ep0-Stays _ r rt r.ep0 s fair

  behind-Stays :
      (out : List (List ℕ)) (step : Step H) → Stays step → Stays (behind io size_mod cfg out step)
  behind-Stays out (going rt out') s = s
  behind-Stays out stopped s = tt
  behind-Stays out hanging s = tt
  behind-Stays out faulting s = tt

  then_turn-Stays :
      (step : Step H) (next : Runtime H → Step H)
      → Stays step
      → ((rt : Runtime H) → IsSteady io rt → Stays (next rt))
      → Stays (then_turn io size_mod cfg step next)
  then_turn-Stays (going rt out) next s f = behind-Stays out (next rt) (f rt s)
  then_turn-Stays stopped next s f = tt
  then_turn-Stays hanging next s f = tt
  then_turn-Stays faulting next s f = tt

  loop-Stays :
      (turns : List Turn) (rt : Runtime H)
      → IsSteady io rt
      → All IsFair turns
      → Stays (handle_io_loop io size_mod cfg rt turns)
  unfolding handle_io_loop
  loop-Stays [] rt s fair = s
  loop-Stays (turn ∷ turns) rt s fair =
      then_turn-Stays (one_turn io size_mod cfg rt turn) _ (one_turn-Stays rt turn s fair.0)
        λ rt' s'. loop-Stays turns rt' s' fair.1

  -- After any turns of the loop from the start, in which the kernel gives no more bytes than it is
  -- asked for, and whatever requests come, the two endpoints are open exactly if the responder is
  -- enabled, a responder that is disabled holds no received bytes, the receive buffer fits its
  -- capacity, and the table of uploads is one that calls of the upload operations lead to.
  pub handle_io_loop-Stays :
      (h : H) (turns : List Turn)
      → All IsFair turns
      → Stays (handle_io_loop io size_mod cfg (initial_runtime h) turns)
  unfolding initial_runtime
  handle_io_loop-Stays h turns fair =
      loop-Stays turns _
        (record {
          in_is = refl;
          out_is = refl;
          disabled_empty = λ e. refl;
          sound = record { fits = omega arith; bytes = tt };
          table = initialized;
        })
        fair
