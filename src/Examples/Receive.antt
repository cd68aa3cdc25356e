-- ===== src/Examples/Receive.antt =====
-- The receive buffer of src/responder.c on concrete events.
use epass_usb_responder.Prelude.{ℕ, refl, false, List, [], ◌∷◌, arith}
use epass_usb_responder.Responder.Rx.{
  Rx, RxEvent, timed_out, poll_failed, got, eintr, hung_up, read_frame_buffered,
}
use epass_usb_responder.Responder.Rx.Reassembly.{HasFrame, read_frame_buffered-HasFrame}
use epass_usb_responder.Responder.Rx.Bounds.{Keeps, read_frame_buffered-Keeps}
use epass_usb_responder.Examples.Wire.{grants, are_bytes_lem, chunk_raw, chunk_back, chunk_decodes}

-- Three bytes are there already.
abbrev state : Rx
state = record { buf = 83 ∷ 65 ∷ 80 ∷ []; cap = 4096; ep_shutdown = false }

abbrev first_part : List ℕ
first_part = 69 ∷ 1 ∷ 0 ∷ 11 ∷ 0 ∷ 0 ∷ 0 ∷ 0 ∷ 0 ∷ 7 ∷ 0 ∷ 0 ∷ 0 ∷ []

-- One byte of the next frame follows.
abbrev second_part : List ℕ
second_part = 2 ∷ 0 ∷ 0 ∷ 0 ∷ 172 ∷ 42 ∷ 147 ∷ 216 ∷ 104 ∷ 105 ∷ 83 ∷ []

abbrev events : List RxEvent
events = timed_out ∷ got first_part ∷ poll_failed eintr ∷ got second_part ∷ []

read_frame_buffered-HasFrame_example :
    HasFrame chunk_back (83 ∷ []) (read_frame_buffered grants state events)
read_frame_buffered-HasFrame_example =
    read_frame_buffered-HasFrame grants (λ n. refl) chunk_raw (83 ∷ []) chunk_back
      (are_bytes_lem chunk_raw refl) chunk_decodes state events (omega arith)
      (tt, ((omega arith, omega arith), (tt, ((omega arith, omega arith), tt)))) (omega arith) refl

read_frame_buffered-Keeps_example :
    Keeps (read_frame_buffered grants state (got first_part ∷ hung_up ∷ []))
read_frame_buffered-Keeps_example =
    read_frame_buffered-Keeps grants state (got first_part ∷ hung_up ∷ [])
      (record { fits = omega arith; bytes = are_bytes_lem state.buf refl })
      ((omega arith, are_bytes_lem first_part refl), (tt, tt))
