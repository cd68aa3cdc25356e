-- ===== src/Responder/Rx.antt =====
-- The receive buffer of src/responder.c: `rx_reserve`, `rx_read_some` and `read_frame_buffered`.
-- What the kernel answers to the successive calls of `poll` and `read` on the OUT endpoint is a list
-- of events. The allocator answers alike to requests of one size. Log lines and the text of the last
-- error are left out.
mod Header
pub mod Pending
pub mod Reassembly
pub mod Bounds
pub use Header.{max_payload}
unfoldable pub use Header.{announced_size}
use epass_usb_responder.Prelude.{
  ℕ, zero, suc, ◌+◌, ◌*◌, Bool, true, false, not, ◌||◌, Option, none, some, List, [], ◌∷◌, ◌++◌,
  ltb, leb, ◌==◌, if◌then◌else◌, length, drop,
}
use epass_usb_responder.Outcome.{Outcome, ok, failed, fault, slice, filled}
use epass_usb_responder.Growth.{grown}
use epass_usb_responder.Protocol.Frame.{Frame, header_size, decode_frame}

abbrev pub io_chunk : ℕ
io_chunk = 16 * 1024

-- The values of `errno` that the code tells apart.
pub data Errno : Type 0 where
  eintr eshutdown enodev epipe econnreset other : Errno

unfoldable pub is_ep_shutdown_errno : Errno → Bool
is_ep_shutdown_errno eshutdown = true
is_ep_shutdown_errno enodev = true
is_ep_shutdown_errno epipe = true
is_ep_shutdown_errno econnreset = true
is_ep_shutdown_errno _ = false

-- One round of the loop in `rx_read_some`: `poll` times out, fails or shows POLLHUP, POLLERR or
-- POLLNVAL; or `read` fails or gives bytes, none at the end of the file.
pub data RxEvent : Type 0 where
  timed_out hung_up : RxEvent
  poll_failed read_failed : Errno → RxEvent
  got : List ℕ → RxEvent

-- `buf` is the `rx_size` bytes at `rx_buf`.
pub record Rx : Type 0 where
  pub buf : List ℕ
  pub cap : ℕ
  pub ep_shutdown : Bool

-- A call returns, with the state and the events that are left; or the events end while it waits; or
-- it writes outside a buffer.
pub data Run {ℓ} (A : Type ℓ) : Type ℓ where
  ret : A → Rx → List RxEvent → Run A
  waiting overrun : Run A

infixl 5 ◌>>=◌
abbrev pub ◌>>=◌ {ℓ κ} : {A : Type ℓ} {B : Type κ} → Run A → (A → Rx → List RxEvent → Run B) → Run B
ret a rt es >>= k = k a rt es
waiting >>= k = waiting
overrun >>= k = overrun

-- The bytes that `read` gave are copied behind the others.
unfoldable pub store : Rx → List ℕ → List RxEvent → Option ℕ → Run Bool
store rt bytes es none = ret false rt es
store rt bytes es (some cap) =
    if leb (length rt.buf + length bytes) cap
    then ret true (record rt { buf = rt.buf ++ bytes; cap = cap }) es
    else overrun

-- `usb_responder_protocol_decode_frame` on the copy of the frame.
unfoldable pub decoded : Rx → List RxEvent → Outcome Frame → Run (Option Frame)
decoded rt es (ok frame) = ret (some frame) rt es
decoded rt es failed = ret none rt es
decoded rt es fault = overrun

module _ (malloc : ℕ → Bool) where
  -- `rx_reserve(rt, needed)`: the capacity afterwards, or none where the allocator refuses.
  unfoldable pub rx_reserve : Rx → ℕ → Option ℕ
  rx_reserve rt needed =
      let new_cap = grown 4096 rt.cap needed in
      let enlarged = if malloc new_cap then some new_cap else none in
      if leb needed rt.cap then some rt.cap else enlarged

  -- What follows the loop of `rx_read_some` for `r = length bytes`; the kernel must not give more
  -- than the chunk that it was asked for.
  unfoldable pub received : Rx → List ℕ → List RxEvent → Run Bool
  received rt bytes es =
      if length bytes == 0
      then ret false rt es
      else if ltb io_chunk (length bytes)
      then overrun
      else store rt bytes es (rx_reserve rt (length rt.buf + length bytes))

  -- The loop of `rx_read_some`.
  unfoldable pub rx_wait : Rx → List RxEvent → Run Bool
  rx_wait rt [] = waiting
  rx_wait rt (timed_out ∷ es) = rx_wait rt es
  rx_wait rt (poll_failed eintr ∷ es) = rx_wait rt es
  rx_wait rt (poll_failed e ∷ es) = ret false rt es
  rx_wait rt (hung_up ∷ es) = ret false (record rt { ep_shutdown = true }) es
  rx_wait rt (read_failed eintr ∷ es) = rx_wait rt es
  rx_wait rt (read_failed e ∷ es) =
      ret false
        (record rt { ep_shutdown = if is_ep_shutdown_errno e then true else rt.ep_shutdown }) es
  rx_wait rt (got bytes ∷ es) = received rt bytes es

  unfoldable pub rx_read_some : Rx → List RxEvent → Run Bool
  rx_read_some rt es = if malloc io_chunk then rx_wait rt es else ret false rt es

  -- `while (rt->rx_size < needed) if (!rx_read_some(rt)) return false;`. Each round takes an event,
  -- so more fuel than events is enough.
  unfoldable pub rx_fill : ℕ → ℕ → Rx → List RxEvent → Run Bool
  rx_fill zero needed rt es = waiting
  rx_fill (suc fuel) needed rt es =
      if leb needed (length rt.buf)
      then ret true rt es
      else rx_read_some rt es >>= λ more rt' es'. elim more [
        | true ↦ rx_fill fuel needed rt' es'
        | false ↦ ret false rt' es'
      ]

  -- The frame is copied out, and what is behind it moves to the front.
  unfoldable pub take_frame : ℕ → Rx → List RxEvent → Run (Option Frame)
  take_frame size rt es =
      let rest = record rt { buf = drop size rt.buf } in
      if malloc size
      then (elim (slice rt.buf 0 size) [
        | ok raw ↦ decoded rest es (decode_frame malloc raw)
        | failed ↦ overrun
        | fault ↦ overrun
      ])
      else ret none rt es

  -- The second loop, for a frame of the announced size.
  unfoldable pub read_body : Rx → List RxEvent → Outcome ℕ → Run (Option Frame)
  read_body rt es (ok frame_size) = rx_fill (suc (length es)) frame_size rt es >>= λ full rt' es'.
      elim full [ true ↦ take_frame frame_size rt' es' | false ↦ ret none rt' es' ]
  read_body rt es failed = ret none rt es
  read_body rt es fault = overrun

  unfoldable pub read_frame_buffered : Rx → List RxEvent → Run (Option Frame)
  read_frame_buffered rt es = rx_fill (suc (length es)) header_size rt es >>= λ full rt' es'.
      elim full [ true ↦ read_body rt' es' (announced_size rt'.buf) | false ↦ ret none rt' es' ]
