-- ===== src/Responder/Rx/Bounds.antt =====
-- The receive buffer of src/responder.c on any events: its accesses and its capacity.
use epass_usb_responder.Prelude.{
  ℕ, zero, suc, ◌+◌, ◌≤◌, ◌≡◌, ◌≢◌, refl, Bool, true, false, some, none, List, [], ◌∷◌, arith, ltb,
  leb, ◌==◌, length, length-append, length-drop, drop, take, All, All-append, All-drop, All-take,
  Option, Bool-cases, inl, inr,
}
use epass_usb_responder.Outcome.{Outcome, ok, failed, fault, slice-eq-take}
use epass_usb_responder.Growth.{grown-enough}
use epass_usb_responder.Protocol.Words.{IsByte, read_le16-inside, read_le32-inside}
use epass_usb_responder.Protocol.Frame.{Frame, header_size}
use epass_usb_responder.Protocol.Frame.Safety.{decode_frame-ne-fault}
use epass_usb_responder.Responder.Rx.{
  Rx, RxEvent, timed_out, hung_up, poll_failed, read_failed, got, eintr, Run, ret, waiting, overrun,
  ◌>>=◌, io_chunk, rx_reserve, store, received, rx_wait, rx_read_some, rx_fill, announced_size,
  decoded, take_frame, read_body, read_frame_buffered,
}
use epass_usb_responder.Responder.Rx.Pending.{Fits}

-- What `read` of at most a chunk may give: bytes, and no more than a chunk of them.
abbrev IsAnswer : RxEvent → Type 0
IsAnswer (got bytes) = (length bytes ≤ io_chunk) × All IsByte bytes
IsAnswer _ = Unit

abbrev pub AreAnswers : List RxEvent → Type 0
AreAnswers = All IsAnswer

pub record IsSound (rt : Rx) : Type 0 where
  pub fits : Fits rt
  pub bytes : All IsByte rt.buf

-- Nothing was written outside the buffer, and the state is sound again.
abbrev pub Keeps {ℓ} : {A : Type ℓ} → Run A → Type 0
Keeps (ret a rt es) = IsSound rt × AreAnswers es
Keeps waiting = Unit
Keeps overrun = ⊥

module _ (malloc : ℕ → Bool) where
  reserve-enough :
      (rt : Rx) (needed cap : ℕ) → rx_reserve malloc rt needed ≡ some cap → needed ≤ cap
  unfolding rx_reserve
  reserve-enough rt needed cap e = ground (arith, grown-enough 4096 rt.cap needed (omega arith))

  store-Keeps :
      (rt : Rx) (bytes : List ℕ) (es : List RxEvent) (cap : Option ℕ)
      → rx_reserve malloc rt (length rt.buf + length bytes) ≡ cap
      → IsSound rt
      → All IsByte bytes
      → AreAnswers es
      → Keeps (store rt bytes es cap)
  unfolding store
  store-Keeps rt bytes es none e s hb he = (s, he)
  store-Keeps rt bytes es (some cap) e s hb he = rw within (
    record {
      fits = omega (arith, length-append rt.buf bytes, room);
      bytes = All-append IsByte rt.buf bytes s.bytes hb;
    },
    he,
  )
    where
      room : length rt.buf + length bytes ≤ cap
      room = reserve-enough rt (length rt.buf + length bytes) cap e

      within : leb (length rt.buf + length bytes) cap ≡ true
      within = ground (arith, room)

  received-Keeps :
      (rt : Rx) (bytes : List ℕ) (es : List RxEvent)
      → IsSound rt
      → length bytes ≤ io_chunk
      → All IsByte bytes
      → AreAnswers es
      → Keeps (received malloc rt bytes es)
  unfolding received
  received-Keeps rt bytes es s small hb he = elim (Bool-cases (length bytes == 0)) [
    | inl end ↦ rw end (s, he)
    | inr more ↦
        let chunk : ltb io_chunk (length bytes) ≡ false = ground arith in
        rw (more, chunk) (store-Keeps rt bytes es _ refl s hb he)
  ]

  hung : (rt : Rx) (b : Bool) → IsSound rt → IsSound (record rt { ep_shutdown = b })
  hung rt b s = record { fits = s.fits; bytes = s.bytes }

  rx_wait-Keeps :
      (rt : Rx) (es : List RxEvent) → IsSound rt → AreAnswers es → Keeps (rx_wait malloc rt es)
  unfolding rx_wait
  rx_wait-Keeps rt [] s h = tt
  rx_wait-Keeps rt (timed_out ∷ es) s h = rx_wait-Keeps rt es s h.1
  rx_wait-Keeps rt (hung_up ∷ es) s h = (hung rt true s, h.1)
  rx_wait-Keeps rt (poll_failed eintr ∷ es) s h = rx_wait-Keeps rt es s h.1
  rx_wait-Keeps rt (poll_failed _ ∷ es) s h = (s, h.1)
  rx_wait-Keeps rt (read_failed eintr ∷ es) s h = rx_wait-Keeps rt es s h.1
  rx_wait-Keeps rt (read_failed _ ∷ es) s h = (hung rt _ s, h.1)
  rx_wait-Keeps rt (got bytes ∷ es) s h = received-Keeps rt bytes es s h.0.0 h.0.1 h.1

  pub rx_read_some-Keeps :
      (rt : Rx) (es : List RxEvent) → IsSound rt → AreAnswers es → Keeps (rx_read_some malloc rt es)
  unfolding rx_read_some
  rx_read_some-Keeps rt es s h = elim (Bool-cases (malloc io_chunk)) [
    | inl granted ↦ rw granted (rx_wait-Keeps rt es s h)
    | inr denied ↦ rw denied (s, h)
  ]

  -- After the loop the buffer holds what was asked for, if the loop returned true.
  abbrev Fills : ℕ → Run Bool → Type 0
  Fills needed (ret true rt es) = IsSound rt × AreAnswers es × (needed ≤ length rt.buf)
  Fills needed (ret false rt es) = IsSound rt × AreAnswers es
  Fills needed waiting = Unit
  Fills needed overrun = ⊥

  Fills-bind :
      (needed fuel : ℕ) (r : Run Bool)
      → Keeps r
      → ((rt : Rx) (es : List RxEvent)
          → IsSound rt
          → AreAnswers es
          → Fills needed (rx_fill malloc fuel needed rt es))
      → Fills needed (
          r >>= λ more rt' es'. elim more [
            | true ↦ rx_fill malloc fuel needed rt' es'
            | false ↦ ret false rt' es'
          ])
  Fills-bind needed fuel (ret true rt es) h f = f rt es h.0 h.1
  Fills-bind needed fuel (ret false rt es) h f = h
  Fills-bind needed fuel waiting h f = tt
  Fills-bind needed fuel overrun h f = h

  rx_fill-Fills :
      (fuel needed : ℕ) (rt : Rx) (es : List RxEvent)
      → IsSound rt
      → AreAnswers es
      → Fills needed (rx_fill malloc fuel needed rt es)
  unfolding rx_fill
  rx_fill-Fills zero needed rt es s h = tt
  rx_fill-Fills (suc fuel) needed rt es s h = elim (Bool-cases (leb needed (length rt.buf))) [
    | inl full ↦ rw full (s, h, ground arith)
    | inr short ↦ rw short (
        Fills-bind needed fuel (rx_read_some malloc rt es) (rx_read_some-Keeps rt es s h)
          (λ rt' es'. rx_fill-Fills fuel needed rt' es'))
  ]

  filled-Keeps {ℓ} :
      {A : Type ℓ} (needed : ℕ) (r : Run Bool) (k : Rx → List RxEvent → Run A) (no_frame : A)
      → Fills needed r
      → ((rt : Rx) (es : List RxEvent)
          → IsSound rt
          → AreAnswers es
          → needed ≤ length rt.buf
          → Keeps (k rt es))
      → Keeps (r >>= λ full rt' es'. elim full [ true ↦ k rt' es' | false ↦ ret no_frame rt' es' ])
  filled-Keeps needed (ret true rt es) k n h f = f rt es h.0 h.1 h.2
  filled-Keeps needed (ret false rt es) k n h f = h
  filled-Keeps needed waiting k n h f = tt
  filled-Keeps needed overrun k n h f = h

  decoded-Keeps :
      (rt : Rx) (es : List RxEvent) (r : Outcome Frame)
      → r ≢ fault
      → IsSound rt
      → AreAnswers es
      → Keeps (decoded rt es r)
  unfolding decoded
  decoded-Keeps rt es (ok f) safe s h = (s, h)
  decoded-Keeps rt es failed safe s h = (s, h)
  decoded-Keeps rt es fault safe s h = absurd (safe refl)

  take_frame-Keeps :
      (size : ℕ) (rt : Rx) (es : List RxEvent)
      → IsSound rt
      → AreAnswers es
      → size ≤ length rt.buf
      → Keeps (take_frame malloc size rt es)
  unfolding take_frame
  take_frame-Keeps size rt es s h enough = elim (Bool-cases (malloc size)) [
    | inl granted ↦
        rw (granted, slice-eq-take rt.buf 0 size (omega arith))
          (decoded-Keeps (record rt { buf = drop size rt.buf }) es _
            (decode_frame-ne-fault malloc (take size rt.buf) (All-take IsByte size rt.buf s.bytes))
            (record {
              fits = omega (arith, length-drop size rt.buf, s.fits);
              bytes = All-drop IsByte size rt.buf s.bytes;
            })
            h)
    | inr denied ↦ rw denied (s, h)
  ]

  announced_size-ne-fault : (buf : List ℕ) → header_size ≤ length buf → announced_size buf ≢ fault
  unfolding announced_size
  announced_size-ne-fault buf long =
      rw
        (
          read_le32-inside buf 0 (omega arith),
          read_le16-inside buf 4 (omega arith),
          read_le32-inside buf 16 (omega arith),
        )
        (ground arith)

  read_body-Keeps :
      (rt : Rx) (es : List RxEvent) (size : Outcome ℕ)
      → size ≢ fault
      → IsSound rt
      → AreAnswers es
      → Keeps (read_body malloc rt es size)
  unfolding read_body
  read_body-Keeps rt es (ok size) safe s h =
      filled-Keeps size _ (take_frame malloc size) none
        (rx_fill-Fills (suc (length es)) size rt es s h) (take_frame-Keeps size)
  read_body-Keeps rt es failed safe s h = (s, h)
  read_body-Keeps rt es fault safe s h = absurd (safe refl)

  -- From a buffer of bytes that fits its capacity, on any answers of the kernel of at most a chunk
  -- each, a call of `read_frame_buffered` accesses nothing outside its buffers, whatever the
  -- allocator answers; if it returns, the buffer holds bytes and fits its capacity again.
  pub read_frame_buffered-Keeps :
      (rt : Rx) (es : List RxEvent)
      → IsSound rt
      → AreAnswers es
      → Keeps (read_frame_buffered malloc rt es)
  unfolding read_frame_buffered
  read_frame_buffered-Keeps rt es s h =
      filled-Keeps header_size _ (λ rt' es'. read_body malloc rt' es' (announced_size rt'.buf)) none
        (rx_fill-Fills (suc (length es)) header_size rt es s h)
        (λ rt' es' s' h' long.
          read_body-Keeps rt' es' (announced_size rt'.buf) (announced_size-ne-fault rt'.buf long) s'
            h')
