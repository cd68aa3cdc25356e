-- ===== src/Responder/Rx/Pending.antt =====
-- Calls of `rx_read_some` in src/responder.c against the abstract view of the endpoint: the bytes
-- that are received and not yet handed on.
use epass_usb_responder.Prelude.{
  ℕ, zero, suc, ◌+◌, ◌≤◌, ◌<◌, ◌≡◌, refl, sym, ap, ◌∙◌, Bool, true, false, some, List, [], ◌∷◌,
  ◌++◌, append_assoc, arith, leb, if◌then◌else◌, length, length-append, Bool-cases, inl, inr,
}
use epass_usb_responder.Growth.{grown, grown-enough}
use epass_usb_responder.Responder.Rx.{
  Rx, RxEvent, timed_out, hung_up, poll_failed, read_failed, got, eintr, Run, ret, ◌>>=◌, io_chunk,
  rx_reserve, store, received, rx_wait, rx_read_some, rx_fill,
}

-- The bytes that the events still bring.
abbrev pub data_of : List RxEvent → List ℕ
data_of [] = []
data_of (got bytes ∷ es) = bytes ++ data_of es
data_of (_ ∷ es) = data_of es

abbrev pub pending : Rx → List RxEvent → List ℕ
pending rt es = rt.buf ++ data_of es

-- Events of a healthy link: waits and interruptions, and reads of one byte to one chunk.
abbrev IsHealthy : RxEvent → Type 0
IsHealthy timed_out = Unit
IsHealthy hung_up = ⊥
IsHealthy (poll_failed eintr) = Unit
IsHealthy (poll_failed _) = ⊥
IsHealthy (read_failed eintr) = Unit
IsHealthy (read_failed _) = ⊥
IsHealthy (got bytes) = (0 < length bytes) × (length bytes ≤ io_chunk)

abbrev pub AreHealthy : List RxEvent → Type 0
AreHealthy [] = Unit
AreHealthy (e ∷ es) = IsHealthy e × AreHealthy es

abbrev pub Fits : Rx → Type 0
Fits rt = length rt.buf ≤ rt.cap

-- The call returned true, took an event, and moved bytes from the events to the buffer.
pub record HasRead (rt : Rx) (es : List RxEvent) (r : Run Bool) : Type 0 where
  pub rt' : Rx
  pub es' : List RxEvent
  pub returns : r ≡ ret true rt' es'
  pub same_pending : pending rt' es' ≡ pending rt es
  pub fewer : length es' < length es
  pub healthy : AreHealthy es'
  pub fits : Fits rt'

module _ (malloc : ℕ → Bool) (all : (n : ℕ) → malloc n ≡ true) where
  enlarged_cap : Rx → List ℕ → ℕ
  enlarged_cap rt bytes =
      let needed = length rt.buf + length bytes in
      if leb needed rt.cap then rt.cap else grown 4096 rt.cap needed

  reserves :
      (rt : Rx) (bytes : List ℕ)
      → rx_reserve malloc rt (length rt.buf + length bytes) ≡ some (enlarged_cap rt bytes)
  unfolding rx_reserve enlarged_cap
  reserves rt bytes = ground (arith, all (grown 4096 rt.cap (length rt.buf + length bytes)))

  enlarged-enough :
      (rt : Rx) (bytes : List ℕ) → length rt.buf + length bytes ≤ enlarged_cap rt bytes
  unfolding enlarged_cap
  enlarged-enough rt bytes =
      ground (arith, grown-enough 4096 rt.cap (length rt.buf + length bytes) (omega arith))

  received-HasRead :
      (rt : Rx) (bytes : List ℕ) (es : List RxEvent)
      → 0 < length bytes
      → length bytes ≤ io_chunk
      → AreHealthy es
      → HasRead rt (got bytes ∷ es) (received malloc rt bytes es)
  unfolding received store
  received-HasRead rt bytes es pos small healthy = record {
    rt' = record rt { buf = rt.buf ++ bytes; cap = enlarged_cap rt bytes };
    es' = es;
    returns = ground (arith, reserves rt bytes, enlarged-enough rt bytes);
    same_pending = append_assoc rt.buf bytes (data_of es);
    fewer = omega arith;
    healthy = healthy;
    fits = omega (arith, length-append rt.buf bytes, enlarged-enough rt bytes);
  }

  later :
      {rt : Rx} {e : RxEvent} {es : List RxEvent} {r : Run Bool}
      → data_of (e ∷ es) ≡ data_of es
      → HasRead rt es r
      → HasRead rt (e ∷ es) r
  later {rt} same h = record {
    rt' = h.rt';
    es' = h.es';
    returns = h.returns;
    same_pending = h.same_pending ∙ ap (λ bs. rt.buf ++ bs) (sym same);
    fewer = omega (arith, h.fewer);
    healthy = h.healthy;
    fits = h.fits;
  }

  rx_wait-HasRead :
      (rt : Rx) (es : List RxEvent)
      → AreHealthy es
      → 0 < length (data_of es)
      → HasRead rt es (rx_wait malloc rt es)
  unfolding rx_wait
  rx_wait-HasRead rt [] h pos = absurd (omega arith)
  rx_wait-HasRead rt (timed_out ∷ es) h pos = later refl (rx_wait-HasRead rt es h.1 pos)
  rx_wait-HasRead rt (hung_up ∷ es) h pos = absurd h.0
  rx_wait-HasRead rt (poll_failed eintr ∷ es) h pos = later refl (rx_wait-HasRead rt es h.1 pos)
  rx_wait-HasRead rt (poll_failed _ ∷ es) h pos = absurd h.0
  rx_wait-HasRead rt (read_failed eintr ∷ es) h pos = later refl (rx_wait-HasRead rt es h.1 pos)
  rx_wait-HasRead rt (read_failed _ ∷ es) h pos = absurd h.0
  rx_wait-HasRead rt (got bytes ∷ es) h pos = received-HasRead rt bytes es h.0.0 h.0.1 h.1

  pub rx_read_some-HasRead :
      (rt : Rx) (es : List RxEvent)
      → AreHealthy es
      → 0 < length (data_of es)
      → HasRead rt es (rx_read_some malloc rt es)
  unfolding rx_read_some
  rx_read_some-HasRead rt es h pos = rw (all io_chunk) (rx_wait-HasRead rt es h pos)

-- The loop returned true with enough bytes in the buffer, and lost none.
pub record HasFilled (needed : ℕ) (rt : Rx) (es : List RxEvent) (r : Run Bool) : Type 0 where
  pub rt' : Rx
  pub es' : List RxEvent
  pub returns : r ≡ ret true rt' es'
  pub same_pending : pending rt' es' ≡ pending rt es
  pub enough : needed ≤ length rt'.buf
  pub healthy : AreHealthy es'
  pub fits : Fits rt'

module _ (malloc : ℕ → Bool) (all : (n : ℕ) → malloc n ≡ true) (needed : ℕ) where
  after_read :
      {rt : Rx} {es : List RxEvent} {r : Run Bool} (fuel : ℕ) (h : HasRead rt es r)
      → HasFilled needed h.rt' h.es' (rx_fill malloc fuel needed h.rt' h.es')
      → HasFilled needed rt es (
          r >>= λ more rt' es'. elim more [
            | true ↦ rx_fill malloc fuel needed rt' es'
            | false ↦ ret false rt' es'
          ])
  after_read fuel h rest = record {
    rt' = rest.rt';
    es' = rest.es';
    returns = rw h.returns rest.returns;
    same_pending = rest.same_pending ∙ h.same_pending;
    enough = rest.enough;
    healthy = rest.healthy;
    fits = rest.fits;
  }

  pub rx_fill-HasFilled :
      (fuel : ℕ) (rt : Rx) (es : List RxEvent)
      → length es < fuel
      → AreHealthy es
      → Fits rt
      → needed ≤ length (pending rt es)
      → HasFilled needed rt es (rx_fill malloc fuel needed rt es)
  unfolding rx_fill
  rx_fill-HasFilled zero rt es less healthy fits enough = absurd (omega arith)
  rx_fill-HasFilled (suc fuel) rt es less healthy fits enough =
      elim (Bool-cases (leb needed (length rt.buf))) [
        | inl full ↦ rw full (record {
          rt' = rt;
          es' = es;
          returns = refl;
          same_pending = refl;
          enough = ground arith;
          healthy = healthy;
          fits = fits;
        })
        | inr short ↦
            let more : 0 < length (data_of es) =
              ground (arith, length-append rt.buf (data_of es)) in
            let h = rx_read_some-HasRead malloc all rt es healthy more in
            rw short (
              after_read fuel h (
                rx_fill-HasFilled fuel h.rt' h.es' (omega (arith, h.fewer)) h.healthy h.fits
                  (rw h.same_pending enough)))
      ]
