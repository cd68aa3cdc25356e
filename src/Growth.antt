-- ===== src/Growth.antt =====
-- Growing a byte buffer by doubling: `append_bytes` of src/protocol.c, `append` of
-- src/functionfs_descriptors.c, `list_append_line` of src/file_ops.c and `rx_reserve` of
-- src/responder.c have the same loop and differ in the first capacity. Capacities are far below the
-- limit of `size_t`, whose wrap is not modelled.
use epass_usb_responder.Prelude.{
  ℕ, zero, suc, ◌+◌, ◌*◌, ◌≤◌, ◌<◌, ◌≡◌, Bool, not, ◌&&◌, List, [], ◌++◌, arith, ltb, ◌==◌,
  if◌then◌else◌, length, length-append,
}
use epass_usb_responder.Outcome.{Outcome, ok, failed, ◌>>=◌, ◌>>◌, require, filled, filled-eq-ok}

-- `while (new_cap < needed) new_cap *= 2u;`
unfoldable pub doubled : ℕ → ℕ → ℕ → ℕ
doubled zero new_cap needed = new_cap
doubled (suc fuel) new_cap needed =
    let rest = doubled fuel (new_cap * 2) needed in if ltb new_cap needed then rest else new_cap

-- The capacity after the loop. Each round adds one at least, so `needed` rounds are enough.
unfoldable pub grown : ℕ → ℕ → ℕ → ℕ
grown first cap needed = doubled needed (if cap == 0 then first else cap) needed

doubled_enough :
    (fuel new_cap needed : ℕ)
    → 0 < new_cap
    → needed ≤ new_cap + fuel
    → needed ≤ doubled fuel new_cap needed
unfolding doubled
doubled_enough zero new_cap needed pos h = omega arith
doubled_enough (suc fuel) new_cap needed pos h =
    ground (arith, doubled_enough fuel (new_cap * 2) needed)

doubled_bound :
    (fuel new_cap needed : ℕ) → new_cap ≤ 2 * needed → doubled fuel new_cap needed ≤ 2 * needed
unfolding doubled
doubled_bound zero new_cap needed h = h
doubled_bound (suc fuel) new_cap needed h = ground (arith, doubled_bound fuel (new_cap * 2) needed)

pub grown-enough : (first cap needed : ℕ) → 0 < first → needed ≤ grown first cap needed
unfolding grown
grown-enough first cap needed pos =
    ground (arith, doubled_enough needed (if cap == 0 then first else cap) needed)

-- A buffer that is too small is enlarged to at most twice what is needed.
pub grown_bound :
    (first cap needed : ℕ) → cap < needed → first ≤ 2 * needed → grown first cap needed ≤ 2 * needed
unfolding grown
grown_bound first cap needed less small =
    ground (arith, doubled_bound needed (if cap == 0 then first else cap) needed)

-- A buffer with the bytes that are used and its capacity.
pub record Buffer : Type 0 where
  pub bytes : List ℕ
  pub cap : ℕ

abbrev pub empty_buffer : Buffer
empty_buffer = record { bytes = []; cap = 0 }

-- What is used fits the capacity.
abbrev pub IsBuffer : Buffer → Type 0
IsBuffer b = length b.bytes ≤ b.cap

module _ (first : ℕ) (realloc : ℕ → Bool) where
  unfoldable pub append_bytes : Buffer → List ℕ → Outcome Buffer
  append_bytes b src =
      let needed = length b.bytes + length src in
      let new_cap = grown first b.cap needed in
      let enlarged = (do
        require (realloc new_cap)
        bytes ← filled new_cap (b.bytes ++ src)
        ok (record { bytes = bytes; cap = new_cap })) in
      let in_place = (do bytes ← filled b.cap (b.bytes ++ src); ok (record b { bytes = bytes })) in
      if ltb b.cap needed then enlarged else in_place

module _ (first : ℕ) where
  -- The capacity that an append asks for, and the buffer that it leaves.
  abbrev pub asked : Buffer → List ℕ → ℕ
  asked b src = grown first b.cap (length b.bytes + length src)

  abbrev pub overflows : Buffer → List ℕ → Bool
  overflows b src = ltb b.cap (length b.bytes + length src)

  abbrev pub appended : Buffer → List ℕ → Buffer
  appended b src = record {
    bytes = b.bytes ++ src;
    cap = if overflows b src then asked b src else b.cap;
  }

module _ (first : ℕ) (pos : 0 < first) (b : Buffer) (src : List ℕ) where
  pub appended-IsBuffer : IsBuffer (appended first b src)
  appended-IsBuffer =
      ground (
        arith,
        grown-enough first b.cap (length b.bytes + length src) pos,
        length-append b.bytes src,
      )

  -- With a positive first capacity, the bytes are added at the end, inside the buffer, unless the
  -- allocator refuses to enlarge it.
  pub append_bytes-eq :
      (realloc : ℕ → Bool)
      → append_bytes first realloc b src ≡ (
          if overflows first b src && not (realloc (asked first b src))
          then failed
          else ok (appended first b src))
  unfolding append_bytes
  append_bytes-eq realloc = ground (
    arith,
    grown-enough first b.cap (length b.bytes + length src) pos,
    length-append b.bytes src,
    filled-eq-ok (asked first b src) (b.bytes ++ src),
    filled-eq-ok b.cap (b.bytes ++ src),
  )
