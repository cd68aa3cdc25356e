-- ===== src/Outcome.antt =====
-- What a C function that returns `bool` does: it fills its results and returns true, it returns
-- false, or it accesses memory out of bounds, which C leaves undefined. A buffer is the list of its
-- bytes.
use epass_usb_responder.Prelude.{
  ℕ, ◌+◌, ◌≤◌, ◌<◌, ◌≡◌, ◌≢◌, refl, Bool, true, false, Option, none, some, List, arith, leb,
  if◌then◌else◌, length, get_elem?, get_or, get_elem?-eq-get_or, take, drop, ◌++◌, [], append-nil,
  ap, sym, length-append, get_elem?-append_right, drop-append_right, drop-append, take-append,
}

pub data Outcome {ℓ} (A : Type ℓ) : Type ℓ where
  ok : A → Outcome A
  failed fault : Outcome A

-- `abbrev`, so that `ok a >>= f` computes wherever it stands.
infixl 5 ◌>>=◌
abbrev pub ◌>>=◌ {ℓ κ} : {A : Type ℓ} {B : Type κ} → Outcome A → (A → Outcome B) → Outcome B
ok a >>= f = f a
failed >>= f = failed
fault >>= f = fault

-- `if (!malloc(…)) return false;`
infixl 5 ◌>>◌
abbrev pub ◌>>◌ {ℓ} : {B : Type ℓ} → Outcome (Unit {0}) → Outcome B → Outcome B
m >> k = m >>= λ _. k

abbrev pub require : Bool → Outcome (Unit {0})
require true = ok tt
require false = failed

-- `if (…) return false;`
abbrev pub fail_if : Bool → Outcome (Unit {0})
fail_if true = failed
fail_if false = ok tt

abbrev loaded {ℓ} : {A : Type ℓ} → Option A → Outcome A
loaded none = fault
loaded (some b) = ok b

-- `buf[i]`
unfoldable pub load : List ℕ → ℕ → Outcome ℕ
load buf i = loaded (get_elem? buf i)

-- `memcpy(dst, buf + off, n)`: the bytes that it reads.
unfoldable pub slice : List ℕ → ℕ → ℕ → Outcome (List ℕ)
slice buf off n = if leb (off + n) (length buf) then ok (take n (drop off buf)) else fault

-- A buffer of `size` bytes into which `bytes` are written from its start.
unfoldable pub filled : ℕ → List ℕ → Outcome (List ℕ)
filled size bytes = if leb (length bytes) size then ok bytes else fault

pub load-eq-get_or : (buf : List ℕ) (i : ℕ) → i < length buf → load buf i ≡ ok (get_or buf i 0)
unfolding load
load-eq-get_or buf i h = rw (get_elem?-eq-get_or buf i 0 h)

pub slice-eq-take :
    (buf : List ℕ) (off n : ℕ) → off + n ≤ length buf → slice buf off n ≡ ok (take n (drop off buf))
unfolding slice
slice-eq-take buf off n h = ground arith

pub filled-eq-ok : (size : ℕ) (bytes : List ℕ) → length bytes ≤ size → filled size bytes ≡ ok bytes
unfolding filled
filled-eq-ok size bytes h = ground arith

-- Behind a prefix the same bytes are found.
pub load-append :
    (pre rest : List ℕ) (off i : ℕ) → off ≡ length pre + i → load (pre ++ rest) off ≡ load rest i
unfolding load
load-append pre rest off i e = rw e (ap loaded (get_elem?-append_right pre rest i))

pub slice-append :
    (pre rest : List ℕ) (off i n : ℕ)
    → off ≡ length pre + i
    → slice (pre ++ rest) off n ≡ slice rest i n
unfolding slice
slice-append pre rest off i n e =
    rw (e, drop-append_right pre rest i) (ground (arith, length-append pre rest))

-- The bytes between a prefix and a rest.
pub slice-middle :
    (pre mid rest : List ℕ) (off n : ℕ)
    → off ≡ length pre
    → n ≡ length mid
    → slice (pre ++ (mid ++ rest)) off n ≡ ok mid
unfolding slice
slice-middle pre mid rest off n e f =
    rw (drop-append pre (mid ++ rest) off (sym e), take-append mid rest n (sym f))
      (ground (arith, length-append pre (mid ++ rest), length-append mid rest))

pub slice-end :
    (pre mid : List ℕ) (off n : ℕ)
    → off ≡ length pre
    → n ≡ length mid
    → slice (pre ++ mid) off n ≡ ok mid
slice-end pre mid off n e f = rw append-nil at (slice-middle pre mid [] off n e f)

-- A chain of calls that stay in bounds stays in bounds.
pub bind-ne-fault {ℓ κ} :
    {A : Type ℓ} {B : Type κ} (r : Outcome A) (f : A → Outcome B)
    → r ≢ fault
    → ((a : A) → f a ≢ fault)
    → (r >>= f) ≢ fault
bind-ne-fault (ok a) f h k = k a
bind-ne-fault failed f h k = λ e. cc
bind-ne-fault fault f h k = λ e. h refl

pub require-ne-fault : (b : Bool) → require b ≢ fault
require-ne-fault true = λ e. cc
require-ne-fault false = λ e. cc

pub fail_if-ne-fault : (b : Bool) → fail_if b ≢ fault
fail_if-ne-fault true = λ e. cc
fail_if-ne-fault false = λ e. cc

pub ok-ne-fault {ℓ} : {A : Type ℓ} (a : A) → ok a ≢ fault
ok-ne-fault a = λ e. cc
