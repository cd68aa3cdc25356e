-- ===== src/Shell/Signals.antt =====
-- The signals that the loop of src/shell_exec.c sends to the process group.
use epass_usb_responder.Prelude.{
  ℕ, zero, suc, ◌+◌, ◌≤◌, ◌≡◌, refl, ap, ◌∙◌, Bool, true, false, not, ◌&&◌, List, [], ◌∷◌, ◌++◌,
  arith, leb, if◌then◌else◌, length, Bool-cases, inl, inr,
}
use epass_usb_responder.Shell.{
  ExecOptions, Round, Signal, sigterm, sigkill, Exec, started, is_going, enforce_deadline, Looped,
  ended, cleanup, unfinished, overrun, exec_loop,
}
use epass_usb_responder.Shell.Pipes.{IsGranted, is_reaped, out_of, err_of}
use epass_usb_responder.Shell.Rounds.{after, one_round-eq}
use epass_usb_responder.Shell.Heard.{AreCalm, data_after-fits, all_stopped}

abbrev one_if : Bool → ℕ
one_if true = 1
one_if false = 0

-- How many rounds begin at the deadline or later, up to the one in which the child ends.
abbrev pub late_rounds : ℕ → List Round → ℕ
late_rounds deadline [] = 0
late_rounds deadline (round ∷ rounds) =
    let rest = late_rounds deadline rounds in
    one_if (leb deadline round.now_ms) + (if is_reaped round.waited then 0 else rest)

abbrev kills : ℕ → List Signal
kills zero = []
kills (suc n) = sigkill ∷ kills n

-- SIGTERM first, and SIGKILL ever after.
abbrev pub escalation : ℕ → List Signal
escalation zero = []
escalation (suc n) = sigterm ∷ kills n

kills-append : (n : ℕ) → kills n ++ sigkill ∷ [] ≡ kills (suc n)
kills-append zero = refl
kills-append (suc n) = ap (λ ss. sigkill ∷ ss) (kills-append n)

abbrev is_some : ℕ → Bool
is_some zero = false
is_some (suc n) = true

-- So many signals were sent.
abbrev HasSent : ℕ → Exec → Type 0
HasSent n s = (s.signals ≡ escalation n) × (s.kill_sent ≡ is_some n)

enforce_deadline-HasSent :
    (deadline now n : ℕ) (s : Exec)
    → HasSent n s
    → HasSent (n + one_if (leb deadline now && s.child_running)) (enforce_deadline deadline now s)
unfolding enforce_deadline
enforce_deadline-HasSent deadline now n s h =
    elim (Bool-cases (leb deadline now && s.child_running)) [
      | inl late ↦ let e : n + 1 ≡ suc n = omega arith in rw (late, e) (sent n h)
      | inr early ↦ let e : n + 0 ≡ n = omega arith in rw (early, e) h
    ]
  where
    sent :
        (n : ℕ)
        → HasSent n s
        → HasSent (suc n) (
            if not s.kill_sent
            then record s {
              timed_out = true;
              signals = s.signals ++ sigterm ∷ [];
              kill_sent = true;
            }
            else record s { timed_out = true; signals = s.signals ++ sigkill ∷ [] })
    sent zero p = rw (ap not p.1) (ap (λ ss. ss ++ sigterm ∷ []) p.0, refl)
    sent (suc n) p =
        rw (ap not p.1)
          (ap (λ ss. ss ++ sigkill ∷ []) p.0 ∙ ap (λ ss. sigterm ∷ ss) (kills-append n), p.1)

module _ (realloc : ℕ → Bool) (granted : IsGranted realloc) (options : ExecOptions)
    (deadline : ℕ) where
  abbrev Signals : ℕ → Looped → Type 0
  Signals n (ended s) = s.signals ≡ escalation n
  Signals n cleanup = Unit
  Signals n unfinished = Unit
  Signals n overrun = Unit

  count-step :
      (n rest : ℕ) (late runs gone : Bool)
      → (n + one_if (late && runs)) + (if runs && not gone then rest else 0)
        ≡ n + (if runs then one_if late + (if gone then 0 else rest) else 0)
  count-step n rest true true true = omega arith
  count-step n rest true true false = omega arith
  count-step n rest false true true = omega arith
  count-step n rest false true false = omega arith
  count-step n rest true false gone = omega arith
  count-step n rest false false gone = omega arith

  exec_loop-Signals :
      (rounds : List Round) (n : ℕ) (s : Exec)
      → AreCalm rounds
      → length s.stdout_data ≤ options.max_stdout
      → length s.stderr_data ≤ options.max_stderr
      → HasSent n s
      → Signals
          (n + (if s.child_running then late_rounds deadline rounds else 0))
          (exec_loop realloc options deadline rounds s)
  unfolding exec_loop
  exec_loop-Signals [] n s calm fo fe h = elim (Bool-cases (is_going s)) [
    | inl going ↦ rw going tt
    | inr over ↦
        let (c, o, e) = all_stopped s.child_running s.out_open s.err_open over in
        let z : n + 0 ≡ n = omega arith in rw (over, c, z) h.0
  ]
  exec_loop-Signals (round ∷ rounds) n s calm fo fe h = elim (Bool-cases (is_going s)) [
    | inl going ↦
        rw
          (
            going,
            one_round-eq realloc granted options deadline round s calm.0 fo fe,
            ← count-step n (late_rounds deadline rounds) (leb deadline round.now_ms) s.child_running
                (is_reaped round.waited),
          )
          (exec_loop-Signals rounds _ (after realloc granted options deadline round s) calm.1
            (data_after-fits options.max_stdout s.out_open s.stdout_data (out_of round.polled) fo)
            (data_after-fits options.max_stderr s.err_open s.stderr_data (err_of round.polled) fe)
            (enforce_deadline-HasSent deadline round.now_ms n s h))
    | inr over ↦
        let (c, o, e) = all_stopped s.child_running s.out_open s.err_open over in
        let z : n + 0 ≡ n = omega arith in rw (over, c, z) h.0
  ]

  -- Where the loop ends after rounds in which no call fails, with an allocator that grants every
  -- request, it has sent the process group one signal for each round that began at the deadline or
  -- later, up to the one in which the child ended: SIGTERM in the first of them and SIGKILL in all
  -- others.
  pub exec_loop-escalation :
      (rounds : List Round) (s : Exec)
      → AreCalm rounds
      → exec_loop realloc options deadline rounds started ≡ ended s
      → s.signals ≡ escalation (late_rounds deadline rounds)
  exec_loop-escalation rounds s calm e =
      let h = exec_loop-Signals rounds 0 started calm (omega arith) (omega arith) (refl, refl) in
      let z : 0 + late_rounds deadline rounds ≡ late_rounds deadline rounds = omega arith in
      rw (e, z) at h
