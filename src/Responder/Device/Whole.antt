-- ===== src/Responder/Device/Whole.antt =====
-- `read_text_file` of src/responder.c against the text of the file.
use epass_usb_responder.Prelude.{
  ℕ, zero, suc, ◌+◌, ◌-◌, ◌*◌, min, ◌≤◌, ◌<◌, ◌≡◌, refl, All, ◌⊎◌, ◌&&◌, if◌then◌else◌, false, sym,
  ap, ◌∙◌, Bool, true, some, List, [], ◌∷◌, ◌++◌, arith, ltb, leb, ◌==◌, length, length-append,
  length-take, take, take_all, Bool-cases, inl, inr,
}
use epass_usb_responder.Outcome.{Outcome, ok, failed, fault, ◌>>=◌, filled, filled-eq-ok}
use epass_usb_responder.Text.{c_string}
use epass_usb_responder.Responder.Device.{
  is_space, is_empty, trim_end, read_round, read_text, read_text_file,
}

-- A newline, a carriage return, a space or a tab.
abbrev pub IsWhite : ℕ → Type 0
IsWhite c = (c ≡ b'\n') ⊎ ((c ≡ b'\r') ⊎ ((c ≡ b' ') ⊎ (c ≡ b'\t')))

-- The text is the bytes without the white space behind its last byte, which is none.
pub record IsTrimmed (bytes shown : List ℕ) : Type 0 where
  pub white : List ℕ
  pub cut : bytes ≡ shown ++ white
  pub all_white : All IsWhite white
  pub last_is_black : (front : List ℕ) (c : ℕ) → shown ≡ front ++ c ∷ [] → ¬ IsWhite c

is_space-true : (c : ℕ) → is_space c ≡ true → IsWhite c
unfolding is_space
is_space-true c e = ground arith

is_space-false : (c : ℕ) → is_space c ≡ false → ¬ IsWhite c
unfolding is_space
is_space-false c e = λ w. ground arith

ne_nil : (front : List ℕ) (c : ℕ) → ¬ ([] ≡ front ++ c ∷ [])
ne_nil [] c e = absurd cc
ne_nil (f ∷ front) c e = absurd cc

nothing-IsTrimmed : (white : List ℕ) → All IsWhite white → IsTrimmed white []
nothing-IsTrimmed white w = record {
  white = white;
  cut = refl;
  all_white = w;
  last_is_black = λ front c e. absurd (ne_nil front c e);
}

and_true : (a : Bool) → (a && true) ≡ false → a ≡ false
and_true true e = e
and_true false e = refl

last_is_black-cons :
    (b : ℕ) (rest : List ℕ)
    → (is_space b && is_empty rest) ≡ false
    → ((front : List ℕ) (c : ℕ) → rest ≡ front ++ c ∷ [] → ¬ IsWhite c)
    → (front : List ℕ) (c : ℕ) → b ∷ rest ≡ front ++ c ∷ []
    → ¬ IsWhite c
last_is_black-cons b rest keep h [] c e =
    let nil : rest ≡ [] = ground arith in
    let same : b ≡ c = ground arith in
    rw (← same) (is_space-false b (and_true (is_space b) (rw nil at keep)))
last_is_black-cons b rest keep h (f ∷ front) c e = h front c (ground arith)

cons-IsTrimmed :
    (b : ℕ) (bs rest : List ℕ)
    → IsTrimmed bs rest
    → IsTrimmed (b ∷ bs) (if is_space b && is_empty rest then [] else b ∷ rest)
cons-IsTrimmed b bs rest t = elim (Bool-cases (is_space b && is_empty rest)) [
  | inl cut ↦ rw cut (all_cut b bs rest t cut)
  | inr keep ↦ rw keep (record {
    white = t.white;
    cut = ap (λ r. b ∷ r) t.cut;
    all_white = t.all_white;
    last_is_black = last_is_black-cons b rest keep t.last_is_black;
  })
]
  where
    all_cut :
        (b : ℕ) (bs rest : List ℕ)
        → IsTrimmed bs rest
        → (is_space b && is_empty rest) ≡ true
        → IsTrimmed (b ∷ bs) []
    all_cut b bs [] t e =
        rw (← t.cut) at
          (nothing-IsTrimmed (b ∷ t.white) (is_space-true b (ground arith), t.all_white))
    all_cut b bs (r ∷ rest) t e = absurd (ground arith)

trim_end-IsTrimmed : (bytes : List ℕ) → IsTrimmed bytes (trim_end bytes)
unfolding trim_end
trim_end-IsTrimmed [] = nothing-IsTrimmed [] tt
trim_end-IsTrimmed (b ∷ bs) = cons-IsTrimmed b bs (trim_end bs) (trim_end-IsTrimmed bs)

module _ (malloc : ℕ → Bool) (granted : (n : ℕ) → malloc n ≡ true) (max_bytes : ℕ)
    (content : List ℕ) where
  -- The loop ends with the first `max_bytes` bytes, and room for a terminator.
  abbrev Reads : Outcome (ℕ × ℕ) → Type 0
  Reads (ok end) = (take end.0 content ≡ take max_bytes content) × (end.0 < end.1)
  Reads failed = ⊥
  Reads fault = ⊥

  read_round-Reads :
      (next : ℕ → Outcome (ℕ × ℕ)) (cap used : ℕ)
      → used + 1 < cap
      → cap ≤ max_bytes + 1
      → used ≤ length content
      → ((n : ℕ) → used < n → n < cap → n < max_bytes → n ≤ length content → Reads (next n))
      → Reads (read_round malloc max_bytes content next cap used)
  unfolding read_round
  read_round-Reads next cap used room small fits f = elim (Bool-cases (ltb got want)) [
    | inl short ↦ rw short (
      take_all content (used + got) (ground arith)
          ∙ sym (take_all content max_bytes (ground arith)),
      ground arith,
    )
    | inr whole ↦ elim (Bool-cases (leb max_bytes (used + got))) [
      | inl full ↦ rw (whole, full) (ap (λ n. take n content) (ground arith), ground arith)
      | inr more ↦
          rw (whole, more)
            (f (used + got) (ground arith) (ground arith) (ground arith) (ground arith))
    ]
  ]
    where
      want : ℕ
      want = cap - 1 - used

      got : ℕ
      got = min want (length content - used)

  read_text-Reads :
      (fuel cap used : ℕ)
      → used < cap
      → cap ≤ max_bytes + 1
      → used ≤ length content
      → max_bytes < fuel + used
      → Reads (read_text malloc max_bytes content fuel cap used)
  unfolding read_text
  read_text-Reads zero cap used room small fits enough = absurd (omega arith)
  read_text-Reads (suc fuel) cap used room small fits enough =
      elim (Bool-cases (leb cap (used + 1))) [
        | inl tight ↦ elim (Bool-cases (min (cap * 2) (max_bytes + 1) == cap)) [
          | inl last ↦ rw (tight, last) (ap (λ n. take n content) (ground arith), room)
          | inr grows ↦
              rw (tight, grows, granted (min (cap * 2) (max_bytes + 1)))
                (read_round-Reads (read_text malloc max_bytes content fuel new_cap) new_cap used
                  (ground arith) (omega arith) fits
                  (λ n more within below there.
                    read_text-Reads fuel (min (cap * 2) (max_bytes + 1)) n within (omega arith)
                      there (omega (arith, more, enough))))
        ]
        | inr loose ↦ rw loose (
            read_round-Reads (read_text malloc max_bytes content fuel cap) cap used (ground arith)
              small fits
              (λ n more within below there.
                read_text-Reads fuel cap n within small there (omega (arith, more, enough))))
      ]
    where
      new_cap : ℕ
      new_cap = min (cap * 2) (max_bytes + 1)

read_text_file-eq :
    (malloc : ℕ → Bool) (max_bytes : ℕ) (content : List ℕ)
    → ((n : ℕ) → malloc n ≡ true)
    → 1023 ≤ max_bytes
    → read_text_file malloc max_bytes (some content)
      ≡ ok (trim_end (c_string (take max_bytes content)))
unfolding read_text_file
read_text_file-eq malloc max_bytes content granted large = rw (granted 1024) (
    terminated _ (
      read_text-Reads malloc granted max_bytes content (suc max_bytes) 1024 0 (omega arith)
        (omega (arith, large)) (omega arith) (omega arith)))
  where
    terminated :
        (r : Outcome (ℕ × ℕ))
        → Reads malloc granted max_bytes content r
        → (do
          end ← r
          whole ← filled end.1 (take end.0 content ++ 0 ∷ [])
          ok (trim_end (c_string (take end.0 content))))
          ≡ ok (trim_end (c_string (take max_bytes content)))
    terminated (ok end) l =
        rw
          (filled-eq-ok end.1 (take end.0 content ++ 0 ∷ []) (
            omega
              (arith, length-append (take end.0 content) (0 ∷ []), length-take end.0 content, l.1)))
          (ap (λ t. ok (trim_end (c_string t))) l.0)
    terminated failed l = elim l [ ]
    terminated fault l = elim l [ ]

-- For a file that can be opened, a limit of 1023 bytes or more and an allocator that grants every
-- request, read_text_file returns the first bytes of the file up to the limit, cut at the first
-- NUL, without the newlines, carriage returns, spaces and tabs at the end: those that are left off
-- are nothing else, and the last byte that is left is none of them. Its loop ends, and the
-- terminator has room.
pub read_text_file-IsTrimmed :
    (malloc : ℕ → Bool) (max_bytes : ℕ) (content : List ℕ)
    → ((n : ℕ) → malloc n ≡ true)
    → 1023 ≤ max_bytes
    → (shown : List ℕ) × (read_text_file malloc max_bytes (some content) ≡ ok shown)
      × IsTrimmed (c_string (take max_bytes content)) shown
read_text_file-IsTrimmed malloc max_bytes content granted large = (
  trim_end (c_string (take max_bytes content)),
  read_text_file-eq malloc max_bytes content granted large,
  trim_end-IsTrimmed (c_string (take max_bytes content)),
)
