-- ===== src/Files/Upload/Table.antt =====
-- The table of upload sessions of src/file_ops.c as a map from identifiers to sessions.
use epass_usb_responder.Prelude.{
  ℕ, zero, suc, ◌≡◌, ◌≢◌, refl, Bool, true, false, ◌&&◌, Option, none, some, List, [], ◌∷◌, arith,
  ◌==◌, if◌then◌else◌, Bool-cases, inl, inr,
}
use epass_usb_responder.Files.Upload.{Session, update_at, find_session, alloc_session, one_further}

abbrev pub matches : Session → ℕ → Bool
matches s id = s.used && s.transfer_id == id

-- The session in use with an identifier.
unfoldable pub lookup : List Session → ℕ → Option Session
lookup [] id = none
lookup (s ∷ sessions) id = let rest = lookup sessions id in if matches s id then some s else rest

-- No two sessions in use have the same identifier.
abbrev pub AreDistinct : List Session → Type 0
AreDistinct [] = Unit
AreDistinct (s ∷ sessions) =
    (s.used ≡ true → lookup sessions s.transfer_id ≡ none) × AreDistinct sessions

-- Session `i` is `s`, and no other is in use with the identifier.
abbrev pub Holds : List Session → ℕ → Session → ℕ → Type 0
Holds [] i s id = ⊥
Holds (x ∷ xs) zero s id = (x ≡ s) × (lookup xs id ≡ none)
Holds (x ∷ xs) (suc i) s id = (matches x id ≡ false) × Holds xs i s id

-- Only the identifier can find the session.
abbrev pub IsFor : ℕ → Session → Type 0
IsFor id s = (j : ℕ) → j ≢ id → matches s j ≡ false

pub further :
    (r : Option (ℕ × Session)) {i : ℕ} {s : Session}
    → one_further r ≡ some (i, s)
    → (k : ℕ) × (i ≡ suc k) × (r ≡ some (k, s))
further none e = absurd (cc)
further (some (k, s')) e = (k, ground arith, ground arith)

not_further : (r : Option (ℕ × Session)) → one_further r ≡ none → r ≡ none
not_further none e = refl
not_further (some (k, s)) e = absurd cc

matches-used : (s : Session) (id : ℕ) → matches s id ≡ true → (s.used ≡ true) × (s.transfer_id ≡ id)
matches-used s id h = (ground arith, ground arith)

-- What is found is the only session in use with the identifier.
abbrev pub IsFound : List Session → ℕ → ℕ → Session → Type 0
IsFound xs id i s =
    Holds xs i s id × (s.used ≡ true) × (s.transfer_id ≡ id) × (lookup xs id ≡ some s)

IsFound-here :
    (x : Session) (xs : List Session) (id : ℕ)
    → AreDistinct (x ∷ xs)
    → matches x id ≡ true
    → IsFound (x ∷ xs) id 0 x
unfolding lookup
IsFound-here x xs id d m =
    let u = matches-used x id m in ((refl, rw u.1 at (d.0 u.0)), u.0, u.1, rw m refl)

IsFound-further :
    (x : Session) (xs : List Session) (id k : ℕ) (s : Session)
    → matches x id ≡ false
    → IsFound xs id k s
    → IsFound (x ∷ xs) id (suc k) s
unfolding lookup
IsFound-further x xs id k s m h = ((m, h.0), h.1, h.2, rw m h.3)

same-IsFound :
    (xs : List Session) (id : ℕ) {i j : ℕ} {s t : Session}
    → ◌≡◌ {A = Option (ℕ × Session)} (some (j, t)) (some (i, s))
    → IsFound xs id j t
    → IsFound xs id i s
same-IsFound xs id {i} {j} {s} {t} e h =
    let p : j ≡ i = ground arith in let q : t ≡ s = ground arith in rw (← p, ← q) h

pub find_session-IsFound :
    (xs : List Session) (id i : ℕ) (s : Session)
    → AreDistinct xs
    → find_session xs id ≡ some (i, s)
    → IsFound xs id i s
unfolding find_session
find_session-IsFound [] id i s d e = absurd cc
find_session-IsFound (x ∷ xs) id i s d e = elim (Bool-cases (matches x id)) [
  | inl m ↦ same-IsFound (x ∷ xs) id (rw m at e) (IsFound-here x xs id d m)
  | inr m ↦
      let f = further (find_session xs id) (rw m at e) in
      rw f.1 (IsFound-further x xs id f.0 s m (find_session-IsFound xs id f.0 s d.1 f.2))
]

pub find_session-none :
    (xs : List Session) (id : ℕ) → find_session xs id ≡ none → lookup xs id ≡ none
unfolding find_session lookup
find_session-none [] id e = refl
find_session-none (x ∷ xs) id e = elim (Bool-cases (matches x id)) [
  | inl m ↦ absurd (ground arith)
  | inr m ↦ rw m (find_session-none xs id (not_further (find_session xs id) (rw m at e)))
]

-- A session that is allocated was not in use, and nothing else has changed.
pub alloc_session-Holds :
    (xs : List Session) (id i : ℕ) (t : Session)
    → lookup xs id ≡ none
    → alloc_session xs ≡ some (i, t)
    → (s : Session) × (s.used ≡ false) × Holds xs i s id
unfolding alloc_session lookup
alloc_session-Holds [] id i t none_used e = absurd cc
alloc_session-Holds (x ∷ xs) id i t none_used e = elim (Bool-cases x.used) [
  | inl u ↦
      let m : matches x id ≡ false = ground arith in
      let f = further (alloc_session xs) (rw u at e) in
      let r = alloc_session-Holds xs id f.0 t (rw m at none_used) f.2 in rw f.1 (r.0, r.1, (m, r.2))
  | inr u ↦ let first : 0 ≡ i = ground arith in rw (← first) (x, u, (refl, rw u at none_used))
]

module _ (id : ℕ) (s s' : Session) (for : IsFor id s) (for' : IsFor id s') where
  pub lookup-update_at :
      (xs : List Session) (i j : ℕ)
      → Holds xs i s id
      → lookup (update_at xs i s') j
        ≡ (if j == id then (if matches s' id then some s' else none) else lookup xs j)
  unfolding lookup update_at
  lookup-update_at [] i j h = absurd h
  lookup-update_at (x ∷ xs) zero j h = elim (Bool-cases (j == id)) [
    | inl e ↦ let same : j ≡ id = ground arith in rw (e, same, h.1)
    | inr e ↦ let differ : j ≢ id = ground arith in rw (e, for' j differ, h.0, for j differ)
  ]
  lookup-update_at (x ∷ xs) (suc i) j h = elim (Bool-cases (j == id)) [
    | inl e ↦ let same : j ≡ id = ground arith in rw (same, h.0) (lookup-update_at xs i id h.1)
    | inr e ↦ rw (lookup-update_at xs i j h.1, e)
  ]

  own : s'.used ≡ true → s'.transfer_id ≡ id
  own u = elim (Bool-cases (s'.transfer_id == id)) [
    | inl e ↦ ground arith
    | inr e ↦
        let differ : s'.transfer_id ≢ id = ground arith in
        absurd (ground (arith, for' s'.transfer_id differ))
  ]

  other : (x : Session) → x.used ≡ true → matches x id ≡ false → (x.transfer_id == id) ≡ false
  other x u m = ground arith

  pub AreDistinct-update_at :
      (xs : List Session) (i : ℕ)
      → Holds xs i s id
      → AreDistinct xs
      → AreDistinct (update_at xs i s')
  unfolding update_at
  AreDistinct-update_at [] i h d = absurd h
  AreDistinct-update_at (x ∷ xs) zero h d = (λ u. rw (own u) h.1, d.1)
  AreDistinct-update_at (x ∷ xs) (suc i) h d = (
    λ u. rw (lookup-update_at xs i x.transfer_id h.1, other x u h.0) (d.0 u),
    AreDistinct-update_at xs i h.1 d.1,
  )
