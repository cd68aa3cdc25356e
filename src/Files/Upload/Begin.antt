-- ===== src/Files/Upload/Begin.antt =====
-- `usb_responder_file_begin_upload` of src/file_ops.c on the table as a map.
use epass_usb_responder.Prelude.{
  ℕ, ◌≡◌, refl, ◌∙◌, Bool, true, false, ◌&&◌, Option, none, some, List, [], ◌∷◌, ◌++◌, arith, leb,
  ◌==◌, if◌then◌else◌, length, Bool-cases, inl, inr, take_all,
}
use epass_usb_responder.Files.Paths.{
  Storage, Built, built, traversal, too_long, out_of_fuel, build_path, path_max_len,
  path_storage_matches_desire,
}
use epass_usb_responder.Files.Host.{Host}
use epass_usb_responder.Files.Upload.{
  Session, Done, Attempt, go, stop, ◌>>=◌, part_suffix, alloc_session, set_perm, set_final_path,
  set_relative_path, set_temp_path, open_session, abort_upload, begin_allocated, begin_upload,
  ensure_storage_writeable, parse_perm_octal,
}
use epass_usb_responder.Files.Upload.Table.{
  matches, lookup, AreDistinct, IsFor, alloc_session-Holds, further,
}
use epass_usb_responder.Files.Upload.Refines.{
  Stores, unchanged, replaced, unused-IsFor, named-IsFor, abort_upload-Stores,
}

alloc_session-used :
    (xs : List Session) (i : ℕ) (t : Session) → alloc_session xs ≡ some (i, t) → t.used ≡ true
unfolding alloc_session
alloc_session-used [] i t e = absurd cc
alloc_session-used (x ∷ xs) i t e = elim (Bool-cases x.used) [
  | inl u ↦ let f = further (alloc_session xs) (rw u at e) in alloc_session-used xs f.0 t f.2
  | inr u ↦ let first : record x { used = true } ≡ t = ground arith in rw (← first) refl
]

-- A session that goes on has a property.
abbrev After : (Session → Type 0) → Attempt → Type 0
After P (go s) = P s
After P (stop s) = Unit

After-bind :
    (P Q : Session → Type 0) (a : Attempt) (k : Session → Attempt)
    → After P a
    → ((s : Session) → P s → After Q (k s))
    → After Q (a >>= k)
After-bind P Q (go s) k h f = f s h
After-bind P Q (stop s) k h f = tt

module _ {H : Type 0} (io : Host H) (h : H) (relative : List ℕ)
    (desire perm : Option (List ℕ)) where
  -- The final path is the one that `build_path` gives, on the desired storage, which can be written.
  abbrev IsPlaced : Session → Type 0
  IsPlaced s =
      (s.used ≡ true)
      × (storage : Storage) × (build_path path_max_len relative ≡ built s.final_path storage)
      × (path_storage_matches_desire storage desire ≡ true)
      × (ensure_storage_writeable io storage h ≡ true)

  abbrev IsReady : Session → Type 0
  IsReady s = IsPlaced s × (s.temp_path ≡ s.final_path ++ part_suffix)

  set_perm-used : (s : Session) → s.used ≡ true → After (λ t. t.used ≡ true) (set_perm io perm s)
  unfolding set_perm
  set_perm-used s u = given perm
    where
      given : (p : Option (List ℕ)) → After (λ t. t.used ≡ true) (set_perm io p s)
      given none = u
      given (some []) = u
      given (some (c ∷ p)) = parsed (parse_perm_octal io (c ∷ p))
        where
          parsed :
              (mode : Option ℕ)
              → After
                  (λ t. t.used ≡ true)
                  (elim mode [
                    | none ↦ stop (record s { apply_perm = false; file_mode = 0o644 })
                    | some m ↦ go (record s { apply_perm = true; file_mode = m })
                  ])
          parsed none = tt
          parsed (some m) = u

  set_final_path-IsPlaced :
      (s : Session) → s.used ≡ true → After IsPlaced (set_final_path io h relative desire s)
  unfolding set_final_path
  set_final_path-IsPlaced s u = placed (build_path path_max_len relative) refl
    where
      placed :
          (b : Built)
          → build_path path_max_len relative ≡ b
          → After IsPlaced (elim b [
            | built path storage ↦
                if path_storage_matches_desire storage desire
                  && ensure_storage_writeable io storage h
                then go (record s { final_path = path })
                else stop (record s { final_path = path })
            | traversal ↦ stop s
            | too_long ↦ stop s
            | out_of_fuel ↦ stop s
          ])
      placed (built path storage) e =
          elim (Bool-cases
            (path_storage_matches_desire storage desire && ensure_storage_writeable io storage h)) [
              | inl good ↦ rw good (u, storage, e, ground arith, ground arith)
              | inr bad ↦ rw bad tt
            ]
      placed traversal e = tt
      placed too_long e = tt
      placed out_of_fuel e = tt

  set_relative_path-IsPlaced :
      (s : Session) → IsPlaced s → After IsPlaced (set_relative_path io relative s)
  unfolding set_relative_path
  set_relative_path-IsPlaced s p = elim (Bool-cases (leb path_max_len (length relative))) [
    | inl long ↦ rw long tt
    | inr fits ↦ rw fits p
  ]

  set_temp_path-IsReady : (s : Session) → IsPlaced s → After IsReady (set_temp_path io s)
  unfolding set_temp_path
  set_temp_path-IsReady s p =
      elim (Bool-cases (leb path_max_len (length (s.final_path ++ part_suffix)))) [
        | inl long ↦ rw long tt
        | inr fits ↦ rw fits (p, take_all (s.final_path ++ part_suffix) 4095 (ground arith))
      ]

  abbrev prepared : (s : Session) → Attempt
  prepared s =
      set_perm io perm s
      >>= set_final_path io h relative desire
      >>= set_relative_path io relative
      >>= set_temp_path io

  -- A session that is open for the identifier, with its counters at zero.
  pub record IsOpened (id : ℕ) (s : Session) : Type 0 where
    pub ready : IsReady s
    pub named : s.transfer_id ≡ id
    pub opened : (fp : ℕ) × (s.fp ≡ some fp)
    pub none_written : s.bytes_written ≡ 0
    pub none_synced : s.synced_bytes ≡ 0

  prepared-IsReady : (s : Session) → s.used ≡ true → After IsReady (prepared s)
  prepared-IsReady s u =
      After-bind IsPlaced IsReady _ (set_temp_path io)
        (After-bind IsPlaced IsPlaced _ (set_relative_path io relative)
          (After-bind (λ t. t.used ≡ true) IsPlaced _ (set_final_path io h relative desire)
            (set_perm-used s u) set_final_path-IsPlaced)
          set_relative_path-IsPlaced)
        set_temp_path-IsReady

  -- What the table has for the identifier, by the result of the call.
  abbrev pub Begins : ℕ → Bool → Option Session → Type 0
  Begins id true (some s) = IsOpened id s
  Begins id true none = ⊥
  Begins id false (some s) = ⊥
  Begins id false none = Unit

  abbrev kept : Session → ℕ → Option Session
  kept s id = if matches s id then some s else none

  open_session-Begins :
      (id : ℕ) (a : Attempt)
      → After IsReady a
      → let r = open_session io id h a in Begins id r.0 (kept r.1 id) × IsFor id r.1
  unfolding open_session
  open_session-Begins id (stop s) ready =
      let t = record s { used = false } in (tt, unused-IsFor id t refl)
  open_session-Begins id (go s) ready = tried (io.fopen h s.temp_path)
    where
      tried :
          (r : Option (ℕ × H))
          → let o = (elim r as (λ _. Bool × Session × H) [
            | none ↦ (false, record s { fp = none; used = false }, h)
            | some (fp, h') ↦ (
              true,
              record s { fp = some fp; transfer_id = id; bytes_written = 0; synced_bytes = 0 },
              h',
            )
          ]) in
            Begins id o.0 (kept o.1 id) × IsFor id o.1
      tried none = let t = record s { fp = none; used = false } in (tt, unused-IsFor id t refl)
      tried (some (fp, h')) =
          let t = record s {
            fp = some fp;
            transfer_id = id;
            bytes_written = 0;
            synced_bytes = 0;
          } in
          let m : matches t id ≡ true = ground (arith, ready.0.0) in
          (
            rw m (record {
              ready = ready;
              named = refl;
              opened = (fp, refl);
              none_written = refl;
              none_synced = refl;
            }),
            named-IsFor id t refl,
          )

Stores-again :
    (ss mid after : List Session) (id : ℕ) (r q : Option Session)
    → Stores ss id q mid
    → Stores mid id r after
    → Stores ss id r after
Stores-again ss mid after id r q first second = (
  λ j. elim (Bool-cases (j == id)) [
    | inl e ↦ second.0 j ∙ rw e
    | inr e ↦ second.0 j ∙ rw (e, first.0 j, e)
  ],
  second.1,
)

module _ {H : Type 0} (io : Host H) (id : ℕ) (relative : List ℕ)
    (desire perm : Option (List ℕ)) where
  -- The session that the table has for the identifier afterwards, with what is known of it.
  abbrev pub Begun : H → List Session → Done H → Type 0
  Begun h ss d =
      (r : Option Session) × Stores ss id r d.sessions
      × Begins io h relative desire perm id d.result r

  begin_allocated-Begun :
      (ss : List Session) (h : H) (slot : Option (ℕ × Session))
      → alloc_session ss ≡ slot
      → lookup ss id ≡ none
      → AreDistinct ss
      → Begun h ss (begin_allocated io ss h id relative desire perm slot)
  unfolding begin_allocated
  begin_allocated-Begun ss h none e free d = (none, unchanged ss id none free d, tt)
  begin_allocated-Begun ss h (some (i, t)) e free d =
      let a = alloc_session-Holds ss id i t free e in
      let o =
        open_session-Begins io h relative desire perm id (prepared io h relative desire perm t)
          (prepared-IsReady io h relative desire perm t (alloc_session-used ss i t e)) in
      (_, replaced ss id i a.0 _ _ (unused-IsFor id a.0 a.1) o.1 a.2 d refl, o.0)

  -- On a table without duplicates: where `begin_upload` returns true, the identifier has one
  -- session, open, with its counters at zero, the final path that `build_path` gives on the
  -- desired and writeable storage, and `.part` behind it as temporary path; where it returns
  -- false, the identifier has none, not even one that it had before. All other sessions are as
  -- before.
  pub begin_upload-Begun :
      (ss : List Session) (h : H)
      → AreDistinct ss
      → Begun (abort_upload io ss h id).host ss (begin_upload io ss h id relative desire perm)
  unfolding begin_upload
  begin_upload-Begun ss h d =
      let c = abort_upload io ss h id in
      let first = abort_upload-Stores io ss h id d in
      let free : lookup c.sessions id ≡ none = first.0 id ∙ ground arith in
      let b =
        begin_allocated-Begun c.sessions c.host (alloc_session c.sessions) refl free first.1 in
      (b.0, Stores-again ss c.sessions _ id b.0 none first b.1, b.2)
