-- ===== src/Files/Upload/Paced.antt =====
-- The counters of the upload sessions of src/file_ops.c against what the host is asked to do.
use epass_usb_responder.Prelude.{
  ℕ, zero, suc, ◌+◌, ◌-◌, ◌^◌, ◌<◌, ◌≡◌, refl, sym, ap, ◌∙◌, Bool, true, false, Option, none, some,
  List, arith, ◌==◌, leb, ltb, if◌then◌else◌, length, Bool-cases, inl, inr,
}
use epass_usb_responder.Files.Host.{Host}
use epass_usb_responder.Files.Upload.{
  Session, Done, zeroed_sessions, file_ops_init, abort_upload, begin_upload, find_session,
  append_to, append_found, append_upload_chunk, finish_upload, sync_interval, file_ops_shutdown,
  max_upload_sessions,
}
use epass_usb_responder.Files.Upload.Table.{lookup, AreDistinct, find_session-IsFound}
use epass_usb_responder.Files.Upload.Refines.{
  Stores, abort_upload-Stores, finish_upload-Stores, append_upload_chunk-Stores, appended,
}
use epass_usb_responder.Files.Upload.Begin.{begin_upload-Begun, Begins}

-- A function changed at one number.
abbrev pub put : (ℕ → ℕ) → ℕ → ℕ → ℕ → ℕ
put f k v j = if j == k then v else f j

put-same : (f : ℕ → ℕ) (k v : ℕ) → put f k v k ≡ v
put-same f k v = ground arith

-- The host, counting for each file the bytes that it took since it was asked to write the file back.
abbrev pub counted : {H : Type 0} → Host H → Host (H × (ℕ → ℕ))
counted io = record {
  fopen = λ h path. elim (io.fopen h.0 path) [ none ↦ none | some r ↦ some (r.0, (r.1, h.1)) ];
  fwrite = λ h fp bytes.
      let w = io.fwrite h.0 fp bytes in
      (w.0, (w.1, if w.0 then put h.1 fp (h.1 fp + length bytes) else h.1));
  write_back = λ h fp. (io.write_back h.0 fp, put h.1 fp 0);
  fclose = λ h fp. (io.fclose h.0 fp, h.1);
  rename = λ h a b. let r = io.rename h.0 a b in (r.0, (r.1, h.1));
  chmod = λ h a m. let r = io.chmod h.0 a m in (r.0, (r.1, h.1));
  unlink = λ h a. let r = io.unlink h.0 a in (r.0, (r.1, h.1));
  rmdir = λ h a. let r = io.rmdir h.0 a in (r.0, (r.1, h.1));
  mkdir = λ h a m. let r = io.mkdir h.0 a m in (r.0, (r.1, h.1));
  lstat = λ h a. io.lstat h.0 a;
  stat = λ h a. io.stat h.0 a;
  entries = λ h a. io.entries h.0 a;
  open_to_read = λ h a. io.open_to_read h.0 a;
  user_name = λ h n. io.user_name h.0 n;
  group_name = λ h n. io.group_name h.0 n;
  is_sd_mounted = λ h. io.is_sd_mounted h.0;
  strtoul = io.strtoul;
}

-- The file of a session.
abbrev pub handle : Option Session → ℕ
handle none = 0
handle (some s) = elim s.fp [ none ↦ 0 | some fp ↦ fp ]

-- The tables that calls of the operations lead to, and for each identifier how many bytes its file took
-- since it was written back: none after a call that begins an upload, and what the host counts, from
-- what there was, after a call that appends.
pub data Tracked {H : Type 0} (io : Host H) : List Session → (ℕ → ℕ) → Type 0 where
  initialized : Tracked io file_ops_init (λ id. 0)
  began :
      (ss : List Session) (pending : ℕ → ℕ) (h : H × (ℕ → ℕ)) (id : ℕ) (relative : List ℕ)
      (desire perm : Option (List ℕ))
      → Tracked io ss pending
      → Tracked io
          (begin_upload (counted io) ss h id relative desire perm).sessions
          (put pending id 0)
  appended_to :
      (ss : List Session) (pending : ℕ → ℕ) (h : H) (id : ℕ) (bytes : List ℕ)
      → Tracked io ss pending
      → Tracked io (append_upload_chunk (counted io) ss (h, λ fp. pending id) id bytes).sessions (
          put pending id (
            (append_upload_chunk (counted io) ss (h, λ fp. pending id) id bytes).host.1
              (handle (lookup ss id))))
  finished :
      (ss : List Session) (pending : ℕ → ℕ) (h : H × (ℕ → ℕ)) (id : ℕ)
      → Tracked io ss pending
      → Tracked io (finish_upload (counted io) ss h id).sessions pending
  aborted :
      (ss : List Session) (pending : ℕ → ℕ) (h : H × (ℕ → ℕ)) (id : ℕ)
      → Tracked io ss pending
      → Tracked io (abort_upload (counted io) ss h id).sessions pending
  shut_down :
      (ss : List Session) (pending : ℕ → ℕ) (h : H × (ℕ → ℕ))
      → Tracked io ss pending
      → Tracked io (file_ops_shutdown (counted io) ss h).sessions pending

abbrev pub IsPaced : Session → ℕ → Type 0
IsPaced s n = (s.bytes_written ≡ s.synced_bytes + n) × (n < 2 ^ 20)

abbrev pub ArePaced : List Session → (ℕ → ℕ) → Type 0
ArePaced ss pending = (id : ℕ) (s : Session) → lookup ss id ≡ some s → IsPaced s (pending id)

Stores-ArePaced :
    (before after : List Session) (id : ℕ) (r : Option Session) (p p' : ℕ → ℕ)
    → Stores before id r after
    → ArePaced before p
    → ((j : ℕ) → (j == id) ≡ false → p' j ≡ p j)
    → ((s : Session) → r ≡ some s → IsPaced s (p' id))
    → ArePaced after p'
Stores-ArePaced before after id r p p' h k others q j s e = elim (Bool-cases (j == id)) [
  | inl same ↦ let eq : j ≡ id = ground arith in rw eq (q s (sym (h.0 j ∙ rw same) ∙ e))
  | inr other ↦ rw (others j other) (k j s (sym (h.0 j ∙ rw other) ∙ e))
]

nothing : (n : ℕ) (s : Session) → none ≡ some s → IsPaced s n
nothing n s e = absurd cc

lookup-zeroed_sessions : (n j : ℕ) → lookup (zeroed_sessions n) j ≡ none
unfolding lookup
lookup-zeroed_sessions zero j = refl
lookup-zeroed_sessions (suc n) j = lookup-zeroed_sessions n j

zeroed_sessions-AreDistinct : (n : ℕ) → AreDistinct (zeroed_sessions n)
zeroed_sessions-AreDistinct zero = tt
zeroed_sessions-AreDistinct (suc n) =
    (λ e. lookup-zeroed_sessions n 0, zeroed_sessions-AreDistinct n)

none_there : (pending : ℕ → ℕ) → AreDistinct file_ops_init × ArePaced file_ops_init pending
unfolding file_ops_init
none_there pending = (
  zeroed_sessions-AreDistinct max_upload_sessions,
  λ j s e. nothing (pending j) s (sym (lookup-zeroed_sessions max_upload_sessions j) ∙ e),
)

module _ {H : Type 0} (io : Host H) (ss : List Session) (h : H) (id p : ℕ) (bytes : List ℕ) where
  -- What the host has counted of the file of a session, after a call that returned.
  Counts : Option Session → Done (H × (ℕ → ℕ)) → Type 0
  Counts r d =
      (d.result ≡ false → (fp : ℕ) → d.host.1 fp ≡ p)
      × ((t : Session)
          → r ≡ some t
          → d.result ≡ true
          → d.host.1 (handle (some t)) ≡ (
              if leb sync_interval (t.bytes_written + length bytes - t.synced_bytes)
              then 0
              else p + length bytes))

  counted_bytes :
      (s t : Session) (fp : ℕ)
      → s.fp ≡ some fp
      → some s ≡ some t
      → (h' : H)
      → (if◌then◌else◌ {A = H × (ℕ → ℕ)}
            (leb sync_interval (s.bytes_written + length bytes - s.synced_bytes))
            (io.write_back h' fp, put (put (λ k. p) fp (p + length bytes)) fp 0)
            (h', put (λ k. p) fp (p + length bytes))).1
          (handle (some t))
        ≡ (if leb sync_interval (t.bytes_written + length bytes - t.synced_bytes)
            then 0
            else p + length bytes)
  counted_bytes s t fp e same h' =
      let eq : s ≡ t = ground arith in
      rw (← eq, e)
        (elim (Bool-cases (leb sync_interval (s.bytes_written + length bytes - s.synced_bytes))) [
          | inl full ↦ rw full (put-same (put (λ k. p) fp (p + length bytes)) fp 0)
          | inr room ↦ rw room (put-same (λ k. p) fp (p + length bytes))
        ])

  append_to-Counts :
      (i : ℕ) (s : Session) (fp : Option ℕ)
      → s.fp ≡ fp
      → Counts (some s) (append_to (counted io) ss (h, λ k. p) bytes i s fp)
  unfolding append_to Counts
  append_to-Counts i s none e = (λ f k. refl, λ t f g. absurd cc)
  append_to-Counts i s (some fp) e = elim (Bool-cases (io.fwrite h fp bytes).0) [
    | inl good ↦
        rw good (λ f. absurd cc, λ t same g. counted_bytes s t fp e same (io.fwrite h fp bytes).1)
    | inr bad ↦ rw bad (λ f k. refl, λ t f g. absurd cc)
  ]

  append_found-Counts :
      (r : Option (ℕ × Session)) (t : Option Session)
      → find_session ss id ≡ r
      → AreDistinct ss
      → Counts (lookup ss id) (append_found (counted io) ss (h, λ k. p) bytes r)
  unfolding append_found Counts
  append_found-Counts none t e d = (λ f k. refl, λ t f g. absurd cc)
  append_found-Counts (some (i, s)) t e d =
      rw ((find_session-IsFound ss id i s d e).3) (append_to-Counts i s s.fp refl)

  append_upload_chunk-Counts :
      AreDistinct ss
      → Counts (lookup ss id) (append_upload_chunk (counted io) ss (h, λ k. p) id bytes)
  unfolding append_upload_chunk Counts
  append_upload_chunk-Counts d = elim (Bool-cases (length bytes == 0)) [
    | inl empty ↦ rw empty (λ f k. refl, λ t f g. absurd cc)
    | inr some_bytes ↦ rw some_bytes (append_found-Counts (find_session ss id) none refl d)
  ]

  -- The session with the identifier, after an append.
  appended-IsPaced :
      (d : Done (H × (ℕ → ℕ))) (r : Option Session)
      → Counts r d
      → ((s : Session) → r ≡ some s → IsPaced s p)
      → (s : Session) → appended (length bytes) d.result r ≡ some s
      → IsPaced s (d.host.1 (handle r))
  unfolding Counts
  appended-IsPaced d none c k s e = elim (Bool-cases d.result) [
    | inl good ↦ nothing _ s (rw good at e)
    | inr bad ↦ nothing _ s (rw bad at e)
  ]
  appended-IsPaced d (some t) c k s e = elim (Bool-cases d.result) [
    | inl good ↦ rw (c.1 t refl good) (advanced_paced t s (k t refl) (rw good at e))
    | inr bad ↦ rw (c.0 bad (handle (some t))) (k s (rw bad at e))
  ]
    where
      appended_fields :
          (t s : Session)
          → appended (length bytes) true (some t) ≡ some s
          → record t {
            bytes_written = t.bytes_written + length bytes;
            synced_bytes =
                if ltb (t.bytes_written + length bytes - t.synced_bytes) (2 ^ 20)
                then t.synced_bytes
                else t.bytes_written + length bytes;
          }
            ≡ s
      appended_fields t s e = ap (λ (r : Option Session). elim r [ none ↦ t | some u ↦ u ]) e

      advanced_paced :
          (t s : Session)
          → IsPaced t p
          → appended (length bytes) true (some t) ≡ some s
          → IsPaced s (
              if leb sync_interval (t.bytes_written + length bytes - t.synced_bytes)
              then 0
              else p + length bytes)
      advanced_paced t s q e =
          let some_eq = appended_fields t s e in
          rw (← some_eq) (ground (arith, q.0, q.1), ground (arith, q.0, q.1))

module _ {H : Type 0} (io : Host H) where
  begun-IsPaced :
      (h : H × (ℕ → ℕ)) (relative : List ℕ) (desire perm : Option (List ℕ)) (id : ℕ) (ok : Bool)
      (r : Option Session)
      → Begins (counted io) h relative desire perm id ok r
      → (s : Session) → r ≡ some s
      → IsPaced s 0
  begun-IsPaced h relative desire perm id true (some t) b s e =
      let same : t ≡ s = ground arith in
      rw (← same, b.none_written, b.none_synced) (omega arith, omega arith)
  begun-IsPaced h relative desire perm id true none b s e = absurd b
  begun-IsPaced h relative desire perm id false (some t) b s e = absurd b
  begun-IsPaced h relative desire perm id false none b s e = nothing 0 s e

  put-other : (f : ℕ → ℕ) (k v j : ℕ) → (j == k) ≡ false → put f k v j ≡ f j
  put-other f k v j e = rw e refl

  -- After any calls of the upload operations from the initial table, whatever the host answers, no
  -- two sessions in use have one identifier, and for each the bytes that its file took in accepted
  -- chunks, since the upload began or `write_back` was last called on the file, are its written
  -- bytes less its synced bytes, and fewer than 1 MiB.
  pub Tracked-IsPaced :
      (ss : List Session) (pending : ℕ → ℕ)
      → Tracked io ss pending
      → AreDistinct ss × ArePaced ss pending
  Tracked-IsPaced _ _ initialized = none_there (λ id. 0)
  Tracked-IsPaced _ _ (began ss pending h id relative desire perm r) =
      let k = Tracked-IsPaced ss pending r in
      let b = begin_upload-Begun (counted io) id relative desire perm ss h k.0 in
      (
        b.1.1,
        Stores-ArePaced ss _ id b.0 pending (put pending id 0) b.1 k.1 (put-other pending id 0)
            (rw (put-same pending id 0) (begun-IsPaced _ relative desire perm id _ b.0 b.2)),
      )
  Tracked-IsPaced _ _ (appended_to ss pending h id bytes r) =
      let k = Tracked-IsPaced ss pending r in
      let b = append_upload_chunk-Stores (counted io) ss (h, λ fp. pending id) id k.0 bytes in
      (
        b.1,
        Stores-ArePaced ss _ id _ pending _ b k.1 (put-other pending id _) (
            rw (put-same pending id _) (
              appended-IsPaced io ss h id (pending id) bytes _ (lookup ss id)
                (append_upload_chunk-Counts io ss h id (pending id) bytes k.0) (k.1 id))),
      )
  Tracked-IsPaced _ _ (finished ss pending h id r) =
      let k = Tracked-IsPaced ss pending r in
      let b = finish_upload-Stores (counted io) ss h id k.0 in
      (b.1, Stores-ArePaced ss _ id none pending pending b k.1 (λ j e. refl) (nothing _))
  Tracked-IsPaced _ _ (aborted ss pending h id r) =
      let k = Tracked-IsPaced ss pending r in
      let b = abort_upload-Stores (counted io) ss h id k.0 in
      (b.1, Stores-ArePaced ss _ id none pending pending b k.1 (λ j e. refl) (nothing _))
  Tracked-IsPaced _ _ (shut_down ss pending h r) = unfold file_ops_shutdown in none_there pending
