-- ===== src/Files/Upload/Refines.antt =====
-- The upload operations of src/file_ops.c on the table as a map from identifiers to sessions,
-- whatever the host answers.
use epass_usb_responder.Prelude.{
  ℕ, ◌+◌, ◌-◌, ◌^◌, leb, ltb, ap, ◌≡◌, refl, ◌∙◌, Bool, true, false, Option, none, some, List,
  arith, ◌==◌, if◌then◌else◌, length, Bool-cases, inl, inr,
}
use epass_usb_responder.Files.Host.{Host}
use epass_usb_responder.Files.Upload.{
  Session, zeroed, update_at, find_session, abort_found, abort_upload, advanced, append_to,
  append_found, append_upload_chunk, sync_interval, finish_found, finish_upload,
}
use epass_usb_responder.Files.Upload.Table.{
  matches, lookup, AreDistinct, Holds, IsFor, IsFound, find_session-IsFound, find_session-none,
  lookup-update_at, AreDistinct-update_at,
}

pub unused-IsFor : (id : ℕ) (s : Session) → s.used ≡ false → IsFor id s
unused-IsFor id s u j h = rw u

pub named-IsFor : (id : ℕ) (s : Session) → s.transfer_id ≡ id → IsFor id s
named-IsFor id s e j h = ground arith

-- The table is a map again in which only the identifier has another session.
abbrev pub Stores : List Session → ℕ → Option Session → List Session → Type 0
Stores before id r after =
    ((j : ℕ) → lookup after j ≡ (if j == id then r else lookup before j)) × AreDistinct after

pub unchanged :
    (ss : List Session) (id : ℕ) (r : Option Session)
    → lookup ss id ≡ r
    → AreDistinct ss
    → Stores ss id r ss
unchanged ss id r e d = (
  λ j. elim (Bool-cases (j == id)) [
    | inl same ↦ let eq : j ≡ id = ground arith in rw (same, eq) e
    | inr other ↦ rw other
  ],
  d,
)

pub replaced :
    (ss : List Session) (id i : ℕ) (s s' : Session) (r : Option Session)
    → IsFor id s
    → IsFor id s'
    → Holds ss i s id
    → AreDistinct ss
    → (if matches s' id then some s' else none) ≡ r
    → Stores ss id r (update_at ss i s')
replaced ss id i s s' r for for' h d e = (
  λ j. lookup-update_at id s s' for for' ss i j h ∙ rw e,
  AreDistinct-update_at id s s' for for' ss i h d,
)

-- The session after an append of `size` bytes, if the call returned true: `size` bytes more are
-- written, and all are counted as handed to the disk once 1 MiB of them was not.
abbrev pub appended : ℕ → Bool → Option Session → Option Session
appended size true (some s) = some (record s {
  bytes_written = s.bytes_written + size;
  synced_bytes =
      if ltb (s.bytes_written + size - s.synced_bytes) (2 ^ 20)
      then s.synced_bytes
      else s.bytes_written + size;
})
appended size true none = none
appended size false r = r

synced-eq :
    (written synced : ℕ)
    → (if leb sync_interval (written - synced) then written else synced)
      ≡ (if ltb (written - synced) (2 ^ 20) then synced else written)
synced-eq written synced = ground arith

advanced-appended : (s : Session) (size : ℕ) → some (advanced s size) ≡ appended size true (some s)
unfolding advanced
advanced-appended s size =
    ap (λ n. some (record s { bytes_written = s.bytes_written + size; synced_bytes = n }))
      (synced-eq (s.bytes_written + size) s.synced_bytes)

module _ {H : Type 0} (io : Host H) (ss : List Session) (h : H) (id : ℕ) (d : AreDistinct ss) where
  cleared : (i : ℕ) (s : Session) → IsFound ss id i s → Stores ss id none (update_at ss i zeroed)
  cleared i s f =
      replaced ss id i s zeroed none (named-IsFor id s f.2) (unused-IsFor id zeroed refl) f.0 d refl

  abort_found-Stores :
      (r : Option (ℕ × Session))
      → find_session ss id ≡ r
      → Stores ss id none (abort_found io ss h r).sessions
  unfolding abort_found
  abort_found-Stores none e = unchanged ss id none (find_session-none ss id e) d
  abort_found-Stores (some (i, s)) e = cleared i s (find_session-IsFound ss id i s d e)

  -- On a table without duplicates, after `abort_upload` no session has the identifier and all
  -- others are as before.
  pub abort_upload-Stores : Stores ss id none (abort_upload io ss h id).sessions
  unfolding abort_upload
  abort_upload-Stores = abort_found-Stores (find_session ss id) refl

  finish_found-Stores :
      (r : Option (ℕ × Session))
      → find_session ss id ≡ r
      → Stores ss id none (finish_found io ss h r).sessions
  unfolding finish_found
  finish_found-Stores none e = unchanged ss id none (find_session-none ss id e) d
  finish_found-Stores (some (i, s)) e = cleared i s (find_session-IsFound ss id i s d e)

  -- On a table without duplicates, after `finish_upload` no session has the identifier and all
  -- others are as before, whatever `rename` and `chmod` answer.
  pub finish_upload-Stores : Stores ss id none (finish_upload io ss h id).sessions
  unfolding finish_upload
  finish_upload-Stores = finish_found-Stores (find_session ss id) refl

  module _ (bytes : List ℕ) where
    named_advanced :
        (s : Session)
        → s.used ≡ true
        → s.transfer_id ≡ id
        → (if matches (advanced s (length bytes)) id
            then some (advanced s (length bytes))
            else none)
          ≡ some (advanced s (length bytes))
    unfolding advanced
    named_advanced s u e = ground arith

    append_to-Stores :
        (i : ℕ) (s : Session) (fp : Option ℕ)
        → IsFound ss id i s
        → let r = append_to io ss h bytes i s fp in
          Stores ss id (appended (length bytes) r.result (lookup ss id)) r.sessions
    unfolding append_to advanced
    append_to-Stores i s none f = unchanged ss id (lookup ss id) refl d
    append_to-Stores i s (some fp) f = elim (Bool-cases (io.fwrite h fp bytes).0) [
      | inl good ↦
          rw (good, f.3)
            (replaced ss id i s (advanced s (length bytes)) (appended (length bytes) true (some s))
              (named-IsFor id s f.2) (named-IsFor id (advanced s (length bytes)) f.2) f.0 d
              (named_advanced s f.1 f.2 ∙ advanced-appended s (length bytes)))
      | inr bad ↦ rw bad (unchanged ss id (lookup ss id) refl d)
    ]

    append_found-Stores :
        (r : Option (ℕ × Session))
        → find_session ss id ≡ r
        → let a = append_found io ss h bytes r in
          Stores ss id (appended (length bytes) a.result (lookup ss id)) a.sessions
    unfolding append_found
    append_found-Stores none e = unchanged ss id (lookup ss id) refl d
    append_found-Stores (some (i, s)) e =
        append_to-Stores i s s.fp (find_session-IsFound ss id i s d e)

    -- On a table without duplicates, a chunk that is accepted adds its length to the written bytes
    -- of the session that has the identifier, and sets its synced bytes to the sum if they are
    -- then 1 MiB or more behind, and one that is not accepted changes no session; the others are
    -- as before.
    pub append_upload_chunk-Stores :
        Stores ss id
          (appended (length bytes) (append_upload_chunk io ss h id bytes).result (lookup ss id))
          (append_upload_chunk io ss h id bytes).sessions
    unfolding append_upload_chunk
    append_upload_chunk-Stores = elim (Bool-cases (length bytes == 0)) [
      | inl empty ↦ rw empty (unchanged ss id (lookup ss id) refl d)
      | inr some_bytes ↦ rw some_bytes (append_found-Stores (find_session ss id) refl)
    ]
