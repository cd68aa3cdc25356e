-- ===== src/Files/Place/Enough.antt =====
-- `usb_responder_dir_mkdir` of src/file_ops.c ends within the fuel of its loop.
use epass_usb_responder.Prelude.{
  ℕ, zero, suc, ◌<◌, ◌≡◌, ◌≢◌, refl, Bool, true, false, not, ◌&&◌, Option, List, [], ◌∷◌, arith,
  leb, ◌==◌, length, Bool-cases, inl, inr,
}
use epass_usb_responder.Files.Host.{
  Host, Made, made, exists, refused, Call, done, unfinished, then_on,
}
use epass_usb_responder.Files.Paths.{
  Built, built, traversal, too_long, out_of_fuel, slash, path_max_len, build_path, skip_slashes,
  segment, after_segment, path_storage_matches_desire,
}
use epass_usb_responder.Files.Paths.Accepts.{build_path-ne-out_of_fuel}
use epass_usb_responder.Files.Paths.Names.{behind_root}
use epass_usb_responder.Files.Paths.Split.{
  after_segment-shorter, skip_slashes-shorter, skip_slashes-head,
}
use epass_usb_responder.Files.Upload.{ensure_storage_writeable}
use epass_usb_responder.Files.Place.{
  extended, directory_mode, made_or_there, make_component, make_loop, made_only, mkdir_built,
  dir_mkdir,
}

module _ {H : Type 0} (io : Host H) where
  then_done-ne-unfinished :
      (b : Bool) (h : H) (next : H → Call H)
      → ((h' : H) → next h' ≢ unfinished)
      → then_on (done b h) next ≢ unfinished
  then_done-ne-unfinished true h next n = n h
  then_done-ne-unfinished false h next n = λ e. cc

  then_made-ne-unfinished :
      (work : List ℕ) (m : Made) (h : H) (next : H → Call H)
      → ((h' : H) → next h' ≢ unfinished)
      → then_on (made_or_there io work (m, h)) next ≢ unfinished
  unfolding made_or_there
  then_made-ne-unfinished work made h next n = n h
  then_made-ne-unfinished work refused h next n = λ e. cc
  then_made-ne-unfinished work exists h next n = then_done-ne-unfinished _ h next n

  make_component-ne-unfinished :
      (next : List ℕ → H → Call H) (seg work : List ℕ) (h : H)
      → ((w : List ℕ) (h' : H) → next w h' ≢ unfinished)
      → make_component io next seg work h ≢ unfinished
  unfolding make_component
  make_component-ne-unfinished next seg work h n =
      elim (Bool-cases (leb path_max_len (length (extended work seg)))) [
        | inl long ↦ rw long (λ e. cc)
        | inr fits ↦
            let m = io.mkdir h (extended work seg) directory_mode in
            rw fits (
              then_made-ne-unfinished (extended work seg) m.0 m.1 (next (extended work seg))
                (n (extended work seg)))
      ]

  loop_step-ne-unfinished :
      (fuel : ℕ) (r work : List ℕ) (h : H) (skipped : List ℕ)
      → skip_slashes r ≡ skipped
      → ((rest w : List ℕ) (h' : H)
          → length rest < length skipped
          → make_loop io fuel rest w h' ≢ unfinished)
      → make_loop io (suc fuel) r work h ≢ unfinished
  unfolding make_loop
  loop_step-ne-unfinished fuel r work h [] e ih = rw (e, make_loop) (λ f. cc)
  loop_step-ne-unfinished fuel r work h (c ∷ rest) e ih =
      rw (e, make_loop)
        (make_component-ne-unfinished (make_loop io fuel (after_segment (c ∷ rest)))
          (segment (c ∷ rest)) work h
          (λ w h'. ih (after_segment (c ∷ rest)) w h' (shorter (skip_slashes-head r e))))
    where
      shorter : (c == slash) ≡ false → length (after_segment (c ∷ rest)) < length (c ∷ rest)
      shorter f = unfold after_segment in rw f (omega (arith, after_segment-shorter rest))

  make_loop-ne-unfinished :
      (fuel : ℕ) (r work : List ℕ) (h : H)
      → length r < fuel
      → make_loop io fuel r work h ≢ unfinished
  make_loop-ne-unfinished zero r work h l = absurd (omega arith)
  make_loop-ne-unfinished (suc fuel) r work h l =
      loop_step-ne-unfinished fuel r work h (skip_slashes r) refl (λ rest w h' less.
        make_loop-ne-unfinished fuel rest w h' (omega (arith, skip_slashes-shorter r)))

  made_only-ne-unfinished : (m : Made) (h : H) → made_only io (m, h) ≢ unfinished
  made_only-ne-unfinished made h = λ e. cc
  made_only-ne-unfinished exists h = λ e. cc
  made_only-ne-unfinished refused h = λ e. cc

  pub dir_mkdir-ne-unfinished :
      (h : H) (relative : List ℕ) (parents : Bool) (desire : Option (List ℕ))
      → dir_mkdir io h relative parents desire ≢ unfinished
  unfolding dir_mkdir mkdir_built
  dir_mkdir-ne-unfinished h relative parents desire =
      by_path (build_path path_max_len relative) (build_path-ne-out_of_fuel path_max_len relative)
    where
      by_path : (b : Built) → b ≢ out_of_fuel → mkdir_built io h parents desire b ≢ unfinished
      by_path (built path storage) ne =
          elim (Bool-cases
            (path_storage_matches_desire storage desire && ensure_storage_writeable io storage h)) [
              | inl allowed ↦ elim (Bool-cases (not parents)) [
                | inl alone ↦
                    rw (allowed, alone)
                      (made_only-ne-unfinished (io.mkdir h path directory_mode).0
                        (io.mkdir h path directory_mode).1)
                | inr all ↦
                    rw (allowed, all)
                      (make_loop-ne-unfinished (suc (length (behind_root path))) (behind_root path)
                        (slash ∷ []) h (omega arith))
              ]
              | inr denied ↦ rw denied (λ e. cc)
            ]
      by_path traversal ne = λ e. cc
      by_path too_long ne = λ e. cc
      by_path out_of_fuel ne = absurd (ne refl)
