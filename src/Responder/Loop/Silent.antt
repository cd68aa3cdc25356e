-- ===== src/Responder/Loop/Silent.antt =====
-- The loop of src/responder.c between a disconnection and the next ENABLE.
use epass_usb_responder.Prelude.{
  ℕ, ◌≡◌, refl, ap, ap₂, ◌∙◌, Bool, false, not, ◌&&◌, Option, none, some, List, [], ◌∷◌, ◌++◌,
}
use epass_usb_responder.Files.Host.{Host}
use epass_usb_responder.Responder.Commands.{Config}
use epass_usb_responder.Responder.Loop.{
  Ep0Event, bind, enable, disable, unbind, other, Ep0Read, try_again, read_failed, odd_size, events,
  Ready, Turn, interrupted, poll_failed, ready, Runtime, close_eps, on_ep0_event, on_ep0_events,
  process_ep0_events, open_endpoints, Step, going, stopped, hanging, faulting, on_ep0, on_out,
  after_ep0, one_turn, behind, then_turn, handle_io_loop,
}

-- No event is ENABLE.
abbrev pub NoEnable : List Ep0Event → Type 0
NoEnable [] = Unit
NoEnable (enable ∷ es) = ⊥
NoEnable (bind ∷ es) = NoEnable es
NoEnable (disable ∷ es) = NoEnable es
NoEnable (unbind ∷ es) = NoEnable es
NoEnable (other ∷ es) = NoEnable es

abbrev ReadsNoEnable : Option Ep0Read → Type 0
ReadsNoEnable none = Unit
ReadsNoEnable (some try_again) = Unit
ReadsNoEnable (some read_failed) = Unit
ReadsNoEnable (some odd_size) = Unit
ReadsNoEnable (some (events es)) = NoEnable es

abbrev pub AreWithoutEnable : List Turn → Type 0
AreWithoutEnable [] = Unit
AreWithoutEnable (interrupted ∷ turns) = AreWithoutEnable turns
AreWithoutEnable (poll_failed ∷ turns) = AreWithoutEnable turns
AreWithoutEnable (ready r ∷ turns) = ReadsNoEnable r.ep0 × AreWithoutEnable turns

-- The responder is disabled still, with the same uploads, and has written nothing; or the loop ended.
abbrev pub IsSilent : {H : Type 0} → Runtime H → Step H → Type 0
IsSilent rt (going rt' out) = (rt'.enabled ≡ false) × (rt'.server ≡ rt.server) × (out ≡ [])
IsSilent rt stopped = Unit
IsSilent rt hanging = ⊥
IsSilent rt faulting = ⊥

module _ {H : Type 0} where
  abbrev IsOff : Runtime H → Runtime H → Type 0
  IsOff rt rt' = (rt'.enabled ≡ false) × (rt'.server ≡ rt.server)

  on_ep0_events-IsOff :
      (es : List Ep0Event) (rt rt' : Runtime H)
      → NoEnable es
      → IsOff rt rt'
      → IsOff rt (on_ep0_events rt' es)
  unfolding on_ep0_events on_ep0_event close_eps
  on_ep0_events-IsOff [] rt rt' n o = o
  on_ep0_events-IsOff (bind ∷ es) rt rt' n o = on_ep0_events-IsOff es rt rt' n o
  on_ep0_events-IsOff (enable ∷ es) rt rt' n o = elim n [ ]
  on_ep0_events-IsOff (disable ∷ es) rt rt' n o =
      on_ep0_events-IsOff es rt (close_eps (record rt' { enabled = false })) n (refl, o.1)
  on_ep0_events-IsOff (unbind ∷ es) rt rt' n o =
      on_ep0_events-IsOff es rt (close_eps (record rt' { enabled = false })) n (refl, o.1)
  on_ep0_events-IsOff (other ∷ es) rt rt' n o = on_ep0_events-IsOff es rt rt' n o

  -- The endpoints are not opened.
  open_endpoints-IsOff :
      (in_opens out_opens : Bool) (rt rt' : Runtime H)
      → IsOff rt rt'
      → IsOff rt (open_endpoints in_opens out_opens rt')
  unfolding open_endpoints
  open_endpoints-IsOff in_opens out_opens rt rt' o = rw (ap (λ b. b && not rt'.ep_in) o.0) o

module _ {H : Type 0} (io : Host H) (size_mod : ℕ) (cfg : Config) where
  on_out-IsSilent :
      (polled : Bool) (r : Ready) (rt rt' : Runtime H)
      → IsOff rt rt'
      → IsSilent rt (on_out io size_mod cfg polled r rt')
  unfolding on_out
  on_out-IsSilent polled r rt rt' o = rw (ap (λ b. b && polled) o.0) (o.0, o.1, refl)

  on_ep0-IsSilent :
      (rt : Runtime H) (r : Ready) (polled : Bool) (e : Option Ep0Read)
      → rt.enabled ≡ false
      → ReadsNoEnable e
      → IsSilent rt (after_ep0 io size_mod cfg polled r (on_ep0 r rt e))
  unfolding on_ep0 process_ep0_events
  on_ep0-IsSilent rt r polled none off n = on_out-IsSilent polled r rt rt (off, refl)
  on_ep0-IsSilent rt r polled (some try_again) off n =
      on_out-IsSilent polled r rt _ (open_endpoints-IsOff r.in_opens r.out_opens rt rt (off, refl))
  on_ep0-IsSilent rt r polled (some read_failed) off n = tt
  on_ep0-IsSilent rt r polled (some odd_size) off n = tt
  on_ep0-IsSilent rt r polled (some (events es)) off n = on_out-IsSilent polled r rt _ (
      open_endpoints-IsOff r.in_opens r.out_opens rt _ (on_ep0_events-IsOff es rt rt n (off, refl)))

  behind-IsSilent :
      (rt rt' : Runtime H) (out : List (List ℕ)) (s : Step H)
      → rt'.server ≡ rt.server
      → out ≡ []
      → IsSilent rt' s
      → IsSilent rt (behind io size_mod cfg out s)
  behind-IsSilent rt rt' out (going rt'' out') e o p = (p.0, p.1 ∙ e, ap₂ (λ a b. a ++ b) o p.2)
  behind-IsSilent rt rt' out stopped e o p = tt
  behind-IsSilent rt rt' out hanging e o p = p
  behind-IsSilent rt rt' out faulting e o p = p

  then_turn-IsSilent :
      (rt : Runtime H) (s : Step H) (next : Runtime H → Step H)
      → IsSilent rt s
      → ((rt' : Runtime H) → rt'.enabled ≡ false → IsSilent rt' (next rt'))
      → IsSilent rt (then_turn io size_mod cfg s next)
  then_turn-IsSilent rt (going rt' out) next q f =
      behind-IsSilent rt rt' out (next rt') q.1 q.2 (f rt' q.0)
  then_turn-IsSilent rt stopped next q f = tt
  then_turn-IsSilent rt hanging next q f = q
  then_turn-IsSilent rt faulting next q f = q

  -- From a state in which the responder is disabled, as after any frame that is not read, turns
  -- whose ep0 events do not include ENABLE leave it disabled, with the same uploads, and nothing
  -- is written and no call blocks.
  pub handle_io_loop-IsSilent :
      (turns : List Turn) (rt : Runtime H)
      → rt.enabled ≡ false
      → AreWithoutEnable turns
      → IsSilent rt (handle_io_loop io size_mod cfg rt turns)
  unfolding handle_io_loop one_turn
  handle_io_loop-IsSilent [] rt off n = (off, refl, refl)
  handle_io_loop-IsSilent (interrupted ∷ turns) rt off n =
      then_turn-IsSilent rt (going rt []) _ (off, refl, refl)
        λ rt' off'. handle_io_loop-IsSilent turns rt' off' n
  handle_io_loop-IsSilent (poll_failed ∷ turns) rt off n = tt
  handle_io_loop-IsSilent (ready r ∷ turns) rt off n =
      then_turn-IsSilent rt _ _ (on_ep0-IsSilent rt r (rt.enabled && rt.ep_out) r.ep0 off n.0)
        λ rt' off'. handle_io_loop-IsSilent turns rt' off' n.1
