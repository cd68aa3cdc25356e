-- ===== src/Responder/Loop/Endpoints.antt =====
-- The two endpoints of src/responder.c: when they are open.
use epass_usb_responder.Prelude.{
  ◌≡◌, refl, sym, ap, ap₂, ◌∙◌, Bool, true, false, not, ◌&&◌, List, [], ◌∷◌, Bool-cases, inl, inr,
  arith,
}
use epass_usb_responder.Files.Host.{Host}
use epass_usb_responder.Files.Upload.Reachable.{Reachable}
use epass_usb_responder.Responder.Rx.Bounds.{IsSound}
use epass_usb_responder.Responder.Loop.{
  Ep0Event, bind, enable, disable, unbind, other, Runtime, close_eps, on_ep0_event, on_ep0_events,
  open_endpoints, disconnected,
}

module _ {H : Type 0} (io : Host H) where
  -- What holds also between the events of ep0 and the opening of the endpoints.
  pub record IsHalfway (rt : Runtime H) : Type 0 where
    pub both : rt.ep_out ≡ rt.ep_in
    pub closed_empty : rt.ep_in ≡ false → rt.rx.buf ≡ []
    pub disabled_closed : rt.enabled ≡ false → rt.ep_in ≡ false
    pub sound : IsSound rt.rx
    pub table : Reachable io rt.server.sessions

  -- The endpoints are open exactly while the responder is enabled.
  pub record IsSteady (rt : Runtime H) : Type 0 where
    pub in_is : rt.ep_in ≡ rt.enabled
    pub out_is : rt.ep_out ≡ rt.enabled
    pub disabled_empty : rt.enabled ≡ false → rt.rx.buf ≡ []
    pub sound : IsSound rt.rx
    pub table : Reachable io rt.server.sessions

  pub half : (rt : Runtime H) → IsSteady rt → IsHalfway rt
  half rt s = record {
    both = s.out_is ∙ sym s.in_is;
    closed_empty = λ e. s.disabled_empty (sym s.in_is ∙ e);
    disabled_closed = λ e. s.in_is ∙ e;
    sound = s.sound;
    table = s.table;
  }

  pub closed-IsSteady :
      (rt : Runtime H) → Reachable io rt.server.sessions → IsSteady (disconnected rt)
  unfolding close_eps
  closed-IsSteady rt table = record {
    in_is = refl;
    out_is = refl;
    disabled_empty = λ e. refl;
    sound = record { fits = omega arith; bytes = tt };
    table = table;
  }

  closed-IsHalfway :
      (rt : Runtime H)
      → Reachable io rt.server.sessions
      → IsHalfway (close_eps (record rt { enabled = false }))
  unfolding close_eps
  closed-IsHalfway rt table = half _ (closed-IsSteady rt table)

  pub on_ep0_events-IsHalfway :
      (es : List Ep0Event) (rt : Runtime H) → IsHalfway rt → IsHalfway (on_ep0_events rt es)
  unfolding on_ep0_events on_ep0_event
  on_ep0_events-IsHalfway [] rt h = h
  on_ep0_events-IsHalfway (bind ∷ es) rt h = on_ep0_events-IsHalfway es rt h
  on_ep0_events-IsHalfway (enable ∷ es) rt h =
      on_ep0_events-IsHalfway es (record rt { enabled = true })
        (record {
          both = h.both;
          closed_empty = h.closed_empty;
          disabled_closed = λ e. absurd (ground arith);
          sound = h.sound;
          table = h.table;
        })
  on_ep0_events-IsHalfway (disable ∷ es) rt h =
      on_ep0_events-IsHalfway es _ (closed-IsHalfway rt h.table)
  on_ep0_events-IsHalfway (unbind ∷ es) rt h =
      on_ep0_events-IsHalfway es _ (closed-IsHalfway rt h.table)
  on_ep0_events-IsHalfway (other ∷ es) rt h = on_ep0_events-IsHalfway es rt h

  pub open_endpoints-IsSteady :
      (in_opens out_opens : Bool) (rt : Runtime H)
      → IsHalfway rt
      → IsSteady (open_endpoints in_opens out_opens rt)
  unfolding open_endpoints
  open_endpoints-IsSteady in_opens out_opens rt h = elim (Bool-cases rt.enabled) [
    | inl on ↦ elim (Bool-cases rt.ep_in) [
      | inl here ↦ rw (idle on here) (record {
        in_is = here ∙ sym on;
        out_is = h.both ∙ here ∙ sym on;
        disabled_empty = λ e. h.closed_empty (h.disabled_closed e);
        sound = h.sound;
        table = h.table;
      })
      | inr gone ↦ elim (Bool-cases (in_opens && out_opens)) [
        | inl opens ↦
            rw (due on gone, opens)
              (record {
                in_is = sym on;
                out_is = sym on;
                disabled_empty = λ e. h.closed_empty gone;
                sound = h.sound;
                table = h.table;
              })
        | inr fails ↦ rw (due on gone, fails) (closed-IsSteady rt h.table)
      ]
    ]
    | inr off ↦ rw (unneeded off) (record {
      in_is = h.disabled_closed off ∙ sym off;
      out_is = h.both ∙ h.disabled_closed off ∙ sym off;
      disabled_empty = λ e. h.closed_empty (h.disabled_closed e);
      sound = h.sound;
      table = h.table;
    })
  ]
    where
      idle : rt.enabled ≡ true → rt.ep_in ≡ true → (rt.enabled && not rt.ep_in) ≡ false
      idle on here = ap₂ (λ a b. a && not b) on here

      due : rt.enabled ≡ true → rt.ep_in ≡ false → (rt.enabled && not rt.ep_in) ≡ true
      due on gone = ap₂ (λ a b. a && not b) on gone

      unneeded : rt.enabled ≡ false → (rt.enabled && not rt.ep_in) ≡ false
      unneeded off = ap (λ a. a && not rt.ep_in) off
