-- ===== src/Endpoints/Laws.antt =====
-- The command ring and the endpoint's state under QuiesceEndpoint.
use os_x_generic_usb.Base.{ℕ, ◌≡◌, ◌⊎◌, inl, inr, refl, Bool, false, arith}
use os_x_generic_usb.Command.Inv.{IsValid}
use os_x_generic_usb.Command.Wait.{World, Hardware}
use os_x_generic_usb.Command.Wait.Waiting.{NoPointer}
use os_x_generic_usb.Command.Wait.Cell.{wait_for_cmd-Left}
use os_x_generic_usb.Dequeue.{EpState, disabled, running, halted, stopped, error}
use os_x_generic_usb.Endpoints.{
  stop_command, reset_command, type_stop_ep, type_reset_ep, stop_endpoint, reset_endpoint,
  quiesce_endpoint,
}

-- Whether the endpoint is found halted: at the start, or by the stop.
abbrev pub FoundHalted : EpState → EpState → Type 0
FoundHalted before after = (before ≡ halted) ⊎ ((before ≡ running) × (after ≡ halted))

module _ (hw : Hardware) (cell slot endpoint : ℕ) where
  abbrev InOrder : World → Type 0
  InOrder w = IsValid w.ring × NoPointer cell w.ring

  reset_endpoint-InOrder :
      (w : World) → InOrder w → InOrder (reset_endpoint hw w cell slot endpoint false)
  unfolding reset_endpoint
  reset_endpoint-InOrder w (v, n) =
      let l = wait_for_cmd-Left hw (reset_command slot endpoint false) type_reset_ep cell w v n in
      (l.valid, l.no_pointer)

  stop_endpoint-InOrder :
      (is_intel : Bool) (w : World)
      → InOrder w
      → InOrder (stop_endpoint hw is_intel w cell slot endpoint false).0
  unfolding stop_endpoint
  stop_endpoint-InOrder is_intel w (v, n) =
      let l = wait_for_cmd-Left hw (stop_command slot endpoint false) type_stop_ep cell w v n in
      (l.valid, l.no_pointer)

  quiesced :
      (is_intel : Bool) (before after : EpState) (w : World)
      → InOrder w
      → InOrder (quiesce_endpoint hw is_intel before after w cell slot endpoint).0
  unfolding quiesce_endpoint
  quiesced is_intel running halted w o =
      reset_endpoint-InOrder _ (stop_endpoint-InOrder is_intel w o)
  quiesced is_intel running disabled w o = stop_endpoint-InOrder is_intel w o
  quiesced is_intel running running w o = stop_endpoint-InOrder is_intel w o
  quiesced is_intel running stopped w o = stop_endpoint-InOrder is_intel w o
  quiesced is_intel running error w o = stop_endpoint-InOrder is_intel w o
  quiesced is_intel halted after w o = reset_endpoint-InOrder w o
  quiesced is_intel disabled after w o = o
  quiesced is_intel stopped after w o = o
  quiesced is_intel error after w o = o

  -- The state of the driver behind the stop, which only a running endpoint gets.
  abbrev pub stopped_first : Bool → EpState → World → World
  stopped_first is_intel running w = (stop_endpoint hw is_intel w cell slot endpoint false).0
  stopped_first is_intel disabled w = w
  stopped_first is_intel halted w = w
  stopped_first is_intel stopped w = w
  stopped_first is_intel error w = w

  -- What is returned and issued.
  abbrev Told : Bool → EpState → EpState → World → World × EpState × Bool → Type 0
  Told is_intel before after w (w', told, needs_reset) =
      (FoundHalted before after
        → (told ≡ halted)
          × (w' ≡ reset_endpoint hw (stopped_first is_intel before w) cell slot endpoint false))
      × (¬ FoundHalted before after → (told ≡ before) × (w' ≡ stopped_first is_intel before w))

  quiesce_endpoint-Told :
      (is_intel : Bool) (before after : EpState) (w : World)
      → Told is_intel before after w
          (quiesce_endpoint hw is_intel before after w cell slot endpoint)
  unfolding quiesce_endpoint
  quiesce_endpoint-Told is_intel running halted w =
      (λ h. (refl, refl), λ h. absurd (h (inr (refl, refl))))
  quiesce_endpoint-Told is_intel running disabled w =
      (λ h. absurd (ground (arith, h)), λ h. (refl, refl))
  quiesce_endpoint-Told is_intel running running w =
      (λ h. absurd (ground (arith, h)), λ h. (refl, refl))
  quiesce_endpoint-Told is_intel running stopped w =
      (λ h. absurd (ground (arith, h)), λ h. (refl, refl))
  quiesce_endpoint-Told is_intel running error w =
      (λ h. absurd (ground (arith, h)), λ h. (refl, refl))
  quiesce_endpoint-Told is_intel halted after w = (λ h. (refl, refl), λ h. absurd (h (inl refl)))
  quiesce_endpoint-Told is_intel disabled after w =
      (λ h. absurd (ground (arith, h)), λ h. (refl, refl))
  quiesce_endpoint-Told is_intel stopped after w =
      (λ h. absurd (ground (arith, h)), λ h. (refl, refl))
  quiesce_endpoint-Told is_intel error after w =
      (λ h. absurd (ground (arith, h)), λ h. (refl, refl))

  -- QuiesceEndpoint on a valid command ring, with a variable whose address no callback entry holds,
  -- whatever the controller does: the ring is valid again and no callback entry holds the address. A
  -- running endpoint, and no other, is stopped first. If the endpoint is found halted, at the start or
  -- by the stop, it is reset then and the state returned is halted; if not, there is no reset and the
  -- state returned is the one from before.
  pub quiesce_endpoint_in_order :
      (is_intel : Bool) (before after : EpState) (w : World)
      → IsValid w.ring
      → NoPointer cell w.ring
      → let (w', told, needs_reset) =
          quiesce_endpoint hw is_intel before after w cell slot endpoint in
        IsValid w'.ring
        × NoPointer cell w'.ring
        × (FoundHalted before after
            → (told ≡ halted)
              × (w' ≡ reset_endpoint hw (stopped_first is_intel before w) cell slot endpoint false))
        × (¬ FoundHalted before after → (told ≡ before) × (w' ≡ stopped_first is_intel before w))
  quiesce_endpoint_in_order is_intel before after w v n =
      let q = quiesced is_intel before after w (v, n) in
      let t = quiesce_endpoint-Told is_intel before after w in (q.0, q.1, t.0, t.1)
