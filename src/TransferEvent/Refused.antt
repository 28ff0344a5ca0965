-- ===== src/TransferEvent/Refused.antt =====
-- Events that processTransferEvent2 does not accept.
use os_x_generic_usb.Base.{
  ℕ, ◌≡◌, refl, Option, none, some, Bool, true, false, not, ◌&&◌, ◌||◌, ◌==◌, leb, ◌-◌, map,
  if_both, if◌then◌else◌, ℤ, pos, negsuc,
}
use os_x_generic_usb.Trb.{Trb, diff_trb_index}
use os_x_generic_usb.Streams.{find_stream}
use os_x_generic_usb.Schedule.{Control, Context, Pipe}
use os_x_generic_usb.TransferEvent.{Words, words_of, Setting}
use os_x_generic_usb.TransferEvent.Found.{
  IsochState, Site, Bus, put_site, site_at, stream_ring, is_known, stop_stream, note_stop,
  do_stop_completion, xrun, on_site, on_index, on_plain, on_stream, process_transfer_event2,
}

-- If false is returned, nothing was changed.
unfoldable Refused : {C : Type 0} → Bus C → Option (Bus C × Bool) → Type 0
Refused b none = Unit {0}
Refused b (some (b', true)) = Unit {0}
Refused b (some (b', false)) = b' ≡ b

Refused-same :
    {C : Type 0} (b b' : Bus C) (o : Option (Bus C × Bool))
    → Refused b o
    → o ≡ some (b', false)
    → b' ≡ b
unfolding Refused
Refused-same b b' none h e = cc
Refused-same b b' (some (c, true)) h e = cc
Refused-same b b' (some (c, false)) h e = cc

module _ {C : Type 0} where
  stopped :
      (b : Bus C) (e : Words) (t : Trb) (o : Option (Option ℕ))
      → Refused b (elim o as (λ _. Option (Bus C × Bool)) [
        | none ↦ none
        | some none ↦ some (b, true)
        | some (some stream) ↦ some (note_stop b e t stream, true)
      ])
  unfolding Refused
  stopped b e t none = tt
  stopped b e t (some none) = tt
  stopped b e t (some (some stream)) = tt

  do_stop_completion-Refused :
      (fuel : ℕ) (b : Bus C) (t : Trb) → Refused b (do_stop_completion fuel b t)
  unfolding do_stop_completion Refused
  do_stop_completion-Refused fuel b t =
      let e = words_of t in
      if_both (Refused b) (not (is_known b e) || b.has_streams e.slot e.endpoint && e.addr == 0) _ _
        refl (stopped b e t (stop_stream fuel b e))

module _ {C : Type 0} (ctl : ℕ → ℕ → Control C) (x : ℕ → ℕ → Context) (g : Setting)
    (schedule : IsochState → IsochState) (fuel : ℕ) where
  put_back :
      (b : Bus C) (e : Words) (stream : ℕ) (site : Site C) (o : Option (Pipe C))
      → Refused b (elim o as (λ _. Option (Bus C × Bool)) [
        | none ↦ none
        | some pipe ↦ some (put_site b e.slot e.endpoint stream (record site { pipe = pipe }), true)
      ])
  unfolding Refused
  put_back b e stream site none = tt
  put_back b e stream site (some pipe) = tt

  on_site-Refused :
      (b : Bus C) (e : Words) (stream : ℕ) (site : Site C) (index : ℕ)
      → Refused b (on_site ctl x g schedule fuel b e stream site index)
  unfolding on_site
  on_site-Refused b e stream site index = put_back b e stream site _

  on_index-Refused :
      (b : Bus C) (e : Words) (site : Site C) (n : ℤ)
      → Refused b (on_index ctl x g schedule fuel b e site n)
  unfolding on_index Refused
  on_index-Refused b e site (negsuc n) = tt
  on_index-Refused b e site (pos index) =
      if_both (Refused b) (leb (site.pipe.ring.num_trbs - 1) index) _ _ tt
        (on_site-Refused b e 0 site index)

  at_plain :
      (b : Bus C) (e : Words) (o : Option (Site C))
      → Refused b (elim o as (λ _. Option (Bus C × Bool)) [
        | none ↦ some (b, false)
        | some site ↦
            if e.err == 14 || e.err == 15
            then some (put_site b e.slot e.endpoint 0 (xrun ctl x g schedule fuel site), true)
            else if not site.has_memory
            then some (b, false)
            else on_index ctl x g schedule fuel b e site
                (diff_trb_index e.addr site.pipe.ring.phys_addr)
      ])
  unfolding Refused
  at_plain b e none = refl
  at_plain b e (some site) =
      if_both (Refused b) (e.err == 14 || e.err == 15) _ _ tt
        (if_both (Refused b) (not site.has_memory) _ _ refl (on_index-Refused b e site _))

  at_stream :
      (b : Bus C) (e : Words) (stream index : ℕ) (o : Option (Site C))
      → Refused b (elim o as (λ _. Option (Bus C × Bool)) [
        | none ↦ some (b, false)
        | some site ↦ on_site ctl x g schedule fuel b e stream site index
      ])
  unfolding Refused
  at_stream b e stream index none = refl
  at_stream b e stream index (some site) = on_site-Refused b e stream site index

  in_streams :
      (b : Bus C) (e : Words) (o : Option (Option (ℕ × ℕ)))
      → Refused b (elim o as (λ _. Option (Bus C × Bool)) [
        | none ↦ none
        | some none ↦ some (b, false)
        | some (some (stream, index)) ↦ elim (site_at b e.slot e.endpoint stream) [
          | none ↦ some (b, false)
          | some site ↦ on_site ctl x g schedule fuel b e stream site index
        ]
      ])
  unfolding Refused
  in_streams b e none = tt
  in_streams b e (some none) = refl
  in_streams b e (some (some (stream, index))) =
      at_stream b e stream index (site_at b e.slot e.endpoint stream)

  process-Refused :
      (b : Bus C) (t : Trb) → Refused b (process_transfer_event2 ctl x g schedule fuel b t)
  unfolding process_transfer_event2 on_plain on_stream Refused
  process-Refused b t =
      let e = words_of t in
      if_both (Refused b) (e.err == 26 || e.err == 27) _ _ (do_stop_completion-Refused fuel b t) (
        if_both (Refused b) (e.err == 12) _ _ tt (
          if_both (Refused b) (not (is_known b e)) _ _ refl (
            if_both (Refused b) (b.has_streams e.slot e.endpoint) _ _
              (if_both (Refused b) (e.addr == 0) _ _ refl (
                in_streams b e (
                  find_stream fuel (map stream_ring (b.sites e.slot e.endpoint))
                    (b.last_stream e.slot e.endpoint) e.addr)))
              (at_plain b e (site_at b e.slot e.endpoint 0)))))

  -- An event that processTransferEvent2 reports as not handled has changed nothing: no ring, no TD, no
  -- endpoint and no counter of bad doorbells.
  pub process_transfer_event2_refused :
      (b b' : Bus C) (t : Trb)
      → process_transfer_event2 ctl x g schedule fuel b t ≡ some (b', false)
      → b' ≡ b
  process_transfer_event2_refused b b' t e =
      Refused-same b b' (process_transfer_event2 ctl x g schedule fuel b t) (process-Refused b t) e
