-- ===== src/Schedule/Order.antt =====
-- ScheduleTDs moves TDs from the front of the queue to the end of those on the ring, in their order.
use os_x_generic_usb.Base.{
  ℕ, suc, ◌+◌, ◌≡◌, ◌≢◌, ◌∙◌, refl, ap, sym, subst, List, [], ◌∷◌, ◌++◌, some, true, false, arith,
  map, inl, inr, Bool-cases, u32, if_both,
}
use mathlib.Core.List.{append-nil, append_assoc}
use os_x_generic_usb.Ring.{Ring}
use os_x_generic_usb.Ring.Fragment.{can_td_fragment_fit}
use os_x_generic_usb.Ring.Fragment.Inv.{IsValid}
use os_x_generic_usb.Layout.{Work, Error}
use os_x_generic_usb.Layout.Finish.{TransferResult, created, refused, create_transfer}
use os_x_generic_usb.Layout.Covers.{IsMapped}
use os_x_generic_usb.Layout.Total.{Tells, create_transfer_covers}
use os_x_generic_usb.Async.{Td, Endpoint, is_empty}
use os_x_generic_usb.Schedule.{
  Control, Context, Pipe, plan_for, with_trbs, ring_doorbell, scheduled_td, set_queue,
  schedule_queued, schedule_tds,
}

-- A TD without what _createTransfer stores in it.
abbrev pub unlaid : Td → Td
unlaid t = record t { first_trb_index = 0; trb_count = 0; last_trb_index = 0 }

-- Why the loop ended: the queue is empty, the ring may have no room for another TD, or, on some ring
-- that had room for it, _createTransfer refused the TD that is now the first in the queue, and that
-- was counted.
pub data Why {C : Type 0} (x : Context) (errors : ℕ) (s : Pipe C) : Type 0 where
  all_scheduled :
      s.endpoint.queued ≡ [] → s.layout_errors ≡ errors → IsValid s.ring → Why x errors s
  no_room :
      can_td_fragment_fit s.ring s.endpoint.max_td_bytes ≡ false
      → s.layout_errors ≡ errors
      → IsValid s.ring
      → Why x errors s
  not_laid_out :
      (t : Td) (ts : List Td) (r : Ring) (e : Error)
      → s.endpoint.queued ≡ t ∷ ts
      → IsValid r
      → can_td_fragment_fit r s.endpoint.max_td_bytes ≡ true
      → create_transfer (suc t.bytes_this_td) (suc r.num_trbs) (x.dma t.command) (plan_for x t) r
        ≡ some (refused e s.ring)
      → s.layout_errors ≡ u32 (errors + 1)
      → Why x errors s

-- What the loop over the queue `ts` leaves of `s`.
pub record Moved {C : Type 0} (x : Context) (s : Pipe C) (ts : List Td) (s' : Pipe C) : Type 0 where
  pub laid_out : List Td
  pub in_order : map unlaid (laid_out ++ s'.endpoint.queued) ≡ map unlaid ts
  pub appended : s'.endpoint.scheduled ≡ s.endpoint.scheduled ++ laid_out
  pub done_kept : s'.endpoint.done ≡ s.endpoint.done
  pub free_kept : s'.endpoint.num_free ≡ s.endpoint.num_free
  pub dequeue_kept : s'.ring.dequeue_index ≡ s.ring.dequeue_index
  pub why : Why x s.layout_errors s'

is_empty-nil : (ts : List Td) → is_empty ts ≡ true → ts ≡ []
is_empty-nil [] e = refl
is_empty-nil (t ∷ ts) e = cc

module _ {C : Type 0} (ctl : Control C) (x : Context) where
  -- What the doorbell leaves.
  record Rung (s s' : Pipe C) : Type 0 where
    ring_kept : s'.ring ≡ s.ring
    endpoint_kept : s'.endpoint ≡ s.endpoint
    errors_kept : s'.layout_errors ≡ s.layout_errors

  ring_doorbell-Rung : (s : Pipe C) (t : Td) → Rung s (ring_doorbell ctl x s t)
  unfolding ring_doorbell
  ring_doorbell-Rung s t =
      if_both (Rung s) s.return_in_progress _ _
        (record { ring_kept = refl; endpoint_kept = refl; errors_kept = refl })
        (record { ring_kept = refl; endpoint_kept = refl; errors_kept = refl })

  stopped_at :
      (s : Pipe C) (ts : List Td)
      → Why x s.layout_errors (set_queue ctl x s ts)
      → Moved x s ts (set_queue ctl x s ts)
  stopped_at s ts why = record {
    laid_out = [];
    in_order = refl;
    appended = sym (append-nil s.endpoint.scheduled);
    done_kept = refl;
    free_kept = refl;
    dequeue_kept = refl;
    why = why;
  }

  -- A TD that was laid out, and the TDs behind it.
  Moved-more :
      (s s' : Pipe C) (t : Td) (ts : List Td) (w : Work)
      → w.ring.dequeue_index ≡ s.ring.dequeue_index
      → Moved x (scheduled_td ctl x s t w) ts s'
      → Moved x s (t ∷ ts) s'
  unfolding scheduled_td with_trbs
  Moved-more s s' t ts w dq m =
      let g =
        ring_doorbell-Rung
          (record s {
            ring = w.ring;
            endpoint = record (s.endpoint) {
              scheduled = s.endpoint.scheduled ++ with_trbs t w ∷ [];
            };
          })
          t in
      record {
        laid_out = with_trbs t w ∷ m.laid_out;
        in_order = ap (λ (l : List Td). unlaid t ∷ l) m.in_order;
        appended =
            m.appended
            ∙ ap (λ (e : Endpoint). e.scheduled ++ m.laid_out) g.endpoint_kept
            ∙ append_assoc s.endpoint.scheduled (with_trbs t w ∷ []) m.laid_out;
        done_kept = m.done_kept ∙ ap (λ (e : Endpoint). e.done) g.endpoint_kept;
        free_kept = m.free_kept ∙ ap (λ (e : Endpoint). e.num_free) g.endpoint_kept;
        dequeue_kept = m.dequeue_kept ∙ ap (λ (r : Ring). r.dequeue_index) g.ring_kept ∙ dq;
        why = subst (λ (n : ℕ). Why x n s') g.errors_kept m.why;
      }

  scheduled-ring : (s : Pipe C) (t : Td) (w : Work) → (scheduled_td ctl x s t w).ring ≡ w.ring
  unfolding scheduled_td
  scheduled-ring s t w =
      let e = s.endpoint in
      let s1 : Pipe C = record s {
        ring = w.ring;
        endpoint = record e { scheduled = e.scheduled ++ with_trbs t w ∷ [] };
      } in
      let g = ring_doorbell-Rung s1 t in g.ring_kept

  module _ (some_size : x.max_packet_size ≢ 0)
      (mapped : (command : ℕ) → IsMapped (x.dma command)) where
    abbrev Result : Pipe C → List Td → Type 0
    Result s ts = (s' : Pipe C) × (schedule_queued ctl x s ts ≡ some s') × Moved x s ts s'

    -- The branches behind _createTransfer.
    after_layout :
        (s : Pipe C) (t : Td) (ts : List Td) (o : TransferResult)
        → IsValid s.ring
        → can_td_fragment_fit s.ring s.endpoint.max_td_bytes ≡ true
        → create_transfer
            (suc t.bytes_this_td)
            (suc s.ring.num_trbs)
            (x.dma t.command)
            (plan_for x t)
            s.ring
          ≡ some o
        → Tells (x.dma t.command) (plan_for x t) s.ring o
        → ((s1 : Pipe C) → IsValid s1.ring → Result s1 ts)
        → (s' : Pipe C) × ((elim o [
          | refused e r ↦ some (record (set_queue ctl x s (t ∷ ts)) {
            ring = r;
            layout_errors = u32 (s.layout_errors + 1);
          })
          | created w ↦ schedule_queued ctl x (scheduled_td ctl x s t w) ts
        ])
            ≡ some s')
          × Moved x s (t ∷ ts) s'
    unfolding Tells
    after_layout s t ts (refused e r) v fits laid tells rest = (
      record (set_queue ctl x s (t ∷ ts)) { ring = r; layout_errors = u32 (s.layout_errors + 1) },
      refl,
      record {
        laid_out = [];
        in_order = refl;
        appended = sym (append-nil s.endpoint.scheduled);
        done_kept = refl;
        free_kept = refl;
        dequeue_kept = tells.dequeue_kept;
        why = not_laid_out t ts s.ring e refl v fits laid refl;
      },
    )
    after_layout s t ts (created w) v fits laid tells rest =
        let g = scheduled-ring s t w in
        let (s', run, m) = rest (scheduled_td ctl x s t w) (subst IsValid (sym g) tells.valid) in
        (s', run, Moved-more s s' t ts w tells.dequeue_kept m)

    schedule_queued-Moved : (ts : List Td) (s : Pipe C) → IsValid s.ring → Result s ts
    unfolding schedule_queued plan_for
    schedule_queued-Moved [] s v =
        (set_queue ctl x s [], refl, stopped_at s [] (all_scheduled refl refl v))
    schedule_queued-Moved (t ∷ ts) s v =
        elim (Bool-cases (can_td_fragment_fit s.ring s.endpoint.max_td_bytes)) [
          | inl fits ↦
              let (o, laid, tells) =
                create_transfer_covers (plan_for x t) s.ring (suc t.bytes_this_td)
                  (suc s.ring.num_trbs) (x.dma t.command) v some_size (mapped t.command)
                  (omega arith) (omega arith) in
              let (s', run, m) =
                after_layout s t ts o v fits laid tells (λ s1. schedule_queued-Moved ts s1) in
              (s', rw (schedule_queued, fits, laid) run, m)
          | inr full ↦ (
            set_queue ctl x s (t ∷ ts),
            rw (schedule_queued, full) refl,
            stopped_at s (t ∷ ts) (no_room full refl v),
          )
        ]

    pub schedule_tds-Moved :
        (s : Pipe C)
        → IsValid s.ring
        → s.endpoint.aborting ≡ false
        → (s' : Pipe C) × (schedule_tds ctl x s ≡ some s') × Moved x s s.endpoint.queued s'
    unfolding schedule_tds
    schedule_tds-Moved s v going = elim (Bool-cases (is_empty s.endpoint.queued)) [
      | inl none_queued ↦ (
        s,
        rw none_queued refl,
        stopped_at s s.endpoint.queued (all_scheduled (is_empty-nil _ none_queued) refl v),
      )
      | inr some_queued ↦
          let (s', run, m) = schedule_queued-Moved s.endpoint.queued s v in
          (s', simp (some_queued, going, run), m)
    ]
