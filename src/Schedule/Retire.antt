-- ===== src/Schedule/Retire.antt =====
-- The TDs and the ring under RetireTDs of Async.cpp.
use os_x_generic_usb.Base.{
  ℕ, suc, ◌+◌, ◌-◌, ◌≤◌, ◌<◌, ◌≡◌, ◌≢◌, ◌∙◌, refl, ap, sym, List, [], ◌∷◌, ◌++◌, Option, none, some,
  Bool, true, false, not, arith, map, length, length-append, inl, inr, Bool-cases, if_both,
  if◌then◌else◌, ◌==◌,
}
use os_x_generic_usb.Ring.{Ring, link_index}
use os_x_generic_usb.Ring.Fragment.Inv.{IsValid}
use os_x_generic_usb.Layout.Covers.{IsMapped}
use os_x_generic_usb.Dequeue.{EpState, disabled, running, halted, stopped, error}
use os_x_generic_usb.Async.{
  Td, Endpoint, split_command, flush_tds, index_after, dequeue_target,
  move_tds_from_ready_q_to_done_q, complete, is_empty,
}
use os_x_generic_usb.Async.Queues.{split_command-Split}
use os_x_generic_usb.Async.Abort.{num_tds, length-Split}
use os_x_generic_usb.Schedule.{
  Control, Context, Pipe, schedule_tds, flush_command, flush_running, flush_stopped, flush_by_state,
  complete_pipe, retire_tds,
}
use os_x_generic_usb.Schedule.Order.{Moved, unlaid, schedule_tds-Moved}

-- What SetTRDQPtr does to a valid ring, for an index before the link TRB.
pub record IsLawful {C : Type 0} (ctl : Control C) : Type 0 where
  pub set_trdq_ptr_keeps :
      (c : C) (r : Ring) (stream index : ℕ)
      → IsValid r
      → index < link_index r
      → IsValid (ctl.set_trdq_ptr c r stream index).1

-- What the steps of RetireTDs keep.
record Kept {C : Type 0} (s s' : Pipe C) : Type 0 where
  valid : IsValid s'.ring
  tds_kept : num_tds s'.endpoint ≡ num_tds s.endpoint
  aborting_kept : s'.endpoint.aborting ≡ s.endpoint.aborting

index_after-lt : (num_trbs : ℕ) (t : Td) → 3 ≤ num_trbs → index_after num_trbs t < num_trbs - 1
unfolding index_after
index_after-lt num_trbs t room = ground arith

dequeue_target-lt :
    (num_trbs : ℕ) (ts : List Td) (stream index : ℕ)
    → 3 ≤ num_trbs
    → dequeue_target num_trbs ts ≡ some (stream, index)
    → index < num_trbs - 1
unfolding dequeue_target
dequeue_target-lt num_trbs [] stream index room e = cc
dequeue_target-lt num_trbs (t ∷ []) stream index room e =
    ground (arith, index_after-lt num_trbs t room)
dequeue_target-lt num_trbs (t ∷ u ∷ ts) stream index room e =
    dequeue_target-lt num_trbs (u ∷ ts) stream index room e

flush_tds-lt :
    (num_trbs : ℕ) (e : Endpoint) (command option stream index : ℕ)
    → 3 ≤ num_trbs
    → (flush_tds num_trbs e command option).1 ≡ some (stream, index)
    → index < num_trbs - 1
unfolding flush_tds
flush_tds-lt num_trbs e command option stream index room h =
    ground
      (arith, dequeue_target-lt num_trbs (split_command command e.scheduled).0 stream index room)

flushed_num :
    (num_trbs : ℕ) (e : Endpoint) (command option : ℕ)
    → let e' = move_tds_from_ready_q_to_done_q (flush_tds num_trbs e command option).0 command in
      (num_tds e' ≡ num_tds e) × (e'.aborting ≡ e.aborting)
unfolding flush_tds move_tds_from_ready_q_to_done_q
flushed_num num_trbs e command option =
    let s = split_command-Split command e.scheduled in
    let q = split_command-Split command e.queued in
    let len =
      length-Split command e.scheduled (split_command command e.scheduled).0
        (split_command command e.scheduled).1 s in
    let len' =
      length-Split command e.queued (split_command command e.queued).0
        (split_command command e.queued).1 q in
    elim (Bool-cases (command == 0)) [
      | inl z ↦ rw z (omega (arith, length-append e.done e.queued), refl)
      | inr nz ↦ rw nz (
        omega (
          arith,
          len,
          len',
          length-append e.done (split_command command e.scheduled).0,
          length-append (e.done ++ (split_command command e.scheduled).0)
              (split_command command e.queued).0,
        ),
        refl,
      )
    ]

length-map : (ts : List Td) → length (map unlaid ts) ≡ length ts
length-map [] = refl
length-map (t ∷ ts) = ap suc (length-map ts)

Moved-num :
    {C : Type 0} (x : Context) (s s' : Pipe C)
    → Moved x s s.endpoint.queued s'
    → num_tds s'.endpoint ≡ num_tds s.endpoint
Moved-num x s s' m =
    let l =
      sym (length-map (m.laid_out ++ s'.endpoint.queued))
      ∙ ap (λ (ts : List Td). length ts) m.in_order
      ∙ length-map s.endpoint.queued in
    let scheduled = ap (λ (ts : List Td). length ts) m.appended in
    let done = ap (λ (ts : List Td). length ts) m.done_kept in
    omega (
      arith,
      l,
      scheduled,
      done,
      m.free_kept,
      length-append m.laid_out s'.endpoint.queued,
      length-append s.endpoint.scheduled m.laid_out,
    )

module _ {C : Type 0} (ctl : Control C) (x : Context) (law : IsLawful ctl) where
  called :
      (s : Pipe C) (e : Endpoint) (call : Option (ℕ × ℕ))
      → IsValid s.ring
      → num_tds e ≡ num_tds s.endpoint
      → e.aborting ≡ s.endpoint.aborting
      → ((stream index : ℕ) → call ≡ some (stream, index) → index < link_index s.ring)
      → let moved : Pipe C = record s { endpoint = e } in
        Kept s (elim call [
          | none ↦ moved
          | some (stream, index) ↦
              let (c, r) = ctl.set_trdq_ptr s.control s.ring stream index in
              record moved { control = c; ring = r }
        ])
  called s e none v n a lt = record { valid = v; tds_kept = n; aborting_kept = a }
  called s e (some (stream, index)) v n a lt = record {
    valid = law.set_trdq_ptr_keeps s.control s.ring stream index v (lt stream index refl);
    tds_kept = n;
    aborting_kept = a;
  }

  flush_command-Kept :
      (s : Pipe C) (command option : ℕ)
      → IsValid s.ring
      → Kept s (flush_command ctl x s command option)
  unfolding flush_command
  flush_command-Kept s command option v =
      let n = flushed_num s.ring.num_trbs s.endpoint command option in
      called s
        (move_tds_from_ready_q_to_done_q (flush_tds s.ring.num_trbs s.endpoint command option).0
          command)
        (flush_tds s.ring.num_trbs s.endpoint command option).1 v n.0 n.1
        (λ stream index. flush_tds-lt s.ring.num_trbs s.endpoint command option stream index v.room)

  flush_running-Kept : (s : Pipe C) (t : Td) → IsValid s.ring → Kept s (flush_running ctl x s t)
  unfolding flush_running
  flush_running-Kept s t v =
      let k = flush_command-Kept s t.command 0 v in
      let s' = flush_command ctl x s t.command 0 in
      let w = k.valid in
      if_both (Kept s) (is_empty s'.endpoint.scheduled) _ _
        (record {
          valid =
              law.set_trdq_ptr_keeps (ctl.quiesce_endpoint s'.control) s'.ring t.stream_id
                s'.ring.enqueue_index k.valid w.enqueue_in;
          tds_kept = k.tds_kept;
          aborting_kept = k.aborting_kept;
        })
        k

  flush_stopped-Kept : (s : Pipe C) (t : Td) → IsValid s.ring → Kept s (flush_stopped ctl x s t)
  unfolding flush_stopped
  flush_stopped-Kept s t v =
      let k = flush_command-Kept s t.command 2 v in
      let s' = flush_command ctl x s t.command 2 in
      if_both (Kept s) (not (t.stream_id == 0)) _ _
        (record { valid = k.valid; tds_kept = k.tds_kept; aborting_kept = k.aborting_kept })
        (if_both (Kept s) (is_empty s'.endpoint.scheduled) _ _ k
          (record { valid = k.valid; tds_kept = k.tds_kept; aborting_kept = k.aborting_kept }))

  by_state :
      (s : Pipe C) (t : Td) (state : EpState)
      → IsValid s.ring
      → Kept s
          (elim state as (λ z. Pipe C × Bool) [
            | running ↦ (flush_running ctl x s t, true)
            | stopped ↦ (flush_stopped ctl x s t, true)
            | disabled ↦ (flush_command ctl x s t.command 0, false)
            | halted ↦ (flush_command ctl x s t.command 0, false)
            | error ↦ (flush_command ctl x s t.command 0, false)
          ]).0
  by_state s t running v = flush_running-Kept s t v
  by_state s t stopped v = flush_stopped-Kept s t v
  by_state s t disabled v = flush_command-Kept s t.command 0 v
  by_state s t halted v = flush_command-Kept s t.command 0 v
  by_state s t error v = flush_command-Kept s t.command 0 v

  flushed_if :
      (flush : Bool) (s : Pipe C) (t : Td)
      → IsValid s.ring
      → Kept s (if flush then flush_by_state ctl x s t else (s, true)).0
  unfolding flush_by_state
  flushed_if true s t v = by_state s t (ctl.ep_state s.control) v
  flushed_if false s t v = record { valid = v; tds_kept = refl; aborting_kept = refl }

  told_if :
      (call_completion : Bool) (s : Pipe C) (status : ℕ)
      → IsValid s.ring
      → let s' = if call_completion then complete_pipe ctl x s status else s in
        Kept s s' × (call_completion ≡ true → s'.endpoint.done ≡ [])
  unfolding complete_pipe complete
  told_if true s status v =
      (record { valid = v; tds_kept = omega arith; aborting_kept = refl }, λ _. refl)
  told_if false s status v = (record { valid = v; tds_kept = refl; aborting_kept = refl }, λ e. cc)

  module _ (some_size : x.max_packet_size ≢ 0)
      (mapped : (command : ℕ) → IsMapped (x.dma command)) where
    rescheduled :
        (reschedule : Bool) (s : Pipe C)
        → IsValid s.ring
        → s.endpoint.aborting ≡ false
        → (s' : Pipe C) × ((if reschedule then schedule_tds ctl x s else some s) ≡ some s')
          × (num_tds s'.endpoint ≡ num_tds s.endpoint)
          × (s'.endpoint.done ≡ s.endpoint.done)
    rescheduled true s v going =
        let (s', run, m) = schedule_tds-Moved ctl x some_size mapped s v going in
        (s', run, Moved-num x s s' m, m.done_kept)
    rescheduled false s v going = (s, refl, refl, refl)

    -- RetireTDs for a TD that is in no queue, on a valid ring, for an endpoint with a packet size that
    -- is not being aborted, where every DMA segment has at least one byte and fewer than 2 ^ 32, and
    -- where SetTRDQPtr keeps a valid ring valid: it ends, whatever the endpoint's state, the endpoint
    -- owns one TD more than before, and if the completion is to be called no TD waits for completion.
    pub retire_tds_keeps :
        (s : Pipe C) (t : Td) (status : ℕ) (call_completion flush : Bool)
        → IsValid s.ring
        → s.endpoint.aborting ≡ false
        → (s' : Pipe C) × (retire_tds ctl x s t status call_completion flush ≡ some s')
          × (num_tds s'.endpoint ≡ num_tds s.endpoint + 1)
          × (call_completion ≡ true → s'.endpoint.done ≡ [])
    unfolding retire_tds
    retire_tds_keeps s t status call_completion flush v going =
        let e = s.endpoint in
        let put : Pipe C = record s { endpoint = record e { done = e.done ++ t ∷ [] } } in
        let f = if flush then flush_by_state ctl x put t else (put, true) in
        let k = flushed_if flush put t v in
        let told = told_if call_completion f.0 status k.valid in
        let k' = told.0 in
        let (s', run, num, done) =
          rescheduled f.1 (if call_completion then complete_pipe ctl x f.0 status else f.0) k'.valid
            (k'.aborting_kept ∙ k.aborting_kept ∙ going) in
        (
          s',
          run,
          omega (arith, num, k'.tds_kept, k.tds_kept, length-append e.done (t ∷ [])),
          λ c. done ∙ told.1 c,
        )
