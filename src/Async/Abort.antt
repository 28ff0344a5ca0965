-- ===== src/Async/Abort.antt =====
-- Abort empties the scheduled queue.
use os_x_generic_usb.Base.{
  ℕ, zero, suc, ◌+◌, ◌<◌, ◌≡◌, ◌≢◌, ◌∙◌, refl, sym, ap, subst, List, [], ◌∷◌, ◌++◌, some, true,
  false, arith, length, length-append, ne→==,
}
use os_x_generic_usb.Async.{
  Td, Endpoint, Commands, Completed, split_command, flush_tds, move_tds_from_ready_q_to_done_q,
  abort_loop, abort, complete, complete_list, aborted,
}
use os_x_generic_usb.Async.Queues.{BeginsOther, Split, split_command-Split}

-- Every TD belongs to a command.
unfoldable pub HaveCommands : List Td → Type 0
HaveCommands [] = Unit {0}
HaveCommands (t ∷ ts) = (t.command ≢ 0) × HaveCommands ts

HaveCommands-after : (xs ys : List Td) → HaveCommands (xs ++ ys) → HaveCommands ys
unfolding HaveCommands
HaveCommands-after [] ys h = h
HaveCommands-after (x ∷ xs) ys h = HaveCommands-after xs ys h.1

-- The number of TDs that the endpoint owns.
abbrev pub num_tds : Endpoint → ℕ
num_tds e = length e.queued + length e.scheduled + length e.done + e.num_free

pub length-Split :
    (command : ℕ) (ts flushed kept : List Td)
    → Split command ts flushed kept
    → length ts ≡ length flushed + length kept
length-Split command ts flushed kept s =
    ap (λ (l : List Td). length l) s.whole ∙ length-append flushed kept

-- What a round of the loop keeps and does.
record Round (e d : Endpoint) : Type 0 where
  fewer : length d.scheduled < length e.scheduled
  commands : HaveCommands d.scheduled
  kept : num_tds d ≡ num_tds e

shorter :
    (t : Td) (ts flushed kept : List Td)
    → Split t.command (t ∷ ts) flushed kept
    → length kept < length (t ∷ ts)
unfolding BeginsOther
shorter t ts [] kept s = absurd (subst (BeginsOther t.command) (sym s.whole) s.begins_other refl)
shorter t ts (x ∷ xs) kept s = omega (arith, length-Split t.command (t ∷ ts) (x ∷ xs) kept s)

abort-Round :
    (num_trbs : ℕ) (e : Endpoint) (t : Td) (ts : List Td)
    → e.scheduled ≡ t ∷ ts
    → HaveCommands (t ∷ ts)
    → Round e (move_tds_from_ready_q_to_done_q (flush_tds num_trbs e t.command 0).0 t.command)
unfolding flush_tds move_tds_from_ready_q_to_done_q HaveCommands
abort-Round num_trbs e t ts at h =
    let c = t.command in
    let s = split_command-Split c e.scheduled in
    let q = split_command-Split c e.queued in
    let flushed = (split_command c e.scheduled).0 in
    let kept = (split_command c e.scheduled).1 in
    let moved = (split_command c e.queued).0 in
    let len = length-Split c e.scheduled flushed kept s in
    let len' = length-Split c e.queued moved (split_command c e.queued).1 q in
    let less : length kept < length e.scheduled =
      subst (λ (l : List Td). length kept < length l) (sym at)
        (shorter t ts flushed kept (subst (λ (l : List Td). Split c l flushed kept) at s)) in
    rw (ne→== c 0 h.0, flush_tds)
      (record {
        fewer = less;
        commands = HaveCommands-after flushed kept (subst HaveCommands (sym at ∙ s.whole) h);
        kept = omega (
          arith,
          len,
          len',
          length-append e.done flushed,
          length-append (e.done ++ flushed) moved,
        );
      })

abort_loop-next :
    (fuel num_trbs : ℕ) (e : Endpoint) (t : Td) (ts : List Td)
    → e.scheduled ≡ t ∷ ts
    → abort_loop (suc fuel) num_trbs e
      ≡ abort_loop fuel num_trbs
          (move_tds_from_ready_q_to_done_q (flush_tds num_trbs e t.command 0).0 t.command)
unfolding abort_loop
abort_loop-next fuel num_trbs e t ts at = simp (at, abort_loop)

-- What Abort's loop leaves.
abbrev Emptied : Endpoint → Endpoint → Type 0
Emptied e d = (d.scheduled ≡ []) × (num_tds d ≡ num_tds e)

abort_loop-Emptied :
    (fuel num_trbs : ℕ) (e : Endpoint) (ts : List Td)
    → e.scheduled ≡ ts
    → HaveCommands ts
    → length ts < fuel
    → (d : Endpoint) × (abort_loop fuel num_trbs e ≡ some d) × Emptied e d
unfolding abort_loop
abort_loop-Emptied zero num_trbs e ts at h enough = absurd (omega arith)
abort_loop-Emptied (suc fuel) num_trbs e [] at h enough = (e, simp (at, abort_loop), (at, refl))
abort_loop-Emptied (suc fuel) num_trbs e (t ∷ ts) at h enough =
    let d = move_tds_from_ready_q_to_done_q (flush_tds num_trbs e t.command 0).0 t.command in
    let round = abort-Round num_trbs e t ts at h in
    let (f, got, out) =
      abort_loop-Emptied fuel num_trbs d d.scheduled refl round.commands
        (omega (arith, round.fewer, ap (λ (l : List Td). length l) at)) in
    (f, abort_loop-next fuel num_trbs e t ts at ∙ got, (out.0, out.1 ∙ round.kept))

-- The end of Abort.
abort_end :
    (fuel num_trbs : ℕ) (cs : Commands) (e d : Endpoint)
    → abort_loop fuel num_trbs (record e { aborting = true }) ≡ some d
    → Emptied e d
    → (done : List Td) → d.done ≡ done
    → (f : Endpoint) × (out : Commands × List Completed) × (abort fuel num_trbs cs e
        ≡ some (f, out))
      × (f.scheduled ≡ [])
      × (f.done ≡ [])
      × (f.aborting ≡ false)
      × (num_tds f ≡ num_tds e)
unfolding abort complete
abort_end fuel num_trbs cs e d got out [] at =
    (record d { aborting = false }, (cs, []), rw (got, abort) (simp at), out.0, at, refl, out.1)
abort_end fuel num_trbs cs e d got out (t ∷ ts) at = (
  record d { aborting = false; done = []; num_free = d.num_free + length d.done },
  complete_list aborted cs d.done,
  rw (got, abort) (simp at),
  out.0,
  refl,
  refl,
  omega (arith, out.1),
)

-- Abort on an endpoint whose scheduled TDs all belong to commands ends within as many rounds as there
-- are such TDs: no TD is scheduled or waits for completion any more, the endpoint accepts TDs again,
-- and it has as many TDs, free ones included, as before.
pub abort_empties :
    (fuel num_trbs : ℕ) (cs : Commands) (e : Endpoint)
    → HaveCommands e.scheduled
    → length e.scheduled < fuel
    → (d : Endpoint) × (out : Commands × List Completed) × (abort fuel num_trbs cs e
        ≡ some (d, out))
      × (d.scheduled ≡ [])
      × (d.done ≡ [])
      × (d.aborting ≡ false)
      × (num_tds d ≡ num_tds e)
unfolding abort complete
abort_empties fuel num_trbs cs e h enough =
    let started : Endpoint = record e { aborting = true } in
    let (d, got, out) = abort_loop-Emptied fuel num_trbs started e.scheduled refl h enough in
    abort_end fuel num_trbs cs e d got out d.done refl
