-- ===== src/Ring/Fragment/Back.antt =====
-- PutBackTRB: the loop ends, and where.
use os_x_generic_usb.Base.{
  ℕ, zero, suc, ◌+◌, ◌-◌, ◌≤◌, ◌<◌, ◌≡◌, ◌≢◌, ◌∙◌, refl, sym, if_cases, Option, none, some, Bool,
  true, false, arith, length, length-set, put_bit, ltb, lt→ltb, ◌==◌, if◌then◌else◌,
}
use os_x_generic_usb.Ring.{Ring, trb_at}
use os_x_generic_usb.Ring.Fragment.{put_back_trb, put_back_loop, give_back, go_back}
use os_x_generic_usb.Ring.Fragment.Inv.{IsValid}

-- How far the enqueue index can go back before it meets the dequeue index.
abbrev pub distance : Ring → ℕ
distance r =
    if ltb r.enqueue_index r.dequeue_index
    then r.enqueue_index + r.num_trbs - r.dequeue_index
    else r.enqueue_index - r.dequeue_index

-- What the walk back keeps. In it the enqueue index may stand on the link TRB.
pub record Walks (num dequeue : ℕ) (r : Ring) : Type 0 where
  pub size : length r.trbs ≡ num
  pub enqueue_in : r.enqueue_index < num
  pub dequeue_in : dequeue < num
  pub num_kept : r.num_trbs ≡ num
  pub dequeue_kept : r.dequeue_index ≡ dequeue
  pub cycle_in : r.cycle_state ≤ 1

give_back-Walks :
    (num dequeue : ℕ) (r : Ring) (b : Bool)
    → Walks num dequeue r
    → Walks num dequeue (give_back r b)
unfolding give_back
give_back-Walks num dequeue r true w = w
give_back-Walks num dequeue r false w =
    let t = trb_at r r.enqueue_index in
    let l =
      length-set r.trbs r.enqueue_index (record t { d = put_bit 0 (r.cycle_state == 0) t.d }) in
    ground arith

give_back_enqueue :
    (r : Ring) (b : Bool)
    → ((give_back r b).enqueue_index ≡ r.enqueue_index)
      × ((give_back r b).dequeue_index ≡ r.dequeue_index)
      × ((give_back r b).num_trbs ≡ r.num_trbs)
      × ((give_back r b).cycle_state ≡ r.cycle_state)
unfolding give_back
give_back_enqueue r true = (refl, refl, refl, refl)
give_back_enqueue r false = (refl, refl, refl, refl)

go_back-Walks : (num dequeue : ℕ) (r : Ring) → Walks num dequeue r → Walks num dequeue (go_back r)
unfolding go_back
go_back-Walks num dequeue r w = ground arith

go_back_closer :
    (num dequeue : ℕ) (r : Ring)
    → Walks num dequeue r
    → r.enqueue_index ≢ dequeue
    → distance (go_back r) < distance r
unfolding go_back
go_back_closer num dequeue r w ne = ground arith

-- How many steps back from the enqueue index another index lies.
abbrev pub steps_back : Ring → ℕ → ℕ
steps_back r index =
    if ltb r.enqueue_index index
    then r.enqueue_index + r.num_trbs - index
    else r.enqueue_index - index

go_back_steps :
    (num dequeue index : ℕ) (r : Ring)
    → Walks num dequeue r
    → index < num
    → r.enqueue_index ≢ index
    → steps_back r index ≡ suc (steps_back (go_back r) index)
unfolding go_back
go_back_steps num dequeue index r w lt ne = ground arith

give_back_steps :
    (r : Ring) (b : Bool) (index : ℕ) → steps_back (give_back r b) index ≡ steps_back r index
unfolding give_back
give_back_steps r true index = refl
give_back_steps r false index = refl

-- The walk back ends at the index, or at the dequeue index if that is met first.
abbrev pub EndsAt : ℕ → ℕ → Ring → Ring → Type 0
EndsAt dequeue index r s =
    (steps_back r index ≤ steps_back r dequeue → s.enqueue_index ≡ index)
    × (steps_back r dequeue < steps_back r index → s.enqueue_index ≡ dequeue)

-- What PutBackTRB promises of its result.
Stopped : ℕ → ℕ → ℕ → Ring → Option Ring → Type 0
Stopped num dequeue index r none = ⊥
Stopped num dequeue index r (some s) = Walks num dequeue s × EndsAt dequeue index r s

-- The promise for a ring one step further back is that for the ring.
Stopped-further :
    (num dequeue index : ℕ) (r r' : Ring) (o : Option Ring)
    → steps_back r index ≡ suc (steps_back r' index)
    → steps_back r dequeue ≡ suc (steps_back r' dequeue)
    → Stopped num dequeue index r' o
    → Stopped num dequeue index r o
unfolding Stopped
Stopped-further num dequeue index r r' none a b h = h
Stopped-further num dequeue index r r' (some s) a b h =
    (h.0, (λ le. h.1.0 (omega (arith, a, b, le)), λ lt. h.1.1 (omega (arith, a, b, lt))))

put_back_loop-Stopped :
    (fuel num dequeue index : ℕ) (r : Ring) (b : Bool)
    → Walks num dequeue r
    → index < num
    → distance r < fuel
    → Stopped num dequeue index r (put_back_loop fuel r index b)
unfolding put_back_loop Stopped
put_back_loop-Stopped zero num dequeue index r b w lt enough = absurd (omega arith)
put_back_loop-Stopped (suc fuel) num dequeue index r b w lt enough =
    let s = give_back r b in
    let same = give_back_enqueue r b in
    let ws = give_back-Walks num dequeue r b w in
    let at_index = give_back_steps r b index in
    let at_dequeue = give_back_steps r b dequeue in
    if_cases (Stopped num dequeue index r) (r.enqueue_index == index) _ _
      (λ here. (w, (λ le. ground arith, λ less. absurd (ground arith))))
      (λ not_here.
        if_cases (Stopped num dequeue index r) (r.enqueue_index == r.dequeue_index) _ _
          (λ empty. (ws, (λ le. absurd (ground arith), λ less. ground (arith, same))))
          (λ more.
            let ne : s.enqueue_index ≢ index = λ e. absurd (ground (arith, same)) in
            let ne' : s.enqueue_index ≢ dequeue =
              λ e. absurd (ground (arith, same, w.dequeue_kept)) in
            Stopped-further num dequeue index r (go_back s) _
              (sym at_index ∙ go_back_steps num dequeue index s ws lt ne)
              (sym at_dequeue ∙ go_back_steps num dequeue dequeue s ws w.dequeue_in ne')
              (put_back_loop-Stopped fuel num dequeue index (go_back s) false
                (go_back-Walks num dequeue s ws) lt
                (ground (arith, same, go_back_closer num dequeue s ws ne')))))

IsValid-Walks : (r : Ring) → IsValid r → Walks r.num_trbs r.dequeue_index r
IsValid-Walks r v = ground arith

Stopped-some :
    (num dequeue index : ℕ) (r : Ring) (o : Option Ring)
    → Stopped num dequeue index r o
    → (s : Ring) × (o ≡ some s) × Walks num dequeue s × EndsAt dequeue index r s
unfolding Stopped
Stopped-some num dequeue index r none h = elim h [ ]
Stopped-some num dequeue index r (some s) h = (s, refl, h.0, h.1)

-- On a valid ring PutBackTRB ends within `numTRBs + 1` rounds, inside the ring: with the enqueue index
-- at the given TRB if that is no more steps back than the dequeue index, and at the dequeue index if
-- it is more.
pub put_back_trb_ends :
    (r : Ring) (index fuel : ℕ)
    → IsValid r
    → index < r.num_trbs
    → r.num_trbs < fuel
    → (s : Ring) × (put_back_trb fuel r (some index) ≡ some s)
      × Walks r.num_trbs r.dequeue_index s
      × EndsAt r.dequeue_index index r s
unfolding put_back_trb
put_back_trb_ends r index fuel v lt enough = rw (lt→ltb index r.num_trbs lt) (
    Stopped-some r.num_trbs r.dequeue_index index r _ (
      put_back_loop-Stopped fuel r.num_trbs r.dequeue_index index r true (IsValid-Walks r v) lt
        (ground arith)))
