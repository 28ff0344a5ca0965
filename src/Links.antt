-- ===== src/Links.antt =====
-- The singly linked queues of Async.cpp (GetTD, PutTD, PutTDAtHead). A queue is a pair of pointers
-- and a count; the `next` fields of the nodes are one function from addresses, since all queues of
-- an endpoint share them. The `next` field of the last node is not cleared and means nothing.
pub mod Shape
pub mod Moves
mod Tests
use os_x_generic_usb.Base.{
  ℕ, ◌+◌, Option, none, some, Bool, true, false, ◌==◌, if◌then◌else◌, u32, sub32,
}

-- The field `next` by address; `none` is the null pointer.
abbrev pub Nexts : Type 0
Nexts = ℕ → Option ℕ

pub record Queue : Type 0 where
  pub head : Option ℕ
  pub tail : Option ℕ
  pub count : ℕ

abbrev pub empty_queue : Queue
empty_queue = record { head = none; tail = none; count = 0 }

-- `p->next = n`.
abbrev pub link : ℕ → Option ℕ → Nexts → Nexts
link p n nexts = λ q. if q == p then n else nexts q

-- `p == q` for a node `p` and a pointer that may be null.
unfoldable pub points_to : Option ℕ → ℕ → Bool
points_to none p = false
points_to (some q) p = p == q

unfoldable pub get_td : Nexts → Queue → Option ℕ × Queue
get_td nexts q = elim q.head [
  | none ↦ (none, q)
  | some p ↦ (
    some p,
    (if points_to q.tail p
        then record { head = none; tail = none; count = sub32 q.count 1 }
        else record q { head = nexts p; count = sub32 q.count 1 }),
  )
]

-- With a head and no tail the source would write through the null pointer; here it writes nothing.
unfoldable pub put_td : Nexts → Queue → ℕ → Nexts × Queue
put_td nexts q p =
    let filled : Queue = record q { tail = some p; count = u32 (q.count + 1) } in
    elim q.head [
      | none ↦ (nexts, record filled { head = some p })
      | some h ↦ (elim q.tail [ none ↦ nexts | some t ↦ link t (some p) nexts ], filled)
    ]

unfoldable pub put_td_at_head : Nexts → Queue → ℕ → Nexts × Queue
put_td_at_head nexts q p =
    let filled : Queue = record q { head = some p; count = u32 (q.count + 1) } in
    elim q.head [
      | none ↦ (nexts, record filled { tail = some p })
      | some h ↦ (link p (some h) nexts, filled)
    ]
