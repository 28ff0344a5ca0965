-- ===== src/Completer.antt =====
-- Completer.cpp: the queue of completion callbacks that wait to be called, and the list of its free
-- items. The two lists are lists of the items' addresses, those of the active list with what the
-- items hold.
pub mod Items
pub mod Fifo
mod Tests
use os_x_generic_usb.Base.{
  ℕ, zero, suc, ◌+◌, ◌-◌, List, [], ◌∷◌, ◌++◌, Option, none, some, Bool, true, false, not, ◌&&◌,
  ltb, sub32, if◌then◌else◌,
}

-- `CompleterItem`, without the link. The completion is a number that stands for the callback and its
-- parameters.
pub record Item : Type 0 where
  pub completion : ℕ
  pub status : ℕ
  pub actual_byte_count : ℕ

pub record Completer : Type 0 where
  pub owner : Bool
  pub active : List (ℕ × Item)
  pub free : List ℕ
  pub free_count : ℕ
  pub flushing : Bool

abbrev pub max_free_retention : ℕ
max_free_retention = 16

-- A call of AddItem with a completion, and what IOMalloc answers if it is asked.
pub record Request : Type 0 where
  pub item : Item
  pub allow_immediate : Bool
  pub malloc : Option ℕ

-- What AddItem returns and does: the completer, a call of the owner's Complete, and whether the
-- event source is scheduled.
pub record Added : Type 0 where
  pub accepted : Bool
  pub completer : Completer
  pub calls : List Item
  pub scheduled : Bool

-- The item goes to the end of the active list, in the node at `p`.
unfoldable pub append_item : Completer → ℕ → Item → Added
append_item c p item = record {
  accepted = true;
  completer = record c { active = c.active ++ (p, item) ∷ [] };
  calls = [];
  scheduled = not c.flushing && c.owner;
}

-- There is no memory for a node.
unfoldable pub without_node : Completer → Item → Bool → Added
without_node c item allow_immediate = record {
  accepted = allow_immediate;
  completer = c;
  calls = if allow_immediate && c.owner then item ∷ [] else [];
  scheduled = false;
}

unfoldable pub add_request : Completer → Request → Added
add_request c r = elim c.free [
  | [] ↦ elim r.malloc [
    | none ↦ without_node c r.item r.allow_immediate
    | some p ↦ append_item c p r.item
  ]
  | p ∷ rest ↦ append_item (record c { free = rest; free_count = sub32 c.free_count 1 }) p r.item
]

-- `none` is a null pointer to a completion.
unfoldable pub add_item : Completer → Option Request → Added
add_item c none = record { accepted = true; completer = c; calls = []; scheduled = false }
add_item c (some r) = add_request c r

-- The calls of AddItem that one callback makes.
unfoldable pub serve : List Request → Completer → Completer × List Item
serve [] c = (c, [])
serve (r ∷ rs) c =
    let a = add_request c r in let (c', calls) = serve rs a.completer in (c', a.calls ++ calls)

-- The node at `p` goes to the free list, unless that is long enough; then it is freed.
unfoldable pub retain : Completer → ℕ → Completer
retain c p =
    if ltb c.free_count max_free_retention
    then record c { free = c.free ++ p ∷ []; free_count = c.free_count + 1 }
    else c

-- What a flush leaves: the completer, the calls of Complete in their order, and the requests that
-- the callbacks made.
pub record Flushed : Type 0 where
  pub completer : Completer
  pub calls : List Item
  pub requests : List Request

abbrev pub called : Completer → Item → List Item
called c item = if c.owner then item ∷ [] else []

-- The requests of a callback come only from a call.
abbrev pub requested : Completer → List Request → List Request
requested c rs = if c.owner then rs else []

-- The requests of this callback and those of the later ones.
unfoldable pub next_round : List (List Request) → List Request × List (List Request)
next_round [] = ([], [])
next_round (rs ∷ later) = (rs, later)

-- What a round adds in front of what the later ones do.
unfoldable pub before_round : List Item → List Request → Option Flushed → Option Flushed
before_round calls rs none = none
before_round calls rs (some f) =
    some (record f { calls = calls ++ f.calls; requests = rs ++ f.requests })

-- The loop of InternalFlush with fuel: `none` if the fuel ran out, and for an empty active list, where
-- the source dereferences the null pointer. The test for another item is at the round's end. `rounds`
-- is what the callbacks do: the first list is the calls of AddItem that the first callback makes, and
-- so on, and callbacks after the last list make none.
unfoldable pub flush_loop : ℕ → List (List Request) → Completer → Option Flushed
flush_loop zero rounds c = none
flush_loop (suc fuel) rounds c = elim c.active [
  | [] ↦ none
  | (p, item) ∷ rest ↦
      let (rs, later) = next_round rounds in
      let c1 = retain (record c { active = rest }) p in
      let (c2, immediate) = serve (requested c rs) c1 in
      let again = flush_loop fuel later c2 in
      let ended : Option Flushed = some (record { completer = c2; calls = []; requests = [] }) in
      before_round (called c item ++ immediate) (requested c rs)
        (elim c2.active [ [] ↦ ended | x ∷ xs ↦ again ])
]

unfoldable pub internal_flush : ℕ → List (List Request) → Completer → Option Flushed
internal_flush fuel rounds c = elim (flush_loop fuel rounds (record c { flushing = true })) [
  | none ↦ none
  | some f ↦ some (record f { completer = record f.completer { flushing = false } })
]

-- Flush of Completer.h.
unfoldable pub flush : ℕ → List (List Request) → Completer → Option Flushed
flush fuel rounds c =
    let done : Option Flushed = some (record { completer = c; calls = []; requests = [] }) in
    elim c.active [ [] ↦ done | x ∷ xs ↦ if c.flushing then done else internal_flush fuel rounds c ]

unfoldable pub finalize : Completer → Completer
finalize c = record c { active = []; free = []; free_count = 0; flushing = false }
