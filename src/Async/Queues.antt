-- ===== src/Async/Queues.antt =====
-- What FlushTDs, GetTDFromActiveQueueWithIndex and Abort do with the queues.
use os_x_generic_usb.Base.{
  ℕ, ◌≡◌, ◌≢◌, inl, inr, refl, ap, List, [], ◌∷◌, ◌++◌, Option, none, some, arith, ◌==◌, ne→==,
  Bool-cases,
}
use os_x_generic_usb.Async.{Td, Endpoint, split_command, flush_tds, skip_td, find_td}

-- All TDs of a list are the command's.
unfoldable pub AllOf : ℕ → List Td → Type 0
AllOf command [] = Unit {0}
AllOf command (t ∷ ts) = (t.command ≡ command) × AllOf command ts

-- The list does not begin with a TD of the command.
unfoldable pub BeginsOther : ℕ → List Td → Type 0
BeginsOther command [] = Unit {0}
BeginsOther command (t ∷ ts) = t.command ≢ command

pub record Split (command : ℕ) (ts flushed kept : List Td) : Type 0 where
  pub whole : ts ≡ flushed ++ kept
  pub all_of : AllOf command flushed
  pub begins_other : BeginsOther command kept

pub split_command-Split :
    (command : ℕ) (ts : List Td)
    → Split command ts (split_command command ts).0 (split_command command ts).1
unfolding split_command AllOf BeginsOther
split_command-Split command [] = record { whole = refl; all_of = tt; begins_other = tt }
split_command-Split command (t ∷ ts) =
    let later = split_command-Split command ts in
    elim (Bool-cases (t.command == command)) [
      | inl e ↦
          rw (e, split_command)
            (record {
              whole = ap (λ (l : List Td). t ∷ l) later.whole;
              all_of = (ground arith, later.all_of);
              begins_other = later.begins_other;
            })
      | inr e ↦
          rw (e, split_command) (record { whole = refl; all_of = tt; begins_other = ground arith })
    ]

-- FlushTDs for a command, whatever its option: the TDs of the command at the front of the scheduled
-- queue, and no others, go to the end of the done queue in their order; the queue of TDs that are
-- not scheduled stays.
pub flush_tds-Split :
    (num_trbs : ℕ) (e : Endpoint) (command option : ℕ)
    → command ≢ 0
    → let e' = (flush_tds num_trbs e command option).0 in
      (flushed : List Td) × Split command e.scheduled flushed e'.scheduled
      × (e'.done ≡ e.done ++ flushed)
      × (e'.queued ≡ e.queued)
unfolding flush_tds
flush_tds-Split num_trbs e command option ne =
    rw (ne→== command 0 ne, flush_tds)
      ((split_command command e.scheduled).0, split_command-Split command e.scheduled, refl, refl)

-- No TD of the list has its last TRB at the index.
unfoldable pub NoneAt : ℕ → List Td → Type 0
NoneAt index [] = Unit {0}
NoneAt index (t ∷ ts) = (t.last_trb_index ≢ index) × NoneAt index ts

-- What the search promises of its result.
unfoldable pub Found : ℕ → List Td → Option (List Td × (Td × List Td)) → Type 0
Found index ts none = NoneAt index ts
Found index ts (some (before, (t, after))) =
    (ts ≡ before ++ t ∷ after) × (t.last_trb_index ≡ index) × NoneAt index before

skip_td-Found :
    (index : ℕ) (u : Td) (ts : List Td) (o : Option (List Td × (Td × List Td)))
    → u.last_trb_index ≢ index
    → Found index ts o
    → Found index (u ∷ ts) (skip_td u o)
unfolding skip_td Found NoneAt
skip_td-Found index u ts none ne h = (ne, h)
skip_td-Found index u ts (some (before, (t, after))) ne h =
    (ap (λ (l : List Td). u ∷ l) h.0, h.1, (ne, h.2))

-- The search of GetTDFromActiveQueueWithIndex finds the first TD whose last TRB is at the index, with
-- the TDs before and after it, and fails only if there is none.
pub find_td-Found : (index : ℕ) (ts : List Td) → Found index ts (find_td index ts)
unfolding find_td Found NoneAt
find_td-Found index [] = tt
find_td-Found index (t ∷ ts) =
    let later = skip_td-Found index t ts (find_td index ts) in
    let rest = find_td-Found index ts in
    elim (Bool-cases (t.last_trb_index == index)) [
      | inl e ↦ rw (e, find_td) (refl, ground arith, tt)
      | inr e ↦ rw (e, find_td) (later (ground arith) rest)
    ]
