-- ===== src/Completer/Fifo.antt =====
-- The completions are called in the order in which they were added.
use os_x_generic_usb.Completer.Items.{
  Appended, HaveMemory, IsValid, RoundsHaveMemory, append_assoc, items, length-items,
  length-request_items, request_items, request_items-append, retain-IsValid, retain_active,
  serve-Appended, total,
}
use os_x_generic_usb.Base.{
  ℕ, zero, suc, ◌+◌, ◌<◌, ◌≡◌, ◌≢◌, ◌∙◌, refl, sym, ap, subst, List, [], ◌∷◌, ◌++◌, Option, some,
  Bool, true, false, arith, length, length-append,
}
use os_x_generic_usb.Completer.{
  Item, Completer, Request, Flushed, serve, retain, next_round, before_round, flush_loop,
  internal_flush,
}

-- What a flush leaves, if all went well.
pub record InOrder (c : Completer) (f : Flushed) : Type 0 where
  pub valid : IsValid f.completer
  pub emptied : f.completer.active ≡ []
  pub in_order : f.calls ≡ items c.active ++ request_items f.requests

-- One round: the first item is called, and what its callback adds comes after the others.
module _ (c : Completer) (p : ℕ) (item : Item) (rest : List (ℕ × Item)) (rs : List Request) where
  abbrev served : Completer × List Item
  served = serve rs (retain (record c { active = rest }) p)

  served-Appended :
      IsValid c
      → HaveMemory rs
      → Appended (record c { active = rest }) served.0 (request_items rs) served.1
  served-Appended v m =
      let c1 = retain (record c { active = rest }) p in
      let kept = retain_active (record c { active = rest }) p in
      let a =
        serve-Appended c1 rs
          (retain-IsValid (record c { active = rest }) p
            (record { counted = v.counted; bounded = v.bounded }))
          m in
      record {
        valid = a.valid;
        active_is = a.active_is ∙ ap (λ (l : List (ℕ × Item)). items l ++ request_items rs) kept.0;
        owner_kept = a.owner_kept ∙ kept.1;
        no_calls = a.no_calls;
      }

  round_calls :
      (calls : List Item) (later : List Request)
      → IsValid c
      → HaveMemory rs
      → calls ≡ items served.0.active ++ request_items later
      → item ∷ served.1 ++ calls ≡ item ∷ items rest ++ request_items (rs ++ later)
  round_calls calls later v m e =
      let a = served-Appended v m in
      ap (λ (l : List Item). item ∷ l)
        (ap (λ (l : List Item). l ++ calls) a.no_calls
          ∙ e
          ∙ ap (λ (l : List Item). l ++ request_items later) a.active_is
          ∙ append_assoc (items rest) (request_items rs) (request_items later)
          ∙ ap (λ (l : List Item). items rest ++ l) (sym (request_items-append rs later)))

  length-served : IsValid c → HaveMemory rs → length served.0.active ≡ length rest + length rs
  length-served v m =
      let a = served-Appended v m in
      sym (length-items served.0.active)
      ∙ ap (λ (l : List Item). length l) a.active_is
      ∙ length-append (items rest) (request_items rs)
      ∙ omega (arith, length-items rest, length-request_items rs)

next_round_memory :
    (rounds : List (List Request))
    → RoundsHaveMemory rounds
    → HaveMemory (next_round rounds).0
      × RoundsHaveMemory (next_round rounds).1
      × (total rounds ≡ length (next_round rounds).0 + total (next_round rounds).1)
unfolding next_round RoundsHaveMemory HaveMemory total
next_round_memory [] m = (tt, tt, refl)
next_round_memory (rs ∷ later) m = (m.0, m.1, refl)

-- What follows a round that left the completer `d`: the end, or another round.
abbrev onward : ℕ → List (List Request) → Completer → Option Flushed
onward fuel later d = elim d.active as (λ _. Option Flushed) [
  | [] ↦ some (record { completer = d; calls = []; requests = [] })
  | x ∷ xs ↦ flush_loop fuel later d
]

-- The loop's round, for the callback's requests `rs`, by what follows it.
abbrev Steps : ℕ → List (List Request) → ℕ → Item → List (ℕ × Item) → Flushed → Completer → Type 0
Steps fuel rounds p item rest f c =
    let rs = (next_round rounds).0 in
    onward fuel (next_round rounds).1 (served c p item rest rs).0 ≡ some f
    → flush_loop (suc fuel) rounds c
      ≡ some (record {
        completer = f.completer;
        calls = item ∷ (served c p item rest rs).1 ++ f.calls;
        requests = rs ++ f.requests;
      })

flush_loop-Steps :
    (fuel : ℕ) (rounds : List (List Request)) (c : Completer) (p : ℕ) (item : Item)
    (rest : List (ℕ × Item)) (f : Flushed)
    → c.active ≡ (p, item) ∷ rest
    → c.owner ≡ true
    → Steps fuel rounds p item rest f c
unfolding flush_loop before_round
flush_loop-Steps fuel rounds c p item rest f e own =
    subst (Steps fuel rounds p item rest f)
      (sym (
        ap (λ (o : Bool). record c { owner = o }) own
        ∙ ap (λ (l : List (ℕ × Item)). record c { owner = true; active = l }) e))
      (λ got. rw got refl)

goes_on :
    (active : List (ℕ × Item)) (x : ℕ × Item) (xs : List (ℕ × Item))
    → active ≡ x ∷ xs
    → (ended again : Option Flushed)
    → (elim active as (λ _. Option Flushed) [ [] ↦ ended | y ∷ ys ↦ again ]) ≡ again
goes_on [] x xs e ended again = absurd cc
goes_on (y ∷ ys) x xs e ended again = refl

-- What follows a round, if another round would go well.
onward-InOrder :
    (fuel : ℕ) (later : List (List Request)) (d : Completer) (active : List (ℕ × Item))
    → d.active ≡ active
    → IsValid d
    → (d.active ≢ [] → (f : Flushed) × (flush_loop fuel later d ≡ some f) × InOrder d f)
    → (f : Flushed) × (onward fuel later d ≡ some f) × InOrder d f
unfolding items request_items
onward-InOrder fuel later d [] e v again = (
  record { completer = d; calls = []; requests = [] },
  rw e refl,
  record { valid = v; emptied = e; in_order = rw e refl },
)
onward-InOrder fuel later d (x ∷ xs) e v again =
    let (f, run, order) = again (λ empty. cc) in (f, goes_on d.active x xs e _ _ ∙ run, order)

flush_loop-InOrder :
    (fuel : ℕ) (rounds : List (List Request)) (c : Completer) (active : List (ℕ × Item))
    → c.active ≡ active
    → active ≢ []
    → IsValid c
    → c.owner ≡ true
    → RoundsHaveMemory rounds
    → length active + total rounds < fuel
    → (f : Flushed) × (flush_loop fuel rounds c ≡ some f) × InOrder c f
unfolding items request_items
flush_loop-InOrder zero rounds c active e ne v own m enough = absurd (omega arith)
flush_loop-InOrder (suc fuel) rounds c [] e ne v own m enough = absurd (ne refl)
flush_loop-InOrder (suc fuel) rounds c ((p, item) ∷ rest) e ne v own m enough =
    let next = next_round_memory rounds m in
    let rs = (next_round rounds).0 in
    let a = served-Appended c p item rest rs v next.0 in
    let d = (served c p item rest rs).0 in
    let (f, got, order) = onward-InOrder fuel (next_round rounds).1 d d.active refl a.valid (λ more.
      flush_loop-InOrder fuel (next_round rounds).1 d d.active refl more a.valid
        (a.owner_kept ∙ own) next.1
        (omega (arith, length-served c p item rest rs v next.0, next.2))) in
    (
      record {
        completer = f.completer;
        calls = item ∷ (served c p item rest rs).1 ++ f.calls;
        requests = rs ++ f.requests;
      },
      flush_loop-Steps fuel rounds c p item rest f e own got,
      record {
        valid = order.valid;
        emptied = order.emptied;
        in_order =
            round_calls c p item rest rs f.calls f.requests v next.0 order.in_order
            ∙ ap (λ (l : List (ℕ × Item)). items l ++ request_items (rs ++ f.requests)) (sym e);
      },
    )

-- InternalFlush with an owner, on a valid completer with an item that waits, and with callbacks for whose calls of AddItem
-- there is memory: with fuel for the items that wait and for those that the callbacks may add, it
-- ends with an empty active list, and it has called the completions in the order in which they were
-- added, those that callbacks added during the flush after the others.
pub internal_flush-InOrder :
    (fuel : ℕ) (rounds : List (List Request)) (c : Completer)
    → IsValid c
    → c.active ≢ []
    → c.owner ≡ true
    → RoundsHaveMemory rounds
    → length c.active + total rounds < fuel
    → (f : Flushed) × (internal_flush fuel rounds c ≡ some f)
      × InOrder c f
      × (f.completer.flushing ≡ false)
unfolding internal_flush
internal_flush-InOrder fuel rounds c v some_wait own m enough =
    let c' : Completer = record c { flushing = true } in
    let (f, got, order) =
      flush_loop-InOrder fuel rounds c' c.active refl some_wait
        (record { counted = v.counted; bounded = v.bounded }) own m enough in
    (
      record f { completer = record f.completer { flushing = false } },
      rw (got, internal_flush) refl,
      record {
        valid = record { counted = order.valid.counted; bounded = order.valid.bounded };
        emptied = order.emptied;
        in_order = order.in_order;
      },
      refl,
    )
