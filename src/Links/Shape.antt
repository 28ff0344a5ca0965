-- ===== src/Links/Shape.antt =====
-- What a linked queue holds, as a list of addresses.
use os_x_generic_usb.Base.{
  ℕ, ◌<◌, ◌^◌, ◌≡◌, ◌≢◌, refl, sym, List, [], ◌∷◌, ◌++◌, Option, none, some, length, ne→==, eq→==,
}
use os_x_generic_usb.Links.{Nexts, Queue, link}

unfoldable pub NotIn : ℕ → List ℕ → Type 0
NotIn p [] = Unit {0}
NotIn p (x ∷ xs) = (p ≢ x) × NotIn p xs

unfoldable pub Distinct : List ℕ → Type 0
Distinct [] = Unit {0}
Distinct (x ∷ xs) = NotIn x xs × Distinct xs

-- Each node's `next` is the node after it, from `x` on.
unfoldable pub Linked : Nexts → ℕ → List ℕ → Type 0
Linked nexts x [] = Unit {0}
Linked nexts x (y ∷ ys) = (nexts x ≡ some y) × Linked nexts y ys

unfoldable pub last : ℕ → List ℕ → ℕ
last x [] = x
last x (y ∷ ys) = last y ys

-- The queue's pointers to its nodes.
unfoldable pub Ends : Nexts → Queue → List ℕ → Type 0
Ends nexts q [] = (q.head ≡ none) × (q.tail ≡ none)
Ends nexts q (x ∷ xs) = (q.head ≡ some x) × (q.tail ≡ some (last x xs)) × Linked nexts x xs

-- The queue holds the nodes at these addresses, in this order.
pub record Holds (nexts : Nexts) (q : Queue) (xs : List ℕ) : Type 0 where
  pub ends : Ends nexts q xs
  pub distinct : Distinct xs
  pub counted : q.count ≡ length xs
  pub small : length xs < 2 ^ 32

pub last-append : (x p : ℕ) (xs : List ℕ) → last x (xs ++ p ∷ []) ≡ p
unfolding last
last-append x p [] = refl
last-append x p (y ∷ ys) = last-append y p ys

pub NotIn-last : (p x : ℕ) (xs : List ℕ) → p ≢ x → NotIn p xs → p ≢ last x xs
unfolding last NotIn
NotIn-last p x [] ne h = ne
NotIn-last p x (y ∷ ys) ne h = NotIn-last p y ys h.0 h.1

-- Writing the `next` field of a node outside a chain leaves the chain.
pub Linked-link_outside :
    (nexts : Nexts) (p : ℕ) (n : Option ℕ) (x : ℕ) (xs : List ℕ)
    → p ≢ x
    → NotIn p xs
    → Linked nexts x xs
    → Linked (link p n nexts) x xs
unfolding Linked NotIn
Linked-link_outside nexts p n x [] ne h l = tt
Linked-link_outside nexts p n x (y ∷ ys) ne h l =
    (rw (ne→== x p (λ e. ne (sym e))) l.0, Linked-link_outside nexts p n y ys h.0 h.1 l.1)

-- Writing the `next` field of the last node extends the chain.
pub Linked-link-last :
    (nexts : Nexts) (p x : ℕ) (xs : List ℕ)
    → NotIn x xs
    → Distinct xs
    → Linked nexts x xs
    → Linked (link (last x xs) (some p) nexts) x (xs ++ p ∷ [])
unfolding Linked NotIn Distinct last
Linked-link-last nexts p x [] h d l = (rw (eq→== x x refl) refl, tt)
Linked-link-last nexts p x (y ∷ ys) h d l = (
  rw (ne→== x (last y ys) (NotIn-last x y ys h.0 h.1)) l.0,
  Linked-link-last nexts p y ys d.0 d.1 l.1,
)

pub NotIn-append : (p x : ℕ) (xs : List ℕ) → NotIn p xs → p ≢ x → NotIn p (xs ++ x ∷ [])
unfolding NotIn
NotIn-append p x [] h ne = (ne, tt)
NotIn-append p x (y ∷ ys) h ne = (h.0, NotIn-append p x ys h.1 ne)

pub Distinct-append : (p : ℕ) (xs : List ℕ) → Distinct xs → NotIn p xs → Distinct (xs ++ p ∷ [])
unfolding Distinct NotIn
Distinct-append p [] d h = (tt, tt)
Distinct-append p (x ∷ xs) d h =
    (NotIn-append x p xs d.0 (λ e. h.0 (sym e)), Distinct-append p xs d.1 h.1)
