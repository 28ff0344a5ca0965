-- ===== src/Links/Moves.antt =====
-- GetTD, PutTD and PutTDAtHead as the operations of a list of nodes.
use os_x_generic_usb.Base.{
  ℕ, ◌-◌, ◌<◌, ◌^◌, ◌≡◌, ◌≢◌, refl, sym, ap, List, [], ◌∷◌, ◌++◌, Option, some, arith, length,
  length-append, ne→==, eq→==,
}
use os_x_generic_usb.Links.{Nexts, Queue, link, points_to, get_td, put_td, put_td_at_head}
use os_x_generic_usb.Links.Shape.{
  NotIn, Distinct, Linked, last, Ends, Holds, last-append, NotIn-last, Linked-link_outside,
  Linked-link-last, Distinct-append,
}

-- GetTD on a queue that holds a node returns the first one, and the queue holds the others in their
-- order.
pub get_td_refines :
    (nexts : Nexts) (q : Queue) (x : ℕ) (xs : List ℕ)
    → Holds nexts q (x ∷ xs)
    → ((get_td nexts q).0 ≡ some x) × Holds nexts (get_td nexts q).1 xs
unfolding get_td points_to Linked Ends Distinct NotIn last
get_td_refines nexts q x [] h =
    rw (h.ends.0, h.ends.1, get_td, points_to, eq→== x x refl)
      (
        refl,
        record {
          ends = (refl, refl);
          distinct = tt;
          counted = ground (arith, h.counted);
          small = omega arith;
        },
      )
get_td_refines nexts q x (y ∷ ys) h =
    let ne : x ≢ last y ys = NotIn-last x y ys h.distinct.0.0 h.distinct.0.1 in
    rw (h.ends.0, h.ends.1, get_td, points_to, ne→== x (last y ys) ne)
      (
        refl,
        record {
          ends = (h.ends.2.0, refl, h.ends.2.1);
          distinct = h.distinct.1;
          counted = ground (arith, h.counted, h.small);
          small = omega (arith, h.small);
        },
      )

-- PutTD with a node that the queue does not hold appends it.
pub put_td_refines :
    (nexts : Nexts) (q : Queue) (p : ℕ) (xs : List ℕ)
    → Holds nexts q xs
    → NotIn p xs
    → length xs < 2 ^ 32 - 1
    → Holds (put_td nexts q p).0 (put_td nexts q p).1 (xs ++ p ∷ [])
unfolding put_td Linked Ends Distinct NotIn last
put_td_refines nexts q p [] h out room =
    rw (h.ends.0, put_td)
      (record {
        ends = (refl, refl, tt);
        distinct = (tt, tt);
        counted = ground (arith, h.counted);
        small = omega arith;
      })
put_td_refines nexts q p (x ∷ xs) h out room =
    rw (h.ends.0, h.ends.1, put_td)
      (record {
        ends = (
          h.ends.0,
          ap some (sym (last-append x p xs)),
          Linked-link-last nexts p x xs h.distinct.0 h.distinct.1 h.ends.2,
        );
        distinct = Distinct-append p (x ∷ xs) h.distinct out;
        counted = ground (arith, h.counted, length-append xs (p ∷ []));
        small = omega (arith, length-append xs (p ∷ []));
      })

-- PutTDAtHead with a node that the queue does not hold puts it first.
pub put_td_at_head_refines :
    (nexts : Nexts) (q : Queue) (p : ℕ) (xs : List ℕ)
    → Holds nexts q xs
    → NotIn p xs
    → length xs < 2 ^ 32 - 1
    → Holds (put_td_at_head nexts q p).0 (put_td_at_head nexts q p).1 (p ∷ xs)
unfolding put_td_at_head Linked Ends Distinct NotIn last
put_td_at_head_refines nexts q p [] h out room =
    rw (h.ends.0, put_td_at_head)
      (record {
        ends = (refl, refl, tt);
        distinct = (tt, tt);
        counted = ground (arith, h.counted);
        small = omega arith;
      })
put_td_at_head_refines nexts q p (x ∷ xs) h out room =
    rw (h.ends.0, put_td_at_head)
      (record {
        ends = (
          refl,
          h.ends.1,
          (
            rw (eq→== p p refl) refl,
            Linked-link_outside nexts p (some x) x xs out.0 out.1 h.ends.2,
          ),
        );
        distinct = (out, h.distinct);
        counted = ground (arith, h.counted);
        small = omega arith;
      })

-- A queue that shares no node with the one that PutTD or PutTDAtHead works on.
unfoldable pub Apart : List ℕ → List ℕ → Type 0
Apart [] ys = Unit {0}
Apart (x ∷ xs) ys = NotIn x ys × Apart xs ys

Apart-last : (x : ℕ) (xs ys : List ℕ) → NotIn x ys → Apart xs ys → NotIn (last x xs) ys
unfolding last Apart
Apart-last x [] ys h a = h
Apart-last x (y ∷ xs) ys h a = Apart-last y xs ys a.0 a.1

Holds-link :
    (nexts : Nexts) (q : Queue) (ys : List ℕ) (p : ℕ) (n : Option ℕ)
    → Holds nexts q ys
    → NotIn p ys
    → Holds (link p n nexts) q ys
unfolding Ends NotIn Distinct
Holds-link nexts q [] p n h out = record {
  ends = h.ends;
  distinct = tt;
  counted = h.counted;
  small = h.small;
}
Holds-link nexts q (y ∷ ys) p n h out = record {
  ends = (h.ends.0, h.ends.1, Linked-link_outside nexts p n y ys out.0 out.1 h.ends.2);
  distinct = h.distinct;
  counted = h.counted;
  small = h.small;
}

-- PutTD and PutTDAtHead leave what another queue holds, if it shares no node with theirs and does
-- not hold the node that they put.
pub put_td-Apart :
    (nexts : Nexts) (q other : Queue) (p : ℕ) (xs ys : List ℕ)
    → Holds nexts q xs
    → Holds nexts other ys
    → Apart (p ∷ xs) ys
    → Holds (put_td nexts q p).0 other ys × Holds (put_td_at_head nexts q p).0 other ys
unfolding put_td put_td_at_head Ends Apart
put_td-Apart nexts q other p [] ys h k a = rw (h.ends.0, put_td, put_td_at_head) (k, k)
put_td-Apart nexts q other p (x ∷ xs) ys h k a =
    rw (h.ends.0, h.ends.1, put_td, put_td_at_head)
      (
        Holds-link nexts other ys (last x xs) (some p) k (Apart-last x xs ys a.1.0 a.1.1),
        Holds-link nexts other ys p (some x) k a.0,
      )
