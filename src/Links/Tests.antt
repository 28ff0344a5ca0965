-- ===== src/Links/Tests.antt =====
-- The linked queues on three nodes, at the addresses 10, 20 and 30.
use os_x_generic_usb.Base.{◌≡◌, refl, [], ◌∷◌, some, arith}
use os_x_generic_usb.Links.{Nexts, Queue, link, get_td, put_td, put_td_at_head}
use os_x_generic_usb.Links.Shape.{NotIn, Distinct, Linked, Ends, last, Holds}
use os_x_generic_usb.Links.Moves.{Apart, get_td_refines, put_td-Apart}

abbrev two_linked : Nexts
two_linked = link 10 (some 20) (λ p. some 99)

abbrev two_nodes : Queue
two_nodes = record { head = some 10; tail = some 20; count = 2 }

two_nodes-Holds : Holds two_linked two_nodes (10 ∷ 20 ∷ [])
unfolding NotIn Distinct Linked Ends last
two_nodes-Holds = record {
  ends = (refl, refl, (refl, tt));
  distinct = ((omega arith, tt), (tt, tt));
  counted = refl;
  small = omega arith;
}

abbrev one_node : Queue
one_node = record { head = some 40; tail = some 40; count = 1 }

one_node-Holds : Holds two_linked one_node (40 ∷ [])
unfolding NotIn Distinct Linked Ends last
one_node-Holds = record {
  ends = (refl, refl, tt);
  distinct = (tt, tt);
  counted = refl;
  small = omega arith;
}

get_td_refines_example :
    ((get_td two_linked two_nodes).0 ≡ some 10)
    × Holds two_linked (get_td two_linked two_nodes).1 (20 ∷ [])
get_td_refines_example = get_td_refines two_linked two_nodes 10 (20 ∷ []) two_nodes-Holds

put_td-Apart_example :
    Holds (put_td two_linked two_nodes 30).0 one_node (40 ∷ [])
    × Holds (put_td_at_head two_linked two_nodes 30).0 one_node (40 ∷ [])
unfolding NotIn Apart
put_td-Apart_example =
    put_td-Apart two_linked two_nodes one_node 30 (10 ∷ 20 ∷ []) (40 ∷ []) two_nodes-Holds
      one_node-Holds ((omega arith, tt), ((omega arith, tt), ((omega arith, tt), tt)))
