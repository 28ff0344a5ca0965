-- ===== src/Completer/Tests.antt =====
-- A flush of one completion whose callback adds another.
use os_x_generic_usb.Base.{ℕ, ◌≡◌, refl, List, [], ◌∷◌, some, true, false, arith}
use os_x_generic_usb.Completer.{Item, Completer, Request, Flushed, internal_flush}
use os_x_generic_usb.Completer.Items.{HaveMemory, RoundsHaveMemory, total}
use os_x_generic_usb.Completer.Fifo.{InOrder, internal_flush-InOrder}

abbrev sample_item : ℕ → Item
sample_item n = record { completion = n; status = 0; actual_byte_count = 8 }

abbrev one_waiting : Completer
one_waiting = record {
  owner = true;
  active = (100, sample_item 1) ∷ [];
  free = [];
  free_count = 0;
  flushing = false;
}

abbrev one_round : List (List Request)
one_round = (record { item = sample_item 2; allow_immediate = true; malloc = some 200 } ∷ []) ∷ []

internal_flush-InOrder_example :
    (f : Flushed) × (internal_flush 3 one_round one_waiting ≡ some f)
    × InOrder one_waiting f
    × (f.completer.flushing ≡ false)
unfolding HaveMemory RoundsHaveMemory total
internal_flush-InOrder_example =
    internal_flush-InOrder 3 one_round one_waiting
      (record { counted = refl; bounded = omega arith }) (λ e. cc) refl (((200, refl), tt), tt)
      (omega arith)
