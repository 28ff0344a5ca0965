-- ===== src/Async/Create/Pieces.antt =====
-- The TDs that CreateTDs makes cover the request.
use os_x_generic_usb.Base.{
  ℕ, ◌+◌, ◌≤◌, ◌≡◌, ◌⊎◌, List, [], ◌∷◌, Option, none, some, Bool, true, false,
}
use os_x_generic_usb.Async.{Td}
use os_x_generic_usb.Async.Create.{Made}

-- A TD of the request for `command`, with `from` of `total` bytes before it and at most `most` of its
-- own.
pub record IsPiece (command total most from : ℕ) (t : Td) : Type 0 where
  pub of_command : t.command ≡ command
  pub preceeding : t.bytes_preceeding_this_td ≡ from
  pub bounded : t.bytes_this_td ≤ most
  pub following : from + t.bytes_this_td + t.bytes_following_this_td ≡ total
  pub nothing_done : t.shortfall ≡ t.bytes_this_td
  pub relative : t.absolute_shortfall ≡ false

-- The TDs are consecutive pieces from `from` on; the last one, and it only, is marked as final and
-- ends the request, unless the memory ran out.
unfoldable pub Pieces : (command total most : ℕ) → Bool → ℕ → List Td → Type 0
Pieces command total most whole from [] = whole ≡ false
Pieces command total most whole from (t ∷ ts) =
    IsPiece command total most from t
    × (((ts ≡ [])
          × (t.final_td_in_transaction ≡ true)
          × (t.interrupt_this_td ≡ true)
          × (from + t.bytes_this_td ≡ total)
          × (whole ≡ true))
        ⊎ ((t.final_td_in_transaction ≡ false)
            × Pieces command total most whole (from + t.bytes_this_td) ts))

-- What the loop promises of its result.
unfoldable MadeOf : (command total most from : ℕ) → Option Made → Type 0
MadeOf command total most from none = ⊥
MadeOf command total most from (some m) = Pieces command total most m.complete from m.tds
