-- ===== src/Async/Shortfall.antt =====
-- What Complete reports of the TDs that CreateTDs made.
use os_x_generic_usb.Base.{
  ℕ, ◌+◌, ◌^◌, ◌<◌, ◌≡◌, ◌∙◌, inl, inr, refl, ap, List, [], ◌∷◌, ◌++◌, Bool, true, false, arith,
  Bool-cases,
}
use os_x_generic_usb.Async.{Td, Commands, Completed, add_shortfall, report, complete_list}
use os_x_generic_usb.Async.Create.Pieces.{IsPiece, Pieces}

-- The scratch word after a TD that has transferred nothing.
add_shortfall-piece :
    (command total most from : ℕ) (t : Td) (cs : Commands)
    → IsPiece command total most from t
    → cs.scratch command ≡ from
    → total < 2 ^ 32
    → ((add_shortfall cs t).scratch command ≡ from + t.bytes_this_td)
      × ((add_shortfall cs t).has_action ≡ cs.has_action)
unfolding add_shortfall
add_shortfall-piece command total most from t cs p e small =
    (ground (arith, p.of_command, p.relative, p.nothing_done, p.following, cs.scratch), refl)

report-final :
    (status : ℕ) (cs : Commands) (t : Td)
    → t.interrupt_this_td ≡ true
    → t.final_td_in_transaction ≡ true
    → cs.has_action t.command ≡ true
    → report status cs t
      ≡ record { command = t.command; status = status; shortfall = cs.scratch t.command } ∷ []
unfolding report
report-final status cs t i f a = rw (i, f, a) refl

report-silent :
    (status : ℕ) (cs : Commands) (t : Td)
    → t.final_td_in_transaction ≡ false
    → report status cs t ≡ []
unfolding report
report-silent status cs t f = elim (Bool-cases t.interrupt_this_td) [
  | inl e ↦ rw (e, f) refl
  | inr e ↦ rw e refl
]

-- The TDs of a request that the controller has not touched, if they cover the request from the byte
-- on that the command's scratch word 9 counts: Complete reports the request once, with all of its
-- bytes as the shortfall, if the command has a completion action.
pub complete_list-Pieces :
    (command total most from status : ℕ) (tds : List Td) (cs : Commands)
    → Pieces command total most true from tds
    → cs.scratch command ≡ from
    → cs.has_action command ≡ true
    → total < 2 ^ 32
    → (complete_list status cs tds).1
      ≡ record { command = command; status = status; shortfall = total } ∷ []
unfolding complete_list Pieces
complete_list-Pieces command total most from status [] cs h e a small = ground arith
complete_list-Pieces command total most from status (t ∷ ts) cs (p, inl (nil, final, inter, sum, _))
      e a small =
    let added = add_shortfall-piece command total most from t cs p e small in
    let cs1 = add_shortfall cs t in
    let acts : cs1.has_action t.command ≡ true =
      ap (λ (c : ℕ). cs1.has_action c) p.of_command
      ∙ ap (λ (f : ℕ → Bool). f command) added.1
      ∙ a in
    ap (λ (l : List Td). report status cs1 t ++ (complete_list status cs1 l).1) nil
    ∙ ap (λ (l : List Completed). l ++ []) (report-final status cs1 t inter final acts)
    ∙ ap (λ (c : ℕ). completed c (cs1.scratch c)) p.of_command
    ∙ ap (λ (n : ℕ). completed command n) (added.0 ∙ sum)
  where
    completed : ℕ → ℕ → List Completed
    completed c n = record { command = c; status = status; shortfall = n } ∷ []
complete_list-Pieces command total most from status (t ∷ ts) cs (p, inr (not_final, more)) e a
      small =
    let added = add_shortfall-piece command total most from t cs p e small in
    let cs1 = add_shortfall cs t in
    ap (λ (l : List Completed). l ++ (complete_list status cs1 ts).1)
      (report-silent status cs1 t not_final)
    ∙ complete_list-Pieces command total most (from + t.bytes_this_td) status ts cs1 more added.0
        (ap (λ (f : ℕ → Bool). f command) added.1 ∙ a) small

-- Where the memory ran out before the request's end, Complete reports none of its TDs.
pub complete_list_unfinished :
    (command total most from status : ℕ) (tds : List Td) (cs : Commands)
    → Pieces command total most false from tds
    → (complete_list status cs tds).1 ≡ []
unfolding complete_list Pieces
complete_list_unfinished command total most from status [] cs h = refl
complete_list_unfinished command total most from status (t ∷ ts) cs (p, inl h) =
    absurd (ground (arith, h))
complete_list_unfinished command total most from status (t ∷ ts) cs (p, inr (not_final, more)) =
    let cs1 = add_shortfall cs t in
    ap (λ (l : List Completed). l ++ (complete_list status cs1 ts).1)
      (report-silent status cs1 t not_final)
    ∙ complete_list_unfinished command total most (from + t.bytes_this_td) status ts cs1 more
