-- ===== src/Base/Circle.antt =====
-- What a circular array of `cap` places holds between its two indices: what is put at the end, what is
-- taken from the front, and what a write in between changes.
use os_x_generic_usb.Base.Lists.{length, get_or, set}
use os_x_generic_usb.Base.Window.{
  after, places_on, places_between, window, length-window, window_uncons, window-set_end,
  window-set_outside,
}
use Prim.Native.Nat.{ℕ, zero, suc, ◌-◌, ◌≤◌, ◌<◌}
use mathlib.Core.Path.{◌≡◌, refl, ap, ◌∙◌}
use mathlib.Core.Logic.{◌≢◌, ◌⊎◌, inl, inr}
use mathlib.Core.List.{List, [], ◌∷◌, ◌++◌}
use native.Mathlib.Omega.{arith}

-- The window's arithmetic when the end moves on, and when the front does.
put_places :
    (cap from to : ℕ)
    → from < cap
    → to < cap
    → after cap to ≢ from
    → (to ≡ places_on cap from (places_between cap from to))
      × (places_between cap from (after cap to) ≡ suc (places_between cap from to))
      × (places_between cap from to < cap)
put_places cap from to lt lt' ne = ground arith

take_places :
    (cap from to m : ℕ)
    → from < cap
    → to < cap
    → places_between cap from to ≡ suc m
    → (from ≡ places_on cap (after cap from) (cap - 1))
      × (places_between cap (after cap from) to ≡ m)
      × (m ≤ cap - 1)
take_places cap from to m lt lt' e = ground arith

ℕ-cases : (n : ℕ) → (n ≡ 0) ⊎ ((m : ℕ) × (n ≡ suc m))
ℕ-cases zero = inl refl
ℕ-cases (suc m) = inr (m, refl)

module _ {ℓ} {A : Type ℓ} (d : A) (cap : ℕ) where
  abbrev pub contents : List A → ℕ → ℕ → List A
  contents xs from to = window d cap xs from (places_between cap from to)

  pub length-contents :
      (xs : List A) (from to : ℕ) → length (contents xs from to) ≡ places_between cap from to
  length-contents xs from to = length-window d cap xs from _

  pub contents_put :
      (xs : List A) (from to : ℕ) (v : A)
      → from < cap
      → to < cap
      → after cap to ≢ from
      → cap ≤ length xs
      → contents (set xs to v) from (after cap to) ≡ contents xs from to ++ v ∷ []
  contents_put xs from to v lt lt' ne room =
      let n = places_between cap from to in
      let p = put_places cap from to lt lt' ne in
      ap (λ (m : ℕ). window d cap (set xs to v) from m) p.1
      ∙ ap (λ (k : ℕ). window d cap (set xs k v) from (suc n)) p.0
      ∙ window-set_end d cap xs from n v lt p.2 room

  -- The place that was taken may be overwritten.
  pub contents_take :
      (xs : List A) (from to : ℕ) (w first : A) (rest : List A)
      → from < cap
      → to < cap
      → contents xs from to ≡ first ∷ rest
      → (get_or xs from d ≡ first) × (contents (set xs from w) (after cap from) to ≡ rest)
  contents_take xs from to w first rest lt lt' e =
      let (m, count, head, tail) =
        window_uncons d cap xs from (places_between cap from to) first rest e in
      let p = take_places cap from to m lt lt' count in
      let next = after cap from in
      (
        head,
        ap (λ (k : ℕ). window d cap (set xs from w) next k) p.1
            ∙ ap (λ (k : ℕ). window d cap (set xs k w) next m) p.0
            ∙ window-set_outside d cap xs next m (cap - 1) w (ground arith) p.2 (omega arith)
            ∙ tail,
      )

  -- Nothing is held exactly where the two indices are equal.
  pub contents_none : (xs : List A) (i : ℕ) → contents xs i i ≡ []
  unfolding window
  contents_none xs i = let z : places_between cap i i ≡ 0 = ground arith in ap (window d cap xs i) z

  pub contents_some :
      (xs : List A) (from to : ℕ)
      → from < cap
      → to < cap
      → from ≢ to
      → (first : A) × (rest : List A) × (contents xs from to ≡ first ∷ rest)
  unfolding window
  contents_some xs from to lt lt' ne = elim (ℕ-cases (places_between cap from to)) [
    | inl e ↦ absurd (ground arith)
    | inr (m, e) ↦
        (get_or xs from d, window d cap xs (after cap from) m, ap (window d cap xs from) e)
  ]
