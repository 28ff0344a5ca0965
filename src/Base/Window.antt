-- ===== src/Base/Window.antt =====
-- The entries of a circular array between two indices, as a list: the abstract view of the command
-- ring's callbacks and of the bounce queue of an event ring.
use os_x_generic_usb.Base.Tests.{ltb, leb, if◌then◌else◌}
use os_x_generic_usb.Base.Lists.{length, get_or, set, get_or-set_self, get_or-set_ne}
use Prim.Native.Nat.{ℕ, zero, suc, ◌+◌, ◌-◌, ◌≤◌, ◌<◌}
use mathlib.Core.Path.{◌≡◌, refl, sym, ap, ap₂, ◌∙◌}
use mathlib.Core.List.{List, [], ◌∷◌, ◌++◌}
use native.Mathlib.Omega.{arith}

-- The index after `i` in a circle of `cap`, the index `n` places on (`n` at most `cap`), and the
-- number of places from `from` to `to`.
abbrev pub after : ℕ → ℕ → ℕ
after cap i = if ltb (i + 1) cap then i + 1 else 0

abbrev pub places_on : ℕ → ℕ → ℕ → ℕ
places_on cap i n = if ltb (i + n) cap then i + n else i + n - cap

abbrev pub places_between : ℕ → ℕ → ℕ → ℕ
places_between cap from to = if leb from to then to - from else to + cap - from

pub places_on-after :
    (cap i n : ℕ) → i < cap → n < cap → places_on cap (after cap i) n ≡ places_on cap i (suc n)
places_on-after cap i n lt le = ground arith

module _ {ℓ} {A : Type ℓ} (d : A) (cap : ℕ) where
  unfoldable pub window : List A → ℕ → ℕ → List A
  window xs i zero = []
  window xs i (suc n) = get_or xs i d ∷ window xs (after cap i) n

  pub length-window : (xs : List A) (i n : ℕ) → length (window xs i n) ≡ n
  unfolding window
  length-window xs i zero = refl
  length-window xs i (suc n) = ap suc (length-window xs (after cap i) n)

  pub window_snoc :
      (xs : List A) (i n : ℕ)
      → i < cap
      → n < cap
      → window xs i (suc n) ≡ window xs i n ++ get_or xs (places_on cap i n) d ∷ []
  unfolding window
  window_snoc xs i zero lt le = ap (λ (k : ℕ). get_or xs k d ∷ []) (ground arith)
  window_snoc xs i (suc n) lt le =
      ap (λ (w : List A). get_or xs i d ∷ w)
        (window_snoc xs (after cap i) n (ground arith) (omega arith)
          ∙ ap (λ (k : ℕ). window xs (after cap i) n ++ get_or xs k d ∷ [])
              (places_on-after cap i n lt (omega arith)))

  -- A write at an index that the window does not reach.
  pub window-set_outside :
      (xs : List A) (i n m : ℕ) (v : A)
      → i < cap
      → n ≤ m
      → m < cap
      → window (set xs (places_on cap i m) v) i n ≡ window xs i n
  unfolding window
  window-set_outside xs i zero m v lt le lt' = refl
  window-set_outside xs i (suc n) zero v lt le lt' = absurd (omega arith)
  window-set_outside xs i (suc n) (suc m) v lt le lt' =
      ap₂ ◌∷◌ (get_or-set_ne xs (places_on cap i (suc m)) i v d (ground arith)) (
        ap (λ (k : ℕ). window (set xs k v) (after cap i) n)
          (sym (places_on-after cap i m lt (omega arith)))
        ∙ window-set_outside xs (after cap i) n m v (ground arith) (omega arith) (omega arith))

  -- A write just past the window extends it.
  pub window-set_end :
      (xs : List A) (i n : ℕ) (v : A)
      → i < cap
      → n < cap
      → cap ≤ length xs
      → window (set xs (places_on cap i n) v) i (suc n) ≡ window xs i n ++ v ∷ []
  window-set_end xs i n v lt le room =
      window_snoc (set xs (places_on cap i n) v) i n lt le
      ∙ ap₂ (λ (w : List A) (x : A). w ++ x ∷ [])
          (window-set_outside xs i n n v lt (omega arith) le)
          (get_or-set_self xs (places_on cap i n) v d (ground arith))

  -- A window that is not empty, taken apart.
  pub window_uncons :
      (xs : List A) (i n : ℕ) (first : A) (rest : List A)
      → window xs i n ≡ first ∷ rest
      → (m : ℕ) × (n ≡ suc m) × (get_or xs i d ≡ first) × (window xs (after cap i) m ≡ rest)
  unfolding window
  window_uncons xs i zero first rest e = absurd (ground arith)
  window_uncons xs i (suc m) first rest e = (m, refl, cc, cc)
