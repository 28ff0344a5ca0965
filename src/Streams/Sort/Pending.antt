-- ===== src/Streams/Sort/Pending.antt =====
-- What is left to sort while qsort runs: the ranges on its stack.
use native.Mathlib.Nat.{mul-le-mul, two-pow-succ, pow-le-pow_right}
use os_x_generic_usb.Base.{
  ℕ, suc, ◌+◌, ◌-◌, ◌*◌, ◌^◌, ◌≤◌, ◌<◌, ◌≡◌, refl, [], ◌∷◌, arith, length, inl, inr, ◌⊎◌, leb, ltb,
  false, if_cases,
}
use os_x_generic_usb.Streams.Sort.{Ranges, cut}
use os_x_generic_usb.Streams.Sort.Order.{lt_or_le}

unfoldable pub ApartFrom : ℕ → ℕ → Ranges → Type 0
ApartFrom l r [] = Unit {0}
ApartFrom l r ((l', r') ∷ rest) = ((r < l') ⊎ (r' < l)) × ApartFrom l r rest

-- The ranges lie apart and are not empty; each is small for its place on the stack.
unfoldable pub Ready : ℕ → Ranges → Type 0
Ready n [] = Unit {0}
Ready n ((l, r) ∷ rest) =
    (1 ≤ l)
    × (l ≤ r)
    × (r ≤ n)
    × ((r + 1 - l) * 2 ^ length rest ≤ n)
    × ApartFrom l r rest
    × Ready n rest

-- How many rounds of the loop the ranges take.
unfoldable pub rounds_left : Ranges → ℕ
rounds_left [] = 0
rounds_left ((l, r) ∷ rest) = 2 * (r - l) + 1 + rounds_left rest

ApartFrom-part :
    (l r l2 r2 : ℕ) (ranges : Ranges)
    → l ≤ l2
    → r2 ≤ r
    → ApartFrom l r ranges
    → ApartFrom l2 r2 ranges
unfolding ApartFrom
ApartFrom-part l r l2 r2 [] a b h = tt
ApartFrom-part l r l2 r2 ((l', r') ∷ rest) a b h =
    (ground (arith, h.0), ApartFrom-part l r l2 r2 rest a b h.1)

-- The part of a range that is at most as large as the other comes first, at half the size.
half_fits : (w a k n : ℕ) → w * 2 ^ k ≤ n → a + a ≤ w → a * 2 ^ suc k ≤ n
half_fits w a k n fits half =
    let m : (a + a) * 2 ^ k ≤ w * 2 ^ k = mul-le-mul half (omega arith) in
    let d : a * 2 ^ suc k ≡ (a + a) * 2 ^ k = rw two-pow-succ (omega arith) in omega (arith, m, d)

part_fits : (w a k n : ℕ) → w * 2 ^ k ≤ n → a ≤ w → a * 2 ^ k ≤ n
part_fits w a k n fits le =
    let m : a * 2 ^ k ≤ w * 2 ^ k = mul-le-mul le (omega arith) in omega arith

pub cut-Ready :
    (n l r at : ℕ) (rest : Ranges)
    → Ready n ((l, r) ∷ rest)
    → l ≤ at
    → at < r
    → Ready n (cut l r at rest)
unfolding Ready cut ApartFrom
cut-Ready n l r at rest h low high =
    let k = length rest in
    let left = ApartFrom-part l r l at rest (omega arith) (omega arith) h.4 in
    let right = ApartFrom-part l r (at + 1) r rest (omega arith) (omega arith) h.4 in
    if_cases (Ready n) (leb (r - at) (at + 1 - l)) _ _
      (λ small. (
        omega (arith, h.0),
        omega arith,
        h.2,
        half_fits (r + 1 - l) (r + 1 - (at + 1)) k n h.3 (ground arith),
        (inr (omega arith), right),
        (
          h.0,
          low,
          omega (arith, h.2),
          part_fits (r + 1 - l) (at + 1 - l) k n h.3 (omega arith),
          left,
          h.5,
        ),
      ))
      (λ small. (
        h.0,
        low,
        omega (arith, h.2),
        half_fits (r + 1 - l) (at + 1 - l) k n h.3 (ground arith),
        (inl (omega arith), left),
        (
          omega (arith, h.0),
          omega arith,
          h.2,
          part_fits (r + 1 - l) (r + 1 - (at + 1)) k n h.3 (omega arith),
          right,
          h.5,
        ),
      ))

pub cut_rounds :
    (l r at : ℕ) (rest : Ranges)
    → l ≤ at
    → at < r
    → rounds_left (cut l r at rest) < rounds_left ((l, r) ∷ rest)
unfolding cut rounds_left
cut_rounds l r at rest low high = ground arith

-- A range on a stack has its place among the nine.
pub Ready-room : (n l r : ℕ) (rest : Ranges) → n < 512 → Ready n ((l, r) ∷ rest) → length rest < 9
unfolding Ready
Ready-room n l r rest small h = elim (lt_or_le (length rest) 9) [
  | inl lt ↦ lt
  | inr ge ↦
      let big : 2 ^ 9 ≤ 2 ^ length rest = pow-le-pow_right (omega arith) ge in
      let one : 1 * 2 ^ length rest ≤ n =
        part_fits (r + 1 - l) 1 (length rest) n h.3 (omega (arith, h.1)) in
      absurd (omega (arith, big, one))
]

-- Nine places are enough.
pub Ready-fits :
    (n : ℕ) (ranges : Ranges) → n < 512 → Ready n ranges → ltb 9 (length ranges) ≡ false
Ready-fits n [] small h = refl
Ready-fits n ((l, r) ∷ rest) small h = let room = Ready-room n l r rest small h in ground arith
