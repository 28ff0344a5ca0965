-- ===== src/Streams/Sort/Order.antt =====
-- The order of addresses, and what exchanging rings within a range keeps.
use os_x_generic_usb.Base.{
  ℕ, ◌%◌, ◌^◌, ◌≤◌, ◌<◌, ◌≡◌, ◌≢◌, ◌∙◌, refl, ap, true, false, arith, ltb, inl, inr, ◌⊎◌,
  Bool-cases, eq→==, ne→==,
}
use native.Mathlib.Decide.{ℕ_discrete}
use os_x_generic_usb.Trb.{diff_trb_index}
use os_x_generic_usb.Streams.Sort.{StreamArray, swap, is_positive, is_above}

-- An aligned address in the lower half of the address space.
abbrev pub IsLow : ℕ → Type 0
IsLow a = (a < 2 ^ 63) × (a % 16 ≡ 0)

pub is_above-lt : (a b : ℕ) → IsLow a → IsLow b → is_above a b ≡ true → b < a
unfolding is_above is_positive diff_trb_index
is_above-lt a b la lb h = ground (arith, la, lb)

pub is_above-le : (a b : ℕ) → IsLow a → IsLow b → is_above a b ≡ false → a ≤ b
unfolding is_above is_positive diff_trb_index
is_above-le a b la lb h = ground (arith, la, lb)

pub is_above-same : (a : ℕ) → is_above a a ≡ false
unfolding is_above is_positive diff_trb_index
is_above-same a = ground arith

-- An array is got from another by exchanging rings with indices in a range.
pub data Rearranged (l r : ℕ) : StreamArray → StreamArray → Type 0 where
  same : {rows : StreamArray} → Rearranged l r rows rows
  exchange :
      {rows rows' : StreamArray} (i j : ℕ)
      → l ≤ i
      → i ≤ r
      → l ≤ j
      → j ≤ r
      → Rearranged l r (swap rows i j) rows'
      → Rearranged l r rows rows'

pub widen :
    (l r l' r' : ℕ) {rows rows' : StreamArray}
    → l' ≤ l
    → r ≤ r'
    → Rearranged l r rows rows'
    → Rearranged l' r' rows rows'
widen l r l' r' a b same = same
widen l r l' r' a b (exchange i j li ir lj jr rest) =
    exchange i j (omega arith) (omega arith) (omega arith) (omega arith) (widen l r l' r' a b rest)

pub and_then :
    (l r : ℕ) {rows rows' rows'' : StreamArray}
    → Rearranged l r rows rows'
    → Rearranged l r rows' rows''
    → Rearranged l r rows rows''
and_then l r same q = q
and_then l r (exchange i j li ir lj jr rest) q = exchange i j li ir lj jr (and_then l r rest q)

pub swap-left : (rows : StreamArray) (i j : ℕ) → swap rows i j i ≡ rows j
unfolding swap
swap-left rows i j = elim (ℕ_discrete i j) [
  | yes e ↦ rw (eq→== i j e) (ap rows e)
  | no ne ↦ rw (ne→== i j ne, eq→== i i refl) refl
]

pub swap-right : (rows : StreamArray) (i j : ℕ) → swap rows i j j ≡ rows i
unfolding swap
swap-right rows i j = rw (eq→== j j refl) refl

pub swap-other : (rows : StreamArray) (i j k : ℕ) → k ≢ i → k ≢ j → swap rows i j k ≡ rows k
unfolding swap
swap-other rows i j k ni nj = rw (ne→== k j nj, ne→== k i ni) refl

-- Outside the range nothing changes.
pub Rearranged-outside :
    (l r k : ℕ) {rows rows' : StreamArray}
    → ((k < l) ⊎ (r < k))
    → Rearranged l r rows rows'
    → rows' k ≡ rows k
Rearranged-outside l r k out same = refl
Rearranged-outside l r k {rows = rows} out (exchange i j li ir lj jr rest) =
    Rearranged-outside l r k out rest
    ∙ swap-other rows i j k (ground (arith, out)) (ground (arith, out))

-- What is in the range came from the range.
pub Rearranged-inside :
    (l r k : ℕ) {rows rows' : StreamArray}
    → l ≤ k
    → k ≤ r
    → Rearranged l r rows rows'
    → (m : ℕ) × (l ≤ m) × (m ≤ r) × (rows' k ≡ rows m)
Rearranged-inside l r k a b same = (k, a, b, refl)
Rearranged-inside l r k {rows = rows} a b (exchange i j li ir lj jr rest) =
    let (m, lm, mr, e) = Rearranged-inside l r k a b rest in
    elim (ℕ_discrete m j) [
      | yes mj ↦ (i, li, ir, e ∙ ap (swap rows i j) mj ∙ swap-right rows i j)
      | no nj ↦ elim (ℕ_discrete m i) [
        | yes mi ↦ (j, lj, jr, e ∙ ap (swap rows i j) mi ∙ swap-left rows i j)
        | no ni ↦ (m, lm, mr, e ∙ swap-other rows i j m ni nj)
      ]
    ]

pub lt_or_le : (i n : ℕ) → (i < n) ⊎ (n ≤ i)
lt_or_le i n = elim (Bool-cases (ltb i n)) [
  | inl e ↦ inl (ground arith)
  | inr e ↦ inr (ground arith)
]
