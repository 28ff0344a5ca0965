-- ===== src/Streams/Sort/Settled.antt =====
-- What is in order while qsort runs: all but the ranges on its stack.
use os_x_generic_usb.Base.{
  ℕ, ◌+◌, ◌-◌, ◌≤◌, ◌<◌, ◌≡◌, refl, sym, ap, [], ◌∷◌, arith, inl, inr, ◌⊎◌, leb, if_cases, subst,
}
use os_x_generic_usb.Streams.Sort.{StreamMemory, StreamArray, Ranges, cut}
use os_x_generic_usb.Streams.Sort.Order.{
  IsLow, Rearranged, Rearranged-outside, Rearranged-inside, lt_or_le,
}
use os_x_generic_usb.Streams.Sort.Pending.{ApartFrom, Ready}

-- Both indices lie in one of the ranges.
unfoldable pub Together : ℕ → ℕ → Ranges → Type 0
Together i j [] = ⊥
Together i j ((l, r) ∷ rest) = ((l ≤ i) × (i ≤ r) × (l ≤ j) × (j ≤ r)) ⊎ Together i j rest

-- The rings with numbers from 1 to `n` are in order, but for two that are still to be sorted.
abbrev pub Settled : ℕ → StreamArray → Ranges → Type 0
Settled n rows ranges =
    (i j : ℕ)
    → 1 ≤ i
    → i < j
    → j ≤ n
    → Together i j ranges ⊎ ((rows i).phys_addr ≤ (rows j).phys_addr)

ApartFrom-left :
    (l r i j : ℕ) (ranges : Ranges) → l ≤ i → i ≤ r → ApartFrom l r ranges → ¬ (Together i j ranges)
unfolding ApartFrom Together
ApartFrom-left l r i j [] a b h t = elim t [ ]
ApartFrom-left l r i j ((l', r') ∷ rest) a b h (inl t) = ground (arith, h.0, t)
ApartFrom-left l r i j ((l', r') ∷ rest) a b h (inr t) = ApartFrom-left l r i j rest a b h.1 t

ApartFrom-right :
    (l r i j : ℕ) (ranges : Ranges) → l ≤ j → j ≤ r → ApartFrom l r ranges → ¬ (Together i j ranges)
unfolding ApartFrom Together
ApartFrom-right l r i j [] a b h t = elim t [ ]
ApartFrom-right l r i j ((l', r') ∷ rest) a b h (inl t) = ground (arith, h.0, t)
ApartFrom-right l r i j ((l', r') ∷ rest) a b h (inr t) = ApartFrom-right l r i j rest a b h.1 t

-- Addresses in the lower half, and aligned.
abbrev pub AllLow : ℕ → StreamArray → Type 0
AllLow n rows = (i : ℕ) → 1 ≤ i → i ≤ n → IsLow (rows i).phys_addr

pub AllLow-kept :
    (n : ℕ) (rows rows' : StreamArray) → Rearranged 1 n rows rows' → AllLow n rows → AllLow n rows'
AllLow-kept n rows rows' p low i a b =
    let (m, am, bm, e) = Rearranged-inside 1 n i a b p in
    subst (λ (x : StreamMemory). IsLow x.phys_addr) (sym e) (low m am bm)

-- The two parts of a range and the ranges below them, in the order that cut puts them.
cut-Together :
    (i j l r at : ℕ) (rest : Ranges)
    → ((l ≤ i) × (i ≤ at) × (l ≤ j) × (j ≤ at))
      ⊎ (((at + 1 ≤ i) × (i ≤ r) × (at + 1 ≤ j) × (j ≤ r)) ⊎ Together i j rest)
    → Together i j (cut l r at rest)
unfolding cut Together
cut-Together i j l r at rest t =
    if_cases (Together i j) (leb (r - at) (at + 1 - l)) _ _
      (λ small. elim t [ inl a ↦ inr (inl a) | inr (inl b) ↦ inl b | inr (inr c) ↦ inr (inr c) ])
      (λ small. elim t [ inl a ↦ inl a | inr (inl b) ↦ inr (inl b) | inr (inr c) ↦ inr (inr c) ])

module _ (n l r : ℕ) (rest : Ranges) (rows rows' : StreamArray) (h : Ready n ((l, r) ∷ rest))
    (p : Rearranged l r rows rows') (s : Settled n rows ((l, r) ∷ rest)) where
  -- Where a ring was before.
  origin :
      (k : ℕ)
      → (m : ℕ) × (rows' k ≡ rows m)
        × (((l ≤ k) × (k ≤ r) × (l ≤ m) × (m ≤ r)) ⊎ ((m ≡ k) × ((k < l) ⊎ (r < k))))
  origin k = elim (lt_or_le k l) [
    | inl lt ↦ (k, Rearranged-outside l r k (inl lt) p, inr (refl, inl lt))
    | inr ge ↦ elim (lt_or_le r k) [
      | inl gt ↦ (k, Rearranged-outside l r k (inr gt) p, inr (refl, inr gt))
      | inr le ↦ let (m, a, b, e) = Rearranged-inside l r k ge le p in (m, e, inl (ge, le, a, b))
    ]
  ]

  -- Two rings that are not both in the range keep their order.
  across :
      (i j : ℕ)
      → 1 ≤ i
      → i < j
      → j ≤ n
      → ((i < l) ⊎ (r < j))
      → Together i j rest ⊎ ((rows' i).phys_addr ≤ (rows' j).phys_addr)
  unfolding Ready Together
  across i j one lt jn out =
      let (a, ea, ca) = origin i in
      let (b, eb, cb) = origin j in
      let pa = ap (λ (m : StreamMemory). m.phys_addr) ea in
      let pb = ap (λ (m : StreamMemory). m.phys_addr) eb in
      let in_order : a < b = ground (arith, h, ca, cb, out) in
      let first : 1 ≤ a = ground (arith, h, ca) in
      let last : b ≤ n = ground (arith, h, cb) in
      elim (s a b first in_order last) [
        | inr le ↦ inr (omega (arith, pa, pb))
        | inl (inl both) ↦ absurd (ground (arith, both, ca, cb, out))
        | inl (inr t) ↦ elim ca [
          | inl ia ↦ absurd (ApartFrom-left l r a b rest ia.2 ia.3 h.4 t)
          | inr oa ↦ elim cb [
            | inl ib ↦ absurd (ApartFrom-right l r a b rest ib.2 ib.3 h.4 t)
            | inr ob ↦ inl (
                subst (λ (m : ℕ). Together m j rest) oa.0
                  (subst (λ (m : ℕ). Together a m rest) ob.0 t))
          ]
        ]
      ]

  -- After a range was cut between addresses that are not above the pivot's and others that are not below
  -- it, what is not in one of the parts is in order.
  pub cut-Settled :
      (v at : ℕ)
      → ((i : ℕ) → l ≤ i → i ≤ at → (rows' i).phys_addr ≤ v)
      → ((i : ℕ) → at < i → i ≤ r → v ≤ (rows' i).phys_addr)
      → Settled n rows' (cut l r at rest)
  cut-Settled v at lows highs i j one lt jn =
      let new = cut-Together i j l r at rest in
      let outside : ((i < l) ⊎ (r < j))
          → Together i j (cut l r at rest) ⊎ ((rows' i).phys_addr ≤ (rows' j).phys_addr) =
        λ out. elim (across i j one lt jn out) [
          | inl t ↦ inl (new (inr (inr t)))
          | inr le ↦ inr le
        ] in
      elim (lt_or_le i l) [
        | inl il ↦ outside (inl il)
        | inr li ↦ elim (lt_or_le r j) [
          | inl rj ↦ outside (inr rj)
          | inr jr ↦ elim (lt_or_le at i) [
            | inl ai ↦ inl (new (inr (inl (omega arith, omega arith, omega arith, jr))))
            | inr ia ↦ elim (lt_or_le at j) [
              | inl aj ↦ let x = lows i li ia in let y = highs j aj jr in inr (omega arith)
              | inr ja ↦ inl (new (inl (li, ia, omega arith, ja)))
            ]
          ]
        ]
      ]

-- A range of one ring is sorted.
pub popped-Settled :
    (n l r : ℕ) (rest : Ranges) (rows : StreamArray)
    → r ≤ l
    → Settled n rows ((l, r) ∷ rest)
    → Settled n rows rest
unfolding Together
popped-Settled n l r rest rows small s i j one lt jn = elim (s i j one lt jn) [
  | inl (inl both) ↦ absurd (omega (arith, both))
  | inl (inr t) ↦ inl t
  | inr le ↦ inr le
]

-- When nothing is left, the rings are in order.
pub nothing_left :
    (n : ℕ) (rows : StreamArray) (i j : ℕ)
    → 1 ≤ i
    → i < j
    → j ≤ n
    → Settled n rows []
    → (rows i).phys_addr ≤ (rows j).phys_addr
unfolding Together
nothing_left n rows i j one lt jn s = elim (s i j one lt jn) [ inl t ↦ absurd t | inr le ↦ le ]
