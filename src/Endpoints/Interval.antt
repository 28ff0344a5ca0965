-- ===== src/Endpoints/Interval.antt =====
-- The interval of an interrupt endpoint is the longest power of two that is not above what is asked for.
use os_x_generic_usb.Base.{
  ℕ, zero, suc, ◌+◌, ◌-◌, ◌*◌, ◌/◌, ◌^◌, ◌≤◌, ◌<◌, ◌≡◌, ◌⊎◌, refl, sym, subst, ne→==, some, false,
  arith, ltb, inl, inr, Bool-cases, pos,
}
use os_x_generic_usb.Endpoints.{log2, clz, interval_exponent}

two_power : (k : ℕ) → 2 ^ suc k ≡ 2 * 2 ^ k
two_power k = omega arith

log2_bounds :
    (fuel n : ℕ) → 0 < n → n < 2 ^ suc fuel → (2 ^ log2 fuel n ≤ n) × (n < 2 ^ suc (log2 fuel n))
unfolding log2
log2_bounds zero n some_bits small = ground arith
log2_bounds (suc fuel) n some_bits small = elim (Bool-cases (ltb n 2)) [
  | inl e ↦ rw e (omega arith, ground arith)
  | inr e ↦
      let h = log2_bounds fuel (n / 2) (ground arith) (ground (arith, two_power (suc fuel))) in
      rw e (
        ground (arith, two_power (log2 fuel (n / 2)), h.0),
        ground (arith, two_power (suc (log2 fuel (n / 2))), h.1),
      )
]

power_large : (k : ℕ) → 512 ≤ 2 ^ (k + 9)
power_large zero = omega arith
power_large (suc k) =
    let e : suc k + 9 ≡ suc (k + 9) = omega arith in
    subst (λ (m : ℕ). 512 ≤ 2 ^ m) (sym e) (omega (arith, power_large k, two_power (k + 9)))

log2_small : (fuel n : ℕ) → log2 fuel n ≤ fuel
unfolding log2
log2_small zero n = omega arith
log2_small (suc fuel) n = ground (arith, log2_small fuel (n / 2))

the_index : (l : ℕ) → 9 ≤ l → l - 9 + 9 ≡ l
the_index l le = omega arith

-- For a device of low or full speed and a polling rate in milliseconds from 1 to 2 ^ 15 - 1, the
-- interval of an interrupt endpoint is at least 8 microframes and at most 2 ^ 11, and not longer than
-- the rate; twice the interval is longer, unless it is 2 ^ 11.
pub interval_exponent_fits :
    (rate : ℕ)
    → 0 < rate
    → rate < 2 ^ 15
    → (e : ℕ) × (interval_exponent false (pos rate) ≡ some e)
      × (3 ≤ e)
      × (e ≤ 11)
      × (2 ^ e ≤ 8 * rate)
      × (8 * rate < 2 ^ suc e ⊎ (e ≡ 11))
unfolding interval_exponent clz
interval_exponent_fits rate some_rate small =
    let l = log2 31 rate in
    let (below, above) = log2_bounds 31 rate some_rate (omega arith) in
    let three : 34 - (31 - l) ≡ suc (suc (suc l)) = omega (arith, log2_small 31 rate) in
    let times_8 : 2 ^ suc (suc (suc l)) ≡ 8 * 2 ^ l =
      omega (arith, two_power l, two_power (suc l), two_power (suc (suc l))) in
    let next : 2 ^ suc (suc (suc (suc l))) ≡ 8 * 2 ^ suc l = omega (
      arith,
      two_power l,
      two_power (suc l),
      two_power (suc (suc l)),
      two_power (suc (suc (suc l))),
    ) in
    elim (Bool-cases (ltb 11 (34 - (31 - l)))) [
      | inl cap ↦
          let large : 512 ≤ 2 ^ l =
            subst (λ (k : ℕ). 512 ≤ 2 ^ k) (the_index l (ground arith)) (power_large (l - 9)) in
          (
            11,
            rw (ne→== rate 0 (omega arith), interval_exponent, clz, cap) refl,
            omega arith,
            omega arith,
            omega arith,
            inr refl,
          )
      | inr free ↦ (
        suc (suc (suc l)),
        rw (ne→== rate 0 (omega arith), interval_exponent, clz, free, three) refl,
        omega arith,
        ground arith,
        omega arith,
        inl (omega arith),
      )
    ]
