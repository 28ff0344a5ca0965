-- ===== src/Streams/Sort/Scan.antt =====
-- Where the two scans of partition of Streams.cpp stop.
use native.Mathlib.Decide.{ℕ_discrete}
use os_x_generic_usb.Base.{
  ℕ, zero, suc, ◌+◌, ◌≤◌, ◌<◌, ◌≡◌, sym, Bool, true, false, arith, leb, ◌&&◌, if_cases, subst,
}
use os_x_generic_usb.Streams.Sort.{StreamArray, is_above, scan_down, scan_up}

-- The ring's address is above the pivot's.
abbrev pub above_at : StreamArray → ℕ → ℕ → Bool
above_at rows v i = is_above (rows i).phys_addr v

pub record Down (rows : StreamArray) (v l r d : ℕ) : Type 0 where
  pub not_under : l ≤ d + 1
  pub not_over : d ≤ r
  pub passed : (i : ℕ) → d < i → i ≤ r → above_at rows v i ≡ true
  pub stopped : l ≤ d → above_at rows v d ≡ false

pub scan_down-Down :
    (rows : StreamArray) (v l r : ℕ) → 1 ≤ l → l ≤ r + 1 → Down rows v l r (scan_down rows v l r)
unfolding scan_down
scan_down-Down rows v l zero one le = record {
  not_under = omega arith;
  not_over = omega arith;
  passed = λ i a b. absurd (omega arith);
  stopped = λ a. absurd (omega arith);
}
scan_down-Down rows v l (suc r) one le =
    let later : l ≤ r + 1 → Down rows v l r (scan_down rows v l r) =
      λ e. scan_down-Down rows v l r one e in
    if_cases (Down rows v l (suc r)) (leb l (suc r) && is_above (rows (suc r)).phys_addr v) _ _
      (λ go.
        let k = later (ground arith) in
        record {
          not_under = k.not_under;
          not_over = omega (arith, k.not_over);
          passed = λ i a b. elim (ℕ_discrete i (suc r)) [
            | yes e ↦ subst (λ (j : ℕ). above_at rows v j ≡ true) (sym e) (ground arith)
            | no ne ↦ k.passed i a (omega arith)
          ];
          stopped = k.stopped;
        })
      (λ stop. record {
        not_under = omega arith;
        not_over = omega arith;
        passed = λ i a b. absurd (omega arith);
        stopped = λ a. ground arith;
      })

pub record Up (rows : StreamArray) (v l n u : ℕ) : Type 0 where
  pub not_under : l ≤ u
  pub not_over : u ≤ l + n
  pub passed : (i : ℕ) → l ≤ i → i < u → above_at rows v i ≡ false
  pub stopped : u < l + n → above_at rows v u ≡ true

pub scan_up-Up : (n : ℕ) (rows : StreamArray) (v l : ℕ) → Up rows v l n (scan_up n rows v l)
unfolding scan_up
scan_up-Up zero rows v l = record {
  not_under = omega arith;
  not_over = omega arith;
  passed = λ i a b. absurd (omega arith);
  stopped = λ a. absurd (omega arith);
}
scan_up-Up (suc n) rows v l =
    let k = scan_up-Up n rows v (l + 1) in
    if_cases (Up rows v l (suc n)) (is_above (rows l).phys_addr v) _ _
      (λ stop. record {
        not_under = omega arith;
        not_over = omega arith;
        passed = λ i a b. absurd (omega arith);
        stopped = λ a. stop;
      })
      (λ go. record {
        not_under = omega (arith, k.not_under);
        not_over = omega (arith, k.not_over);
        passed = λ i a b. elim (ℕ_discrete i l) [
          | yes e ↦ subst (λ (j : ℕ). above_at rows v j ≡ false) (sym e) go
          | no ne ↦ k.passed i (omega arith) b
        ];
        stopped = λ a. k.stopped (omega arith);
      })
