-- ===== src/Cidr/Halves.antt =====
-- The two halves into which other/bysin_cidr.c splits a range.
use native.Mathlib.Nat.{mod-eq_of_lt, div-add-mod', mod-lt, div-eq_of_lt-le, pow-le-pow_right}
use examples.Common.{ℕ, suc, ◌+◌, ◌-◌, ◌*◌, ◌/◌, ◌%◌, ◌^◌, ◌≤◌, ◌<◌, ◌≡◌, ◌∙◌, sym, ap, arith}
use examples.Cidr.Power.{mpow_lem}
use examples.Cidr.Digits.{Parting}
use examples.Cidr.{mpow, prefix_of, bit_or}
use examples.Cidr.Bits.{bit_or-below, pow_pos, pow_twice, mod-pow_suc}

next_multiple : (q d : ℕ) → (q + 1) * d ≡ q * d + d
next_multiple q d = grind arith

same_part : (k d x y : ℕ) → k * d ≤ x → x < k * d + d → k * d ≤ y → y < k * d + d → x / d ≡ y / d
same_part k d x y a b a' b' =
    div-eq_of_lt-le d a (rw (next_multiple k d) b)
    ∙ sym (div-eq_of_lt-le d a' (rw (next_multiple k d) b'))

prefix_of-multiple :
    (first j : ℕ) → first < 2 ^ 32 → prefix_of first j ≡ first / 2 ^ suc j * 2 ^ suc j
unfolding prefix_of
prefix_of-multiple first j wide = mod-eq_of_lt (
    let h : first / 2 ^ suc j * 2 ^ suc j < 2 ^ 32 =
      omega (arith, div-add-mod' first (2 ^ suc j)) in
    h)

mpow_two : (j : ℕ) → j ≤ 31 → mpow 2 j ≡ 2 ^ j
mpow_two j small =
    let below : 2 ^ j ≤ 2 ^ 31 = pow-le-pow_right (omega arith) small in
    mpow_lem 2 j ∙ mod-eq_of_lt (let h : 2 ^ j < 2 ^ 32 = omega arith in h)

double : (q d : ℕ) → (q + q) * d ≡ q * (d + d)
double q d = grind arith

multiple_of_half : (q d s : ℕ) → s ≡ d + d → (q + q) * d ≡ q * s
multiple_of_half q d s e = double q d ∙ ap (λ (t : ℕ). q * t) (sym e)

-- What the split at place `j` says of the two ends, with the size of a half.
pub record Halves (first last j : ℕ) : Type 0 where
  pub lower_end : bit_or (prefix_of first j) (mpow 2 j - 1) ≡ prefix_of first j + 2 ^ j - 1
  pub upper_start : bit_or (prefix_of first j) (2 ^ j) ≡ prefix_of first j + 2 ^ j
  pub first_from : prefix_of first j ≤ first
  pub first_below : first < prefix_of first j + 2 ^ j
  pub last_from : prefix_of first j + 2 ^ j ≤ last
  pub last_below : last < prefix_of first j + 2 ^ j + 2 ^ j
  pub prefix_first : first % 2 ^ suc j ≡ 0 → prefix_of first j ≡ first
  pub prefix_last : last % 2 ^ suc j + 1 ≡ 2 ^ suc j → last + 1 ≡ prefix_of first j + 2 ^ suc j
  pub agree_lower : first / 2 ^ j ≡ (prefix_of first j + 2 ^ j - 1) / 2 ^ j
  pub agree_upper : (prefix_of first j + 2 ^ j) / 2 ^ j ≡ last / 2 ^ j

pub Parting-Halves :
    (i first last j : ℕ)
    → i ≤ 31
    → last < 2 ^ 32
    → first < last
    → Parting i first last j
    → Halves first last j
Parting-Halves i first last j small wide lt sp =
    let d = 2 ^ j in
    let s = 2 ^ suc j in
    let q = first / s in
    let p : prefix_of first j ≡ q * s = prefix_of-multiple first j (omega arith) in
    let twice : s ≡ d + d = pow_twice j in
    let pos : 0 < d = pow_pos j in
    let low : first / d % 2 * d ≡ 0 = rw sp.first_zero (omega arith) in
    let high : last / d % 2 * d ≡ d = rw sp.last_one (omega arith) in
    let rest : first % s ≡ first % d = omega (arith, mod-pow_suc first j, low) in
    let rest_last : last % s ≡ last % d + d = omega (arith, mod-pow_suc last j, high) in
    let whole : q * s + first % s ≡ first = div-add-mod' first s in
    let whole_last : q * s + last % s ≡ last = rw sp.above (div-add-mod' last s) in
    let below : first % d < d = mod-lt first pos in
    let below_last : last % d < d = mod-lt last pos in
    let halves : (q + q) * d ≡ q * s = multiple_of_half q d s twice in
    let upper : (q + q + 1) * d ≡ q * s + d =
      next_multiple (q + q) d ∙ ap (λ (t : ℕ). t + d) halves in
    record {
      lower_end =
          rw (p, mpow_two j (omega (arith, sp.within)))
            (bit_or-below (suc j) q (d - 1) (omega arith) ∙ omega arith);
      upper_start = rw p (bit_or-below (suc j) q d (omega arith));
      first_from = omega arith;
      first_below = omega arith;
      last_from = omega arith;
      last_below = omega arith;
      prefix_first = λ z. omega arith;
      prefix_last = λ o. omega arith;
      agree_lower =
          same_part (q + q) d first (prefix_of first j + d - 1) (omega arith) (omega arith)
            (omega arith) (omega arith);
      agree_upper =
          same_part (q + q + 1) d (prefix_of first j + d) last (omega (arith, upper))
            (omega (arith, upper)) (omega (arith, upper)) (omega (arith, upper));
    }
