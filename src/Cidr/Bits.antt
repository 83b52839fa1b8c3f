-- ===== src/Cidr/Bits.antt =====
-- Laws of the shifts and masks of other/bysin_cidr.c.
use Prim.Native.Nat.{bit_and, bit_or, min, max, digits, bit_and-bitwise, bit_or-bitwise}
use native.Mathlib.Nat.{
  two-pow-succ, div-div-eq-div-mul, one-le-pow, div-add-mod', pow-suc, mul_comm,
}
use examples.Common.{
  ℕ, zero, suc, ◌+◌, ◌*◌, ◌/◌, ◌%◌, ◌^◌, ◌≤◌, ◌<◌, ◌≡◌, ◌∙◌, ◌⊎◌, inl, inr, refl, sym, ap, arith,
}
use examples.Cidr.{bit}

-- An operation that works digit by digit, with `z` for what is left of the second number once the
-- first has no digits.
module _ (z : ℕ → ℕ) (op : ℕ → ℕ → ℕ) where
  -- A number of rounds that reaches the value of the first number makes no difference.
  rounds_alike :
      (rounds rounds' x y : ℕ)
      → x ≤ rounds
      → x ≤ rounds'
      → digits z op rounds x y ≡ digits z op rounds' x y
  rounds_alike zero zero zero y le le' = refl
  rounds_alike zero (suc r') zero y le le' = refl
  rounds_alike (suc r) zero zero y le le' = refl
  rounds_alike (suc r) (suc r') zero y le le' = refl
  rounds_alike zero r' (suc x) y le le' = absurd (omega arith)
  rounds_alike (suc r) zero (suc x) y le le' = absurd (omega arith)
  rounds_alike (suc r) (suc r') (suc x) y le le' =
      ap (λ (t : ℕ). t * 2 + op (suc x % 2) (y % 2))
        (rounds_alike r r' (suc x / 2) (y / 2) (omega arith) (omega arith))

  lowest_digit :
      (w : ℕ → ℕ → ℕ)
      → ((x y : ℕ) → w x y ≡ digits z op x x y)
      → ((y : ℕ) → z y ≡ z (y / 2) * 2 + op 0 (y % 2))
      → (x y : ℕ) → w x y ≡ w (x / 2) (y / 2) * 2 + op (x % 2) (y % 2)
  lowest_digit w run bare zero y = omega (arith, run 0 y, run 0 (y / 2), bare y)
  lowest_digit w run bare (suc x) y =
      let fewer = rounds_alike x (suc x / 2) (suc x / 2) (y / 2) (omega arith) (omega arith) in
      omega (arith, run (suc x) y, run (suc x / 2) (y / 2), fewer)

pub and_low : (x y : ℕ) → bit_and x y ≡ bit_and (x / 2) (y / 2) * 2 + min (x % 2) (y % 2)
and_low = lowest_digit (λ y. 0) min bit_and bit_and-bitwise (λ y. ground arith)

or_low : (x y : ℕ) → bit_or x y ≡ bit_or (x / 2) (y / 2) * 2 + max (x % 2) (y % 2)
or_low = lowest_digit (λ y. y) max bit_or bit_or-bitwise (λ y. ground arith)

-- A bound on the number keeps the recursion structural.
and_nothing : (bound x : ℕ) → x ≤ bound → bit_and x 0 ≡ 0
and_nothing bound zero le = bit_and-bitwise 0 0
and_nothing zero (suc x) le = absurd (omega arith)
and_nothing (suc bound) (suc x) le =
    let rest = and_nothing bound (suc x / 2) (omega arith) in omega (arith, and_low (suc x) 0, rest)

or_nothing : (bound x : ℕ) → x ≤ bound → bit_or x 0 ≡ x
or_nothing bound zero le = bit_or-bitwise 0 0
or_nothing zero (suc x) le = absurd (omega arith)
or_nothing (suc bound) (suc x) le =
    let rest = or_nothing bound (suc x / 2) (omega arith) in omega (arith, or_low (suc x) 0, rest)

digit-cases : (q : ℕ) → (q % 2 ≡ 0) ⊎ (q % 2 ≡ 1)
digit-cases q = ground arith

pub pow_pos : (i : ℕ) → 0 < 2 ^ i
pow_pos i = one-le-pow i 2 (omega arith)

pub pow_twice : (i : ℕ) → 2 ^ suc i ≡ 2 ^ i + 2 ^ i
pow_twice i = two-pow-succ i

pub div-pow_suc : (x i : ℕ) → x / 2 ^ suc i ≡ x / 2 ^ i / 2
div-pow_suc x i = ap (λ (t : ℕ). x / t) (pow-suc 2 i) ∙ sym (div-div-eq-div-mul x (2 ^ i) 2)

pub div-half_pow : (x i : ℕ) → x / 2 / 2 ^ i ≡ x / 2 ^ i / 2
div-half_pow x i =
    div-div-eq-div-mul x 2 (2 ^ i)
    ∙ ap (λ (t : ℕ). x / t) (mul_comm 2 (2 ^ i))
    ∙ sym (div-div-eq-div-mul x (2 ^ i) 2)

pub double : (q d : ℕ) → q * (d + d) ≡ q * d + q * d
double q d = grind arith

distribute : (a b d : ℕ) → (a + a + b) * d ≡ a * (d + d) + b * d
distribute a b d = grind arith

split_half : (q d : ℕ) → q * d ≡ q / 2 * (d + d) + q % 2 * d
split_half q d =
    let digits_of : q ≡ q / 2 + q / 2 + q % 2 = omega arith in
    ap (λ (t : ℕ). t * d) digits_of ∙ distribute (q / 2) (q % 2) d

-- The digit at place i, and what is below it.
pub mod-pow_suc : (x i : ℕ) → x % 2 ^ suc i ≡ x % 2 ^ i + x / 2 ^ i % 2 * 2 ^ i
mod-pow_suc x i =
    let whole : x / 2 ^ i / 2 * (2 ^ i + 2 ^ i) + x % 2 ^ suc i ≡ x =
      rw (← div-pow_suc x i, ← pow_twice i) (div-add-mod' x (2 ^ suc i)) in
    omega (arith, whole, div-add-mod' x (2 ^ i), split_half (x / 2 ^ i) (2 ^ i))

bit_and-pow : (i x : ℕ) → bit_and x (2 ^ i) ≡ x / 2 ^ i % 2 * 2 ^ i
bit_and-pow zero x = omega (arith, and_low x 1, and_nothing (x / 2) (x / 2) (omega arith))
bit_and-pow (suc i) x =
    let half : 2 ^ suc i / 2 ≡ 2 ^ i = omega (arith, pow_twice i) in
    let even : 2 ^ suc i % 2 ≡ 0 = omega (arith, pow_twice i) in
    let low : min (x % 2) (2 ^ suc i % 2) ≡ 0 = rw even (ground arith) in
    let rest : bit_and (x / 2) (2 ^ suc i / 2) ≡ x / 2 ^ suc i % 2 * 2 ^ i = rw half (
      bit_and-pow i (x / 2)
      ∙ ap (λ (t : ℕ). t % 2 * 2 ^ i) (div-half_pow x i ∙ sym (div-pow_suc x i))) in
    omega (
      arith,
      and_low x (2 ^ suc i),
      low,
      rest,
      pow_twice i,
      ap (λ (t : ℕ). x / 2 ^ suc i % 2 * t) (pow_twice i),
    )

pub bit-digit : (x i : ℕ) → bit x i ≡ x / 2 ^ i % 2
unfolding bit
bit-digit x i = elim (digit-cases (x / 2 ^ i)) [
  | inl z ↦ rw (bit_and-pow i x, z) (ground arith)
  | inr o ↦ rw (bit_and-pow i x, o) (ground (arith, pow_pos i))
]

pub bit_or-below : (i q y : ℕ) → y < 2 ^ i → bit_or (q * 2 ^ i) y ≡ q * 2 ^ i + y
bit_or-below zero q y h =
    let none_left : y ≡ 0 = omega arith in
    rw none_left (or_nothing (q * 1) (q * 1) (omega arith) ∙ omega arith)
bit_or-below (suc i) q y h =
    let twice : q * 2 ^ suc i ≡ q * 2 ^ i + q * 2 ^ i =
      ap (λ (t : ℕ). q * t) (pow_twice i) ∙ double q (2 ^ i) in
    let half : q * 2 ^ suc i / 2 ≡ q * 2 ^ i = omega (arith, twice) in
    let even : q * 2 ^ suc i % 2 ≡ 0 = omega (arith, twice) in
    let low : max (q * 2 ^ suc i % 2) (y % 2) ≡ y % 2 = rw even (ground arith) in
    let rest : bit_or (q * 2 ^ suc i / 2) (y / 2) ≡ q * 2 ^ i + y / 2 =
      rw half (bit_or-below i q (y / 2) (omega (arith, pow_twice i))) in
    omega (arith, or_low (q * 2 ^ suc i) y, low, rest, twice)
