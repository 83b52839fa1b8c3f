-- ===== src/Cidr.antt =====
-- other/bysin_cidr.c: the prefixes that cover a range of addresses. Addresses are numbers below
-- 2 ^ 32 in an `unsigned long` of 64 bits; what is printed is the list of prefixes.
pub mod Bits
pub mod Digits
pub mod Halves
pub mod Power
pub mod Tiles
use Prim.Native.Nat.{bit_and, bit_or}
use examples.Common.{
  ℕ, zero, suc, ◌+◌, ◌-◌, ◌*◌, ◌/◌, ◌%◌, ◌^◌, ◌&&◌, Option, none, some, List, [], ◌∷◌, ◌++◌, ltb,
  leb, ◌==◌, if◌then◌else◌,
}

-- x to the n modulo 2 ^ 32, by squaring. As many rounds as `n` are enough.
unfoldable pub mpow_loop : (fuel x n : ℕ) → ℕ
mpow_loop zero x n = 1
mpow_loop (suc fuel) x n =
    let odd = x * mpow_loop fuel x (n - 1) % 2 ^ 32 in
    let even = mpow_loop fuel (x * x % 2 ^ 32) (n / 2) in
    if n == 0 then 1 else if n % 2 == 1 then odd else even

unfoldable pub mpow : (x n : ℕ) → ℕ
unfolding mpow_loop
mpow x n = mpow_loop n x n

-- !!(x & (1 << pos))
unfoldable pub bit : (x pos : ℕ) → ℕ
bit x pos = if bit_and x (2 ^ pos) == 0 then 0 else 1

-- while (bit (first, idx1) == bit (last, idx1)) idx1--; below bit 0 the count wraps round, and the
-- shift by it is undefined.
unfoldable pub high_bit : (idx1 first last : ℕ) → Option ℕ
high_bit zero first last = if bit first 0 == bit last 0 then none else some 0
high_bit (suc idx1) first last =
    let rest = high_bit idx1 first last in
    if bit first (suc idx1) == bit last (suc idx1) then rest else some (suc idx1)

-- while (idx2 <= idx1 && bit (first, idx2) == 0 && bit (last, idx2) == 1) idx2++; `rounds` is
-- idx1 + 1 - idx2.
unfoldable pub low_run : (rounds idx2 first last : ℕ) → ℕ
low_run zero idx2 first last = idx2
low_run (suc rounds) idx2 first last =
    let rest = low_run rounds (suc idx2) first last in
    if bit first idx2 == 0 && bit last idx2 == 1 then rest else idx2

-- `%s/%d`
pub record Prefix : Type 0 where
  pub address : ℕ
  pub bits : ℕ

abbrev pub both : Option (List Prefix) → Option (List Prefix) → Option (List Prefix)
both (some a) (some b) = some (a ++ b)
both (some a) none = none
both none b = none

-- (first >> idx1+1) << idx1+1, in an `unsigned int`.
unfoldable pub prefix_of : (first idx1 : ℕ) → ℕ
prefix_of first idx1 = first / 2 ^ suc idx1 * 2 ^ suc idx1 % 2 ^ 32

unfoldable pub cidr : (fuel first last : ℕ) → Option (List Prefix)
cidr zero first last = none
cidr (suc fuel) first last =
    let block = elim (high_bit 31 first last) as (λ _. Option (List Prefix)) [
      | none ↦ none
      | some idx1 ↦
          let prefix = prefix_of first idx1 in
          let lower = cidr fuel first (bit_or prefix (mpow 2 idx1 - 1)) in
          let upper = cidr fuel (bit_or prefix (2 ^ idx1)) last in
          let idx2 = low_run (suc idx1) 0 first last in
          if leb idx2 idx1
          then both lower upper
          else some (record { address = prefix; bits = 32 - idx2 } ∷ [])
    ] in
    if ltb first last then block else some (record { address = first; bits = 32 } ∷ [])
