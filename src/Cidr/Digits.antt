-- ===== src/Cidr/Digits.antt =====
-- The two searches of other/bysin_cidr.c over the digits of the range's ends.
use native.Mathlib.Nat.{div-add-mod', div-one, mod-lt}
use examples.Common.{
  ℕ, zero, suc, ◌+◌, ◌*◌, ◌/◌, ◌%◌, ◌^◌, ◌≤◌, ◌<◌, ◌≡◌, ◌≢◌, ◌∙◌, inl, inr, refl, sym, ap, arith,
  ◌&&◌, true, false, some, ◌==◌, Bool-cases,
}
use examples.Cidr.{bit, high_bit, low_run}
use examples.Cidr.Bits.{pow_pos, pow_twice, div-pow_suc, mod-pow_suc, bit-digit}

-- The highest place at which the two numbers differ.
pub record Parting (i first last j : ℕ) : Type 0 where
  pub found : high_bit i first last ≡ some j
  pub within : j ≤ i
  pub above : first / 2 ^ suc j ≡ last / 2 ^ suc j
  pub first_zero : first / 2 ^ j % 2 ≡ 0
  pub last_one : last / 2 ^ j % 2 ≡ 1

next_multiple : (q d : ℕ) → (q + 1) * d ≡ q * d + d
next_multiple q d = grind arith

-- Two numbers with one half are told apart by their last digit.
same_digit :
    (i first last : ℕ)
    → first / 2 ^ suc i ≡ last / 2 ^ suc i
    → (bit first i == bit last i) ≡ true
    → first / 2 ^ i ≡ last / 2 ^ i
same_digit i first last above same =
    let digit : first / 2 ^ i % 2 ≡ last / 2 ^ i % 2 =
      ground (arith, bit-digit first i, bit-digit last i) in
    omega (arith, div-pow_suc first i, div-pow_suc last i)

not_above : (d first last : ℕ) → 0 < d → first < last → first / d ≢ last / d + 1
not_above d first last pos lt e =
    let more : first / d * d ≡ last / d * d + d =
      ap (λ (t : ℕ). t * d) e ∙ next_multiple (last / d) d in
    omega (arith, div-add-mod' first d, div-add-mod' last d, mod-lt last pos)

other_digit :
    (i first last : ℕ)
    → first < last
    → first / 2 ^ suc i ≡ last / 2 ^ suc i
    → (bit first i == bit last i) ≡ false
    → (first / 2 ^ i % 2 ≡ 0) × (last / 2 ^ i % 2 ≡ 1)
other_digit i first last lt above differ =
    let digit : first / 2 ^ i % 2 ≢ last / 2 ^ i % 2 =
      ground (arith, bit-digit first i, bit-digit last i) in
    let halves : first / 2 ^ i / 2 ≡ last / 2 ^ i / 2 =
      omega (arith, div-pow_suc first i, div-pow_suc last i) in
    let order : first / 2 ^ i ≢ last / 2 ^ i + 1 =
      λ e. not_above (2 ^ i) first last (pow_pos i) lt e in
    omega arith

pub high_bit-Parting :
    (i first last : ℕ)
    → first < last
    → first / 2 ^ suc i ≡ last / 2 ^ suc i
    → (j : ℕ) × Parting i first last j
unfolding high_bit
high_bit-Parting zero first last lt above = elim (Bool-cases (bit first 0 == bit last 0)) [
  | inl same ↦
      let e : first / 2 ^ 0 ≡ last / 2 ^ 0 = same_digit 0 first last above same in
      absurd (omega (arith, e, div-one first, div-one last))
  | inr differ ↦
      let (z, o) = other_digit 0 first last lt above differ in
      (
        0,
        record {
          found = rw differ refl;
          within = omega arith;
          above = above;
          first_zero = z;
          last_one = o;
        },
      )
]
high_bit-Parting (suc i) first last lt above =
    elim (Bool-cases (bit first (suc i) == bit last (suc i))) [
      | inl same ↦
          let (j, found) =
            high_bit-Parting i first last lt (same_digit (suc i) first last above same) in
          (
            j,
            record {
              found = rw same found.found;
              within = omega (arith, found.within);
              above = found.above;
              first_zero = found.first_zero;
              last_one = found.last_one;
            },
          )
      | inr differ ↦
          let (z, o) = other_digit (suc i) first last lt above differ in
          (
            suc i,
            record {
              found = rw differ refl;
              within = omega arith;
              above = above;
              first_zero = z;
              last_one = o;
            },
          )
    ]

pub div-pow_add :
    (k m first last : ℕ) → first / 2 ^ k ≡ last / 2 ^ k → first / 2 ^ (m + k) ≡ last / 2 ^ (m + k)
div-pow_add k zero first last e = rw (let z : 0 + k ≡ k = omega arith in z) e
div-pow_add k (suc m) first last e =
    let next : suc m + k ≡ suc (m + k) = omega arith in
    rw next (
      div-pow_suc first (m + k)
      ∙ ap (λ (t : ℕ). t / 2) (div-pow_add k m first last e)
      ∙ sym (div-pow_suc last (m + k)))

pub low_run-le : (r i first last : ℕ) → low_run r i first last ≤ r + i
unfolding low_run
low_run-le zero i first last = omega arith
low_run-le (suc r) i first last = ground (arith, low_run-le r (i + 1) first last)

-- Where the run reaches the end, the first number has zeros below and the last one has ones.
pub low_run_full :
    (r i first last : ℕ)
    → first % 2 ^ i ≡ 0
    → last % 2 ^ i + 1 ≡ 2 ^ i
    → low_run r i first last ≡ r + i
    → (first % 2 ^ (r + i) ≡ 0) × (last % 2 ^ (r + i) + 1 ≡ 2 ^ (r + i))
unfolding low_run
low_run_full zero i first last z o full = let e : 0 + i ≡ i = omega arith in rw e (z, o)
low_run_full (suc r) i first last z o full =
    elim (Bool-cases (bit first i == 0 && bit last i == 1)) [
      | inl on ↦
          let zero_bit : first / 2 ^ i % 2 ≡ 0 = ground (arith, bit-digit first i) in
          let one_bit : last / 2 ^ i % 2 ≡ 1 = ground (arith, bit-digit last i) in
          let next : suc r + i ≡ r + suc i = omega arith in
          let more : low_run r (suc i) first last ≡ r + suc i = rw (← next) (rw on at full) in
          let low : last / 2 ^ i % 2 * 2 ^ i ≡ 2 ^ i = rw one_bit (omega arith) in
          let none_low : first / 2 ^ i % 2 * 2 ^ i ≡ 0 = rw zero_bit (omega arith) in
          rw next (
            low_run_full r (suc i) first last (omega (arith, mod-pow_suc first i, none_low))
              (omega (arith, mod-pow_suc last i, low, pow_twice i)) more)
      | inr off ↦ absurd (let stop : i ≡ suc r + i = rw off at full in omega arith)
    ]
