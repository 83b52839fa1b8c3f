-- ===== src/Cidr/Tiles.antt =====
-- What other/bysin_cidr.c prints covers the range and nothing else.
use native.Mathlib.Nat.{div-eq_of_lt}
use examples.Common.{
  ℕ, zero, suc, ◌+◌, ◌-◌, ◌/◌, ◌%◌, ◌^◌, ◌≤◌, ◌<◌, ◌≡◌, ◌∙◌, inl, inr, refl, sym, ap, arith, true,
  false, some, List, [], ◌∷◌, ◌++◌, Bool-cases,
}
use examples.Cidr.Halves.{Halves, Parting-Halves}
use examples.Cidr.Digits.{Parting, high_bit-Parting, div-pow_add, low_run-le, low_run_full}
use examples.Cidr.{leb, ltb, prefix_of, cidr, Prefix, low_run}
use examples.Cidr.Bits.{pow_pos}

-- The blocks of the prefixes lie side by side from the first address on, each at a multiple of its
-- size, and end in front of the second.
abbrev pub Tiles : ℕ → List Prefix → ℕ → Type 0
Tiles a [] b = a ≡ b
Tiles a (p ∷ ps) b =
    (p.address ≡ a)
    × (p.bits ≤ 32)
    × (a % 2 ^ (32 - p.bits) ≡ 0)
    × Tiles (a + 2 ^ (32 - p.bits)) ps b

Tiles-append :
    (a b c : ℕ) (xs ys : List Prefix) → Tiles a xs b → Tiles b ys c → Tiles a (xs ++ ys) c
Tiles-append a b c [] ys t u = rw t u
Tiles-append a b c (p ∷ xs) ys (e, l, m, t) u =
    (e, l, m, Tiles-append (a + 2 ^ (32 - p.bits)) b c xs ys t u)

agree_top : (first last : ℕ) → first < last → last < 2 ^ 32 → first / 2 ^ 32 ≡ last / 2 ^ 32
agree_top first last lt wide =
    div-eq_of_lt (let h : first < 2 ^ 32 = omega arith in h) ∙ sym (div-eq_of_lt wide)

-- The ends differ at a place below those from which on they agree.
below_agreement :
    (j k first last : ℕ)
    → first / 2 ^ j % 2 ≡ 0
    → last / 2 ^ j % 2 ≡ 1
    → first / 2 ^ k ≡ last / 2 ^ k
    → j < k
below_agreement j k first last z o agree = elim (Bool-cases (ltb j k)) [
  | inl below ↦ ground arith
  | inr above ↦
      let place : (j - k) + k ≡ j = ground arith in
      let e = div-pow_add k (j - k) first last agree in
      let same : first / 2 ^ j ≡ last / 2 ^ j = rw place at e in
      absurd (omega (arith, ap (λ (t : ℕ). t % 2) same))
]

-- The range is printed, and what is printed covers it.
abbrev Covered : (fuel first last : ℕ) → Type 0
Covered fuel first last =
    (out : List Prefix) × (cidr fuel first last ≡ some out) × Tiles first out (last + 1)

cidr_one : (fuel first last : ℕ) → first ≡ last → Covered (suc fuel) first last
unfolding cidr
cidr_one fuel first last e =
    let same : ltb first last ≡ false = ground arith in
    (
      record { address = first; bits = 32 } ∷ [],
      rw same refl,
      (refl, omega arith, omega arith, omega arith),
    )

-- The whole block between two neighbouring multiples of its size.
cidr_whole :
    (first last j : ℕ)
    → Halves first last j
    → j ≤ 31
    → first % 2 ^ suc j ≡ 0
    → last % 2 ^ suc j + 1 ≡ 2 ^ suc j
    → Tiles first (record { address = prefix_of first j; bits = 32 - suc j } ∷ []) (last + 1)
cidr_whole first last j h small z o =
    let size : 32 - (32 - suc j) ≡ suc j = omega arith in
    (h.prefix_first z, omega arith, rw size z, rw (size, h.prefix_last o, h.prefix_first z) refl)

cidr_split :
    (fuel first last j : ℕ)
    → first < last
    → last < 2 ^ 32
    → Parting 31 first last j
    → Halves first last j
    → Covered fuel first (prefix_of first j + 2 ^ j - 1)
    → Covered fuel (prefix_of first j + 2 ^ j) last
    → Covered (suc fuel) first last
unfolding cidr
cidr_split fuel first last j lt wide sp h (out, ran, tiles) (out', ran', tiles') =
    let less : ltb first last ≡ true = ground arith in
    elim (Bool-cases (leb (low_run (suc j) 0 first last) j)) [
      | inl halve ↦
          let meet : prefix_of first j + 2 ^ j - 1 + 1 ≡ prefix_of first j + 2 ^ j =
            omega (arith, pow_pos j) in
          (
            out ++ out',
            rw (less, sp.found, halve, h.lower_end, h.upper_start, ran, ran') refl,
            Tiles-append first (prefix_of first j + 2 ^ j) (last + 1) out out' (rw meet at tiles)
                tiles',
          )
      | inr whole ↦
          let all_run : low_run (suc j) 0 first last ≡ suc j + 0 =
            ground (arith, low_run-le (suc j) 0 first last) in
          let bits : suc j + 0 ≡ suc j = omega arith in
          let (z, o) = low_run_full (suc j) 0 first last (omega arith) (omega arith) all_run in
          (
            record { address = prefix_of first j; bits = 32 - suc j } ∷ [],
            rw (less, sp.found, whole, all_run, bits) refl,
            cidr_whole first last j h sp.within (rw bits at z) (rw bits at o),
          )
    ]

split_at :
    (fuel k first last : ℕ)
    → first < last
    → last < 2 ^ 32
    → first / 2 ^ k ≡ last / 2 ^ k
    → k < suc fuel
    → ((k first last : ℕ)
        → k < fuel
        → first ≤ last
        → last < 2 ^ 32
        → first / 2 ^ k ≡ last / 2 ^ k
        → Covered fuel first last)
    → ((j : ℕ) × Parting 31 first last j)
    → Covered (suc fuel) first last
split_at fuel k first last lt wide agree enough rest (j, sp) =
    let h = Parting-Halves 31 first last j (omega arith) wide lt sp in
    let below : j < k = below_agreement j k first last sp.first_zero sp.last_one agree in
    cidr_split fuel first last j lt wide sp h
      (rest j first (prefix_of first j + 2 ^ j - 1) (omega arith) (omega (arith, h.first_below))
        (omega (arith, h.last_from)) h.agree_lower)
      (rest j (prefix_of first j + 2 ^ j) last (omega arith) h.last_from wide h.agree_upper)

-- Enough fuel: the ends agree from place `k` on, and there is fuel for `k` splits.
cidr_tiles :
    (fuel k first last : ℕ)
    → k < fuel
    → first ≤ last
    → last < 2 ^ 32
    → first / 2 ^ k ≡ last / 2 ^ k
    → Covered fuel first last
cidr_tiles zero k first last enough le wide agree = absurd (omega arith)
cidr_tiles (suc fuel) k first last enough le wide agree = elim (Bool-cases (ltb first last)) [
  | inr same ↦ cidr_one fuel first last (ground arith)
  | inl less ↦
      let lt : first < last = ground arith in
      split_at fuel k first last lt wide agree enough (cidr_tiles fuel)
        (high_bit-Parting 31 first last lt (agree_top first last lt wide))
]

-- A range of 32-bit addresses is printed as blocks that lie side by side, each a power of two long
-- and at a multiple of its length, from the first address to the last one.
pub cidr-Tiles :
    (first last : ℕ)
    → first ≤ last
    → last < 2 ^ 32
    → (out : List Prefix) × (cidr 33 first last ≡ some out) × Tiles first out (last + 1)
cidr-Tiles first last le wide =
    cidr_tiles 33 32 first last (omega arith) le wide
      (div-eq_of_lt (let h : first < 2 ^ 32 = omega arith in h) ∙ sym (div-eq_of_lt wide))
