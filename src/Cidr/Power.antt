-- ===== src/Cidr/Power.antt =====
-- The power by squaring of other/bysin_cidr.c against the power modulo 2 ^ 32.
use native.Mathlib.Nat.{
  mul_comm, mul_assoc, mod-add-div', add-mul-mod_self_right, pow-suc, pow-zero,
}
use examples.Common.{
  ℕ, zero, suc, ◌+◌, ◌-◌, ◌*◌, ◌/◌, ◌%◌, ◌^◌, ◌≤◌, ◌≡◌, ◌∙◌, inl, inr, refl, sym, ap, arith, ◌==◌,
  Bool-cases, false,
}
use examples.Cidr.{mpow_loop, mpow}

spread : (a r q m : ℕ) → a * (r + q * m) ≡ a * r + a * q * m
spread a r q m = grind arith

-- A factor may be reduced first.
mul-mod : (a b m : ℕ) → a * (b % m) % m ≡ a * b % m
mul-mod a b m =
    let whole : a * b ≡ a * (b % m) + a * (b / m) * m =
      ap (λ (t : ℕ). a * t) (sym (mod-add-div' b m)) ∙ spread a (b % m) (b / m) m in
    sym (ap (λ (t : ℕ). t % m) whole ∙ add-mul-mod_self_right (a * (b % m)) (a * (b / m)) m)

pow-mod : (x n m : ℕ) → (x % m) ^ n % m ≡ x ^ n % m
pow-mod x zero m = rw (pow-zero (x % m), pow-zero x) refl
pow-mod x (suc n) m =
    ap (λ (t : ℕ). t % m) (pow-suc (x % m) n)
    ∙ mul-mod ((x % m) ^ n) x m
    ∙ ap (λ (t : ℕ). t % m) (mul_comm ((x % m) ^ n) x)
    ∙ sym (mul-mod x ((x % m) ^ n) m)
    ∙ ap (λ (t : ℕ). x * t % m) (pow-mod x n m)
    ∙ mul-mod x (x ^ n) m
    ∙ ap (λ (t : ℕ). t % m) (mul_comm x (x ^ n) ∙ sym (pow-suc x n))

pow-square : (x k : ℕ) → (x * x) ^ k ≡ x ^ (k + k)
pow-square x zero = rw (pow-zero (x * x), pow-zero x) refl
pow-square x (suc k) =
    let odd : x ^ (suc k + suc k) ≡ x ^ (k + k) * x * x =
      ap (λ (t : ℕ). x ^ t) (let e : suc k + suc k ≡ suc (suc (k + k)) = omega arith in e)
      ∙ pow-suc x (suc (k + k))
      ∙ ap (λ (t : ℕ). t * x) (pow-suc x (k + k)) in
    pow-suc (x * x) k
    ∙ ap (λ (t : ℕ). t * (x * x)) (pow-square x k)
    ∙ sym (odd ∙ mul_assoc (x ^ (k + k)) x x)

mpow_loop_lem : (fuel x n : ℕ) → n ≤ fuel → mpow_loop fuel x n ≡ x ^ n % 2 ^ 32
unfolding mpow_loop
mpow_loop_lem zero x n h = let none_left : n ≡ 0 = omega arith in rw (none_left, pow-zero x) refl
mpow_loop_lem (suc fuel) x zero h = rw (pow-zero x) refl
mpow_loop_lem (suc fuel) x (suc n) h = elim (Bool-cases (suc n % 2 == 1)) [
  | inl odd ↦
      let last : suc n - 1 ≡ n = omega arith in
      let more : (suc n == 0) ≡ false = ground arith in
      rw (more, odd, last)
        (ap (λ (t : ℕ). x * t % 2 ^ 32) (mpow_loop_lem fuel x n (omega arith))
          ∙ mul-mod x (x ^ n) (2 ^ 32)
          ∙ ap (λ (t : ℕ). t % 2 ^ 32) (mul_comm x (x ^ n) ∙ sym (pow-suc x n)))
  | inr even ↦
      let halves : suc n / 2 + suc n / 2 ≡ suc n = ground arith in
      let more : (suc n == 0) ≡ false = ground arith in
      rw (more, even)
        (mpow_loop_lem fuel (x * x % 2 ^ 32) (suc n / 2) (omega arith)
          ∙ pow-mod (x * x) (suc n / 2) (2 ^ 32)
          ∙ ap (λ (t : ℕ). t % 2 ^ 32) (pow-square x (suc n / 2) ∙ ap (λ (t : ℕ). x ^ t) halves))
]

-- The power is x to the n modulo 2 ^ 32.
pub mpow_lem : (x n : ℕ) → mpow x n ≡ x ^ n % 2 ^ 32
unfolding mpow
mpow_lem x n = mpow_loop_lem n x n (omega arith)
