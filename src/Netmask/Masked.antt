-- ===== src/Netmask/Masked.antt =====
-- The range that c-cpp/cidr.c prints.
use Prim.Native.Nat.{bit_and, bit_or, bit_and-bitwise, min}
use native.Mathlib.Nat.{
  add-mul-mod_self_right, mod-eq_of_lt, add-mul-div_left, div-eq_of_lt, div-add-mod', mod-lt,
  div-lt_iff_lt-mul, mul-mod_left,
}
use examples.Common.{
  ℕ, zero, suc, ◌+◌, ◌-◌, ◌*◌, ◌/◌, ◌%◌, ◌^◌, ◌≤◌, ◌<◌, ◌≡◌, ◌∙◌, refl, sym, ap, arith, false,
  Bytes, Option, some, ℤ, pos, ltb, ◌==◌,
}
use examples.Cidr.Bits.{
  pow_pos, pow_twice, and_low, bit_or-below, double, div-half_pow, div-pow_suc,
}
use examples.Netmask.{broadcast_mask, Conf, printed, conf, print_conf, main, split_slash}

-- A mask of all ones keeps what fits.
and_ones : (m x : ℕ) → x < 2 ^ m → bit_and x (2 ^ m - 1) ≡ x
and_ones zero x h = let z : x ≡ 0 = omega arith in rw z (bit_and-bitwise 0 0)
and_ones (suc m) x h =
    let half : (2 ^ suc m - 1) / 2 ≡ 2 ^ m - 1 = omega (arith, pow_twice m, pow_pos m) in
    let odd : (2 ^ suc m - 1) % 2 ≡ 1 = omega (arith, pow_twice m, pow_pos m) in
    let low : min (x % 2) ((2 ^ suc m - 1) % 2) ≡ x % 2 = rw odd (ground arith) in
    let rest : bit_and (x / 2) ((2 ^ suc m - 1) / 2) ≡ x / 2 =
      rw half (and_ones m (x / 2) (omega (arith, pow_twice m))) in
    omega (arith, and_low x (2 ^ suc m - 1), low, rest)

-- With k zeroes behind the ones it takes the lower k bits off.
and_mask : (k m x : ℕ) → x / 2 ^ k < 2 ^ m → bit_and x ((2 ^ m - 1) * 2 ^ k) ≡ x / 2 ^ k * 2 ^ k
and_mask zero m x h =
    let mask : (2 ^ m - 1) * 1 ≡ 2 ^ m - 1 = omega arith in
    rw mask (and_ones m x (omega arith) ∙ omega arith)
and_mask (suc k) m x h =
    let ones = 2 ^ m - 1 in
    let twice : ones * 2 ^ suc k ≡ ones * 2 ^ k + ones * 2 ^ k =
      ap (λ (t : ℕ). ones * t) (pow_twice k) ∙ double ones (2 ^ k) in
    let half : ones * 2 ^ suc k / 2 ≡ ones * 2 ^ k = omega (arith, twice) in
    let even : ones * 2 ^ suc k % 2 ≡ 0 = omega (arith, twice) in
    let low : min (x % 2) (ones * 2 ^ suc k % 2) ≡ 0 = rw even (ground arith) in
    let same : x / 2 / 2 ^ k ≡ x / 2 ^ suc k = div-half_pow x k ∙ sym (div-pow_suc x k) in
    let rest : bit_and (x / 2) (ones * 2 ^ suc k / 2) ≡ x / 2 ^ suc k * 2 ^ k =
      rw half (and_mask k m (x / 2) (rw same h) ∙ ap (λ (t : ℕ). t * 2 ^ k) same) in
    omega (
      arith,
      and_low x (ones * 2 ^ suc k),
      low,
      rest,
      ap (λ (t : ℕ). x / 2 ^ suc k * t) (pow_twice k),
      double (x / 2 ^ suc k) (2 ^ k),
    )

-- The masks, for a split of the 32 bits into a network part and the rest.
pow_sum : (n k : ℕ) → 2 ^ n * 2 ^ k ≡ 2 ^ (k + n)
pow_sum n zero =
    let same : 0 + n ≡ n = omega arith in rw same (let e : 2 ^ n * 1 ≡ 2 ^ n = omega arith in e)
pow_sum n (suc k) =
    let next : suc k + n ≡ suc (k + n) = omega arith in
    rw next (
      ap (λ (t : ℕ). 2 ^ n * t) (pow_twice k)
      ∙ double (2 ^ n) (2 ^ k)
      ∙ ap (λ (t : ℕ). t + t) (pow_sum n k)
      ∙ sym (pow_twice (k + n)))

less_one : (q p : ℕ) → 0 < q → (q - 1) * p + p ≡ q * p
less_one zero p h = absurd (omega arith)
less_one (suc q) p h = let e : suc q - 1 ≡ q = omega arith in rw e (grind arith)

shifted : (p q : ℕ) → (suc q * suc p - 1) * suc p ≡ q * suc p + p * (suc q * suc p)
shifted p q =
    let e : suc q * suc p ≡ suc (q * suc p + p) = grind arith in
    let less : suc q * suc p - 1 ≡ q * suc p + p = omega (arith, e) in rw less (grind arith)

factors : (k n : ℕ) → k + n ≡ 32 → 2 ^ n * 2 ^ k ≡ 2 ^ 32
factors k n e = pow_sum n k ∙ ap (λ (t : ℕ). 2 ^ t) e

netmask_is : (k n : ℕ) → k + n ≡ 32 → broadcast_mask * 2 ^ k % 2 ^ 32 ≡ (2 ^ n - 1) * 2 ^ k
netmask_is k n e = masked (2 ^ k) (2 ^ n) (pow_pos k) (pow_pos n) (factors k n e)
  where
    masked : (p q : ℕ) → 0 < p → 0 < q → q * p ≡ 2 ^ 32 → broadcast_mask * p % 2 ^ 32 ≡ (q - 1) * p
    masked zero q hp hq whole = absurd (omega arith)
    masked (suc p) zero hp hq whole = absurd (omega arith)
    masked (suc p) (suc q) hp hq whole =
        let ones : broadcast_mask ≡ suc q * suc p - 1 = omega (arith, whole) in
        let inside : q * suc p < suc q * suc p = omega (arith, less_one (suc q) (suc p) hq) in
        let q_is : suc q - 1 ≡ q = omega arith in
        rw q_is (
          ap (λ (t : ℕ). t * suc p % 2 ^ 32) ones
          ∙ ap (λ (t : ℕ). (suc q * suc p - 1) * suc p % t) (sym whole)
          ∙ ap (λ (t : ℕ). t % (suc q * suc p)) (shifted p q)
          ∙ add-mul-mod_self_right (q * suc p) p (suc q * suc p)
          ∙ mod-eq_of_lt inside)

hostmask_is : (k n : ℕ) → k + n ≡ 32 → broadcast_mask / 2 ^ n ≡ 2 ^ k - 1
hostmask_is k n e = divided (2 ^ k) (2 ^ n) (pow_pos k) (pow_pos n) (factors k n e)
  where
    divided : (p q : ℕ) → 0 < p → 0 < q → q * p ≡ 2 ^ 32 → broadcast_mask / q ≡ p - 1
    divided zero q hp hq whole = absurd (omega arith)
    divided (suc p) q hp hq whole =
        let e : q * suc p ≡ q + q * p = grind arith in
        let ones : broadcast_mask ≡ q - 1 + q * p = omega (arith, whole, e) in
        let low : q - 1 < q = omega arith in
        let p_is : suc p - 1 ≡ p = omega arith in
        ap (λ (t : ℕ). t / q) ones
        ∙ add-mul-div_left (q - 1) p hq
        ∙ ap (λ (t : ℕ). t + p) (div-eq_of_lt low)
        ∙ (let z : 0 + p ≡ p = omega arith in z)
        ∙ sym p_is

-- The network of the address, between whose ends the address lies.
pub record Range (addr maskbits : ℕ) (c : Conf) : Type 0 where
  pub aligned : c.network % 2 ^ (32 - maskbits) ≡ 0
  pub lower : c.network ≤ addr
  pub upper : addr ≤ c.broadcast
  pub size : c.broadcast + 1 ≡ c.network + 2 ^ (32 - maskbits)
  pub hosts : c.usable + 1 ≡ c.broadcast - c.network
  pub mask : c.netmask + 2 ^ (32 - maskbits) ≡ 2 ^ 32

conf-Range :
    (addr maskbits : ℕ)
    → addr < 2 ^ 32
    → 1 ≤ maskbits
    → maskbits ≤ 30
    → Range addr maskbits (conf addr maskbits)
unfolding conf
conf-Range addr n wide some_bits few =
    let k = 32 - n in
    let e : 32 - n + n ≡ 32 = omega arith in
    let q = addr / 2 ^ k in
    let below : q < 2 ^ n = (div-lt_iff_lt-mul (pow_pos k)).1 (rw (factors k n e) wide) in
    let host = hostmask_is k n e in
    let network : bit_and addr (broadcast_mask * 2 ^ k % 2 ^ 32) ≡ q * 2 ^ k =
      rw (netmask_is k n e) (and_mask k n addr below) in
    let last : 2 ^ k - 1 < 2 ^ k = omega (arith, pow_pos k) in
    let broadcast : bit_or (bit_and addr (broadcast_mask * 2 ^ k % 2 ^ 32)) (broadcast_mask / 2 ^ n)
        ≡ q * 2 ^ k + (2 ^ k - 1) =
      rw (network, host) (bit_or-below k q (2 ^ k - 1) last) in
    let next : suc (31 - n) ≡ 32 - n = omega arith in
    let two : 2 ≤ 2 ^ k = rw (← next) (omega (arith, pow_twice (31 - n), pow_pos (31 - n))) in
    let split = div-add-mod' addr (2 ^ k) in
    let rest = mod-lt addr (pow_pos k) in
    record {
      aligned = rw network (mul-mod_left q (2 ^ k));
      lower = omega (arith, network, split);
      upper = omega (arith, broadcast, split, rest);
      size = omega (arith, broadcast, network, pow_pos k);
      hosts = omega (arith, host, broadcast, network, two);
      mask = omega (arith, netmask_is k n e, less_one (2 ^ n) (2 ^ k) (pow_pos n), factors k n e);
    }

-- For an address and 1 to 30 bits the program prints the network that is aligned to its size, holds
-- the address and has the broadcast address at its end, the mask of all higher bits, and the number
-- of addresses between the two ends.
pub main-Range :
    (inet_aton : Bytes → Option ℕ) (atoi : Bytes → ℤ) (text host mask : Bytes) (addr maskbits : ℕ)
    → split_slash text ≡ some (host, mask)
    → inet_aton host ≡ some addr
    → addr < 2 ^ 32
    → atoi mask ≡ pos maskbits
    → 1 ≤ maskbits
    → maskbits ≤ 30
    → (c : Conf) × (main inet_aton atoi (some text) ≡ printed c) × Range addr maskbits c
unfolding main print_conf
main-Range inet_aton atoi text host mask addr n slash known wide number some_bits few =
    let allowed : ltb 30 n ≡ false = ground arith in
    let given : (n == 0) ≡ false = ground arith in
    (
      conf addr n,
      rw (main, slash, known, number, print_conf, allowed, given) refl,
      conf-Range addr n wide some_bits few,
    )
