-- ===== src/Netmask.antt =====
-- c-cpp/cidr.c: an address under a mask. Addresses are numbers in the order of the host; `ntohl`
-- only reorders the bytes of all operands alike.
pub mod Masked
use Prim.Native.Nat.{bit_and, bit_or}
use examples.Common.{
  ℕ, zero, suc, ◌+◌, ◌-◌, ◌*◌, ◌/◌, ◌%◌, ◌^◌, Option, none, some, List, [], ◌∷◌, Bytes, ℤ, pos,
  negsuc, ltb, ◌==◌, if◌then◌else◌,
}

-- BROADCAST, an `unsigned int`.
abbrev pub broadcast_mask : ℕ
broadcast_mask = 4294967295

pub record Conf : Type 0 where
  pub addr : ℕ
  pub maskbits : ℕ
  pub netmask : ℕ
  pub network : ℕ
  pub broadcast : ℕ
  pub usable : ℕ

-- A shift by 32 bits or more, or by less than none, is undefined.
pub data Printed : Type 0 where
  usage : Printed
  input_error : Printed
  undefined : Printed
  printed : Conf → Printed

-- mask = strchr (argv[1], '/'); *mask++ = '\0';
unfoldable pub split_slash : Bytes → Option (Bytes × Bytes)
split_slash [] = none
split_slash (c ∷ cs) = elim (split_slash cs) [
  | none ↦ if c == b'/' then some ([], cs) else none
  | some (a, b) ↦ if c == b'/' then some ([], cs) else some (c ∷ a, b)
]

unfoldable pub conf : (addr maskbits : ℕ) → Conf
conf addr maskbits =
    let netmask = broadcast_mask * 2 ^ (32 - maskbits) % 2 ^ 32 in
    let network = bit_and addr netmask in
    record {
      addr = addr;
      maskbits = maskbits;
      netmask = netmask;
      network = network;
      broadcast = bit_or network (broadcast_mask / 2 ^ maskbits);
      usable = broadcast_mask / 2 ^ maskbits - 1;
    }

unfoldable pub print_conf : (addr : ℕ) → (maskbits : ℤ) → Printed
print_conf addr (negsuc n) = undefined
print_conf addr (pos n) =
    if ltb 30 n then input_error else if n == 0 then undefined else printed (conf addr n)

-- The first argument, if there is one. `inet_aton` and `atoi` are the library's.
unfoldable pub main : (inet_aton : Bytes → Option ℕ) → (atoi : Bytes → ℤ) → Option Bytes → Printed
main inet_aton atoi none = usage
main inet_aton atoi (some arg) = elim (split_slash arg) [
  | none ↦ usage
  | some (host, mask) ↦ elim (inet_aton host) [
    | none ↦ input_error
    | some addr ↦ print_conf addr (atoi mask)
  ]
]
