-- ===== src/Memutil.antt =====
-- c-cpp/onethread/memutil.c: text that grows as it is written. Memory is taken to be granted.
pub mod Print
use examples.Common.{
  ℕ, zero, suc, ◌+◌, ◌-◌, ◌*◌, ◌%◌, ◌≤◌, ◌<◌, ◌≡◌, Bool, true, false, Option, none, some, List, [],
  ◌∷◌, ◌++◌, Bytes, ℤ, pos, negsuc, arith, ltb, ◌==◌, if◌then◌else◌, length, length-append,
  c_string,
}
use examples.Sockbuf.Run.{Cmd, pure, ◌>>=◌, ◌>>◌, out_of_fuel}
use examples.Sockbuf.Env.{Env}
use examples.Sockbuf.Io.{sockbuf_write}

-- `str_redup (&str, newstr)`: what `str` points to afterwards.
unfoldable pub str_redup : (old newstr : Option Bytes) → Option Bytes
str_redup old none = none
str_redup old (some text) = some (c_string text)

-- A buffer of `max + 1` bytes that holds `text`; `cur` is its length.
pub record Buf : Type 0 where
  pub text : Bytes
  pub max : ℕ

-- With `src` a text without NUL.
unfoldable pub egg_append_str : Buf → Bytes → Buf
egg_append_str b src =
    let len = length src in
    record {
      text = b.text ++ src;
      max = if ltb b.max (length b.text + len + 10) then b.max + (len + 128) else b.max;
    }

-- What is written lies in the buffer, with room for a NUL behind it.
abbrev pub HasRoom : Buf → Type 0
HasRoom b = length b.text ≤ b.max

-- Appending never writes past the buffer: there is room for the text, a terminator and nine bytes
-- more.
pub append_str-HasRoom :
    (b : Buf) (src : Bytes)
    → HasRoom b
    → length (egg_append_str b src).text + 10 ≤ (egg_append_str b src).max
unfolding egg_append_str
append_str-HasRoom b src h = ground (arith, length-append {0} b.text src)

-- The loop of `egg_mvsprintf`. `vsnprintf` gives, for the number of the call and the size of the
-- buffer, its return value and the text that it leaves. From call 1 on it is given a `va_list` that
-- a call before has used up, which the C standard leaves indeterminate. The result is the last
-- return value and text.
unfoldable pub print_loop :
    (vsnprintf : (call size : ℕ) → ℤ × Bytes) → (fuel call len : ℕ) → Option (ℕ × Bytes)
print_loop vsnprintf zero call len = none
print_loop vsnprintf (suc fuel) call len = elim ((vsnprintf call (len - 10)).0) [
  | pos n ↦
      if ltb n (len - 10)
      then some (n, (vsnprintf call (len - 10)).1)
      else print_loop vsnprintf fuel (suc call)
          ((if ltb (len - 10) n then n + 1 else (len - 10) * 2) + 10)
  | negsuc _ ↦ print_loop vsnprintf fuel (suc call) ((len - 10) * 2 + 10)
]

abbrev pub initial_len : Option ℕ → ℕ
initial_len none = 512
initial_len (some len) = if ltb 10 len then len else 512

-- A length that is a multiple of 1024 is counted again.
abbrev pub recount : Option (ℕ × Bytes) → Option (ℕ × Bytes)
recount none = none
recount (some (n, text)) = some (if n % 1024 == 0 then length (c_string text) else n, text)

-- `buf_len` is the size of the caller's buffer, if it gave one.
unfoldable pub egg_mvsprintf :
    (vsnprintf : (call size : ℕ) → ℤ × Bytes)
    → (fuel : ℕ) → (buf_len : Option ℕ) → Option (ℕ × Bytes)
unfolding print_loop
egg_mvsprintf vsnprintf fuel buf_len = recount (print_loop vsnprintf fuel 0 (initial_len buf_len))

-- Without a buffer, and with the caller's of `len` bytes.
unfoldable pub egg_mprintf :
    (vsnprintf : (call size : ℕ) → ℤ × Bytes) → (fuel : ℕ) → Option (ℕ × Bytes)
egg_mprintf vsnprintf fuel = egg_mvsprintf vsnprintf fuel none

unfoldable pub egg_msprintf :
    (vsnprintf : (call size : ℕ) → ℤ × Bytes)
    → (fuel : ℕ) → (buf_len : Option ℕ) → Option (ℕ × Bytes)
egg_msprintf vsnprintf fuel buf_len = egg_mvsprintf vsnprintf fuel buf_len

-- With a buffer of 1024 bytes. The value returned is the length.
unfoldable pub iprintf : Env → (vsnprintf : (call size : ℕ) → ℤ × Bytes) → (fuel : ℕ) → ℤ → Cmd ℕ
iprintf env vsnprintf fuel idx = elim (egg_mvsprintf vsnprintf fuel (some 1024)) [
  | none ↦ λ s. out_of_fuel
  | some (len, text) ↦ do sockbuf_write env idx text (pos len); pure len
]
