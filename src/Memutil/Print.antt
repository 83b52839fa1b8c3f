-- ===== src/Memutil/Print.antt =====
-- What `egg_mvsprintf` of c-cpp/onethread/memutil.c prints, by what its first vsnprintf does.
use examples.Common.{
  ℕ, suc, ◌+◌, ◌-◌, ◌*◌, ◌%◌, ◌<◌, ◌≤◌, ◌≡◌, refl, ap, Bool, true, false, Option, none, some, [],
  ◌∷◌, Bytes, ℤ, pos, arith, ltb, ◌==◌, if◌then◌else◌, length, c_string,
}
use examples.Memutil.{recount, print_loop, initial_len, egg_mvsprintf}
use examples.Socket.Names.{IsText}

-- `vsnprintf` as the C standard has it, on a format that comes to `text`: it gives the length of
-- the whole text, and leaves what fits before a terminator.
pub record Prints (vsnprintf : ℕ → ℤ × Bytes) (text : Bytes) : Type 0 where
  pub count : (size : ℕ) → (vsnprintf size).0 ≡ pos (length text)
  pub fits : (size : ℕ) → length text < size → (vsnprintf size).1 ≡ text

initial_len-lt : (buf_len : Option ℕ) → 10 < initial_len buf_len
initial_len-lt none = omega arith
initial_len-lt (some len) = ground arith

c_string-text : (text : Bytes) → IsText text → c_string text ≡ text
c_string-text [] t = refl
c_string-text (c ∷ cs) (ne, t) =
    let miss : (c == 0) ≡ false = ground arith in rw miss (ap (◌∷◌ c) (c_string-text cs t))

recounted :
    (again : Bool) (text : Bytes)
    → IsText text
    → (if again then length (c_string text) else length text) ≡ length text
recounted true text t = ap length (c_string-text text t)
recounted false text t = refl

recount-text :
    (text : Bytes) → IsText text → recount (some (length text, text)) ≡ some (length text, text)
recount-text text t = ap (λ n. some (n, text)) (recounted (length text % 1024 == 0) text t)

pub mvsprintf-first :
    (vsnprintf : (call size : ℕ) → ℤ × Bytes) (text : Bytes) (fuel : ℕ) (buf_len : Option ℕ)
    → Prints (vsnprintf 0) text
    → IsText text
    → (length text < initial_len buf_len - 10
        → egg_mvsprintf vsnprintf (suc fuel) buf_len ≡ some (length text, text))
      × (initial_len buf_len - 10 ≤ length text
          → (size : ℕ) × (length text < size)
            × (egg_mvsprintf vsnprintf (suc fuel) buf_len
                ≡ recount (print_loop vsnprintf fuel 1 (size + 10))))
unfolding egg_mvsprintf print_loop
mvsprintf-first vsnprintf text fuel buf_len p t =
    let room = initial_len buf_len - 10 in
    let enough = initial_len-lt buf_len in
    (
      λ h.
          let small : ltb (length text) room ≡ true = ground arith in
          rw (egg_mvsprintf, print_loop, p.count room, small, p.fits room h) (recount-text text t),
      λ h.
          let large : ltb (length text) room ≡ false = ground arith in
          let size = if ltb room (length text) then length text + 1 else room * 2 in
          (size, ground arith, rw (egg_mvsprintf, print_loop, p.count room, large) refl),
    )
