-- ===== src/Telnet/Read/Moving.antt =====
-- How the loop of `telnet_filter_read` moves the bytes behind a command, c-cpp/onethread/telnet.c.
use mathlib.Core.Path.{fun_ext}
use examples.Common.{
  ℕ, suc, ◌+◌, ◌-◌, ◌≡◌, ◌∙◌, refl, ap, Bool, false, ◌&&◌, some, [], ◌∷◌, ◌++◌, Bytes, pos, negsuc,
  ltb, ◌==◌, if◌then◌else◌, length, take, drop, arith, length-append, append_assoc,
}
use examples.Sockbuf.Run.{Cmd, Run, ok, fault, out_of_fuel, ◌>>=◌, ◌>>◌, and_then}
use examples.Circ.Parse.Lines.{Lacks}
use examples.Telnet.Read.{
  Reader, Answer, finished, handled, nowhere, find_cmd, removed, remove_at_cmd, read_step,
}

pub and_then_assoc :
    {A B C : Type 0} (r : Run A) (f : A → Cmd B) (g : B → Cmd C)
    → and_then (and_then r f) g ≡ and_then r (λ a. f a >>= g)
and_then_assoc (ok a s) f g = refl
and_then_assoc fault f g = refl
and_then_assoc out_of_fuel f g = refl

pub >>_assoc : {C : Type 0} (m n : Cmd (Unit {0})) (k : Cmd C) → (m >> n) >> k ≡ m >> (n >> k)
>>_assoc m n k = fun_ext (λ s. and_then_assoc (m s) (λ _. n) (λ _. k))

pub find_cmd-Lacks :
    (text more : Bytes) → Lacks 255 text → find_cmd (length text) (text ++ more) ≡ nowhere
unfolding find_cmd
find_cmd-Lacks [] more l = refl
find_cmd-Lacks (c ∷ cs) more (ne, l) =
    let miss : (c == 255) ≡ false = ground arith in rw (miss, find_cmd-Lacks cs more l) refl

take_concat :
    (text more : Bytes) (c : ℕ) → take (suc (length text)) (text ++ c ∷ more) ≡ text ++ c ∷ []
take_concat [] more c = refl
take_concat (x ∷ xs) more c = ap (◌∷◌ x) (take_concat xs more c)

pub drop_front : (front more : Bytes) → drop (length front) (front ++ more) ≡ more
drop_front [] more = refl
drop_front (x ∷ xs) more = drop_front xs more

pub take_front : (text more : Bytes) → take (length text) (text ++ more) ≡ text
take_front [] more = refl
take_front (x ∷ xs) more = ap (◌∷◌ x) (take_front xs more)

-- A front of the memory is removed, with the terminator moved down behind the rest.
abbrev pub stale : (front rest behind : Bytes) → Bytes
stale front rest behind = drop (suc (length rest)) (front ++ (rest ++ 0 ∷ behind))

pub removed-front :
    (front rest behind : Bytes)
    → removed (length front + length rest) 0 (length front) (front ++ (rest ++ 0 ∷ behind))
      ≡ some (rest ++ 0 ∷ stale front rest behind)
unfolding removed
removed-front front rest behind =
    let k = length front in
    let n = length rest in
    let mem = front ++ (rest ++ 0 ∷ behind) in
    let size : length mem ≡ k + (n + suc (length behind)) =
      length-append front (rest ++ 0 ∷ behind)
      ∙ ap (λ (t : ℕ). k + t) (length-append rest (0 ∷ behind)) in
    let low : ltb (k + n + 1) (0 + k) ≡ false = ground arith in
    let room : ltb (length mem) (k + n + 1) ≡ false = ground (arith, size) in
    let both : (ltb (0 + k) (k + n + 1) && ltb (length mem) (k + n + 1)) ≡ false =
      ground (arith, room) in
    let count : k + n + 1 - (0 + k) ≡ suc n = omega arith in
    let keep : k + n + 1 - k ≡ suc n = omega arith in
    let source : drop (0 + k) mem ≡ rest ++ 0 ∷ behind =
      ap (λ t. drop t mem) (let e : 0 + k ≡ k = omega arith in e)
      ∙ drop_front front (rest ++ 0 ∷ behind) in
    let moved : take (suc n) (drop (0 + k) mem) ++ drop (suc n) mem ≡ rest ++ 0 ∷ drop (suc n) mem =
      ap (λ t. take (suc n) t ++ drop (suc n) mem) source
      ∙ ap (λ t. t ++ drop (suc n) mem) (take_concat rest behind 0)
      ∙ append_assoc rest (0 ∷ []) (drop (suc n) mem) in
    rw (removed, low, both, count, keep) (ap (λ t. some t) moved)

-- The reader at the start of a chunk.
abbrev pub at_start : (chunk behind : Bytes) → Bool → Reader
at_start chunk behind echo = record {
  mem = chunk ++ behind;
  off = 0;
  len = pos (length chunk);
  echo = echo;
}

minus-front :
    (k n : ℕ) → (if ltb (k + n) k then negsuc (k - (k + n) - 1) else pos (k + n - k)) ≡ pos n
minus-front k n = ground arith

pub remove_front :
    (front rest behind : Bytes) (echo echo' : Bool) (answer : Answer)
    → remove_at_cmd 0 (length front) echo' answer (record {
      mem = front ++ (rest ++ 0 ∷ behind);
      off = 0;
      len = pos (length (front ++ rest));
      echo = echo;
    })
      ≡ handled (at_start rest (0 ∷ stale front rest behind) echo') answer
unfolding remove_at_cmd
remove_front front rest behind echo echo' answer =
    rw (remove_at_cmd, length-append front rest, removed-front front rest behind)
      (rw (length-append front rest, minus-front (length front) (length rest)) refl)

pub read_step-text :
    (text behind : Bytes) (echo : Bool)
    → Lacks 255 text
    → read_step (at_start text behind echo) ≡ finished
unfolding read_step
read_step-text text behind echo l = rw (read_step, find_cmd-Lacks text behind l) refl
