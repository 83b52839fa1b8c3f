-- ===== src/Telnet/Read/Split.antt =====
-- Where `telnet_filter_read` of c-cpp/onethread/telnet.c goes wrong: a command that two reads
-- split, and the question whether the other side is there.
use mathlib.Core.Path.{fun_ext}
use examples.Common.{
  ℕ, suc, ◌+◌, ◌-◌, ◌≤◌, ◌≡◌, ◌∙◌, refl, ap, Bool, true, false, ◌&&◌, none, some, [], ◌∷◌, ◌++◌,
  Bytes, ℤ, pos, ltb, ◌==◌, length, get_elem?, arith, length-append, append_assoc, take-append-drop,
}
use examples.Sockbuf.State.{Ptr, State}
use examples.Sockbuf.Run.{Cmd, fault, pure, ◌>>◌, and_then}
use examples.Sockbuf.Env.{Env}
use examples.Circ.Parse.Lines.{Lacks}
use examples.Telnet.Write.{render}
use examples.Telnet.Read.{
  Reader, silence, yes_text, finished, bad, handled, at, find_cmd, removed, remove_at_cmd, on_type,
  read_step, read_loop, perform, deliver, telnet_filter_read, minus, with_byte,
}
use examples.Telnet.Read.Negotiation.{deliver-text, pass_on}
use examples.Telnet.Read.Moving.{
  and_then_assoc, read_step-text, at_start, remove_front, stale, drop_front,
}

-- The first command byte behind a text without one.
find_cmd-append :
    (text more : Bytes) (n : ℕ)
    → Lacks 255 text
    → find_cmd (length text + suc n) (text ++ 255 ∷ more) ≡ at (length text)
unfolding find_cmd
find_cmd-append [] more n l = let e : 0 + suc n ≡ suc n = omega arith in rw e refl
find_cmd-append (c ∷ cs) more n (ne, l) =
    let e : suc (length cs) + suc n ≡ suc (length cs + suc n) = omega arith in
    let miss : (c == 255) ≡ false = ground arith in rw (e, miss, find_cmd-append cs more n l) refl

abbrev split_at_end : Bytes → Bytes → Bytes
split_at_end text behind = text ++ 255 ∷ 0 ∷ behind

get_elem?-behind :
    (text more : Bytes) (c d : ℕ) → get_elem? (text ++ c ∷ d ∷ more) (length text + 1) ≡ some d
get_elem?-behind [] more c d = refl
get_elem?-behind (x ∷ xs) more c d =
    let e : suc (length xs) + 1 ≡ suc (length xs + 1) = omega arith in
    rw e (get_elem?-behind xs more c d)

-- Removing two bytes where one is left moves nothing.
removed-none : (k : ℕ) (mem : Bytes) → removed (k + 1) k 2 mem ≡ some mem
unfolding removed
removed-none k mem =
    let low : ltb (k + 1 + 1) (k + 2) ≡ false = ground arith in
    let high : (ltb (k + 2) (k + 1 + 1) && ltb (length mem) (k + 1 + 1)) ≡ false = ground arith in
    let count : k + 1 + 1 - (k + 2) ≡ 0 = omega arith in
    let keep : k + 1 + 1 - 2 ≡ k = omega arith in
    rw (removed, low, high, count, keep) (ap (λ t. some t) (take-append-drop k mem))

removed-negative : (k : ℕ) (mem : Bytes) → 2 ≤ k → removed (k - 1) k 2 mem ≡ none
unfolding removed
removed-negative k mem two =
    let low : ltb (k - 1 + 1) (k + 2) ≡ true = ground arith in rw (removed, low) refl

minus-two : (k : ℕ) → 2 ≤ k → minus (k + 1) 2 ≡ pos (k - 1)
minus-two k two = ground arith

abbrev reader_at : (mem : Bytes) → (off len : ℕ) → Bool → Reader
reader_at mem off len echo = record { mem = mem; off = off; len = pos len; echo = echo }

on_type-zero : (k : ℕ) (r : Reader) → on_type k 0 r ≡ remove_at_cmd k 2 r.echo silence r
unfolding on_type
on_type-zero k r = refl

-- The NUL behind the chunk is taken for the command; two bytes are said to be gone, but the byte
-- 255 stays.
first_round :
    (text behind : Bytes) (echo : Bool)
    → 2 ≤ length text
    → Lacks 255 text
    → read_step (reader_at (split_at_end text behind) 0 (length text + 1) echo)
      ≡ handled (reader_at (split_at_end text behind) (length text) (length text - 1) echo) silence
unfolding read_step remove_at_cmd
first_round text behind echo two l =
    let k = length text in
    let place : 0 + k ≡ k = omega arith in
    rw
      (
        read_step,
        find_cmd-append text (0 ∷ behind) 0 l,
        place,
        with_byte,
        get_elem?-behind text behind 255 0,
        on_type-zero (0 + k) (reader_at (split_at_end text behind) 0 (k + 1) echo),
        place,
      )
      (rw (remove_at_cmd, removed-none k (split_at_end text behind)) (rw (minus-two k two) refl))

second_round :
    (text behind : Bytes) (echo : Bool)
    → 2 ≤ length text
    → Lacks 255 text
    → read_step (reader_at (split_at_end text behind) (length text) (length text - 1) echo) ≡ bad
unfolding read_step remove_at_cmd find_cmd
second_round text behind echo two l =
    let k = length text in
    let room : k - 1 ≡ suc (k - 2) = omega arith in
    let found : find_cmd (k - 1) (255 ∷ 0 ∷ behind) ≡ at 0 = rw (find_cmd, room) refl in
    let place : k + 0 ≡ k = omega arith in
    rw
      (
        read_step,
        drop_front text (255 ∷ 0 ∷ behind),
        found,
        place,
        with_byte,
        get_elem?-behind text behind 255 0,
        on_type-zero (k + 0) (reader_at (split_at_end text behind) k (k - 1) echo),
        place,
      )
      (rw (remove_at_cmd, removed-negative k (split_at_end text behind) two) refl)

-- A chunk of two bytes or more and a command byte behind them, with the rest of the command still
-- to come, makes the filter move a negative number of bytes, whatever lies behind the chunk.
pub read-split_fault :
    (env : Env) (fuel write_fuel before : ℕ) (d : Ptr) (idx : ℕ) (text behind : Bytes)
    (echo password : Bool) (s : State)
    → 2 ≤ length text
    → Lacks 255 text
    → telnet_filter_read env
        (suc (suc fuel))
        write_fuel
        before
        d
        idx
        (text ++ 255 ∷ [])
        (0 ∷ behind)
        echo
        password
        s
      ≡ fault
unfolding telnet_filter_read read_loop perform
read-split_fault env fuel write_fuel before d idx text behind echo password s two l =
    rw
      (
        append_assoc text (255 ∷ []) (0 ∷ behind),
        length-append text (255 ∷ []),
        read_loop,
        first_round text behind echo two l,
        second_round text behind echo two l,
      )
      refl

ayt_step :
    (text behind : Bytes) (echo : Bool)
    → read_step (at_start (255 ∷ 246 ∷ text) (0 ∷ behind) echo)
      ≡ handled (at_start (246 ∷ text) (0 ∷ stale (255 ∷ []) (246 ∷ text) behind) echo) yes_text
unfolding read_step find_cmd on_type
ayt_step text behind echo = remove_front (255 ∷ []) (246 ∷ text) behind echo echo yes_text

-- AYT is answered, and its second byte is shown and passed on as text.
pub read-ayt :
    (env : Env) (fuel before : ℕ) (d : Ptr) (idx : ℕ) (text shown behind : Bytes)
    (echo password : Bool)
    → Lacks 255 text
    → render before false (246 ∷ text) ≡ some shown
    → telnet_filter_read env
        (suc (suc fuel))
        (suc (suc (length text)))
        before
        d
        idx
        (255 ∷ 246 ∷ text)
        (0 ∷ behind)
        echo
        password
      ≡ perform env idx yes_text >> pass_on env idx echo password shown (246 ∷ text)
unfolding telnet_filter_read read_loop
read-ayt env fuel before d idx text shown behind echo password l h =
    let text' = 246 ∷ text in
    let start = at_start (255 ∷ text') (0 ∷ behind) echo in
    let next = at_start text' (0 ∷ stale (255 ∷ []) text' behind) echo in
    let step : read_step start ≡ handled next yes_text = ayt_step text behind echo in
    let quiet : read_step next ≡ finished =
      read_step-text text' (0 ∷ stale (255 ∷ []) text' behind) echo
        (λ e. absurd (omega arith), l) in
    let ran : read_loop env idx (suc (suc fuel)) start ≡ perform env idx yes_text >> pure next =
      rw (read_loop, step, quiet) refl in
    let last = deliver env (suc (suc (length text))) before d idx password in
    fun_ext λ s.
      ap (λ (m : Cmd Reader). and_then (m s) last) ran
      ∙ and_then_assoc (perform env idx yes_text s) (λ _. pure next) last
      ∙ ap (λ (m : Cmd ℤ). and_then (perform env idx yes_text s) (λ _. m))
          (deliver-text env before d idx password text' shown (0 ∷ stale (255 ∷ []) text' behind)
            echo h)
