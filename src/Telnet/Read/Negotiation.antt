-- ===== src/Telnet/Read/Negotiation.antt =====
-- Commands at the start of a chunk, and text behind them, in c-cpp/onethread/telnet.c.
use Prim.Native.Nat.{bit_and}
use mathlib.Core.Path.{fun_ext}
use examples.Common.{
  ℕ, zero, suc, ◌<◌, ◌≡◌, ◌≢◌, ◌∙◌, refl, sym, ap, inl, inr, Bool, true, false, ◌&&◌, not, List, [],
  ◌∷◌, ◌++◌, some, Bytes, ℤ, pos, ◌==◌, if◌then◌else◌, length, arith, Bool-cases, append_assoc,
}
use examples.Sockbuf.State.{Ptr}
use examples.Sockbuf.Run.{Cmd, pure, ◌>>◌, and_then}
use examples.Sockbuf.Env.{Env}
use examples.Sockbuf.Events.{sockbuf_on_read, sockbuf_on_write}
use examples.Circ.Parse.Lines.{Lacks}
use examples.Telnet.{telnet_filter_level, telnet_filter_write}
use examples.Telnet.Write.Filter.{telnet_write-render}
use examples.Telnet.Write.{render}
use examples.Telnet.Read.{
  Reader, Answer, silence, mode, handled, find_cmd, on_do, on_dont, on_type, read_step, read_loop,
  perform, deliver, telnet_filter_read, telnet_will, telnet_wont,
}
use examples.Telnet.Read.Moving.{
  and_then_assoc, >>_assoc, take_front, at_start, remove_front, read_step-text, stale,
}

-- A command that is taken out whole: WILL, WONT, DO or DONT with an option, or another code.
pub data Command : Type 0 where
  will : ℕ → Command
  wont : ℕ → Command
  do_option : ℕ → Command
  dont_option : ℕ → Command
  other : (type : ℕ) → Command

-- Another code is none of the six that the switch names.
abbrev pub IsCommand : Command → Type 0
IsCommand (other t) = (t ≢ 246) × (t ≢ 251) × (t ≢ 252) × (t ≢ 253) × (t ≢ 254) × (t ≢ 255)
IsCommand c = Unit {0}

abbrev pub AllCommands : List Command → Type 0
AllCommands [] = Unit {0}
AllCommands (c ∷ cs) = IsCommand c × AllCommands cs

abbrev pub bytes_of : Command → Bytes
bytes_of (will a) = 255 ∷ 251 ∷ a ∷ []
bytes_of (wont a) = 255 ∷ 252 ∷ a ∷ []
bytes_of (do_option a) = 255 ∷ 253 ∷ a ∷ []
bytes_of (dont_option a) = 255 ∷ 254 ∷ a ∷ []
bytes_of (other t) = 255 ∷ t ∷ []

abbrev pub bytes_of_all : List Command → Bytes
bytes_of_all [] = []
bytes_of_all (c ∷ cs) = bytes_of c ++ bytes_of_all cs

-- The options that the code takes for ECHO or SUPPRESS-GO-AHEAD: one of the two low bits is set.
abbrev pub is_echo : ℕ → Bool
is_echo a = not (bit_and a 3 == 0)

abbrev pub echo_after : Bool → Command → Bool
echo_after echo (do_option a) = if is_echo a then true else echo
echo_after echo (dont_option a) = if a == 1 then false else echo
echo_after echo c = echo

abbrev pub answer_to : Bool → Command → Answer
answer_to echo (do_option a) =
    if is_echo a then (if echo then silence else mode telnet_will a) else mode telnet_wont a
answer_to echo (dont_option a) = if a == 1 && echo then mode telnet_wont a else silence
answer_to echo c = silence

abbrev pub echo_after_all : Bool → List Command → Bool
echo_after_all echo [] = echo
echo_after_all echo (c ∷ cs) = echo_after_all (echo_after echo c) cs

-- The answers to the commands, in their order.
unfoldable pub answer_all : Env → ℕ → Bool → List Command → Cmd (Unit {0})
answer_all env idx echo [] = pure tt
answer_all env idx echo (c ∷ cs) = do
  perform env idx (answer_to echo c)
  answer_all env idx (echo_after echo c) cs

-- The text as it is shown to the client, in one write; no text is not written.
unfoldable pub show : Env → ℕ → (shown : Bytes) → Cmd ℤ
show env idx shown =
    if length shown == 0 then pure (pos 0) else sockbuf_on_write env idx telnet_filter_level shown

-- Text is shown where the flags say so, and passed on whole; no text is not.
unfoldable pub pass_on : Env → ℕ → (echo password : Bool) → (shown text : Bytes) → Cmd ℤ
pass_on env idx echo password shown [] = pure (pos 0)
pass_on env idx echo password shown (c ∷ cs) = do
  if echo && not password then show env idx shown else pure (pos 0)
  sockbuf_on_read env idx telnet_filter_level (c ∷ cs)
  pure (pos 0)

ne-== : (a b : ℕ) → a ≢ b → (a == b) ≡ false
ne-== a b ne = ground arith

-- A command at the start is taken out, with its answer and its effect on the flag.
command_step :
    (c : Command) (rest behind : Bytes) (echo : Bool)
    → IsCommand c
    → read_step (at_start (bytes_of c ++ rest) (0 ∷ behind) echo)
      ≡ handled
          (at_start rest (0 ∷ stale (bytes_of c) rest behind) (echo_after echo c))
          (answer_to echo c)
unfolding read_step find_cmd on_type on_do on_dont
command_step (will a) rest behind echo h =
    remove_front (bytes_of (will a)) rest behind echo echo silence
command_step (wont a) rest behind echo h =
    remove_front (bytes_of (wont a)) rest behind echo echo silence
command_step (do_option a) rest behind echo h = elim (Bool-cases (bit_and a 3 == 0)) [
  | inl plain ↦
      rw (on_do, plain)
        (remove_front (bytes_of (do_option a)) rest behind echo echo (mode telnet_wont a))
  | inr wanted ↦ elim (Bool-cases echo) [
    | inl on ↦
        rw (on_do, wanted, on) (remove_front (bytes_of (do_option a)) rest behind true true silence)
    | inr off ↦
        rw (on_do, wanted, off)
          (remove_front (bytes_of (do_option a)) rest behind false true (mode telnet_will a))
  ]
]
command_step (dont_option a) rest behind echo h = elim (Bool-cases (a == 1)) [
  | inr plain ↦
      rw (on_dont, plain) (remove_front (bytes_of (dont_option a)) rest behind echo echo silence)
  | inl wanted ↦ elim (Bool-cases echo) [
    | inl on ↦
        rw (on_dont, wanted, on)
          (remove_front (bytes_of (dont_option a)) rest behind true false (mode telnet_wont a))
    | inr off ↦
        rw (on_dont, wanted, off)
          (remove_front (bytes_of (dont_option a)) rest behind false false silence)
  ]
]
command_step (other t) rest behind echo (a, b, c, d, e, f) =
    rw
      (
        on_type,
        ne-== t 246 a,
        ne-== t 251 b,
        ne-== t 252 c,
        ne-== t 253 d,
        ne-== t 254 e,
        ne-== t 255 f,
      )
      (remove_front (bytes_of (other t)) rest behind echo echo silence)

-- What lies behind the text once the commands are out.
abbrev left_behind : List Command → (text behind : Bytes) → Bytes
left_behind [] text behind = behind
left_behind (c ∷ cs) text behind =
    left_behind cs text (stale (bytes_of c) (bytes_of_all cs ++ text) behind)

read_loop-commands :
    (cs : List Command) (env : Env) (idx fuel : ℕ) (text behind : Bytes) (echo : Bool)
    → length cs < fuel
    → AllCommands cs
    → Lacks 255 text
    → read_loop env idx fuel (at_start (bytes_of_all cs ++ text) (0 ∷ behind) echo)
      ≡ answer_all env idx echo cs
        >> pure (at_start text (0 ∷ left_behind cs text behind) (echo_after_all echo cs))
unfolding read_loop answer_all
read_loop-commands cs env idx zero text behind echo enough all l = absurd (omega arith)
read_loop-commands [] env idx (suc fuel) text behind echo enough all l =
    rw (read_loop, read_step-text text (0 ∷ behind) echo l) refl
read_loop-commands (c ∷ cs) env idx (suc fuel) text behind echo enough (one, all) l =
    let rest = bytes_of_all cs ++ text in
    let next = stale (bytes_of c) rest behind in
    let step = command_step c rest behind echo one in
    let later =
      read_loop-commands cs env idx fuel text next (echo_after echo c) (omega arith) all l in
    rw (read_loop, append_assoc (bytes_of c) (bytes_of_all cs) text, step)
      (ap (λ k. perform env idx (answer_to echo c) >> k) later
        ∙ sym (
            >>_assoc (perform env idx (answer_to echo c))
              (answer_all env idx (echo_after echo c) cs)
              (pure (
                at_start text (0 ∷ left_behind cs text next)
                  (echo_after_all (echo_after echo c) cs)))))

pub deliver-text :
    (env : Env) (before : ℕ) (d : Ptr) (idx : ℕ) (password : Bool) (text shown behind : Bytes)
    (echo : Bool)
    → render before false text ≡ some shown
    → deliver env (suc (length text)) before d idx password (at_start text behind echo)
      ≡ pass_on env idx echo password shown text
unfolding deliver pass_on show
deliver-text env before d idx password [] shown behind echo h = refl
deliver-text env before d idx password (c ∷ cs) shown behind echo h =
    let told : telnet_filter_write env (suc (length (c ∷ cs))) before d idx (c ∷ cs)
        ≡ show env idx shown =
      fun_ext λ s. telnet_write-render env before d idx (c ∷ cs) shown s h in
    rw (take_front cs behind, told) refl

pub read-negotiation :
    (env : Env) (fuel before : ℕ) (d : Ptr) (idx : ℕ) (cs : List Command)
    (text shown behind : Bytes) (echo password : Bool)
    → length cs < fuel
    → AllCommands cs
    → Lacks 255 text
    → render before false text ≡ some shown
    → telnet_filter_read env fuel
        (suc (length text))
        before
        d
        idx
        (bytes_of_all cs ++ text)
        (0 ∷ behind)
        echo
        password
      ≡ answer_all env idx echo cs >> pass_on env idx (echo_after_all echo cs) password shown text
unfolding telnet_filter_read
read-negotiation env fuel before d idx cs text shown behind echo password enough all l h =
    let last = deliver env (suc (length text)) before d idx password in
    let answers = answer_all env idx echo cs in
    let end = at_start text (0 ∷ left_behind cs text behind) (echo_after_all echo cs) in
    fun_ext λ s.
      ap (λ (m : Cmd Reader). and_then (m s) last)
        (read_loop-commands cs env idx fuel text behind echo enough all l)
      ∙ and_then_assoc (answers s) (λ _. pure end) last
      ∙ ap (λ (m : Cmd ℤ). and_then (answers s) (λ _. m))
          (deliver-text env before d idx password text shown (0 ∷ left_behind cs text behind)
            (echo_after_all echo cs) h)
