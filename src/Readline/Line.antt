-- ===== src/Readline/Line.antt =====
-- The commands of c-cpp/readline.c: which line runs what, and the prompt.
use examples.Common.{
  ℕ, zero, suc, ◌+◌, ◌-◌, ◌≡◌, ◌≢◌, ◌↔◌, inl, inr, refl, ap, true, Option, none, some, [], ◌∷◌,
  ◌++◌, Bytes, length, arith, Option-cases, get_elem?, Bool-cases, length-append, codes,
  take_le_all,
}
use examples.Readline.{
  Command, Callback, cmd_list, same_start, find_from, cmd_find, State, fault, cmd_shell,
  run_command, is_blank, skip_blanks, split_word, command_word, run_line, run_word, arguments,
}

-- The prompt is "shutils:", the server and "# ", whole: the buffer of 11 more bytes holds it with
-- its NUL. Nothing else changes.
shell-prompt :
    (args : Bytes) (s : State)
    → cmd_shell (some args) s
      ≡ record s { prompt = some (codes "shutils:" ++ (args ++ codes "# ")) }
unfolding cmd_shell
shell-prompt args s =
    ap (λ text. record s { prompt = some text })
      (take_le_all (11 + length args - 1) (codes "shutils:" ++ (args ++ codes "# "))
        (omega (arith, length-append args (codes "# "))))

-- Only blanks.
abbrev pub AllBlank : Bytes → Type 0
AllBlank [] = Unit {0}
AllBlank (c ∷ cs) = (is_blank c ≡ true) × AllBlank cs

skip_blanks-nil : (line : Bytes) → AllBlank line → skip_blanks line ≡ []
unfolding skip_blanks
skip_blanks-nil [] all = refl
skip_blanks-nil (c ∷ cs) (blank, all) = rw (blank, skip_blanks-nil cs all) refl

command_word-blank : (line : Bytes) → command_word line ≡ none → AllBlank line
unfolding command_word skip_blanks split_word
command_word-blank [] e = tt
command_word-blank (c ∷ cs) e = elim (Bool-cases (is_blank c)) [
  | inl blank ↦ (blank, command_word-blank cs (rw blank at e))
  | inr solid ↦ cc (rw solid at e)
]

run_command-ne-fault :
    (c : Callback) (args : Option Bytes) (s : State) → run_command c args s ≢ fault
unfolding run_command
run_command-ne-fault Callback.help args s e = cc
run_command-ne-fault Callback.shell args s e = cc
run_command-ne-fault Callback.exit args s e = cc

run_word-ne-fault : (cmd line : Bytes) (s : State) → run_word cmd line s ≢ fault
unfolding run_word
run_word-ne-fault cmd line s e = elim (Bool-cases (same_start 4 (codes "exit") cmd)) [
  | inl stop ↦ cc (rw stop at e)
  | inr go ↦ elim (Option-cases (cmd_find cmd)) [
    | inl missing ↦ cc (rw (go, missing) at e)
    | inr (c, found) ↦
        run_command-ne-fault c.callback (arguments line)
          (record s { history = s.history ++ line ∷ [] }) (rw (go, found) at e)
  ]
]

blank-command_word : (line : Bytes) → AllBlank line → command_word line ≡ none
unfolding command_word split_word
blank-command_word line all = rw (skip_blanks-nil line all) refl

-- A line is read through a null pointer exactly where it holds nothing but blanks, the empty line
-- included.
pub run_line-fault : (line : Bytes) (s : State) → (run_line line s ≡ fault) ↔ AllBlank line
unfolding run_line
run_line-fault line s = (
  λ e. elim (Option-cases (command_word line)) [
    | inl missing ↦ command_word-blank line missing
    | inr (cmd, found) ↦ absurd (run_word-ne-fault cmd line s (rw (run_line, found) at e))
  ],
  λ all. rw (run_line, blank-command_word line all) refl,
)

-- A word runs the command whose name it begins with, without regard to case: what follows the name
-- makes no difference, and no other command of the table comes before it.
cmd_find-name :
    (cmd : Bytes) (i : ℕ) (c : Command)
    → get_elem? cmd_list i ≡ some c
    → same_start (length c.name) cmd c.name ≡ true
    → cmd_find cmd ≡ some c
unfolding cmd_find find_from same_start
cmd_find-name [] zero c at start = ground arith
cmd_find-name [] (suc zero) c at start = ground arith
cmd_find-name [] (suc (suc zero)) c at start = ground arith
cmd_find-name [] (suc (suc (suc zero))) c at start = ground arith
cmd_find-name cmd (suc (suc (suc (suc i)))) c at start = cc
cmd_find-name (x ∷ xs) zero c at start = ground arith
cmd_find-name (x ∷ xs) (suc zero) c at start = ground arith
cmd_find-name (x ∷ xs) (suc (suc zero)) c at start = ground arith
cmd_find-name (x ∷ xs) (suc (suc (suc zero))) c at start = ground arith
