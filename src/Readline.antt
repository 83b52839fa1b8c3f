-- ===== src/Readline.antt =====
-- c-cpp/readline.c: a prompt with three commands. Texts are their bytes, without NUL; the readline
-- library is what hands in the lines and asks for completions.
pub mod Complete
pub mod Line
use examples.Common.{
  ℕ, zero, suc, ◌+◌, ◌-◌, Bool, true, false, ◌&&◌, ◌||◌, not, Option, none, some, List, [], ◌∷◌,
  ◌++◌, Bytes, ◌==◌, if◌then◌else◌, length, take, drop, codes,
}
use examples.Circ.Text.{lower, non_empty}

-- !strncasecmp (a, b, n)
unfoldable pub same_start : (n : ℕ) → Bytes → Bytes → Bool
same_start zero a b = true
same_start (suc n) [] [] = true
same_start (suc n) [] (b ∷ bs) = false
same_start (suc n) (a ∷ as') [] = false
same_start (suc n) (a ∷ as') (b ∷ bs) = lower a == lower b && same_start n as' bs

pub data Callback : Type 0 where
  help : Callback
  shell : Callback
  exit : Callback

pub record Command : Type 0 where
  pub name : Bytes
  pub callback : Callback
  pub usage : Bytes

abbrev pub cmd_list : List Command
cmd_list =
    record { name = codes "help"; callback = help; usage = codes "help [command]: display help" }
    ∷ record {
      name = codes "shell";
      callback = shell;
      usage = codes "shell <server>: change shell server";
    }
    ∷ record { name = codes "exit"; callback = exit; usage = codes "exit: exit shutils" }
    ∷ record { name = codes "quit"; callback = exit; usage = codes "quit: exit shutils" }
    ∷ []

-- The loop of `cmd_find` over what is left of the table.
unfoldable pub find_from : List Command → Bytes → Option Command
find_from [] cmd = none
find_from (c ∷ rest) cmd =
    if same_start (length c.name) cmd c.name then some c else find_from rest cmd

unfoldable pub cmd_find : Bytes → Option Command
cmd_find cmd = find_from cmd_list cmd

-- The static variables of `cmd_list_generator`.
pub record Generator : Type 0 where
  pub i : ℕ
  pub len : ℕ

-- The loop, over the rest of the table from `i` on: the name that is returned, or NULL.
unfoldable pub next_name : List Command → Bytes → Generator → Option Bytes × Generator
next_name [] cmd g = (none, g)
next_name (c ∷ rest) cmd g =
    let found : Option Bytes × Generator = (some c.name, record g { i = g.i + 1 }) in
    let later = next_name rest cmd (record g { i = g.i + 1 }) in
    if same_start g.len cmd c.name then found else later

unfoldable pub cmd_list_generator : (state : ℕ) → Bytes → Generator → Option Bytes × Generator
cmd_list_generator zero cmd g = next_name cmd_list cmd (record { i = 0; len = length cmd })
cmd_list_generator (suc state) cmd g = next_name (drop g.i cmd_list) cmd g

abbrev pub prepend : Option Bytes → Option (List Bytes) → Option (List Bytes)
prepend none more = some []
prepend (some name) none = none
prepend (some name) (some names) = some (name ∷ names)

-- `rl_completion_matches` calls the generator, with state 0 the first time, until it returns NULL.
unfoldable pub matches : (fuel state : ℕ) → Bytes → Generator → Option (List Bytes)
matches zero state cmd g = none
matches (suc fuel) state cmd g =
    let call = cmd_list_generator state cmd g in
    prepend call.0 (matches fuel (suc state) cmd call.1)

-- Completion is offered for the first word of the line only.
unfoldable pub shutils_completor : (fuel start : ℕ) → Bytes → Generator → Option (List Bytes)
shutils_completor fuel start cmd g = if start == 0 then matches fuel 0 cmd g else some []

-- `prompt` is NULL or the text; `printed` and `history` are the lines so far.
pub record State : Type 0 where
  pub prompt : Option Bytes
  pub printed : List Bytes
  pub history : List Bytes

pub data Outcome : Type 0 where
  running : State → Outcome
  exited : State → Outcome
  fault : Outcome

unfoldable pub usages : Option Bytes → List Command → List Bytes
usages args [] = []
usages none (c ∷ rest) = c.usage ∷ usages none rest
usages (some args) (c ∷ rest) =
    let others = usages (some args) rest in
    if same_start (length args) args c.name then c.usage ∷ others else others

unfoldable pub cmd_help : Option Bytes → State → State
unfolding usages
cmd_help args s = record s { printed = s.printed ++ usages args cmd_list }

-- snprintf (prompt, len, "shutils:%s# ", args) writes len - 1 bytes and NUL at most.
unfoldable pub cmd_shell : Option Bytes → State → State
unfolding cmd_help
cmd_shell none s = cmd_help (some (codes "shell")) s
cmd_shell (some args) s =
    let len = 11 + length args in
    record s { prompt = some (take (len - 1) (codes "shutils:" ++ (args ++ codes "# "))) }

unfoldable pub run_command : Callback → Option Bytes → State → Outcome
unfolding cmd_help cmd_shell
run_command help args s = running (cmd_help args s)
run_command shell args s = running (cmd_shell args s)
run_command exit args s = exited s

abbrev pub is_blank : ℕ → Bool
is_blank c = c == b' ' || c == 9

unfoldable pub skip_blanks : Bytes → Bytes
skip_blanks [] = []
skip_blanks (c ∷ cs) = let rest = skip_blanks cs in if is_blank c then rest else c ∷ cs

-- The token, and what is behind the blank that ends it.
unfoldable pub split_word : Bytes → Bytes × Bytes
split_word [] = ([], [])
split_word (c ∷ cs) = let (a, b) = split_word cs in if is_blank c then ([], cs) else (c ∷ a, b)

-- cmd = strtok (tokline, " \t"); NULL where there is no token.
unfoldable pub command_word : Bytes → Option Bytes
command_word line = non_empty (split_word (skip_blanks line)).0

-- args = strtok (NULL, "\0"), with no delimiter.
unfoldable pub arguments : Bytes → Option Bytes
arguments line = non_empty (split_word (skip_blanks line)).1

-- From the test for "exit" on, with the word of the line.
unfoldable pub run_word : (cmd line : Bytes) → State → Outcome
run_word cmd line s = if same_start 4 (codes "exit") cmd then exited s else elim (cmd_find cmd) [
  | none ↦ running s
  | some c ↦ run_command c.callback (arguments line) (record s { history = s.history ++ line ∷ [] })
]

-- The body of the loop in `main`; a NULL `cmd` is read by strncasecmp.
unfoldable pub run_line : Bytes → State → Outcome
run_line line s = elim (command_word line) [ none ↦ fault | some cmd ↦ run_word cmd line s ]

-- The lines up to the end of the input.
unfoldable pub run_lines : List Bytes → State → Outcome
run_lines [] s = exited s
run_lines (line ∷ lines) s = elim (run_line line s) [
  | running s' ↦ run_lines lines s'
  | exited s' ↦ exited s'
  | fault ↦ fault
]

-- `main`: cmd_shell ("local"), and the loop.
unfoldable pub main : List Bytes → Outcome
main lines =
    run_lines lines
      (cmd_shell (some (codes "local")) (record { prompt = none; printed = []; history = [] }))
