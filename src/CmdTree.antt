-- ===== src/CmdTree.antt =====
-- other/larne-tree_example.cc: a tree of commands, each with the map of the commands below it.
-- Strings are their bytes; `std::map` is the list of its entries in the order of their keys.
pub mod Text
pub mod Maps
pub mod Order
pub mod Laws
use examples.Common.{
  ℕ, zero, suc, ◌+◌, Bool, true, false, ◌&&◌, not, Option, none, some, List, [], ◌∷◌, ◌++◌, Bytes,
  ◌==◌, if◌then◌else◌, length, take,
}
use examples.CmdTree.Text.{text_eq, text_lt}

-- `callback` is NULL or the address of the command's function.
mutual
  pub data Cmd : Type 0 where
    cmd : (sub_cmds : Cmds) (callback : Option ℕ) (desc : Bytes) → Cmd

  pub data Cmds : Type 0 where
    end : Cmds
    entry : (key : Bytes) → Cmd → Cmds → Cmds

abbrev pub sub_cmds : Cmd → Cmds
sub_cmds (cmd subs f desc) = subs

abbrev pub callback : Cmd → Option ℕ
callback (cmd subs f desc) = f

abbrev pub fresh_cmd : Cmd
fresh_cmd = cmd end none []

-- sub_cmds.find (key)
unfoldable pub find_key : Cmds → Bytes → Option Cmd
find_key end key = none
find_key (entry k c rest) key = if text_eq k key then some c else find_key rest key

-- The places of lower_bound (key) and upper_bound (key), and what an iterator at a place points to.
unfoldable pub lower_bound : Cmds → Bytes → ℕ
lower_bound end key = 0
lower_bound (entry k c rest) key = if text_lt k key then suc (lower_bound rest key) else 0

unfoldable pub upper_bound : Cmds → Bytes → ℕ
upper_bound end key = 0
upper_bound (entry k c rest) key = if text_lt key k then 0 else suc (upper_bound rest key)

unfoldable pub at_place : Cmds → ℕ → Option (Bytes × Cmd)
at_place end i = none
at_place (entry k c rest) zero = some (k, c)
at_place (entry k c rest) (suc i) = at_place rest i

-- sub_cmds[key], changed by `edit`; a key that is missing is put in its place first.
unfoldable pub edit_key : Cmds → Bytes → (Cmd → Cmd) → Cmds
edit_key end key edit = entry key (edit fresh_cmd) end
edit_key (entry k c rest) key edit =
    if text_eq k key
    then entry k (edit c) rest
    else if text_lt key k
    then entry key (edit fresh_cmd) (entry k c rest)
    else entry k c (edit_key rest key edit)

abbrev pub edit_below : Cmd → Bytes → (Cmd → Cmd) → Cmd
edit_below (cmd subs f desc) key edit = cmd (edit_key subs key edit) f desc

abbrev pub put_command : Option ℕ → Bytes → Cmd → Cmd
put_command f desc (cmd subs f' desc') = cmd subs f desc

-- `cmd::add` on the words `word ∷ words`.
unfoldable pub add : Cmd → Bytes → List Bytes → Option ℕ → Bytes → Cmd
add c word [] f desc = edit_below c word (put_command f desc)
add c word (next ∷ words) f desc = edit_below c word (λ sub. add sub next words f desc)

-- `cmd::add` on a line, which `str::tokenise` splits; on no words it reads args[0] out of range.
unfoldable pub add_line : (Bytes → List Bytes) → Cmd → Bytes → Option ℕ → Bytes → Option Cmd
add_line tokenise c line f desc = elim (tokenise line) [
  | [] ↦ none
  | word ∷ words ↦ some (add c word words f desc)
]

-- Every word, and a space behind each.
unfoldable pub joined : List Bytes → Bytes
joined [] = []
joined (word ∷ words) = word ++ (b' ' ∷ joined words)

-- How the first word is taken: as a name, as the argument that "!S" stands for, as the first of
-- the arguments that "!R" stands for, or not at all.
pub data Taken : Type 0 where
  named : Cmd → Taken
  argument : Cmd → Taken
  all_arguments : Cmd → Taken
  unknown : Taken

abbrev pub rest_mark : Bytes
rest_mark = b'!' ∷ b'R' ∷ []

abbrev pub single_mark : Bytes
single_mark = b'!' ∷ b'S' ∷ []

-- low_it->first.substr (0, key.size ()) == key
unfoldable pub starts_with : (name key : Bytes) → Bool
starts_with name key = text_eq (take (length key) name) key

-- The entry at low_it, where it is no end and the two iterators are `equal`.
unfoldable pub picked : (equal : Bool) → Bytes → Option (Bytes × Cmd) → Taken
picked equal word none = unknown
picked equal word (some (name, c)) = if equal && starts_with name word then named c else unknown

unfoldable pub abbreviated : Cmds → Bytes → Taken
abbreviated subs word =
    picked (lower_bound subs word == upper_bound subs word) word
      (at_place subs (lower_bound subs word))

unfoldable pub take_word : Cmds → Bytes → Taken
take_word subs word = elim (find_key subs word) [
  | some c ↦ named c
  | none ↦ elim (find_key subs rest_mark) [
    | some c ↦ all_arguments c
    | none ↦ elim (find_key subs single_mark) [ some c ↦ argument c | none ↦ abbreviated subs word ]
  ]
]

-- The result of `cmd::find`: what it stores in `ret` where it returns true, and `argret`.
pub record Search : Type 0 where
  pub ret : Option Cmd
  pub argret : List Bytes

-- The test once one word is left.
unfoldable pub arrive : Cmd → List Bytes → (incomp : Bool) → Search
arrive (cmd subs none desc) argret incomp = record {
  ret = if incomp then some (cmd subs none desc) else none;
  argret = argret;
}
arrive (cmd subs (some f) desc) argret incomp = record {
  ret = some (cmd subs (some f) desc);
  argret = argret;
}

unfoldable pub find : Cmd → (argret : List Bytes) → Bytes → List Bytes → (incomp : Bool) → Search
find c argret word [] incomp = elim (take_word (sub_cmds c) word) [
  | unknown ↦ record { ret = none; argret = argret }
  | all_arguments sub ↦ arrive sub (argret ++ joined (word ∷ []) ∷ []) incomp
  | argument sub ↦ arrive sub (argret ++ word ∷ []) incomp
  | named sub ↦ arrive sub argret incomp
]
find c argret word (next ∷ words) incomp = elim (take_word (sub_cmds c) word) [
  | unknown ↦ record { ret = none; argret = argret }
  | all_arguments sub ↦ arrive sub (argret ++ joined (word ∷ next ∷ words) ∷ []) incomp
  | argument sub ↦ find sub (argret ++ word ∷ []) next words incomp
  | named sub ↦ find sub argret next words incomp
]
