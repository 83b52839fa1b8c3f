-- ===== src/Circ/Parse/Bound.antt =====
-- How many parameters `circ_parse` of c-cpp/circ/circ.c stores.
use examples.Common.{
  Option-cases, Bool-cases, ℕ, zero, suc, ◌+◌, ◌≤◌, ◌≡◌, refl, inl, inr, [], ◌∷◌, Bytes, arith, ltb,
  ◌==◌, take, c_string, length,
}
use examples.Circ.Text.{cut_space}
use examples.Circ.Parse.{
  Message, empty_message, parse_args, parse_command, split_hostmask, parse_text, circ_parse,
}

args_bound :
    (rounds argc : ℕ) (text : Bytes)
    → rounds + argc ≡ 18
    → length (parse_args rounds argc text) + argc ≤ 18
unfolding parse_args
args_bound zero argc text r = omega arith
args_bound (suc rounds) argc [] r = omega arith
args_bound (suc rounds) argc (c ∷ cs) r = elim (Bool-cases (c == b':')) [
  | inl colon ↦ elim (Bool-cases (ltb argc 19)) [
    | inl few ↦ rw (colon, few) (omega arith)
    | inr many ↦ rw (colon, many) (omega arith)
  ]
  | inr plain ↦ elim (Option-cases (cut_space (c ∷ cs))) [
    | inl no_space ↦ rw (plain, no_space) (omega arith)
    | inr ((a, rest), cut) ↦
        let more = args_bound rounds (argc + 1) rest (omega arith) in
        elim (Bool-cases (argc + 1 == 18)) [
          | inl full ↦ rw (plain, cut, full) (omega arith)
          | inr go_on ↦ rw (plain, cut, go_on) (omega (arith, more))
        ]
  ]
]

command_bound :
    (msg : Message) (text : Bytes)
    → length msg.argv ≤ 18
    → length (parse_command msg text).argv ≤ 18
unfolding parse_command
command_bound msg text h = elim (Option-cases (cut_space text)) [
  | inl no_space ↦ rw (parse_command, no_space) h
  | inr ((a, rest), cut) ↦ rw (parse_command, cut) (omega (arith, args_bound 18 0 rest refl))
]

text_bound : (text : Bytes) → length (parse_text text).argv ≤ 18
unfolding parse_text split_hostmask
text_bound [] = command_bound empty_message [] (omega arith)
text_bound (c ∷ cs) = elim (Bool-cases (c == b':')) [
  | inr plain ↦ rw (parse_text, plain) (command_bound empty_message (c ∷ cs) (omega arith))
  | inl colon ↦ elim (Option-cases (cut_space cs)) [
    | inl no_space ↦ rw (parse_text, colon, no_space) (omega arith)
    | inr ((mask, rest), cut) ↦
        rw (parse_text, colon, cut) (command_bound (split_hostmask mask) rest (omega arith))
  ]
]

-- Whatever the text, at most 18 parameters are stored, one less than `argv` has room for.
pub parse-argv_bound : (text : Bytes) → length (circ_parse text).argv ≤ 18
unfolding circ_parse parse_text parse_command split_hostmask
parse-argv_bound text = text_bound (take 512 (c_string text))
