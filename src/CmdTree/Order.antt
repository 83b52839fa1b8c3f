-- ===== src/CmdTree/Order.antt =====
-- Abbreviations in other/larne-tree_example.cc: the comparison of two bounds finds the first name
-- that begins with the word.
use examples.Common.{
  ℕ, suc, true, false, ◌≡◌, refl, sym, inl, inr, none, Bytes, arith, ◌==◌, if◌then◌else◌,
  Bool-cases, take, length,
}
use examples.CmdTree.Text.{
  text_eq, text_lt, text_eq_refl, eq_of_text_eq, text_lt_trans, text_lt_irrefl, text_total,
  between-prefix, prefix-le,
}
use examples.CmdTree.{
  Cmd, Cmds, end, entry, find_key, lower_bound, upper_bound, at_place, starts_with, abbreviated,
  picked, take_word, rest_mark, single_mark, Taken, named, unknown,
}
use examples.CmdTree.Maps.{Above, AllOrdered}

-- The first name of the map that begins with the word, by a search through all of them.
unfoldable pub first_with : Cmds → Bytes → Taken
first_with end word = unknown
first_with (entry k c rest) word = if starts_with k word then named c else first_with rest word

text_asym : (a b : Bytes) → text_lt a b ≡ true → text_lt b a ≡ false
text_asym a b h = ground (arith, text_lt_trans a b a h, text_lt_irrefl a)

none_with :
    (k word : Bytes) (subs : Cmds)
    → Above k subs
    → text_lt k word ≡ false
    → starts_with k word ≡ false
    → first_with subs word ≡ unknown
unfolding first_with starts_with
none_with k word end above h n = refl
none_with k word (entry j c rest) (first, above) h n = elim (Bool-cases (starts_with j word)) [
  | inl with_it ↦ cc (between-prefix word k j h (text_asym k j first) with_it)
  | inr without ↦ rw without (none_with k word rest above h n)
]

suc_== : (a b : ℕ) → (suc a == suc b) ≡ (a == b)
suc_== a b = ground arith

not_prefix : (k word : Bytes) → text_lt k word ≡ true → starts_with k word ≡ false
unfolding starts_with
not_prefix k word before = elim (Bool-cases (text_eq (take (length word) k) word)) [
  | inl with_it ↦ cc (prefix-le word k with_it)
  | inr without ↦ without
]

other_key :
    (k : Bytes) (c : Cmd) (rest : Cmds) (word : Bytes)
    → find_key (entry k c rest) word ≡ none
    → text_eq k word ≡ false
unfolding find_key
other_key k c rest word missing = ground arith

text_eq_sym : (a b : Bytes) → text_eq a b ≡ false → text_eq b a ≡ false
text_eq_sym a b ne = ground (arith, eq_of_text_eq b a, text_eq_refl a)

-- Where the word is no key, an abbreviation is the first name that begins with it.
pub abbreviated-first_with :
    (subs : Cmds) (word : Bytes)
    → AllOrdered subs
    → find_key subs word ≡ none
    → abbreviated subs word ≡ first_with subs word
unfolding AllOrdered find_key first_with abbreviated picked lower_bound upper_bound at_place
abbreviated-first_with end word ord missing = refl
abbreviated-first_with (entry k c rest) word (above, ord, ords) missing =
    elim (Bool-cases (text_lt k word)) [
      | inl before ↦
          let apart : starts_with k word ≡ false = not_prefix k word before in
          let other : text_eq k word ≡ false = other_key k c rest word missing in
          let both_pass = suc_== (lower_bound rest word) (upper_bound rest word) in
          rw (before, text_asym k word before, both_pass, apart)
            (abbreviated-first_with rest word ords (rw other at missing))
      | inr behind ↦
          let other : text_eq k word ≡ false = other_key k c rest word missing in
          let after : text_lt word k ≡ true = text_total word k (text_eq_sym k word other) behind in
          elim (Bool-cases (starts_with k word)) [
            | inl with_it ↦ rw (behind, after, with_it) refl
            | inr without ↦
                rw (behind, after, without) (sym (none_with k word rest above behind without))
          ]
    ]

-- A word that is no key, under a command without "!R" and "!S" below it, is taken for the first
-- name in ascending order that begins with it, and is unknown where no name does.
pub take_word-first_with :
    (subs : Cmds) (word : Bytes)
    → AllOrdered subs
    → find_key subs word ≡ none
    → find_key subs rest_mark ≡ none
    → find_key subs single_mark ≡ none
    → take_word subs word ≡ first_with subs word
unfolding take_word
take_word-first_with subs word ord missing no_rest no_single =
    rw (take_word, missing, no_rest, no_single) (abbreviated-first_with subs word ord missing)
