-- ===== src/CmdTree/Maps.antt =====
-- The maps of other/larne-tree_example.cc: their order, and what is found after an edit.
use examples.Common.{
  ℕ, true, false, ◌≡◌, refl, inl, inr, List, [], ◌∷◌, Option, none, some, Bytes, arith,
  if◌then◌else◌, Bool-cases,
}
use examples.CmdTree.Text.{
  text_eq, text_lt, text_eq_refl, eq_of_text_eq, text_lt_trans, text_lt_irrefl, text_total,
}
use examples.CmdTree.{
  Cmd, cmd, Cmds, end, entry, fresh_cmd, find_key, edit_key, edit_below, put_command, add,
}

-- Every key of the map is above the text.
abbrev pub Above : Bytes → Cmds → Type 0
Above key end = Unit {0}
Above key (entry k c rest) = (text_lt key k ≡ true) × Above key rest

-- The keys ascend, in the map and in the maps below.
unfoldable mutual
  pub IsOrdered : Cmd → Type 0
  IsOrdered (cmd subs f desc) = AllOrdered subs

  pub AllOrdered : Cmds → Type 0
  AllOrdered end = Unit {0}
  AllOrdered (entry k c rest) = Above k rest × IsOrdered c × AllOrdered rest

pub fresh_cmd-IsOrdered : IsOrdered fresh_cmd
unfolding IsOrdered AllOrdered
fresh_cmd-IsOrdered = tt

abbrev pub or_fresh : Option Cmd → Cmd
or_fresh none = fresh_cmd
or_fresh (some c) = c

Above-trans : (a b : Bytes) (subs : Cmds) → text_lt a b ≡ true → Above b subs → Above a subs
Above-trans a b end lt above = tt
Above-trans a b (entry k c rest) lt (first, above) =
    (text_lt_trans a b k lt first, Above-trans a b rest lt above)

Above-find_key : (key : Bytes) (subs : Cmds) → Above key subs → find_key subs key ≡ none
unfolding find_key
Above-find_key key end above = refl
Above-find_key key (entry k c rest) (first, above) = elim (Bool-cases (text_eq k key)) [
  | inl same ↦ absurd (ground (arith, eq_of_text_eq k key, text_lt_irrefl key))
  | inr other ↦ rw other (Above-find_key key rest above)
]

edit_key-Above :
    (low key : Bytes) (subs : Cmds) (edit : Cmd → Cmd)
    → text_lt low key ≡ true
    → Above low subs
    → Above low (edit_key subs key edit)
unfolding edit_key
edit_key-Above low key end edit lt above = (lt, tt)
edit_key-Above low key (entry k c rest) edit lt (first, above) =
    ground (arith, edit_key-Above low key rest edit lt above)

pub edit_key-AllOrdered :
    (subs : Cmds) (key : Bytes) (edit : Cmd → Cmd)
    → ((c : Cmd) → IsOrdered c → IsOrdered (edit c))
    → AllOrdered subs
    → AllOrdered (edit_key subs key edit)
unfolding edit_key AllOrdered
edit_key-AllOrdered end key edit keep ord = (tt, keep fresh_cmd fresh_cmd-IsOrdered, tt)
edit_key-AllOrdered (entry k c rest) key edit keep (above, ord, ords) =
    elim (Bool-cases (text_eq k key)) [
      | inl same ↦ rw same (above, keep c ord, ords)
      | inr other ↦ elim (Bool-cases (text_lt key k)) [
        | inl before ↦
            rw (other, before)
              (
                (before, Above-trans key k rest before above),
                keep fresh_cmd fresh_cmd-IsOrdered,
                (above, ord, ords),
              )
        | inr behind ↦
            rw (other, behind)
              (
                edit_key-Above k key rest edit (text_total k key other behind) above,
                ord,
                edit_key-AllOrdered rest key edit keep ords,
              )
      ]
    ]

-- A name is not two keys.
moved :
    (k key j : Bytes) (c : Cmd) (other rest : Option Cmd)
    → text_eq k key ≡ false
    → (if text_eq k j then some c else (if text_eq key j then other else rest))
      ≡ (if text_eq key j then other else if text_eq k j then some c else rest)
moved k key j c other rest ne =
    ground (arith, eq_of_text_eq key j, eq_of_text_eq k j, text_eq_refl k)

-- What is under a key after an edit.
pub find_key-edit_key :
    (subs : Cmds) (key j : Bytes) (edit : Cmd → Cmd)
    → AllOrdered subs
    → find_key (edit_key subs key edit) j
      ≡ (if text_eq key j then some (edit (or_fresh (find_key subs key))) else find_key subs j)
unfolding find_key edit_key AllOrdered
find_key-edit_key end key j edit ord = refl
find_key-edit_key (entry k c rest) key j edit (above, ord, ords) =
    elim (Bool-cases (text_eq k key)) [
      | inl same ↦ rw (same, eq_of_text_eq k key same) (ground arith)
      | inr other ↦ elim (Bool-cases (text_lt key k)) [
        | inl before ↦
            let missing : find_key rest key ≡ none =
              Above-find_key key rest (Above-trans key k rest before above) in
            rw (other, before, missing) refl
        | inr behind ↦
            rw (other, behind, find_key-edit_key rest key j edit ords)
              (moved k key j c (some (edit (or_fresh (find_key rest key)))) (find_key rest j) other)
      ]
    ]

put_command-IsOrdered :
    (f : Option ℕ) (desc : Bytes) (c : Cmd) → IsOrdered c → IsOrdered (put_command f desc c)
unfolding IsOrdered
put_command-IsOrdered f desc (cmd subs f' desc') ord = ord

pub edit_below-IsOrdered :
    (c : Cmd) (key : Bytes) (edit : Cmd → Cmd)
    → ((c : Cmd) → IsOrdered c → IsOrdered (edit c))
    → IsOrdered c
    → IsOrdered (edit_below c key edit)
unfolding IsOrdered
edit_below-IsOrdered (cmd subs f desc) key edit keep ord =
    edit_key-AllOrdered subs key edit keep ord

-- Adding a command keeps the keys of every map in ascending order, at any depth.
pub add-IsOrdered :
    (words : List Bytes) (c : Cmd) (word : Bytes) (f : Option ℕ) (desc : Bytes)
    → IsOrdered c
    → IsOrdered (add c word words f desc)
unfolding add
add-IsOrdered [] c word f desc ord =
    edit_below-IsOrdered c word (put_command f desc) (put_command-IsOrdered f desc) ord
add-IsOrdered (next ∷ words) c word f desc ord =
    edit_below-IsOrdered c word (λ sub. add sub next words f desc)
      (λ sub o. add-IsOrdered words sub next f desc o) ord
