-- ===== src/CmdTree/Laws.antt =====
-- `cmd::add` and `cmd::find` of other/larne-tree_example.cc together.
use examples.Common.{
  ℕ, Bool, true, false, ◌&&◌, ◌≡◌, refl, ap, inl, inr, Option, some, List, [], ◌∷◌, Bytes,
  if◌then◌else◌, Bool-cases,
}
use examples.CmdTree.Text.{text_eq, text_eq_refl, eq_of_text_eq}
use examples.CmdTree.{
  Cmd, cmd, Cmds, entry, end, sub_cmds, callback, find_key, edit_key, edit_below, put_command, add,
  take_word, find, arrive, named,
}
use examples.CmdTree.Maps.{IsOrdered, AllOrdered, or_fresh, fresh_cmd-IsOrdered, find_key-edit_key}

-- The command under the words, each taken as a key; a fresh one where there is none.
unfoldable pub cmd_at : Cmd → Bytes → List Bytes → Cmd
cmd_at c word [] = or_fresh (find_key (sub_cmds c) word)
cmd_at c word (next ∷ words) = cmd_at (or_fresh (find_key (sub_cmds c) word)) next words

-- The same words.
abbrev pub same_words : Bytes → List Bytes → Bytes → List Bytes → Bool
same_words a [] b [] = text_eq a b
same_words a [] b (next ∷ bs) = false
same_words a (next ∷ as') b [] = false
same_words a (next ∷ as') b (next' ∷ bs) = text_eq a b && same_words next as' next' bs

below-IsOrdered :
    (subs : Cmds) (word : Bytes) → AllOrdered subs → IsOrdered (or_fresh (find_key subs word))
unfolding AllOrdered find_key
below-IsOrdered end word ord = fresh_cmd-IsOrdered
below-IsOrdered (entry k c rest) word (above, ord, ords) =
    elim (text_eq k word)
      as (λ b. IsOrdered (or_fresh (if b then some c else find_key rest word))) [
        | true ↦ ord
        | false ↦ below-IsOrdered rest word ords
      ]

if_or_fresh :
    (b : Bool) (x : Cmd) (o : Option Cmd)
    → or_fresh (if b then some x else o) ≡ (if b then x else or_fresh o)
if_or_fresh true x o = refl
if_or_fresh false x o = refl

callback-put_command : (f : Option ℕ) (desc : Bytes) (c : Cmd) → callback (put_command f desc c) ≡ f
callback-put_command f desc (cmd subs f' desc') = refl

sub_cmds-put_command :
    (f : Option ℕ) (desc : Bytes) (c : Cmd) → sub_cmds (put_command f desc c) ≡ sub_cmds c
sub_cmds-put_command f desc (cmd subs f' desc') = refl

callback-edit_below :
    (c : Cmd) (key : Bytes) (edit : Cmd → Cmd) → callback (edit_below c key edit) ≡ callback c
callback-edit_below (cmd subs f desc) key edit = refl

callback-add_below :
    (words : List Bytes) (c : Cmd) (word : Bytes) (f : Option ℕ) (desc : Bytes)
    → callback (add c word words f desc) ≡ callback c
unfolding add
callback-add_below [] c word f desc = callback-edit_below c word (put_command f desc)
callback-add_below (next ∷ words) c word f desc =
    callback-edit_below c word (λ sub. add sub next words f desc)

cmd_at-put_command :
    (f : Option ℕ) (desc : Bytes) (c : Cmd) (w : Bytes) (ws : List Bytes)
    → cmd_at (put_command f desc c) w ws ≡ cmd_at c w ws
unfolding cmd_at
cmd_at-put_command f desc c w [] = rw (sub_cmds-put_command f desc c) refl
cmd_at-put_command f desc c w (v ∷ ws) = rw (sub_cmds-put_command f desc c) refl

find_key-edit_below :
    (c : Cmd) (key j : Bytes) (edit : Cmd → Cmd)
    → IsOrdered c
    → or_fresh (find_key (sub_cmds (edit_below c key edit)) j) ≡ (
        if text_eq key j
        then edit (or_fresh (find_key (sub_cmds c) key))
        else or_fresh (find_key (sub_cmds c) j))
unfolding IsOrdered
find_key-edit_below (cmd subs f desc) key j edit ord =
    rw (find_key-edit_key subs key j edit ord) (if_or_fresh (text_eq key j) _ _)

under-IsOrdered :
    (c : Cmd) (word : Bytes) → IsOrdered c → IsOrdered (or_fresh (find_key (sub_cmds c) word))
unfolding IsOrdered
under-IsOrdered (cmd subs f desc) word ord = below-IsOrdered subs word ord

-- What an edit put under a key is what the search takes the key for.
take_word-edit_below :
    (c : Cmd) (key : Bytes) (edit : Cmd → Cmd)
    → IsOrdered c
    → take_word (sub_cmds (edit_below c key edit)) key
      ≡ named (edit (or_fresh (find_key (sub_cmds c) key)))
unfolding IsOrdered take_word
take_word-edit_below (cmd subs f desc) key edit ord =
    let found : find_key (edit_key subs key edit) key ≡ some (edit (or_fresh (find_key subs key))) =
      rw (find_key-edit_key subs key key edit ord, text_eq_refl key) refl in
    rw (take_word, found) refl

-- Adding a command gives its words the callback and leaves the callback under all other words.
pub callback-add :
    (words : List Bytes) (c : Cmd) (word : Bytes) (f : Option ℕ) (desc : Bytes) (w : Bytes)
    (ws : List Bytes)
    → IsOrdered c
    → callback (cmd_at (add c word words f desc) w ws)
      ≡ (if same_words word words w ws then f else callback (cmd_at c w ws))
unfolding add cmd_at
callback-add [] c word f desc w [] ord =
    rw (find_key-edit_below c word w (put_command f desc) ord) (elim (Bool-cases (text_eq word w)) [
      | inl same ↦ rw same (callback-put_command f desc (or_fresh (find_key (sub_cmds c) word)))
      | inr other ↦ rw other refl
    ])
callback-add [] c word f desc w (v ∷ ws) ord =
    rw (find_key-edit_below c word w (put_command f desc) ord) (elim (Bool-cases (text_eq word w)) [
      | inl same ↦
          rw (same, ← eq_of_text_eq word w same)
            (ap callback (cmd_at-put_command f desc (or_fresh (find_key (sub_cmds c) word)) v ws))
      | inr other ↦ rw other refl
    ])
callback-add (next ∷ words) c word f desc w [] ord =
    rw (find_key-edit_below c word w (λ sub. add sub next words f desc) ord)
      (elim (Bool-cases (text_eq word w)) [
        | inl same ↦
            rw (same, ← eq_of_text_eq word w same)
              (callback-add_below words (or_fresh (find_key (sub_cmds c) word)) next f desc)
        | inr other ↦ rw other refl
      ])
callback-add (next ∷ words) c word f desc w (v ∷ ws) ord =
    rw (find_key-edit_below c word w (λ sub. add sub next words f desc) ord)
      (elim (Bool-cases (text_eq word w)) [
        | inl same ↦
            rw (same, ← eq_of_text_eq word w same)
              (callback-add words (or_fresh (find_key (sub_cmds c) word)) next f desc v ws
                (under-IsOrdered c word ord))
        | inr other ↦ rw other refl
      ])

arrive-put_command :
    (c : Cmd) (f : ℕ) (desc : Bytes) (argret : List Bytes) (incomp : Bool)
    → arrive (put_command (some f) desc c) argret incomp
      ≡ record { ret = some (cmd (sub_cmds c) (some f) desc); argret = argret }
unfolding arrive
arrive-put_command (cmd subs f' desc') f desc argret incomp = refl

-- A command that was added is found under its words, with the commands that were below it.
pub find-add :
    (words : List Bytes) (c : Cmd) (word : Bytes) (f : ℕ) (desc : Bytes) (argret : List Bytes)
    (incomp : Bool)
    → IsOrdered c
    → find (add c word words (some f) desc) argret word words incomp
      ≡ record { ret = some (cmd (sub_cmds (cmd_at c word words)) (some f) desc); argret = argret }
unfolding add cmd_at find
find-add [] c word f desc argret incomp ord =
    rw (find, take_word-edit_below c word (put_command (some f) desc) ord)
      (arrive-put_command (or_fresh (find_key (sub_cmds c) word)) f desc argret incomp)
find-add (next ∷ words) c word f desc argret incomp ord =
    rw (find, take_word-edit_below c word (λ sub. add sub next words (some f) desc) ord)
      (find-add words (or_fresh (find_key (sub_cmds c) word)) next f desc argret incomp
        (under-IsOrdered c word ord))
