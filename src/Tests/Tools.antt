-- ===== src/Tests/Tools.antt =====
-- The tools on small inputs: other/bysin_cidr.c, other/larne-tree_example.cc, c-cpp/readline.c, and
-- the conversion of addresses in c-cpp/onethread/socket.c.
use examples.Common.{
  ℤ, ℕ, ◌+◌, ◌<◌, ◌≡◌, ◌↔◌, refl, false, Option, none, some, List, [], ◌∷◌, Bytes, pos, ◌==◌,
  if◌then◌else◌, length, arith, codes,
}
use examples.Cidr.{Prefix, cidr, high_bit, low_run, bit, mpow, mpow_loop, prefix_of}
use examples.Cidr.Tiles.{Tiles, cidr-Tiles}
use examples.CmdTree.{
  Cmd, cmd, Cmds, end, entry, sub_cmds, fresh_cmd, add, find, find_key, take_word, rest_mark,
  single_mark,
}
use examples.CmdTree.Text.{text_eq, text_lt}
use examples.CmdTree.Maps.{IsOrdered, AllOrdered, fresh_cmd-IsOrdered, add-IsOrdered}
use examples.CmdTree.Order.{first_with, take_word-first_with}
use examples.CmdTree.Laws.{cmd_at, find-add}
use examples.Readline.{same_start, Generator, State, fault, cmd_list, shutils_completor, run_line}
use examples.Readline.Complete.{selected, completor-selected}
use examples.Readline.Line.{AllBlank, run_line-fault}
use examples.Netmask.{Conf, main, printed, split_slash}
use examples.Netmask.Masked.{Range, main-Range}
use examples.Socket.Dots.{socket_ipv6_to_dots, read_dots, ipv6_to_dots-read}

-- 1 to 6 is 1/32, 2/31, 4/31 and 6/32.
cidr_test :
    cidr 33 1 6
    ≡ some (
        record { address = 1; bits = 32 }
        ∷ record { address = 2; bits = 31 }
        ∷ record { address = 4; bits = 31 }
        ∷ record { address = 6; bits = 32 }
        ∷ [])
unfolding cidr high_bit low_run bit mpow mpow_loop prefix_of
cidr_test = refl

-- 10.0.0.1 to 10.0.0.6
cidr_example :
    (out : List Prefix) × (cidr 33 167772161 167772166 ≡ some out)
    × Tiles 167772161 out (167772166 + 1)
cidr_example = cidr-Tiles 167772161 167772166 (omega arith) (omega arith)

abbrev show : Bytes
show = codes "show"

abbrev users : Bytes
users = codes "users"

-- "show" with no function of its own.
abbrev tree : Cmd
tree = add fresh_cmd show [] none (codes "about")

tree-IsOrdered : IsOrdered tree
tree-IsOrdered = add-IsOrdered [] fresh_cmd show none (codes "about") fresh_cmd-IsOrdered

find-add_example :
    find (add tree show (users ∷ []) (some 7) (codes "users")) [] show (users ∷ []) false ≡ record {
      ret = some (cmd (sub_cmds (cmd_at tree show (users ∷ []))) (some 7) (codes "users"));
      argret = [];
    }
find-add_example = find-add (users ∷ []) tree show 7 (codes "users") [] false tree-IsOrdered

abbrev names : Cmds
names =
    entry (codes "save") fresh_cmd (entry show (cmd end (some 3) []) (entry users fresh_cmd end))

names-AllOrdered : AllOrdered names
unfolding AllOrdered IsOrdered text_lt
names-AllOrdered = ((refl, (refl, tt)), tt, ((refl, tt), tt, (tt, tt, tt)))

missing :
    (find_key names (codes "s") ≡ none)
    × (find_key names rest_mark ≡ none)
    × (find_key names single_mark ≡ none)
unfolding find_key text_eq
missing = (refl, refl, refl)

first_with_example : take_word names (codes "s") ≡ first_with names (codes "s")
first_with_example =
    take_word-first_with names (codes "s") names-AllOrdered missing.0 missing.1 missing.2

abbrev old_generator : Generator
old_generator = record { i = 2; len = 1 }

completor_example :
    shutils_completor 5 0 (codes "H") old_generator
    ≡ some (if 0 == 0 then selected cmd_list (codes "H") (length (codes "H")) else [])
completor_example = completor-selected 0 (codes "H") old_generator

selected_test : selected cmd_list (codes "H") 1 ≡ codes "help" ∷ []
unfolding selected same_start
selected_test = refl

abbrev at_prompt : State
at_prompt = record { prompt = some (codes "shutils:local# "); printed = []; history = [] }

run_line_example : (run_line (codes " ") at_prompt ≡ fault) ↔ AllBlank (codes " ")
run_line_example = run_line-fault (codes " ") at_prompt

-- ::1
abbrev loopback : Bytes → Option (ℕ × List ℕ)
loopback text = some (0, 0 ∷ 0 ∷ 0 ∷ 0 ∷ 0 ∷ 0 ∷ 0 ∷ 0 ∷ 0 ∷ 0 ∷ 0 ∷ 0 ∷ 0 ∷ 0 ∷ 1 ∷ [])

abbrev tail_bytes : List ℕ
tail_bytes = 0 ∷ 0 ∷ 0 ∷ 0 ∷ 0 ∷ 0 ∷ 0 ∷ 0 ∷ 0 ∷ 0 ∷ 0 ∷ 0 ∷ 0 ∷ 0 ∷ 1 ∷ []

small : 0 < 256
small = omega arith

dots_example :
    ((socket_ipv6_to_dots loopback (codes "::1")).0 ≡ pos 0)
    × (read_dots 0 (socket_ipv6_to_dots loopback (codes "::1")).1 ≡ 0 ∷ tail_bytes)
    × (length (socket_ipv6_to_dots loopback (codes "::1")).1 < 65)
dots_example =
    ipv6_to_dots-read loopback (codes "::1") 0 tail_bytes refl small
      (
        small,
        (
          small,
          (
            small,
            (
              small,
              (
                small,
                (
                  small,
                  (
                    small,
                    (
                      small,
                      (small, (small, (small, (small, (small, (small, (omega arith, tt))))))),
                    ),
                  ),
                ),
              ),
            ),
          ),
        ),
      )
      refl

-- 10.0.0.5/29
abbrev ten : Bytes → Option ℕ
ten text = some 167772165

abbrev twenty_nine : Bytes → ℤ
twenty_nine text = pos 29

slash_test : split_slash (codes "10.0.0.5/29") ≡ some (codes "10.0.0.5", codes "29")
unfolding split_slash
slash_test = refl

netmask_example :
    (c : Conf) × (main ten twenty_nine (some (codes "10.0.0.5/29")) ≡ printed c)
    × Range 167772165 29 c
netmask_example =
    main-Range ten twenty_nine (codes "10.0.0.5/29") (codes "10.0.0.5") (codes "29") 167772165 29
      slash_test refl (omega arith) refl (omega arith) (omega arith)
