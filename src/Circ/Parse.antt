-- ===== src/Circ/Parse.antt =====
-- `circ_parse` of c-cpp/circ/circ.c. The fields point into one buffer; here they are the texts that
-- they stand for when the function returns.
pub mod Lines
pub mod RoundTrip
pub mod Bound
use examples.Common.{
  ℕ, zero, suc, ◌+◌, ◌-◌, Bool, true, false, ◌&&◌, ◌||◌, not, Option, none, some, List, [], ◌∷◌,
  ◌++◌, Bytes, ltb, ◌==◌, if◌then◌else◌, take, c_string, length,
}
use examples.Circ.Text.{cut_space, skip_delims, leading_delims, token, non_empty}

-- `argc` is the length of `argv`.
pub record Message : Type 0 where
  pub command : Option Bytes
  pub hostmask : Option Bytes
  pub nick : Option Bytes
  pub ident : Option Bytes
  pub host : Option Bytes
  pub argv : List Bytes

abbrev pub empty_message : Message
empty_message = record {
  command = none;
  hostmask = none;
  nick = none;
  ident = none;
  host = none;
  argv = [];
}

-- The loop over the parameters, from `argc` on, and the test behind it. The eighteenth parameter
-- takes the rest of the line. At most eighteen rounds are made.
unfoldable pub parse_args : (rounds argc : ℕ) → Bytes → List Bytes
parse_args zero argc text = []
parse_args (suc rounds) argc [] = []
parse_args (suc rounds) argc (c ∷ cs) =
    if c == b':' then (if ltb argc 19 then cs ∷ [] else []) else elim (cut_space (c ∷ cs)) [
      | none ↦ (c ∷ cs) ∷ []
      | some (a, rest) ↦
          let more = parse_args rounds (argc + 1) rest in
          if argc + 1 == 18 then (c ∷ cs) ∷ [] else a ∷ more
    ]

-- From the command on.
unfoldable pub parse_command : Message → Bytes → Message
parse_command msg text = elim (cut_space text) [
  | none ↦ record msg { command = some text }
  | some (command, rest) ↦ record msg { command = some command; argv = parse_args 18 0 rest }
]

-- strtok_r (hostmask, "!"), strtok_r (NULL, "@"), strtok_r (NULL, ""). The first call ends the
-- hostmask where its token ends.
unfoldable pub split_hostmask : Bytes → Message
split_hostmask mask =
    let nick_rest = token b'!' (skip_delims b'!' mask) in
    let ident_host = token b'@' (skip_delims b'@' nick_rest.1) in
    record empty_message {
      hostmask = some (leading_delims b'!' mask ++ nick_rest.0);
      nick = non_empty nick_rest.0;
      ident = non_empty ident_host.0;
      host = non_empty ident_host.1;
    }

unfoldable pub parse_text : Bytes → Message
parse_text [] = parse_command empty_message []
parse_text (c ∷ cs) =
    if not (c == b':') then parse_command empty_message (c ∷ cs) else elim (cut_space cs) [
      | none ↦ record empty_message { hostmask = some cs }
      | some (mask, rest) ↦ parse_command (split_hostmask mask) rest
    ]

-- The buffer holds 512 bytes of the text and a NUL.
unfoldable pub circ_parse : Bytes → Message
unfolding parse_text
circ_parse text = parse_text (take 512 (c_string text))
