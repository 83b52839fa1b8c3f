-- ===== src/Circ/Parse/RoundTrip.antt =====
-- `circ_parse` of c-cpp/circ/circ.c reads back a line that was put together from its parts.
use examples.Common.{
  ℕ, ◌≤◌, ◌≡◌, ◌≢◌, ◌∙◌, refl, true, false, Option, some, List, [], ◌∷◌, ◌++◌, Bytes, arith, ◌==◌,
  length,
}
use examples.Circ.Text.{skip_delims, leading_delims, token, non_empty}
use examples.Circ.Parse.{empty_message, split_hostmask, parse_text, circ_parse}
use examples.Circ.Parse.Lines.{
  parse_command-params, cut_space-append, fits, Lacks, IsMiddle, AllMiddle, spaced, params,
}

-- A line without a prefix is read back: its command, at most 17 parameters, and a last one of any
-- form. The command and the parameters before the last are not empty, have no space and do not
-- start with a colon; the line has no NUL and at most 512 bytes.
pub parse-line :
    (command : Bytes) (ms : List Bytes) (last : Option Bytes)
    → IsMiddle command
    → AllMiddle ms
    → length ms ≤ 17
    → Lacks 0 (command ++ spaced ms last)
    → length (command ++ spaced ms last) ≤ 512
    → circ_parse (command ++ spaced ms last)
      ≡ record empty_message { command = some command; argv = params ms last }
unfolding parse_text
parse-line [] ms last bad all few text short = absurd bad
parse-line (c ∷ cs) ms last (ne, l) all few text short =
    let miss : (c == b':') ≡ false = ground arith in
    fits ((c ∷ cs) ++ spaced ms last) short text
    ∙ rw (parse_text, miss) (parse_command-params empty_message (c ∷ cs) ms last l all few refl)

-- No NUL, no space, not the delimiter, and not empty.
abbrev pub IsPart : ℕ → Bytes → Type 0
IsPart d m = (m ≢ []) × Lacks b' ' m × Lacks d m

abbrev pub mask_of : Bytes → Bytes → Bytes → Bytes
mask_of nick ident host = nick ++ (b'!' ∷ (ident ++ (b'@' ∷ host)))

token-append : (d : ℕ) (a b : Bytes) → Lacks d a → token d (a ++ d ∷ b) ≡ (a, b)
unfolding token
token-append d [] b l = let hit : (d == d) ≡ true = ground arith in rw hit
token-append d (c ∷ cs) b (ne, l) =
    let miss : (c == d) ≡ false = ground arith in rw (token-append d cs b l, miss)

no_delims :
    (d : ℕ) (a b : Bytes)
    → a ≢ []
    → Lacks d a
    → (skip_delims d (a ++ b) ≡ a ++ b) × (leading_delims d (a ++ b) ≡ [])
unfolding skip_delims leading_delims
no_delims d [] b ne l = absurd (ne refl)
no_delims d (c ∷ cs) b ne (other, l) =
    let miss : (c == d) ≡ false = ground arith in (rw miss, rw miss)

non_empty-some : (a : Bytes) → a ≢ [] → non_empty a ≡ some a
non_empty-some [] ne = absurd (ne refl)
non_empty-some (c ∷ cs) ne = refl

split_hostmask-cut :
    (mask : Bytes) {m₁ m₂ nick rest ident host : Bytes}
    → skip_delims b'!' mask ≡ m₁
    → leading_delims b'!' mask ≡ []
    → token b'!' m₁ ≡ (nick, rest)
    → skip_delims b'@' rest ≡ m₂
    → token b'@' m₂ ≡ (ident, host)
    → split_hostmask mask ≡ record empty_message {
      hostmask = some nick;
      nick = non_empty nick;
      ident = non_empty ident;
      host = non_empty host;
    }
unfolding split_hostmask
split_hostmask-cut mask skip_n lead_n tok_n skip_i tok_i = rw (skip_n, lead_n, tok_n, skip_i, tok_i)

-- The parts of a hostmask; the field `hostmask` itself is cut off where the nick ends.
split_hostmask-parts :
    (nick ident host : Bytes)
    → IsPart b'!' nick
    → IsPart b'@' ident
    → host ≢ []
    → split_hostmask (mask_of nick ident host) ≡ record empty_message {
      hostmask = some nick;
      nick = some nick;
      ident = some ident;
      host = some host;
    }
split_hostmask-parts nick ident host (n, _, ln) (i, _, li) h =
    let rest = ident ++ b'@' ∷ host in
    let (skip_n, lead_n) = no_delims b'!' nick (b'!' ∷ rest) n ln in
    let (skip_i, _) = no_delims b'@' ident (b'@' ∷ host) i li in
    split_hostmask-cut (mask_of nick ident host) skip_n lead_n (token-append b'!' nick rest ln)
      skip_i (token-append b'@' ident host li)
    ∙ rw (non_empty-some nick n, non_empty-some ident i, non_empty-some host h)

abbrev pub prefixed : Bytes → Bytes → Bytes
prefixed mask rest = b':' ∷ (mask ++ (b' ' ∷ rest))

Lacks-append : (d : ℕ) (a b : Bytes) → Lacks d a → Lacks d b → Lacks d (a ++ b)
Lacks-append d [] b la lb = lb
Lacks-append d (c ∷ cs) b (ne, la) lb = (ne, Lacks-append d cs b la lb)

Lacks-mask :
    (nick ident host : Bytes)
    → Lacks b' ' nick
    → Lacks b' ' ident
    → Lacks b' ' host
    → Lacks b' ' (mask_of nick ident host)
Lacks-mask nick ident host n i h =
    Lacks-append b' ' nick (b'!' ∷ (ident ++ (b'@' ∷ host))) n
      (omega arith, Lacks-append b' ' ident (b'@' ∷ host) i (omega arith, h))

-- A line with a prefix `nick!ident@host` is read back as well, all of its parts apart; the field
-- `hostmask` holds the nick alone. The parts are not empty, have no space, and nick and ident not
-- the byte that ends them; the rest is as for a line without a prefix.
pub parse-prefixed :
    (nick ident host command : Bytes) (ms : List Bytes) (last : Option Bytes)
    → IsPart b'!' nick
    → IsPart b'@' ident
    → (host ≢ []) × Lacks b' ' host
    → Lacks b' ' command
    → AllMiddle ms
    → length ms ≤ 17
    → Lacks 0 (prefixed (mask_of nick ident host) (command ++ spaced ms last))
    → length (prefixed (mask_of nick ident host) (command ++ spaced ms last)) ≤ 512
    → circ_parse (prefixed (mask_of nick ident host) (command ++ spaced ms last)) ≡ record {
      command = some command;
      hostmask = some nick;
      nick = some nick;
      ident = some ident;
      host = some host;
      argv = params ms last;
    }
unfolding parse_text
parse-prefixed nick ident host command ms last n i (h, lh) l all few text short =
    let mask = mask_of nick ident host in
    let cut =
      cut_space-append mask (command ++ spaced ms last) (Lacks-mask nick ident host n.1 i.1 lh) in
    fits (prefixed mask (command ++ spaced ms last)) short text
    ∙ rw (parse_text, cut, split_hostmask-parts nick ident host n i h)
        (parse_command-params _ command ms last l all few refl)
