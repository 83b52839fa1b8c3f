-- ===== src/Circ/Parse/Lines.antt =====
-- Lines as the parser of c-cpp/circ/circ.c takes them apart, from the command on.
use examples.Common.{
  ◌⊎◌, ℕ, zero, suc, ◌+◌, ◌≤◌, ◌≡◌, ◌≢◌, ◌∙◌, refl, ap, true, false, inl, inr, Option, none, some,
  List, [], ◌∷◌, ◌++◌, Bytes, arith, ltb, ◌==◌, take, c_string, length, append-nil, take_le_all,
}
use examples.Circ.Text.{cut_space}
use examples.Circ.Parse.{Message, parse_args, parse_command, parse_text, circ_parse}

-- The byte does not occur.
abbrev pub Lacks : ℕ → Bytes → Type 0
Lacks d [] = Unit {0}
Lacks d (c ∷ cs) = (c ≢ d) × Lacks d cs

abbrev pub IsMiddle : Bytes → Type 0
IsMiddle [] = ⊥
IsMiddle (c ∷ cs) = (c ≢ b':') × Lacks b' ' (c ∷ cs)

abbrev pub AllMiddle : List Bytes → Type 0
AllMiddle [] = Unit {0}
AllMiddle (m ∷ ms) = IsMiddle m × AllMiddle ms

-- The parameters of a line, with the space in front of each; the last may be of any form.
abbrev pub spaced : List Bytes → Option Bytes → Bytes
spaced [] none = []
spaced [] (some t) = b' ' ∷ b':' ∷ t
spaced (m ∷ ms) last = b' ' ∷ m ++ spaced ms last

abbrev pub params : List Bytes → Option Bytes → List Bytes
params ms none = ms
params ms (some t) = ms ++ t ∷ []

-- The same without the first space.
abbrev pub tail_of : List Bytes → Option Bytes → Bytes
tail_of [] none = []
tail_of [] (some t) = b':' ∷ t
tail_of (m ∷ ms) last = m ++ spaced ms last

pub cut_space-none : (a : Bytes) → Lacks b' ' a → cut_space a ≡ none
unfolding cut_space
cut_space-none [] l = refl
cut_space-none (c ∷ cs) (ne, l) =
    let miss : (c == b' ') ≡ false = ground arith in rw (miss, cut_space-none cs l)

pub cut_space-append : (a b : Bytes) → Lacks b' ' a → cut_space (a ++ b' ' ∷ b) ≡ some (a, b)
unfolding cut_space
cut_space-append [] b l = refl
cut_space-append (c ∷ cs) b (ne, l) =
    let miss : (c == b' ') ≡ false = ground arith in rw (miss, cut_space-append cs b l)

pub c_string-Lacks : (text : Bytes) → Lacks 0 text → c_string text ≡ text
c_string-Lacks [] l = refl
c_string-Lacks (c ∷ cs) (ne, l) =
    let miss : (c == 0) ≡ false = ground arith in rw miss (ap (◌∷◌ c) (c_string-Lacks cs l))

-- What `strchr` finds in front of the parameters.
pub cut_space-spaced :
    (a : Bytes) (ms : List Bytes) (last : Option Bytes)
    → Lacks b' ' a
    → ((cut_space (a ++ spaced ms last) ≡ none) × (ms ≡ []) × (last ≡ none))
      ⊎ (cut_space (a ++ spaced ms last) ≡ some (a, tail_of ms last))
cut_space-spaced a [] none l = inl (ap cut_space (append-nil a) ∙ cut_space-none a l, refl, refl)
cut_space-spaced a [] (some t) l = inr (cut_space-append a (b':' ∷ t) l)
cut_space-spaced a (m ∷ ms) last l = inr (cut_space-append a (m ++ spaced ms last) l)

params-cons :
    (m : Bytes) (ms : List Bytes) (last : Option Bytes) → m ∷ params ms last ≡ params (m ∷ ms) last
params-cons m ms none = refl
params-cons m ms (some t) = refl

parse_args-params :
    (rounds argc : ℕ) (ms : List Bytes) (last : Option Bytes)
    → rounds + argc ≡ 18
    → length ms + argc ≤ 17
    → AllMiddle ms
    → parse_args rounds argc (tail_of ms last) ≡ params ms last
unfolding parse_args
parse_args-params zero argc ms last r h all = absurd (omega arith)
parse_args-params (suc rounds) argc [] none r h all = refl
parse_args-params (suc rounds) argc [] (some t) r h all =
    let few : ltb argc 19 ≡ true = ground arith in rw few
parse_args-params (suc rounds) argc ([] ∷ ms) last r h (bad, all) = absurd bad
parse_args-params (suc rounds) argc ((c ∷ cs) ∷ ms) last r h ((ne, l), all) =
    let miss : (c == b':') ≡ false = ground arith in
    let go_on : (argc + 1 == 18) ≡ false = ground arith in
    elim (cut_space-spaced (c ∷ cs) ms last l) [
      | inl (no_space, e, e') ↦ rw (miss, no_space, e, e', append-nil cs)
      | inr cut ↦
          let rest = parse_args-params rounds (argc + 1) ms last (omega arith) (omega arith) all in
          rw (miss, cut, go_on, rest) (params-cons (c ∷ cs) ms last)
    ]

pub parse_command-params :
    (msg : Message) (command : Bytes) (ms : List Bytes) (last : Option Bytes)
    → Lacks b' ' command
    → AllMiddle ms
    → length ms ≤ 17
    → msg.argv ≡ []
    → parse_command msg (command ++ spaced ms last)
      ≡ record msg { command = some command; argv = params ms last }
unfolding parse_command
parse_command-params msg command ms last l all few fresh =
    elim (cut_space-spaced command ms last l) [
      | inl (no_space, e, e') ↦
          rw (parse_command, no_space, e, e', append-nil command)
            (ap (λ argv. record msg { command = some command; argv = argv }) fresh)
      | inr cut ↦ rw (parse_command, cut, parse_args-params 18 0 ms last refl (omega arith) all)
    ]

-- The buffer takes a text of up to 512 bytes whole.
pub fits : (text : Bytes) → length text ≤ 512 → Lacks 0 text → circ_parse text ≡ parse_text text
unfolding circ_parse
fits text short l =
    ap parse_text (ap (take 512) (c_string-Lacks text l) ∙ take_le_all 512 text short)
