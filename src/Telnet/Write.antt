-- ===== src/Telnet/Write.antt =====
-- `telnet_filter_write` of c-cpp/onethread/telnet.c against a byte-by-byte description of the text
-- that it should put on the wire.
pub mod Render
pub mod Filter
pub mod Lines
use examples.Common.{
  ℕ, zero, suc, ◌≡◌, ◌≢◌, ◌∙◌, refl, sym, ap, ◌⊎◌, inl, inr, Bool, true, false, Option, none, some,
  [], ◌∷◌, ◌++◌, Bytes, arith, ◌==◌, if◌then◌else◌, length, drop, Bool-cases, Option-cases,
  append-nil, append_assoc,
}
use examples.Memutil.{egg_append_str}
use examples.Telnet.{
  is_filterchar, escape_of, escape_code, crlf, plain_run, Writer, line_end, filtered_round, last_or,
  write_loop,
}

abbrev pub reset_code : Bytes
reset_code = 27 ∷ b'[' ∷ b'0' ∷ b'm' ∷ []

-- What one byte becomes, and whether an escape code is in force after it. A NUL that does not
-- follow a carriage return becomes nothing at all.
unfoldable pub piece : (prev : ℕ) → (code : Bool) → ℕ → Option (Bytes × Bool)
piece prev code c =
    if c == 0
    then (if prev == 13 then some (crlf, code) else none)
    else if c == 7
    then some ([], code)
    else if c == 10
    then some ((if code then reset_code ++ crlf else crlf), false)
    else if c == 13
    then some ((if code then reset_code else []), false)
    else if c == 173
    then some (173 ∷ 173 ∷ [], code)
    else elim (escape_of c) [ none ↦ some (c ∷ [], code) | some esc ↦ some (escape_code esc, true) ]

abbrev pub prefix : Bytes → Option Bytes → Option Bytes
prefix p none = none
prefix p (some r) = some (p ++ r)

abbrev pub continue : Option (Bytes × Bool) → (Bool → Option Bytes) → Option Bytes
continue none rest = none
continue (some (p, code)) rest = prefix p (rest code)

-- The whole text, byte by byte.
unfoldable pub render : (prev : ℕ) → (code : Bool) → Bytes → Option Bytes
render prev code [] = some []
render prev code (c ∷ cs) = continue (piece prev code c) (λ after. render c after cs)

abbrev pub text_of : Option Writer → Option Bytes
text_of none = none
text_of (some w) = some w.out.text

-- One round on a filtered byte does what the description says.
pub record Round (c : ℕ) (w w' : Writer) (out : Bytes) (code : Bool) : Type 0 where
  at : w'.prev ≡ c
  code_is : w'.code ≡ code
  text_is : w'.out.text ≡ w.out.text ++ out

abbrev pub RoundMatches : ℕ → Writer → Type 0
RoundMatches c w =
    ((filtered_round c w ≡ none) × (piece w.prev w.code c ≡ none))
    ⊎ ((w' : Writer) × (out : Bytes) × (code : Bool) × (filtered_round c w ≡ some w')
        × (piece w.prev w.code c ≡ some (out, code))
        × Round c w w' out code)

-- The round at a byte for which both sides are known.
matches :
    (c : ℕ) (w w' : Writer) (out : Bytes) (code : Bool)
    → filtered_round c w ≡ some w'
    → piece w.prev w.code c ≡ some (out, code)
    → Round c w w' out code
    → RoundMatches c w
matches c w w' out code e p r = inr (w', out, code, e, p, r)

escape_of-filterchar :
    (c : ℕ)
    → is_filterchar c ≡ true
    → (c == 0) ≡ false
    → (c == 7) ≡ false
    → (c == 10) ≡ false
    → (c == 13) ≡ false
    → (c == 173) ≡ false
    → escape_of c ≢ none
unfolding escape_of
escape_of-filterchar c f a b d e g = ground arith

line_end-Round :
    (c : ℕ) (w : Writer)
    → ((c == 13) ≡ true → Round c w (line_end c w) (if w.code then reset_code else []) false)
      × ((c == 13) ≡ false
          → Round c w (line_end c w) (if w.code then reset_code ++ crlf else crlf) false)
unfolding egg_append_str
line_end-Round c w = (
  λ cr. record { at = refl; code_is = refl; text_is = ground (arith, append-nil w.out.text) },
  λ lf. record {
    at = refl;
    code_is = refl;
    text_is = ground (arith, append_assoc w.out.text reset_code crlf);
  },
)

filtered_round-Round : (c : ℕ) (w : Writer) → is_filterchar c ≡ true → RoundMatches c w
unfolding filtered_round piece egg_append_str
filtered_round-Round c w f = elim (Bool-cases (c == 0)) [
  | inl nul ↦ elim (Bool-cases (w.prev == 13)) [
    | inl cr ↦
        matches c w (record w { prev = c; out = egg_append_str w.out crlf }) crlf w.code
          (rw (nul, cr)) (rw (nul, cr)) (record { at = refl; code_is = refl; text_is = refl })
    | inr stray ↦ inl (rw (nul, stray), rw (nul, stray))
  ]
  | inr c0 ↦ elim (Bool-cases (c == 7)) [
    | inl bell ↦
        matches c w (record w { prev = c }) [] w.code (rw (c0, bell)) (rw (c0, bell))
          (record { at = refl; code_is = refl; text_is = sym (append-nil w.out.text) })
    | inr c7 ↦ elim (Bool-cases (c == 10)) [
      | inl lf ↦
          let not_cr : (c == 13) ≡ false = ground arith in
          matches c w (line_end c w) (if w.code then reset_code ++ crlf else crlf) false
            (rw (c0, c7, lf)) (rw (c0, c7, lf)) ((line_end-Round c w).1 not_cr)
      | inr c10 ↦ elim (Bool-cases (c == 13)) [
        | inl cr ↦
            matches c w (line_end c w) (if w.code then reset_code else []) false
              (rw (c0, c7, c10, cr)) (rw (c0, c7, c10, cr)) ((line_end-Round c w).0 cr)
        | inr c13 ↦ elim (Bool-cases (c == 173)) [
          | inl iac ↦
              matches c w (record w { prev = c; out = egg_append_str w.out (173 ∷ 173 ∷ []) })
                (173 ∷ 173 ∷ []) w.code (rw (c0, c7, c10, c13, iac)) (rw (c0, c7, c10, c13, iac))
                (record { at = refl; code_is = refl; text_is = refl })
          | inr c173 ↦ elim (Option-cases (escape_of c)) [
            | inl no_code ↦ absurd (escape_of-filterchar c f c0 c7 c10 c13 c173 no_code)
            | inr (esc, e) ↦
                matches c w
                  (record { prev = c; code = true; out = egg_append_str w.out (escape_code esc) })
                  (escape_code esc) true (rw (c0, c7, c10, c13, c173, e))
                  (rw (c0, c7, c10, c13, c173, e))
                  (record { at = refl; code_is = refl; text_is = refl })
          ]
        ]
      ]
    ]
  ]
]

-- A round that cannot move is repeated until the fuel is gone.
stuck :
    (fuel c : ℕ) (cs : Bytes) (w : Writer)
    → is_filterchar c ≡ true
    → filtered_round c w ≡ none
    → write_loop fuel (c ∷ cs) w ≡ none
unfolding write_loop
stuck zero c cs w f e = refl
stuck (suc fuel) c cs w f e = rw (write_loop, f, e) (stuck fuel c cs w f e)

abbrev pub AllPlain : Bytes → Type 0
AllPlain [] = Unit {0}
AllPlain (c ∷ cs) = (is_filterchar c ≡ false) × AllPlain cs

piece-plain :
    (prev : ℕ) (code : Bool) (c : ℕ)
    → is_filterchar c ≡ false
    → piece prev code c ≡ some (c ∷ [], code)
unfolding piece escape_of
piece-plain prev code c f = ground arith

prefix-append : (p q : Bytes) (r : Option Bytes) → prefix p (prefix q r) ≡ prefix (p ++ q) r
prefix-append p q none = refl
prefix-append p q (some r) = ap some (sym (append_assoc p q r))

render-plain :
    (run rest : Bytes) (prev : ℕ) (code : Bool)
    → AllPlain run
    → render prev code (run ++ rest) ≡ prefix run (render (last_or prev run) code rest)
unfolding render last_or
render-plain [] rest prev code a = prefix_nil (render prev code rest)
  where
    prefix_nil : (r : Option Bytes) → r ≡ prefix [] r
    prefix_nil none = refl
    prefix_nil (some r) = refl
render-plain (c ∷ run) rest prev code (f, a) =
    rw (render, piece-plain prev code c f)
      (ap (prefix (c ∷ [])) (render-plain run rest c code a)
        ∙ prefix-append (c ∷ []) run (render (last_or c run) code rest))

plain_run-AllPlain : (room : ℕ) (cs : Bytes) → AllPlain (plain_run room cs)
unfolding plain_run
plain_run-AllPlain zero cs = tt
plain_run-AllPlain (suc room) [] = tt
plain_run-AllPlain (suc room) (c ∷ cs) = elim (Bool-cases (is_filterchar c)) [
  | inl f ↦ rw f tt
  | inr p ↦ rw p (p, plain_run-AllPlain room cs)
]

plain_run-drop :
    (room : ℕ) (cs : Bytes) → plain_run room cs ++ drop (length (plain_run room cs)) cs ≡ cs
unfolding plain_run
plain_run-drop zero cs = refl
plain_run-drop (suc room) [] = refl
plain_run-drop (suc room) (c ∷ cs) = elim (Bool-cases (is_filterchar c)) [
  | inl f ↦ rw f
  | inr p ↦ rw p (ap (◌∷◌ c) (plain_run-drop room cs))
]
