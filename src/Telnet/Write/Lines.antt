-- ===== src/Telnet/Write/Lines.antt =====
-- The shape of what `telnet_filter_write` of c-cpp/onethread/telnet.c writes.
use examples.Common.{length, suc}
use examples.Telnet.{Writer, start_write, write_loop}
use examples.Telnet.Write.{text_of}
use examples.Telnet.Write.Render.{write_loop-render}
use mathlib.Core.Path.{subst}
use examples.Telnet.{last_or}
use examples.Common.{
  ℕ, ◌≡◌, ◌≢◌, ◌∙◌, refl, sym, ap, inl, inr, Bool, true, false, Option, none, some, [], ◌∷◌, ◌++◌,
  Bytes, arith, ◌==◌, if◌then◌else◌, Bool-cases, Option-cases, append-nil,
}
use examples.Telnet.{telnet_cmd, crlf, escape_of, escape_code}
use examples.Telnet.Write.{piece, render, prefix, continue, AllPlain, render-plain, reset_code}

AllPlain-append : (p q : Bytes) → AllPlain p → AllPlain q → AllPlain (p ++ q)
AllPlain-append [] q a b = b
AllPlain-append (c ∷ p) q (f, a) b = (f, AllPlain-append p q a b)

-- Carriage returns and line feeds stand in pairs alone.
pub data NetText : Bytes → Type 0 where
  nil : NetText []
  line : {r : Bytes} → NetText r → NetText (13 ∷ 10 ∷ r)
  byte : {c : ℕ} {r : Bytes} → c ≢ 13 → c ≢ 10 → NetText r → NetText (c ∷ r)

NetText-append : {p r : Bytes} → NetText p → NetText r → NetText (p ++ r)
NetText-append nil t = t
NetText-append (line s) t = line (NetText-append s t)
NetText-append (byte a b s) t = byte a b (NetText-append s t)

reset-NetText : NetText reset_code
reset-NetText = byte (omega arith) (omega arith) (
    byte (omega arith) (omega arith)
      (byte (omega arith) (omega arith) (byte (omega arith) (omega arith) nil)))

escape-NetText : (esc : ℕ) → NetText (escape_code esc)
escape-NetText esc = byte (omega arith) (omega arith) (
    byte (omega arith) (omega arith)
      (byte (omega arith) (omega arith) (byte (omega arith) (omega arith) nil)))

reset_if-NetText : (code : Bool) → NetText (if code then reset_code else [])
reset_if-NetText true = reset-NetText
reset_if-NetText false = nil

reset_line-NetText : (code : Bool) → NetText (if code then reset_code ++ crlf else crlf)
reset_line-NetText true = NetText-append reset-NetText (line nil)
reset_line-NetText false = line nil

abbrev PieceNet : Option (Bytes × Bool) → Type 0
PieceNet none = Unit {0}
PieceNet (some (p, _)) = NetText p

piece-NetText : (prev : ℕ) (code : Bool) (c : ℕ) → PieceNet (piece prev code c)
unfolding piece
piece-NetText prev code c = elim (Bool-cases (c == 0)) [
  | inl nul ↦ elim (Bool-cases (prev == 13)) [
    | inl cr ↦ rw (piece, nul, cr) (line nil)
    | inr stray ↦ rw (piece, nul, stray) tt
  ]
  | inr c0 ↦ elim (Bool-cases (c == 7)) [
    | inl bell ↦ rw (piece, c0, bell) nil
    | inr c7 ↦ elim (Bool-cases (c == 10)) [
      | inl lf ↦ rw (piece, c0, c7, lf) (reset_line-NetText code)
      | inr c10 ↦ elim (Bool-cases (c == 13)) [
        | inl cr ↦ rw (piece, c0, c7, c10, cr) (reset_if-NetText code)
        | inr c13 ↦ elim (Bool-cases (c == 173)) [
          | inl iac ↦
              rw (piece, c0, c7, c10, c13, iac)
                (byte (omega arith) (omega arith) (byte (omega arith) (omega arith) nil))
          | inr c173 ↦ elim (Option-cases (escape_of c)) [
            | inl plain ↦
                rw (piece, c0, c7, c10, c13, c173, plain) (byte (ground arith) (ground arith) nil)
            | inr (esc, e) ↦ rw (piece, c0, c7, c10, c13, c173, e) (escape-NetText esc)
          ]
        ]
      ]
    ]
  ]
]

prefix-NetText :
    (p : Bytes) (r : Option Bytes) {text : Bytes}
    → NetText p
    → ((t : Bytes) → r ≡ some t → NetText t)
    → prefix p r ≡ some text
    → NetText text
prefix-NetText p none net rest h = cc
prefix-NetText p (some r) {text} net rest h =
    let e : p ++ r ≡ text = ground arith in subst NetText e (NetText-append net (rest r refl))

continue-NetText :
    (p : Option (Bytes × Bool)) (rest : Bool → Option Bytes) {text : Bytes}
    → PieceNet p
    → ((code : Bool) (t : Bytes) → rest code ≡ some t → NetText t)
    → continue p rest ≡ some text
    → NetText text
continue-NetText none rest net ih h = cc
continue-NetText (some (p, code)) rest net ih h = prefix-NetText p (rest code) net (ih code) h

-- The same of every text described.
render-NetText :
    (prev : ℕ) (code : Bool) (cs text : Bytes) → render prev code cs ≡ some text → NetText text
unfolding render
render-NetText prev code [] text h = let e : [] ≡ text = ground arith in subst NetText e nil
render-NetText prev code (c ∷ cs) text h =
    continue-NetText (piece prev code c) (λ after. render c after cs) (piece-NetText prev code c)
      (λ after t e. render-NetText c after cs t e) h

render-plain_text :
    (prev : ℕ) (code : Bool) (pre post : Bytes)
    → AllPlain pre
    → AllPlain post
    → render prev code (pre ++ telnet_cmd ∷ post) ≡ some (pre ++ telnet_cmd ∷ post)
unfolding render last_or
render-plain_text prev code pre post a b =
    let all : AllPlain (pre ++ telnet_cmd ∷ post) =
      AllPlain-append pre (telnet_cmd ∷ post) a (refl, b) in
    let text = pre ++ telnet_cmd ∷ post in
    ap (render prev code) (sym (append-nil text))
    ∙ render-plain text [] prev code all
    ∙ ap some (append-nil text)

-- What the filter writes has its line ends as telnet wants them: no carriage return and no line
-- feed but in the pair CR LF, whatever mixture the data had.
pub write_loop-NetText :
    (before : ℕ) (cs : Bytes) (w : Writer)
    → write_loop (suc (length cs)) cs (start_write before) ≡ some w
    → NetText w.out.text
write_loop-NetText before cs w ran =
    prefix-NetText [] (render before false cs) nil (render-NetText before false cs) (
      sym (write_loop-render (suc (length cs)) cs (start_write before) (omega arith))
      ∙ ap text_of ran)

-- Data without filtered bytes is written as it is, the telnet command byte 255 included: it is not
-- doubled.
pub write_loop-plain :
    (before : ℕ) (pre post : Bytes)
    → AllPlain pre
    → AllPlain post
    → text_of (
        write_loop
          (suc (length (pre ++ telnet_cmd ∷ post)))
          (pre ++ telnet_cmd ∷ post)
          (start_write before))
      ≡ some (pre ++ telnet_cmd ∷ post)
write_loop-plain before pre post a b =
    write_loop-render (suc (length (pre ++ telnet_cmd ∷ post))) (pre ++ telnet_cmd ∷ post)
      (start_write before) (omega arith)
    ∙ ap (prefix []) (render-plain_text before false pre post a b)
