-- ===== src/Telnet/Write/Render.antt =====
-- The loop of `telnet_filter_write` in c-cpp/onethread/telnet.c gives the text described byte by
-- byte, and hangs where there is none.
use examples.Common.{
  ℕ, zero, suc, ◌<◌, ◌≡◌, ◌∙◌, refl, sym, ap, inl, inr, false, Option, none, some, [], ◌∷◌, ◌++◌,
  Bytes, arith, length, drop, Bool-cases, append-nil, length-drop,
}
use examples.Memutil.{egg_append_str}
use examples.Telnet.{is_filterchar, plain_run, Writer, last_or, append_run, write_loop}
use examples.Telnet.Write.{
  render, prefix, text_of, filtered_round-Round, stuck, render-plain, plain_run-AllPlain,
  plain_run-drop, prefix-append,
}

-- A run that starts with a byte that passes is not empty.
plain_run-pos :
    (room c : ℕ) (cs : Bytes) → is_filterchar c ≡ false → 0 < length (plain_run (suc room) (c ∷ cs))
unfolding plain_run
plain_run-pos room c cs f = rw f (omega arith)

append_run-fields :
    (run : Bytes) (w : Writer)
    → ((append_run run w).prev ≡ last_or w.prev run)
      × ((append_run run w).code ≡ w.code)
      × ((append_run run w).out.text ≡ w.out.text ++ run)
unfolding append_run egg_append_str
append_run-fields run w = (refl, refl, refl)

-- For enough fuel the text in the buffer at the end is what was in it and then the text described.
-- Where the description breaks off at a NUL that does not follow a carriage return, the loop has
-- used up its fuel.
pub write_loop-render :
    (fuel : ℕ) (cs : Bytes) (w : Writer)
    → length cs < fuel
    → text_of (write_loop fuel cs w) ≡ prefix w.out.text (render w.prev w.code cs)
unfolding write_loop render
write_loop-render zero cs w h = absurd (omega arith)
write_loop-render (suc fuel) [] w h = ap some (sym (append-nil w.out.text))
write_loop-render (suc fuel) (c ∷ cs) w h = elim (Bool-cases (is_filterchar c)) [
  | inl f ↦ elim (filtered_round-Round c w f) [
    | inl (gone, nothing) ↦
        rw (render, nothing) (rw (write_loop, f, gone) (ap text_of (stuck fuel c cs w f gone)))
    | inr (w', out, code, moves, is, r) ↦
        rw (render, is)
          (rw (write_loop, f, moves)
            (write_loop-render fuel cs w' (omega arith)
              ∙ rw (r.at, r.code_is, r.text_is)
                  (sym (prefix-append w.out.text out (render c code cs)))))
  ]
  | inr p ↦
      let run = plain_run 63 (c ∷ cs) in
      let rest = drop (length run) (c ∷ cs) in
      let fields = append_run-fields run w in
      let whole : render w.prev w.code (c ∷ cs)
          ≡ prefix run (render (last_or w.prev run) w.code rest) =
        ap (render w.prev w.code) (sym (plain_run-drop 63 (c ∷ cs)))
        ∙ render-plain run rest w.prev w.code (plain_run-AllPlain 63 (c ∷ cs)) in
      rw (write_loop, p)
        (write_loop-render fuel rest (append_run run w)
            (omega (arith, length-drop {0} (length run) (c ∷ cs), plain_run-pos 62 c cs p))
          ∙ rw (fields.0, fields.1, fields.2)
              (sym (
                ap (prefix w.out.text) whole
                ∙ prefix-append w.out.text run (render (last_or w.prev run) w.code rest))))
]

prefix-none : (p : Bytes) (r : Option Bytes) → prefix p r ≡ none → r ≡ none
prefix-none p none h = refl
prefix-none p (some r) h = cc

-- Where there is no such text, no fuel is enough.
pub write_loop-hangs :
    (fuel : ℕ) (cs : Bytes) (w : Writer)
    → render w.prev w.code cs ≡ none
    → write_loop fuel cs w ≡ none
unfolding write_loop render
write_loop-hangs zero cs w h = refl
write_loop-hangs (suc fuel) [] w h = cc
write_loop-hangs (suc fuel) (c ∷ cs) w h = elim (Bool-cases (is_filterchar c)) [
  | inl f ↦ elim (filtered_round-Round c w f) [
    | inl (gone, nothing) ↦ rw (write_loop, f, gone) (stuck fuel c cs w f gone)
    | inr (w', out, code, moves, is, r) ↦
        rw (write_loop, f, moves)
          (write_loop-hangs fuel cs w'
            (rw (r.at, r.code_is) (prefix-none out (render c code cs) (rw (render, is) at h))))
  ]
  | inr p ↦
      let run = plain_run 63 (c ∷ cs) in
      let rest = drop (length run) (c ∷ cs) in
      let fields = append_run-fields run w in
      let whole : render w.prev w.code (c ∷ cs)
          ≡ prefix run (render (last_or w.prev run) w.code rest) =
        ap (render w.prev w.code) (sym (plain_run-drop 63 (c ∷ cs)))
        ∙ render-plain run rest w.prev w.code (plain_run-AllPlain 63 (c ∷ cs)) in
      rw (write_loop, p)
        (write_loop-hangs fuel rest (append_run run w) (
          rw (fields.0, fields.1)
            (prefix-none run (render (last_or w.prev run) w.code rest) (sym whole ∙ h))))
]
