-- ===== src/Telnet/Write/Filter.antt =====
-- `telnet_filter_write` of c-cpp/onethread/telnet.c as a whole, and the shape of what it writes.
use examples.Common.{
  ℕ, suc, ◌≡◌, ◌∙◌, refl, ap, false, Option, none, some, [], Bytes, ℤ, pos, arith, ◌==◌,
  if◌then◌else◌, length,
}
use examples.Sockbuf.State.{Ptr, State}
use examples.Sockbuf.Run.{Cmd, pure, out_of_fuel}
use examples.Sockbuf.Env.{Env}
use examples.Sockbuf.Events.{sockbuf_on_write}
use examples.Telnet.{telnet_filter_level, Writer, write_loop, start_write, telnet_filter_write}
use examples.Telnet.Write.{render, text_of, prefix}
use examples.Telnet.Write.Render.{write_loop-render, write_loop-hangs}

abbrev sends : Env → ℕ → Bytes → Cmd ℤ
sends env idx text =
    if length text == 0 then pure (pos 0) else sockbuf_on_write env idx telnet_filter_level text

text_of-some :
    (r : Option Writer) (text : Bytes)
    → text_of r ≡ some text
    → (w : Writer) × (r ≡ some w) × (w.out.text ≡ text)
text_of-some none text h = cc
text_of-some (some w) text h = (w, refl, ground arith)

-- Where the description gives a text, the filter passes exactly that text on, in one write below
-- its own level, and nothing if it is empty. As much fuel as there are bytes, and one more, is
-- enough.
pub telnet_write-render :
    (env : Env) (before : ℕ) (d : Ptr) (idx : ℕ) (chunk text : Bytes) (s : State)
    → render before false chunk ≡ some text
    → telnet_filter_write env (suc (length chunk)) before d idx chunk s
      ≡ (if length text == 0
            then pure (pos 0)
            else sockbuf_on_write env idx telnet_filter_level text)
          s
unfolding telnet_filter_write
telnet_write-render env before d idx chunk text s h =
    let loop =
      write_loop-render (suc (length chunk)) chunk (start_write before) (omega arith)
      ∙ ap (prefix []) h in
    let (w, ran, is) =
      text_of-some (write_loop (suc (length chunk)) chunk (start_write before)) text loop in
    rw (telnet_filter_write, ran) (ap (λ t. sends env idx t s) is)

-- Where it gives none, the filter never returns.
pub telnet_write-hangs :
    (env : Env) (before : ℕ) (d : Ptr) (idx : ℕ) (chunk : Bytes) (s : State)
    → render before false chunk ≡ none
    → (fuel : ℕ) → telnet_filter_write env fuel before d idx chunk s ≡ out_of_fuel
unfolding telnet_filter_write
telnet_write-hangs env before d idx chunk s h fuel =
    rw (telnet_filter_write, write_loop-hangs fuel chunk (start_write before) h)
