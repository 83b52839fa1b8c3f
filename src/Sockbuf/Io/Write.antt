-- ===== src/Sockbuf/Io/Write.antt =====
-- `sockbuf_write` of c-cpp/onethread/sockbuf.c, from the caller to the wire.
use examples.Sockbuf.Events.Stream.{SameUse-trans}
use examples.Sockbuf.Run.{◌>>◌}
use examples.Common.{append-nil, append_assoc, arith, sym, take, take_le_all, ◌++◌}
use examples.Sockbuf.Events.Stream.{HasStats, stream}
use examples.Sockbuf.Run.{ok, Cmd, pure}
use examples.Common.{[], Bytes, ℤ, pos}
use examples.Sockbuf.Valid.{Holds, is_valid_at-Holds}
use examples.Sockbuf.Stats.{add_u64}
use examples.Sockbuf.Filters.{backward}
use examples.Sockbuf.Events.{sockbuf_on_write, sockbuf_real_write, level_write_internal}
use examples.Sockbuf.State.{Ptr}
use examples.Sockbuf.Env.{Filter}
use examples.Common.{Option, none, List, ◌∷◌}
use examples.Sockbuf.Env.{failed}
use examples.Sockbuf.Io.{chunk_of, sockbuf_write}
use examples.Sockbuf.Events.Stream.{WritesWithin}
use examples.Sockbuf.Events.Stream.Write.{WrittenOk, real_write-stream}
use examples.Common.{ℕ, ◌≡◌, ◌∙◌, refl, some, [], ◌∷◌, length, get_elem?, set, set-get_elem?}
use examples.Sockbuf.State.{Stats, Sockbuf, State}
use examples.Sockbuf.Run.{and_then}
use examples.Sockbuf.Env.{Env}
use examples.Sockbuf.Events.Stream.{IsOrdered}

abbrev put : State → ℕ → Sockbuf → State
put s idx b = record s { sockbufs = set s.sockbufs idx b }

backward_bare :
    {H : Type 0} (env : Env) (event : Filter → Option H) (level : ℤ) (fs ds : List Ptr)
    → fs ≡ []
    → backward env event level fs ds ≡ none
unfolding backward
backward_bare env event level [] ds e = refl
backward_bare env event level (f ∷ fs) ds e = cc

on_write_bare :
    (env : Env) (s : State) (idx : ℕ) (b : Sockbuf) (level : ℤ) (chunk : Bytes)
    → get_elem? s.sockbufs idx ≡ some b
    → b.filters ≡ []
    → sockbuf_on_write env idx level chunk s ≡ sockbuf_real_write env idx chunk s
unfolding sockbuf_on_write
on_write_bare env s idx b level chunk at bare =
    rw (at, and_then, backward_bare env (λ f. f.on_write) level b.filters b.filter_client_data bare)
      refl

abbrev counted_out : Stats → Bytes → Stats
counted_out t chunk = record t { bytes_out = add_u64 t.bytes_out (length chunk) }

write_run :
    (env : Env) (s : State) (idx : ℕ) (b : Sockbuf) (t : Stats) (text : Bytes) (len : ℤ)
    → Holds s idx b
    → b.stats ≡ some t
    → sockbuf_write env (pos idx) text len s
      ≡ sockbuf_on_write env idx level_write_internal
          (chunk_of text len)
          (put s idx (record b { stats = some (counted_out t (chunk_of text len)) }))
unfolding sockbuf_write
write_run env s idx b t text len h has = rw (is_valid_at-Holds h, h.at, has)

-- Writing to a live sockbuf in order, without filters, through the public function: what was sent
-- and is still to be sent grows by the text, up to `len` or to the NUL, and the sockbuf is in order
-- again. `write` must not fail but for EAGAIN.
pub write-stream :
    (env : Env) (s : State) (idx : ℕ) (b : Sockbuf) (t : Stats) (text : Bytes) (len : ℤ)
    → WritesWithin env
    → Holds s idx b
    → b.stats ≡ some t
    → b.filters ≡ []
    → IsOrdered b
    → ((e : ℕ) → env.os.write s.clock b.sock (chunk_of text len) ≡ failed e → e ≡ env.os.eagain)
    → (n : ℕ) × WrittenOk s idx b (chunk_of text len) n (sockbuf_write env (pos idx) text len s)
write-stream env s idx b t text len within h has bare ordered mild =
    let t₁ = counted_out t (chunk_of text len) in
    let b₁ : Sockbuf = record b { stats = some t₁ } in
    let at₁ = set-get_elem? s.sockbufs idx b₁ h.at in
    let (n, w) =
      real_write-stream env (put s idx b₁) idx b₁ t₁ (chunk_of text len) within at₁ refl ordered
        mild in
    (
      n,
      record {
        state = w.state;
        after = w.after;
        returns =
            write_run env s idx b t text len h has
            ∙ on_write_bare env (put s idx b₁) idx b₁ level_write_internal (chunk_of text len) at₁
                bare
            ∙ w.returns;
        at = w.at;
        same_sock = w.same_sock;
        wired = w.wired;
        grows = w.grows;
        same_use =
            SameUse-trans
              (record {
                filters = refl;
                handler = refl;
                client_data = refl;
                live = refl;
                counts = λ h. (t₁, refl);
              })
              w.same_use;
        ordered = w.ordered;
      },
    )

-- Chunk after chunk, each up to its length.
unfoldable pub write_all : Env → ℕ → List Bytes → Cmd (Unit {0})
write_all env idx [] = pure tt
write_all env idx (text ∷ texts) = do
  sockbuf_write env (pos idx) text (pos (length text))
  write_all env idx texts

abbrev pub concat : List Bytes → Bytes
concat [] = []
concat (text ∷ texts) = text ++ concat texts

-- `write` fails with EAGAIN at most.
abbrev pub IsMild : Env → Type 0
IsMild env =
    (t : ℕ) (fd : ℤ) (chunk : Bytes) (e : ℕ)
    → env.os.write t fd chunk ≡ failed e
    → e ≡ env.os.eagain

-- After any number of writes to a live sockbuf in order, without filters, the bytes sent and those
-- still to be sent are those before, and then all that was written, in order: however the system
-- splits or refuses the chunks, as long as `write` never claims more than it was given and fails
-- with EAGAIN at most.
pub write_all-stream :
    (env : Env) (idx : ℕ) (texts : List Bytes) (s : State) (b : Sockbuf)
    → WritesWithin env
    → IsMild env
    → Holds s idx b
    → HasStats b
    → b.filters ≡ []
    → IsOrdered b
    → (s' : State) × (b' : Sockbuf) × (write_all env idx texts s ≡ ok tt s')
      × Holds s' idx b'
      × (b'.sock ≡ b.sock)
      × (stream s' b' ≡ stream s b ++ concat texts)
      × IsOrdered b'
unfolding write_all
write_all-stream env idx [] s b within mild h has bare ordered =
    (s, b, refl, h, refl, sym (append-nil (stream s b)), ordered)
write_all-stream env idx (text ∷ texts) s b within mild h (t, has) bare ordered =
    let (n, w) =
      write-stream env s idx b t text (pos (length text)) within h has bare ordered
        (λ e failure. mild s.clock b.sock (take (length text) text) e failure) in
    let (s', b', ran, h', sock, grows, ordered') =
      write_all-stream env idx texts w.state w.after within mild
        (record { at = w.at; live = w.same_use.live ∙ h.live }) (w.same_use.counts (t, has))
        (w.same_use.filters ∙ bare) w.ordered in
    (
      s',
      b',
      rw (w.returns) ran,
      h',
      sock ∙ w.same_sock,
      grows
          ∙ rw (w.grows, take_le_all (length text) text (omega arith))
              (append_assoc (stream s b) text (concat texts)),
      ordered',
    )
