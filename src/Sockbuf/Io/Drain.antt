-- ===== src/Sockbuf/Io/Drain.antt =====
-- POLLOUT in c-cpp/onethread/sockbuf.c: the output buffer drains in order.
use examples.Common.{[]}
use examples.Common.{◌∷◌}
use examples.Common.{
  drop-nil, nil-cases, ℕ, suc, ◌≡◌, ◌≢◌, ◌∙◌, refl, sym, ap, inl, inr, false, some, [], ◌∷◌, ◌++◌,
  arith, ◌==◌, length, get_elem?, set, take, drop, Bool-cases, append_assoc, take-append-drop,
  modify_at-set, set-get_elem?,
}
use examples.Sockbuf.State.{PollBits, Stats, Sockbuf, State}
use examples.Sockbuf.Run.{ok, and_then, ◌>>◌, pure}
use examples.Sockbuf.Env.{Env, wrote}
use examples.Sockbuf.Table.{sockbuf_unblock, edit_events_of}
use examples.Sockbuf.Events.{level_internal, os_write, sockbuf_on_written}
use examples.Sockbuf.Events.Stream.{sent, sent-concat, stream, IsOrdered, edit_events_of-sockbufs}
use examples.Sockbuf.Io.{drain, unblock_if_drained, wrote_some, sockbuf_got_writable}

-- The state at the call of `on_written`, after `write` took `n` bytes of the buffer of `b`.
pub record Drained (env : Env) (s : State) (idx : ℕ) (b : Sockbuf) (n : ℕ) : Type 0 where
  pub state : State
  pub after : Sockbuf
  pub returns :
      sockbuf_got_writable env idx s
      ≡ (sockbuf_on_written env idx level_internal n (length (drop n b.data_out)) >> pure tt) state
  pub at : get_elem? state.sockbufs idx ≡ some after
  pub same_sock : after.sock ≡ b.sock
  pub left : after.data_out ≡ drop n b.data_out
  pub same_stream : stream state after ≡ stream s b
  pub ordered : IsOrdered b → IsOrdered after
  pub unblocked : after.data_out ≡ [] → after.flags.block ≡ false

abbrev put : State → ℕ → Sockbuf → State
put s idx b = record s { sockbufs = set s.sockbufs idx b }

abbrev unblocked : Sockbuf → Sockbuf
unblocked b = record b { flags = record (b.flags) { block = false } }

module _ (s : State) (idx : ℕ) (b : Sockbuf) (at : get_elem? s.sockbufs idx ≡ some b) where
  -- The buffer decides.
  unblock_run :
      (s' : State) × (b' : Sockbuf) × (unblock_if_drained idx s ≡ ok tt s')
      × (get_elem? s'.sockbufs idx ≡ some b')
      × (b'.sock ≡ b.sock)
      × (b'.data_out ≡ b.data_out)
      × (s'.wire ≡ s.wire)
      × (b.data_out ≡ [] → b'.flags.block ≡ false)
      × (b.data_out ≢ [] → b'.flags.block ≡ b.flags.block)
  unfolding unblock_if_drained sockbuf_unblock
  unblock_run = elim (Bool-cases (length b.data_out == 0)) [
    | inl empty ↦
        let s₁ = put s idx (unblocked b) in
        let f : PollBits → PollBits = λ e. record e { pollout = false } in
        let keeps = edit_events_of-sockbufs f idx s₁ in
        (
          edit_events_of f idx s₁,
          unblocked b,
          rw (at, empty, modify_at-set _ s.sockbufs idx at),
          rw (keeps.0) (set-get_elem? s.sockbufs idx (unblocked b) at),
          refl,
          refl,
          keeps.1,
          λ _. refl,
          ground arith,
        )
    | inr full ↦ (s, b, rw (at, full), at, refl, refl, refl, ground arith, λ _. refl)
  ]

-- If `write` takes some of what the buffer holds, exactly that leaves the front of the buffer, what
-- was sent and is still to be sent stays the same stream, an emptied sockbuf is unblocked, and then
-- the owner is told how much was written and how much remains.
pub got_writable-Drained :
    (env : Env) (s : State) (idx : ℕ) (b : Sockbuf) (t : Stats) (n : ℕ)
    → get_elem? s.sockbufs idx ≡ some b
    → b.stats ≡ some t
    → env.os.write s.clock b.sock b.data_out ≡ wrote n
    → n ≢ 0
    → Drained env s idx b n
unfolding sockbuf_got_writable wrote_some os_write
got_writable-Drained env s idx b t n at has e some_n =
    let s₁ : State = record s {
      clock = suc s.clock;
      wire = s.wire ++ (b.sock, take n b.data_out) ∷ [];
    } in
    let c = drain n b t in
    let s₂ = put s₁ idx c in
    let miss : (n == 0) ≡ false = ground arith in
    let (s₃, b', run, at₃, sock₃, data₃, wire₃, empty, full) =
      unblock_run s₂ idx c (set-get_elem? s.sockbufs idx c at) in
    record {
      state = s₃;
      after = b';
      returns = rw (at, and_then, e, miss, at, has) (rw (run));
      at = at₃;
      same_sock = sock₃;
      left = data₃;
      same_stream =
          rw (sock₃, data₃, wire₃, sent-concat b.sock s.wire (take n b.data_out))
            (append_assoc (sent b.sock s.wire) (take n b.data_out) (drop n b.data_out)
              ∙ ap (◌++◌ (sent b.sock s.wire)) (take-append-drop n b.data_out));
      ordered = λ ord free. elim (nil-cases (drop n b.data_out)) [
        | inl none_left ↦ data₃ ∙ none_left
        | inr more ↦ data₃ ∙ ap (drop n) (ord (sym (full more) ∙ free)) ∙ drop-nil n
      ];
      unblocked = λ h. empty (sym data₃ ∙ h);
    }
