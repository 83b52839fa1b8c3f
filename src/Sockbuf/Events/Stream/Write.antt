-- ===== src/Sockbuf/Events/Stream/Write.antt =====
-- `sockbuf_real_write` of c-cpp/onethread/sockbuf.c on a sockbuf that is in order.
use examples.Sockbuf.Events.Stream.{SameUse}
use examples.Common.{
  ℕ, suc, ◌≡◌, ◌∙◌, refl, sym, ap, inl, inr, true, false, some, [], ◌∷◌, ◌++◌, Bytes, ℤ, pos, arith,
  ◌==◌, get_elem?, take, drop, Bool-cases, append-nil, append_assoc, take-append-drop,
  set-get_elem?,
}
use examples.Sockbuf.State.{Stats, Sockbuf, State}
use examples.Sockbuf.Run.{Run, ok, and_then}
use examples.Sockbuf.Env.{Env, Written, wrote, failed}
use examples.Sockbuf.Events.{os_write, real_write_result, sockbuf_real_write}
use examples.Sockbuf.Events.Stream.{
  sent, sent-concat, WritesWithin, stream, IsOrdered, Queued, put, queue, append_out_run,
  after_write-Queued,
}

-- A write of `chunk` to `b` at `idx` went well and gave `n`: so many bytes of it went out on the
-- wire, and the stream grew by `chunk`.
pub record WrittenOk (s : State) (idx : ℕ) (b : Sockbuf) (chunk : Bytes) (n : ℕ) (r : Run ℤ)
    : Type 0 where
  pub state : State
  pub after : Sockbuf
  pub returns : r ≡ ok (pos n) state
  pub at : get_elem? state.sockbufs idx ≡ some after
  pub same_sock : after.sock ≡ b.sock
  pub wired : sent b.sock state.wire ≡ sent b.sock s.wire ++ take n chunk
  pub grows : stream state after ≡ stream s b ++ chunk
  pub same_use : SameUse b after
  pub ordered : IsOrdered after

blocked_run :
    (env : Env) (s : State) (idx : ℕ) (b : Sockbuf) (chunk : Bytes)
    → get_elem? s.sockbufs idx ≡ some b
    → b.flags.block ≡ true
    → sockbuf_real_write env idx chunk s ≡ ok (pos 0) (put s idx (queue chunk b))
unfolding sockbuf_real_write
blocked_run env s idx b chunk at full = rw at (simp full (rw (append_out_run s idx b at chunk)))

pub free_run :
    (env : Env) (s : State) (idx : ℕ) (b : Sockbuf) (chunk : Bytes)
    → get_elem? s.sockbufs idx ≡ some b
    → b.flags.block ≡ false
    → sockbuf_real_write env idx chunk s
      ≡ and_then (os_write env b.sock chunk s) (real_write_result env idx chunk)
unfolding sockbuf_real_write
free_run env s idx b chunk at free = rw at (simp free)

-- From the wire after the system call to the stream as a whole.
WrittenOk-Queued :
    (s s' : State) (idx : ℕ) (b : Sockbuf) (chunk : Bytes) (n : ℕ) {r : Run ℤ}
    → sent b.sock s'.wire ≡ sent b.sock s.wire ++ take n chunk
    → b.data_out ≡ []
    → Queued s' idx b (drop n chunk) n r
    → WrittenOk s idx b chunk n r
WrittenOk-Queued s s' idx b chunk n w waits q = record {
  state = q.state;
  after = q.after;
  returns = q.returns;
  at = q.at;
  same_sock = q.same_sock;
  wired = ap (sent b.sock) q.same_wire ∙ w;
  grows =
      rw (q.same_sock, q.same_wire, q.queued, waits, w)
        (append_assoc (sent b.sock s.wire) (take n chunk) (drop n chunk)
          ∙ ap (◌++◌ (sent b.sock s.wire)) (take-append-drop n chunk)
          ∙ ap (λ m. m ++ chunk) (sym (append-nil (sent b.sock s.wire))));
  same_use = q.same_use;
  ordered = q.ordered;
}

-- Writing to a sockbuf that is in order, where `write` never claims more than it was given and does
-- not fail but for EAGAIN: the call gives a number `n`, the first `n` bytes went out on the wire,
-- and what was sent and is still to be sent grows by exactly the bytes written. The sockbuf is in
-- order again.
pub real_write-stream :
    (env : Env) (s : State) (idx : ℕ) (b : Sockbuf) (t : Stats) (chunk : Bytes)
    → WritesWithin env
    → get_elem? s.sockbufs idx ≡ some b
    → b.stats ≡ some t
    → IsOrdered b
    → ((e : ℕ) → env.os.write s.clock b.sock chunk ≡ failed e → e ≡ env.os.eagain)
    → (n : ℕ) × WrittenOk s idx b chunk n (sockbuf_real_write env idx chunk s)
unfolding os_write real_write_result
real_write-stream env s idx b t chunk within at has ordered mild = elim (Bool-cases b.flags.block) [
  | inl full ↦ (
    0,
    record {
      state = put s idx (queue chunk b);
      after = queue chunk b;
      returns = blocked_run env s idx b chunk at full;
      at = set-get_elem? s.sockbufs idx (queue chunk b) at;
      same_sock = refl;
      wired = sym (append-nil (sent b.sock s.wire));
      grows = sym (append_assoc (sent b.sock s.wire) b.data_out chunk);
      same_use = record {
        filters = refl;
        handler = refl;
        client_data = refl;
        live = refl;
        counts = λ h. h;
      };
      ordered = λ free. cc;
    },
  )
  | inr free ↦
      answered (env.os.write s.clock b.sock chunk) refl (ordered free)
        (free_run env s idx b chunk at free)
]
  where
    answered :
        (w : Written)
        → env.os.write s.clock b.sock chunk ≡ w
        → b.data_out ≡ []
        → sockbuf_real_write env idx chunk s
          ≡ and_then (os_write env b.sock chunk s) (real_write_result env idx chunk)
        → (n : ℕ) × WrittenOk s idx b chunk n (sockbuf_real_write env idx chunk s)
    answered (wrote n) e waits run =
        let s' : State = record s {
          clock = suc s.clock;
          wire = s.wire ++ (b.sock, take n chunk) ∷ [];
        } in
        (
          n,
          rw (run, os_write, e)
              (WrittenOk-Queued s s' idx b chunk n (sent-concat b.sock s.wire (take n chunk)) waits
                (after_write-Queued s' idx b t chunk n at has waits)),
        )
    answered (failed err) e waits run =
        let s' : State = record s { clock = suc s.clock } in
        let again : (err == env.os.eagain) ≡ true = ground (arith, mild err e) in
        (
          0,
          rw (run, os_write, e, again)
              (WrittenOk-Queued s s' idx b chunk 0 (sym (append-nil (sent b.sock s.wire))) waits
                (after_write-Queued s' idx b t chunk 0 at has waits)),
        )
