-- ===== src/Sockbuf/Events/Stream/Overtake.antt =====
-- How a sockbuf of c-cpp/onethread/sockbuf.c comes not to be in order, and what
-- `sockbuf_real_write` does then.
use examples.Common.{
  ==-refl, ℕ, suc, ◌≡◌, ◌∙◌, refl, ap, false, some, [], ◌∷◌, ◌++◌, Bytes, pos, length, get_elem?,
  take, set-get_elem?,
}
use examples.Sockbuf.Valid.{Holds}
use examples.Sockbuf.Table.{sockbuf_set_sock}
use examples.Sockbuf.Table.PollSet.{PollInv}
use examples.Sockbuf.Table.SetSock.{set_sock-SockSet}
use examples.Common.{◌≢◌, sym, ℤ}
use examples.Sockbuf.Events.Stream.{IsOrdered}
use examples.Sockbuf.State.{Flags}
use examples.Sockbuf.State.{Stats, Sockbuf, State}
use examples.Sockbuf.Run.{ok}
use examples.Sockbuf.Env.{Env, wrote}
use examples.Sockbuf.Events.{os_write, after_write, real_write_result, sockbuf_real_write}
use examples.Sockbuf.Events.Stream.{sent, sent-concat, put, counted, counted_same, count_out_run}
use examples.Sockbuf.Events.Stream.Write.{free_run}

take_all : (xs : Bytes) → take (length xs) xs ≡ xs
take_all [] = refl
take_all (x ∷ xs) = ap (◌∷◌ x) (take_all xs)

-- On a sockbuf with statistics that is not blocked, a chunk that `write` takes whole is sent ahead
-- of whatever waits in the output buffer, which stays as it was.
pub real_write-overtakes :
    (env : Env) (s : State) (idx : ℕ) (b : Sockbuf) (t : Stats) (chunk : Bytes)
    → get_elem? s.sockbufs idx ≡ some b
    → b.stats ≡ some t
    → b.flags.block ≡ false
    → env.os.write s.clock b.sock chunk ≡ wrote (length chunk)
    → (s' : State) × (b' : Sockbuf) × (sockbuf_real_write env idx chunk s
        ≡ ok (pos (length chunk)) s')
      × (get_elem? s'.sockbufs idx ≡ some b')
      × (sent b.sock s'.wire ≡ sent b.sock s.wire ++ chunk)
      × (b'.data_out ≡ b.data_out)
unfolding os_write real_write_result after_write
real_write-overtakes env s idx b t chunk at has free e =
    let n = length chunk in
    let s₁ : State = record s {
      clock = suc s.clock;
      wire = s.wire ++ (b.sock, take n chunk) ∷ [];
    } in
    (
      put s₁ idx (counted n t b),
      counted n t b,
      rw (free_run env s idx b chunk at free, os_write, e)
          (rw (count_out_run s₁ idx b at n t has, ==-refl n)),
      set-get_elem? s.sockbufs idx (counted n t b) at,
      sent-concat b.sock s.wire (take n chunk) ∙ rw (take_all chunk),
      (counted_same n t b).1,
    )

-- If bytes wait in the output buffer and the flags given do not name BLOCK, `sockbuf_set_sock`
-- leaves the sockbuf unblocked with these bytes still waiting, whether it was blocked before or
-- not.
pub set_sock-unorders :
    (env : Env) (s : State) (idx : ℕ) (b : Sockbuf) (sock : ℤ) (flags : Flags)
    → Holds s idx b
    → PollInv s
    → flags.avail ≡ false
    → flags.block ≡ false
    → b.data_out ≢ []
    → (r : ℤ) × (s' : State) × (b' : Sockbuf) × (sockbuf_set_sock env (pos idx) sock flags s
        ≡ ok r s')
      × (get_elem? s'.sockbufs idx ≡ some b')
      × (b'.flags.block ≡ false)
      × (b'.data_out ≡ b.data_out)
      × ¬ IsOrdered b'
set_sock-unorders env s idx b sock flags h inv used free waits =
    let r = set_sock-SockSet env s idx b sock flags h inv used in
    let unblocked : r.after.flags.block ≡ false = ap (λ f. f.block) r.flags_are ∙ free in
    (
      r.ret,
      r.state,
      r.after,
      r.returns,
      rw (r.sockbufs_are) (set-get_elem? s.sockbufs idx r.after h.at),
      unblocked,
      r.data_is,
      λ ordered. waits (sym r.data_is ∙ ordered unblocked),
    )
