-- ===== src/Sockbuf/Loop.antt =====
-- `sockbuf_update_all` of c-cpp/onethread/sockbuf.c: polling, the loop over the ready entries, and
-- the reclaiming of deleted sockbufs at the topmost level.
pub mod Reclaim
pub mod Serve
pub mod Ready
use examples.Common.{
  ℕ, zero, suc, ◌+◌, ◌-◌, Bool, true, not, ◌&&◌, ◌||◌, List, [], ◌∷◌, ℤ, pos, negsuc, ◌==◌, ltb,
  if◌then◌else◌, take, get_elem?,
}
use examples.Sockbuf.State.{no_flags, Sockbuf, PollBits, no_events, Pollfd, State}
use examples.Sockbuf.Run.{
  Cmd, ok, out_of_fuel, pure, get_state, update, or_fault, fetch, ◌>>=◌, ◌>>◌,
}
use examples.Sockbuf.Env.{Env}
use examples.Sockbuf.Events.{sockbuf_got_eof}
use examples.Sockbuf.Io.{
  sockbuf_got_writable_client, sockbuf_got_readable_server, sockbuf_got_writable,
  sockbuf_got_readable,
}

-- `poll` writes `revents` of the first `n` entries.
abbrev pub write_revents : ℕ → List PollBits → List Pollfd → List Pollfd
write_revents zero rs ps = ps
write_revents (suc n) rs [] = []
write_revents (suc n) [] (p ∷ ps) = record p { revents = no_events } ∷ write_revents n [] ps
write_revents (suc n) (r ∷ rs) (p ∷ ps) = record p { revents = r } ∷ write_revents n rs ps

-- The number of ready entries; where `poll` fails, `npollfds`, and `revents` as it was.
unfoldable pub poll_all : Env → ℤ → Cmd ℕ
poll_all env timeout s =
    let r = env.os.poll s.clock (take s.npollfds s.pollfds) timeout in
    elim (r.0) [
      | pos n ↦
          ok n (record s { clock = suc s.clock; pollfds = write_revents s.npollfds r.1 s.pollfds })
      | negsuc _ ↦ ok s.npollfds (record s { clock = suc s.clock })
    ]

abbrev pub any_revents : PollBits → Bool
any_revents r = r.pollin || r.pollout || r.pollhup || r.pollnval || r.pollerr

-- What is done about one ready entry. The flags are those before the first handler runs.
unfoldable pub dispatch : Env → ℕ → PollBits → Cmd (Unit {0})
dispatch env idx r = do
  b ← fetch idx
  (if not r.pollout
      then pure tt
      else if b.flags.connecting
      then sockbuf_got_writable_client env idx
      else sockbuf_got_writable env idx)
  (if not r.pollin
      then pure tt
      else if b.flags.server
      then sockbuf_got_readable_server env idx
      else sockbuf_got_readable env idx)
  if r.pollhup || r.pollnval || r.pollerr then sockbuf_got_eof env idx 0 else pure tt

-- for (i = 0; n && i < npollfds; i++). Handlers may change `npollfds`, so the rounds are fuel.
unfoldable pub update_loop : Env → (fuel i n : ℕ) → Cmd (Unit {0})
update_loop env zero i n = λ s. out_of_fuel
update_loop env (suc fuel) i n = do
  s ← get_state
  if n == 0 || not (ltb i s.npollfds) then pure tt else (do
    p ← or_fault (get_elem? s.pollfds i)
    n' ←
        (if not (any_revents p.revents) then pure n else (do
          idx ← or_fault (get_elem? s.idx_array i)
          dispatch env idx p.revents
          pure (n - 1)))
    update_loop env fuel (i + 1) n')

abbrev pub reclaimed : Sockbuf → Sockbuf
reclaimed b = if b.flags.deleted then record b { flags = record no_flags { avail = true } } else b

-- DELETED entries become AVAIL, as long as the count lasts.
unfoldable pub reclaim : ℕ → List Sockbuf → List Sockbuf
reclaim n [] = []
reclaim n (b ∷ bs) =
    let rest = reclaim (if b.flags.deleted then n - 1 else n) bs in
    if n == 0 then b ∷ bs else reclaimed b ∷ rest

-- Back out of the depth, and reclaim at the topmost level.
unfoldable pub leave : State → State
unfolding reclaim
leave s =
    let out = record s { depth = s.depth - 1 } in
    if not (s.ndeleted_sockbufs == 0) && (s.depth - 1 == 0)
    then record out { sockbufs = reclaim s.ndeleted_sockbufs s.sockbufs; ndeleted_sockbufs = 0 }
    else out

unfoldable pub sockbuf_update_all : Env → (fuel : ℕ) → ℤ → Cmd ℤ
unfolding poll_all update_loop leave
sockbuf_update_all env fuel timeout = do
  update λ s. record s { depth = s.depth + 1 }
  n ← poll_all env timeout
  update_loop env fuel 0 n
  update leave
  pure (pos 0)
