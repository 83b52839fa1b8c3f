-- ===== src/Sockbuf/Table/SetSock.antt =====
-- `sockbuf_set_sock` and `sockbuf_close` of c-cpp/onethread/sockbuf.c on a live sockbuf.
use examples.Common.{
  ℕ, ◌≡◌, ◌∙◌, false, some, ℤ, pos, arith, get_elem?, set, set-get_elem?, set-set,
}
use examples.Sockbuf.State.{Flags, Sockbuf, State}
use examples.Sockbuf.Run.{ok}
use examples.Sockbuf.Env.{Env}
use examples.Sockbuf.Valid.{Holds, is_valid_at-Holds}
use examples.Sockbuf.Table.{set_sock_flags, sockbuf_set_sock}
use examples.Sockbuf.Table.Paired.{sock_at, PairedBut-Paired}
use examples.Sockbuf.Table.PollSet.{
  PollInv, WatchedIff, with_sockbuf, name_server_run, poll_entry-PollInv,
}

abbrev pub renewed : Sockbuf → ℤ → Flags → Sockbuf
renewed b sock flags = record b { sock = sock; flags = set_sock_flags b.flags flags }

-- The sockbuf at `idx` after the call is `after`; nothing else about the sockbufs has changed.
pub record SockSet (env : Env) (s : State) (idx : ℕ) (b : Sockbuf) (sock : ℤ) (flags : Flags)
    : Type 0 where
  pub ret : ℤ
  pub state : State
  pub after : Sockbuf
  pub returns : sockbuf_set_sock env (pos idx) sock flags s ≡ ok ret state
  pub inv : PollInv state
  pub sockbufs_are : state.sockbufs ≡ set s.sockbufs idx after
  pub sock_is : after.sock ≡ sock
  pub flags_are : after.flags ≡ set_sock_flags b.flags flags
  pub data_is : after.data_out ≡ b.data_out
  pub closed_is : state.closed ≡ s.closed
  pub filters_are : after.filters ≡ b.filters
  pub watched : WatchedIff idx sock state

-- On a live sockbuf, and for flags that do not name AVAIL, `sockbuf_set_sock` sets the descriptor,
-- replaces the five connection flags by those given, keeps the output buffer, the filters and all
-- other sockbufs, and leaves a poll set whose counters are right, in which every entry watches the
-- descriptor of its sockbuf, and which has an entry for this sockbuf exactly if `sock` is not -1.
pub set_sock-SockSet :
    (env : Env) (s : State) (idx : ℕ) (b : Sockbuf) (sock : ℤ) (flags : Flags)
    → Holds s idx b
    → PollInv s
    → flags.avail ≡ false
    → SockSet env s idx b sock flags
unfolding sockbuf_set_sock
set_sock-SockSet env s idx b sock flags h inv used =
    let c = renewed b sock flags in
    let s₁ : State = record s { sockbufs = set s.sockbufs idx c } in
    let at₁ : get_elem? s₁.sockbufs idx ≡ some c = set-get_elem? s.sockbufs idx c h.at in
    let (b', k, named, same_sock, same_flags, same_data, same_filters) =
      name_server_run env s₁ idx c sock c.flags at₁ in
    let s₂ = with_sockbuf s₁ idx b' k in
    let bs : s₂.sockbufs ≡ set s.sockbufs idx b' = set-set s.sockbufs idx c b' in
    let at₂ : sock_at s₂.sockbufs idx ≡ some sock =
      rw (set-get_elem? s₁.sockbufs idx b' at₁) (ground (arith, h.live)) in
    let (r, s₃, ran, inv₃, same, same_closed, watched) =
      poll_entry-PollInv env s₂ idx sock flags inv.socks inv.total inv.distinct
        (rw bs (PairedBut-Paired idx b' s.sockbufs s.idx_array s.pollfds inv.paired)) at₂ in
    record {
      ret = r;
      state = s₃;
      after = b';
      returns = rw (is_valid_at-Holds h, h.at) (rw named ran);
      inv = inv₃;
      sockbufs_are = same ∙ bs;
      sock_is = same_sock;
      flags_are = same_flags;
      data_is = same_data;
      closed_is = same_closed;
      filters_are = same_filters;
      watched = watched;
    }
