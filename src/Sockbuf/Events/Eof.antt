-- ===== src/Sockbuf/Events/Eof.antt =====
-- Ends of file, and connections accepted on a filtered socket, in c-cpp/onethread/sockbuf.c.
use examples.Common.{
  ℕ, suc, ◌+◌, ◌≡◌, ◌≢◌, refl, inl, inr, true, Option, none, some, List, [], ◌∷◌, ◌++◌, Bytes, pos,
  minus_one, is_nonneg, arith, ◌==◌, get_elem?, Bool-cases, Option-cases, set-get_elem?, ltb_ℤ,
}
use examples.Sockbuf.State.{Ptr, no_flags, Sockbuf, State}
use examples.Sockbuf.Run.{ok, fault, and_then, ◌>>◌, pure}
use examples.Sockbuf.Env.{Env}
use examples.Sockbuf.Valid.{Holds, is_valid_at-Holds}
use examples.Sockbuf.Table.{sockbuf_close}
use examples.Sockbuf.Table.Paired.{IsAbsent}
use examples.Sockbuf.Table.PollSet.{PollInv}
use examples.Sockbuf.Table.SetSock.{set_sock-SockSet}
use examples.Sockbuf.Filters.{forward}
use examples.Sockbuf.Events.{
  level_internal, newclient_event, sockbuf_on_eof, sockbuf_got_eof, sockbuf_on_newclient,
}
use examples.Socket.{socket_close, socket_get_error}

-- The state after `sockbuf_close` of a live sockbuf `b` with an open descriptor: `close` was called
-- on that descriptor, once, and on no other.
pub record Closed (env : Env) (s : State) (idx : ℕ) (b : Sockbuf) : Type 0 where
  pub state : State
  pub after : Sockbuf
  pub returns : sockbuf_close env (pos idx) s ≡ ok (pos 0) state
  pub holds : Holds state idx after
  pub inv : PollInv state
  pub closed_is : state.closed ≡ s.closed ++ b.sock ∷ []
  pub sock_is : after.sock ≡ minus_one
  pub data_is : after.data_out ≡ b.data_out
  pub unwatched : IsAbsent idx state.idx_array

-- Closing a live sockbuf with an open descriptor succeeds; it closes the descriptor, which the
-- sockbuf no longer has afterwards, the
-- output buffer is kept, the poll set has no entry for it any more and keeps its invariant.
pub close-Closed :
    (env : Env) (s : State) (idx : ℕ) (b : Sockbuf)
    → Holds s idx b
    → PollInv s
    → is_nonneg b.sock ≡ true
    → Closed env s idx b
unfolding sockbuf_close socket_close
close-Closed env s idx b h inv up =
    let s₁ : State = record s { clock = s.clock + 2; closed = s.closed ++ b.sock ∷ [] } in
    let h₁ : Holds s₁ idx b = record { at = h.at; live = h.live } in
    let inv₁ : PollInv s₁ = record {
      socks = inv.socks;
      total = inv.total;
      distinct = inv.distinct;
      paired = inv.paired;
    } in
    let r = set_sock-SockSet env s₁ idx b minus_one no_flags h₁ inv₁ refl in
    record {
      state = r.state;
      after = r.after;
      returns = rw (is_valid_at-Holds h, h.at, up) (rw (r.returns));
      holds = record {
        at = rw (r.sockbufs_are) (set-get_elem? s.sockbufs idx r.after h.at);
        live = rw (r.flags_are) (ground (arith, h.live));
      };
      inv = r.inv;
      closed_is = r.closed_is;
      sock_is = r.sock_is;
      data_is = r.data_is;
      unwatched = r.watched.0 refl;
    }

-- Whatever ends a live, connected sockbuf, a write error or an end of file: before the filters and
-- the handler are told, `close` is called on its descriptor, once and on no other, so that they see
-- the sockbuf with descriptor -1, still valid, and in a poll set that no longer watches it.
pub got_eof-closes_first :
    (env : Env) (s : State) (idx : ℕ) (b : Sockbuf) (err : ℕ)
    → Holds s idx b
    → PollInv s
    → is_nonneg b.sock ≡ true
    → (err' : ℕ) × (s₀ : State) × (c : Closed env s₀ idx b) × (sockbuf_got_eof env idx err s
        ≡ (sockbuf_on_eof env idx level_internal err' >> pure tt) c.state)
      × ((err ≢ 0) → err' ≡ err)
      × (s₀.sockbufs ≡ s.sockbufs)
      × (s₀.closed ≡ s.closed)
unfolding sockbuf_got_eof socket_get_error
got_eof-closes_first env s idx b err h inv up =
    let asked : State = record s { clock = suc s.clock } in
    let h' : Holds asked idx b = record { at = h.at; live = h.live } in
    let inv' : PollInv asked = record {
      socks = inv.socks;
      total = inv.total;
      distinct = inv.distinct;
      paired = inv.paired;
    } in
    elim (Bool-cases (err == 0)) [
      | inl unknown ↦
          let c = close-Closed env asked idx b h' inv' up in
          (
            env.os.socket_error s.clock b.sock,
            asked,
            c,
            rw (h.at, unknown) (rw (c.returns)),
            ground arith,
            refl,
            refl,
          )
      | inr known ↦
          let c = close-Closed env s idx b h inv up in
          (err, s, c, rw (h.at, known) (rw (c.returns)), λ _. refl, refl, refl)
    ]

newclient_found :
    (env : Env) (f d : Ptr) (fs ds : List Ptr) (b : Sockbuf)
    → b.filters ≡ f ∷ fs
    → b.filter_client_data ≡ d ∷ ds
    → ltb_ℤ level_internal (env.filter f).level ≡ true
    → (env.filter f).on_connect ≢ none
    → (env.filter f).on_newclient ≡ none
    → forward env newclient_event level_internal b.filters b.filter_client_data ≡ some (none, d)
unfolding forward
newclient_found env f d fs ds b fse dse above has lacks =
    elim (Option-cases (env.filter f).on_connect) [
      | inl gone ↦ absurd (has gone)
      | inr (g, e) ↦ rw (fse, dse, forward, newclient_event, e, above, lacks)
    ]

-- Where the first filter of the chain, of a level above the internal one, has `on_connect` and
-- lacks `on_newclient`, accepting a connection calls through NULL: the loop tests one function and
-- calls the other.
pub on_newclient-fault :
    (env : Env) (s : State) (idx newidx : ℕ) (b : Sockbuf) (f d : Ptr) (fs ds : List Ptr)
    (peer_ip : Option Bytes) (peer_port : ℕ)
    → get_elem? s.sockbufs idx ≡ some b
    → b.filters ≡ f ∷ fs
    → b.filter_client_data ≡ d ∷ ds
    → ltb_ℤ level_internal (env.filter f).level ≡ true
    → (env.filter f).on_connect ≢ none
    → (env.filter f).on_newclient ≡ none
    → sockbuf_on_newclient env idx level_internal newidx peer_ip peer_port s ≡ fault
unfolding sockbuf_on_newclient
on_newclient-fault env s idx newidx b f d fs ds peer_ip peer_port at fse dse above has lacks =
    rw (at, and_then, newclient_found env f d fs ds b fse dse above has lacks) refl
