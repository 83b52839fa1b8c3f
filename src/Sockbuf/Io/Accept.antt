-- ===== src/Sockbuf/Io/Accept.antt =====
-- `sockbuf_got_readable_server` of c-cpp/onethread/sockbuf.c where `accept` gives a descriptor: the
-- new sockbuf, and what is left to the handler.
use Prim.Native.Nat.{bit_or}
use examples.Common.{
  minus_one, ℕ, suc, ◌≡◌, ◌∙◌, refl, inl, inr, true, false, [], ℤ, is_nonneg, Option-cases,
  set-get_elem?, get_elem?-set_ne,
}
use examples.Sockbuf.State.{Flags, Sockbuf, State, no_flags}
use examples.Sockbuf.Run.{ok, pure, ◌>>◌}
use examples.Sockbuf.Env.{Os, Env}
use examples.Sockbuf.Valid.{Holds}
use examples.Sockbuf.Table.{fresh_sockbuf, is_valid_at, set_sock_flags}
use examples.Sockbuf.Table.PollSet.{PollInv, with_sockbuf}
use examples.Sockbuf.Table.Placed.{Kept, new_set_sock-Placed, unused-ne}
use examples.Sockbuf.Events.Newclient.{with_sockbuf-PollInv, name_ends_run, on_newclient-bare}
use examples.Sockbuf.Events.{level_internal, call_handler}
use examples.Sockbuf.Io.{sockbuf_got_readable_server}
use examples.Socket.{Name, accepted_name, socket_accept, socket_set_nonblock}

abbrev pub inbound_flags : Flags
inbound_flags = record no_flags { inbound = true }

-- The new sockbuf is the only one that has changed; the handler of `idx` is told of it.
pub record Accepted (env : Env) (s : State) (idx : ℕ) (b : Sockbuf) (name : Name) : Type 0 where
  pub newidx : ℕ
  pub state : State
  pub client : Sockbuf
  pub unused : is_valid_at s newidx ≡ false
  pub holds : Holds state newidx client
  pub sock_is : client.sock ≡ name.ret
  pub flags_are : client.flags ≡ set_sock_flags fresh_sockbuf.flags inbound_flags
  pub port_is : client.peer_port ≡ name.port
  pub no_filters : client.filters ≡ []
  pub kept : Kept s state
  pub inv : PollInv state
  pub runs :
      sockbuf_got_readable_server env idx s
      ≡ (call_handler env
              (λ h. h.on_newclient)
              (λ f. f b.client_data idx newidx name.ip name.port)
              b
            >> pure tt)
          state

-- F_GETFL and F_SETFL change nothing but the clock.
nonblock_run :
    (os : Os) (sock : ℤ) (s : State)
    → (r : ℤ) × (t : ℕ) × (socket_set_nonblock os sock true s ≡ ok r (record s { clock = t }))
unfolding socket_set_nonblock
nonblock_run os sock s = elim (Option-cases (os.get_fd_flags s.clock sock)) [
  | inl unknown ↦ (minus_one, suc s.clock, rw (socket_set_nonblock, unknown) refl)
  | inr (flags, known) ↦ (
    os.set_fd_flags (suc s.clock) sock (bit_or flags os.o_nonblock),
    suc (suc s.clock),
    rw (socket_set_nonblock, known) refl,
  )
]

-- The descriptor of a connection that is accepted stands in a fresh sockbuf, non-blocking as far as
-- the system lets it be, without filters; every other sockbuf is as it was, the poll set is right,
-- and the handler of the server is told.
pub got_readable_server-Accepted :
    (env : Env) (s : State) (idx : ℕ) (b : Sockbuf)
    → Holds s idx b
    → PollInv s
    → b.filters ≡ []
    → is_nonneg (accepted_name (env.os.accept s.clock b.sock)).ret ≡ true
    → Accepted env s idx b (accepted_name (env.os.accept s.clock b.sock))
unfolding sockbuf_got_readable_server socket_accept
got_readable_server-Accepted env s idx b h inv bare up =
    let name = accepted_name (env.os.accept s.clock b.sock) in
    let (r, t, unblocked) = nonblock_run env.os name.ret (record s { clock = suc s.clock }) in
    let s₁ : State = record s { clock = t } in
    let inv₁ : PollInv s₁ = record {
      socks = inv.socks;
      total = inv.total;
      distinct = inv.distinct;
      paired = inv.paired;
    } in
    let put = new_set_sock-Placed env s₁ name.ret inbound_flags refl refl inv₁ in
    let n = put.idx in
    let (c, t', named, same_sock, same_flags, same_filters, same_port) =
      name_ends_run env put.state n put.after name.ip name.port put.holds.at in
    let old = λ (j : ℕ) (d : Sockbuf) (hj : Holds s j d).
      put.kept j d (record { at = hj.at; live = hj.live }) in
    let told =
      on_newclient-bare env put.state (with_sockbuf put.state n c t') idx n b level_internal name.ip
        name.port (old idx b h).at bare named in
    record {
      newidx = n;
      state = with_sockbuf put.state n c t';
      client = c;
      unused = put.unused;
      holds = record {
        at = set-get_elem? put.state.sockbufs n c put.holds.at;
        live = rw (same_flags, put.flags_are) refl;
      };
      sock_is = same_sock ∙ put.sock_is;
      flags_are = same_flags ∙ put.flags_are;
      port_is = same_port;
      no_filters = same_filters ∙ put.no_filters;
      kept = λ j d hj. record {
        at =
            get_elem?-set_ne put.state.sockbufs n j c (unused-ne s n j put.unused hj)
            ∙ (old j d hj).at;
        live = hj.live;
      };
      inv =
          with_sockbuf-PollInv put.state n put.after c t' put.holds.at same_sock same_flags put.inv;
      runs = rw (h.at, up, unblocked, put.created, put.returns) (rw told refl);
    }
