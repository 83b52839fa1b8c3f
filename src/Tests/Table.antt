-- ===== src/Tests/Table.antt =====
-- The table of sockbufs and the poll set, on the small world.

use examples.Common.{true}
use examples.Sockbuf.Access.{sockbuf_list}
use examples.Tests.{waiting}
use examples.Common.{List, [], false, minus_one, pos, refl, ℕ, ◌∷◌, ◌≡◌, ◌≢◌}
use examples.Sockbuf.Events.{level_internal, sockbuf_got_eof, sockbuf_on_eof}
use examples.Sockbuf.Events.Eof.{Closed, got_eof-closes_first}
use examples.Sockbuf.Run.{ok, pure, ◌>>◌}
use examples.Sockbuf.Sequence.{
  Call, attach_listener_call, calls-PollInv, close_call, detach_listener_call, new_call,
  noread_call, read_call, run_calls, set_sock_call,
}
use examples.Sockbuf.State.{Flags, Sockbuf, no_flags}
use examples.Sockbuf.Table.{fresh_sockbuf, is_valid_at, sockbuf_new}
use examples.Sockbuf.Table.New.{new-fresh}
use examples.Sockbuf.Table.PollSet.{PollInv}
use examples.Sockbuf.Table.SetSock.{SockSet, set_sock-SockSet}
use examples.Sockbuf.Valid.{Holds}
use examples.Tests.{connection, Holds-connection, with_one, with_one-PollInv, world}
use examples.Sockbuf.State.{State}

new_example :
    (idx : ℕ) × (s' : State) × (sockbuf_new (with_one connection) ≡ ok idx s')
    × (is_valid_at (with_one connection) idx ≡ false)
    × Holds s' idx fresh_sockbuf
    × ((j : ℕ) (b : Sockbuf) → Holds (with_one connection) j b → Holds s' j b)
    × PollInv s'
new_example = new-fresh (with_one connection) (with_one-PollInv connection refl)

set_sock_example : SockSet world (with_one connection) 0 connection (pos 6) no_flags
set_sock_example =
    set_sock-SockSet world (with_one connection) 0 connection (pos 6) no_flags Holds-connection
      (with_one-PollInv connection refl) refl

abbrev no_error : ℕ
no_error = 0

got_eof_example :
    (err' : ℕ) × (s₀ : State) × (c : Closed world s₀ 0 connection) × (sockbuf_got_eof world 0
        no_error
        (with_one connection)
      ≡ (sockbuf_on_eof world 0 level_internal err' >> pure tt) c.state)
    × ((no_error ≢ 0) → err' ≡ no_error)
    × (s₀.sockbufs ≡ connection ∷ [])
    × (s₀.closed ≡ [])
got_eof_example =
    got_eof-closes_first world (with_one connection) 0 connection no_error Holds-connection
      (with_one-PollInv connection refl) refl

-- A number of calls: two of them are on indices that are not valid.
abbrev some_calls : List Call
some_calls =
    new_call
    ∷ set_sock_call (pos 1) (pos 8) no_flags
    ∷ close_call (pos 9)
    ∷ noread_call (pos 0)
    ∷ attach_listener_call (pos 3)
    ∷ close_call (pos 0)
    ∷ read_call minus_one
    ∷ detach_listener_call (pos 3)
    ∷ []

calls_example :
    (s' : State) × (run_calls world some_calls (with_one connection) ≡ ok tt s') × PollInv s'
calls_example =
    calls-PollInv world some_calls (with_one connection)
      (tt, (refl, (tt, (tt, (tt, (tt, (tt, (tt, tt)))))))) (with_one-PollInv connection refl)

abbrev only_blocked : Flags
only_blocked = record no_flags { block = true }

list_test : sockbuf_list only_blocked (with_one waiting) ≡ 0 ∷ []
unfolding sockbuf_list
list_test = refl
