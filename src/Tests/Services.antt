-- ===== src/Tests/Services.antt =====
-- The three services of c-cpp/onethread/multiserv.c on the small world.
use examples.Common.{ℕ, ◌≡◌, refl, true, false, none, some, List, [], ◌∷◌, pos, is_nonneg, codes}
use examples.Sockbuf.State.{Ptr, Sockbuf, State, initial, no_flags}
use examples.Sockbuf.Run.{ok}
use examples.Sockbuf.Env.{Handler}
use examples.Sockbuf.Table.{fresh_sockbuf, is_valid_at}
use examples.Sockbuf.Table.Paired.{Distinct}
use examples.Sockbuf.Table.PollSet.{PollInv}
use examples.Sockbuf.Io.{sockbuf_got_readable_server}
use examples.Socket.{accepted_name}
use examples.Socket.Create.{
  Net, NetState, socket_create, try_passive, do_bind, do_connect, socket_name,
}
use examples.Multiserv.{Service, servone, servtwo, servthr, program, main, reports}
use examples.Multiserv.Serving.{Served, accept-Served}
use examples.Multiserv.Starting.{AllCreated, AllServed, main-AllServed}
use examples.Sockbuf.Table.Placed.{Kept}
use examples.Tests.{small_os, plain_filter, quiet_handler, with_one, with_one-PollInv}

abbrev no_handlers : Ptr → Handler
no_handlers p = quiet_handler

-- Every call succeeds; the descriptors are told by the clock.
abbrev open_net : Net
open_net = record {
  inet_pton = λ family text. some [];
  socket = λ t family datagram. pos t;
  bind = λ t fd a. true;
  connect = λ t fd a. none;
  einprogress = 115;
}

abbrev at_first : NetState
at_first = record { clock = 3; calls = [] }

initial-PollInv : PollInv initial
initial-PollInv = record { socks = refl; total = refl; distinct = tt; paired = tt }

abbrev the_services : List Service
the_services = servone ∷ servtwo ∷ servthr ∷ []

services-AllCreated : AllCreated open_net the_services at_first
unfolding socket_create try_passive do_bind do_connect socket_name
services-AllCreated = (refl, (refl, (refl, tt)))

main_example :
    (is : List ℕ) × (s' : State) × (main
        (program small_os plain_filter no_handlers)
        open_net
        9
        at_first
        initial
      ≡ ok true s')
    × Distinct is
    × AllServed open_net s' 9 the_services is at_first
    × PollInv s'
main_example =
    main-AllServed (program small_os plain_filter no_handlers) open_net 9 at_first initial
      services-AllCreated initial-PollInv

-- The second service, listening on descriptor 4.
abbrev listener : Sockbuf
listener = record fresh_sockbuf {
  sock = pos 4;
  flags = record no_flags { server = true };
  handler = some 2;
  client_data = 9;
}

listener-Served : Served (with_one listener) 0 servtwo 9
listener-Served = record {
  sockbuf = listener;
  holds = record { at = refl; live = refl };
  handler_is = refl;
  data_is = refl;
  bare = refl;
}

listener-came :
    is_nonneg
      (accepted_name (small_os.accept (with_one listener).clock listener-Served.sockbuf.sock)).ret
    ≡ true
unfolding accepted_name listener-Served
listener-came = refl

accept_example :
    (newidx : ℕ) × (s' : State) × (sockbuf_got_readable_server
        (program small_os plain_filter no_handlers)
        0
        (with_one listener)
      ≡ ok tt s')
    × (is_valid_at (with_one listener) newidx ≡ false)
    × Served s' newidx servtwo 9
    × Kept (with_one listener) s'
    × PollInv s'
accept_example =
    accept-Served small_os plain_filter no_handlers (with_one listener) 0 servtwo 9 listener-Served
      (with_one-PollInv listener refl) listener-came

-- What is told of a read is the service of the read before it.
reports_test :
    reports ((servtwo, codes "a") ∷ (servone, codes "b") ∷ []) (record { last = codes "NONE" })
    ≡ record { service = servtwo; text = codes "a"; last_service = codes "NONE" }
      ∷ record { service = servone; text = codes "b"; last_service = codes "two" }
      ∷ []
unfolding reports
reports_test = refl
