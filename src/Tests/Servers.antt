-- ===== src/Tests/Servers.antt =====
-- The programs with a loop of their own on small runs: other/pm.c, other/udpfwd.c,
-- and what telnet_filter_read makes of a chunk.
use examples.Common.{take}
use examples.Common.{
  ℕ, ◌≡◌, ◌≢◌, refl, true, false, none, some, List, [], ◌∷◌, ◌++◌, Bytes, pos, arith, inl, codes,
}
use examples.Sockbuf.Run.{fault, ◌>>◌}
use examples.Tests.{world, connection, with_one}
use examples.Epoll.{
  Adding, Ready, read_error, Listening, State, initial, ip4add, sockpoll, sockadd, clientadd,
  register, relink,
}
use examples.Epoll.Links.{IsLinked}
use examples.Epoll.Serve.{here, Reported, sockpoll_safe}
use examples.Udpfwd.{Received, arrived, recv_error, Peers, SockAddr, Datagram, to, forward_all}
use examples.Udpfwd.Replies.{AllFrom, replies_to, forward_all-session}
use examples.Circ.Parse.Lines.{Lacks}
use examples.Telnet.Write.{render}
use examples.Telnet.Read.{telnet_filter_read}
use examples.Telnet.Read.Negotiation.{
  Command, do_option, dont_option, will, AllCommands, bytes_of_all, answer_all, pass_on,
  echo_after_all, read-negotiation,
}
use examples.Telnet.Read.Split.{read-split_fault}

abbrev all_well : Adding
all_well = record { fcntl_ok = true; calloc_ok = true; epoll_ok = true }

abbrev listener : Listening
listener = Listening.opened (pos 3) all_well

abbrev two_clients : List (ℕ × Ready)
two_clients =
    (
      0,
      record {
        chunks = 0;
        last = read_error true;
        pending =
            record { fd = pos 4; adding = all_well }
            ∷ record { fd = pos 5; adding = all_well }
            ∷ [];
        again = true;
      },
    )
    ∷ []

listener-Reported : Reported two_clients (ip4add listener initial).1.registered
unfolding ip4add sockadd clientadd register relink
listener-Reported = (inl refl, tt)

sockpoll_example :
    IsLinked (ip4add listener initial).1
    × ((t : State) × (sockpoll (some two_clients) (ip4add listener initial).1 ≡ some (true, t))
        × IsLinked t)
sockpoll_example = sockpoll_safe listener two_clients here listener-Reported

abbrev server : SockAddr
server = record { ip = 1; port = 53 }

abbrev client : ℕ → SockAddr
client n = record { ip = n; port = 4000 }

abbrev datagram : SockAddr → Bytes → Datagram
datagram from bytes = record { from = from; bytes = bytes }

abbrev nobody : Peers
nobody = record { clientsa = none; lastsa = none }

abbrev answers : List Received
answers =
    recv_error
    ∷ arrived (datagram server (codes "a"))
    ∷ recv_error
    ∷ arrived (datagram server (codes "b"))
    ∷ []

answers-AllFrom : AllFrom 1 answers
answers-AllFrom = (refl, (refl, tt))

other_address : (client 3).ip ≢ server.ip
other_address e = absurd (omega arith)

forward_all_example :
    forward_all server
      (recv_error
        ∷ arrived (datagram (client 2) (codes "x"))
        ∷ arrived (datagram (client 3) (codes "y"))
        ∷ answers)
      nobody
    ≡ forward_all server (recv_error ∷ arrived (datagram (client 2) (codes "x")) ∷ []) nobody
      ++ to server (take 16384 (codes "y")) ∷ replies_to (client 3) answers
forward_all_example =
    forward_all-session server (recv_error ∷ arrived (datagram (client 2) (codes "x")) ∷ [])
      (datagram (client 3) (codes "y")) answers nobody other_address answers-AllFrom

-- DO ECHO, WILL 31, DONT ECHO, and the text "hi".
abbrev options : List Command
options = do_option 1 ∷ will 31 ∷ dont_option 1 ∷ []

options-AllCommands : AllCommands options
options-AllCommands = (tt, (tt, (tt, tt)))

abbrev hi : Bytes
hi = codes "hi"

hi-Lacks : Lacks 255 hi
hi-Lacks = (λ e. absurd (omega arith), (λ e. absurd (omega arith), tt))

hi-render : render 0 false hi ≡ some hi
unfolding render examples.Telnet.Write.piece examples.Telnet.escape_of
hi-render = refl

negotiation_example :
    telnet_filter_read world 4 3 0 0 0 (bytes_of_all options ++ hi) (0 ∷ []) false false
    ≡ answer_all world 0 false options >> pass_on world 0 (echo_after_all false options) false hi hi
negotiation_example =
    read-negotiation world 4 0 0 0 options hi hi [] false false (omega arith) options-AllCommands
      hi-Lacks hi-render

split_fault_example :
    telnet_filter_read world 2 0 0 0 0 (hi ++ 255 ∷ []) (0 ∷ []) false false (with_one connection)
    ≡ fault
split_fault_example =
    read-split_fault world 0 0 0 0 0 hi [] false false (with_one connection) (omega arith) hi-Lacks
