-- ===== src/Onethread.antt =====
-- c-cpp/onethread/onethread.c: one thread that polls a listening socket and its connections. What
-- the system answers in a round is an argument.
pub mod Table
pub mod Descriptors
use examples.Common.{
  ℕ, zero, suc, ◌+◌, Bool, true, false, ◌||◌, Option, none, some, List, [], ◌∷◌, ◌++◌, leb, ◌==◌,
  if◌then◌else◌, length,
}

-- POLLIN, POLLHUP, and POLLERR or POLLNVAL.
pub record Bits : Type 0 where
  pub input : Bool
  pub hup : Bool
  pub err : Bool

-- An entry of `fds` behind the first; no descriptor stands for -1.
pub record Entry : Type 0 where
  pub fd : Option ℕ
  pub revents : Bits

-- The entries from 1 up to `nfds`, and what has been passed to `close`. The array has 128 entries.
pub record State : Type 0 where
  pub clients : List Entry
  pub closed : List (Option ℕ)

abbrev pub initial : State
initial = record { clients = []; closed = [] }

abbrev pub max_fds : ℕ
max_fds = 128

pub data Received : Type 0 where
  bytes : (sbuf : ℕ) → Received
  failed : Received

-- The answers of one round: what `poll` stores, what `accept` and `recv` return, and what the stack
-- holds where the new entry's `revents` are.
pub record Ready : Type 0 where
  pub listener : Bits
  pub bits : ℕ → Bits
  pub accepted : Option ℕ
  pub stack : Bits
  pub received : ℕ → Received

pub data Polled : Type 0 where
  poll_failed : Polled
  timeout : Polled
  ready : Ready → Polled

pub data Outcome : Type 0 where
  running : State → Outcome
  exited : Outcome
  fault : Outcome

unfoldable pub store_bits : (ℕ → Bits) → (i : ℕ) → List Entry → List Entry
store_bits bits i [] = []
store_bits bits i (e ∷ es) = record { fd = e.fd; revents = bits i } ∷ store_bits bits (suc i) es

-- if (fds[0].revents & POLLIN): `none` where the array is full.
unfoldable pub accept_client : Ready → List Entry → Option (List Entry)
accept_client r es = if leb max_fds (suc (length es)) then none else elim (r.accepted) [
  | none ↦ some es
  | some fd ↦ some (es ++ record { fd = some fd; revents = r.stack } ∷ [])
]

-- What the read of a client with POLLIN does to its entry: rbuf[-1] is written where `recv` fails.
unfoldable pub read_client : Received → Entry → Option Entry
read_client failed e = none
read_client (bytes sbuf) e = some (
    if sbuf == 0
    then record e { revents = record { input = true; hup = true; err = e.revents.err } }
    else e)

unfoldable pub read_entry : Received → Entry → Option Entry
unfolding read_client
read_entry received e = if e.revents.input then read_client received e else some e

-- The loop that reads.
unfoldable pub read_clients : (ℕ → Received) → (i : ℕ) → List Entry → Option (List Entry)
read_clients received i [] = some []
read_clients received i (e ∷ es) =
    let rest = read_clients received (suc i) es in
    elim (read_entry (received i) e) [
      | none ↦ none
      | some e' ↦ elim rest [ none ↦ none | some es' ↦ some (e' ∷ es') ]
    ]

abbrev pub close_client : Entry → Entry
close_client e = if e.revents.hup then record e { fd = none } else e

-- The loop that closes, and the descriptors that it passes to `close`.
unfoldable pub close_clients : List Entry → List Entry
close_clients [] = []
close_clients (e ∷ es) = close_client e ∷ close_clients es

unfoldable pub closed_by : List Entry → List (Option ℕ)
closed_by [] = []
closed_by (e ∷ es) = let rest = closed_by es in if e.revents.hup then e.fd ∷ rest else rest

-- The two loops.
unfoldable pub serve_clients : Ready → List Entry → State → Outcome
serve_clients r es s = elim (read_clients r.received 0 es) [
  | none ↦ fault
  | some es' ↦ running (record { clients = close_clients es'; closed = s.closed ++ closed_by es' })
]

-- The body of the loop in `main`.
unfoldable pub round : Polled → State → Outcome
round poll_failed s = exited
round timeout s = running s
round (ready r) s =
    let es = store_bits r.bits 0 s.clients in
    if r.listener.err || r.listener.hup
    then exited
    else elim (if r.listener.input then accept_client r es else some es) [
      | none ↦ fault
      | some es' ↦ serve_clients r es' s
    ]

unfoldable pub rounds : List Polled → State → Outcome
rounds [] s = running s
rounds (p ∷ ps) s = elim (round p s) [ running s' ↦ rounds ps s' | exited ↦ exited | fault ↦ fault ]
