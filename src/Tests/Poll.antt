-- ===== src/Tests/Poll.antt =====
-- Rounds of c-cpp/onethread/onethread.c.
use examples.Common.{ℕ, ◌+◌, ◌≡◌, refl, true, false, none, some, List, [], ◌∷◌, length, replicate}
use examples.Onethread.{
  Bits, State, Ready, Polled, ready, timeout, bytes, running, fault, initial, round, rounds,
  store_bits, accept_client, read_client, read_entry, read_clients, close_clients, closed_by,
  serve_clients,
}
use examples.Onethread.Table.{held, taken, accepts}
use examples.Onethread.Descriptors.{rounds-held, rounds-full}

abbrev no_bits : Bits
no_bits = record { input = false; hup = false; err = false }

abbrev input_bits : Bits
input_bits = record no_bits { input = true }

-- A round with a connection on a descriptor.
abbrev arrives : ℕ → Ready
arrives fd = record {
  listener = input_bits;
  bits = λ i. no_bits;
  accepted = some fd;
  stack = no_bits;
  received = λ i. bytes 0;
}

-- A round in which the peer of each client has closed.
abbrev all_close : Ready
all_close = record (arrives 0) { listener = no_bits; bits = λ i. input_bits }

abbrev some_rounds : List Polled
some_rounds = ready (arrives 4) ∷ timeout ∷ ready all_close ∷ ready (arrives 4) ∷ []

abbrev afterwards : State
afterwards = record {
  clients =
      record { fd = none; revents = no_bits } ∷ record { fd = some 4; revents = no_bits } ∷ [];
  closed = some 4 ∷ [];
}

some_rounds_run : rounds some_rounds initial ≡ running afterwards
unfolding rounds round store_bits accept_client read_client read_entry read_clients close_clients
    closed_by serve_clients
some_rounds_run = refl

held_example :
    ((v : ℕ) → held v afterwards ≡ taken v some_rounds + held v initial)
    × (length afterwards.clients ≡ accepts some_rounds + length initial.clients)
held_example = rounds-held some_rounds initial afterwards some_rounds_run

abbrev many : List Polled
many = replicate 127 (ready (arrives 4))

abbrev full : State
full = record { clients = replicate 127 (record { fd = some 4; revents = no_bits }); closed = [] }

many_run : rounds many initial ≡ running full
unfolding rounds round store_bits accept_client read_client read_entry read_clients close_clients
    closed_by serve_clients
many_run = refl

full_example : round (ready (arrives 5)) full ≡ fault
full_example = rounds-full many full (arrives 5) many_run refl refl refl
