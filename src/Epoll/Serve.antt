-- ===== src/Epoll/Serve.antt =====
-- The loop of other/pm.c: it never follows a dangling pointer, and what each part of it registers.
use mathlib.Core.Path.{subst}
use examples.Common.{
  ℕ, zero, suc, ◌≤◌, ◌<◌, ◌≡◌, ◌⊎◌, refl, inl, inr, Bool, true, false, Option, none, some, List, [],
  ◌∷◌, ℤ, length, get_elem?, get_elem?_total, arith, Bool-cases,
}
use examples.Epoll.{
  State, Client, print, clientadd, sockadd, register, sockdel, client_cb, server_cb, call_back,
  handle, handle_events, sockpoll, ip4add, initial, Ready, Accepted, Adding, ReadEnd, read_error,
  read_eof, Callback, client_cb_ptr, server_cb_ptr, Listening, opened, failed, connect_line,
  error_line, tick_line, data_line, next_of, head_place,
}
use examples.Epoll.Links.{
  IsLinked, AllKnown, print-IsLinked, sockdel-IsLinked, sockadd-IsLinked, length-relink,
}

client_cb-IsLinked :
    (chunks : ℕ) (last : ReadEnd) (fd : ℤ) (s : State)
    → IsLinked s
    → IsLinked (client_cb chunks last fd s)
unfolding client_cb
client_cb-IsLinked zero (read_error true) fd s inv = inv
client_cb-IsLinked zero (read_error false) fd s inv = print-IsLinked error_line s inv
client_cb-IsLinked zero (read_eof epoll_ok) fd s inv = sockdel-IsLinked epoll_ok fd s inv
client_cb-IsLinked (suc chunks) last fd s inv =
    client_cb-IsLinked chunks last fd (print data_line s) (print-IsLinked data_line s inv)

server_cb-IsLinked :
    (pending : List Accepted) (again : Bool) (s : State)
    → IsLinked s
    → IsLinked (server_cb pending again s)
unfolding server_cb
server_cb-IsLinked [] true s inv = inv
server_cb-IsLinked [] false s inv = print-IsLinked error_line s inv
server_cb-IsLinked (a ∷ pending) again s inv =
    let before = print connect_line s in
    let added =
      sockadd-IsLinked a.adding a.fd client_cb_ptr 0 before (print-IsLinked connect_line s inv) in
    elim (Bool-cases (sockadd a.adding a.fd client_cb_ptr 0 before).0) [
      | inl done ↦
          rw done (
            server_cb-IsLinked pending again (sockadd a.adding a.fd client_cb_ptr 0 before).1 added)
      | inr stop ↦ rw stop added
    ]

call_back-IsLinked :
    (cb : Callback) (r : Ready) (fd : ℤ) (s : State) → IsLinked s → IsLinked (call_back cb r fd s)
unfolding call_back
call_back-IsLinked client_cb_ptr r fd s inv = client_cb-IsLinked r.chunks r.last fd s inv
call_back-IsLinked server_cb_ptr r fd s inv = server_cb-IsLinked r.pending r.again s inv

-- Clients are never taken off the list.
clientadd-grows :
    (calloc_ok : Bool) (fd : ℤ) (cb : Callback) (p : ℕ) (s : State)
    → length s.clients ≤ length (clientadd calloc_ok fd cb p s).1.clients
unfolding clientadd
clientadd-grows false fd cb p s = omega arith
clientadd-grows true fd cb p s =
    let made : Client = record { fd = fd; cb = cb; p = p; prev = head_place; next = s.head } in
    omega (arith, length-relink s.head (next_of (length s.clients)) s.clients made)

clients-register :
    (epoll_ok : Bool) (fd : ℤ) (o : Option ℕ) (s : State)
    → (register epoll_ok fd (o, s)).1.clients ≡ s.clients
unfolding register
clients-register epoll_ok fd none s = refl
clients-register false fd (some c) s = refl
clients-register true fd (some c) s = refl

sockadd-grows :
    (answers : Adding) (fd : ℤ) (cb : Callback) (p : ℕ) (s : State)
    → length s.clients ≤ length (sockadd answers fd cb p s).1.clients
unfolding sockadd
sockadd-grows answers fd cb p s = elim (Bool-cases answers.fcntl_ok) [
  | inl set ↦
      let added = clientadd answers.calloc_ok fd cb p s in
      rw (set, clients-register answers.epoll_ok fd added.0 added.1)
        (clientadd-grows answers.calloc_ok fd cb p s)
  | inr unset ↦ rw unset (omega arith)
]

client_cb-grows :
    (chunks : ℕ) (last : ReadEnd) (fd : ℤ) (s : State)
    → length s.clients ≤ length (client_cb chunks last fd s).clients
unfolding client_cb sockdel
client_cb-grows zero (read_error true) fd s = omega arith
client_cb-grows zero (read_error false) fd s = omega arith
client_cb-grows zero (read_eof true) fd s = omega arith
client_cb-grows zero (read_eof false) fd s = omega arith
client_cb-grows (suc chunks) last fd s = client_cb-grows chunks last fd (print data_line s)

server_cb-grows :
    (pending : List Accepted) (again : Bool) (s : State)
    → length s.clients ≤ length (server_cb pending again s).clients
unfolding server_cb
server_cb-grows [] true s = omega arith
server_cb-grows [] false s = omega arith
server_cb-grows (a ∷ pending) again s =
    let added = sockadd a.adding a.fd client_cb_ptr 0 (print connect_line s) in
    let grew = sockadd-grows a.adding a.fd client_cb_ptr 0 (print connect_line s) in
    elim (Bool-cases added.0) [
      | inl done ↦ rw done (omega (arith, grew, server_cb-grows pending again added.1))
      | inr stop ↦ rw stop grew
    ]

call_back-grows :
    (cb : Callback) (r : Ready) (fd : ℤ) (s : State)
    → length s.clients ≤ length (call_back cb r fd s).clients
unfolding call_back
call_back-grows client_cb_ptr r fd s = client_cb-grows r.chunks r.last fd s
call_back-grows server_cb_ptr r fd s = server_cb-grows r.pending r.again s

-- The pointer is one that the kernel holds.
abbrev pub Holds : ℕ → List (ℤ × ℕ) → Type 0
Holds c [] = ⊥
Holds c ((fd, c') ∷ rest) = (c ≡ c') ⊎ Holds c rest

-- epoll_wait reports pointers that were registered.
abbrev pub Reported : List (ℕ × Ready) → List (ℤ × ℕ) → Type 0
Reported [] reg = Unit {0}
Reported ((c, r) ∷ events) reg = Holds c reg × Reported events reg

Holds-known : (c n : ℕ) (reg : List (ℤ × ℕ)) → AllKnown n reg → Holds c reg → c < n
Holds-known c n [] known held = absurd held
Holds-known c n ((fd, c') ∷ rest) (lt, known) (inl e) = omega arith
Holds-known c n ((fd, c') ∷ rest) (lt, known) (inr held) = Holds-known c n rest known held

-- The run ends in a sound state with all the clients that there were.
abbrev Ends : State → Option State → Type 0
Ends s o = (s' : State) × (o ≡ some s') × IsLinked s' × (length s.clients ≤ length s'.clients)

handle_total :
    (c : ℕ) (r : Ready) (s : State) (cl : Client)
    → get_elem? s.clients c ≡ some cl
    → IsLinked s
    → Ends s (handle (c, r) s)
unfolding handle
handle_total c r s cl found inv = (
  call_back cl.cb r cl.fd s,
  rw (handle, found) refl,
  call_back-IsLinked cl.cb r cl.fd s inv,
  call_back-grows cl.cb r cl.fd s,
)

handle_events_total :
    (events : List (ℕ × Ready)) (s : State)
    → IsLinked s
    → Reported events s.registered
    → Ends s (handle_events events s)
unfolding handle_events
handle_events_total [] s inv rep = (s, refl, inv, omega arith)
handle_events_total ((c, r) ∷ events) s inv (held, rep) =
    let (s', ran, inv', grew) = handle_events_total events s inv rep in
    let inside : c < length s.clients =
      Holds-known c (length s.clients) s.registered inv.known held in
    let found = get_elem?_total s'.clients c (omega arith) in
    let (s'', last, inv'', grew') = handle_total c r s' found.0 found.1 inv' in
    (s'', rw (ran, last) refl, inv'', omega arith)

-- A round of the loop in `main` in which sockpoll returns 1.
pub data Round : State → State → Type 0 where
  polled :
      {s t : State} (events : List (ℕ × Ready))
      → Reported events s.registered
      → sockpoll (some events) s ≡ some (true, t)
      → Round s (print tick_line t)

pub data Reach (s : State) : State → Type 0 where
  here : Reach s s
  next : {t u : State} → Reach s t → Round t u → Reach s u

initial-IsLinked : IsLinked initial
initial-IsLinked = record { linked = refl; known = tt }

ip4add-IsLinked : (listening : Listening) → IsLinked (ip4add listening initial).1
unfolding ip4add
ip4add-IsLinked failed = print-IsLinked error_line initial initial-IsLinked
ip4add-IsLinked (opened sock adding) =
    sockadd-IsLinked adding sock server_cb_ptr 0 initial initial-IsLinked

sockpoll_total :
    (events : List (ℕ × Ready)) (s : State)
    → IsLinked s
    → Reported events s.registered
    → (t : State) × (sockpoll (some events) s ≡ some (true, t)) × IsLinked t
unfolding sockpoll
sockpoll_total events s inv rep =
    let (t, ran, inv', grew) = handle_events_total events s inv rep in
    (t, rw (sockpoll, ran) refl, inv')

Round-IsLinked : {s t : State} → Round s t → IsLinked s → IsLinked t
Round-IsLinked {s} (polled {t = t} events rep ran) inv =
    let (t', ran', inv') = sockpoll_total events s inv rep in
    print-IsLinked tick_line t (subst IsLinked (let e : t' ≡ t = cc in e) inv')

Reach-IsLinked : {s t : State} → Reach s t → IsLinked s → IsLinked t
Reach-IsLinked here inv = inv
Reach-IsLinked (next run round) inv = Round-IsLinked round (Reach-IsLinked run inv)

-- From the start of `main` on, the list holds every client once with its back pointer right, the
-- kernel holds pointers to clients only, and the next round, on events that epoll may report,
-- follows no other pointer and ends.
pub sockpoll_safe :
    (listening : Listening) {s : State} (events : List (ℕ × Ready))
    → Reach (ip4add listening initial).1 s
    → Reported events s.registered
    → IsLinked s × ((t : State) × (sockpoll (some events) s ≡ some (true, t)) × IsLinked t)
sockpoll_safe listening {s} events run rep =
    let inv = Reach-IsLinked run (ip4add-IsLinked listening) in
    (inv, sockpoll_total events s inv rep)
