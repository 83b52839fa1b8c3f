-- ===== src/Epoll.antt =====
-- other/pm.c: clients in a doubly linked list, registered with epoll. A client is the index of its
-- cell; what the system answers is an argument. Clients are never freed.
pub mod Links
pub mod Serve
pub mod Accepting
use examples.Common.{
  ℕ, zero, suc, ◌+◌, ◌-◌, Bool, true, false, not, Option, none, some, List, [], ◌∷◌, ◌++◌, ℤ, pos,
  negsuc, ltb_ℤ, eqb_ℤ, if◌then◌else◌, length, get_elem?, modify_at,
}

-- The two functions that are stored as `cb`.
pub data Callback : Type 0 where
  client_cb_ptr : Callback
  server_cb_ptr : Callback

-- What `prev` points to: the variable `head`, or the field `next` of a client.
pub data Place : Type 0 where
  head_place : Place
  next_of : ℕ → Place

pub record Client : Type 0 where
  pub fd : ℤ
  pub cb : Callback
  pub p : ℕ
  pub prev : Place
  pub next : Option ℕ

pub data Line : Type 0 where
  data_line : Line
  connect_line : Line
  error_line : Line
  tick_line : Line

-- `registered` is what the kernel keeps for `epfd`: descriptors with the pointer in `data.ptr`.
pub record State : Type 0 where
  pub clients : List Client
  pub head : Option ℕ
  pub registered : List (ℤ × ℕ)
  pub printed : List Line

abbrev pub initial : State
initial = record { clients = []; head = none; registered = []; printed = [] }

abbrev pub print : Line → State → State
print line s = record s { printed = s.printed ++ line ∷ [] }

abbrev pub set_prev : Place → Client → Client
set_prev place c = record c { prev = place }

-- if (head) head->prev = place;
unfoldable pub relink : Option ℕ → Place → List Client → List Client
relink none place clients = clients
relink (some h) place clients = modify_at (set_prev place) h clients

-- `calloc_ok` is false where calloc returns NULL.
unfoldable pub clientadd : (calloc_ok : Bool) → ℤ → Callback → (p : ℕ) → State → Option ℕ × State
clientadd false fd cb p s = (none, print error_line s)
clientadd true fd cb p s =
    let new = length s.clients in
    let made : Client = record { fd = fd; cb = cb; p = p; prev = head_place; next = s.head } in
    (
      some new,
      record s { clients = relink s.head (next_of new) (s.clients ++ made ∷ []); head = some new },
    )

abbrev pub unregistered : ℤ → List (ℤ × ℕ) → List (ℤ × ℕ)
unregistered fd [] = []
unregistered fd ((fd', c) ∷ rest) =
    if eqb_ℤ fd' fd then unregistered fd rest else (fd', c) ∷ unregistered fd rest

-- `epoll_ok` is false where epoll_ctl fails.
unfoldable pub sockdel : (epoll_ok : Bool) → ℤ → State → Bool × State
sockdel false fd s = (false, print error_line s)
sockdel true fd s = (true, record s { registered = unregistered fd s.registered })

-- How the three calls of `sockadd` end.
pub record Adding : Type 0 where
  pub fcntl_ok : Bool
  pub calloc_ok : Bool
  pub epoll_ok : Bool

unfoldable pub register : (epoll_ok : Bool) → ℤ → Option ℕ × State → Bool × State
register epoll_ok fd (none, s) = (false, s)
register false fd (some c, s) = (false, print error_line s)
register true fd (some c, s) = (true, record s { registered = (fd, c) ∷ s.registered })

unfoldable pub sockadd : Adding → ℤ → Callback → (p : ℕ) → State → Bool × State
sockadd answers fd cb p s =
    if not answers.fcntl_ok
    then (false, print error_line s)
    else register answers.epoll_ok fd (clientadd answers.calloc_ok fd cb p s)

-- How the reads of a descriptor end: by -1 with errno, or by 0.
pub data ReadEnd : Type 0 where
  read_error : (again : Bool) → ReadEnd
  read_eof : (epoll_ok : Bool) → ReadEnd

-- `chunks` reads return data before the last one.
unfoldable pub client_cb : (chunks : ℕ) → ReadEnd → ℤ → State → State
client_cb zero (read_error again) fd s = if not again then print error_line s else s
client_cb zero (read_eof epoll_ok) fd s = (sockdel epoll_ok fd s).1
client_cb (suc chunks) last fd s = client_cb chunks last fd (print data_line s)

-- A connection that `accept` returns, and how adding it ends.
pub record Accepted : Type 0 where
  pub fd : ℤ
  pub adding : Adding

-- `again` is whether the accept that fails sets EAGAIN.
unfoldable pub server_cb : List Accepted → (again : Bool) → State → State
server_cb [] again s = if not again then print error_line s else s
server_cb (a ∷ pending) again s =
    let added = sockadd a.adding a.fd client_cb_ptr 0 (print connect_line s) in
    let rest = server_cb pending again added.1 in if not added.0 then added.1 else rest

-- What the system answers to the calls that a callback makes.
pub record Ready : Type 0 where
  pub chunks : ℕ
  pub last : ReadEnd
  pub pending : List Accepted
  pub again : Bool

-- cl->cb (cl), for the descriptor of the client.
unfoldable pub call_back : Callback → Ready → ℤ → State → State
call_back client_cb_ptr r fd s = client_cb r.chunks r.last fd s
call_back server_cb_ptr r fd s = server_cb r.pending r.again s

-- cl = ev[res].data.ptr; a pointer to no client is a fault.
unfoldable pub handle : ℕ × Ready → State → Option State
handle (c, r) s = elim (get_elem? s.clients c) [
  | none ↦ none
  | some cl ↦ some (call_back cl.cb r cl.fd s)
]

-- The loop goes from the last event of the array to the first.
unfoldable pub handle_events : List (ℕ × Ready) → State → Option State
handle_events [] s = some s
handle_events (e ∷ events) s = elim (handle_events events s) [ none ↦ none | some s' ↦ handle e s' ]

-- `none` where epoll_wait fails.
unfoldable pub sockpoll : Option (List (ℕ × Ready)) → State → Option (Bool × State)
sockpoll none s = some (false, print error_line s)
sockpoll (some events) s = elim (handle_events events s) [ none ↦ none | some s' ↦ some (true, s') ]

-- How far `ip4add` comes: the first of socket, bind and listen that fails, or none.
pub data Listening : Type 0 where
  failed : Listening
  opened : (s : ℤ) → Adding → Listening

unfoldable pub ip4add : Listening → State → Bool × State
ip4add failed s = (false, print error_line s)
ip4add (opened sock adding) s = (true, (sockadd adding sock server_cb_ptr 0 s).1)

-- while (sockpoll (10000)) printf ("tick\n"), for as many rounds as are given.
unfoldable pub poll_rounds : List (Option (List (ℕ × Ready))) → State → Option State
poll_rounds [] s = some s
poll_rounds (events ∷ rounds) s = elim (sockpoll events s) [
  | none ↦ none
  | some (more, s') ↦ elim more [ true ↦ poll_rounds rounds (print tick_line s') | false ↦ some s' ]
]

-- `main` up to the end of the loop.
unfoldable pub main : Listening → List (Option (List (ℕ × Ready))) → Option State
main listening rounds = poll_rounds rounds (ip4add listening initial).1
