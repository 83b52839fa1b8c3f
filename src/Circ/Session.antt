-- ===== src/Circ/Session.antt =====
-- The sessions of c-cpp/circ/circ.c. The network library `cnet` is a record of functions.
pub mod Events
pub mod Send
pub mod Table
use examples.Common.{
  ℕ, zero, suc, ◌+◌, ◌-◌, ◌≤◌, ◌<◌, Bool, true, false, not, ◌||◌, Option, none, some, List, [], ◌∷◌,
  ◌++◌, Bytes, ℤ, pos, negsuc, minus_one, ltb, leb, ◌==◌, if◌then◌else◌, length, get_elem?, set,
  take, drop, eqb_ℤ, replicate, c_string,
}
use examples.Circ.Text.{same_ignoring_case}
use examples.Circ.Parse.{Message, empty_message, circ_parse}

abbrev pub Ptr : Type 0
Ptr = ℕ

-- A command and the address of its function.
pub record Callback : Type 0 where
  pub command : Bytes
  pub callback : Ptr

-- `flags` is CIRC_CONNECTED and CIRC_DESTROY; `callbacks` is the table up to its NULL entry.
pub record Session : Type 0 where
  pub sid : ℕ
  pub nsid : ℤ
  pub connected : Bool
  pub destroy : Bool
  pub host : Option Bytes
  pub client_data : Ptr
  pub msg : Message
  pub callbacks : List Callback

-- A pointer to an element of the table of sessions, as it was after `table` reallocations.
pub record SessionPtr : Type 0 where
  pub table : ℕ
  pub index : ℕ

-- What `cnet` was told, and the number of its answers so far.
pub data CnetCall : Type 0 where
  write : (nsid : ℤ) → Bytes → CnetCall
  set_up : (nsid : ℤ) → (conn_data : SessionPtr) → (line_mode : Bool) → CnetCall

-- `table` counts the reallocations of the table, each of which is taken to move it.
pub record State : Type 0 where
  pub table : ℕ
  pub sessions : List Session
  pub calls : List CnetCall
  pub clock : ℕ

pub record Cnet : Type 0 where
  pub connect : ℕ → Bytes → ℕ → Option Bytes → ℤ

-- A run: a value and a state, or undefined behaviour.
pub data Outcome (A : Type 0) : Type 0 where
  ok : A → State → Outcome A
  fault : Outcome A

-- `circ_fetch`: NULL, or the place of an element. Index `nsessions` is let through, and where the
-- array is still NULL so is the pointer computed from it.
unfoldable pub circ_fetch : State → ℤ → Option ℕ
circ_fetch s (negsuc n) = none
circ_fetch s (pos sid) =
    if ltb (length s.sessions) sid || length s.sessions == 0 then none else some sid

-- if (NULL == (sess = circ_fetch (sid))) return refusal; and a read of `*sess`.
abbrev pub deref : {A : Type 0} → State → ℕ → (Session → Outcome A) → Outcome A
deref s i body = elim (get_elem? s.sessions i) [ none ↦ fault | some sess ↦ body sess ]

abbrev pub with_session : {A : Type 0} → A → State → ℤ → (ℕ → Session → Outcome A) → Outcome A
with_session refusal s sid body = elim (circ_fetch s sid) [
  | none ↦ ok refusal s
  | some i ↦ deref s i (body i)
]

-- `realloc` is taken to succeed.
unfoldable pub circ_session_create : Option Bytes → List Callback → Ptr → State → ℕ × State
circ_session_create host callbacks client_data s =
    let sid = length s.sessions in
    (
      sid,
      record s {
        table = suc s.table;
        sessions =
            s.sessions
            ++ record {
              sid = sid;
              nsid = pos 0;
              connected = false;
              destroy = false;
              host = host;
              client_data = client_data;
              msg = empty_message;
              callbacks = callbacks;
            }
              ∷ [];
      },
    )

unfoldable pub circ_session_valid : State → ℤ → Bool
circ_session_valid s sid = elim (circ_fetch s sid) [ none ↦ false | some i ↦ true ]

-- NULL is `none`.
unfoldable pub circ_session_data : ℤ → State → Outcome (Option Ptr)
circ_session_data sid s = with_session none s sid (λ i sess. ok (some sess.client_data) s)

abbrev pub crlf : Bytes
crlf = 13 ∷ 10 ∷ []

-- strcat: `src`, a text without NUL, and a NUL, from the first NUL on.
unfoldable pub strcat : (dest src : Bytes) → Bytes
strcat dest src = c_string dest ++ (src ++ 0 ∷ drop (length (c_string dest) + length src + 1) dest)

-- The 513 bytes of `data` after `vsnprintf (data, 510, ...)` printed `text`, which may hold a NUL,
-- and `strcat`.
unfoldable pub send_buffer : Bytes → Bytes
unfolding strcat
send_buffer text =
    let printed = take 509 text in strcat (printed ++ replicate (513 - length printed) 0) crlf

-- `text` is what the format comes to. The length given to `cnet_write` is that of the whole text
-- and two, so that a text of more than 511 bytes makes it read past `data`.
unfoldable pub circ_send : ℤ → Bytes → State → Outcome ℤ
circ_send sid text s = with_session minus_one s sid λ i sess.
    if ltb 513 (length text + 2)
    then fault
    else ok (pos (length text)) (record s {
      calls = s.calls ++ write sess.nsid (take (length text + 2) (send_buffer text)) ∷ [];
    })

abbrev pub put : State → ℕ → Session → State
put s i sess = record s { sessions = set s.sessions i sess }

abbrev pub and_then : {A B : Type 0} → Outcome A → (A → State → Outcome B) → Outcome B
and_then (ok a s) k = k a s
and_then fault k = fault

-- "QUIT :" and the message; `message` NULL is printed as "(null)".
abbrev pub quit_text : Option Bytes → Bytes
quit_text none =
    b'Q' ∷ b'U' ∷ b'I' ∷ b'T' ∷ b' ' ∷ b':' ∷ b'(' ∷ b'n' ∷ b'u' ∷ b'l' ∷ b'l' ∷ b')' ∷ []
quit_text (some m) = b'Q' ∷ b'U' ∷ b'I' ∷ b'T' ∷ b' ' ∷ b':' ∷ m

unfoldable pub circ_disconnect : ℤ → Option Bytes → State → Outcome ℤ
unfolding circ_send
circ_disconnect sid message s = with_session minus_one s sid λ i sess.
    and_then (circ_send sid (quit_text message) (put s i (record sess { connected = false })))
      (λ _ s'. ok (pos 0) s')

unfoldable pub circ_session_destroy : ℤ → State → Outcome ℤ
unfolding circ_disconnect
circ_session_destroy sid s =
    with_session minus_one s sid
      λ i sess. circ_disconnect sid none (put s i (record sess { destroy = true }))

unfoldable pub circ_connect : Cnet → ℤ → Bytes → ℕ → State → Outcome ℤ
circ_connect cnet sid host port s = with_session minus_one s sid λ i sess.
    if sess.connected
    then ok (pos 0) s
    else let nsid = cnet.connect s.clock host port sess.host in
      let s' = record (put s i (record sess { nsid = nsid })) { clock = suc s.clock } in
      if eqb_ℤ nsid minus_one
      then ok minus_one s'
      else ok (pos 1) (record s' {
        calls = s'.calls ++ set_up nsid (record { table = s.table; index = i }) true ∷ [];
      })

unfoldable pub find_callback : Bytes → List Callback → Option Callback
find_callback command [] = none
find_callback command (cb ∷ cbs) =
    let rest = find_callback command cbs in
    if same_ignoring_case command cb.command then some cb else rest

-- The call that `circ_process` ends with, of the function at that address, or `none` for `return
-- 0`.
unfoldable pub circ_process : ℤ → Bytes → State → Outcome (Option Ptr)
circ_process sid text s = elim (circ_fetch s sid) [
  | none ↦ fault
  | some i ↦ deref s i λ sess.
      let msg = circ_parse text in
      let s' = put s i (record sess { msg = msg }) in
      elim (msg.command) [
        | none ↦ ok none s'
        | some command ↦ elim (find_callback command sess.callbacks) [
          | none ↦ ok none s'
          | some cb ↦ ok (some cb.callback) s'
        ]
      ]
]

-- The network handlers: `conn_data` points to the session, and reading through it is a fault once
-- the table has moved. The text is that of the event.
abbrev on_event : Bytes → (conn_data : SessionPtr) → State → Outcome (Option Ptr)
on_event text p s =
    if p.table == s.table
    then deref s p.index (λ sess. circ_process (pos sess.sid) text s)
    else fault

abbrev pub connect_text : Bytes
connect_text = b'C' ∷ b'O' ∷ b'N' ∷ b'N' ∷ b'E' ∷ b'C' ∷ b'T' ∷ []

-- "Disconnected"
abbrev pub eof_text : Bytes
eof_text = b'D' ∷ b'i' ∷ b's' ∷ b'c' ∷ b'o' ∷ b'n' ∷ b'n' ∷ b'e' ∷ b'c' ∷ b't' ∷ b'e' ∷ b'd' ∷ []

-- "Socket Closed"
abbrev pub close_text : Bytes
close_text =
    b'S' ∷ b'o' ∷ b'c' ∷ b'k' ∷ b'e' ∷ b't' ∷ b' ' ∷ b'C' ∷ b'l' ∷ b'o' ∷ b's' ∷ b'e' ∷ b'd' ∷ []

unfoldable pub circ_on_connect : (conn_data : SessionPtr) → State → Outcome (Option Ptr)
unfolding circ_process
circ_on_connect = on_event connect_text

unfoldable pub circ_on_read : (conn_data : SessionPtr) → Bytes → State → Outcome (Option Ptr)
unfolding circ_process
circ_on_read i text = on_event text i

unfoldable pub circ_on_eof : (conn_data : SessionPtr) → State → Outcome (Option Ptr)
unfolding circ_process
circ_on_eof = on_event (quit_text (some eof_text))

unfoldable pub circ_on_close : (conn_data : SessionPtr) → State → Outcome (Option Ptr)
unfolding circ_process
circ_on_close = on_event (quit_text (some close_text))
