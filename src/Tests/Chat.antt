-- ===== src/Tests/Chat.antt =====
-- The IRC sessions and lines.
use examples.Circ.Session.{
  Ptr, Callback, Cnet, SessionPtr, circ_connect, circ_on_close, circ_on_connect, circ_on_eof,
  circ_on_read, circ_process, circ_session_create, set_up,
}
use examples.Circ.Session.Events.{connect-conn_data}
use examples.Common.{Option}
use examples.Circ.Session.{crlf}
use examples.Circ.Parse.{circ_parse, empty_message}
use examples.Circ.Parse.Lines.{Lacks, AllMiddle, IsMiddle, spaced}
use examples.Circ.Parse.RoundTrip.{mask_of, parse-line, parse-prefixed, prefixed}
use examples.Circ.Session.{crlf, circ_disconnect, circ_send, circ_session_data, circ_session_valid}
use examples.Circ.Session.Send.{circ_send-line}
use examples.Circ.Session.Table.{valid-past_end}
use examples.Common.{
  Bytes, List, [], arith, false, length, none, pos, refl, some, true, ◌++◌, ◌<◌, ◌∷◌, ◌≡◌, ◌≤◌,
}
use examples.Circ.Session.{ok, fault, write, State, Session}

abbrev session : Session
session = record {
  sid = 0;
  nsid = pos 4;
  connected = true;
  destroy = false;
  host = none;
  client_data = 77;
  msg = empty_message;
  callbacks = [];
}

abbrev one_session : State
one_session = record { table = 1; sessions = session ∷ []; calls = []; clock = 0 }

abbrev hi : Bytes
hi = b'h' ∷ b'i' ∷ []

past_end_example :
    (circ_session_valid one_session (pos 1) ≡ true)
    × (circ_session_data (pos 1) one_session ≡ fault)
    × (circ_send (pos 1) hi one_session ≡ fault)
    × (circ_disconnect (pos 1) none one_session ≡ fault)
past_end_example = valid-past_end one_session hi none (λ e. cc)

send_example :
    (Lacks 0 hi
      → length hi ≤ 509
      → circ_send (pos 0) hi one_session
        ≡ ok (pos 2) (record one_session { calls = write (pos 4) (hi ++ crlf) ∷ [] }))
    × (511 < length hi → circ_send (pos 0) hi one_session ≡ fault)
send_example = circ_send-line 0 hi one_session session refl

-- "NICK"
abbrev nick_command : Bytes
nick_command = b'N' ∷ b'I' ∷ b'C' ∷ b'K' ∷ []

abbrev two_params : List Bytes
two_params = hi ∷ (b'x' ∷ []) ∷ []

-- "a b"
abbrev last_param : Bytes
last_param = b'a' ∷ b' ' ∷ b'b' ∷ []

nick_command-IsMiddle : IsMiddle nick_command
nick_command-IsMiddle =
    (omega arith, (omega arith, (omega arith, (omega arith, (omega arith, tt)))))

two_params-AllMiddle : AllMiddle two_params
two_params-AllMiddle =
    ((omega arith, (omega arith, (omega arith, tt))), ((omega arith, (omega arith, tt)), tt))

line_example :
    circ_parse (nick_command ++ spaced two_params (some last_param)) ≡ record empty_message {
      command = some nick_command;
      argv = hi ∷ (b'x' ∷ []) ∷ last_param ∷ [];
    }
line_example =
    parse-line nick_command two_params (some last_param) nick_command-IsMiddle two_params-AllMiddle
      (omega arith) (ground arith) (omega arith)

prefixed_example :
    circ_parse
      (prefixed (mask_of hi (b'u' ∷ []) (b'o' ∷ [])) (nick_command ++ spaced (hi ∷ []) none))
    ≡ record {
      command = some nick_command;
      hostmask = some hi;
      nick = some hi;
      ident = some (b'u' ∷ []);
      host = some (b'o' ∷ []);
      argv = hi ∷ [];
    }
prefixed_example =
    parse-prefixed hi (b'u' ∷ []) (b'o' ∷ []) nick_command (hi ∷ []) none
      (λ e. cc, (omega arith, (omega arith, tt)), (omega arith, (omega arith, tt)))
      (λ e. cc, (omega arith, tt), (omega arith, tt)) (λ e. cc, (omega arith, tt))
      nick_command-IsMiddle.1 ((omega arith, (omega arith, (omega arith, tt))), tt) (omega arith)
      (ground arith) (omega arith)

abbrev idle : Session
idle = record session { connected = false }

abbrev idle_session : State
idle_session = record one_session { sessions = idle ∷ [] }

abbrev gives_four : Cnet
gives_four = record { connect = λ clock host port own. pos 4 }

connect_example :
    (s' : State) × (p : SessionPtr) × (circ_connect gives_four (pos 0) hi 6667 idle_session
      ≡ ok (pos 1) s')
    × (s'.calls ≡ set_up (pos 4) p true ∷ [])
    × ((text : Bytes) → circ_on_read p text s' ≡ circ_process (pos 0) text s')
    × ((h : Option Bytes) (cbs : List Callback) (d : Ptr) (text : Bytes)
        → let moved = (circ_session_create h cbs d s').1 in
          (circ_on_connect p moved ≡ fault)
          × (circ_on_read p text moved ≡ fault)
          × (circ_on_eof p moved ≡ fault)
          × (circ_on_close p moved ≡ fault))
connect_example = connect-conn_data gives_four 0 hi 6667 idle_session idle refl refl refl
