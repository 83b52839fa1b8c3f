-- ===== src/Circ/Session/Table.antt =====
-- The table of sessions of c-cpp/circ/circ.c: what `circ_session_create` makes can be found, and
-- which indices are taken for valid.
use examples.Common.{
  arith, get_elem?-none, get_elem?-append, get_elem?-concat, inl, inr, inr, inl, nil-cases,
  lt_of_get_elem?, refl, ◌==◌, false, true, ℕ, ◌≡◌, ◌≢◌, ◌||◌, [],
}
use examples.Circ.Session.{
  some, ltb, length, Option, List, Bytes, true, fault, Ptr, ok, with_session, deref, Callback,
  Session, State, circ_fetch, circ_session_create, circ_session_valid, circ_session_data, circ_send,
  circ_disconnect,
}
use examples.Circ.Session.Send.{fetch_in}
use examples.Common.{pos, get_elem?}

-- A new session gets an index that no session had; it is valid and gives back the data that it was
-- created with, and the sessions there were keep their places.
pub create-data :
    (host : Option Bytes) (cbs : List Callback) (d : Ptr) (s : State)
    → (s' : State) × (circ_session_create host cbs d s ≡ (length s.sessions, s'))
      × (circ_session_valid s' (pos (length s.sessions)) ≡ true)
      × (circ_session_data (pos (length s.sessions)) s' ≡ ok (some d) s')
      × ((i : ℕ) (sess : Session)
          → get_elem? s.sessions i ≡ some sess
          → get_elem? s'.sessions i ≡ some sess)
unfolding circ_session_create circ_session_valid circ_session_data
create-data host cbs d s =
    let s' = (circ_session_create host cbs d s).1 in
    let n = length s.sessions in
    let there : circ_fetch s' (pos n) ≡ some n =
      fetch_in s' n (lt_of_get_elem? s'.sessions n (get_elem?-concat s.sessions _)) in
    (
      s',
      refl,
      rw (circ_session_valid, there),
      rw (with_session, there, deref, get_elem?-concat s.sessions),
      λ i sess at. get_elem?-append s.sessions _ i at,
    )

-- In a table that is not empty the index one past its end passes for valid as well, and reading the
-- data of that session, sending to it or disconnecting it reads past the end of the table.
pub valid-past_end :
    (s : State) (text : Bytes) (message : Option Bytes)
    → s.sessions ≢ []
    → let n = length s.sessions in
      (circ_session_valid s (pos n) ≡ true)
      × (circ_session_data (pos n) s ≡ fault)
      × (circ_send (pos n) text s ≡ fault)
      × (circ_disconnect (pos n) message s ≡ fault)
unfolding circ_fetch circ_session_valid circ_session_data circ_send circ_disconnect
valid-past_end s text message ne =
    let within : (ltb (length s.sessions) (length s.sessions) || length s.sessions == 0) ≡ false =
      elim (nil-cases s.sessions) [ inl e ↦ absurd (ne e) | inr more ↦ ground arith ] in
    let past = get_elem?-none s.sessions in
    (
      rw (circ_session_valid, within),
      rw (with_session, within, deref, past),
      rw (with_session, within, deref, past),
      rw (with_session, within, deref, past),
    )
