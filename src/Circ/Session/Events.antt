-- ===== src/Circ/Session/Events.antt =====
-- What the handlers of c-cpp/circ/circ.c do with the pointer that `circ_connect` hands to the
-- network.
use examples.Common.{
  ℕ, suc, ◌≡◌, refl, ◌==◌, false, true, Option, some, List, [], ◌∷◌, ◌++◌, Bytes, pos, minus_one,
  eqb_ℤ, arith, get_elem?, set-get_elem?, lt_of_get_elem?,
}
use examples.Circ.Session.{
  Ptr, Callback, Session, SessionPtr, State, Cnet, ok, fault, set_up, put, with_session, deref,
  circ_connect, circ_process, circ_session_create, circ_on_connect, circ_on_read, circ_on_eof,
  circ_on_close,
}
use examples.Circ.Session.Send.{fetch_in}

-- Where `cnet_connect` gives a connection, `circ_connect` on a session that is not connected
-- returns 1 and hands on a pointer to the session. A line read with that pointer right away is
-- processed for the session; after one more `circ_session_create`, which is taken to move the
-- table, all four handlers read through a pointer to memory that was freed.
pub connect-conn_data :
    (cnet : Cnet) (sid : ℕ) (host : Bytes) (port : ℕ) (s : State) (sess : Session)
    → get_elem? s.sessions sid ≡ some sess
    → sess.connected ≡ false
    → eqb_ℤ (cnet.connect s.clock host port sess.host) minus_one ≡ false
    → (s' : State) × (p : SessionPtr) × (circ_connect cnet (pos sid) host port s ≡ ok (pos 1) s')
      × (s'.calls ≡ s.calls ++ set_up (cnet.connect s.clock host port sess.host) p true ∷ [])
      × ((text : Bytes) → circ_on_read p text s' ≡ circ_process (pos sess.sid) text s')
      × ((h : Option Bytes) (cbs : List Callback) (d : Ptr) (text : Bytes)
          → let moved = (circ_session_create h cbs d s').1 in
            (circ_on_connect p moved ≡ fault)
            × (circ_on_read p text moved ≡ fault)
            × (circ_on_eof p moved ≡ fault)
            × (circ_on_close p moved ≡ fault))
unfolding circ_connect circ_on_connect circ_on_read circ_on_eof circ_on_close circ_session_create
connect-conn_data cnet sid host port s sess at off up =
    let nsid = cnet.connect s.clock host port sess.host in
    let sess' : Session = record sess { nsid = nsid } in
    let p : SessionPtr = record { table = s.table; index = sid } in
    let s' : State = record (put s sid sess') {
      clock = suc s.clock;
      calls = s.calls ++ set_up nsid p true ∷ [];
    } in
    let there = fetch_in s sid (lt_of_get_elem? s.sessions sid at) in
    let same : (s.table == s.table) ≡ true = ground arith in
    let other : (s.table == suc s.table) ≡ false = ground arith in
    (
      s',
      p,
      rw (with_session, there, deref, at, off, up),
      refl,
      λ text. rw (same, deref, set-get_elem? s.sessions sid sess' at) refl,
      λ h cbs d text. (rw other refl, rw other refl, rw other refl, rw other refl),
    )
