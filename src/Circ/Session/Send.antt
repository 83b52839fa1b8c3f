-- ===== src/Circ/Session/Send.antt =====
-- `circ_send` of c-cpp/circ/circ.c: which bytes it gives to the network.
use examples.Common.{
  take_le_all, refl, ◌==◌, lt_of_get_elem?, length-append, append_assoc, c_string, drop, suc, arith,
  ap, ℕ, ◌≡◌, ◌≤◌, ◌<◌, ◌++◌, ◌+◌, ◌-◌, ◌||◌, ◌∷◌, [],
}
use examples.Circ.Parse.Lines.{Lacks}
use examples.Circ.Session.{
  strcat, with_session, deref, true, false, fault, write, replicate, ltb, ok, pos, crlf, some, take,
  get_elem?, length, Bytes, Session, State, circ_fetch, send_buffer, circ_send,
}

take_front : (xs ys : Bytes) → take (length xs) (xs ++ ys) ≡ xs
take_front [] ys = refl
take_front (x ∷ xs) ys = ap (◌∷◌ x) (take_front xs ys)

pub fetch_in : (s : State) (i : ℕ) → i < length s.sessions → circ_fetch s (pos i) ≡ some i
unfolding circ_fetch
fetch_in s i h =
    let within : (ltb (length s.sessions) i || length s.sessions == 0) ≡ false = ground arith in
    rw within

c_string-terminated : (text rest : Bytes) → Lacks 0 text → c_string (text ++ 0 ∷ rest) ≡ text
c_string-terminated [] rest l = refl
c_string-terminated (c ∷ cs) rest (ne, l) =
    let miss : (c == 0) ≡ false = ground arith in
    rw miss (ap (◌∷◌ c) (c_string-terminated cs rest l))

line_whole :
    (text : Bytes)
    → Lacks 0 text
    → length text ≤ 509
    → take (length text + 2) (send_buffer text) ≡ text ++ crlf
unfolding send_buffer strcat
line_whole text l h =
    let room : 513 - length text ≡ suc (512 - length text) = omega arith in
    let line = text ++ crlf in
    let size : length text + 2 ≡ length line = omega (arith, length-append {0} text crlf) in
    let rest = replicate (512 - length text) 0 in
    let line_buf = text ++ 0 ∷ rest in
    let behind = 0 ∷ drop (length line + 1) line_buf in
    rw (take_le_all 509 text h, room)
      (rw (c_string-terminated text rest l) (
        rw (← append_assoc text crlf (0 ∷ drop (length text + 2 + 1) line_buf))
          (rw size (take_front line behind))))

-- A text of at most 509 bytes without NUL is written whole, with CR LF behind it, to the connection
-- of the session, and its length is returned. A text of more than 511 bytes makes `cnet_write` read
-- past the end of the buffer, since the length is that of the whole text and not of what was
-- printed.
pub circ_send-line :
    (sid : ℕ) (text : Bytes) (s : State) (sess : Session)
    → get_elem? s.sessions sid ≡ some sess
    → (Lacks 0 text
        → length text ≤ 509
        → circ_send (pos sid) text s
          ≡ ok
              (pos (length text))
              (record s { calls = s.calls ++ write sess.nsid (text ++ crlf) ∷ [] }))
      × (511 < length text → circ_send (pos sid) text s ≡ fault)
unfolding circ_send
circ_send-line sid text s sess at =
    let there = fetch_in s sid (lt_of_get_elem? s.sessions sid at) in
    (
      λ plain short.
          let fits : ltb 513 (length text + 2) ≡ false = ground arith in
          rw (with_session, there, deref, at, fits, line_whole text plain short),
      λ long.
          let over : ltb 513 (length text + 2) ≡ true = ground arith in
          rw (with_session, there, deref, at, over),
    )
