-- ===== src/Udpfwd/Replies.antt =====
-- Who gets what from the loop of other/udpfwd.c.
use examples.Common.{
  ℕ, ◌≡◌, ◌≢◌, refl, ap, ◌⊎◌, inl, inr, true, false, some, List, [], ◌∷◌, ◌++◌, ◌==◌, arith, take,
}
use examples.Udpfwd.{
  SockAddr, Datagram, Received, arrived, recv_error, Sent, to, refused, Peers, recv_buf, remember,
  forward, forward_all,
}

-- All that is received is the server's, or an error. The address, not the port, decides.
abbrev pub AllFrom : (ip : ℕ) → List Received → Type 0
AllFrom ip [] = Unit {0}
AllFrom ip (recv_error ∷ rs) = AllFrom ip rs
AllFrom ip (arrived d ∷ rs) = (d.from.ip ≡ ip) × AllFrom ip rs

-- The first 16384 bytes of each datagram go to `a`.
abbrev pub replies_to : SockAddr → List Received → List Sent
replies_to a [] = []
replies_to a (recv_error ∷ rs) = refused ∷ replies_to a rs
replies_to a (arrived d ∷ rs) = to a (take 16384 d.bytes) ∷ replies_to a rs

-- Since `a` was heard, nobody but the server was.
record Talks (dstsa a : SockAddr) (p : Peers) : Type 0 where
  heard : SockAddr
  heard_is : p.clientsa ≡ some heard
  known : (heard ≡ a) ⊎ (heard.ip ≡ dstsa.ip)
  last_is : p.lastsa ≡ some a

remember-Talks :
    (dstsa a : SockAddr) (p : Peers)
    → Talks dstsa a p
    → a.ip ≢ dstsa.ip
    → remember dstsa p.clientsa p.lastsa ≡ some a
unfolding remember
remember-Talks dstsa a p t ne = elim t.known [
  | inl e ↦
      let other : (t.heard.ip == dstsa.ip) ≡ false = rw e (ground arith) in
      rw (t.heard_is, other) (ap some e)
  | inr e ↦
      let own : (t.heard.ip == dstsa.ip) ≡ true = ground arith in rw (t.heard_is, own) (t.last_is)
]

forward_all-replies :
    (dstsa a : SockAddr) (replies : List Received) (p : Peers)
    → Talks dstsa a p
    → a.ip ≢ dstsa.ip
    → AllFrom dstsa.ip replies
    → forward_all dstsa replies p ≡ replies_to a replies
unfolding forward_all forward remember recv_buf
forward_all-replies dstsa a [] p t ne all = refl
forward_all-replies dstsa a (recv_error ∷ rs) p t ne all = ap (◌∷◌ refused) (
    forward_all-replies dstsa a rs (forward dstsa recv_error p).1
      (record {
        heard = t.heard;
        heard_is = t.heard_is;
        known = t.known;
        last_is = remember-Talks dstsa a p t ne;
      })
      ne all)
forward_all-replies dstsa a (arrived d ∷ rs) p t ne (own, all) =
    let same : (d.from.ip == dstsa.ip) ≡ true = ground arith in
    let t' : Talks dstsa a (record { clientsa = some d.from; lastsa = p.lastsa }) = record {
      heard = d.from;
      heard_is = refl;
      known = inr own;
      last_is = t.last_is;
    } in
    rw same (
      rw (t.last_is) (
        ap (◌∷◌ (to a (take 16384 d.bytes))) (
          forward_all-replies dstsa a rs (record { clientsa = some d.from; lastsa = some a })
            (record { heard = d.from; heard_is = refl; known = inr own; last_is = refl }) ne all)))

-- After any events `before`, a client's datagram goes to the server, and until another client is
-- heard each datagram of the server goes back to that client, once and in order; of each the first
-- 16384 bytes, which is the whole of it where it is no longer. An error of recvfrom in between
-- makes one sendto that fails, and nothing else.
pub forward_all-session :
    (dstsa : SockAddr) (before : List Received) (d : Datagram) (replies : List Received)
    (peers : Peers)
    → d.from.ip ≢ dstsa.ip
    → AllFrom dstsa.ip replies
    → forward_all dstsa (before ++ arrived d ∷ replies) peers
      ≡ forward_all dstsa before peers ++ to dstsa (take 16384 d.bytes) ∷ replies_to d.from replies
unfolding forward_all forward remember recv_buf
forward_all-session dstsa [] d replies p ne all =
    let other : (d.from.ip == dstsa.ip) ≡ false = ground arith in
    rw other (
      ap (◌∷◌ (to dstsa (take 16384 d.bytes))) (
        forward_all-replies dstsa d.from replies
          (record { clientsa = some d.from; lastsa = some d.from })
          (record { heard = d.from; heard_is = refl; known = inl refl; last_is = refl }) ne all))
forward_all-session dstsa (b ∷ before) d replies p ne all =
    ap (◌∷◌ (forward dstsa b p).0)
      (forward_all-session dstsa before d replies (forward dstsa b p).1 ne all)
