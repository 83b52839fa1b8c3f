-- ===== src/Udpfwd.antt =====
-- other/udpfwd.c: datagrams of the last client are passed to a server, and the server's back. The
-- resolver, `bind`, the number reading of sscanf and the datagrams that arrive are arguments.
pub mod Replies
pub mod Start
use examples.Common.{
  ℕ, zero, suc, ◌+◌, ◌-◌, ◌%◌, Bool, true, false, ◌||◌, not, Option, none, some, List, [], ◌∷◌,
  ◌++◌, Bytes, ℤ, pos, negsuc, leb, eqb_ℤ, ◌==◌, if◌then◌else◌, length, codes, take,
}

-- "%[^:]:%d": the text up to the first colon, and what is behind the colon, if there is one.
unfoldable pub before_colon : Bytes → Bytes
before_colon [] = []
before_colon (c ∷ cs) = let rest = before_colon cs in if c == b':' then [] else c ∷ rest

unfoldable pub behind_colon : Bytes → Option Bytes
behind_colon [] = none
behind_colon (c ∷ cs) = let rest = behind_colon cs in if c == b':' then some cs else rest

-- A host and a port as they stand after sscanf, 0 where no number was read.
pub record Endpoint : Type 0 where
  pub host : Bytes
  pub port : ℤ

abbrev pub or_zero : Option ℤ → ℤ
or_zero none = pos 0
or_zero (some n) = n

-- An empty host ends the scan, so that the port is not read.
unfoldable pub scan_endpoint : (scan_int : Bytes → Option ℤ) → Bytes → Endpoint
scan_endpoint scan_int text = elim (before_colon text) [
  | [] ↦ record { host = []; port = pos 0 }
  | c ∷ cs ↦ elim (behind_colon text) [
    | none ↦ record { host = c ∷ cs; port = pos 0 }
    | some rest ↦ record { host = c ∷ cs; port = or_zero (scan_int rest) }
  ]
]

-- The first argument may be a port alone.
unfoldable pub scan_bouncer : (scan_int : Bytes → Option ℤ) → Bytes → Endpoint
scan_bouncer scan_int text = elim (behind_colon text) [
  | none ↦ record { host = codes "localhost"; port = or_zero (scan_int text) }
  | some rest ↦ scan_endpoint scan_int text
]

-- htons (port), of an int.
abbrev pub htons : ℤ → ℕ
htons (pos n) = n % 65536
htons (negsuc n) = 65535 - n % 65536

-- An address of 32 bits and a port.
pub record SockAddr : Type 0 where
  pub ip : ℕ
  pub port : ℕ

-- What `main` comes to before its loop: a value that it returns, the addresses, or a write past the
-- 256 bytes of a host.
pub data Started : Type 0 where
  returned : ℕ → Started
  forwarding : (bncsa dstsa : SockAddr) → Started
  overflow : Started

pub record Net : Type 0 where
  pub scan_int : Bytes → Option ℤ
  pub gethostbyname : Bytes → Option ℕ
  pub bind_ok : SockAddr → Bool

abbrev pub is_zero : ℤ → Bool
is_zero n = eqb_ℤ n (pos 0)

-- From the first look-up on.
unfoldable pub connect_ends : Net → (bnc dst : Endpoint) → Started
connect_ends net bnc dst = elim (net.gethostbyname bnc.host) [
  | none ↦ returned 2
  | some ip ↦
      let bncsa : SockAddr = record { ip = ip; port = htons bnc.port } in
      if not (net.bind_ok bncsa) then returned 1 else elim (net.gethostbyname dst.host) [
        | none ↦ returned 2
        | some ip' ↦ forwarding bncsa (record { ip = ip'; port = htons dst.port })
      ]
]

-- The arguments behind the program's name.
unfoldable pub start : Net → List Bytes → Started
start net [] = returned 0
start net (a ∷ []) = returned 0
start net (a ∷ b ∷ []) =
    let bnc = scan_bouncer net.scan_int a in
    let dst = scan_endpoint net.scan_int b in
    if leb 256 (length bnc.host) || leb 256 (length dst.host)
    then overflow
    else if is_zero bnc.port || is_zero dst.port
    then returned 3
    else connect_ends net bnc dst
start net (a ∷ b ∷ c ∷ rest) = returned 0

-- A datagram on its way to the program.
pub record Datagram : Type 0 where
  pub from : SockAddr
  pub bytes : Bytes

-- What recvfrom meets: a datagram, or an error.
pub data Received : Type 0 where
  arrived : Datagram → Received
  recv_error : Received

-- A `sendto`: to an address, to `lastsa` before it is set, or one that fails since the length is
-- -1, which is more than any datagram can hold.
pub data Sent : Type 0 where
  to : SockAddr → Bytes → Sent
  to_unset : Bytes → Sent
  refused : Sent

-- The two addresses that the loop keeps, `none` before they are set.
pub record Peers : Type 0 where
  pub clientsa : Option SockAddr
  pub lastsa : Option SockAddr

-- recvfrom (bncsock, buf, 16384, ...): what does not fit is lost.
unfoldable pub recv_buf : Bytes → Bytes
recv_buf bytes = take 16384 bytes

-- sendto (bncsock, buf, ret, 0, &lastsa, dummy)
abbrev pub to_last : Option SockAddr → Bytes → Sent
to_last none p = to_unset p
to_last (some a) p = to a p

-- What has been received is not the server's: `lastsa` becomes `clientsa`.
unfoldable pub remember : (dstsa : SockAddr) → (clientsa lastsa : Option SockAddr) → Option SockAddr
remember dstsa none lastsa = lastsa
remember dstsa (some a) lastsa = if a.ip == dstsa.ip then lastsa else some a

-- One round with something to receive: what is sent, and the two addresses afterwards. An error
-- leaves `clientsa` as it was; before that is set, `lastsa` is not either, and stays so.
unfoldable pub forward : (dstsa : SockAddr) → Received → Peers → Sent × Peers
forward dstsa recv_error p =
    (refused, record { clientsa = p.clientsa; lastsa = remember dstsa p.clientsa p.lastsa })
forward dstsa (arrived d) p =
    let buf = recv_buf d.bytes in
    let peers : Peers = record {
      clientsa = some d.from;
      lastsa = remember dstsa (some d.from) p.lastsa;
    } in
    if d.from.ip == dstsa.ip then (to_last p.lastsa buf, peers) else (to dstsa buf, peers)

-- The loop, over all that is received.
unfoldable pub forward_all : (dstsa : SockAddr) → List Received → Peers → List Sent
forward_all dstsa [] p = []
forward_all dstsa (r ∷ rs) p = let f = forward dstsa r p in f.0 ∷ forward_all dstsa rs f.1
