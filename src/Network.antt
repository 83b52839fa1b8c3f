-- ===== src/Network.antt =====
-- c-cpp/onethread/network.c and c-cpp/network.c: the end of a connection, and a listening socket.
-- What is asked of the system is written down as in Socket/Create.antt.
pub mod Ends
use examples.Common.{
  ℕ, zero, suc, ◌%◌, Bool, true, false, not, ◌&&◌, Option, none, some, List, [], ◌∷◌, ◌++◌, Bytes,
  ℤ, pos, minus_one, eqb_ℤ, if◌then◌else◌, replicate,
}
use examples.Socket.Create.{
  pf_inet, SockAddr, NetCall, opened, closed, bound, listening, connecting, NetState, note,
}

-- The first argument of a call is the number of calls before it; `aton` is inet_aton, and `addr` is
-- inet_addr, without a value for INADDR_NONE.
pub record Net : Type 0 where
  pub aton : Bytes → Option Bytes
  pub addr : Bytes → Option Bytes
  pub socket : ℕ → ℤ
  pub connect : ℕ → ℤ → SockAddr → Bool
  pub bind : ℕ → ℤ → SockAddr → Bool
  pub listen : ℕ → ℤ → Bool

-- htons (port)
abbrev pub sockaddr_in : Bytes → ℕ → SockAddr
sockaddr_in addr port = record { family = pf_inet; addr = addr; port = port % 65536 }

abbrev pub inaddr_any : Bytes
inaddr_any = replicate 4 0

-- sockfd = socket (PF_INET, SOCK_STREAM, 0), and the body where it is not -1.
abbrev pub with_socket : Net → NetState → (ℤ → NetState → ℤ × NetState) → ℤ × NetState
with_socket net s body =
    if eqb_ℤ (net.socket s.clock) minus_one
    then (minus_one, record s { clock = suc s.clock })
    else body (net.socket s.clock) (note (opened (net.socket s.clock)) s)

-- close (sockfd); return -1;
abbrev pub give_up : ℤ → NetState → ℤ × NetState
give_up sock s = (minus_one, note (closed sock) s)

unfoldable pub connect_to : Net → SockAddr → ℤ → NetState → ℤ × NetState
connect_to net raddr sock s =
    let s' = note (connecting sock raddr) s in
    if net.connect s.clock sock raddr then (sock, s') else give_up sock s'

unfoldable pub net_connect : Net → Bytes → (port : ℕ) → NetState → ℤ × NetState
net_connect net ipaddr port s = with_socket net s λ sock s'. elim (net.aton ipaddr) [
  | none ↦ give_up sock s'
  | some addr ↦ connect_to net (sockaddr_in addr port) sock s'
]

-- The listening socket at an address; the test of `bind` comes before that of `listen`.
unfoldable pub listen_at : Net → SockAddr → NetState → ℤ × NetState
listen_at net laddr s = with_socket net s λ sock s'.
    let s'' = note (bound sock laddr) s' in
    if not (net.bind s'.clock sock laddr)
    then give_up sock s''
    else if not (net.listen s''.clock sock)
    then give_up sock (note (listening sock) s'')
    else (sock, note (listening sock) s'')

abbrev pub or_any : Option Bytes → Bytes
or_any none = inaddr_any
or_any (some addr) = addr

abbrev pub addr_of : Net → Option Bytes → Bytes
addr_of net none = inaddr_any
addr_of net (some ipaddr) = or_any (net.addr ipaddr)

-- `net_listen` of c-cpp/onethread/network.c.
unfoldable pub net_listen : Net → Option Bytes → (port : ℕ) → NetState → ℤ × NetState
unfolding listen_at
net_listen net ipaddr port s = listen_at net (sockaddr_in (addr_of net ipaddr) port) s

-- `net_listen` of c-cpp/network.c, which does not look at its arguments.
unfoldable pub net_listen_fixed : Net → Option Bytes → (port : ℕ) → NetState → ℤ × NetState
unfolding listen_at
net_listen_fixed net ipaddr port s = listen_at net (sockaddr_in inaddr_any 4363) s

-- `net_connect` of c-cpp/network.c, with the static set `fds` before and after.
unfoldable pub net_connect_watched :
    Net → Bytes → (port : ℕ) → List ℤ → NetState → (ℤ × List ℤ) × NetState
unfolding net_connect
net_connect_watched net ipaddr port fds s =
    let r = net_connect net ipaddr port s in
    if eqb_ℤ r.0 minus_one then ((r.0, fds), r.1) else ((r.0, r.0 ∷ fds), r.1)
