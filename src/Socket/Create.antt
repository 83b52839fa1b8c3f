-- ===== src/Socket/Create.antt =====
-- Making sockets in c-cpp/onethread/socket.c. The system's functions are the record `Net`, and what
-- was asked of the system is written down.
pub mod Outcome
use examples.Common.{
  ℕ, suc, Bool, true, false, not, ◌||◌, Option, none, some, List, [], ◌∷◌, ◌++◌, Bytes, ℤ, pos,
  negsuc, ◌==◌, if◌then◌else◌, is_nonneg, replicate,
}

pub data Family : Type 0 where
  pf_inet : Family
  pf_inet6 : Family

-- An address as `inet_pton` gives it, and a port.
pub record SockAddr : Type 0 where
  pub family : Family
  pub addr : Bytes
  pub port : ℕ

-- SOCKET_CLIENT and so on.
pub record CreateFlags : Type 0 where
  pub client : Bool
  pub server : Bool
  pub bind : Bool
  pub nonblock : Bool
  pub udp : Bool

-- The first argument of a call is the number of calls before it. `connect` gives `errno` where it
-- fails.
pub record Net : Type 0 where
  pub inet_pton : Family → Bytes → Option Bytes
  pub socket : ℕ → Family → (datagram : Bool) → ℤ
  pub bind : ℕ → ℤ → SockAddr → Bool
  pub connect : ℕ → ℤ → SockAddr → Option ℕ
  pub einprogress : ℕ

pub data NetCall : Type 0 where
  opened : ℤ → NetCall
  nonblocking : ℤ → NetCall
  bound : ℤ → SockAddr → NetCall
  listening : ℤ → NetCall
  connecting : ℤ → SockAddr → NetCall
  closed : ℤ → NetCall

-- The calls, oldest first.
pub record NetState : Type 0 where
  pub clock : ℕ
  pub calls : List NetCall

-- A call is made and written down.
abbrev pub note : NetCall → NetState → NetState
note c s = record { clock = suc s.clock; calls = s.calls ++ c ∷ [] }

-- A name that is no address gives the address of all zeroes.
unfoldable pub socket_name : Net → Bytes → ℕ → SockAddr
socket_name net ipaddr port = elim (net.inet_pton pf_inet ipaddr) [
  | some addr ↦ record { family = pf_inet; addr = addr; port = port }
  | none ↦ elim (net.inet_pton pf_inet6 ipaddr) [
    | some addr ↦ record { family = pf_inet6; addr = addr; port = port }
    | none ↦ record { family = pf_inet; addr = replicate 4 0; port = port }
  ]
]

unfoldable pub socket_valid_ip : Net → Bytes → Bool
socket_valid_ip net ip = elim (net.inet_pton pf_inet6 ip) [
  | some addr ↦ true
  | none ↦ elim (net.inet_pton pf_inet ip) [ some addr ↦ true | none ↦ false ]
]

-- What `socket_create` is given.
pub record Request : Type 0 where
  pub dest_ip : Option Bytes
  pub dest_port : ℕ
  pub src_ip : Option Bytes
  pub src_port : ℕ
  pub flags : CreateFlags

abbrev pub ip_or : Option Bytes → Bytes → Bytes
ip_or none passive = passive
ip_or (some ip) passive = ip

abbrev pub dest_name : Net → Request → Bytes → SockAddr
dest_name net q passive = socket_name net (ip_or q.dest_ip passive) q.dest_port

abbrev pub src_name : Net → Request → Bytes → SockAddr
src_name net q passive = socket_name net (ip_or q.src_ip passive) q.src_port

abbrev pub is_given : Option Bytes → Bool
is_given none = false
is_given (some ip) = true

-- if (src_ip || src_port) flags |= SOCKET_BIND;
abbrev pub wants_bind : Request → Bool
wants_bind q = q.flags.bind || is_given q.src_ip || not (q.src_port == 0)

-- The loop over the passive addresses: the descriptor, and the address it was made for.
unfoldable pub try_passive : Net → Request → List Bytes → NetState → Option (ℤ × Bytes) × NetState
try_passive net q [] s = (none, s)
try_passive net q (passive ∷ rest) s =
    let name = if q.flags.client then dest_name net q passive else src_name net q passive in
    let sock = net.socket s.clock name.family q.flags.udp in
    let later = try_passive net q rest (record s { clock = suc s.clock }) in
    if is_nonneg sock then (some (sock, passive), note (opened sock) s) else later

-- "::" and "0.0.0.0"
abbrev pub passives : List Bytes
passives = (b':' ∷ b':' ∷ []) ∷ (b'0' ∷ b'.' ∷ b'0' ∷ b'.' ∷ b'0' ∷ b'.' ∷ b'0' ∷ []) ∷ []

-- From `connect` on.
unfoldable pub do_connect : Net → Request → ℤ → SockAddr → NetState → ℤ × NetState
do_connect net q sock dest s =
    if not q.flags.client
    then (sock, s)
    else let s' = note (connecting sock dest) s in
      elim (net.connect s.clock sock dest) [
        | none ↦ (sock, s')
        | some errno ↦
            if errno == net.einprogress then (sock, s') else (negsuc 3, note (closed sock) s')
      ]

-- From `bind` on.
unfoldable pub do_bind : Net → Request → ℤ → (dest src : SockAddr) → NetState → ℤ × NetState
unfolding do_connect
do_bind net q sock dest src s =
    let s' = note (bound sock src) s in
    if not (q.flags.server || wants_bind q)
    then do_connect net q sock dest s
    else if not (net.bind s.clock sock src)
    then (negsuc 2, note (closed sock) s')
    else do_connect net q sock dest (if q.flags.server then note (listening sock) s' else s')

-- The result is the descriptor, or -1 for flags that name neither end, -2, -3 or -4.
unfoldable pub socket_create : Net → Request → NetState → ℤ × NetState
unfolding try_passive do_bind
socket_create net q s =
    if not (q.flags.client || q.flags.server)
    then (negsuc 0, s)
    else elim ((try_passive net q passives s).0) [
      | none ↦ (negsuc 1, (try_passive net q passives s).1)
      | some (sock, passive) ↦
          let s' = (try_passive net q passives s).1 in
          do_bind net q sock (dest_name net q passive) (src_name net q passive)
            (if q.flags.nonblock then note (nonblocking sock) s' else s')
    ]
