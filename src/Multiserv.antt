-- ===== src/Multiserv.antt =====
-- c-cpp/onethread/multiserv.c: three services on one loop of sockbuf_update_all. They share one
-- `multidata_t`; what is printed stands for the calls of warnx that tell of data.
pub mod Serving
pub mod Starting
use examples.Common.{
  ℕ, zero, suc, Bool, true, false, Option, none, some, List, [], ◌∷◌, ◌++◌, Bytes, ℤ, pos, ◌==◌,
  if◌then◌else◌, is_nonneg, not, codes,
}
use examples.Sockbuf.State.{Ptr, Flags, State, no_flags}
use examples.Sockbuf.Run.{Cmd, ok, pure, ◌>>=◌, ◌>>◌}
use examples.Sockbuf.Env.{Os, Filter, Handler, Env}
use examples.Sockbuf.Table.{sockbuf_new, sockbuf_set_sock}
use examples.Sockbuf.Access.{sockbuf_set_handler}
use examples.Socket.Create.{Net, NetState, Request, CreateFlags, socket_create}

pub data Service : Type 0 where
  servone : Service
  servtwo : Service
  servthr : Service

-- The addresses of the handlers; 0 is that of `sockbuf_idler`.
abbrev pub handler_of : Service → Ptr
handler_of servone = 1
handler_of servtwo = 2
handler_of servthr = 3

abbrev pub port_of : Service → ℕ
port_of servone = 4395
port_of servtwo = 4396
port_of servthr = 5000

-- `servone_on_connect` and the two like it, which stand in the place of `on_newclient`.
unfoldable pub serv_on_connect : Service → Ptr → (idx newidx : ℕ) → Option Bytes → ℕ → Cmd ℤ
serv_on_connect k client_data idx newidx peer_ip peer_port = do
  sockbuf_set_handler (pos newidx) (some (handler_of k)) client_data
  pure (pos 0)

-- What `cd->last` is set to, which is also how the service calls itself.
abbrev pub tag_of : Service → Bytes
tag_of servone = codes "ONE"
tag_of servtwo = codes "two"
tag_of servthr = codes "(3)"

-- "…: data recieved (…): … | last service: …"
pub record Report : Type 0 where
  pub service : Service
  pub text : Bytes
  pub last_service : Bytes

pub record Multidata : Type 0 where
  pub last : Bytes

-- `servone_on_read` and the two like it: what is printed, and the data afterwards.
unfoldable pub serv_on_read : Service → Multidata → Bytes → Report × Multidata
serv_on_read k cd text =
    (record { service = k; text = text; last_service = cd.last }, record { last = tag_of k })

-- The reads of a run, in their order.
unfoldable pub reports : List (Service × Bytes) → Multidata → List Report
unfolding serv_on_read
reports [] cd = []
reports ((k, text) ∷ reads) cd = let r = serv_on_read k cd text in r.0 ∷ reports reads r.1

-- `servone_handler` and the two like it. What a read leaves in the client data is not part of the
-- sockbufs' state.
unfoldable pub serv_handler : Service → Handler
serv_handler k = record {
  on_connect = none;
  on_eof = some (λ d idx err. pure (pos 0));
  on_newclient = some (serv_on_connect k);
  on_read = some (λ d idx chunk. pure (pos 0));
  on_written = none;
  on_delete = none;
}

-- `sockbuf_idler` of sockbuf.c, and what else may stand at an address.
unfoldable pub handler_at : (others : Ptr → Handler) → Ptr → Handler
handler_at others p =
    if p == 1
    then serv_handler servone
    else if p == 2
    then serv_handler servtwo
    else if p == 3
    then serv_handler servthr
    else others p

abbrev pub program : Os → (Ptr → Filter) → (others : Ptr → Handler) → Env
program os filter others = record { os = os; filter = filter; handler = handler_at others }

abbrev pub server_flags : Flags
server_flags = record no_flags { server = true }

abbrev pub request_of : Service → Request
request_of k = record {
  dest_ip = none;
  dest_port = 0;
  src_ip = some (codes "127.0.0.1");
  src_port = port_of k;
  flags = record { client = false; server = true; bind = true; nonblock = true; udp = false };
}

-- One service of `main`; the result is false where errx is called.
unfoldable pub start_service : Env → (cdata : Ptr) → Service → (sock : ℤ) → Cmd Bool
start_service env cdata k sock = do
  sbuf ← sockbuf_new
  if not (is_nonneg sock) then pure false else (do
    sockbuf_set_sock env (pos sbuf) sock server_flags
    sockbuf_set_handler (pos sbuf) (some (handler_of k)) cdata
    pure true)

-- The descriptors come from socket_create, which works on the calls made so far.
unfoldable pub start_all : Env → Net → (cdata : Ptr) → List Service → NetState → Cmd Bool
start_all env net cdata [] ns = pure true
start_all env net cdata (k ∷ ks) ns = do
  started ← start_service env cdata k ((socket_create net (request_of k) ns).0)
  if started
      then start_all env net cdata ks ((socket_create net (request_of k) ns).1)
      else pure false

-- `main` up to its loop of sockbuf_update_all.
unfoldable pub main : Env → Net → (cdata : Ptr) → NetState → Cmd Bool
unfolding start_all
main env net cdata ns = start_all env net cdata (servone ∷ servtwo ∷ servthr ∷ []) ns
