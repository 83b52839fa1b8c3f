-- ===== src/Unbuf.antt =====
-- c-cpp/onethread/unbuf.c: a service whose clients get the telnet filter and are told that the
-- server echoes. What warnx prints is left out.
pub mod Greeting
use examples.Common.{
  ℕ, zero, suc, Bool, true, false, ◌&&◌, Option, none, some, List, [], ◌∷◌, ◌++◌, Bytes, ℤ, pos,
  ◌==◌, ltb, not, is_nonneg, ◌-◌, if◌then◌else◌, length, take, codes,
}
use examples.Sockbuf.State.{Ptr, State, Flags, no_flags}
use examples.Sockbuf.Run.{Cmd, ok, pure, ◌>>=◌, ◌>>◌}
use examples.Sockbuf.Env.{Env, Handler}
use examples.Sockbuf.Table.{sockbuf_new, sockbuf_set_sock}
use examples.Sockbuf.Access.{sockbuf_set_handler}
use examples.Socket.Create.{Request, Net, NetState, socket_create}
use examples.Telnet.{telnet_mode, telnet_on}
use examples.Telnet.Read.{telnet_echo, telnet_supress_ga, telnet_will}
use examples.Memutil.{iprintf}

-- The address of `servone_handler`.
abbrev pub servone_handler : Ptr
servone_handler = 1

-- `telnet_filter` and `session` are the addresses of the filter and of the new client's `telnet_t`.
unfoldable pub servone_on_connect :
    Env → (telnet_filter session client_data : Ptr) → (idx newidx : ℕ) → Option Bytes → ℕ → Cmd ℤ
servone_on_connect env telnet_filter session client_data idx newidx peer_ip peer_port = do
  sockbuf_set_handler (pos newidx) (some servone_handler) client_data
  telnet_on env telnet_filter session (pos newidx)
  telnet_mode env newidx telnet_will telnet_supress_ga
  telnet_mode env newidx telnet_will telnet_echo
  pure (pos 0)

abbrev crlf : Bytes
crlf = 13 ∷ 10 ∷ []

-- What the format and its arguments come to.
abbrev pub usage_text : Bytes
usage_text =
    255 ∷ 247 ∷ crlf
    ++ (codes "usage: some crap here ...."
        ++ (crlf
            ++ (codes "       we like to be used properly"
                ++ (crlf ++ (codes "and then we should quit" ++ (crlf ++ codes "--> "))))))

-- vsnprintf on them, which have no argument: the length, and as much as the size has room for.
abbrev pub print_usage : (call size : ℕ) → ℤ × Bytes
print_usage call size = (pos (length usage_text), take (size - 1) usage_text)

-- One round of egg_mvsprintf is enough for the text.
unfoldable pub servone_on_read : Env → (client_data : Ptr) → ℕ → Bytes → Cmd ℤ
servone_on_read env client_data idx [] = pure (pos 0)
servone_on_read env client_data idx (c ∷ []) =
    if c == b'?' then (iprintf env print_usage 1 (pos idx) >> pure (pos 0)) else pure (pos 0)
servone_on_read env client_data idx (c ∷ d ∷ more) = pure (pos 0)

abbrev pub request : Request
request = record {
  dest_ip = none;
  dest_port = 0;
  src_ip = some (codes "0.0.0.0");
  src_port = 5001;
  flags = record { client = false; server = true; bind = true; nonblock = true; udp = false };
}

-- `main` up to its loop; the result is false where errx is called.
unfoldable pub main : Env → Net → (cdata : Ptr) → NetState → Cmd Bool
main env net cdata ns = do
  sbuf ← sockbuf_new
  if not (is_nonneg ((socket_create net request ns).0)) then pure false else (do
    sockbuf_set_sock env (pos sbuf) ((socket_create net request ns).0)
        (record no_flags { server = true })
    sockbuf_set_handler (pos sbuf) (some servone_handler) cdata
    pure true)
