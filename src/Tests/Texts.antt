-- ===== src/Tests/Texts.antt =====
-- Names, printed texts and the telnet filter.
use examples.Common.{zero, ◌+◌, ◌≤◌}
use examples.Memutil.{print_loop, recount}
use examples.Common.{negsuc}
use examples.Socket.Create.{Net, NetState, Request, pf_inet, pf_inet6, socket_create, socket_name}
use examples.Socket.Create.Outcome.{Leaves, create-Leaves}
use examples.Telnet.{Writer, append_run, filtered_round, last_or, plain_run}
use examples.Common.{if◌then◌else◌}
use examples.Common.{
  Bytes, [], arith, false, length, ltb, none, pos, refl, some, suc, take, true, ℕ, ℤ, ◌-◌, ◌<◌,
  ◌==◌, ◌∷◌, ◌≡◌,
}
use examples.Memutil.{egg_append_str, egg_mvsprintf}
use examples.Memutil.Print.{Prints, mvsprintf-first}
use examples.Sockbuf.Events.{sockbuf_on_write}
use examples.Sockbuf.Run.{out_of_fuel, pure}
use examples.Socket.Names.{IsText}
use examples.Telnet.{
  escape_of, start_write, telnet_cmd, telnet_filter_level, telnet_filter_write, write_loop,
}
use examples.Telnet.Write.{piece, prefix, render, text_of}
use examples.Telnet.Write.Filter.{telnet_write-hangs, telnet_write-render}
use examples.Telnet.Write.Lines.{write_loop-NetText}
use examples.Telnet.Write.Lines.{NetText}
use examples.Telnet.Write.Render.{write_loop-render}
use examples.Tests.{connection, with_one, world}

-- "::ffff:" and "10.0"
abbrev mapped : Bytes
mapped = b':' ∷ b':' ∷ b'f' ∷ b'f' ∷ b'f' ∷ b'f' ∷ b':' ∷ []

abbrev dotted : Bytes
dotted = b'1' ∷ b'0' ∷ b'.' ∷ b'0' ∷ []

dotted-IsText : IsText dotted
dotted-IsText = (omega arith, (omega arith, (omega arith, (omega arith, tt))))

mapped-IsText : IsText mapped
mapped-IsText = (
  omega arith,
  (omega arith, (omega arith, (omega arith, (omega arith, (omega arith, (omega arith, tt)))))),
)

-- A first call that comes to that text, and later ones that fail.
abbrev print_dotted : (call size : ℕ) → ℤ × Bytes
print_dotted zero size = (pos 4, if ltb 4 size then dotted else take (size - 1) dotted)
print_dotted (suc call) size = (negsuc 0, [])

print_dotted-Prints : Prints (print_dotted 0) dotted
print_dotted-Prints = record { count = λ size. refl; fits = room }
  where
    room : (size : ℕ) → length dotted < size → (print_dotted 0 size).1 ≡ dotted
    room size h = let large : ltb 4 size ≡ true = ground arith in rw large

mvsprintf_example :
    (4 < 14 - 10 → egg_mvsprintf print_dotted 1 (some 14) ≡ some (4, dotted))
    × (14 - 10 ≤ 4
        → (size : ℕ) × (4 < size)
          × (egg_mvsprintf print_dotted 1 (some 14)
              ≡ recount (print_loop print_dotted 0 1 (size + 10))))
mvsprintf_example =
    mvsprintf-first print_dotted dotted 0 (some 14) print_dotted-Prints dotted-IsText

-- "a", a line feed, and the byte for bold.
abbrev marked_up : Bytes
marked_up = b'a' ∷ 10 ∷ 2 ∷ []

abbrev marked_up_text : Bytes
marked_up_text = b'a' ∷ 13 ∷ 10 ∷ 27 ∷ b'[' ∷ b'1' ∷ b'm' ∷ []

marked_up-render : render 0 false marked_up ≡ some marked_up_text
unfolding render piece escape_of
marked_up-render = refl

write_loop_example :
    text_of (write_loop 4 marked_up (start_write 0)) ≡ prefix [] (render 0 false marked_up)
write_loop_example = write_loop-render 4 marked_up (start_write 0) (omega arith)

telnet_write_example :
    telnet_filter_write world (suc (length marked_up)) 0 0 0 marked_up (with_one connection)
    ≡ (if length marked_up_text == 0
          then pure (pos 0)
          else sockbuf_on_write world 0 telnet_filter_level marked_up_text)
        (with_one connection)
telnet_write_example =
    telnet_write-render world 0 0 0 marked_up marked_up_text (with_one connection) marked_up-render

abbrev last_writer : Writer
last_writer = record { prev = 2; code = true; out = record { text = marked_up_text; max = 128 } }

marked_up-runs : write_loop (suc (length marked_up)) marked_up (start_write 0) ≡ some last_writer
unfolding write_loop filtered_round plain_run append_run last_or escape_of egg_append_str
marked_up-runs = refl

NetText_example : NetText marked_up_text
NetText_example = write_loop-NetText 0 marked_up last_writer marked_up-runs

-- A NUL after an "a".
abbrev stray : Bytes
stray = b'a' ∷ 0 ∷ []

stray-render : render 0 false stray ≡ none
unfolding render piece escape_of
stray-render = refl

telnet_hangs_example : telnet_filter_write world 50 0 0 0 stray (with_one connection) ≡ out_of_fuel
telnet_hangs_example = telnet_write-hangs world 0 0 0 stray (with_one connection) stray-render 50

abbrev with_command : Bytes
with_command = b'a' ∷ telnet_cmd ∷ b'b' ∷ []

-- Every text is an IPv6 address, the first descriptor is 5, and nobody answers.
abbrev dead_net : Net
dead_net = record {
  inet_pton = λ f text. elim f [ pf_inet ↦ none | pf_inet6 ↦ some text ];
  socket = λ t f datagram. pos 5;
  bind = λ t fd addr. true;
  connect = λ t fd addr. some 111;
  einprogress = 115;
}

abbrev client_request : Request
client_request = record {
  dest_ip = some dotted;
  dest_port = 23;
  src_ip = none;
  src_port = 1024;
  flags = record { client = true; server = false; bind = false; nonblock = true; udp = false };
}

abbrev no_calls : NetState
no_calls = record { clock = 0; calls = [] }

create_code_test : (socket_create dead_net client_request no_calls).0 ≡ negsuc 3
unfolding socket_create socket_name
create_code_test = refl

create-Leaves_example : Leaves client_request [] (socket_create dead_net client_request no_calls)
create-Leaves_example = create-Leaves dead_net client_request [] no_calls refl
