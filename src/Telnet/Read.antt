-- ===== src/Telnet/Read.antt =====
-- `telnet_filter_read` of c-cpp/onethread/telnet.c: commands are taken out of the chunk in place.
-- The memory is the bytes from `data` on, as far as they may be read and written.
pub mod Moving
pub mod Negotiation
pub mod Split
use Prim.Native.Nat.{bit_and, bit_or}
use examples.Common.{
  ℕ, zero, suc, ◌+◌, ◌-◌, Bool, true, false, ◌&&◌, not, Option, none, some, List, [], ◌∷◌, ◌++◌,
  Bytes, ℤ, pos, negsuc, ltb, ◌==◌, if◌then◌else◌, length, get_elem?, take, drop,
}
use examples.Sockbuf.State.{Ptr}
use examples.Sockbuf.Run.{Cmd, fault, pure, out_of_fuel, ◌>>=◌, ◌>>◌}
use examples.Sockbuf.Env.{Env}
use examples.Sockbuf.Events.{sockbuf_on_read}
use examples.Sockbuf.Io.{sockbuf_write}
use examples.Telnet.{telnet_cmd, telnet_mode, telnet_filter_level, telnet_filter_write}

abbrev pub telnet_echo : ℕ
telnet_echo = 1

abbrev pub telnet_supress_ga : ℕ
telnet_supress_ga = 3

abbrev pub telnet_ayt : ℕ
telnet_ayt = 246

abbrev pub telnet_will : ℕ
telnet_will = 251

abbrev pub telnet_wont : ℕ
telnet_wont = 252

abbrev pub telnet_do : ℕ
telnet_do = 253

abbrev pub telnet_dont : ℕ
telnet_dont = 254

-- The variables of the loop: `off` is cmd - data, and `echo` is TFLAG_ECHO of the session.
pub record Reader : Type 0 where
  pub mem : Bytes
  pub off : ℕ
  pub len : ℤ
  pub echo : Bool

-- memchr (cmd, TELNET_CMD, n): the distance to the byte, or NULL, or a read outside the memory.
pub data Found : Type 0 where
  at : ℕ → Found
  nowhere : Found
  outside : Found

abbrev pub further : Found → Found
further (at k) = at (suc k)
further nowhere = nowhere
further outside = outside

unfoldable pub find_cmd : (n : ℕ) → Bytes → Found
find_cmd zero cs = nowhere
find_cmd (suc n) [] = outside
find_cmd (suc n) (c ∷ cs) =
    let rest = further (find_cmd n cs) in if c == telnet_cmd then at 0 else rest

-- A negative length is a count beyond all memory.
abbrev pub search_room : Bytes → ℤ → ℕ
search_room mem (pos n) = n
search_room mem (negsuc n) = suc (length mem)

-- What the filter answers to a command.
pub data Answer : Type 0 where
  silence : Answer
  yes_text : Answer
  mode : (cmd what : ℕ) → Answer

pub data Step : Type 0 where
  finished : Step
  bad : Step
  handled : Reader → Answer → Step

-- len -= remove
abbrev pub minus : (len remove : ℕ) → ℤ
minus len remove = if ltb len remove then negsuc (remove - len - 1) else pos (len - remove)

-- memmove (cmd, cmd + remove, len - (cmd - data) - remove + 1): a negative count is a fault.
unfoldable pub removed : (len off remove : ℕ) → Bytes → Option Bytes
removed len off remove mem =
    if ltb (len + 1) (off + remove)
    then none
    else if ltb (off + remove) (len + 1) && ltb (length mem) (len + 1)
    then none
    else some (
        take off mem
        ++ (take (len + 1 - (off + remove)) (drop (off + remove) mem)
            ++ drop (len + 1 - remove) mem))

unfoldable pub remove_at_cmd : (off remove : ℕ) → (echo : Bool) → Answer → Reader → Step
remove_at_cmd off remove echo answer r = elim (r.len) [
  | negsuc _ ↦ bad
  | pos len ↦ elim (removed len off remove r.mem) [
    | none ↦ bad
    | some mem ↦
        handled (record { mem = mem; off = off; len = minus len remove; echo = echo }) answer
  ]
]

-- case TELNET_DO
unfoldable pub on_do : (off arg : ℕ) → Reader → Step
on_do off arg r =
    if bit_and arg (bit_or telnet_echo telnet_supress_ga) == 0
    then remove_at_cmd off 3 r.echo (mode telnet_wont arg) r
    else if r.echo
    then remove_at_cmd off 3 true silence r
    else remove_at_cmd off 3 true (mode telnet_will arg) r

-- case TELNET_DONT
unfoldable pub on_dont : (off arg : ℕ) → Reader → Step
on_dont off arg r =
    if arg == telnet_echo && r.echo
    then remove_at_cmd off 3 false (mode telnet_wont arg) r
    else remove_at_cmd off 3 r.echo silence r

-- The byte at a place of the memory, a fault outside.
abbrev pub with_byte : Reader → ℕ → (ℕ → Step) → Step
with_byte r i body = elim (get_elem? r.mem i) [ none ↦ bad | some c ↦ body c ]

-- switch (type)
unfoldable pub on_type : (off type : ℕ) → Reader → Step
unfolding remove_at_cmd on_do on_dont
on_type off type r =
    if type == telnet_ayt
    then remove_at_cmd off 1 r.echo yes_text r
    else if type == telnet_cmd
    then remove_at_cmd (off + 1) 1 r.echo silence r
    else if type == telnet_do
    then with_byte r (off + 2) (λ arg. on_do off arg r)
    else if type == telnet_dont
    then with_byte r (off + 2) (λ arg. on_dont off arg r)
    else if type == telnet_will
    then remove_at_cmd off 3 r.echo silence r
    else if type == telnet_wont
    then remove_at_cmd off 3 r.echo silence r
    else remove_at_cmd off 2 r.echo silence r

-- The condition and the body of the loop.
unfoldable pub read_step : Reader → Step
read_step r = elim (find_cmd (search_room r.mem r.len) (drop r.off r.mem)) [
  | nowhere ↦ finished
  | outside ↦ bad
  | at k ↦ with_byte r (r.off + k + 1) (λ type. on_type (r.off + k) type r)
]

-- "[YES]\r\n"
abbrev pub yes_bytes : Bytes
yes_bytes = b'[' ∷ b'Y' ∷ b'E' ∷ b'S' ∷ b']' ∷ 13 ∷ 10 ∷ []

unfoldable pub perform : Env → ℕ → Answer → Cmd (Unit {0})
perform env idx silence = pure tt
perform env idx yes_text = do sockbuf_write env (pos idx) yes_bytes (pos 7); pure tt
perform env idx (mode cmd what) = do telnet_mode env idx cmd what; pure tt

unfoldable pub read_loop : Env → ℕ → (fuel : ℕ) → Reader → Cmd Reader
read_loop env idx zero r = λ s. out_of_fuel
read_loop env idx (suc fuel) r = elim (read_step r) [
  | finished ↦ pure r
  | bad ↦ λ s. fault
  | handled r' answer ↦ do perform env idx answer; read_loop env idx fuel r'
]

-- if (len): what is left is echoed where the flags say so, and passed on.
unfoldable pub deliver : Env → (fuel before : ℕ) → Ptr → ℕ → (password : Bool) → Reader → Cmd ℤ
deliver env fuel before client_data idx password r = elim (r.len) [
  | negsuc _ ↦ λ s. fault
  | pos zero ↦ pure (pos 0)
  | pos (suc n) ↦
      let chunk = take (suc n) r.mem in
      do
        if r.echo && not password
            then telnet_filter_write env fuel before client_data idx chunk
            else pure (pos 0)
        sockbuf_on_read env idx telnet_filter_level chunk
        pure (pos 0)
]

-- The loop over the commands and the echo of the text have fuel of their own.
-- `behind` is the memory from data[len] on, `echo` and `password` the session's flags; the flags
-- afterwards are those of the last `Reader`.
unfoldable pub telnet_filter_read :
    Env
    → (read_fuel write_fuel before : ℕ) → Ptr
    → ℕ
    → (chunk behind : Bytes) → (echo password : Bool) → Cmd ℤ
telnet_filter_read env read_fuel write_fuel before client_data idx chunk behind echo password = do
  r ←
      read_loop env idx read_fuel
        (record { mem = chunk ++ behind; off = 0; len = pos (length chunk); echo = echo })
  deliver env write_fuel before client_data idx password r

-- `telnet_filter_delete`: the address that is freed.
unfoldable pub telnet_filter_delete : Ptr → ℕ → Cmd (Option Ptr)
telnet_filter_delete client_data idx = pure (some client_data)
