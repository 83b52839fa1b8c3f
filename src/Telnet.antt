-- ===== src/Telnet.antt =====
-- c-cpp/onethread/telnet.c: the telnet filter. Bytes are numbers below 256; C's octal escapes are
-- written out, '\255' as 173.
pub mod Write
pub mod Read
use examples.Common.{
  ℕ, zero, suc, ◌+◌, ◌-◌, ◌≤◌, ◌<◌, ◌≡◌, Bool, true, false, ◌||◌, ◌&&◌, not, Option, none, some,
  List, [], ◌∷◌, ◌++◌, Bytes, ℤ, pos, negsuc, arith, ltb, ◌==◌, if◌then◌else◌, length, drop,
}
use examples.Sockbuf.State.{Ptr}
use examples.Sockbuf.Run.{Cmd, Run, ok, pure, out_of_fuel, ◌>>=◌, ◌>>◌}
use examples.Sockbuf.Env.{Env}
use examples.Sockbuf.Events.{sockbuf_on_write}
use examples.Sockbuf.Filters.{sockbuf_attach_filter, sockbuf_detach_filter}
use examples.Memutil.{Buf, egg_append_str}

-- SOCKBUF_LEVEL_TEXT_ALTERATION
abbrev pub telnet_filter_level : ℤ
telnet_filter_level = pos 5000

abbrev pub telnet_cmd : ℕ
telnet_cmd = 255

unfoldable pub telnet_mode : Env → ℕ → ℕ → ℕ → Cmd ℤ
telnet_mode env idx cmd what =
    sockbuf_on_write env idx telnet_filter_level (telnet_cmd ∷ cmd ∷ what ∷ [])

-- What `strchr (filterchars, c)` finds: "\n\r\002\007\017\026\037\255" and the terminator.
abbrev pub is_filterchar : ℕ → Bool
is_filterchar c =
    c == 10 || c == 13 || c == 2 || c == 7 || c == 15 || c == 22 || c == 31 || c == 173 || c == 0

-- The number of the escape code that a byte stands for.
unfoldable pub escape_of : ℕ → Option ℕ
escape_of c =
    if c == 2
    then some 1
    else if c == 15
    then some 0
    else if c == 22
    then some 7
    else if c == 31
    then some 4
    else none

-- sprintf (temp, "\033[%dm", esc), of one digit.
abbrev pub escape_code : ℕ → Bytes
escape_code esc = 27 ∷ b'[' ∷ (b'0' + esc) ∷ b'm' ∷ []

abbrev pub crlf : Bytes
crlf = 13 ∷ 10 ∷ []

-- The inner loop: at most `room` bytes, up to the first that is filtered.
unfoldable pub plain_run : (room : ℕ) → Bytes → Bytes
plain_run zero cs = []
plain_run (suc room) [] = []
plain_run (suc room) (c ∷ cs) =
    let rest = plain_run room cs in if is_filterchar c then [] else c ∷ rest

-- The variables of the loop in `telnet_filter_write`: the byte before `data`, `code`, and
-- `newline`.
pub record Writer : Type 0 where
  pub prev : ℕ
  pub code : Bool
  pub out : Buf

-- One of the bytes that end a line. The escape code is reset first.
abbrev pub line_end : ℕ → Writer → Writer
line_end c w =
    let out = if w.code then egg_append_str w.out (27 ∷ b'[' ∷ b'0' ∷ b'm' ∷ []) else w.out in
    record { prev = c; code = false; out = if c == 13 then out else egg_append_str out crlf }

-- One round on a byte `c` that is filtered; `none` where `data` does not move, so that the round
-- would be repeated for ever.
unfoldable pub filtered_round : ℕ → Writer → Option Writer
filtered_round c w =
    if c == 0
    then if w.prev == 13
      then some (record w { prev = c; out = egg_append_str w.out crlf })
      else none
    else if c == 7
    then some (record w { prev = c })
    else if c == 10 || c == 13
    then some (line_end c w)
    else if c == 173
    then some (record w { prev = c; out = egg_append_str w.out (173 ∷ 173 ∷ []) })
    else elim (escape_of c) [
      | none ↦ none
      | some esc ↦
          some (record { prev = c; code = true; out = egg_append_str w.out (escape_code esc) })
    ]

unfoldable pub last_or : ℕ → Bytes → ℕ
last_or d [] = d
last_or d (c ∷ cs) = last_or c cs

-- A run of at most 63 bytes that pass.
unfoldable pub append_run : Bytes → Writer → Writer
unfolding last_or
append_run run w = record w { prev = last_or w.prev run; out = egg_append_str w.out run }

-- while (len > 0): out of fuel is `none`.
unfoldable pub write_loop : (fuel : ℕ) → Bytes → Writer → Option Writer
write_loop zero cs w = none
write_loop (suc fuel) [] w = some w
write_loop (suc fuel) (c ∷ cs) w = elim (is_filterchar c) [
  | true ↦ elim (filtered_round c w) [
    | none ↦ write_loop fuel (c ∷ cs) w
    | some w' ↦ write_loop fuel cs w'
  ]
  | false ↦
      let run = plain_run 63 (c ∷ cs) in
      write_loop fuel (drop (length run) (c ∷ cs)) (append_run run w)
]

-- `before` is the byte in front of the data, which the first round may read.
abbrev pub start_write : ℕ → Writer
start_write before = record { prev = before; code = false; out = record { text = []; max = 128 } }

unfoldable pub telnet_filter_write : Env → (fuel before : ℕ) → Ptr → ℕ → Bytes → Cmd ℤ
telnet_filter_write env fuel before client_data idx chunk =
    elim (write_loop fuel chunk (start_write before)) [
      | none ↦ λ s. out_of_fuel
      | some w ↦
          if length w.out.text == 0
          then pure (pos 0)
          else sockbuf_on_write env idx telnet_filter_level w.out.text
    ]

-- `telnet_filter` is the address of the static filter, `session` that of the new `telnet_t`, whose
-- flags only `telnet_filter_read` looks at.
unfoldable pub telnet_on : Env → (telnet_filter session : Ptr) → ℤ → Cmd ℤ
telnet_on env telnet_filter session idx = do
  sockbuf_attach_filter env idx telnet_filter session
  pure (pos 0)

-- The address that is freed: `none` where `inf` was not written to, so that whatever it held is.
unfoldable pub telnet_off : (telnet_filter : Ptr) → ℤ → Cmd (Option Ptr)
telnet_off telnet_filter idx = do r ← sockbuf_detach_filter idx telnet_filter; pure r.1
