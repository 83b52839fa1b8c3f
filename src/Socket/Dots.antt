-- ===== src/Socket/Dots.antt =====
-- `socket_ip_to_uint` and `socket_ipv6_to_dots` of c-cpp/onethread/socket.c, in a build with
-- DO_IPV6. `inet_pton` is a parameter; an address is its bytes.
use examples.Common.{
  ℕ, ◌+◌, ◌-◌, ◌*◌, ◌/◌, ◌%◌, ◌≤◌, ◌<◌, ◌≡◌, ◌∙◌, refl, sym, ap, inl, inr, false, Option, none,
  some, List, [], ◌∷◌, ◌++◌, Bytes, ℤ, pos, minus_one, ltb, ◌==◌, if◌then◌else◌, length, take,
  arith, length-append, append-nil, take_le_all, Bool-cases,
}

-- The address stays what it was, `garbage`, where the text is none. 0 is returned in any case.
unfoldable pub socket_ip_to_uint :
    (inet_pton : Bytes → Option ℕ) → (htonl : ℕ → ℕ) → (garbage : ℕ) → Bytes → ℕ
socket_ip_to_uint inet_pton htonl garbage ip = elim (inet_pton ip) [
  | none ↦ htonl garbage
  | some addr ↦ htonl addr
]

-- "%u" of a byte.
unfoldable pub decimal : ℕ → Bytes
decimal n =
    if ltb n 10
    then (b'0' + n) ∷ []
    else if ltb n 100
    then (b'0' + n / 10) ∷ (b'0' + n % 10) ∷ []
    else (b'0' + n / 100) ∷ (b'0' + n / 10 % 10) ∷ (b'0' + n % 10) ∷ []

-- "%u.%u. … .%u"
unfoldable pub dotted : ℕ → List ℕ → Bytes
dotted n [] = decimal n
dotted n (m ∷ ns) = decimal n ++ b'.' ∷ dotted m ns

-- snprintf (dots, 65, …); `inet_pton` gives the first byte and the fifteen behind it.
unfoldable pub socket_ipv6_to_dots : (inet_pton : Bytes → Option (ℕ × List ℕ)) → Bytes → ℤ × Bytes
socket_ipv6_to_dots inet_pton ip = elim (inet_pton ip) [
  | none ↦ (minus_one, [])
  | some (n, ns) ↦ (pos 0, take 64 (dotted n ns))
]

-- Numbers with dots between them, read back.
abbrev pub read_dots : (acc : ℕ) → Bytes → List ℕ
read_dots acc [] = acc ∷ []
read_dots acc (c ∷ cs) =
    let later = acc ∷ read_dots 0 cs in
    let more = read_dots (acc * 10 + (c - b'0')) cs in if c == b'.' then later else more

abbrev pub AllBytes : List ℕ → Type 0
AllBytes [] = Unit {0}
AllBytes (n ∷ ns) = (n < 256) × AllBytes ns

length-decimal : (n : ℕ) → length (decimal n) ≤ 3
unfolding decimal
length-decimal n = ground arith

length-dotted : (n : ℕ) (ns : List ℕ) → length (dotted n ns) ≤ 3 + 4 * length ns
unfolding dotted
length-dotted n [] = omega (arith, length-decimal n)
length-dotted n (m ∷ ns) =
    omega
      (arith, length-append (decimal n) (b'.' ∷ dotted m ns), length-decimal n, length-dotted m ns)

digit_read :
    (acc d : ℕ) (rest : Bytes)
    → d < 10
    → read_dots acc ((b'0' + d) ∷ rest) ≡ read_dots (acc * 10 + d) rest
digit_read acc d rest h =
    let miss : (b'0' + d == b'.') ≡ false = ground arith in
    let value : b'0' + d - b'0' ≡ d = omega arith in rw (miss, value) refl

decimal_read : (n : ℕ) (rest : Bytes) → n < 256 → read_dots 0 (decimal n ++ rest) ≡ read_dots n rest
unfolding decimal
decimal_read n rest h = elim (Bool-cases (ltb n 10)) [
  | inl one ↦ rw one (
      digit_read 0 n rest (ground arith)
      ∙ ap (λ t. read_dots t rest) (let e : 0 * 10 + n ≡ n = omega arith in e))
  | inr more ↦ elim (Bool-cases (ltb n 100)) [
    | inl two ↦
        rw (more, two)
          (digit_read 0 (n / 10) ((b'0' + n % 10) ∷ rest) (ground arith)
            ∙ digit_read (0 * 10 + n / 10) (n % 10) rest (omega arith)
            ∙ ap (λ t. read_dots t rest)
                (let e : (0 * 10 + n / 10) * 10 + n % 10 ≡ n = omega arith in e))
    | inr three ↦
        rw (more, three)
          (digit_read 0 (n / 100) ((b'0' + n / 10 % 10) ∷ (b'0' + n % 10) ∷ rest) (omega arith)
            ∙ digit_read (0 * 10 + n / 100) (n / 10 % 10) ((b'0' + n % 10) ∷ rest) (omega arith)
            ∙ digit_read ((0 * 10 + n / 100) * 10 + n / 10 % 10) (n % 10) rest (omega arith)
            ∙ ap (λ t. read_dots t rest)
                (let e : ((0 * 10 + n / 100) * 10 + n / 10 % 10) * 10 + n % 10 ≡ n = omega arith in
                  e))
  ]
]

dotted_read : (n : ℕ) (ns : List ℕ) → n < 256 → AllBytes ns → read_dots 0 (dotted n ns) ≡ n ∷ ns
unfolding dotted
dotted_read n [] h all = ap (read_dots 0) (sym (append-nil (decimal n))) ∙ decimal_read n [] h
dotted_read n (m ∷ ns) h (hm, all) =
    decimal_read n (b'.' ∷ dotted m ns) h ∙ ap (◌∷◌ n) (dotted_read m ns hm all)

-- For a text that is an IPv6 address, 0 is returned and the sixteen numbers stand whole in the 65
-- bytes of the buffer: they can be read back.
pub ipv6_to_dots-read :
    (inet_pton : Bytes → Option (ℕ × List ℕ)) (ip : Bytes) (n : ℕ) (ns : List ℕ)
    → inet_pton ip ≡ some (n, ns)
    → n < 256
    → AllBytes ns
    → length ns ≡ 15
    → ((socket_ipv6_to_dots inet_pton ip).0 ≡ pos 0)
      × (read_dots 0 (socket_ipv6_to_dots inet_pton ip).1 ≡ n ∷ ns)
      × (length (socket_ipv6_to_dots inet_pton ip).1 < 65)
unfolding socket_ipv6_to_dots
ipv6_to_dots-read inet_pton ip n ns e h all len =
    let short : length (dotted n ns) ≤ 63 = omega (arith, length-dotted n ns) in
    let whole : take 64 (dotted n ns) ≡ dotted n ns = take_le_all 64 (dotted n ns) (omega arith) in
    rw (socket_ipv6_to_dots, e, whole) (refl, dotted_read n ns h all, omega arith)
