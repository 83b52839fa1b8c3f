-- ===== src/Udpfwd/Start.antt =====
-- How other/udpfwd.c comes to its loop.
use examples.Common.{
  sym, ◌≡◌, ◌∙◌, ap, inl, inr, true, false, ◌||◌, some, [], ◌∷◌, Bytes, arith, Bool-cases,
  Option-cases, leb, length,
}
use examples.Udpfwd.{
  Endpoint, SockAddr, Net, forwarding, is_zero, htons, connect_ends, start, scan_bouncer,
  scan_endpoint,
}

-- What has been checked where the program forwards: ports that are not 0 were given, both hosts are
-- known, the socket is bound, and the addresses are those of the arguments.
record Checked (net : Net) (bnc dst : Endpoint) (bncsa dstsa : SockAddr) : Type 0 where
  bnc_port : is_zero bnc.port ≡ false
  dst_port : is_zero dst.port ≡ false
  bnc_known : net.gethostbyname bnc.host ≡ some bncsa.ip
  dst_known : net.gethostbyname dst.host ≡ some dstsa.ip
  bound : net.bind_ok bncsa ≡ true
  bnc_number : bncsa.port ≡ htons bnc.port
  dst_number : dstsa.port ≡ htons dst.port

connect_ends-Checked :
    (net : Net) (bnc dst : Endpoint) (bncsa dstsa : SockAddr)
    → is_zero bnc.port ≡ false
    → is_zero dst.port ≡ false
    → connect_ends net bnc dst ≡ forwarding bncsa dstsa
    → Checked net bnc dst bncsa dstsa
unfolding connect_ends
connect_ends-Checked net bnc dst bncsa dstsa p q e =
    elim (Option-cases (net.gethostbyname bnc.host)) [
      | inl lost ↦ cc (rw (connect_ends, lost) at e)
      | inr (ip, known) ↦
          let sa : SockAddr = record { ip = ip; port = htons bnc.port } in
          elim (Bool-cases (net.bind_ok sa)) [
            | inr refused ↦ cc (rw (connect_ends, known, refused) at e)
            | inl bound ↦ elim (Option-cases (net.gethostbyname dst.host)) [
              | inl lost ↦ cc (rw (connect_ends, known, bound, lost) at e)
              | inr (ip', known') ↦
                  let run : forwarding sa (record { ip = ip'; port = htons dst.port })
                      ≡ forwarding bncsa dstsa =
                    rw (connect_ends, known, bound, known') at e in
                  let here : sa ≡ bncsa = cc in
                  let there : record { ip = ip'; port = htons dst.port } ≡ dstsa = cc in
                  record {
                    bnc_port = p;
                    dst_port = q;
                    bnc_known = known ∙ ap (λ (t : SockAddr). some t.ip) here;
                    dst_known = known' ∙ ap (λ (t : SockAddr). some t.ip) there;
                    bound = ap net.bind_ok (sym here) ∙ bound;
                    bnc_number = ap (λ (t : SockAddr). t.port) (sym here);
                    dst_number = ap (λ (t : SockAddr). t.port) (sym there);
                  }
            ]
          ]
    ]

-- The program forwards only on two arguments whose ports are not 0, from a bound socket at the
-- first to the address of the second.
start-Checked :
    (net : Net) (a b : Bytes) (bncsa dstsa : SockAddr)
    → start net (a ∷ b ∷ []) ≡ forwarding bncsa dstsa
    → Checked net (scan_bouncer net.scan_int a) (scan_endpoint net.scan_int b) bncsa dstsa
unfolding start
start-Checked net a b bncsa dstsa e =
    let bnc = scan_bouncer net.scan_int a in
    let dst = scan_endpoint net.scan_int b in
    elim (Bool-cases (leb 256 (length bnc.host) || leb 256 (length dst.host))) [
      | inl long ↦ cc (rw (start, long) at e)
      | inr fits ↦ elim (Bool-cases (is_zero bnc.port || is_zero dst.port)) [
        | inl zero ↦ cc (rw (start, fits, zero) at e)
        | inr given ↦
            connect_ends-Checked net bnc dst bncsa dstsa (ground arith) (ground arith)
              (rw (start, fits, given) at e)
      ]
    ]
