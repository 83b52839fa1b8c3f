-- ===== src/Network/Ends.antt =====
-- What the functions of c-cpp/onethread/network.c and c-cpp/network.c leave open.
use examples.Common.{
  ℕ, ◌≡◌, ◌≢◌, ◌⊎◌, ◌∙◌, refl, inl, inr, false, Option, none, some, List, [], ◌∷◌, ◌++◌, Bytes, ℤ,
  minus_one, eqb_ℤ, eqb_ℤ-refl, Bool-cases, Option-cases, append_assoc,
}
use examples.Socket.Create.{NetCall, opened, closed, bound, listening, connecting, NetState, note}
use examples.Socket.Create.Outcome.{open_fds, open_note}
use examples.Network.{Net, sockaddr_in, connect_to, net_connect, listen_at, addr_of, net_listen}

-- Either -1, and what is open is what was open before; or a new descriptor, which alone is opened,
-- and the calls that were made on it.
abbrev pub Ends : (ℤ → List NetCall) → NetState → ℤ × NetState → Type 0
Ends calls s r =
    ((r.0 ≡ minus_one) × (open_fds r.1 ≡ open_fds s))
    ⊎ ((r.0 ≢ minus_one) × (open_fds r.1 ≡ r.0 ∷ open_fds s) × (r.1.calls ≡ s.calls ++ calls r.0))

closes :
    (sock : ℤ) (s : NetState) {fds : List ℤ}
    → open_fds s ≡ sock ∷ fds
    → open_fds (note (closed sock) s) ≡ fds
closes sock s h = open_note (closed sock) s ∙ rw h (rw (eqb_ℤ-refl sock))

ne_minus_one : (sock : ℤ) → eqb_ℤ sock minus_one ≡ false → sock ≢ minus_one
ne_minus_one sock h e = cc (rw e at h)

-- The calls on a socket that is connected to what `inet_aton` read.
abbrev connect_calls : Option Bytes → ℕ → ℤ → List NetCall
connect_calls none port sock = []
connect_calls (some addr) port sock = opened sock ∷ connecting sock (sockaddr_in addr port) ∷ []

-- `net_connect` returns -1 and leaves nothing open, or a socket on which it asked for one
-- connection to the address and port that it was given.
net_connect-Ends :
    (net : Net) (ipaddr : Bytes) (port : ℕ) (s : NetState)
    → Ends (connect_calls (net.aton ipaddr) port) s (net_connect net ipaddr port s)
unfolding net_connect connect_to
net_connect-Ends net ipaddr port s =
    let sock = net.socket s.clock in
    let s1 = note (opened sock) s in
    let up : open_fds s1 ≡ sock ∷ open_fds s = open_note (opened sock) s in
    elim (Bool-cases (eqb_ℤ sock minus_one)) [
      | inl failed ↦ rw (net_connect, failed) (inl (refl, refl))
      | inr made ↦ elim (Option-cases (net.aton ipaddr)) [
        | inl no_address ↦ rw (net_connect, made, no_address) (inl (refl, closes sock s1 up))
        | inr (addr, read) ↦
            let raddr = sockaddr_in addr port in
            let s2 = note (connecting sock raddr) s1 in
            let still : open_fds s2 ≡ sock ∷ open_fds s =
              open_note (connecting sock raddr) s1 ∙ up in
            elim (Bool-cases (net.connect s1.clock sock raddr)) [
              | inl connected ↦
                  rw (net_connect, made, read, connect_to, connected)
                    (inr (
                      ne_minus_one sock made,
                      still,
                      append_assoc s.calls (opened sock ∷ []) (connecting sock raddr ∷ []),
                    ))
              | inr refused ↦
                  rw (net_connect, made, read, connect_to, refused)
                    (inl (refl, closes sock s2 still))
            ]
      ]
    ]

-- `net_listen` returns -1 and leaves nothing open, or a socket that is bound to the address that it
-- was given, to any where that is none, and that listens.
pub net_listen-Ends :
    (net : Net) (ipaddr : Option Bytes) (port : ℕ) (s : NetState)
    → Ends
        (λ sock.
          opened sock ∷ bound sock (sockaddr_in (addr_of net ipaddr) port) ∷ listening sock ∷ [])
        s
        (net_listen net ipaddr port s)
unfolding net_listen listen_at
net_listen-Ends net ipaddr port s =
    let laddr = sockaddr_in (addr_of net ipaddr) port in
    let sock = net.socket s.clock in
    let s1 = note (opened sock) s in
    let s2 = note (bound sock laddr) s1 in
    let s3 = note (listening sock) s2 in
    let up : open_fds s1 ≡ sock ∷ open_fds s = open_note (opened sock) s in
    let up2 : open_fds s2 ≡ sock ∷ open_fds s = open_note (bound sock laddr) s1 ∙ up in
    let up3 : open_fds s3 ≡ sock ∷ open_fds s = open_note (listening sock) s2 ∙ up2 in
    elim (Bool-cases (eqb_ℤ sock minus_one)) [
      | inl failed ↦ rw (listen_at, failed) (inl (refl, refl))
      | inr made ↦ elim (Bool-cases (net.bind s1.clock sock laddr)) [
        | inr taken ↦ rw (listen_at, made, taken) (inl (refl, closes sock s2 up2))
        | inl at_address ↦ elim (Bool-cases (net.listen s2.clock sock)) [
          | inr deaf ↦ rw (listen_at, made, at_address, deaf) (inl (refl, closes sock s3 up3))
          | inl ready ↦
              rw (listen_at, made, at_address, ready)
                (inr (
                  ne_minus_one sock made,
                  up3,
                  append_assoc (s.calls ++ opened sock ∷ []) (bound sock laddr ∷ [])
                        (listening sock ∷ [])
                      ∙ append_assoc s.calls (opened sock ∷ [])
                          (bound sock laddr ∷ listening sock ∷ []),
                ))
        ]
      ]
    ]
