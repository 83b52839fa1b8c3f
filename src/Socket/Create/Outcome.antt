-- ===== src/Socket/Create/Outcome.antt =====
-- `socket_create` of c-cpp/onethread/socket.c leaves no descriptor open but the one that it
-- returns.
use mathlib.Core.Path.{subst}
use examples.Common.{sym, minus_one, eqb_ℤ, eqb_ℤ-refl, ◌==◌}
use examples.Socket.Create.{
  Net, NetCall, Request, SockAddr, bound, closed, connecting, do_bind, do_connect, listening, note,
  opened, wants_bind,
}
use examples.Common.{
  suc, ◌≡◌, ◌⊎◌, ◌∙◌, refl, inl, inr, ap, Bool, true, false, ◌||◌, Option, none, some, List, [],
  ◌∷◌, ◌++◌, Bytes, ℤ, if◌then◌else◌, is_nonneg, Bool-cases, Option-cases,
}
use examples.Socket.Create.{
  NetState, socket_create, try_passive, passives, dest_name, src_name, nonblocking,
}

-- What is open after the calls, last opened first.
abbrev pub close_in : ℤ → List ℤ → List ℤ
close_in fd [] = []
close_in fd (g ∷ gs) = if eqb_ℤ g fd then gs else g ∷ close_in fd gs

abbrev pub after_call : NetCall → List ℤ → List ℤ
after_call (opened fd) fds = fd ∷ fds
after_call (closed fd) fds = close_in fd fds
after_call _ fds = fds

abbrev pub open_after : List NetCall → List ℤ → List ℤ
open_after [] fds = fds
open_after (c ∷ cs) fds = open_after cs (after_call c fds)

open_after-concat :
    (cs : List NetCall) (c : NetCall) (fds : List ℤ)
    → open_after (cs ++ c ∷ []) fds ≡ after_call c (open_after cs fds)
open_after-concat [] c fds = refl
open_after-concat (d ∷ cs) c fds = open_after-concat cs c (after_call d fds)

abbrev pub open_fds : NetState → List ℤ
open_fds s = open_after s.calls []

pub open_note : (c : NetCall) (s : NetState) → open_fds (note c s) ≡ after_call c (open_fds s)
open_note c s = open_after-concat s.calls c []

open_if :
    (c : Bool) (x y : NetState) {fds : List ℤ}
    → open_fds x ≡ fds
    → open_fds y ≡ fds
    → open_fds (if c then x else y) ≡ fds
open_if true x y h k = h
open_if false x y h k = k

-- Either a descriptor is given and is the only one opened, or an error code, and what is open is
-- what was open before. The code is -1 only for flags that name neither end.
abbrev pub Leaves : Request → List ℤ → ℤ × NetState → Type 0
Leaves q fds r =
    ((is_nonneg r.0 ≡ true) × (open_fds r.1 ≡ r.0 ∷ fds))
    ⊎ ((is_nonneg r.0 ≡ false)
        × (open_fds r.1 ≡ fds)
        × (r.0 ≡ minus_one → (q.flags.client || q.flags.server) ≡ false))

module _ (net : Net) (q : Request) (fds : List ℤ) where
  closes :
      (sock : ℤ) (s : NetState) → open_fds s ≡ sock ∷ fds → open_fds (note (closed sock) s) ≡ fds
  closes sock s h = open_note (closed sock) s ∙ rw h (rw (eqb_ℤ-refl sock))

  connect-Leaves :
      (sock : ℤ) (dest : SockAddr) (s : NetState)
      → is_nonneg sock ≡ true
      → open_fds s ≡ sock ∷ fds
      → Leaves q fds (do_connect net q sock dest s)
  unfolding do_connect
  connect-Leaves sock dest s up h =
      let s' = note (connecting sock dest) s in
      let h' : open_fds s' ≡ sock ∷ fds = open_note (connecting sock dest) s ∙ h in
      elim (Bool-cases q.flags.client) [
        | inr server ↦ rw (do_connect, server) (inl (up, h))
        | inl client ↦ elim (Option-cases (net.connect s.clock sock dest)) [
          | inl done ↦ rw (do_connect, client, done) (inl (up, h'))
          | inr (errno, e) ↦ elim (Bool-cases (errno == net.einprogress)) [
            | inl later ↦ rw (do_connect, client, e, later) (inl (up, h'))
            | inr failed ↦
                rw (do_connect, client, e, failed) (inr (refl, closes sock s' h', λ e. cc))
          ]
        ]
      ]

  bind-Leaves :
      (sock : ℤ) (dest src : SockAddr) (s : NetState)
      → is_nonneg sock ≡ true
      → open_fds s ≡ sock ∷ fds
      → Leaves q fds (do_bind net q sock dest src s)
  unfolding do_bind
  bind-Leaves sock dest src s up h =
      let s' = note (bound sock src) s in
      let h' : open_fds s' ≡ sock ∷ fds = open_note (bound sock src) s ∙ h in
      elim (Bool-cases (q.flags.server || wants_bind q)) [
        | inr free ↦ rw (do_bind, free) (connect-Leaves sock dest s up h)
        | inl binds ↦ elim (Bool-cases (net.bind s.clock sock src)) [
          | inr failed ↦ rw (do_bind, binds, failed) (inr (refl, closes sock s' h', λ e. cc))
          | inl done ↦
              rw (do_bind, binds, done)
                (connect-Leaves sock dest (if q.flags.server then note (listening sock) s' else s')
                  up
                  (open_if q.flags.server (note (listening sock) s') s'
                    (open_note (listening sock) s' ∙ h') h'))
        ]
      ]

  -- What the search for a family leaves, if nothing else was open than `fds`.
  Tried : Option (ℤ × Bytes) × NetState → Type 0
  Tried r =
      ((r.0 ≡ none) × (open_fds r.1 ≡ fds))
      ⊎ ((sock : ℤ) × (passive : Bytes) × (r.0 ≡ some (sock, passive))
          × (is_nonneg sock ≡ true)
          × (open_fds r.1 ≡ sock ∷ fds))

  try_passive-Tried :
      (ps : List Bytes) (s : NetState) → open_fds s ≡ fds → Tried (try_passive net q ps s)
  unfolding Tried try_passive
  try_passive-Tried [] s h = inl (refl, h)
  try_passive-Tried (p ∷ ps) s h =
      let name = if q.flags.client then dest_name net q p else src_name net q p in
      let sock = net.socket s.clock name.family q.flags.udp in
      elim (Bool-cases (is_nonneg sock)) [
        | inl up ↦ rw up (inr (sock, p, refl, up, open_note (opened sock) s ∙ ap (◌∷◌ sock) h))
        | inr down ↦ rw down (try_passive-Tried ps (record s { clock = suc s.clock }) h)
      ]

  -- `socket_create` leaves no descriptor open but the one that it returns: whenever it gives an error
  -- code, what is open is what was open before, on every way that it can fail. A text that is no
  -- address is never refused: the code is -1 only where the flags name neither a client nor a server.
  pub create-Leaves : (s : NetState) → open_fds s ≡ fds → Leaves q fds (socket_create net q s)
  unfolding socket_create Tried
  create-Leaves s h = elim (Bool-cases (q.flags.client || q.flags.server)) [
    | inr neither ↦ rw neither (inr (refl, h, λ _. refl))
    | inl either ↦
        let tried = try_passive net q passives s in
        elim (try_passive-Tried passives s h) [
          | inl (e, o) ↦ rw (socket_create, either, e) (inr (refl, o, λ e. cc))
          | inr (sock, p, e, up, o) ↦
              let s' = if q.flags.nonblock then note (nonblocking sock) tried.1 else tried.1 in
              let run : socket_create net q s
                  ≡ do_bind net q sock (dest_name net q p) (src_name net q p) s' =
                rw (socket_create, either, e) in
              subst (Leaves q fds) (sym run) (
                bind-Leaves sock (dest_name net q p) (src_name net q p) s' up (
                  open_if q.flags.nonblock (note (nonblocking sock) tried.1) tried.1
                    (open_note (nonblocking sock) tried.1 ∙ o) o))
        ]
  ]
