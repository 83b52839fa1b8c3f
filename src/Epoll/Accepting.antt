-- ===== src/Epoll/Accepting.antt =====
-- What `sockadd` and `server_cb` of other/pm.c leave behind on each path.
use examples.Common.{
  ℕ, suc, ◌+◌, ◌≡◌, ◌∙◌, refl, inl, inr, Bool, true, false, ◌&&◌, some, List, [], ◌∷◌, ◌++◌, ℤ,
  if◌then◌else◌, length, arith, Bool-cases,
}
use examples.Epoll.{
  State, Client, print, clientadd, sockadd, register, server_cb, Accepted, Adding, Callback,
  client_cb_ptr, connect_line, error_line, next_of, head_place,
}
use examples.Epoll.Links.{length-relink}

abbrev all_ok : Adding → Bool
all_ok a = a.fcntl_ok && (a.calloc_ok && a.epoll_ok)

-- A socket is registered, with a new client at the head of the list, exactly where all three calls
-- succeed; one line is printed where one of them fails. Where only the last one fails, the client
-- stays in the list, registered nowhere.
pub record Outcome (a : Adding) (fd : ℤ) (s : State) (r : Bool × State) : Type 0 where
  result : r.0 ≡ all_ok a
  kernel :
      r.1.registered ≡ (if all_ok a then (fd, length s.clients) ∷ s.registered else s.registered)
  count :
      length r.1.clients
      ≡ (if a.fcntl_ok && a.calloc_ok then suc (length s.clients) else length s.clients)
  first : r.1.head ≡ (if a.fcntl_ok && a.calloc_ok then some (length s.clients) else s.head)
  lines : r.1.printed ≡ (if all_ok a then s.printed else s.printed ++ error_line ∷ [])

pub sockadd-Outcome :
    (a : Adding) (fd : ℤ) (cb : Callback) (p : ℕ) (s : State) → Outcome a fd s (sockadd a fd cb p s)
unfolding sockadd clientadd register
sockadd-Outcome a fd cb p s =
    let made : Client = record { fd = fd; cb = cb; p = p; prev = head_place; next = s.head } in
    let grown = length-relink s.head (next_of (length s.clients)) s.clients made in
    elim (Bool-cases a.fcntl_ok) [
      | inr unset ↦
          rw unset
            (record { result = refl; kernel = refl; count = refl; first = refl; lines = refl })
      | inl set ↦ elim (Bool-cases a.calloc_ok) [
        | inr nothing ↦
            rw (set, nothing)
              (record { result = refl; kernel = refl; count = refl; first = refl; lines = refl })
        | inl made ↦ elim (Bool-cases a.epoll_ok) [
          | inr refused ↦
              rw (set, made, refused)
                (record { result = refl; kernel = refl; count = grown; first = refl; lines = refl })
          | inl done ↦
              rw (set, made, done)
                (record { result = refl; kernel = refl; count = grown; first = refl; lines = refl })
        ]
      ]
    ]

abbrev AllAdded : List Accepted → Type 0
AllAdded [] = Unit {0}
AllAdded (a ∷ pending) = (all_ok a.adding ≡ true) × AllAdded pending

-- The first connection that cannot be added is the last one that is taken: what is queued behind
-- it makes no difference, nor does how the accept behind that would end.
server_cb-stops :
    (good : List Accepted) (bad : Accepted) (rest : List Accepted) (again : Bool) (s : State)
    → AllAdded good
    → all_ok bad.adding ≡ false
    → server_cb (good ++ bad ∷ rest) again s
      ≡ (sockadd bad.adding bad.fd client_cb_ptr 0 (print connect_line (server_cb good true s))).1
unfolding server_cb
server_cb-stops [] bad rest again s all stop =
    rw (sockadd-Outcome bad.adding bad.fd client_cb_ptr 0 (print connect_line s)).result
      (rw stop refl)
server_cb-stops (a ∷ good) bad rest again s (added, all) stop =
    let here = print connect_line s in
    let done : (sockadd a.adding a.fd client_cb_ptr 0 here).0 ≡ true =
      (sockadd-Outcome a.adding a.fd client_cb_ptr 0 here).result ∙ added in
    rw done
      (server_cb-stops good bad rest again (sockadd a.adding a.fd client_cb_ptr 0 here).1 all stop)

-- The registrations that the connections get, each with the number of the client made for it.
abbrev taken : List Accepted → ℕ → List (ℤ × ℕ) → List (ℤ × ℕ)
taken [] n reg = reg
taken (a ∷ pending) n reg = taken pending (suc n) ((a.fd, n) ∷ reg)

-- Connections that can all be added are registered one after the other, each with a new client.
server_cb-taken :
    (pending : List Accepted) (again : Bool) (s : State)
    → AllAdded pending
    → ((server_cb pending again s).registered ≡ taken pending (length s.clients) s.registered)
      × (length (server_cb pending again s).clients ≡ length pending + length s.clients)
unfolding server_cb
server_cb-taken [] true s all = (refl, omega arith)
server_cb-taken [] false s all = (refl, omega arith)
server_cb-taken (a ∷ pending) again s (added, all) =
    let here = print connect_line s in
    let o = sockadd-Outcome a.adding a.fd client_cb_ptr 0 here in
    let next = (sockadd a.adding a.fd client_cb_ptr 0 here).1 in
    let both : (a.adding.fcntl_ok && a.adding.calloc_ok) ≡ true = ground arith in
    let count : length next.clients ≡ suc (length s.clients) = rw both at o.count in
    let kernel : next.registered ≡ (a.fd, length s.clients) ∷ s.registered = rw added at o.kernel in
    let (regs, grew) = server_cb-taken pending again next all in
    rw (o.result ∙ added) (rw (count, kernel) at regs, omega (arith, grew, count))
