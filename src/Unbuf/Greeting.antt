-- ===== src/Unbuf/Greeting.antt =====
-- What a client of c-cpp/onethread/unbuf.c gets to see.
use examples.Common.{length}
use examples.Memutil.{egg_mvsprintf, iprintf, print_loop}
use examples.Sockbuf.Io.{sockbuf_write}
use examples.Sockbuf.Run.{pure, ◌>>◌}
use examples.Telnet.Read.Moving.{and_then_assoc}
use examples.Sockbuf.Io.Write.{IsMild}
use examples.Unbuf.{servone_on_read, usage_text}
use mathlib.Core.Path.{subst}
use examples.Common.{
  ℕ, ◌≡◌, ◌∙◌, refl, sym, ap, Option, none, some, List, [], ◌∷◌, ◌++◌, Bytes, ℤ, pos, get_elem?,
  set, append_assoc, set-get_elem?, modify_at-set, Option-cases, inl, inr,
}
use examples.Sockbuf.State.{Ptr, Sockbuf, State}
use examples.Sockbuf.Run.{ok, and_then}
use examples.Sockbuf.Env.{Env, Filter}
use examples.Sockbuf.Valid.{Holds, is_valid_at-Holds}
use examples.Sockbuf.Access.{sockbuf_set_handler}
use examples.Sockbuf.Filters.{backward}
use examples.Sockbuf.Filters.Attach.{attach_run, with_filter}
use examples.Sockbuf.Events.{sockbuf_on_write, sockbuf_real_write}
use examples.Sockbuf.Events.Stream.{WritesWithin, IsOrdered, HasStats, stream}
use examples.Sockbuf.Events.Stream.Write.{real_write-stream}
use examples.Telnet.{telnet_cmd, telnet_filter_level, telnet_mode, telnet_on}
use examples.Unbuf.{servone_handler, servone_on_connect}

-- A sockbuf in order with the handler of the servers and the data given, whose only filter is the
-- telnet filter, and what it has sent or will send.
pub record Telnetted (s : State) (idx : ℕ) (telnet_filter client_data : Ptr) (sock : ℤ)
    (text : Bytes) : Type 0 where
  pub sockbuf : Sockbuf
  pub at : get_elem? s.sockbufs idx ≡ some sockbuf
  pub handler_is : sockbuf.handler ≡ some servone_handler
  pub data_is : sockbuf.client_data ≡ client_data
  pub filters_are : sockbuf.filters ≡ telnet_filter ∷ []
  pub sock_is : sockbuf.sock ≡ sock
  pub counts : HasStats sockbuf
  pub ordered : IsOrdered sockbuf
  pub sends : stream s sockbuf ≡ text

-- A filter does not get what is written at its own level.
backward-alone :
    (env : Env) (f : Ptr) (ds : List Ptr)
    → (env.filter f).level ≡ telnet_filter_level
    → backward env (λ (f : Filter). f.on_write) telnet_filter_level (f ∷ []) ds ≡ none
unfolding backward
backward-alone env f [] e = refl
backward-alone env f (d ∷ ds) e = elim (Option-cases (env.filter f).on_write) [
  | inl deaf ↦ rw deaf refl
  | inr (call, takes) ↦ rw (takes, e) refl
]

telnet_mode_run :
    (env : Env) (s : State) (idx : ℕ) (b : Sockbuf) (f : Ptr) (cmd what : ℕ)
    → get_elem? s.sockbufs idx ≡ some b
    → b.filters ≡ f ∷ []
    → (env.filter f).level ≡ telnet_filter_level
    → telnet_mode env idx cmd what s ≡ sockbuf_real_write env idx (telnet_cmd ∷ cmd ∷ what ∷ []) s
unfolding telnet_mode sockbuf_on_write
telnet_mode_run env s idx b f cmd what at alone level =
    let silent : backward env (λ (f : Filter). f.on_write) telnet_filter_level b.filters
          b.filter_client_data
        ≡ none =
      subst
        (λ fs.
          backward env (λ (f : Filter). f.on_write) telnet_filter_level fs b.filter_client_data
          ≡ none)
        (sym alone) (backward-alone env f b.filter_client_data level) in
    rw (at, and_then, silent) refl

set_handler_run :
    (s : State) (idx : ℕ) (b : Sockbuf) (h d : Ptr)
    → Holds s idx b
    → sockbuf_set_handler (pos idx) (some h) d s
      ≡ ok (pos 0) (record s {
        sockbufs = set s.sockbufs idx (record b { handler = some h; client_data = d });
      })
unfolding sockbuf_set_handler
set_handler_run s idx b h d holds =
    rw
      (
        is_valid_at-Holds holds,
        modify_at-set (λ (b : Sockbuf). record b { handler = some h; client_data = d }) s.sockbufs
            idx holds.at,
      )
      refl

telnet_mode-Telnetted :
    (env : Env) (s : State) (idx : ℕ) (f d : Ptr) (sock : ℤ) (text : Bytes) (cmd what : ℕ)
    → WritesWithin env
    → IsMild env
    → (env.filter f).level ≡ telnet_filter_level
    → Telnetted s idx f d sock text
    → (n : ℕ) × (s' : State) × (telnet_mode env idx cmd what s ≡ ok (pos n) s')
      × Telnetted s' idx f d sock (text ++ telnet_cmd ∷ cmd ∷ what ∷ [])
telnet_mode-Telnetted env s idx f d sock text cmd what within mild level t =
    let chunk = telnet_cmd ∷ cmd ∷ what ∷ [] in
    let b = t.sockbuf in
    let (stats, has) = t.counts in
    let (n, w) =
      real_write-stream env s idx b stats chunk within t.at has t.ordered
        (mild s.clock b.sock chunk) in
    (
      n,
      w.state,
      telnet_mode_run env s idx b f cmd what t.at t.filters_are level ∙ w.returns,
      record {
        sockbuf = w.after;
        at = w.at;
        handler_is = w.same_use.handler ∙ t.handler_is;
        data_is = w.same_use.client_data ∙ t.data_is;
        filters_are = w.same_use.filters ∙ t.filters_are;
        sock_is = w.same_sock ∙ t.sock_is;
        counts = w.same_use.counts t.counts;
        ordered = w.ordered;
        sends = w.grows ∙ ap (λ x. x ++ chunk) t.sends;
      },
    )

-- Where write never claims more than it was given and fails with EAGAIN at most, and the telnet
-- filter has its level: a new client without filters, in order and with its counters, gets the
-- handler with its data and the telnet filter; what it is sent next, behind all that was sent or
-- waits, are the two commands by which the server says that it suppresses go-aheads and that it
-- echoes, in this order and whole.
pub on_connect-Telnetted :
    (env : Env) (telnet_filter session client_data : Ptr) (idx newidx : ℕ) (ip : Option Bytes)
    (port : ℕ) (s : State) (c : Sockbuf)
    → WritesWithin env
    → IsMild env
    → (env.filter telnet_filter).level ≡ telnet_filter_level
    → Holds s newidx c
    → c.filters ≡ []
    → IsOrdered c
    → HasStats c
    → (s' : State) × (servone_on_connect env telnet_filter session client_data idx newidx ip port s
        ≡ ok (pos 0) s')
      × Telnetted s' newidx telnet_filter client_data c.sock
          (stream s c ++ 255 ∷ 251 ∷ 3 ∷ 255 ∷ 251 ∷ 1 ∷ [])
unfolding servone_on_connect telnet_on
on_connect-Telnetted env f session d idx n ip port s c within mild level h bare ordered counts =
    let c₁ : Sockbuf = record c { handler = some servone_handler; client_data = d } in
    let s₁ : State = record s { sockbufs = set s.sockbufs n c₁ } in
    let h₁ : Holds s₁ n c₁ = record { at = set-get_elem? s.sockbufs n c₁ h.at; live = h.live } in
    let c₂ = with_filter env f session c₁ in
    let s₂ : State = record s { sockbufs = set s₁.sockbufs n c₂ } in
    let t₂ : Telnetted s₂ n f d c.sock (stream s c) = record {
      sockbuf = c₂;
      at = set-get_elem? s₁.sockbufs n c₂ h₁.at;
      handler_is = refl;
      data_is = refl;
      filters_are = rw bare refl;
      sock_is = refl;
      counts = counts;
      ordered = ordered;
      sends = refl;
    } in
    let (k₃, s₃, ran₃, t₃) =
      telnet_mode-Telnetted env s₂ n f d c.sock (stream s c) 251 3 within mild level t₂ in
    let (k₄, s₄, ran₄, t₄) =
      telnet_mode-Telnetted env s₃ n f d c.sock (stream s c ++ 255 ∷ 251 ∷ 3 ∷ []) 251 1 within mild
        level t₃ in
    (
      s₄,
      rw
          (
            set_handler_run s n c servone_handler d h,
            attach_run env s₁ n c₁ f session h₁,
            ran₃,
            ran₄,
          )
          refl,
      subst (Telnetted s₄ n f d c.sock)
          (append_assoc (stream s c) (255 ∷ 251 ∷ 3 ∷ []) (255 ∷ 251 ∷ 1 ∷ [])) t₄,
    )

-- A question mark alone gets the usage, whole.
on_read-usage :
    (env : Env) (client_data : Ptr) (idx : ℕ) (s : State)
    → servone_on_read env client_data idx (b'?' ∷ []) s
      ≡ (sockbuf_write env (pos idx) usage_text (pos (length usage_text)) >> pure (pos 0)) s
unfolding servone_on_read iprintf egg_mvsprintf print_loop
on_read-usage env client_data idx s =
    and_then_assoc (sockbuf_write env (pos idx) usage_text (pos (length usage_text)) s)
      (λ _. pure (length usage_text)) (λ _. pure (pos 0))
