-- ===== src/Sockbuf/Events/Stream.antt =====
-- Writing in c-cpp/onethread/sockbuf.c loses, repeats and reorders no byte: what the wire took and
-- what waits in the output buffer make up what was written, in order.
pub mod Write
pub mod Overtake
use examples.Sockbuf.Table.{is_live}
use examples.Common.{
  ℕ, zero, suc, ◌≤◌, ◌≡◌, ◌∙◌, refl, sym, ap, inl, inr, true, false, some, List, [], ◌∷◌, ◌++◌,
  Bytes, ℤ, pos, arith, ◌==◌, if◌then◌else◌, length, get_elem?, set, take, drop, Bool-cases, eqb_ℤ,
  append-nil, append_assoc, take-append-drop, eqb_ℤ-refl, modify_at-set, set-get_elem?, set_self,
}
use examples.Sockbuf.State.{PollBits, Stats, Sockbuf, State}
use examples.Sockbuf.Run.{Run, ok, and_then, ◌>>◌, pure}
use examples.Sockbuf.Env.{Env, Written, wrote, failed}
use examples.Sockbuf.Stats.{stats_out}
use examples.Sockbuf.Table.{sockbuf_block, edit_events_of}
use examples.Sockbuf.Events.{
  os_write, append_out, count_out, after_write, real_write_result, sockbuf_real_write,
}

-- The bytes that descriptor `fd` took, oldest first.
abbrev pub sent : ℤ → List (ℤ × Bytes) → Bytes
sent fd [] = []
sent fd ((g, chunk) ∷ rest) = if eqb_ℤ g fd then chunk ++ sent fd rest else sent fd rest

pub sent-concat :
    (fd : ℤ) (w : List (ℤ × Bytes)) (chunk : Bytes)
    → sent fd (w ++ (fd, chunk) ∷ []) ≡ sent fd w ++ chunk
sent-concat fd [] chunk = rw (eqb_ℤ-refl fd) (append-nil chunk)
sent-concat fd ((g, c) ∷ w) chunk = elim (Bool-cases (eqb_ℤ g fd)) [
  | inl same ↦ rw (same, sent-concat fd w chunk, append_assoc)
  | inr other ↦ rw (other, sent-concat fd w chunk)
]

-- `write` never claims more than it was given.
abbrev pub WritesWithin : Env → Type 0
WritesWithin env =
    (t : ℕ) (fd : ℤ) (chunk : Bytes) (n : ℕ) → env.os.write t fd chunk ≡ wrote n → n ≤ length chunk

-- What sockbuf `b`, in the state `s`, has sent or will send.
abbrev pub stream : State → Sockbuf → Bytes
stream s b = sent b.sock s.wire ++ b.data_out

-- A sockbuf that is not blocked holds nothing back.
abbrev pub IsOrdered : Sockbuf → Type 0
IsOrdered b = b.flags.block ≡ false → b.data_out ≡ []

abbrev pub HasStats : Sockbuf → Type 0
HasStats b = (t : Stats) × (b.stats ≡ some t)

-- `c` is as `b` for those who use it: with the same handler, data and filters, live as it was.
pub record SameUse (b c : Sockbuf) : Type 0 where
  pub filters : c.filters ≡ b.filters
  pub handler : c.handler ≡ b.handler
  pub client_data : c.client_data ≡ b.client_data
  pub live : is_live c ≡ is_live b
  pub counts : HasStats b → HasStats c

pub SameUse-trans : {b c d : Sockbuf} → SameUse b c → SameUse c d → SameUse b d
SameUse-trans u v = record {
  filters = v.filters ∙ u.filters;
  handler = v.handler ∙ u.handler;
  client_data = v.client_data ∙ u.client_data;
  live = v.live ∙ u.live;
  counts = λ h. v.counts (u.counts h);
}

-- Between the system call and the return: `b` holds what was not taken, and the wire is as it was.
record Queued (s : State) (idx : ℕ) (b : Sockbuf) (rest : Bytes) (n : ℕ) (r : Run ℤ) : Type 0 where
  state : State
  after : Sockbuf
  returns : r ≡ ok (pos n) state
  at : get_elem? state.sockbufs idx ≡ some after
  same_sock : after.sock ≡ b.sock
  same_wire : state.wire ≡ s.wire
  queued : after.data_out ≡ b.data_out ++ rest
  same_use : SameUse b after
  ordered : IsOrdered after

abbrev put : State → ℕ → Sockbuf → State
put s idx b = record s { sockbufs = set s.sockbufs idx b }

abbrev queue : Bytes → Sockbuf → Sockbuf
queue chunk b = record b { data_out = b.data_out ++ chunk }

abbrev blocked : Sockbuf → Sockbuf
blocked b = record b { flags = record (b.flags) { block = true } }

abbrev counted : ℕ → Stats → Sockbuf → Sockbuf
counted zero t b = b
counted (suc n) t b = record b { stats = some (stats_out t (suc n)) }

module _ (s : State) (idx : ℕ) (b : Sockbuf) (at : get_elem? s.sockbufs idx ≡ some b) where
  append_out_run : (chunk : Bytes) → append_out idx chunk s ≡ ok tt (put s idx (queue chunk b))
  unfolding append_out
  append_out_run chunk = rw (modify_at-set _ s.sockbufs idx at)

  count_out_run :
      (n : ℕ) (t : Stats) → b.stats ≡ some t → count_out idx n s ≡ ok tt (put s idx (counted n t b))
  unfolding count_out
  count_out_run zero t e = rw (set_self s.sockbufs idx b at)
  count_out_run (suc n) t e = rw (at, e)

  block_run :
      sockbuf_block idx s
      ≡ ok tt (edit_events_of (λ e. record e { pollout = true }) idx (put s idx (blocked b)))
  unfolding sockbuf_block
  block_run = rw (modify_at-set _ s.sockbufs idx at)

pub edit_events_of-sockbufs :
    (f : PollBits → PollBits) (idx : ℕ) (s : State)
    → ((edit_events_of f idx s).sockbufs ≡ s.sockbufs) × ((edit_events_of f idx s).wire ≡ s.wire)
edit_events_of-sockbufs f idx s = ground arith

drop_all : (n : ℕ) (xs : Bytes) → (n == length xs) ≡ true → drop n xs ≡ []
drop_all zero [] h = refl
drop_all zero (x ∷ xs) h = ground arith
drop_all (suc n) [] h = ground arith
drop_all (suc n) (x ∷ xs) h = drop_all n xs (ground arith)

-- The rest of `sockbuf_real_write` once the sockbuf is blocked.
Queued-behind_block :
    (s : State) (idx : ℕ) (c : Sockbuf) (rest : Bytes) (n : ℕ)
    → get_elem? s.sockbufs idx ≡ some c
    → let s₂ = edit_events_of (λ e. record e { pollout = true }) idx (put s idx (blocked c)) in
      Queued s idx c rest n ((append_out idx rest >> pure (pos n)) s₂)
Queued-behind_block s idx c rest n at =
    let s₁ = put s idx (blocked c) in
    let s₂ = edit_events_of (λ e. record e { pollout = true }) idx s₁ in
    let keeps = edit_events_of-sockbufs (λ e. record e { pollout = true }) idx s₁ in
    let at₂ : get_elem? s₂.sockbufs idx ≡ some (blocked c) =
      rw (keeps.0) (set-get_elem? s.sockbufs idx (blocked c) at) in
    rw (append_out_run s₂ idx (blocked c) at₂ rest) (record {
      state = put s₂ idx (queue rest (blocked c));
      after = queue rest (blocked c);
      returns = refl;
      at = set-get_elem? s₂.sockbufs idx (queue rest (blocked c)) at₂;
      same_sock = refl;
      same_wire = keeps.1;
      queued = refl;
      same_use = record {
        filters = refl;
        handler = refl;
        client_data = refl;
        live = refl;
        counts = λ h. h;
      };
      ordered = λ e. cc;
    })

counted_same :
    (n : ℕ) (t : Stats) (b : Sockbuf)
    → ((counted n t b).sock ≡ b.sock) × ((counted n t b).data_out ≡ b.data_out)
counted_same zero t b = (refl, refl)
counted_same (suc n) t b = (refl, refl)

counted-SameUse : (n : ℕ) (t : Stats) (b : Sockbuf) → SameUse b (counted n t b)
counted-SameUse zero t b = record {
  filters = refl;
  handler = refl;
  client_data = refl;
  live = refl;
  counts = λ h. h;
}
counted-SameUse (suc n) t b = record {
  filters = refl;
  handler = refl;
  client_data = refl;
  live = refl;
  counts = λ h. (stats_out t (suc n), refl);
}

Queued-transport :
    {s s' : State} {idx : ℕ} {b c : Sockbuf} {rest : Bytes} {n : ℕ} {r : Run ℤ}
    → s'.wire ≡ s.wire
    → c.sock ≡ b.sock
    → c.data_out ≡ b.data_out
    → SameUse b c
    → Queued s' idx c rest n r
    → Queued s idx b rest n r
Queued-transport w k o u q = record {
  state = q.state;
  after = q.after;
  returns = q.returns;
  at = q.at;
  same_sock = q.same_sock ∙ k;
  same_wire = q.same_wire ∙ w;
  queued = q.queued ∙ rw o;
  same_use = SameUse-trans u q.same_use;
  ordered = q.ordered;
}

after_write-Queued :
    (s : State) (idx : ℕ) (b : Sockbuf) (t : Stats) (chunk : Bytes) (n : ℕ)
    → get_elem? s.sockbufs idx ≡ some b
    → b.stats ≡ some t
    → b.data_out ≡ []
    → Queued s idx b (drop n chunk) n (after_write idx chunk n s)
unfolding after_write
after_write-Queued s idx b t chunk n at has none_waits =
    let c = counted n t b in
    let same = counted_same n t b in
    let s₁ = put s idx c in
    let at₁ : get_elem? s₁.sockbufs idx ≡ some c = set-get_elem? s.sockbufs idx c at in
    elim (Bool-cases (n == length chunk)) [
      | inl all ↦
          rw (count_out_run s idx b at n t has, all)
            (record {
              state = s₁;
              after = c;
              returns = refl;
              at = at₁;
              same_sock = same.0;
              same_wire = refl;
              queued = same.1 ∙ rw (drop_all n chunk all) (sym (append-nil b.data_out));
              same_use = counted-SameUse n t b;
              ordered = λ _. same.1 ∙ none_waits;
            })
      | inr part ↦
          rw (count_out_run s idx b at n t has, part, block_run s₁ idx c at₁)
            (Queued-transport refl same.0 same.1 (counted-SameUse n t b)
              (Queued-behind_block s₁ idx c (drop n chunk) n at₁))
    ]
