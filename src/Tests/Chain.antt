-- ===== src/Tests/Chain.antt =====
-- Filters, the main loop and the statistics, on the small world.
use mathlib.Core.Path.{subst}
use examples.Common.{true, ◌++◌, take}
use examples.Sockbuf.Events.{os_write}
use examples.Sockbuf.Io.{sockbuf_got_writable}
use examples.Sockbuf.Loop.{any_revents, poll_all}
use examples.Sockbuf.State.{no_events}
use examples.Common.{
  Bytes, List, [], arith, get_elem?, insert_at, pos, refl, set, some, suc, zero, ℕ, ℤ, ◌∷◌, ◌≡◌,
}
use examples.Sockbuf.Filters.{backward, forward, sockbuf_attach_filter, sockbuf_detach_filter}
use examples.Sockbuf.Filters.Attach.{ChainInv, attach-ChainInv, detach-attach}
use examples.Sockbuf.Filters.Backward.{Backwards, backward-Highest}
use examples.Sockbuf.Filters.Forward.{Forwards, forward-Lowest}
use examples.Sockbuf.Lifecycle.{deleted_sockbuf}
use examples.Sockbuf.Loop.{any_revents, leave, sockbuf_update_all}
use examples.Sockbuf.Loop.Reclaim.{Left, leave-Left}
use examples.Sockbuf.Loop.Serve.{serve, see_to_all, serve_all, ready_entries}
use examples.Sockbuf.Loop.Ready.{IsSteady, update_all-serve_all}
use examples.Sockbuf.Run.{◌>>=◌, ◌>>◌, update, pure}
use examples.Sockbuf.State.{Pollfd, Sockbuf, Stats, initial, zero_stats}
use examples.Sockbuf.Table.PollSet.{PollInv}
use examples.Tests.{connection, filtered, Holds-filtered, with_one, world}
use examples.Sockbuf.State.{State}
use examples.Sockbuf.Run.{ok}

filtered-ChainInv : ChainInv world filtered
filtered-ChainInv = record { parallel = refl; sorted = tt }

attach_example :
    (i : ℕ) × (b' : Sockbuf) × (sockbuf_attach_filter world (pos 0) 3 30 (with_one filtered)
      ≡ ok (pos 0) (record (with_one filtered) { sockbufs = set (filtered ∷ []) 0 b' }))
    × (b'.filters ≡ insert_at i 3 (7 ∷ []))
    × (b'.filter_client_data ≡ insert_at i 30 (70 ∷ []))
    × ChainInv world b'
attach_example =
    attach-ChainInv world (with_one filtered) 0 filtered 3 30 Holds-filtered filtered-ChainInv

detach_example :
    (sockbuf_attach_filter world (pos 0) 3 30 >>= λ _. sockbuf_detach_filter (pos 0) 3)
      (with_one filtered)
    ≡ ok (pos 0, some 30) (with_one filtered)
detach_example =
    detach-attach world (with_one filtered) 0 filtered 3 30 Holds-filtered filtered-ChainInv refl

forward_example :
    Forwards world
      (λ f. f.on_read)
      (pos 3)
      (2 ∷ 3 ∷ 5 ∷ 9 ∷ [])
      (20 ∷ 30 ∷ 50 ∷ 90 ∷ [])
      (forward world (λ f. f.on_read) (pos 3) (2 ∷ 3 ∷ 5 ∷ 9 ∷ []) (20 ∷ 30 ∷ 50 ∷ 90 ∷ []))
forward_example =
    forward-Lowest world (λ f. f.on_read) (pos 3) (2 ∷ 3 ∷ 5 ∷ 9 ∷ []) (20 ∷ 30 ∷ 50 ∷ 90 ∷ []) refl
      (omega arith, (omega arith, (omega arith, tt)))

backward_example :
    Backwards world
      (λ f. f.on_write)
      (pos 5)
      (2 ∷ 3 ∷ 5 ∷ 9 ∷ [])
      (20 ∷ 30 ∷ 50 ∷ 90 ∷ [])
      (backward world (λ f. f.on_write) (pos 5) (2 ∷ 3 ∷ 5 ∷ 9 ∷ []) (20 ∷ 30 ∷ 50 ∷ 90 ∷ []))
backward_example =
    backward-Highest world (λ f. f.on_write) (pos 5) (2 ∷ 3 ∷ 5 ∷ 9 ∷ []) (20 ∷ 30 ∷ 50 ∷ 90 ∷ [])
      refl (omega arith, (omega arith, (omega arith, tt)))

-- The loop on one connection that is always ready to write and has nothing to write.
abbrev polled : ℕ → ℕ → List (ℤ × Bytes) → State
polled d k w = record (with_one connection) { depth = d; clock = k; wire = w }

data Polled : State → Type 0 where
  is_polled : (d k : ℕ) (w : List (ℤ × Bytes)) → Polled (polled d k w)

abbrev ready : Pollfd
ready = record {
  fd = pos 5;
  events = record no_events { pollin = true };
  revents = record no_events { pollout = true };
}

abbrev Returns : ℕ → ℕ → List (ℤ × Bytes) → ℕ → Pollfd → Type 0
Returns d k w idx p =
    (s' : State) × (serve world (idx, p.revents) (polled d k w) ≡ ok tt s') × Polled s'

serve_ready : (d k : ℕ) (w : List (ℤ × Bytes)) → Returns d k w 0 ready
unfolding serve see_to_all sockbuf_got_writable os_write
serve_ready d k w =
    (polled d (suc k) (w ++ (pos 5, []) ∷ []), refl, is_polled d (suc k) (w ++ (pos 5, []) ∷ []))

connection-IsSteady : IsSteady world (0 ∷ []) (ready ∷ []) Polled
connection-IsSteady = record {
  keeps = kept;
  idx_array_is = idxs;
  pollfds_are = fds;
  npollfds_is = one;
}
  where
    idxs : (s : State) → Polled s → s.idx_array ≡ 0 ∷ []
    idxs _ (is_polled d k w) = refl

    fds : (s : State) → Polled s → s.pollfds ≡ ready ∷ []
    fds _ (is_polled d k w) = refl

    one : (s : State) → Polled s → s.npollfds ≡ 1
    one _ (is_polled d k w) = refl

    returned :
        (idx : ℕ) (p : Pollfd) (s s' : State)
        → Polled s
        → ready ≡ p
        → 0 ≡ idx
        → serve world (idx, p.revents) s ≡ ok tt s'
        → Polled s'
    returned idx p _ s' (is_polled d k w) q e ran =
        let (s₁, ran₁, inv) =
          subst (Returns d k w idx) q (subst (λ j. Returns d k w j ready) e (serve_ready d k w)) in
        let same : s₁ ≡ s' = cc in subst Polled same inv

    kept :
        (i idx : ℕ) (p : Pollfd) (s s' : State)
        → Polled s
        → get_elem? (ready ∷ []) i ≡ some p
        → get_elem? (0 ∷ []) i ≡ some idx
        → any_revents p.revents ≡ true
        → serve world (idx, p.revents) s ≡ ok tt s'
        → Polled s'
    kept zero idx p s s' inv at at_idx up ran =
        let e : 0 ≡ idx = ground arith in let q : ready ≡ p = cc in returned idx p s s' inv q e ran
    kept (suc i) idx p s s' inv at at_idx up ran = cc

polled-PollInv : PollInv (polled 1 1 [])
polled-PollInv = record { socks = refl; total = refl; distinct = (tt, tt); paired = (refl, tt) }

update_all_example :
    sockbuf_update_all world 2 (pos 0) (with_one connection)
    ≡ (serve_all world (take 1 (ready_entries (0 ∷ []) (ready ∷ [])))
          >> (update leave >> pure (pos 0)))
        (polled 1 1 [])
unfolding poll_all
update_all_example =
    update_all-serve_all world Polled (pos 0) 2 1 (with_one connection) (polled 1 1 []) refl
      polled-PollInv (is_polled 1 1 []) connection-IsSteady (omega arith)

abbrev deleted : Sockbuf
deleted = deleted_sockbuf

-- One deleted sockbuf more than the count says.
abbrev nearly_left : State
nearly_left = record initial {
  sockbufs = connection ∷ deleted ∷ connection ∷ deleted ∷ deleted ∷ [];
  ndeleted_sockbufs = 2;
  depth = 1;
}

leave_example : Left nearly_left (leave nearly_left)
leave_example = leave-Left nearly_left refl

abbrev busy : Stats
busy = record zero_stats {
  snapshot_in_bytes = 1 ∷ 2 ∷ 3 ∷ 4 ∷ 5 ∷ [];
  snapshot_counter = 3;
  last_snapshot = 100;
}
