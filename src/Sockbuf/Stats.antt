-- ===== src/Sockbuf/Stats.antt =====
-- The statistics helpers at the end of c-cpp/onethread/sockbuf.c. The snapshots are C `int`s, which
-- the model does not bound; the byte counters wrap at 2 ^ 64.
pub mod Window
use examples.Common.{
  ℕ, zero, suc, ◌+◌, ◌-◌, ◌*◌, ◌/◌, ◌%◌, ◌^◌, Option, none, some, List, [], ◌∷◌, ltb, leb, ◌==◌,
  if◌then◌else◌, set, modify_at, get_elem?, Bool, not,
}
use examples.Sockbuf.State.{Stats}

abbrev pub add_u64 : ℕ → ℕ → ℕ
add_u64 a b = (a + b) % 2 ^ 64

unfoldable pub stats_out : Stats → ℕ → Stats
stats_out t len = record t {
  raw_bytes_out = add_u64 t.raw_bytes_out len;
  snapshot_out_bytes = modify_at (λ n. n + len) t.snapshot_counter t.snapshot_out_bytes;
}

unfoldable pub stats_in : Stats → ℕ → Stats
stats_in t len = record t {
  raw_bytes_in = add_u64 t.raw_bytes_in len;
  snapshot_in_bytes = modify_at (λ n. n + len) t.snapshot_counter t.snapshot_in_bytes;
}

-- One round of the loop in `skip_stats`.
unfoldable pub next_second : Stats → Stats
next_second t =
    let c = if leb 5 (t.snapshot_counter + 1) then 0 else t.snapshot_counter + 1 in
    record t {
      snapshot_counter = c;
      snapshot_out_bytes = set t.snapshot_out_bytes c 0;
      snapshot_in_bytes = set t.snapshot_in_bytes c 0;
    }

unfoldable pub skip_loop : ℕ → Stats → Stats
skip_loop zero t = t
skip_loop (suc rounds) t = skip_loop rounds (next_second t)

-- `diff` is an `int`: at a clock that went back the loop makes no round, as `-` on ℕ gives 0.
unfoldable pub skip_stats : Stats → ℕ → Stats
unfolding skip_loop
skip_stats t curtime =
    let diff = curtime - t.last_snapshot in
    skip_loop (if ltb 5 diff then 5 else diff) (record t { last_snapshot = curtime })

unfoldable pub sum : List ℕ → ℕ
sum [] = 0
sum (x ∷ xs) = x + sum xs

-- The sum of the snapshot entries but that of the current second.
unfoldable pub sum_but : ℕ → List ℕ → ℕ
unfolding sum
sum_but c [] = 0
sum_but zero (x ∷ xs) = sum xs
sum_but (suc c) (x ∷ xs) = x + sum_but c xs

clamp_secs : ℕ → ℕ
clamp_secs nsecs = if ltb 4 nsecs then 4 else if ltb 1 nsecs then nsecs - 1 else 1

-- `nsecs` is read before anything is written to it: its value is a parameter, and so is the time.
-- A division by zero is `none`. The values written to the `int` rates are those of the quotients
-- that fit.
unfoldable pub update_stats : (nsecs curtime : ℕ) → Stats → Option Stats
unfolding clamp_secs
update_stats nsecs curtime t =
    if nsecs == 0
    then none
    else let totals : Stats = record t {
      total_in_cps = t.raw_bytes_in / nsecs;
      total_out_cps = t.raw_bytes_out / nsecs;
    } in
      let skipped = skip_stats totals curtime in
      some (record skipped {
        snapshot_in_cps =
            sum_but skipped.snapshot_counter skipped.snapshot_in_bytes / clamp_secs nsecs;
        snapshot_out_cps =
            sum_but skipped.snapshot_counter skipped.snapshot_out_bytes / clamp_secs nsecs;
      })
