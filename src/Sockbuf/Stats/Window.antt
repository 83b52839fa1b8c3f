-- ===== src/Sockbuf/Stats/Window.antt =====
-- The five-second window of c-cpp/onethread/sockbuf.c: `skip_stats` as a whole.
use examples.Common.{
  ap, ◌-◌, ltb, ◌≤◌, ℕ, zero, suc, ◌+◌, ◌<◌, ◌≡◌, ◌∙◌, refl, List, [], ◌∷◌, arith, leb,
  if◌then◌else◌, length, set, replicate, length-set,
}
use examples.Sockbuf.State.{Stats}
use examples.Sockbuf.Stats.{skip_stats, next_second, skip_loop}

-- The counter names one of the five entries of either snapshot.
pub record WindowInv (t : Stats) : Type 0 where
  pub counter : t.snapshot_counter < 5
  pub ins : length t.snapshot_in_bytes ≡ 5
  pub outs : length t.snapshot_out_bytes ≡ 5

abbrev next_place : ℕ → ℕ
next_place c = if leb 5 (c + 1) then 0 else c + 1

-- The entry after `c` is cleared, and so on for `rounds` entries.
abbrev pub wipe : ℕ → ℕ → List ℕ → List ℕ
wipe zero c xs = xs
wipe (suc rounds) c xs = wipe rounds (next_place c) (set xs (next_place c) 0)

abbrev pub advance : ℕ → ℕ → ℕ
advance zero c = c
advance (suc rounds) c = advance rounds (next_place c)

skip_loop-wipe :
    (rounds : ℕ) (t : Stats)
    → skip_loop rounds t ≡ record t {
      snapshot_counter = advance rounds t.snapshot_counter;
      snapshot_in_bytes = wipe rounds t.snapshot_counter t.snapshot_in_bytes;
      snapshot_out_bytes = wipe rounds t.snapshot_counter t.snapshot_out_bytes;
    }
unfolding skip_loop next_second
skip_loop-wipe zero t = refl
skip_loop-wipe (suc rounds) t = skip_loop-wipe rounds (next_second t)

advance-lt : (rounds c : ℕ) → c < 5 → advance rounds c < 5
advance-lt zero c h = h
advance-lt (suc rounds) c h = advance-lt rounds (next_place c) (ground arith)

length-wipe : (rounds c : ℕ) (xs : List ℕ) → length (wipe rounds c xs) ≡ length xs
length-wipe zero c xs = refl
length-wipe (suc rounds) c xs =
    length-wipe rounds (next_place c) (set xs (next_place c) 0) ∙ length-set xs (next_place c) 0

wipe_five : (c : ℕ) (a b d e f : ℕ) → c < 5 → wipe 5 c (a ∷ b ∷ d ∷ e ∷ f ∷ []) ≡ replicate 5 0
wipe_five zero a b d e f h = refl
wipe_five (suc zero) a b d e f h = refl
wipe_five (suc (suc zero)) a b d e f h = refl
wipe_five (suc (suc (suc zero))) a b d e f h = refl
wipe_five (suc (suc (suc (suc zero)))) a b d e f h = refl
wipe_five (suc (suc (suc (suc (suc c))))) a b d e f h = absurd (omega arith)

wipe_all : (c : ℕ) (xs : List ℕ) → c < 5 → length xs ≡ 5 → wipe 5 c xs ≡ replicate 5 0
wipe_all c (a ∷ b ∷ d ∷ e ∷ f ∷ []) h l = wipe_five c a b d e f h
wipe_all c _ h l = absurd (omega arith)

-- `skip_stats` keeps the window in shape. After five seconds or more without a look at the clock
-- the whole window is cleared; within the same second, and at a clock that went back, no entry
-- changes. The bytes read in all are left alone, and the time is noted.
pub skip_stats-window :
    (t : Stats) (curtime : ℕ)
    → WindowInv t
    → WindowInv (skip_stats t curtime)
      × (t.last_snapshot + 5 ≤ curtime
          → ((skip_stats t curtime).snapshot_in_bytes ≡ replicate 5 0)
            × ((skip_stats t curtime).snapshot_out_bytes ≡ replicate 5 0))
      × (curtime ≤ t.last_snapshot → skip_stats t curtime ≡ record t { last_snapshot = curtime })
      × ((skip_stats t curtime).raw_bytes_in ≡ t.raw_bytes_in)
      × ((skip_stats t curtime).last_snapshot ≡ curtime)
unfolding skip_stats
skip_stats-window t curtime inv =
    let rounds = if ltb 5 (curtime - t.last_snapshot) then 5 else curtime - t.last_snapshot in
    let t' : Stats = record t { last_snapshot = curtime } in
    let run = skip_loop-wipe rounds t' in
    (
      rw run (record {
        counter = advance-lt rounds t.snapshot_counter inv.counter;
        ins = length-wipe rounds t.snapshot_counter t.snapshot_in_bytes ∙ inv.ins;
        outs = length-wipe rounds t.snapshot_counter t.snapshot_out_bytes ∙ inv.outs;
      }),
      λ late.
          let five : rounds ≡ 5 = ground arith in
          rw run (
            rw five (
              wipe_all t.snapshot_counter t.snapshot_in_bytes inv.counter inv.ins,
              wipe_all t.snapshot_counter t.snapshot_out_bytes inv.counter inv.outs,
            )),
      λ early. let none_passed : rounds ≡ 0 = ground arith in run ∙ rw none_passed,
      ap (λ (u : Stats). u.raw_bytes_in) run,
      ap (λ (u : Stats). u.last_snapshot) run,
    )
