-- ===== src/Counter/Delta.antt =====
-- How many instructions a read of the hardware counter adds to the clock.
use task_clock.Common.{ℕ, ◌+◌, ◌^◌, ◌≤◌, ◌<◌, ◌≡◌, ◌≢◌, none, some, List, [], ◌∷◌, ◌++◌, arith, ok}
use task_clock.Group.{PerfEvent, CounterRead, add64, word}
use task_clock.Counter.{cnt_val, counter_delta, read_performance_counter, set_counter}

-- A 48-bit counter that has counted `d` instructions, fewer than 2 ^ 47, since a previous value
-- whose low 48 bits it stood at: the shifts give `d`, over a wrap of the counter too.
pub counter_delta_forward :
    (prev_raw d : ℕ)
    → prev_raw < word
    → d < 2 ^ 47
    → counter_delta (cnt_val (prev_raw + d)) prev_raw ≡ d
unfolding counter_delta
counter_delta_forward prev_raw d small few = ground arith

-- From 2 ^ 47 on the sign bit is copied, and the difference comes out negative: 2 ^ 48 too small.
pub counter_delta_backward :
    (prev_raw d : ℕ)
    → prev_raw < word
    → 2 ^ 47 ≤ d
    → d < 2 ^ 48
    → add64 (counter_delta (cnt_val (prev_raw + d)) prev_raw) (2 ^ 48) ≡ d
unfolding counter_delta
counter_delta_backward prev_raw d small lo hi = ground arith

-- After the counter was set to overflow after `val` instructions, a read `d` instructions later has
-- a delta of `d`.
pub counter_delta-set_counter :
    (val d : ℕ) (e : PerfEvent)
    → val < word
    → d < 2 ^ 47
    → counter_delta (cnt_val ((set_counter val e).counter + d)) (set_counter val e).prev_count ≡ d
unfolding counter_delta
counter_delta-set_counter val d e small few = ground arith

-- The attempts `rs`, each disturbed by an NMI that stores a new previous count, take the previous
-- count from `p` to `q`.
abbrev pub Disturbed : ℕ → List CounterRead → ℕ → Type 0
Disturbed p [] q = p ≡ q
Disturbed p (r ∷ rs) q = (v : ℕ) × (r.nmi_store ≡ some v) × (p ≢ v) × Disturbed v rs q

-- The read repeats until no NMI interferes, and the previous count that it reports is the one that
-- the last NMI stored, so that no instruction is counted twice.
pub read_performance_counter_lem :
    (rs : List CounterRead) (r : CounterRead) (rest : List CounterRead) (e : PerfEvent) (q : ℕ)
    → Disturbed e.prev_count rs q
    → r.nmi_store ≡ none
    → read_performance_counter (rs ++ (r ∷ rest)) e
      ≡ ok (r.raw, q, r.pmc, record e { prev_count = r.raw })
unfolding read_performance_counter
read_performance_counter_lem [] r rest e q d quiet = ground arith
read_performance_counter_lem (x ∷ rs) r rest e q d quiet =
    ground
      (arith, read_performance_counter_lem rs r rest (record e { prev_count = d.0 }) q d.3 quiet)
