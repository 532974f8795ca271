-- ===== src/Tests/Caches.antt =====
-- A run that records two clock values (src/lib/debug_clock_cache.c).
use task_clock.Common.{ℕ, ◌≡◌, refl, List, [], ◌∷◌, arith, ulp, rounded}
use task_clock.ClockCache.{ClockCache, done, adjustment, debug_clock_cache_insert}
use task_clock.ClockCache.Replay.{
  inserted, insert_all, get_all, values_from, AllInRange, replay_lem,
}

abbrev empty : ClockCache
empty = record { count = 0; clock_arr = λ _. 0; thread_id = 1 }

abbrev values : List ℕ
values = 100 ∷ 150 ∷ []

abbrev stored : ClockCache
stored = inserted (inserted empty 100) 150

stores : insert_all values empty ≡ done stored
unfolding insert_all debug_clock_cache_insert adjustment ulp rounded
stores = refl

replay_example :
    (get_all values (record stored { count = 0 }) ≡ done (values_from stored.clock_arr 0 values))
    × AllInRange values (values_from stored.clock_arr 0 values)
replay_example = replay_lem values empty stored (ground arith) stores
