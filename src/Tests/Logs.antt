-- ===== src/Tests/Logs.antt =====
-- The debug log, with two threads and with more than its search has room for (src/module/clock_main.c,
-- src/module/search_entries.h).
use task_clock.Common.{
  ℕ, zero, suc, ◌<◌, ◌≤◌, ◌≡◌, refl, false, none, some, List, [], ◌∷◌, ◌++◌, arith, length,
  has-append, length-append, ◌∈◌, out_of_bounds,
}
use task_clock.Listarray.{max_size, Listarray, init}
use task_clock.Listarray.Represents.{Represents}
use task_clock.Listarray.Insert.{insert-append, init-Represents}
use task_clock.Group.{Group}
use task_clock.Search.Debug.{
  search_for_lowest_waiting_debug, search_for_lowest_waiting_debug_beyond,
}
use task_clock.Module.Snapshots.{
  ClockDebug, DebugLog, clock_debug_overflow, clock_debug_overflow-unfound,
}
use task_clock.Module.Printed.{Recording}
use task_clock.Tests.State.{two, two_threads-Represents, two_small, contended, caller}

abbrev g : Group
g = contended.group

abbrev blank : ClockDebug
blank = record {
  clocks = λ _. 0;
  clocks_computed = λ _. 0;
  initialized = λ _. false;
  sleeping = λ _. false;
  inactive = λ _. false;
  waiting = λ _. false;
  active = λ _. 0;
  new_low = none;
  new_low_computed = none;
  lowest_clock = 0;
  event = 0;
  current_id = 0;
  sample_rate = 0;
  prev_count = 0;
  nmi_new_low = false;
  last_written = 0;
}

abbrev log : DebugLog
log = record { entries = λ _. blank; counter = 7; total = 7 }

-- Nobody waits.
abbrev busy : Group
busy = record g { clocks = λ i. record (g.clocks i) { waiting = false } }

clock_debug_overflow_example : clock_debug_overflow caller busy (some 1) 222 log ≡ out_of_bounds
clock_debug_overflow_example =
    clock_debug_overflow-unfound caller busy two (some 1) 222 log refl two_threads-Represents
      (ground arith) two_small (λ t is. (refl, ground arith))

abbrev recordings : List Recording
recordings =
    record { ctx = caller; group = g; new_low = some 1; event = 222; threads = two; low = 1 }
    ∷ record { ctx = caller; group = g; new_low = none; event = 999; threads = two; low = 1 }
    ∷ []

-- The list of the threads 0 to n - 1.
abbrev upto : ℕ → List ℕ
upto zero = []
upto (suc n) = upto n ++ (n ∷ [])

upto-below : (n i : ℕ) → i ∈ upto n → i < n
upto-below zero i here = ground arith
upto-below (suc n) i here = ground (arith, has-append i (upto n) (n ∷ []), upto-below n i)

length-upto : (n : ℕ) → length (upto n) ≡ n
length-upto zero = refl
length-upto (suc n) = ground (arith, length-append (upto n) (n ∷ []), length-upto n)

listed_upto : (n : ℕ) → n ≤ max_size → (la : Listarray) × Represents la (upto n)
listed_upto zero small = (init, init-Represents)
listed_upto (suc n) small =
    let (la, r) = listed_upto n (omega arith) in
    let (la', runs, r') =
      insert-append la (upto n) n r (omega arith) (ground (arith, upto-below n n)) in
    (la', r')

few_enough : 33 ≤ max_size
few_enough = ground arith

abbrev crowded : Group
crowded = record g { active_threads = (listed_upto 33 few_enough).0 }

search_for_lowest_waiting_debug_beyond_example :
    search_for_lowest_waiting_debug false (λ _. 0) (λ _. 0) crowded ≡ out_of_bounds
search_for_lowest_waiting_debug_beyond_example =
    search_for_lowest_waiting_debug_beyond false (λ _. 0) (λ _. 0) crowded (upto 33)
      (listed_upto 33 few_enough).1 (ground (arith, length-upto 33))
