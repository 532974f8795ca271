-- ===== src/Module/Snapshots.antt =====
-- The debug log of the module: snapshots of the group in a ring, and the part of the ring that is
-- printed (src/module/clock_main.c). What is handed to `printk` is the result of a definition here.
use task_clock.Common.{
  ℕ, zero, suc, ◌+◌, ◌-◌, ◌%◌, ◌≡◌, ◌≢◌, arith, ◌≤◌, ◌<◌, refl, Bool, false, Option, none, some,
  List, [], ◌∷◌, ltb, if◌then◌else◌, ◌==◌, ◌^◌, length, get_or, ◌∈◌, Result, ok, out_of_bounds,
  ◌>>=◌,
}
use task_clock.Listarray.Represents.{Represents}
use task_clock.Group.{Group, Context, get_clock_ticks}
use task_clock.Search.{thread_arr_size, is_active, search_for_lowest_waiting}
use task_clock.Search.Fold.{IsLowestOf}
use task_clock.Search.Lowest.{lowest, lowest-IsLowestOf}
use task_clock.Search.Waiting.{waiting_result, search_for_lowest_waiting_lem}
use task_clock.Search.Debug.{
  active_size, debug_note, search_for_lowest_waiting_debug, search_for_lowest_waiting_debug_lem,
}

-- `struct clock_debug`, less `current_is_lowest`, which is never used. -1 is `none`.
pub record ClockDebug : Type 0 where
  pub clocks : ℕ → ℕ
  pub clocks_computed : ℕ → ℕ
  pub initialized : ℕ → Bool
  pub sleeping : ℕ → Bool
  pub inactive : ℕ → Bool
  pub waiting : ℕ → Bool
  pub active : ℕ → ℕ
  pub new_low : Option ℕ
  pub new_low_computed : Option ℕ
  pub lowest_clock : ℕ
  pub event : ℕ
  pub current_id : ℕ
  pub sample_rate : ℕ
  pub prev_count : ℕ
  pub nmi_new_low : Bool
  pub last_written : ℕ

-- clock_debug_max_entries
abbrev pub max_entries : ℕ
max_entries = 5000

-- `clock_debug_overflow`, `debug_counter_overflow` and `__debug_counter_overflow`
pub record DebugLog : Type 0 where
  pub entries : ℕ → ClockDebug
  pub counter : ℕ
  pub total : ℕ

module _ (ctx : Context) where
  -- The entry that is written, with the lowest waiting thread that was found and the notes of the
  -- search. The arrays have one element for each of the first 24 threads.
  abbrev pub snapshot :
      Group → (new_low : Option ℕ) → (event : ℕ) → (computed : ℕ) → (active : ℕ → ℕ) → ClockDebug
  snapshot g new_low event computed active = record {
    clocks = λ i. get_clock_ticks g i;
    clocks_computed = λ i. get_clock_ticks g computed;
    initialized = λ i. (g.clocks i).initialized;
    sleeping = λ i. (g.clocks i).sleeping;
    inactive = λ i. (g.clocks i).inactive;
    waiting = λ i. (g.clocks i).waiting;
    active = active;
    new_low = new_low;
    new_low_computed = some computed;
    lowest_clock = g.lowest_ticks;
    event = event;
    current_id = ctx.current;
    sample_rate = (g.clocks ctx.current).event.sample_period;
    prev_count = (g.clocks ctx.current).event.count;
    nmi_new_low = g.nmi_new_low;
    last_written = (g.clocks ctx.current).event.last_written;
  }

  abbrev pub push : ClockDebug → DebugLog → DebugLog
  push e log = record {
    entries = λ i. if i == log.counter then e else log.entries i;
    counter = (log.counter + 1) % max_entries;
    total = (log.total + 1) % 2 ^ 32;
  }

  -- __clock_debug_overflow. If no lowest waiting thread is found, the clock at index -1 is read.
  unfoldable pub clock_debug_overflow :
      Group → (new_low : Option ℕ) → (event : ℕ) → DebugLog → Result DebugLog
  clock_debug_overflow g new_low event log =
      search_for_lowest_waiting_debug ctx.in_nmi (ctx.stack 0) (log.entries log.counter).active g
      >>= λ (computed, notes). elim computed [
        | none ↦ out_of_bounds
        | some low ↦ ok (push (snapshot g new_low event low notes.debug_arr) log)
      ]

  -- With at most 32 threads in the list, all with ids below 128, and outside NMI context, a snapshot
  -- depends on the list only by the result of the search and its notes.
  pub clock_debug_overflow_lem :
      (g : Group) (xs : List ℕ) (new_low : Option ℕ) (event : ℕ) (log : DebugLog)
      → ctx.in_nmi ≡ false
      → Represents g.active_threads xs
      → length xs ≤ active_size
      → ((i : ℕ) → i ∈ xs → i < thread_arr_size)
      → (notes : ℕ → ℕ) × ((i : ℕ) → i < length xs → notes i ≡ debug_note g (get_or 0 xs i))
        × (clock_debug_overflow g new_low event log
            ≡ (elim (waiting_result g (ctx.stack 0) (lowest g xs)) [
              | none ↦ out_of_bounds
              | some low ↦ ok (push (snapshot g new_low event low notes) log)
            ]))
  unfolding clock_debug_overflow
  clock_debug_overflow_lem g xs new_low event log outside r few small =
      let (notes, runs, noted) =
        search_for_lowest_waiting_debug_lem false (ctx.stack 0) (log.entries log.counter).active g
          xs r few in
      (
        notes.debug_arr,
        noted,
        rw (outside, runs, search_for_lowest_waiting_lem g xs r (ctx.stack 0) small) refl,
      )

  -- With at most 32 threads in the list, all with ids below 128, and outside NMI context, a snapshot
  -- reads outside of the group's clocks if no active thread is listed, and if the lowest active thread
  -- does not wait and the uninitialised array of the search does not hold 1 for it.
  pub clock_debug_overflow-unfound :
      (g : Group) (xs : List ℕ) (new_low : Option ℕ) (event : ℕ) (log : DebugLog)
      → ctx.in_nmi ≡ false
      → Represents g.active_threads xs
      → length xs ≤ active_size
      → ((i : ℕ) → i ∈ xs → i < thread_arr_size)
      → ((t : ℕ)
          → IsLowestOf g (λ j. is_active (g.clocks j)) xs (some t)
          → ((g.clocks t).waiting ≡ false) × (ctx.stack 0 t ≢ 1))
      → clock_debug_overflow g new_low event log ≡ out_of_bounds
  clock_debug_overflow-unfound g xs new_low event log outside r few small idle =
      let (notes, noted, runs) =
        clock_debug_overflow_lem g xs new_low event log outside r few small in
      rw (runs, unfound (lowest g xs) (lowest-IsLowestOf g xs)) refl
    where
      unfound :
          (low : Option ℕ)
          → IsLowestOf g (λ j. is_active (g.clocks j)) xs low
          → waiting_result g (ctx.stack 0) low ≡ none
      unfound none is = refl
      unfound (some t) is = ground (arith, idle t is)

-- The entries from `i` on, `count` of them
abbrev pub slice : (ℕ → ClockDebug) → (i count : ℕ) → List ClockDebug
slice entries i zero = []
slice entries i (suc count) = entries i ∷ slice entries (i + 1) count

-- What __clock_debug_print_last_n prints, and what __clock_debug_print_overflow does.
abbrev pub print_last_n : (n : ℕ) → DebugLog → List ClockDebug
print_last_n n log =
    let i = if ltb n log.counter then log.counter - n else 0 in
    slice log.entries i (log.counter - i)

abbrev pub print_overflow : DebugLog → List ClockDebug
print_overflow log = slice log.entries 0 log.counter

-- task_clock_debug_add_event, whose body is commented out
abbrev pub task_clock_debug_add_event : (event : ℕ) → DebugLog → DebugLog
task_clock_debug_add_event event log = log

-- The counters as `init_module` leaves them.
abbrev pub reset_log : DebugLog → DebugLog
reset_log log = record log { counter = 0; total = 0 }

-- What `__debug_print` prints of a thread.
pub record ThreadLine : Type 0 where
  pub tid : ℕ
  pub ticks : ℕ
  pub inactive : Bool
  pub initialized : Bool
  pub waiting : Bool
  pub sleeping : Bool

-- The threads from `i` on, `count` of them
abbrev pub thread_lines : Group → (i count : ℕ) → List ThreadLine
thread_lines g i zero = []
thread_lines g i (suc count) =
    record {
      tid = i;
      ticks = get_clock_ticks g i;
      inactive = (g.clocks i).inactive;
      initialized = (g.clocks i).initialized;
      waiting = (g.clocks i).waiting;
      sleeping = (g.clocks i).sleeping;
    }
    ∷ thread_lines g (i + 1) count

-- __debug_print: the first seven threads, and the thread that the search finds.
unfoldable pub debug_print : Context → Group → Result (List ThreadLine × Option ℕ)
debug_print ctx g = do
  new_low ← search_for_lowest_waiting ctx.in_nmi (ctx.stack 0) g
  ok (thread_lines g 0 7, new_low)
