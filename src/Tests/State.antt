-- ===== src/Tests/State.antt =====
-- Two threads: thread 0 runs, and thread 1, whose clock is lower, waits (src/module/clock_main.c).
use task_clock.Common.{
  ℕ, ◌<◌, refl, Bool, true, false, Option, none, some, List, [], ◌∷◌, arith, ◌==◌, if◌then◌else◌,
  ◌∈◌,
}
use task_clock.Listarray.{null, dead, Listarray}
use task_clock.Listarray.Represents.{Represents}
use task_clock.Search.{thread_arr_size, is_active}
use task_clock.Search.Fold.{IsLowestOf}
use task_clock.Search.Lowest.{IsListed}
use task_clock.Handlers.Lists.{IsWellFormed}
use task_clock.Group.{UserStatus, PerfEvent, Entry, Group, Machine, Build, CounterRead, Context}

abbrev pub two : List ℕ
two = 0 ∷ 1 ∷ []

-- The threads 0 and 1, in this order.
abbrev pub two_threads : Listarray
two_threads = record {
  entries = λ i.
      if i == 0
      then record { next = 1; prev = null }
      else if i == 1
      then record { next = null; prev = 0 }
      else record { next = dead; prev = dead };
  head = 0;
  tail = 1;
  count = 2;
  max_index = 1;
}

pub two_threads-Represents : Represents two_threads two
two_threads-Represents = record {
  chain = ground arith;
  last = refl;
  distinct = (refl, (refl, tt));
  others = λ i lt out. ground arith;
  counted = refl;
  bounded = λ i m. ground arith;
}

abbrev pub no_event : PerfEvent
no_event = record {
  count = 0;
  sample_period = 2000;
  period_left = 2000;
  prev_count = 0;
  last_written = 0;
  counter = 0;
}

abbrev pub clean_status : UserStatus
clean_status = record {
  lowest_clock = false;
  ticks = 0;
  notifying_clock = 0;
  notifying_id = 0;
  notifying_sample = 0;
  notifying_diff = 0;
  single_active_thread = false;
  activated_lowest = false;
  scaling_whole = 0;
  scaling_fraction = 0;
  hwc_idx = 0;
  period_sets = 0;
  hit_bounded_fence = false;
}

abbrev pub entry_with : (initialized waiting sleeping : Bool) (ticks count_ticks : ℕ) → Entry
entry_with initialized waiting sleeping ticks count_ticks = record {
  initialized = initialized;
  waiting = waiting;
  sleeping = sleeping;
  inactive = false;
  userspace_reading = false;
  ticks = ticks;
  base_ticks = 0;
  chunk_ticks = 0;
  count_ticks = count_ticks;
  debug_last_overflow_ticks = 0;
  debug_last_enable_ticks = 0;
  event = no_event;
}

-- Thread 0 at 100 ticks, and thread 1 waiting at 50; `asleep` says whether it sleeps too.
abbrev pub clocks : (asleep : Bool) → ℕ → Entry
clocks asleep i =
    if i == 0
    then entry_with true false false 100 1
    else if i == 1
    then entry_with true true asleep 50 0
    else entry_with false false false 0 0

abbrev pub group : (asleep : Bool) (lowest_tid : Option ℕ) (needed : Bool) → Group
group asleep lowest_tid needed = record {
  clocks = clocks asleep;
  lowest_tid = lowest_tid;
  lowest_ticks = 0;
  notification_needed = needed;
  nmi_new_low = false;
  user_status_arr = true;
  active_threads = two_threads;
}

abbrev pub machine : (asleep : Bool) (lowest_tid : Option ℕ) (needed : Bool) → Machine
machine asleep lowest_tid needed = record {
  group = group asleep lowest_tid needed;
  status = λ _. clean_status;
  trap_flag = λ _. false;
  effects = [];
}

abbrev pub build : (bounded_fence : Bool) → Build
build bounded_fence = record {
  bounded_fence = bounded_fence;
  adaptive_period = true;
  instruction_counting = true;
}

abbrev pub reads : List CounterRead
reads =
    record { raw = 5; pmc = 5; nmi_store = some 3 }
    ∷ record { raw = 7; pmc = 7; nmi_store = none }
    ∷ []

-- Thread `current` in a call, or in an interrupt.
abbrev pub context : (bounded_fence : Bool) (current : ℕ) (in_nmi : Bool) → Context
context bounded_fence current in_nmi = record {
  build = build bounded_fence;
  current = current;
  in_nmi = in_nmi;
  reads = reads;
  stack = λ _ _. 0;
}

abbrev pub caller : Context
caller = context false 0 false

abbrev pub interrupt : Context
interrupt = context false 0 true

-- Thread 1 sleeps, and is not the recorded lowest thread yet.
abbrev pub contended : Machine
contended = machine true (some 0) true

-- Thread 1 sleeps, is the recorded lowest thread, and has been told.
abbrev pub stuck : Machine
stuck = machine true (some 1) false

-- Thread 1 is awake.
abbrev pub awake : Machine
awake = machine false (some 0) true

pub two_small : (i : ℕ) → i ∈ two → i < thread_arr_size
two_small i m = ground arith

pub two_lowest :
    (asleep : Bool) (lowest_tid : Option ℕ) (needed : Bool)
    → IsLowestOf
        (group asleep lowest_tid needed)
        (λ j. is_active ((group asleep lowest_tid needed).clocks j))
        two
        (some 1)
two_lowest asleep lowest_tid needed = (refl, refl, λ j m act ne. ground arith)

pub two-IsListed :
    (asleep : Bool) (lowest_tid : Option ℕ) (needed : Bool)
    → IsListed
        (group asleep lowest_tid needed)
        two
        (λ j. is_active ((group asleep lowest_tid needed).clocks j))
two-IsListed asleep lowest_tid needed = λ i le act. ground arith

pub two-IsWellFormed :
    (asleep : Bool) (lowest_tid : Option ℕ) (needed : Bool)
    → IsWellFormed (machine asleep lowest_tid needed) two
two-IsWellFormed asleep lowest_tid needed = record {
  listed = two_threads-Represents;
  active = λ i m. ground arith;
}
