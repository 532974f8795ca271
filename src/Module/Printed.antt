-- ===== src/Module/Printed.antt =====
-- What the debug log prints of the snapshots that were taken (src/module/clock_main.c).
use task_clock.Common.{
  ℕ, ◌+◌, ◌-◌, ◌≡◌, ◌≤◌, ◌<◌, refl, true, false, Option, some, List, [], ◌∷◌, arith, ltb,
  if◌then◌else◌, length, get_or, ◌∈◌, Result, ok, ◌>>=◌,
}
use task_clock.Listarray.Represents.{Represents}
use task_clock.Group.{Group, Context, get_clock_ticks}
use task_clock.Search.{thread_arr_size, is_active}
use task_clock.Search.Fold.{IsLowestOf, IsLowestOf_unique}
use task_clock.Search.Lowest.{lowest, lowest-IsLowestOf}
use task_clock.Search.Debug.{active_size, debug_note}
use task_clock.Module.Snapshots.{
  snapshot, ClockDebug, DebugLog, max_entries, push, clock_debug_overflow, clock_debug_overflow_lem,
  slice, print_last_n,
}

-- A call of `__clock_debug_overflow`, with its group and arguments, the threads that are listed in the
-- group, and one of them.
pub record Recording : Type 0 where
  pub ctx : Context
  pub group : Group
  pub new_low : Option ℕ
  pub event : ℕ
  pub threads : List ℕ
  pub low : ℕ

-- The call is outside NMI context, its threads fit the arrays of the search, and the lowest of those
-- that are active waits.
pub record IsLoggable (c : Recording) : Type 0 where
  pub outside : c.ctx.in_nmi ≡ false
  pub listed : Represents c.group.active_threads c.threads
  pub few : length c.threads ≤ active_size
  pub small : (i : ℕ) → i ∈ c.threads → i < thread_arr_size
  pub is_lowest : IsLowestOf c.group (λ j. is_active (c.group.clocks j)) c.threads (some c.low)
  pub waits : (c.group.clocks c.low).waiting ≡ true

-- What an entry of the ring is to say of a call.
pub record Describes (c : Recording) (e : ClockDebug) : Type 0 where
  pub clocks : (i : ℕ) → e.clocks i ≡ get_clock_ticks c.group i
  pub clocks_computed : (i : ℕ) → e.clocks_computed i ≡ get_clock_ticks c.group c.low
  pub initialized : (i : ℕ) → e.initialized i ≡ (c.group.clocks i).initialized
  pub sleeping : (i : ℕ) → e.sleeping i ≡ (c.group.clocks i).sleeping
  pub inactive : (i : ℕ) → e.inactive i ≡ (c.group.clocks i).inactive
  pub waiting : (i : ℕ) → e.waiting i ≡ (c.group.clocks i).waiting
  pub active :
      (i : ℕ) → i < length c.threads → e.active i ≡ debug_note c.group (get_or 0 c.threads i)
  pub new_low : e.new_low ≡ c.new_low
  pub new_low_computed : e.new_low_computed ≡ some c.low
  pub lowest_clock : e.lowest_clock ≡ c.group.lowest_ticks
  pub event : e.event ≡ c.event
  pub current_id : e.current_id ≡ c.ctx.current
  pub sample_rate : e.sample_rate ≡ (c.group.clocks c.ctx.current).event.sample_period
  pub prev_count : e.prev_count ≡ (c.group.clocks c.ctx.current).event.count
  pub nmi_new_low : e.nmi_new_low ≡ c.group.nmi_new_low
  pub last_written : e.last_written ≡ (c.group.clocks c.ctx.current).event.last_written

abbrev pub AllLoggable : List Recording → Type 0
AllLoggable [] = Unit
AllLoggable (c ∷ calls) = IsLoggable c × AllLoggable calls

-- As many entries as calls, each of which describes its call
abbrev pub AllDescribed : List Recording → List ClockDebug → Type 0
AllDescribed [] [] = Unit
AllDescribed [] (e ∷ es) = ⊥
AllDescribed (c ∷ calls) [] = ⊥
AllDescribed (c ∷ calls) (e ∷ es) = Describes c e × AllDescribed calls es

unfoldable pub record_all : List Recording → DebugLog → Result DebugLog
record_all [] log = ok log
record_all (c ∷ calls) log =
    clock_debug_overflow c.ctx c.group c.new_low c.event log >>= λ log₁. record_all calls log₁

-- A snapshot that describes the call is pushed.
overflow-Describes :
    (c : Recording) (log : DebugLog)
    → IsLoggable c
    → (e : ClockDebug) × (clock_debug_overflow c.ctx c.group c.new_low c.event log
        ≡ ok (push c.ctx e log))
      × Describes c e
overflow-Describes c log is =
    let (notes, noted, runs) =
      clock_debug_overflow_lem c.ctx c.group c.threads c.new_low c.event log is.outside is.listed
        is.few is.small in
    let found : lowest c.group c.threads ≡ some c.low =
      IsLowestOf_unique c.group (λ j. is_active (c.group.clocks j)) c.threads
        (lowest c.group c.threads) (some c.low) (lowest-IsLowestOf c.group c.threads)
        is.is_lowest in
    (
      snapshot c.ctx c.group c.new_low c.event c.low notes,
      rw (runs, found, is.waits) refl,
      record {
        clocks = λ i. refl;
        clocks_computed = λ i. refl;
        initialized = λ i. refl;
        sleeping = λ i. refl;
        inactive = λ i. refl;
        waiting = λ i. refl;
        active = noted;
        new_low = refl;
        new_low_computed = refl;
        lowest_clock = refl;
        event = refl;
        current_id = refl;
        sample_rate = refl;
        prev_count = refl;
        nmi_new_low = refl;
        last_written = refl;
      },
    )

record Recorded (calls : List Recording) (log log' : DebugLog) : Type 0 where
  counted : log'.counter ≡ log.counter + length calls
  before : (i : ℕ) → i < log.counter → log'.entries i ≡ log.entries i
  listed : AllDescribed calls (slice log'.entries log.counter (length calls))

-- After a snapshot that brings the ring to its end nothing is printed.
pub print_last_n-wrapped :
    (c : Recording) (log : DebugLog) (n : ℕ)
    → IsLoggable c
    → log.counter + 1 ≡ max_entries
    → (log' : DebugLog) × (clock_debug_overflow c.ctx c.group c.new_low c.event log ≡ ok log')
      × (print_last_n n log' ≡ [])
print_last_n-wrapped c log n is full =
    let (e, runs, told) = overflow-Describes c log is in
    let log' = push c.ctx e log in
    let zeroed : log'.counter ≡ 0 = ground (arith, full) in
    let left : log'.counter - (if ltb n log'.counter then log'.counter - n else 0) ≡ 0 =
      ground (arith, zeroed) in
    (log', runs, rw left refl)
