-- ===== src/Group.antt =====
-- The state that the kernel module keeps for a group of threads, and the macros over it
-- (src/module/utility.h). `struct task_clock_group_info`, `task_clock_entry_info` and `perf_event`
-- are declared in kernel headers; the records hold the fields that the module uses. A field that is
-- only ever assigned 0 and 1 is a `Bool`; a thread id that may be -1 is an `Option ℕ`; a tick count
-- is a 64-bit word, as `struct task_clock_user_status` declares it and as it is printed.
use task_clock.Common.{
  ℕ, ◌+◌, ◌-◌, ◌%◌, ◌^◌, Bool, true, false, not, ◌&&◌, ◌||◌, Option, List, ◌∷◌, ltb, ◌==◌,
  if◌then◌else◌, update, Result, ok, ◌>>=◌,
}
use task_clock.Listarray.{Listarray, remove, insert}

abbrev pub word : ℕ
word = 2 ^ 64

-- uint64_t addition and subtraction
abbrev pub add64 : ℕ → ℕ → ℕ
add64 a b = (a + b) % word

abbrev pub sub64 : ℕ → ℕ → ℕ
sub64 a b = (a + word - b) % word

-- `struct task_clock_user_status`, the page that user space and the kernel share
pub record UserStatus : Type 0 where
  pub lowest_clock : Bool
  pub ticks : ℕ
  pub notifying_clock : ℕ
  pub notifying_id : ℕ
  pub notifying_sample : ℕ
  pub notifying_diff : ℕ
  pub single_active_thread : Bool
  pub activated_lowest : Bool
  pub scaling_whole : ℕ
  pub scaling_fraction : ℕ
  pub hwc_idx : ℕ
  pub period_sets : ℕ
  pub hit_bounded_fence : Bool

-- What the module uses of a `struct perf_event` and its `hw`; `counter` is the value last written
-- to the model specific register of the hardware counter.
pub record PerfEvent : Type 0 where
  pub count : ℕ
  pub sample_period : ℕ
  pub period_left : ℕ
  pub prev_count : ℕ
  pub last_written : ℕ
  pub counter : ℕ

-- `struct task_clock_entry_info`
pub record Entry : Type 0 where
  pub initialized : Bool
  pub waiting : Bool
  pub sleeping : Bool
  pub inactive : Bool
  pub userspace_reading : Bool
  pub ticks : ℕ
  pub base_ticks : ℕ
  pub chunk_ticks : ℕ
  pub count_ticks : ℕ
  pub debug_last_overflow_ticks : ℕ
  pub debug_last_enable_ticks : ℕ
  pub event : PerfEvent

-- `struct task_clock_group_info`; `user_status_arr` says whether the pointer is not NULL.
pub record Group : Type 0 where
  pub clocks : ℕ → Entry
  pub lowest_tid : Option ℕ
  pub lowest_ticks : ℕ
  pub notification_needed : Bool
  pub nmi_new_low : Bool
  pub user_status_arr : Bool
  pub active_threads : Listarray

-- What the module asks of the rest of the kernel.
pub data Effect : Type 0 where
  wake_up_all : ℕ → Effect  -- POLL_IN and `wake_up_all` on the event of a thread
  force_sig : ℕ → Effect  -- SIGUSR1 to a thread
  queue_irq_work : Effect  -- `pending_work`, to run outside NMI context

-- The machine as the module sees it: the group, the status record of each thread (the kernel's
-- `user_status_arr[t]` and the thread's own `user_status` are one object), the trap flag in the
-- saved user registers of each thread, and the requests made so far, latest first.
pub record Machine : Type 0 where
  pub group : Group
  pub status : ℕ → UserStatus
  pub trap_flag : ℕ → Bool
  pub effects : List Effect

-- The three build options: USE_BOUNDED_FENCE, USE_ADAPTIVE_OVERFLOW_PERIOD, and the absence of
-- NO_INSTRUCTION_COUNTING.
pub record Build : Type 0 where
  pub bounded_fence : Bool
  pub adaptive_period : Bool
  pub instruction_counting : Bool

-- One attempt of `__read_performance_counter`: what `rdmsrl` and `rdpmc` return, and what an NMI
-- stores to `prev_count` between the read of it and the compare-exchange, if one fires there.
pub record CounterRead : Type 0 where
  pub raw : ℕ
  pub pmc : ℕ
  pub nmi_store : Option ℕ

-- Where a handler runs: `current`, the context, what the hardware counter will read, and what the
-- uninitialised local array of the n-th search holds.
pub record Context : Type 0 where
  pub build : Build
  pub current : ℕ
  pub in_nmi : Bool
  pub reads : List CounterRead
  pub stack : ℕ → ℕ → ℕ

abbrev pub entry : Machine → ℕ → Entry
entry m tid = m.group.clocks tid

-- `group_info->clocks[tid]` and `group_info->user_status_arr[tid]` written.
abbrev pub put_entry : Machine → ℕ → Entry → Machine
put_entry m tid e = record m { group = record (m.group) { clocks = update m.group.clocks tid e } }

abbrev pub put_status : Machine → ℕ → UserStatus → Machine
put_status m tid s = record m { status = update m.status tid s }

abbrev pub emit : Machine → Effect → Machine
emit m x = record m { effects = x ∷ m.effects }

-- __get_clock_ticks
abbrev pub get_clock_ticks : Group → ℕ → ℕ
get_clock_ticks g tid = add64 (g.clocks tid).ticks (g.clocks tid).base_ticks

-- __clock_is_lower
abbrev pub clock_is_lower : Group → ℕ → ℕ → Bool
clock_is_lower g tid₁ tid₂ =
    ltb (get_clock_ticks g tid₁) (get_clock_ticks g tid₂)
    || ((get_clock_ticks g tid₁ == get_clock_ticks g tid₂) && ltb tid₁ tid₂)

-- __min and __max
abbrev pub min_of : ℕ → ℕ → ℕ
min_of a b = if ltb a b then a else b

abbrev pub max_of : ℕ → ℕ → ℕ
max_of a b = if ltb b a then a else b

-- __inc_clock_ticks_no_chunk_add
abbrev pub inc_clock_ticks_no_chunk_add : Machine → ℕ → ℕ → Machine
inc_clock_ticks_no_chunk_add m tid val =
    put_entry m tid (record (entry m tid) { ticks = add64 (entry m tid).ticks val })

module _ (ctx : Context) where
  -- __tick_counter_turn_off, __tick_counter_turn_on, __tick_counter_is_running
  abbrev pub tick_counter_turn_off : Machine → Machine
  tick_counter_turn_off m =
      put_entry m ctx.current (record (entry m ctx.current) { count_ticks = 0 })

  abbrev pub tick_counter_turn_on : Machine → Machine
  tick_counter_turn_on m =
      put_entry m ctx.current (record (entry m ctx.current) { count_ticks = 1 })

  abbrev pub tick_counter_is_running : Machine → Bool
  tick_counter_is_running m = ltb 0 (entry m ctx.current).count_ticks

  -- __hit_bounded_fence_enable, __hit_bounded_fence_disable and __hit_bounded_fence, which are
  -- empty without USE_BOUNDED_FENCE
  abbrev pub set_hit_bounded_fence : Bool → Machine → Machine
  set_hit_bounded_fence b m =
      if ctx.build.bounded_fence
      then put_status m ctx.current (record (m.status ctx.current) { hit_bounded_fence = b })
      else m

  abbrev pub hit_bounded_fence : Machine → Bool
  hit_bounded_fence m = ctx.build.bounded_fence && (m.status ctx.current).hit_bounded_fence

  -- __clear_entry_state
  abbrev pub clear_entry_state : Machine → Machine
  clear_entry_state m = set_hit_bounded_fence false (
      put_entry m ctx.current
        (record (entry m ctx.current) { inactive = false; waiting = false; sleeping = false }))

  -- __clear_entry_state_by_id: the flag of the fence is that of the calling thread.
  abbrev pub clear_entry_state_by_id : ℕ → Machine → Machine
  clear_entry_state_by_id id m =
      put_status
        (put_entry m id
          (record (entry m id) { inactive = false; waiting = false; sleeping = false }))
        ctx.current (record (m.status ctx.current) { hit_bounded_fence = false })

  -- __current_is_only_active_thread
  abbrev pub current_is_only_active_thread : Machine → Bool
  current_is_only_active_thread m =
      (m.group.active_threads.count == 1) && not (entry m ctx.current).inactive

-- __reset_chunk_ticks
abbrev pub reset_chunk_ticks : ℕ → Machine → Machine
reset_chunk_ticks tid m = put_entry m tid (record (entry m tid) { chunk_ticks = 0 })

-- __mark_as_inactive and __mark_as_active
unfoldable pub mark_as_inactive : ℕ → Machine → Result Machine
mark_as_inactive id m = do
  let g = (put_entry m id (record (entry m id) { inactive = true })).group
  la ← remove g.active_threads id
  ok (record m { group = record g { active_threads = la } })

unfoldable pub mark_as_active : ℕ → Machine → Result Machine
mark_as_active id m = do
  let g = (put_entry m id (record (entry m id) { inactive = false })).group
  la ← insert g.active_threads id
  ok (record m { group = record g { active_threads = la } })
