-- ===== src/Library/Startup.antt =====
-- The start of a program's clocks, and what the library lets a program read of them
-- (src/lib/determ_clock.c).
use task_clock.Common.{ℕ, ◌+◌, ◌%◌, ◌^◌, ◌≡◌, Bool, false, Option, some, List, [], ◌∷◌}
use task_clock.Group.{UserStatus, add64}
use task_clock.Estimate.{tx_estimate_init}
use task_clock.Library.{
  Info, perf_counter_close, Kernel, Thread, ◌>>=◌, clean_status, sample_period, status,
  determ_task_clock_init_with_id, determ_task_clock_read,
}

-- `struct determ_clock_info`, the memory that the processes share, less the status records, the
-- pointer and the name of the file.
pub record Shared : Type 0 where
  pub id_counter : ℕ
  pub event_debugging : ℕ → ℕ
  pub event_tick_debugging : ℕ → ℕ

-- DETERM_CLOCK_MAX_THREADS, the number of status records
abbrev pub max_threads : ℕ
max_threads = 1024

module _ {K : Type 0} (kernel : Kernel K) where
  -- determ_task_clock_init: the next id, and the memory with the counter one on. The id of a thread
  -- has 32 bits.
  unfoldable pub determ_task_clock_init : Shared → Thread K → Option (Thread K × Shared)
  determ_task_clock_init s t = do
    t' ← determ_task_clock_init_with_id kernel (s.id_counter % 2 ^ 32) t
    some (t', record s { id_counter = add64 s.id_counter 1 })

  -- determ_clock_init, which runs as the library is loaded. `created` is what __create_shared_mem
  -- maps, or none where that ends the program.
  unfoldable pub determ_clock_init :
      (created : Option Shared) → Thread K → Option (Thread K × Shared)
  determ_clock_init created t = do
    s ← created
    determ_task_clock_init (record s { event_debugging = λ i. 0; event_tick_debugging = λ i. 0 }) t

  -- The threads that start their clocks, in the order in which they take an id.
  unfoldable pub init_all : Shared → List (Thread K) → Option (List (Thread K) × Shared)
  init_all s [] = some ([], s)
  init_all s (t ∷ ts) = do
    (t', s₁) ← determ_task_clock_init s t
    (ts', s') ← init_all s₁ ts
    some (t' ∷ ts', s')

  -- determ_task_get_id, determ_debugging_is_disabled, determ_task_clock_in_coarsened_tx,
  -- determ_task_clock_get_coarsened_ticks, determ_task_clock_last_raw_perf and
  -- determ_task_clock_current_raw_perf
  abbrev pub determ_task_get_id : Thread K → ℕ
  determ_task_get_id t = t.info.tid

  abbrev pub determ_debugging_is_disabled : Thread K → Bool
  determ_debugging_is_disabled t = t.info.disabled

  abbrev pub determ_task_clock_in_coarsened_tx : Thread K → Bool
  determ_task_clock_in_coarsened_tx t = t.info.in_coarsened_tx

  abbrev pub determ_task_clock_get_coarsened_ticks : Thread K → ℕ
  determ_task_clock_get_coarsened_ticks t = t.info.coarsened_ticks_counter

  abbrev pub determ_task_clock_last_raw_perf : Thread K → ℕ
  determ_task_clock_last_raw_perf t = t.info.last_raw_perf

  abbrev pub determ_task_clock_current_raw_perf : Thread K → ℕ
  determ_task_clock_current_raw_perf t = t.info.current_raw_perf

  -- determ_task_clock_get_info, determ_task_clock_get_userspace_info and determ_task_clock_close
  abbrev pub determ_task_clock_get_info : Thread K → Info
  determ_task_clock_get_info t = t.info

  abbrev pub determ_task_clock_get_userspace_info : Thread K → UserStatus
  determ_task_clock_get_userspace_info t = status kernel t

  abbrev pub determ_task_clock_close : Thread K → Option (Thread K)
  determ_task_clock_close t = perf_counter_close kernel t

  -- What the kernel writes in the status record; an `int` keeps the low 32 bits.
  abbrev pub determ_debug_notifying_clock_read : Thread K → ℕ
  determ_debug_notifying_clock_read t = (status kernel t).notifying_clock

  abbrev pub determ_debug_notifying_id_read : Thread K → ℕ
  determ_debug_notifying_id_read t = (status kernel t).notifying_id % 2 ^ 32

  abbrev pub determ_debug_notifying_sample_read : Thread K → ℕ
  determ_debug_notifying_sample_read t = (status kernel t).notifying_sample % 2 ^ 32

  abbrev pub determ_debug_notifying_diff_read : Thread K → ℕ
  determ_debug_notifying_diff_read t = (status kernel t).notifying_diff % 2 ^ 32

  abbrev pub determ_task_clock_period_sets : Thread K → ℕ
  determ_task_clock_period_sets t = (status kernel t).period_sets

  abbrev pub determ_task_clock_hit_bounded_fence : Thread K → Bool
  determ_task_clock_hit_bounded_fence t = (status kernel t).hit_bounded_fence

  -- What a thread reads of a clock that has just been started.
  pub record IsStarted (id : ℕ) (t : Thread K) : Type 0 where
    pub named : determ_task_get_id t ≡ id
    pub enabled : determ_debugging_is_disabled t ≡ false
    pub outside : determ_task_clock_in_coarsened_tx t ≡ false
    pub no_coarsened : determ_task_clock_get_coarsened_ticks t ≡ 0
    pub no_ticks : determ_task_clock_read kernel t ≡ 0
    pub untold : (status kernel t).lowest_clock ≡ false
    pub scaled : ((status kernel t).scaling_whole ≡ 1) × ((status kernel t).scaling_fraction ≡ 0)
    pub no_raw : determ_task_clock_last_raw_perf t ≡ 0
    pub stopped : t.info.started ≡ false

  -- The threads are started with the ids from `id` on, each with the next one.
  abbrev pub AllStarted : (id : ℕ) → List (Thread K) → Type 0
  AllStarted id [] = Unit
  AllStarted id (t ∷ ts) = IsStarted id t × AllStarted (id + 1) ts

  -- What the start of a clock relies on: the shared memory and the event can be opened; what is
  -- written to a status record is read back; and neither the system call nor opening the event
  -- touches the ticks in it or tells the thread that it is the lowest.
  pub record IsOpen : Type 0 where
    pub shares : (k : K) → (k' : K) × (kernel.open_shared_mem k ≡ some k')
    pub opens :
        (k : K)
        → (k' : K) × (kernel.perf_event_open sample_period k ≡ some k')
          × ((kernel.status k').ticks ≡ (kernel.status k).ticks)
          × ((kernel.status k').lowest_clock ≡ (kernel.status k).lowest_clock)
    pub makes :
        (tid : ℕ) (k : K)
        → ((kernel.status (kernel.make_clock tid k)).ticks ≡ (kernel.status k).ticks)
          × ((kernel.status (kernel.make_clock tid k)).lowest_clock
              ≡ (kernel.status k).lowest_clock)
    pub written : (u : UserStatus) (k : K) → kernel.status (kernel.put_status u k) ≡ u

  -- The thread before its counter is opened.
  abbrev unopened : (id : ℕ) → Thread K → Thread K
  unopened id t = record {
    info = record (t.info) {
      tid = id;
      disabled = false;
      last_clock_value = 0;
      last_raw_perf = 0;
      coarsened_ticks_counter = 0;
      in_coarsened_tx = false;
      estimator = tx_estimate_init;
    };
    kernel = kernel.make_clock id (kernel.put_status clean_status t.kernel);
  }
