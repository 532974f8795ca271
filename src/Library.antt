-- ===== src/Library.antt =====
-- The library that a program is linked with (src/lib/determ_clock.c, src/lib/perf_counter.c). The
-- kernel, the hardware counter and the other threads are a parameter, `Kernel`, over a state of its
-- own; the status record of the thread is a part of that state, since the kernel writes it. `none`
-- stands for `exit(EXIT_FAILURE)`.
pub mod Waiting
pub mod Sections
pub mod Turns
pub mod Wait
pub mod Coarsened
pub mod Composed
pub mod Startup
pub mod Counted
pub mod Granted
use task_clock.Common.{
  ℕ, zero, suc, ◌+◌, ◌-◌, ◌*◌, ◌/◌, ◌%◌, ◌^◌, Bool, true, false, not, ◌&&◌, ◌||◌, Option, none,
  some, ltb, ◌==◌, if◌then◌else◌, update,
}
use task_clock.Group.{UserStatus, word, add64, sub64}
use task_clock.Estimate.{
  Estimate, tx_estimate_init, tx_estimate_add_observation, tx_estimate_next_observation_guess,
}

-- The requests of `ioctl`, PERF_EVENT_IOC_..., and the operations of __sys_task_clock_do
pub data Request : Type 0 where
  enable disable : Request
  reset wait sleep woke_up activate activate_other add_ticks halt : Request
  clock_start clock_stop : Request

pub data Operation : Type 0 where
  op_stop op_start op_start_coarsened : Operation

-- What the library asks of the rest of the system: a request with its argument, and whether `ioctl`
-- returned 0; the two system calls; `poll` on the event of the thread; the value that `rdpmc` reads
-- of a hardware counter; the status record; and what happens between two looks at it in a loop.
pub record Kernel (K : Type 0) : Type 0 where
  pub ioctl : Request → ℕ → K → Bool × K
  pub task_clock_do : Operation → K → K
  pub make_clock : (tid : ℕ) → K → K
  pub poll : K → K
  pub rdpmc : (index : ℕ) → K → ℕ × K
  pub status : K → UserStatus
  pub put_status : UserStatus → K → K
  pub pass : K → K
  pub open_shared_mem : K → Option K
  pub perf_event_open : (sample_period : ℕ) → K → Option K
  pub x86_64 : Bool
  pub instruction_counting : Bool
  pub out_of_range : ℕ → ℕ

-- `struct determ_task_clock_info`, less the pointers; `started` is that of its `perf_counter`.
pub record Info : Type 0 where
  pub tid : ℕ
  pub started : Bool
  pub disabled : Bool
  pub last_clock_value : ℕ
  pub coarsened_ticks_counter : ℕ
  pub estimator : ℕ → Estimate
  pub in_coarsened_tx : Bool
  pub last_raw_perf : ℕ
  pub current_raw_perf : ℕ

-- A thread: its `task_clock_info`, and the rest of the system as it finds it.
pub record Thread (K : Type 0) : Type 0 where
  pub info : Info
  pub kernel : K

-- A step that may end the program, and the next.
infixl 5 ◌>>=◌
abbrev pub ◌>>=◌ {ℓ ℓ'} : {X : Type ℓ} {Y : Type ℓ'} → Option X → (X → Option Y) → Option Y
none >>= rest = none
some x >>= rest = rest x

abbrev pub clean_status : UserStatus
clean_status = record {
  lowest_clock = false;
  ticks = 0;
  notifying_clock = 0;
  notifying_id = 0;
  notifying_sample = 0;
  notifying_diff = 0;
  single_active_thread = false;
  activated_lowest = false;
  scaling_whole = 0;
  scaling_fraction = 0;
  hwc_idx = 0;
  period_sets = 0;
  hit_bounded_fence = false;
}

-- MAX_SPIN_INT and DETERM_CLOCK_SAMPLE_PERIOD
abbrev pub max_spin_int : ℕ
max_spin_int = 1000

abbrev pub sample_period : ℕ
sample_period = 5000

module _ {K : Type 0} (kernel : Kernel K) where
  abbrev pub status : Thread K → UserStatus
  status t = kernel.status t.kernel

  abbrev pub put_status : UserStatus → Thread K → Thread K
  put_status u t = record t { kernel = kernel.put_status u t.kernel }

  abbrev pub put_disabled : Bool → Thread K → Thread K
  put_disabled b t = record t { info = record (t.info) { disabled = b } }

  abbrev pub put_started : Bool → Thread K → Thread K
  put_started b t = record t { info = record (t.info) { started = b } }

  abbrev pub clear_lowest : Thread K → Thread K
  clear_lowest t = put_status (record (status t) { lowest_clock = false }) t

  -- A request that has to return 0.
  abbrev pub request : Request → ℕ → Thread K → Option (Thread K)
  request r arg t =
      let (returned, k) = kernel.ioctl r arg t.kernel in
      if returned then some (record t { kernel = k }) else none

  abbrev pub task_clock_do : Operation → Thread K → Thread K
  task_clock_do op t = record t { kernel = kernel.task_clock_do op t.kernel }

  -- perf_counter_start, perf_counter_stop and perf_counter_close
  unfoldable pub perf_counter_start : Thread K → Option (Thread K)
  perf_counter_start t = do
    t₁ ← request (if kernel.instruction_counting then enable else clock_start) 0 t
    some (put_started true t₁)

  unfoldable pub perf_counter_stop : Thread K → Option (Thread K)
  perf_counter_stop t = do
    t₁ ← request (if kernel.instruction_counting then disable else clock_stop) 0 t
    some (put_started false t₁)

  unfoldable pub perf_counter_close : Thread K → Option (Thread K)
  perf_counter_close t = request disable 0 t

  unfoldable pub perf_counter_init : (sample_period : ℕ) → Thread K → Option (Thread K)
  perf_counter_init sample_period t = do
    k ← kernel.perf_event_open sample_period t.kernel
    some (put_started false (record t { kernel = k }))

  unfoldable pub determ_task_set_scaling_factor : (whole fraction : ℕ) → Thread K → Thread K
  determ_task_set_scaling_factor whole fraction t =
      put_status
        (record (status t) { scaling_whole = whole % 2 ^ 8; scaling_fraction = fraction % 2 ^ 8 }) t

  -- What follows the mapping of the shared memory in `determ_task_clock_init_with_id`.
  unfoldable pub init_clock : (id : ℕ) → Thread K → Option (Thread K)
  init_clock id t =
      let t₁ = put_status clean_status t in
      let t₂ = record t₁ {
        info = record (t₁.info) {
          tid = id;
          disabled = false;
          last_clock_value = 0;
          last_raw_perf = 0;
          coarsened_ticks_counter = 0;
          in_coarsened_tx = false;
          estimator = tx_estimate_init;
        };
        kernel = kernel.make_clock id t₁.kernel;
      } in
      perf_counter_init sample_period t₂ >>= λ t₃. some (determ_task_set_scaling_factor 1 0 t₃)

  -- A thread other than the first maps the shared memory, which may end the program.
  unfoldable pub determ_task_clock_init_with_id : (id : ℕ) → Thread K → Option (Thread K)
  determ_task_clock_init_with_id id t = do
    k ← if id == 0 then some t.kernel else kernel.open_shared_mem t.kernel
    init_clock id (record t { kernel = k })

  abbrev pub determ_task_clock_single_active_thread : Thread K → Bool
  determ_task_clock_single_active_thread t = (status t).single_active_thread

  abbrev pub determ_task_clock_clear_single_active_thread : Thread K → Thread K
  determ_task_clock_clear_single_active_thread t =
      put_status (record (status t) { single_active_thread = false }) t

  abbrev pub determ_task_clock_read : Thread K → ℕ
  determ_task_clock_read t = add64 (status t).ticks t.info.coarsened_ticks_counter

  unfoldable pub determ_task_clock_reset : Thread K → Option (Thread K)
  determ_task_clock_reset t = request reset 0 t

  -- The two writes of determ_task_clock_on_wakeup
  unfoldable pub determ_task_clock_on_wakeup : Thread K → Thread K
  determ_task_clock_on_wakeup t = clear_lowest (put_disabled false t)

  -- __woke_up
  unfoldable pub tell_awake : Thread K → Option (Thread K)
  tell_awake t = do t₁ ← request woke_up 0 t; some (clear_lowest (put_disabled false t₁))
