-- ===== src/Library/Sections.antt =====
-- The sections of a program that its clock counts, one by one or many as one coarsened section
-- (src/lib/determ_clock.c).
use task_clock.Common.{ℕ, ◌*◌, ◌/◌, ◌%◌, ◌^◌, true, false, Option, some, ltb, if◌then◌else◌}
use task_clock.Group.{word, add64, sub64}
use task_clock.Estimate.{tx_estimate_add_observation, tx_estimate_next_observation_guess}
use task_clock.Library.{
  Kernel, Thread, op_stop, op_start, op_start_coarsened, ◌>>=◌, status, put_disabled, clear_lowest,
  task_clock_do, perf_counter_start, determ_task_clock_read,
}
use task_clock.Library.Waiting.{determ_task_clock_add_ticks}

-- The difference of two readings of the counter, which has 48 bits.
abbrev pub raw_delta : (new_raw last_raw : ℕ) → ℕ
raw_delta new_raw last_raw = sub64 ((new_raw * 2 ^ 16) % word) ((last_raw * 2 ^ 16) % word) / 2 ^ 16

module _ {K : Type 0} (kernel : Kernel K) where
  -- __rdpmc of the counter that the status record names, which may take the system on. The operand
  -- `=A` is the register pair edx:eax on i386, and rax alone on x86-64, where `rdpmc` leaves the low
  -- 32 bits in it.
  abbrev pub read_counter : Thread K → ℕ × Thread K
  read_counter t =
      let (raw, k) = kernel.rdpmc (status kernel t).hwc_idx t.kernel in
      (if kernel.x86_64 then raw % 2 ^ 32 else raw, record t { kernel = k })

  abbrev pub note_clock : Thread K → Thread K
  note_clock t = record t {
    info = record (t.info) { last_clock_value = determ_task_clock_read kernel t };
  }

  -- __determ_task_clock_start, of a section by itself and of a coarsened one. In the source the ticks
  -- that it might add before the start are always 0.
  abbrev pub prepare_start : Thread K → Thread K
  prepare_start t = note_clock (clear_lowest kernel (put_disabled kernel false t))

  unfoldable pub determ_task_clock_start : Thread K → Option (Thread K)
  determ_task_clock_start t =
      if (prepare_start t).info.started
      then some (task_clock_do kernel op_start (prepare_start t))
      else perf_counter_start kernel (prepare_start t)

  unfoldable pub start_coarsened : Thread K → Thread K
  start_coarsened t = task_clock_do kernel op_start_coarsened (prepare_start t)

  abbrev pub put_last_raw : ℕ × Thread K → Thread K
  put_last_raw (raw, t) = record t { info = record (t.info) { last_raw_perf = raw } }

  abbrev pub begin_section : Thread K → Thread K
  begin_section t =
      let first = start_coarsened t in
      if t.info.in_coarsened_tx
      then note_clock t
      else record first { info = record (first.info) { in_coarsened_tx = true } }

  unfoldable pub determ_task_clock_start_no_notify : Thread K → Thread K
  determ_task_clock_start_no_notify t = put_last_raw (read_counter (begin_section t))

  abbrev pub determ_task_clock_get_last_tx_size : Thread K → ℕ
  determ_task_clock_get_last_tx_size t =
      sub64 (determ_task_clock_read kernel t) t.info.last_clock_value

  abbrev pub observe : (id ticks : ℕ) → Thread K → Thread K
  observe id ticks t = record t {
    info = record (t.info) {
      estimator = tx_estimate_add_observation kernel.out_of_range id ticks t.info.estimator;
    };
  }

  -- __determ_task_clock_stop_with_id, of a section by itself and of a part of a coarsened one
  unfoldable pub determ_task_clock_stop_with_id : (id : ℕ) → Thread K → Thread K
  determ_task_clock_stop_with_id id t =
      let t₁ = task_clock_do kernel op_stop t in
      observe id (determ_task_clock_get_last_tx_size t₁) t₁

  abbrev pub add_section : ℕ × Thread K → Thread K
  add_section (new_raw, t) = record t {
    info = record (t.info) {
      coarsened_ticks_counter =
          add64 t.info.coarsened_ticks_counter (raw_delta new_raw t.info.last_raw_perf);
      current_raw_perf = new_raw;
    };
  }

  unfoldable pub determ_task_clock_stop_with_id_no_notify : (id : ℕ) → Thread K → Thread K
  determ_task_clock_stop_with_id_no_notify id t =
      let (new_raw, t₁) = read_counter t in
      observe id (raw_delta new_raw t₁.info.last_raw_perf) (add_section (new_raw, t₁))

  -- determ_task_clock_stop and determ_task_clock_stop_no_notify
  abbrev pub determ_task_clock_stop : Thread K → Thread K
  determ_task_clock_stop t = determ_task_clock_stop_with_id 0 t

  abbrev pub determ_task_clock_stop_no_notify : Thread K → Thread K
  determ_task_clock_stop_no_notify t = determ_task_clock_stop_with_id_no_notify 0 t

  unfoldable pub determ_task_clock_end_coarsened_tx : Thread K → Option (Thread K)
  determ_task_clock_end_coarsened_tx t = do
    t₁ ←
        (if ltb 0 t.info.coarsened_ticks_counter
          then determ_task_clock_add_ticks kernel t.info.coarsened_ticks_counter t
          else some t)
    some (record t₁ {
      info = record (t₁.info) { in_coarsened_tx = false; coarsened_ticks_counter = 0 };
    })

  abbrev pub determ_task_clock_estimate_next_tx : (id : ℕ) → Thread K → ℕ
  determ_task_clock_estimate_next_tx id t = tx_estimate_next_observation_guess t.info.estimator id
