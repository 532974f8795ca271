-- ===== src/Library/Waiting.antt =====
-- How a thread waits for its turn, and joins or leaves the group (src/lib/determ_clock.c).
use task_clock.Common.{
  ℕ, zero, suc, ◌%◌, ◌^◌, Bool, true, false, not, ◌&&◌, Option, some, if◌then◌else◌,
}
use task_clock.Library.{
  Kernel, Thread, wait, sleep, woke_up, activate, activate_other, add_ticks, halt, ◌>>=◌, status,
  put_status, put_disabled, clear_lowest, request, max_spin_int, perf_counter_stop, tell_awake,
}

module _ {K : Type 0} (kernel : Kernel K) where
  -- A request to wait, after which the thread counts as disabled.
  abbrev pub ask_to_wait : Thread K → Option (Thread K)
  ask_to_wait t = do t₁ ← request kernel wait 0 t; some (put_disabled kernel true t₁)

  -- The second half of determ_task_clock_is_lowest
  abbrev pub take_turn : Thread K → Option (Bool × Thread K)
  take_turn t =
      if (status kernel t).lowest_clock
      then tell_awake kernel t >>= (λ t₁. some (true, t₁))
      else some (false, t)

  unfoldable pub determ_task_clock_is_lowest : Thread K → Option (Bool × Thread K)
  determ_task_clock_is_lowest t =
      if not t.info.disabled && not (status kernel t).lowest_clock
      then ask_to_wait t >>= (λ t₁. take_turn t₁)
      else take_turn t

  -- The loop of determ_task_clock_is_lowest_wait, for at most `fuel` more rounds.
  unfoldable pub spin : (fuel : ℕ) → Thread K → Thread K
  spin zero t = t
  spin (suc fuel) t =
      let rest = spin fuel (record t { kernel = kernel.pass t.kernel }) in
      if (status kernel t).lowest_clock then t else rest

  -- What follows the loop, if the thread has not been told so far.
  abbrev pub sleep_if_untold : Thread K → Option (Thread K)
  sleep_if_untold t = if (status kernel t).lowest_clock then some t else do
    t₁ ← request kernel sleep 0 t
    some (
        if (status kernel t₁).lowest_clock
        then t₁
        else record t₁ { kernel = kernel.poll t₁.kernel })

  -- The end of determ_task_clock_is_lowest_wait, which returns whether the thread was disabled.
  abbrev pub wake_up : Bool → Thread K → Option (Bool × Thread K)
  wake_up polled t = do
    t₁ ← request kernel woke_up 0 t
    t₂ ← tell_awake kernel t₁
    some (polled, t₂)

  unfoldable pub determ_task_clock_is_lowest_wait : Thread K → Option (Bool × Thread K)
  determ_task_clock_is_lowest_wait t = ask_to_wait t >>= λ t₁.
      sleep_if_untold (spin max_spin_int t₁) >>= λ t₂. wake_up t.info.disabled t₂

  abbrev pub determ_task_clock_is_active : Thread K → Bool
  determ_task_clock_is_active t = t.info.disabled

  unfoldable pub determ_task_clock_activate : Thread K → Option (Thread K)
  determ_task_clock_activate t =
      request kernel activate 0 (put_disabled kernel false (clear_lowest kernel t))

  unfoldable pub determ_task_clock_add_ticks : (ticks : ℕ) → Thread K → Option (Thread K)
  determ_task_clock_add_ticks ticks t = request kernel add_ticks (ticks % 2 ^ 32) t

  -- The flag of the kernel, read and reset.
  abbrev pub take_activated_lowest : Thread K → Bool × Thread K
  take_activated_lowest t =
      if (status kernel t).activated_lowest
      then (true, put_status kernel (record (status kernel t) { activated_lowest = false }) t)
      else (false, t)

  unfoldable pub determ_task_clock_activate_other : (id : ℕ) → Thread K → Option (Bool × Thread K)
  determ_task_clock_activate_other id t =
      let t₁ = put_status kernel (record (status kernel t) { single_active_thread = false }) t in
      request kernel activate_other (id % 2 ^ 32) t₁ >>= λ t₂. some (take_activated_lowest t₂)

  unfoldable pub determ_task_clock_halt : Thread K → Option (Thread K)
  determ_task_clock_halt t =
      perf_counter_stop kernel t >>= λ t₁. request kernel halt 0 (put_disabled kernel true t₁)
