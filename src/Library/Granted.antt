-- ===== src/Library/Granted.antt =====
-- The library on top of the kernel module: asking for the turn (src/lib/determ_clock.c with
-- src/module/clock_main.c).
use task_clock.Common.{
  ℕ, ◌≡◌, ◌<◌, refl, ap, ◌∙◌, Bool, true, false, not, Option, some, List, arith, is_tid, ◌∈◌,
}
use task_clock.Listarray.Represents.{Represents}
use task_clock.Group.{UserStatus, Machine, Context, put_status, current_is_only_active_thread}
use task_clock.Search.{thread_arr_size, is_active}
use task_clock.Search.Fold.{IsLowestOf}
use task_clock.Handlers.{task_clock_entry_woke_up}
use task_clock.Handlers.Wait.{task_clock_entry_wait_lem}
use task_clock.Library.{Kernel, Thread, put_disabled, clear_lowest, tell_awake}
use task_clock.Library.Waiting.{take_turn, determ_task_clock_is_lowest}
use task_clock.Library.Composed.{IsDispatched}

module _ (ctx : Context) (kernel : Kernel Machine) (d : IsDispatched ctx kernel) where
  abbrev flag_of : Thread Machine → Bool
  flag_of t = (t.kernel.status ctx.current).lowest_clock

  seen : (m : Machine) → (kernel.status m).lowest_clock ≡ (m.status ctx.current).lowest_clock
  seen m = ap (λ (u : UserStatus). u.lowest_clock) (d.reads m)

  -- The thread after it has taken its turn.
  abbrev awake : Thread Machine → Thread Machine
  awake t =
      clear_lowest kernel
        (put_disabled kernel false (record t { kernel = task_clock_entry_woke_up ctx t.kernel }))

  takes : (t : Thread Machine) → flag_of t ≡ true → take_turn kernel t ≡ some (true, awake t)
  unfolding tell_awake
  takes t told = rw (seen t.kernel ∙ told, d.wakes t.kernel) refl

  waits_on : (t : Thread Machine) → flag_of t ≡ false → take_turn kernel t ≡ some (false, t)
  waits_on t untold = rw (seen t.kernel ∙ untold) refl

  cleared : (u : UserStatus) (m : Machine) → ((put_status m ctx.current u).status ctx.current) ≡ u
  cleared u m = ground arith

  awake-untold : (t : Thread Machine) → flag_of (awake t) ≡ false
  awake-untold t =
      let m = task_clock_entry_woke_up ctx t.kernel in
      let u : UserStatus = record (kernel.status m) { lowest_clock = false } in
      ap (λ (m' : Machine). (m'.status ctx.current).lowest_clock) (d.writes u m)
      ∙ ap (λ (v : UserStatus). v.lowest_clock) (cleared u m)

  -- Whether a thread has been told decides what it takes.
  turn_taken :
      (b : Bool) (t : Thread Machine)
      → t.info.disabled ≡ true
      → flag_of t ≡ b
      → (t' : Thread Machine) × (take_turn kernel t ≡ some (b, t'))
        × (t'.info.disabled ≡ not b)
        × (flag_of t' ≡ false)
  turn_taken true t off told = (awake t, takes t told, refl, awake-untold t)
  turn_taken false t off untold = (t, waits_on t untold, off, untold)

  -- On top of the module, a thread that is neither disabled nor told is answered, when it asks for its
  -- turn, that it has it exactly if it is the active thread with the lowest clock. With the turn it
  -- goes on enabled, and without it counts as disabled; its flag is not set in either case. This is
  -- outside NMI context, with the status records mapped, ids of active threads below 128, and a
  -- calling thread that is not the only active one.
  pub is_lowest_lem :
      (t : Thread Machine) (xs : List ℕ)
      → ctx.in_nmi ≡ false
      → Represents t.kernel.group.active_threads xs
      → ((i : ℕ) → i ∈ xs → i < thread_arr_size)
      → t.kernel.group.user_status_arr ≡ true
      → current_is_only_active_thread ctx t.kernel ≡ false
      → t.info.disabled ≡ false
      → flag_of t ≡ false
      → (low : Option ℕ) × (t' : Thread Machine) × (determ_task_clock_is_lowest kernel t
          ≡ some (is_tid low ctx.current, t'))
        × IsLowestOf t.kernel.group (λ j. is_active (t.kernel.group.clocks j)) xs low
        × (t'.info.disabled ≡ not (is_tid low ctx.current))
        × (flag_of t' ≡ false)
  unfolding determ_task_clock_is_lowest
  is_lowest_lem t xs outside r small mapped others on untold =
      let (low, m', runs, is, waited) =
        task_clock_entry_wait_lem ctx t.kernel xs outside r small mapped others in
      let t₁ : Thread Machine = put_disabled kernel true (record t { kernel = m' }) in
      let (t', takes_it, disabled, clear) =
        turn_taken (is_tid low ctx.current) t₁ refl waited.granted in
      (
        low,
        t',
        rw (on, seen t.kernel ∙ untold, d.waits t.kernel m' runs) takes_it,
        is,
        disabled,
        clear,
      )
