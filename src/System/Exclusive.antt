-- ===== src/System/Exclusive.antt =====
-- The flags of the threads over any sequence of calls (src/module/clock_main.c).
use task_clock.Common.{
  ℕ, ◌≡◌, ◌≢◌, ◌<◌, inl, inr, sym, ◌∙◌, true, false, some, some_injective, List, arith, ◌∈◌, Result,
  Ensures, Ensures-eq, Ensures-map, Ensures-bind, Bool-cases,
}
use task_clock.Group.{Machine, Context, entry, clock_is_lower}
use task_clock.Search.{thread_arr_size, is_active}
use task_clock.Search.Fold.{IsLowestOf_unique}
use task_clock.Handlers.{
  task_clock_overflow_handler, task_clock_entry_woke_up, task_clock_entry_reset,
  task_clock_entry_is_singlestep,
}
use task_clock.Handlers.Lists.{IsWellFormed}
use task_clock.System.{
  Call, overflow_handler, entry_init, entry_activate, entry_halt, on_disable, on_enable,
  entry_activate_other, entry_wait, entry_sleep, overflow_update_period, add_ticks, entry_woke_up,
  entry_stop, entry_start, entry_reset, entry_start_no_notify, entry_stop_no_notify,
  entry_is_singlestep, notify_irq, run_call,
}
use task_clock.System.WellFormed.{listed_after}
use task_clock.System.Turn.{HasTurn, IsFair, Meanwhile, none_yet, then_call, stays_behind, step}
use task_clock.System.Truthful.{flag, Steady, Truthful}
use task_clock.System.Steady.{on_single_step-Steady}
use task_clock.System.Honest.{
  Fit, wait-Truthful, on_disable-Truthful, add_ticks-Truthful, stop-Truthful, on_enable-Truthful,
  start-Truthful,
}
use task_clock.System.Flags.{sleep-Truthful, halt-Truthful}
use task_clock.System.Announced.{notify-Truthful}
use task_clock.System.Activation.{
  overflow_handler-Steady, update_period-Steady, entry_init-Steady, stop_no_notify-Steady,
  start_no_notify-Steady, activate_other-Steady,
}
use task_clock.System.Taken.{Taken, activate-Taken}

-- A call outside NMI context, with the ids of the listed threads below 128.
abbrev pub Searches : Context → List ℕ → Type 0
Searches ctx xs = (ctx.in_nmi ≡ false) × ((i : ℕ) → i ∈ xs → i < thread_arr_size)

-- The same, by a listed thread that is initialised.
abbrev pub Determines : Context → Machine → List ℕ → Type 0
Determines ctx m xs =
    Searches ctx xs × (ctx.current ∈ xs) × ((entry m ctx.current).initialized ≡ true)

-- What a call has to meet to set the flag of nobody but the thread `t`.
abbrev pub Attends : ℕ → Context → Machine → List ℕ → Call → Type 0
Attends t ctx m xs entry_activate = m.group.lowest_tid ≡ some t
Attends t ctx m xs entry_halt = Searches ctx xs
Attends t ctx m xs notify_irq = Searches ctx xs
Attends t ctx m xs on_disable = Determines ctx m xs
Attends t ctx m xs on_enable = Determines ctx m xs
Attends t ctx m xs entry_wait = Determines ctx m xs
Attends t ctx m xs (entry_sleep fuel) = Determines ctx m xs
Attends t ctx m xs (add_ticks ticks) = Determines ctx m xs
Attends t ctx m xs entry_stop = Determines ctx m xs
Attends t ctx m xs entry_start = Determines ctx m xs
Attends t ctx m xs _ = Unit

-- Every call of the run does.
unfoldable pub AllAttend :
    (t : ℕ) {m m' : Machine} {xs xs' : List ℕ} → Meanwhile t m xs m' xs' → Type 0
AllAttend t none_yet = Unit
AllAttend t (then_call {m = m} {xs = xs} ctx call fair rest) =
    Attends t ctx m xs call × AllAttend t rest

module _ (t : ℕ) (ctx : Context) (m : Machine) (xs : List ℕ) (w : IsWellFormed m xs) where
  fits : Determines ctx m xs → Fit ctx xs m
  fits ((outside, small), mem, init) = record {
    well_formed = w;
    listed = mem;
    initialized = init;
    outside = outside;
    small = small;
  }

  -- What a call does to the flags: those that are set after it were set before, or belong to the
  -- lowest thread, or to a thread that takes the turn by activating itself.
  abbrev Flagged : Call → Machine → Type 0
  Flagged entry_activate m' = Taken ctx m m'
  Flagged call m' = Truthful m (listed_after ctx call xs) m'

  steady : (xs' : List ℕ) (m' : Machine) → Steady m m' → Truthful m xs' m'
  steady xs' m' s i h = inl (sym (s i) ∙ h)

  Steady-result :
      (xs' : List ℕ) (r : Result Machine) → Ensures (Steady m) r → Ensures (Truthful m xs') r
  Steady-result xs' r e = Ensures-map (Steady m) (Truthful m xs') r e (steady xs')

  run_call-Flagged :
      (call : Call) → Attends t ctx m xs call → Ensures (Flagged call) (run_call ctx call m)
  unfolding run_call task_clock_entry_woke_up task_clock_entry_reset task_clock_entry_is_singlestep
  run_call-Flagged (overflow_handler regs) a =
      Ensures-bind (λ r. Steady m r.1) (Truthful m xs) (task_clock_overflow_handler ctx regs m) _
        (overflow_handler-Steady ctx regs m) (λ (_, m') s. steady xs m' s)
  run_call-Flagged (entry_init event pte_found) a =
      Steady-result xs _ (entry_init-Steady ctx event pte_found m)
  run_call-Flagged entry_activate a = activate-Taken ctx m xs w
  run_call-Flagged entry_halt a = halt-Truthful ctx xs m w a.0 a.1
  run_call-Flagged on_disable a = on_disable-Truthful ctx xs m (fits a)
  run_call-Flagged on_enable a = on_enable-Truthful ctx xs m (fits a)
  run_call-Flagged (entry_activate_other id) a =
      Steady-result (listed_after ctx (entry_activate_other id) xs) _
        (activate_other-Steady ctx id m xs w)
  run_call-Flagged entry_wait a = wait-Truthful ctx xs m (fits a)
  run_call-Flagged (entry_sleep fuel) a = sleep-Truthful ctx xs fuel m (fits a)
  run_call-Flagged overflow_update_period a = Steady-result xs _ (update_period-Steady ctx m)
  run_call-Flagged (add_ticks ticks) a = add_ticks-Truthful ctx xs ticks m (fits a)
  run_call-Flagged entry_woke_up a = λ i h. inl h
  run_call-Flagged entry_stop a = stop-Truthful ctx xs m (fits a)
  run_call-Flagged entry_start a = start-Truthful ctx xs m (fits a)
  run_call-Flagged entry_reset a = λ i h. inl h
  run_call-Flagged entry_start_no_notify a = Steady-result xs _ (start_no_notify-Steady ctx m)
  run_call-Flagged entry_stop_no_notify a = Steady-result xs _ (stop_no_notify-Steady ctx m)
  run_call-Flagged (entry_is_singlestep regs) a =
      steady xs (task_clock_entry_is_singlestep ctx regs m).2 (on_single_step-Steady ctx regs m)
  run_call-Flagged notify_irq a = notify-Truthful ctx m xs w a.0 a.1

-- No flag is set but those that were, and that of `t`.
abbrev OnlyFlag : ℕ → Machine → Machine → Type 0
OnlyFlag t m m' = (j : ℕ) → j ≢ t → flag m' j ≡ true → flag m j ≡ true

module _ (t : ℕ) (ctx : Context) (m m₁ : Machine) (xs : List ℕ) (w : IsWellFormed m xs)
    (turn : HasTurn t m xs) where
  -- Two threads cannot both have the turn.
  lowest_only : (xs' : List ℕ) → HasTurn t m₁ xs' → Truthful m xs' m₁ → OnlyFlag t m m₁
  lowest_only xs' turn₁ truthful j ne h = elim (truthful j h) [
    | inl before ↦ before
    | inr other ↦ absurd (
        ne (
          some_injective (
            IsLowestOf_unique m₁.group (λ i. is_active (m₁.group.clocks i)) xs' (some j) (some t)
              other turn₁)))
  ]

  activate-OnlyFlag :
      IsFair t ctx entry_activate m xs m₁
      → m.group.lowest_tid ≡ some t
      → entry m₁ t ≡ entry m t
      → Taken ctx m m₁
      → OnlyFlag t m m₁
  activate-OnlyFlag fair recorded same taken j ne h = elim (taken j h) [
    | inl before ↦ before
    | inr (is, below) ↦
        let lower : clock_is_lower m₁.group ctx.current t ≡ true =
          below t recorded (λ e. fair.other (sym e)) in
        let behind : clock_is_lower m₁.group t ctx.current ≡ true =
          stays_behind t ctx m m₁ xs w turn ctx.current same fair.forward fair.modest in
        absurd (ground arith)
  ]

  flagged :
      (call : Call)
      → IsFair t ctx call m xs m₁
      → Attends t ctx m xs call
      → Flagged t ctx m xs w call m₁
  flagged call fair a =
      Ensures-eq (Flagged t ctx m xs w call) (run_call ctx call m) m₁ fair.returns
        (run_call-Flagged t ctx m xs w call a)

  -- One call sets the flag of `t` at most.
  call-OnlyFlag :
      (call : Call) → IsFair t ctx call m xs m₁ → Attends t ctx m xs call → OnlyFlag t m m₁
  call-OnlyFlag entry_activate fair a =
      let (w₁, turn₁, same) = step t ctx m m₁ xs w turn entry_activate fair in
      activate-OnlyFlag fair a same (flagged entry_activate fair a)
  call-OnlyFlag call fair a =
      let (w₁, turn₁, same) = step t ctx m m₁ xs w turn call fair in
      lowest_only (listed_after ctx call xs) turn₁ (flagged call fair a)

run-OnlyFlag :
    (t : ℕ) {m m' : Machine} {xs xs' : List ℕ}
    → IsWellFormed m xs
    → HasTurn t m xs
    → (calls : Meanwhile t m xs m' xs') → AllAttend t calls
    → OnlyFlag t m m'
unfolding AllAttend
run-OnlyFlag t w turn none_yet all j ne h = h
run-OnlyFlag t {m} {m'} {xs} w turn (then_call {m₁ = m₁} ctx call fair rest) (a, all) j ne h =
    let (w₁, turn₁, same₁) = step t ctx m m₁ xs w turn call fair in
    call-OnlyFlag t ctx m m₁ xs w turn call fair a j ne (run-OnlyFlag t w₁ turn₁ rest all j ne h)

-- While a thread has the turn and makes no call, a thread other than it whose flag says that it is
-- not the lowest is not told that it is: the flag stays unset over any number of calls of the other
-- threads. The calls keep to the conditions of `turn_kept`. Those that look for the lowest thread run
-- outside NMI context, with the ids of the active threads below 128, and, but for a halt and the queued
-- work, by an active thread that is initialised; a thread activates itself only while the recorded
-- lowest thread is the one that has the turn.
pub turn-exclusive :
    (t : ℕ) {m m' : Machine} {xs xs' : List ℕ}
    → IsWellFormed m xs
    → HasTurn t m xs
    → (calls : Meanwhile t m xs m' xs') → AllAttend t calls
    → (j : ℕ) → j ≢ t
    → flag m j ≡ false
    → flag m' j ≡ false
turn-exclusive t {m} {m'} w turn calls all j ne unset = elim (Bool-cases (flag m' j)) [
  | inl set ↦ absurd (ground (arith, run-OnlyFlag t w turn calls all j ne set))
  | inr clear ↦ clear
]
