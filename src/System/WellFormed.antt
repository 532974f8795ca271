-- ===== src/System/WellFormed.antt =====
-- The well-formedness of the group over any sequence of calls (src/module/clock_main.c).
use task_clock.Common.{
  ℕ, ◌≡◌, ◌∙◌, sym, true, List, [], ◌∷◌, ◌++◌, arith, ◌∉◌, erase, Result, ok, Ensures, Ensures-bind,
  Ensures-map, Ensures-eq,
}
use task_clock.Group.{Entry, Machine, Context, entry}
use task_clock.Handlers.{task_clock_group_init, task_clock_overflow_handler, task_clock_entry_reset}
use task_clock.Handlers.Lists.{IsWellFormed}
use task_clock.Handlers.GroupInit.{task_clock_group_init_lem}
use task_clock.System.{
  Call, overflow_handler, entry_init, entry_activate, entry_halt, on_disable, on_enable,
  entry_activate_other, entry_wait, entry_sleep, overflow_update_period, add_ticks, entry_woke_up,
  entry_stop, entry_start, entry_reset, entry_start_no_notify, entry_stop_no_notify,
  entry_is_singlestep, notify_irq, run_call, run_calls,
}
use task_clock.System.Quiet.{Own}
use task_clock.System.Notices.{notify-Own}
use task_clock.System.Calls.{
  wait-Own, update_period-Own, overflow_handler-Own, on_disable-Own, add_ticks-Own, on_enable-Own,
  start-Own, stop-Own, stop_no_notify-Own, start_no_notify-Own, woke_up-Own, is_singlestep-Own,
  sleep-Own,
}
use task_clock.System.Listing.{
  OnlyEntry, ActivatedBy, Own-IsWellFormed, halt-OnlyEntry, activate-OnlyEntry,
  activate_other-OnlyEntry, entry_init-OnlyEntry, reset-OnlyEntry,
}

-- The thread whose entry a call may change.
abbrev pub touched : Context → Call → ℕ
touched ctx (entry_activate_other id) = id
touched ctx _ = ctx.current

-- The active threads after a call, in the order they were listed in.
abbrev pub listed_after : Context → Call → List ℕ → List ℕ
listed_after ctx entry_halt xs = erase ctx.current xs
listed_after ctx entry_activate xs = xs ++ (ctx.current ∷ [])
listed_after ctx (entry_activate_other id) xs = xs ++ (id ∷ [])
listed_after ctx _ xs = xs

unfoldable pub listed_after_all : List (Context × Call) → List ℕ → List ℕ
listed_after_all [] xs = xs
listed_after_all ((ctx, call) ∷ rest) xs = listed_after_all rest (listed_after ctx call xs)

module _ (ctx : Context) (m : Machine) (xs : List ℕ) (w : IsWellFormed m xs) where
  -- What holds of the thread whose entry changes: it was not listed before, or not initialised by the
  -- call.
  abbrev pub Arrives : Call → Machine → Type 0
  Arrives (entry_init event pte_found) m' = Unit
  Arrives entry_activate m' = ctx.current ∉ xs
  Arrives (entry_activate_other id) m' = ActivatedBy ctx m xs w id m'
  Arrives entry_halt m' = Unit
  Arrives _ m' =
      (entry m' ctx.current).initialized ≡ true → (entry m ctx.current).initialized ≡ true

  -- A call leaves a well-formed group, with the list that the calls spell out, and the entries of
  -- all threads but one as they were.
  abbrev pub Kempt : Call → Machine → Type 0
  Kempt call m' =
      OnlyEntry ctx m xs w (touched ctx call) (listed_after ctx call xs) m' × Arrives call m'

  abbrev OwnCall : Machine → Type 0
  OwnCall m' =
      OnlyEntry ctx m xs w ctx.current xs m'
      × ((entry m' ctx.current).initialized ≡ true → (entry m ctx.current).initialized ≡ true)

  own : (m' : Machine) → Own ctx m m' → OwnCall m'
  own m' o = ((Own-IsWellFormed ctx m m' xs w o, o.others), λ h. sym o.initialized ∙ h)

  Own-result : (r : Result Machine) → Ensures (Own ctx m) r → Ensures OwnCall r
  Own-result r o = Ensures-map (Own ctx m) OwnCall r o own

  reset-uninitialized : ¬ ((entry (task_clock_entry_reset ctx m) ctx.current).initialized ≡ true)
  unfolding task_clock_entry_reset
  reset-uninitialized h = ground arith

  pub run_call-Kempt : (call : Call) → Ensures (Kempt call) (run_call ctx call m)
  unfolding run_call
  run_call-Kempt (overflow_handler regs) =
      Ensures-bind (λ r. Own ctx m r.1) (Kempt (overflow_handler regs))
        (task_clock_overflow_handler ctx regs m) _ (overflow_handler-Own ctx regs m)
        (λ (_, m') o. own m' o)
  run_call-Kempt (entry_init event pte_found) =
      Ensures-map (OnlyEntry ctx m xs w ctx.current xs) (Kempt (entry_init event pte_found)) _
        (entry_init-OnlyEntry ctx m xs w event pte_found) (λ m' o. (o, tt))
  run_call-Kempt entry_activate = activate-OnlyEntry ctx m xs w
  run_call-Kempt entry_halt =
      Ensures-map (OnlyEntry ctx m xs w ctx.current (erase ctx.current xs)) (Kempt entry_halt) _
        (halt-OnlyEntry ctx m xs w) (λ m' o. (o, tt))
  run_call-Kempt on_disable = Own-result _ (on_disable-Own ctx m)
  run_call-Kempt on_enable = Own-result _ (on_enable-Own ctx m)
  run_call-Kempt (entry_activate_other id) = activate_other-OnlyEntry ctx m xs w id
  run_call-Kempt entry_wait = Own-result _ (wait-Own ctx m)
  run_call-Kempt (entry_sleep fuel) = Own-result _ (sleep-Own ctx fuel m)
  run_call-Kempt overflow_update_period = Own-result _ (update_period-Own ctx m)
  run_call-Kempt (add_ticks ticks) = Own-result _ (add_ticks-Own ctx ticks m)
  run_call-Kempt entry_woke_up = own _ (woke_up-Own ctx m)
  run_call-Kempt entry_stop = Own-result _ (stop-Own ctx m)
  run_call-Kempt entry_start = Own-result _ (start-Own ctx m)
  run_call-Kempt entry_reset = (reset-OnlyEntry ctx m xs w, λ h. absurd (reset-uninitialized h))
  run_call-Kempt entry_start_no_notify = Own-result _ (start_no_notify-Own ctx m)
  run_call-Kempt entry_stop_no_notify = Own-result _ (stop_no_notify-Own ctx m)
  run_call-Kempt (entry_is_singlestep regs) = own _ (is_singlestep-Own ctx regs m)
  run_call-Kempt notify_irq = Own-result _ (notify-Own ctx m)

run_calls-IsWellFormed :
    (calls : List (Context × Call)) (m : Machine) (xs : List ℕ)
    → IsWellFormed m xs
    → Ensures (λ m'. IsWellFormed m' (listed_after_all calls xs)) (run_calls calls m)
unfolding run_calls listed_after_all
run_calls-IsWellFormed [] m xs w = w
run_calls-IsWellFormed ((ctx, call) ∷ rest) m xs w =
    Ensures-bind (Kempt ctx m xs w call)
      (λ m'. IsWellFormed m' (listed_after_all rest (listed_after ctx call xs)))
      (run_call ctx call m) _ (run_call-Kempt ctx m xs w call)
      (λ m₁ k. run_calls-IsWellFormed rest m₁ (listed_after ctx call xs) k.0.0)

-- From a new group.
pub system-IsWellFormed :
    (max_threads : ℕ) (memory : ℕ → Entry) (m₀ m : Machine) (calls : List (Context × Call))
    → m₀.group ≡ task_clock_group_init max_threads memory
    → run_calls calls m₀ ≡ ok m
    → IsWellFormed m (listed_after_all calls [])
system-IsWellFormed max_threads memory m₀ m calls start runs =
    let (empty, _, _) = task_clock_group_init_lem max_threads memory in
    Ensures-eq (λ m'. IsWellFormed m' (listed_after_all calls [])) (run_calls calls m₀) m runs
      (run_calls-IsWellFormed calls m₀ []
        (record { listed = rw start empty; active = λ i mem. ground arith }))
