-- ===== src/System/Activation.antt =====
-- The calls that do not look for the lowest active thread, and what they do to the flags of the
-- threads (src/module/clock_main.c).
use task_clock.Common.{
  ℕ, refl, ap, ◌∙◌, Bool, not, ◌&&◌, Option, none, some, List, arith, Result, ok, bug, Ensures,
  Ensures-bind, Ensures-if, Ensures-trivial, Ensures-map,
}
use task_clock.Group.{
  PerfEvent, UserStatus, Machine, Context, mark_as_active, tick_counter_is_running,
}
use task_clock.Counter.{logical_clock_update_clock_ticks, logical_clock_reset_current_ticks}
use task_clock.Notify.{new_lowest}
use task_clock.Handlers.{
  begin_entry, clear_entry, maps_status, map_status, announce_new_low,
  task_clock_entry_overflow_update_period, task_clock_overflow_handler, task_clock_entry_init,
  task_clock_entry_activate_other, task_clock_entry_start_no_notify,
  task_clock_entry_stop_no_notify,
}
use task_clock.Handlers.Lists.{IsWellFormed}
use task_clock.Handlers.Threads.{prepared, prepared-IsWellFormed}
use task_clock.System.Listing.{MadeActive, mark_as_active-Ensures}
use task_clock.System.Truthful.{Steady}
use task_clock.System.Steady.{
  Steady-if, update_clock_ticks-Steady, read_clock-Steady, reset_current_ticks-Steady,
  set_perf_counter_max-Steady, update_overflow_period-Steady,
}

pub Steady-Ensures :
    (m m₁ : Machine) (r : Result Machine)
    → Steady m m₁
    → Ensures (Steady m₁) r
    → Ensures (Steady m) r
Steady-Ensures m m₁ r s e = Ensures-map (Steady m₁) (Steady m) r e (λ m' s' t. s' t ∙ s t)

module _ (ctx : Context) where
  announce-Steady : (low : Option ℕ) (m : Machine) → Steady m (announce_new_low ctx low m)
  announce-Steady none m = λ t. refl
  announce-Steady (some l) m = Steady-if m _ _ m (λ t. refl) (λ t. refl)

  pub overflow_handler-Steady :
      (regs : Bool) (m : Machine)
      → Ensures (λ r. Steady m r.1) (task_clock_overflow_handler ctx regs m)
  unfolding task_clock_overflow_handler
  overflow_handler-Steady regs m =
      Ensures-if (λ r. Steady m r.1) (tick_counter_is_running ctx m) _ (ok (regs, m))
        (Ensures-bind (λ _. Unit {0}) (λ r. Steady m r.1)
          (new_lowest ctx.in_nmi m.group ctx.current) _ (Ensures-trivial _)
          (λ low _. announce-Steady low m))
        (λ t. refl)

  pub update_period-Steady :
      (m : Machine) → Ensures (Steady m) (task_clock_entry_overflow_update_period ctx m)
  unfolding task_clock_entry_overflow_update_period
  update_period-Steady m =
      Ensures-if (Steady m) (tick_counter_is_running ctx m) _ (ok m)
        (Steady-Ensures m (logical_clock_update_clock_ticks ctx ctx.current m) _
          (update_clock_ticks-Steady ctx m)
          (update_overflow_period-Steady ctx (logical_clock_update_clock_ticks ctx ctx.current m)))
        (λ t. refl)

  map_status-Steady : (m : Machine) → Steady m (map_status ctx m)
  unfolding map_status
  map_status-Steady m = Steady-if m (maps_status ctx m) _ m (λ t. refl) (λ t. refl)

  begin-Steady :
      (event : PerfEvent) (m : Machine) → Steady m (clear_entry ctx (begin_entry ctx event m))
  unfolding clear_entry begin_entry
  begin-Steady event m t = ground arith

  pub entry_init-Steady :
      (event : PerfEvent) (pte_found : Bool) (m : Machine)
      → Ensures (Steady m) (task_clock_entry_init ctx event pte_found m)
  unfolding task_clock_entry_init
  entry_init-Steady event pte_found m =
      let m₁ = clear_entry ctx (begin_entry ctx event m) in
      Ensures-if (Steady m) (maps_status ctx m₁ && not pte_found) bug _ tt
        (λ t. ground arith ∙ map_status-Steady m₁ t ∙ begin-Steady event m t)

  pub stop_no_notify-Steady :
      (m : Machine) → Ensures (Steady m) (task_clock_entry_stop_no_notify ctx m)
  unfolding task_clock_entry_stop_no_notify
  stop_no_notify-Steady m = read_clock-Steady ctx m

  pub start_no_notify-Steady :
      (m : Machine) → Ensures (Steady m) (task_clock_entry_start_no_notify ctx m)
  unfolding task_clock_entry_start_no_notify
  start_no_notify-Steady m =
      Ensures-bind (Steady m) (Steady m) (logical_clock_reset_current_ticks ctx ctx.current _) _
        (reset_current_ticks-Steady ctx _)
        (λ m₁ s t. ground arith ∙ set_perf_counter_max-Steady ctx m₁ t ∙ s t)

  pub activate_other-Steady :
      (id : ℕ) (m : Machine) (xs : List ℕ)
      → IsWellFormed m xs
      → Ensures (Steady m) (task_clock_entry_activate_other ctx id m)
  unfolding task_clock_entry_activate_other
  activate_other-Steady id m xs w =
      let w₀ = prepared-IsWellFormed ctx m xs id w in
      Ensures-bind (MadeActive (prepared ctx m xs id) xs w₀ id) (Steady m)
        (mark_as_active id (prepared ctx m xs id)) _
        (mark_as_active-Ensures (prepared ctx m xs id) xs w₀ id)
        (λ m₁ (lt, out, w₁, k) t.
          ground (arith, ap (λ (st : ℕ → UserStatus). (st t).lowest_clock) k.status))
